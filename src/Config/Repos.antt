-- ===== src/Config/Repos.antt =====
-- Which repositories the lookups of the configuration know.
use ktest.Prelude.{◌≡◌, true, arith, is_some, ◌↔◌, eq_iff, ◌⊎◌}
use ktest.Text.{Text, lit, text_eq}
use ktest.BTreeMap.{get}
use ktest.Config.{Ktestrc, repo_path, repo_url, repo_path_url}

-- A path is known for every configured name and for "linux", and for no other; a URL that workers
-- check out from exists exactly for the configured names.
repo_path_iff :
    (rc : Ktestrc) (name : Text)
    → ((is_some (repo_path rc name) ≡ true)
        ↔ ((is_some (get name rc.repos) ≡ true) ⊎ (name ≡ lit "linux")))
      × (is_some (repo_path_url rc name) ≡ is_some (get name rc.repos))
      × (is_some (repo_url rc name) ≡ is_some (get name rc.repos))
unfolding repo_path repo_path_url repo_url
repo_path_iff rc name = ground (arith, eq_iff name (lit "linux"))
