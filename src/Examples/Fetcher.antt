-- ===== src/Examples/Fetcher.antt =====
-- A round of fetching over one user's branches.
use ktest.Prelude.{
  ◌≡◌, refl, true, false, List, [], ◌∷◌, ◌++◌, Option, none, some, if◌then◌else◌, ◌==◌, length,
}
use ktest.Prelude.Result.{ok, err}
use ktest.Text.{Text, lit, text_eq}
use ktest.Users.{RcBranch, not_defined}
use ktest.Daemon.Fetcher.{Fetch, Fetching, Refs, all_branches, fetch_round}
use ktest.Daemon.Fetcher.Refs.{fetch_of, fetch_round-brought}
use ktest.Examples.Data.{ktestrc}

abbrev linux_branch : Text → RcBranch
linux_branch remote = record { fetch = remote; repo = lit "linux"; test_groups = [] }

-- The fetches of a user with three branches, one of a repository without a path, beside a user
-- whose file has an error.
abbrev fetches_of_users : List Fetch
fetches_of_users = all_branches ktestrc (
    (
      lit "ann",
      ok (record {
        test_groups = [];
        branches =
            (lit "lost", record { fetch = lit "origin x"; repo = lit "nowhere"; test_groups = [] })
            ∷ (lit "main", linux_branch (lit "origin main"))
            ∷ (lit "next", linux_branch (lit "origin next"))
            ∷ [];
      }),
    )
    ∷ (lit "bob", err (not_defined (lit "g")))
    ∷ [])

-- git with a remote that has only `main`.
abbrev git : Fetching
git = record {
  fetches = λ path args. args == lit "origin main";
  fetch_head = λ path args. some (lit "c2");
  sets = λ path name. true;
}

abbrev refs : Refs
refs = λ path name. some (lit "c1")

fetch_round-brought_example :
    fetch_round git fetches_of_users refs (lit "/srv/linux") (lit "ann/main") ≡ some (lit "c2")
unfolding fetch_of all_branches ktest.BTreeMap.get ktest.Text.text_beq ktest.Prelude.contains
fetch_round-brought_example =
    fetch_round-brought git fetches_of_users refs (lit "/srv/linux") (lit "ann/main")
      (refl, (refl, tt))

two_fetches : length fetches_of_users ≡ 2
unfolding all_branches ktest.BTreeMap.get ktest.Text.text_beq
two_fetches = refl

kept : fetch_round git fetches_of_users refs (lit "/srv/linux") (lit "ann/next") ≡ some (lit "c1")
unfolding fetch_round all_branches ktest.BTreeMap.get ktest.Text.text_beq
kept = refl
