-- ===== src/Daemon/Fetcher.antt =====
-- What the daemon does beside the batches (src/bin/ci-daemon.rs): the fetching of the branches, and
-- the executors that it starts. git is a parameter.
pub mod Refs
use ktest.Prelude.{
  ℕ, zero, suc, ◌+◌, ◌/◌, ◌%◌, ◌^◌, ◌≡◌, Bool, true, false, ◌&&◌, List, [], ◌∷◌, ◌++◌, Option, none,
  some, if◌then◌else◌, ◌==◌, leb, unwrap_or, flat_map, map, length,
}
use ktest.Prelude.Result.{Result, ok, err}
use ktest.Text.{Text, lit, text_eq}
use ktest.BTreeMap.{BTreeMap, values}
use ktest.Users.{Userrc, RcBranch, ConfigError}
use ktest.Config.{Ktestrc, CiConfig, ExecutorHost, repo_path}

-- One branch to fetch.
pub record Fetch : Type 0 where
  pub user : Text
  pub branch : Text
  pub path : Text
  pub fetch : Text

-- The snapshot that `spawn_repo_fetcher` takes of the configuration.
unfoldable pub branches_of : Ktestrc → Text → BTreeMap RcBranch → List Fetch
unfolding repo_path
branches_of rc user [] = []
branches_of rc user ((branch, bc) ∷ bs) =
    let rest = branches_of rc user bs in
    elim (repo_path rc bc.repo) [
      | none ↦ rest
      | some path ↦ record { user = user; branch = branch; path = path; fetch = bc.fetch } ∷ rest
    ]

unfoldable pub all_branches : Ktestrc → BTreeMap (Result ConfigError Userrc) → List Fetch
unfolding branches_of
all_branches rc [] = []
all_branches rc ((user, err e) ∷ us) = all_branches rc us
all_branches rc ((user, ok u) ∷ us) = branches_of rc user u.branches ++ all_branches rc us

-- The local references, by the path of the repository and the name.
abbrev pub Refs : Type 0
Refs = Text → Text → Option Text

abbrev pub set_ref : Text → Text → Text → Refs → Refs
set_ref path name id refs = λ p n. if p == path && n == name then some id else refs p n

-- The calls of git: whether `git fetch` with some arguments succeeds in a repository, the commit
-- of FETCH_HEAD after it, if the repository opens, and whether the branch can be set.
pub record Fetching : Type 0 where
  pub fetches : Text → Text → Bool
  pub fetch_head : Text → Text → Option Text
  pub sets : Text → Text → Bool

abbrev pub ref_name : Text → Text → Text
ref_name user branch = user ++ (lit "/" ++ branch)

-- The commit that a fetch brings to the local reference, if all its steps succeed.
abbrev pub fetched : Fetching → Fetch → Option Text
fetched git f =
    if git.fetches f.path f.fetch && git.sets f.path (ref_name f.user f.branch)
    then git.fetch_head f.path f.fetch
    else none

-- `fetch_branch`; an error is logged by the caller.
unfoldable pub fetch_branch : Fetching → Fetch → Refs → Refs
fetch_branch git f refs = elim (git.fetches f.path f.fetch) [
  | false ↦ refs
  | true ↦ elim (git.fetch_head f.path f.fetch) [
    | none ↦ refs
    | some id ↦
        let name = ref_name f.user f.branch in
        if git.sets f.path name then set_ref f.path name id refs else refs
  ]
]

-- One round of the thread.
unfoldable pub fetch_round : Fetching → List Fetch → Refs → Refs
unfolding fetch_branch
fetch_round git [] refs = refs
fetch_round git (f ∷ fs) refs = fetch_round git fs (fetch_branch git f refs)

-- The executors of one host, and of all.
unfoldable pub host_slots : Text → ℕ → ℕ → List (Text × ℕ)
host_slots host slot zero = []
host_slots host slot (suc n) = (host, slot) ∷ host_slots host (slot + 1) n

unfoldable pub executors_of : BTreeMap ExecutorHost → List (Text × ℕ)
unfolding host_slots
executors_of [] = []
executors_of ((host, ex) ∷ hs) = host_slots host 0 ex.slots ++ executors_of hs

-- `sum` over u32.
unfoldable pub total_slots : BTreeMap ExecutorHost → ℕ
total_slots [] = 0
total_slots ((host, ex) ∷ hs) = (ex.slots + total_slots hs) % 2 ^ 32

abbrev pub budget : Ktestrc → ℕ
budget rc = unwrap_or rc.subtest_duration_max 600

-- Whether the window has drained so far that it is filled again.
abbrev pub is_drained : ℕ → ℕ → Bool
is_drained pending window = leb pending (window / 4)
