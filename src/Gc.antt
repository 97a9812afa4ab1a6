-- ===== src/Gc.antt =====
-- gc-results (src/bin/gc-results.rs): which entries of the output directory are removed.
pub mod Live
use ktest.Prelude.{
  ℕ, ◌-◌, Bool, true, false, List, [], ◌∷◌, ◌++◌, Option, none, some, if◌then◌else◌, ◌&&◌, not,
  length, take, filter_map, ltb, contains, unwrap_or, is_some,
}
use ktest.Prelude.Result.{Result, ok, err}
use ktest.Text.{Text, lit, text_eq}
use ktest.BTreeMap.{BTreeMap}
use ktest.Users.{Userrc, RcBranch, ConfigError}
use ktest.Config.{Ktestrc, CiConfig, repo_path}
use ktest.Git.{Git, readable}
use ktest.CiStatus.{slice_to}

-- `find_commit(i).ok()`, by the message that it has.
abbrev pub found : (Text → Option Text) → Text → Option Text
found message id = elim (message id) [ none ↦ none | some m ↦ some id ]

module _ {Repo : Type 0} (git : Git Repo) where
  unfoldable pub branch_get_commits : Repo → Text → ℕ → List Text
  branch_get_commits repo branch max_commits = elim (git.resolve repo branch) [
    | none ↦ []
    | some id ↦ elim (git.walk repo id) [
      | none ↦ []
      | some walked ↦
          filter_map (found (git.message repo)) (take max_commits (filter_map readable walked))
    ]
  ]

  -- The loops of `get_live_commits`; the set is a list in which only membership counts.
  unfoldable pub live_of_branch : Ktestrc → ℕ → Text → Text → RcBranch → List Text
  unfolding branch_get_commits
  live_of_branch rc depth user branch config = elim (repo_path rc config.repo) [
    | none ↦ []
    | some path ↦ elim (git.open_repo path) [
      | none ↦ []
      | some repo ↦ branch_get_commits repo (user ++ (lit "/" ++ branch)) depth
    ]
  ]

  unfoldable pub live_of_branches : Ktestrc → ℕ → Text → BTreeMap RcBranch → List Text
  unfolding live_of_branch
  live_of_branches rc depth user [] = []
  live_of_branches rc depth user ((branch, config) ∷ bs) =
      live_of_branch rc depth user branch config ++ live_of_branches rc depth user bs

  unfoldable pub live_of_users : Ktestrc → ℕ → BTreeMap (Result ConfigError Userrc) → List Text
  unfolding live_of_branches
  live_of_users rc depth [] = []
  live_of_users rc depth ((user, err e) ∷ us) = live_of_users rc depth us
  live_of_users rc depth ((user, ok userconfig) ∷ us) =
      live_of_branches rc depth user userconfig.branches ++ live_of_users rc depth us

  unfoldable pub get_live_commits : CiConfig → List Text
  unfolding live_of_users
  get_live_commits rc =
      live_of_users rc.ktest (unwrap_or rc.ktest.keep_results_commits 500) rc.users

-- An entry of the output directory: its name if it is text, and its modification time in seconds
-- if it can be read.
pub record OutputEntry : Type 0 where
  pub name : Option Text
  pub mtime : Option ℕ

-- `result_is_live`: the answer, and the entry, whose time is set to now if its commit is live and
-- the file can be opened and changed. The slice of the name panics inside a character.
unfoldable pub result_is_live :
    ℕ → (Text → Bool) → List Text → OutputEntry → Option (Bool × OutputEntry)
unfolding slice_to
result_is_live now touches commits d = elim d.name [
  | none ↦ some (false, d)
  | some fname ↦ elim (ltb (length fname) 40) [
    | true ↦ some (true, d)
    | false ↦ elim (slice_to 40 fname) [
      | none ↦ none
      | some commit ↦ some (
          if contains commits commit
          then (true, if touches fname then record d { mtime = some now } else d)
          else (false, d))
    ]
  ]
]

-- What becomes of an entry in the loop of `main`; `panicked` ends the loop.
pub data GcStep : Type 0 where
  removed : GcStep
  kept : OutputEntry → GcStep
  panicked : GcStep

-- The filters and the body of the loop. The time of an entry that is not live is unwrapped.
unfoldable pub gc_entry :
    ℕ → (Text → Bool) → (OutputEntry → Bool) → Bool → List Text → OutputEntry → GcStep
unfolding result_is_live
gc_entry now touches removes dry_run commits d = elim (result_is_live now touches commits d) [
  | none ↦ panicked
  | some (live, d') ↦ elim live [
    | true ↦ kept d'
    | false ↦ elim d'.mtime [
      | none ↦ panicked
      | some t ↦ if ltb t (now - 3600) && not dry_run && removes d' then removed else kept d'
    ]
  ]
]

-- The loop: the entries after it, and whether it ended in a panic.
unfoldable pub gc_entries :
    ℕ
    → (Text → Bool)
    → (OutputEntry → Bool)
    → Bool
    → List Text
    → List OutputEntry
    → List OutputEntry × Bool
unfolding gc_entry
gc_entries now touches removes dry_run commits [] = ([], false)
gc_entries now touches removes dry_run commits (d ∷ ds) =
    let (rest, ends) = gc_entries now touches removes dry_run commits ds in
    elim (gc_entry now touches removes dry_run commits d) [
      | removed ↦ (rest, ends)
      | kept d' ↦ (d' ∷ rest, ends)
      | panicked ↦ (d ∷ ds, true)
    ]

-- `main` after the configuration was read: the entries of the output directory after it, if it can
-- be listed, and whether it ended in a panic.
unfoldable pub gc_results :
    {Repo : Type 0}
    → Git Repo
    → ℕ
    → (Text → Bool)
    → (OutputEntry → Bool)
    → Bool
    → CiConfig
    → Option (List OutputEntry)
    → List OutputEntry × Bool
unfolding get_live_commits gc_entries
gc_results git now touches removes dry_run rc none = ([], true)
gc_results git now touches removes dry_run rc (some entries) =
    gc_entries now touches removes dry_run (get_live_commits git rc) entries
