-- ===== src/Rm.antt =====
-- rm-results (src/bin/rm-results.rs): the results that match a pattern are deleted. Globs, git's
-- ranges and the file system are parameters.
pub mod Removed
use ktest.Prelude.{
  ℕ, ◌≡◌, Bool, true, false, ◌&&◌, ◌||◌, not, List, [], ◌∷◌, ◌++◌, Option, none, some,
  if◌then◌else◌, is_empty, ltb, length, contains, any, keep_if, map, or_else, filter_map, ◌==◌,
}
use ktest.Prelude.Result.{Result, ok, err}
use ktest.Text.{Text, lit, text_eq, starts_with, contains_text, replace_byte}
use ktest.BTreeMap.{keys}
use ktest.Config.{CiConfig}
use ktest.Store.{Disk, remove_dirs}
use ktest.Files.{dirs_of, commit_update_results}
use ktest.CiStatus.{slice_to}

-- `Args`, with the pattern as given.
pub record Args : Type 0 where
  pub test : Text
  pub commits : Option Text
  pub repo : Option Text
  pub output_dir : Option Text
  pub dry_run : Bool

-- What git is asked for: both ends of a range, the walk from one commit without what another one
-- reaches, and a single commit.
pub record Ranges (Repo : Type 0) : Type 0 where
  pub open_repo : Text → Option Repo
  pub revparse : Repo → Text → Option (Option Text × Option Text)
  pub walk_without : Repo → Text → Text → Option (List (Option Text))
  pub single : Repo → Text → Option Text

-- How a run fails: by an error, or by a panic.
pub data RmError : Type 0 where
  bad_pattern no_output_dir no_repository bad_range unreadable panic : RmError

unfoldable pub get_commits_in_range :
    {Repo : Type 0} → Ranges Repo → Repo → Text → Result RmError (List Text)
unfolding contains_text
get_commits_in_range git repo range =
    if contains_text range (lit "..")
    then elim (git.revparse repo range) [
      | none ↦ err bad_range
      | some (none, to) ↦ err bad_range
      | some (some from, none) ↦ err bad_range
      | some (some from, some to) ↦ elim (git.walk_without repo to from) [
        | none ↦ err bad_range
        | some walked ↦ ok (filter_map (λ oid. oid) walked)
      ]
    ]
    else elim (git.single repo range) [ none ↦ err bad_range | some id ↦ ok (id ∷ []) ]

-- `str::ends_with`.
unfoldable pub ends_with : Text → Text → Bool
ends_with [] p = is_empty p
ends_with (c ∷ s) p = (c ∷ s) == p || ends_with s p

-- An entry of the output directory; `lists` says whether it can be listed if it is a directory.
pub record DirEntry : Type 0 where
  pub name : Text
  pub is_dir : Bool
  pub lists : Bool

unfoldable pub is_skipped : Text → Bool
unfolding ends_with starts_with
is_skipped name =
    any (λ p. starts_with name p)
      (lit "jobs." ∷ lit "workers" ∷ lit "user_stats" ∷ lit "test_durations" ∷ lit "fetch" ∷ [])
    || (ends_with name (lit ".lock")
        || (ends_with name (lit ".new") || (ends_with name (lit ".capnp") || ltb (length name) 40)))

-- Whether a commit's directory is looked at; the slice panics inside a character.
unfoldable pub is_wanted : Option (List Text) → Text → Option Bool
unfolding is_skipped slice_to
is_wanted commits name = if is_skipped name then some false else elim commits [
  | none ↦ some true
  | some ids ↦ elim (slice_to 40 name) [ none ↦ none | some id ↦ some (contains ids id) ]
]

-- A result by its commit's directory and its own.
abbrev pub matches_in : (Text → Bool) → Text → Disk → List (Text × Text)
matches_in pattern name d = map (λ k. (name, k)) (keep_if pattern (keys (dirs_of name d)))

unfoldable pub find_matching_results :
    (Text → Bool) → Option (List Text) → List DirEntry → Disk → Result RmError (List (Text × Text))
unfolding is_wanted
find_matching_results pattern commits [] d = ok []
find_matching_results pattern commits (e ∷ es) d =
    let rest = find_matching_results pattern commits es d in
    elim (is_wanted commits e.name) [
      | none ↦ err panic
      | some wanted ↦ elim (wanted && (e.is_dir && not e.lists)) [
        | true ↦ err unreadable
        | false ↦ elim rest [
          | err f ↦ err f
          | ok results ↦
              ok (if wanted && e.is_dir then matches_in pattern e.name d ++ results else results)
        ]
      ]
    ]

-- The loop that deletes; `removes` says what can be removed.
unfoldable pub remove_results : (Text → Text → Bool) → List (Text × Text) → Disk → Disk
remove_results removes [] d = d
remove_results removes ((commit, key) ∷ rs) d =
    remove_results removes rs (if removes commit key then remove_dirs commit (key ∷ []) d else d)

-- The affected commits, each once.
unfoldable pub affected : List (Text × Text) → List Text
affected [] = []
affected ((commit, key) ∷ rs) =
    let rest = affected rs in if contains rest commit then rest else commit ∷ rest

unfoldable pub update_summaries : (Text → Bool) → List Text → Disk → Disk
unfolding commit_update_results
update_summaries writes [] d = d
update_summaries writes (c ∷ cs) d =
    update_summaries writes cs (commit_update_results (writes c) c none d)

-- What is done with the results that were found.
unfoldable pub delete_found :
    (Text → Bool) → (Text → Text → Bool) → Bool → List (Text × Text) → Disk → Disk
unfolding remove_results affected update_summaries
delete_found writes removes dry_run results d =
    if is_empty results || dry_run
    then d
    else update_summaries writes (affected results) (remove_results removes results d)

abbrev pub wanted_commits :
    {Repo : Type 0} → Ranges Repo → Args → Option CiConfig → Result RmError (Option (List Text))
wanted_commits git args rc = elim args.commits [
  | none ↦ ok none
  | some range ↦
      elim (or_else args.repo (elim rc [ none ↦ none | some c ↦ some c.ktest.linux_repo ])) [
        | none ↦ err no_repository
        | some path ↦ elim (git.open_repo path) [
          | none ↦ err no_repository
          | some repo ↦ elim (get_commits_in_range git repo range) [
            | err e ↦ err e
            | ok ids ↦ ok (some ids)
          ]
        ]
      ]
]

-- `main`; `glob` is `Pattern::new`, `list_dir` lists the output directory.
unfoldable pub rm_results :
    {Repo : Type 0}
    → Ranges Repo
    → (Text → Option (Text → Bool))
    → (Text → Option (List DirEntry))
    → (Text → Bool)
    → (Text → Text → Bool)
    → Option CiConfig
    → Args
    → Disk
    → Result RmError Disk
unfolding find_matching_results delete_found get_commits_in_range replace_byte
rm_results git glob list_dir writes removes rc args d =
    elim (glob (replace_byte b'/' b'.' args.test)) [
      | none ↦ err bad_pattern
      | some pattern ↦
          elim (or_else args.output_dir
            (elim rc [ none ↦ none | some c ↦ some c.ktest.output_dir ])) [
              | none ↦ err no_output_dir
              | some dir ↦ elim (wanted_commits git args rc) [
                | err e ↦ err e
                | ok commits ↦ elim (list_dir dir) [
                  | none ↦ err unreadable
                  | some entries ↦ elim (find_matching_results pattern commits entries d) [
                    | err e ↦ err e
                    | ok results ↦ ok (delete_found writes removes args.dry_run results d)
                  ]
                ]
              ]
            ]
    ]
