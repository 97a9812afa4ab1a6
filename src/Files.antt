-- ===== src/Files.antt =====
-- The results as files (src/lib.rs): reading a commit's directories, writing its capnp file from
-- them, and dropping the markers of unfinished runs. A directory that cannot be read counts as one
-- without entries.
pub mod Lcov
pub mod Results
pub mod Cleanup
pub mod Fetch
use ktest.Prelude.{
  ℕ, zero, suc, ◌+◌, ◌*◌, ◌-◌, ◌^◌, Bool, true, false, ◌&&◌, ◌||◌, not, List, [], ◌∷◌, ◌++◌, Option,
  none, some, if◌then◌else◌, is_empty, length, nat_beq, unwrap_or, ◌==◌, ltb, leb,
}
use ktest.Text.{Text, lit, text_eq}
use ktest.BTreeMap.{BTreeMap, get, insert}
use ktest.HashMap as HashMap
use ktest.Status.{TestStatus, in_progress, status_beq, TestResult, TestResultsMap, from_str}
use ktest.Capnp.{CommitResultsCapnp, render}
use ktest.Store.{ResultDir, Disk, set_capnp, results_to_capnp, read_capnp, Entry, is_commit_dir}

-- `u64::from_str` on ASCII: an optional plus sign and digits, below 2^64.
unfoldable pub digits : ℕ → Text → Option ℕ
digits acc [] = some acc
digits acc (c ∷ s) =
    if leb b'0' c && leb c b'9' && ltb (acc * 10 + (c - b'0')) (2 ^ 64)
    then digits (acc * 10 + (c - b'0')) s
    else none

unfoldable pub parse_u64 : Text → Option ℕ
unfolding digits
parse_u64 [] = none
parse_u64 (c ∷ s) =
    if nat_beq c b'+' then (if is_empty s then none else digits 0 s) else digits 0 (c ∷ s)

-- `read_test_result` of src/lib.rs.
unfoldable pub read_test_result : ResultDir → Option TestResult
unfolding parse_u64
read_test_result d = elim d.status [
  | none ↦ none
  | some s ↦ some (record {
    status = from_str s;
    starttime = d.mtime;
    duration = unwrap_or (parse_u64 (unwrap_or d.duration (lit "0"))) 0;
  })
]

-- The directory of a key under a commit.
abbrev pub dir_of : Text → Text → Disk → Option ResultDir
dir_of commit key d = elim (HashMap.lookup commit d.dirs) [ none ↦ none | some m ↦ get key m ]

-- The directories of a commit.
abbrev pub dirs_of : Text → Disk → BTreeMap ResultDir
dirs_of commit d = unwrap_or (HashMap.lookup commit d.dirs) []

-- The loop of `commitdir_get_results_fs`.
unfoldable pub fs_results : BTreeMap ResultDir → TestResultsMap → TestResultsMap
unfolding read_test_result
fs_results [] results = results
fs_results ((name, dir) ∷ ds) results = elim (read_test_result dir) [
  | none ↦ fs_results ds results
  | some r ↦ fs_results ds (insert name r results)
]

unfoldable pub commitdir_get_results_fs : Text → Disk → TestResultsMap
unfolding fs_results
commitdir_get_results_fs commit d = fs_results (dirs_of commit d) []

-- `commit_update_results`, `commit_update_results_with_message`; a failure to write is logged.
unfoldable pub commit_update_results : Bool → Text → Option Text → Disk → Disk
unfolding commitdir_get_results_fs results_to_capnp
commit_update_results writes commit message d =
    results_to_capnp writes commit message (commitdir_get_results_fs commit d) d

-- `commit_capnp_set_message`: an unreadable file, or one that cannot be written, is an error.
unfoldable pub commit_capnp_set_message : Bool → Text → Text → Disk → Option Disk
unfolding results_to_capnp read_capnp
commit_capnp_set_message writes commit message d = elim (read_capnp commit d) [
  | none ↦ none
  | some existing ↦
      if writes then some (results_to_capnp true commit (some message) existing.tests d) else none
]

-- The status that the loop of `cleanup_inprogress_results` looks at.
abbrev pub is_stale : ResultDir → Bool
is_stale dir = elim dir.status [ none ↦ false | some t ↦ status_beq (from_str t) in_progress ]

-- Its inner loop: the directories that stay, and how many were deleted. `removes` says which
-- directories can be removed.
unfoldable pub sweep : (Text → Bool) → BTreeMap ResultDir → BTreeMap ResultDir × ℕ
sweep removes [] = ([], 0)
sweep removes ((name, dir) ∷ ds) =
    let (kept, deleted) = sweep removes ds in
    if is_stale dir && removes name then (kept, deleted + 1) else ((name, dir) ∷ kept, deleted)

abbrev pub set_dirs : Text → BTreeMap ResultDir → Disk → Disk
set_dirs commit ds d = record d { dirs = HashMap.insert commit ds d.dirs }

unfoldable pub cleanup_commit : (Text → Bool) → (Text → Text → Bool) → Text → Disk → Disk
unfolding sweep commit_update_results
cleanup_commit writes removes commit d =
    let (kept, deleted) = sweep (removes commit) (dirs_of commit d) in
    if nat_beq deleted 0
    then d
    else commit_update_results (writes commit) commit none (set_dirs commit kept d)

unfoldable pub cleanup_entries : (Text → Bool) → (Text → Text → Bool) → List Entry → Disk → Disk
unfolding cleanup_commit
cleanup_entries writes removes [] d = d
cleanup_entries writes removes (e ∷ es) d =
    let commit = unwrap_or e.name [] in
    cleanup_entries writes removes es
      (if is_commit_dir e commit then cleanup_commit writes removes commit d else d)

-- `cleanup_inprogress_results`; a directory that cannot be listed ends it.
unfoldable pub cleanup_inprogress_results :
    (Text → Bool) → (Text → Text → Bool) → Option (List Entry) → Disk → Disk
unfolding cleanup_entries
cleanup_inprogress_results writes removes none d = d
cleanup_inprogress_results writes removes (some entries) d =
    cleanup_entries writes removes entries d
