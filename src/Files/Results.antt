-- ===== src/Files/Results.antt =====
-- What the files of a commit say, and that its capnp file comes to say the same.
use ktest.Prelude.{
  ◌≡◌, refl, true, [], ◌∷◌, Option, none, some, arith, eq_iff, eq_self, Option-cases, inl, inr,
  or_else, unwrap_or,
}
use ktest.Text.{Text, text_eq}
use ktest.BTreeMap.{BTreeMap, get, insert, IsAscending}
use ktest.BTreeMap.Laws.{get-insert, insert-IsAscending, get_above}
use ktest.HashMap as HashMap
use ktest.HashMap.{lookup-insert}
use ktest.Status.{TestResult, TestResultsMap}
use ktest.Capnp.{CommitResultsCapnp, render, unstarted_map, parse_test_results-render}
use ktest.Store.{ResultDir, Disk, results_to_capnp, read_capnp}
use ktest.Store.Load.{read_capnp-IsAscending}
use ktest.Files.{
  dir_of, dirs_of, read_test_result, fs_results, commitdir_get_results_fs, commit_update_results,
  commit_capnp_set_message,
}

-- The result that a directory holds.
abbrev pub result_in : Option ResultDir → Option TestResult
result_in none = none
result_in (some dir) = read_test_result dir

get-fs_results :
    (ds : BTreeMap ResultDir) (m : TestResultsMap) (key : Text)
    → IsAscending ds
    → get key (fs_results ds m) ≡ or_else (result_in (get key ds)) (get key m)
unfolding fs_results get
get-fs_results [] m key h = refl
get-fs_results ((k, dir) ∷ ds) m key (b, h) = elim (Option-cases (read_test_result dir)) [
  | inl e ↦ ground (arith, e, get-fs_results ds m key h, get_above k ds b, eq_iff k key)
  | inr (r, e) ↦ ground (
    arith,
    e,
    get-fs_results ds (insert k r m) key h,
    get-insert k key r m,
    get_above k ds b,
    eq_iff k key,
  )
]

fs_results-IsAscending :
    (ds : BTreeMap ResultDir) (m : TestResultsMap) → IsAscending m → IsAscending (fs_results ds m)
unfolding fs_results
fs_results-IsAscending [] m h = h
fs_results-IsAscending ((k, dir) ∷ ds) m h = elim (Option-cases (read_test_result dir)) [
  | inl e ↦ rw (e, fs_results) (fs_results-IsAscending ds m h)
  | inr (r, e) ↦
      rw (e, fs_results) (fs_results-IsAscending ds (insert k r m) (insert-IsAscending k r m h))
]

pub commitdir_get_results_fs-IsAscending :
    (commit : Text) (d : Disk) → IsAscending (commitdir_get_results_fs commit d)
unfolding commitdir_get_results_fs
commitdir_get_results_fs-IsAscending commit d = fs_results-IsAscending (dirs_of commit d) [] tt

get-commitdir_get_results_fs :
    (commit key : Text) (d : Disk)
    → IsAscending (dirs_of commit d)
    → get key (commitdir_get_results_fs commit d) ≡ result_in (dir_of commit key d)
unfolding commitdir_get_results_fs get
get-commitdir_get_results_fs commit key d h =
    let found = get-fs_results (dirs_of commit d) [] key h in
    elim (Option-cases (HashMap.lookup commit d.dirs)) [
      | inl e ↦ ground (arith, e, found)
      | inr (m, e) ↦ ground (arith, e, found)
    ]

read_capnp-results_to_capnp :
    (commit : Text) (message : Option Text) (m : TestResultsMap) (d : Disk)
    → IsAscending m
    → read_capnp commit (results_to_capnp true commit message m d)
      ≡ some
          (record { message = unwrap_or message []; commit_id = commit; tests = unstarted_map m })
unfolding results_to_capnp read_capnp
read_capnp-results_to_capnp commit message m d h = ground (
  arith,
  eq_self commit,
  lookup-insert commit commit (render commit message m) d.capnp,
  parse_test_results-render commit message m h,
)

-- Reading the file of a commit after it was rewritten from the directories, where it can be
-- written, gives the commit, the message (empty if there was none) and the results of the
-- directories, without their start times.
read_capnp-commit_update_results :
    (commit : Text) (message : Option Text) (d : Disk)
    → read_capnp commit (commit_update_results true commit message d)
      ≡ some (record {
        message = unwrap_or message [];
        commit_id = commit;
        tests = unstarted_map (commitdir_get_results_fs commit d);
      })
unfolding commit_update_results
read_capnp-commit_update_results commit message d =
    read_capnp-results_to_capnp commit message (commitdir_get_results_fs commit d) d
      (commitdir_get_results_fs-IsAscending commit d)

pub read_capnp-commit_capnp_set_message :
    (commit message : Text) (d d' : Disk) (old : CommitResultsCapnp)
    → read_capnp commit d ≡ some old
    → commit_capnp_set_message true commit message d ≡ some d'
    → read_capnp commit d'
      ≡ some (record { message = message; commit_id = commit; tests = unstarted_map old.tests })
unfolding commit_capnp_set_message
read_capnp-commit_capnp_set_message commit message d d' old e h =
    let written : results_to_capnp true commit (some message) old.tests d ≡ d' =
      ground (arith, e) in
    rw (← written) (
      read_capnp-results_to_capnp commit (some message) old.tests d
        (read_capnp-IsAscending commit d old e))
