-- ===== src/Daemon.antt =====
-- The daemon (src/bin/ci-daemon.rs): what it runs on a worker for a claimed batch. What the worker
-- does is a parameter. Logs are left out, and the moment `now` is one parameter of a batch.
pub mod Outcome
pub mod Batch
pub mod Refill
pub mod System
pub mod Fetcher
use ktest.Prelude.{
  ℕ, zero, suc, ◌+◌, ◌≡◌, Bool, true, false, ◌&&◌, not, List, [], ◌∷◌, ◌++◌, Option, none, some,
  if◌then◌else◌, is_empty, length, nat_beq, map, unwrap_or, or_else, ◌==◌, is_some, ltb, leb, ◌*◌,
  ◌-◌, ◌^◌, ◌||◌,
}
use ktest.Prelude.Result.{Result, ok, err, ◌>>=◌}
use ktest.Text.{Text, lit, text_eq}
use ktest.BTreeMap.{BTreeMap, get, insert}
use ktest.HashMap as HashMap
use ktest.Status.{
  TestStatus, in_progress, failed_to_run, status_beq, TestResult, TestResultsMap, from_str,
  status_eq,
}
use ktest.Naming.{subtest_result_key}
use ktest.Files.{dir_of, read_test_result}
use ktest.Store.{ResultDir, Disk, Store, lookup, update}

pub record JobParams : Type 0 where
  pub repo : Text
  pub commit : Text
  pub kernel : Text
  pub env : Text
  pub test : Text
  pub subtest : Text
  pub repo_url : Text
  pub ktest_url : Text

pub data TaskError : Type 0 where
  retry fatal out_of_fuel : TaskError

-- `Result<(), TaskError>`.
abbrev pub Ended : Type 0
Ended = Result {0, 0} TaskError Unit

-- What the worker does with one batch: whether each step succeeds; for each round of the resume
-- loop whether the supervisor, the pull and the cleaning can be run, and the result directory that
-- the pull brings for a key, if any, also if it fails.
pub record Worker : Type 0 where
  pub checkout : Bool
  pub sync_ktest : Bool
  pub build_supervisor : Bool
  pub prepare : Bool
  pub run : ℕ → Bool
  pub pull : ℕ → Bool
  pub clean : ℕ → Bool
  pub pulled : ℕ → Text → Option ResultDir

-- The replacement of a directory.
abbrev pub put_dir : Text → Text → ResultDir → Disk → Disk
put_dir commit key r d = record d {
  dirs = HashMap.insert commit (insert key r (unwrap_or (HashMap.lookup commit d.dirs) [])) d.dirs;
}

-- `tar -x` over a directory: what the archive has replaces what is there.
abbrev pub unpack : Option ResultDir → Option ResultDir → Option ResultDir
unpack none old = old
unpack (some new) none = some new
unpack (some new) (some old) = some (record {
  status = or_else new.status old.status;
  duration = or_else new.duration old.duration;
  mtime = if is_some new.status then new.mtime else old.mtime;
})

abbrev pub on_disk : (Disk → Disk) → Store → Store
on_disk f s = record s { disk = f s.disk }

abbrev pub is_in_progress : Option TestStatus → Bool
is_in_progress none = false
is_in_progress (some s) = status_beq s in_progress

abbrev pub job_key : JobParams → Text
job_key j = subtest_result_key j.test j.subtest j.kernel j.env

-- `writes` and `marks` say whether a capnp file, and whether a status file, can be written.
module _ (w : Worker) (writes : Bool) (marks : Text → Bool) (now : ℕ) where
  abbrev pub marker : TestStatus → TestResult
  marker status = record { status = status; starttime = now; duration = 0 }

  -- `create_dir_all` and the writing of a status file.
  abbrev pub write_status : Text → Text → Text → Disk → Disk
  write_status commit key text d =
      if marks key
      then put_dir commit key
          (record {
            status = some text;
            duration = elim (dir_of commit key d) [ none ↦ none | some r ↦ r.duration ];
            mtime = now;
          })
          d
      else d

  module _ (p : JobParams) where
    abbrev pub key_of : Text → Text
    key_of subtest = subtest_result_key p.test subtest p.kernel p.env

    -- The marking of a batch: the directories, and the map of the store's update.
    unfoldable pub mark_dirs : List Text → Disk → Disk
    mark_dirs [] d = d
    mark_dirs (st ∷ sts) d =
        mark_dirs sts (write_status p.commit (key_of st) (lit "IN PROGRESS\n") d)

    unfoldable pub inprogress_map : List Text → TestResultsMap → TestResultsMap
    inprogress_map [] m = m
    inprogress_map (st ∷ sts) m = inprogress_map sts (insert (key_of st) (marker in_progress) m)

    unfoldable pub mark_in_progress : List Text → Store → Store
    unfolding mark_dirs inprogress_map
    mark_in_progress sts s =
        update writes p.commit (inprogress_map sts []) (on_disk (mark_dirs sts) s)

    -- The pull of one round: the directories of the remaining subtests.
    unfoldable pub unpack_all : ℕ → List Text → Disk → Disk
    unpack_all n [] d = d
    unpack_all n (st ∷ sts) d =
        unpack_all n sts (elim (unpack (w.pulled n (key_of st)) (dir_of p.commit (key_of st) d)) [
          | none ↦ d
          | some r ↦ put_dir p.commit (key_of st) r d
        ])

    -- The verdict on a subtest, and the loop that collects them and what is left to run.
    unfoldable pub verdict : Disk → Text → TestResult
    verdict d key = elim (dir_of p.commit key d) [
      | none ↦ marker in_progress
      | some r ↦ unwrap_or (read_test_result r) (marker in_progress)
    ]

    unfoldable pub next_of : Disk → List Text → List Text
    unfolding verdict
    next_of d [] = []
    next_of d (st ∷ sts) =
        let rest = next_of d sts in
        if (verdict d (key_of st)).status == in_progress then st ∷ rest else rest

    unfoldable pub verdicts_of : Disk → List Text → TestResultsMap → TestResultsMap
    unfolding verdict
    verdicts_of d [] m = m
    verdicts_of d (st ∷ sts) m = verdicts_of d sts (insert (key_of st) (verdict d (key_of st)) m)

    -- The store after the verdicts of a round.
    unfoldable pub take_verdicts : ℕ → List Text → Store → Store
    unfolding unpack_all verdicts_of
    take_verdicts n remaining s =
        let s' = on_disk (unpack_all n remaining) s in
        update writes p.commit (verdicts_of s'.disk remaining []) s'

    abbrev pub next_round : ℕ → List Text → Store → List Text
    next_round n remaining s = next_of (unpack_all n remaining s.disk) remaining

    -- The resume loop, by rounds, on fuel. The store comes back whatever happens.
    unfoldable pub resume : ℕ → ℕ → Bool → List Text → Store → Ended × Store
    unfolding take_verdicts
    resume zero n did_clean remaining s = (err out_of_fuel, s)
    resume (suc fuel) n did_clean [] s = (ok tt, s)
    resume (suc fuel) n did_clean (st ∷ sts) s =
        let remaining = st ∷ sts in
        let s' = take_verdicts n remaining s in
        let next = next_round n remaining s in
        elim (w.run n) [
          | false ↦ (err retry, s)
          | true ↦ elim (w.pull n) [
            | false ↦ (err retry, on_disk (unpack_all n remaining) s)
            | true ↦ elim (nat_beq (length next) (length remaining)) [
              | false ↦ resume fuel (n + 1) did_clean next s'
              | true ↦ elim did_clean [
                | true ↦ (err retry, s')
                | false ↦ elim (w.clean n) [
                  | false ↦ (err retry, s')
                  | true ↦ resume fuel (n + 1) true remaining s'
                ]
              ]
            ]
          ]
        ]

    -- The steps before the loop.
    abbrev pub steps : Bool
    steps =
        w.checkout && ((is_empty p.ktest_url || w.sync_ktest) && (w.build_supervisor && w.prepare))

    -- `run_ktest_job_inner` on the subtests of a batch.
    unfoldable pub run_ktest_job_inner : List Text → Store → Ended × Store
    unfolding resume mark_in_progress
    run_ktest_job_inner subtests s =
        if is_empty p.repo_url
        then (err fatal, s)
        else (let marked = mark_in_progress subtests s in
            if steps
            then resume (length subtests + 2) 0 false subtests marked
            else (err retry, marked))

    -- The loop over the batch when the run failed: the directories and the map of the update.
    unfoldable pub fail_dirs : List Text → Store → Disk → Disk
    fail_dirs [] s d = d
    fail_dirs (key ∷ ks) s d = fail_dirs ks s (
        if is_in_progress (lookup p.commit key s)
        then write_status p.commit key (lit "FAILED TO RUN\n") d
        else d)

    unfoldable pub fail_map : List Text → Store → TestResultsMap → TestResultsMap
    fail_map [] s m = m
    fail_map (key ∷ ks) s m =
        fail_map ks s (
          if is_in_progress (lookup p.commit key s) then insert key (marker failed_to_run) m else m)

  -- `run_ktest_job` on the batch `p ∷ js`.
  unfoldable pub run_ktest_job : JobParams → List JobParams → Store → Ended × Store
  unfolding run_ktest_job_inner fail_dirs fail_map
  run_ktest_job p js s =
      let ran = run_ktest_job_inner p (map (λ j. j.subtest) (p ∷ js)) s in
      let ks = map job_key (p ∷ js) in
      elim ran.0 [
        | ok u ↦ ran
        | err e ↦ (
          err e,
          update writes p.commit (fail_map p ks ran.1 []) (on_disk (fail_dirs p ks ran.1) ran.1),
        )
      ]
