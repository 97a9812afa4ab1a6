-- ===== src/Examples/Daemon.antt =====
-- A batch of two subtests on a worker whose first machine dies after the first of them.
use ktest.Prelude.{
  keep_if, contains, not, ◌||◌, ℕ, ◌≡◌, ◌≢◌, refl, arith, true, false, Bool, List, [], ◌∷◌, Option,
  none, some, nat_beq, All, if◌then◌else◌, ◌==◌, map,
}
use ktest.Prelude.Result.{err}
use ktest.Text.{Text, lit, text_eq}
use ktest.Status.{passed, failed, failed_to_run}
use ktest.Store.{ResultDir, lookup}
use ktest.Daemon.{JobParams, Worker, out_of_fuel, job_key, run_ktest_job}
use ktest.Daemon.Outcome.{IsSettled}
use ktest.Daemon.Batch.{run_ktest_job-ne-out_of_fuel, run_ktest_job-IsSettled}
use ktest.Config.{CiConfig}
use ktest.Jobs.{key_eq}
use ktest.Jobs.Dedup.{job_keys}
use ktest.Daemon.Refill.{JobMap, JobSpec, is_tracked, refill}
use ktest.Daemon.Refill.Submitted.{key_of_spec, HasBatchKey, has_live_job, refill-submits}
use ktest.Examples.Data.{empty_store, ktestrc, y_job}

abbrev pub x_params : JobParams
x_params = record {
  repo = lit "linux";
  commit = lit "c1";
  kernel = [];
  env = [];
  test = lit "a.ktest";
  subtest = lit "x";
  repo_url = lit "git://host/linux";
  ktest_url = [];
}

abbrev pub y_params : JobParams
y_params = record x_params { subtest = lit "y" }

abbrev pub dir : Text → ResultDir
dir status = record { status = some status; duration = some (lit "12"); mtime = 100 }

-- The first round brings a verdict on `x` alone, the second one on `y`.
abbrev pub dying : Worker
dying = record {
  checkout = true;
  sync_ktest = true;
  build_supervisor = true;
  prepare = true;
  run = λ n. true;
  pull = λ n. true;
  clean = λ n. true;
  pulled = λ n key.
      if key == lit "a.x"
      then some (dir (lit "PASSED"))
      else if nat_beq n 0
      then some (dir (lit "IN PROGRESS"))
      else some (dir (lit "FAILED"));
}

-- A worker that cannot check out the commit.
abbrev pub broken : Worker
broken = record dying { checkout = false }

abbrev pub marked : Text → Bool
marked key = true

run_ktest_job-ne-out_of_fuel_example :
    (run_ktest_job dying true marked 50 x_params (y_params ∷ []) empty_store).0 ≢ err out_of_fuel
run_ktest_job-ne-out_of_fuel_example =
    run_ktest_job-ne-out_of_fuel dying true marked 50 x_params (y_params ∷ []) empty_store

run_ktest_job-IsSettled_example :
    IsSettled broken true marked 50 x_params
      (lit "a.y")
      (run_ktest_job broken true marked 50 x_params (y_params ∷ []) empty_store).1
unfolding ktest.Prelude.contains ktest.Text.text_beq ktest.Naming.subtest_result_key
    ktest.Text.replace_byte ktest.Text.remove_all
run_ktest_job-IsSettled_example =
    run_ktest_job-IsSettled broken true marked 50 x_params (y_params ∷ []) empty_store (lit "a.y")
      refl refl

y_failed :
    lookup
      (lit "c1")
      (lit "a.y")
      (run_ktest_job dying true marked 50 x_params (y_params ∷ []) empty_store).1
    ≡ some failed
unfolding run_ktest_job lookup ktest.HashMap.lookup ktest.Daemon.next_of ktest.Text.text_beq
    ktest.Naming.subtest_result_key ktest.Text.replace_byte ktest.Text.remove_all ktest.Store.update
    ktest.BTreeMap.insert ktest.Text.cmp ktest.HashMap.insert ktest.BTreeMap.get
    ktest.Files.read_test_result ktest.Status.from_str ktest.Text.contains_text
    ktest.BTreeMap.insert_all
y_failed = refl

y_failed_to_run :
    lookup
      (lit "c1")
      (lit "a.y")
      (run_ktest_job broken true marked 50 x_params (y_params ∷ []) empty_store).1
    ≡ some failed_to_run
unfolding run_ktest_job lookup ktest.HashMap.lookup ktest.Store.update ktest.BTreeMap.insert
    ktest.Text.cmp ktest.Naming.subtest_result_key ktest.Text.replace_byte ktest.Text.remove_all
    ktest.HashMap.insert ktest.Text.text_beq ktest.BTreeMap.get ktest.BTreeMap.insert_all
y_failed_to_run = refl

abbrev ci_config : CiConfig
ci_config = record { ktest = ktestrc; users = [] }

abbrev same : ℕ → ℕ
same n = n

-- The map has an entry for a job that the choir no longer has, so the job is submitted again.
abbrev refilled : JobMap × List (JobSpec ℕ)
refilled = refill same same same ci_config [] (y_job ∷ []) ((y_job.key, 3) ∷ [])

refill-submits_example :
    (map key_of_spec refilled.1
      ≡ job_keys (keep_if (λ j. not (has_live_job [] j.key ((y_job.key, 3) ∷ []))) (y_job ∷ [])))
    × All HasBatchKey refilled.1
    × (is_tracked y_job.key refilled.0 ≡ (
        has_live_job [] y_job.key ((y_job.key, 3) ∷ [])
        || contains (job_keys (y_job ∷ [])) y_job.key))
unfolding contains
refill-submits_example =
    refill-submits same same same ci_config [] (y_job ∷ []) ((y_job.key, 3) ∷ []) y_job.key
      (refl, tt)
