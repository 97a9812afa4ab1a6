-- ===== src/Examples/System.antt =====
-- The daemon after startup, with one batch that was claimed and marked, and after it has run.
use ktest.Prelude.{
  ℕ, ◌≡◌, refl, Bool, true, false, not, List, [], ◌∷◌, Option, none, some, any, map, contains,
}
use ktest.Text.{Text, lit, text_eq}
use ktest.Status.{in_progress, job_wanted, result_is_done}
use ktest.Store.{Store, lookup, load}
use ktest.Store.Load.{commit_dirs}
use ktest.Daemon.{JobParams, run_ktest_job, job_key}
use ktest.Daemon.System.{Running, System, IsBatch, claim, moves, mark, started, Reach, here, later}
use ktest.Daemon.System as System
use ktest.Daemon.System.Owned.{owns}
use ktest.Daemon.System.Invariant.{startup, Reach-startup, job_wanted-quiet}
use ktest.Daemon.System.Runs.{run_ktest_job-Reach}
use ktest.Examples.Data.{listing, disk}
use ktest.Examples.Daemon.{x_params, y_params, dying, marked}

abbrev all_written : Text → Bool
all_written commit = true

abbrev fresh : System
fresh = startup all_written false listing disk

abbrev batch : Running
batch = record {
  worker = dying;
  writes = true;
  marks = marked;
  now = 50;
  params = x_params;
  subtests = lit "x" ∷ lit "y" ∷ [];
  batch_keys = lit "a.x" ∷ lit "a.y" ∷ [];
  round = 0;
  remaining = [];
}

batch-IsBatch : IsBatch batch
unfolding ktest.Naming.subtest_result_key ktest.Text.replace_byte ktest.Text.remove_all
batch-IsBatch key h = h

abbrev underway : System
underway = record { store = System.marked batch fresh.store; batches = started batch ∷ [] }

underway-Reach : Reach fresh underway
underway-Reach =
    later (later here (claim batch batch-IsBatch refl))
      (moves [] [] batch (started batch ∷ []) (System.marked batch fresh.store) refl (mark refl))

x_in_progress : lookup (lit "c1") (lit "a.x") underway.store ≡ some in_progress
unfolding lookup ktest.HashMap.lookup ktest.Daemon.mark_in_progress ktest.Store.update
    ktest.BTreeMap.insert ktest.Text.cmp ktest.Naming.subtest_result_key ktest.Text.replace_byte
    ktest.Text.remove_all ktest.HashMap.insert load ktest.Prelude.all ktest.Text.text_beq
    ktest.Capnp.parse_test_results ktest.Capnp.render ktest.BTreeMap.remove_keys
    ktest.Prelude.keep_if ktest.BTreeMap.get ktest.BTreeMap.insert_all ktest.BTreeMap.remove
x_in_progress = refl

Reach-startup_example : any (owns (lit "c1") (lit "a.x")) underway.batches ≡ true
unfolding commit_dirs ktest.Prelude.all contains
Reach-startup_example =
    Reach-startup all_written false listing disk underway (refl, tt) underway-Reach (lit "c1")
      (lit "a.x") x_in_progress

abbrev after_run : Store
after_run = (run_ktest_job dying true marked 50 x_params (y_params ∷ []) fresh.store).1

one_kernel :
    map job_key (y_params ∷ [])
    ≡ System.keys batch (map (λ (j : JobParams). j.subtest) (y_params ∷ []))
one_kernel = refl

run_ktest_job-Reach_example :
    Reach
      (record { store = fresh.store; batches = [] })
      (record { store = after_run; batches = [] })
run_ktest_job-Reach_example =
    run_ktest_job-Reach dying true marked 50 x_params (y_params ∷ []) [] fresh.store one_kernel

after_run-Reach : Reach fresh (record { store = after_run; batches = [] })
after_run-Reach =
    run_ktest_job-Reach dying true marked 50 x_params (y_params ∷ []) [] fresh.store one_kernel

job_wanted-quiet_example :
    job_wanted (lookup (lit "c1") (lit "a.y") after_run)
    ≡ (elim (lookup (lit "c1") (lit "a.y") after_run) [
      | none ↦ true
      | some status ↦ not (result_is_done status)
    ])
unfolding commit_dirs ktest.Prelude.all contains
job_wanted-quiet_example =
    job_wanted-quiet all_written false listing disk after_run (refl, tt) after_run-Reach (lit "c1")
      (lit "a.y")
