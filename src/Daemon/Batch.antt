-- ===== src/Daemon/Batch.antt =====
-- A whole batch: it ends, and leaves no subtest marked as in progress.
use ktest.Prelude.{
  ℕ, ◌+◌, ◌≡◌, ◌≢◌, refl, ◌∙◌, Bool, true, false, List, [], ◌∷◌, some, arith, length, map,
  if◌then◌else◌, Bool-cases, inl, inr, eq_iff, eq_self, contains, is_empty, ◌&&◌, subst,
}
use ktest.Prelude.Result.{ok, err, Result-cases}
use ktest.Text.{Text, text_eq}
use ktest.BTreeMap.{get, insert, IsAscending}
use ktest.BTreeMap.Laws.{get-insert, insert-IsAscending}
use ktest.Status.{failed_to_run, status_eq, TestResultsMap}
use ktest.Store.{Disk, Store, lookup, update}
use ktest.Store.Laws.{result_of, result_of-update, lookup-result_of}
use ktest.Daemon.{
  JobParams, Worker, out_of_fuel, Ended, on_disk, is_in_progress, marker, mark_in_progress, steps,
  run_ktest_job_inner, fail_dirs, fail_map, job_key, run_ktest_job,
}
use ktest.Daemon.Outcome.{IsSettled, keys_of, resume-ne-out_of_fuel, resume-IsSettled}

module _ (w : Worker) (writes : Bool) (marks : Text → Bool) (now : ℕ) (p : JobParams) where
  abbrev ran : List Text → Store → Ended × Store
  ran = run_ktest_job_inner w writes marks now p

  -- The fuel of the resume loop is enough.
  run_ktest_job_inner-ne-out_of_fuel :
      (sts : List Text) (s : Store) → (ran sts s).0 ≢ err out_of_fuel
  unfolding run_ktest_job_inner
  run_ktest_job_inner-ne-out_of_fuel sts s = elim (Bool-cases (is_empty p.repo_url)) [
    | inl a ↦ rw a (λ e. ground arith)
    | inr a ↦ elim (Bool-cases (steps w writes marks now p)) [
      | inr b ↦ rw (a, b) (λ e. ground arith)
      | inl b ↦
          rw (a, b)
            (resume-ne-out_of_fuel w writes marks now p (length sts + 2) 0 false sts
              (mark_in_progress w writes marks now p sts s) (omega arith))
    ]
  ]

  run_ktest_job_inner-IsSettled :
      (sts : List Text) (s : Store) (key : Text)
      → (ran sts s).0 ≡ ok tt
      → contains (keys_of w writes marks now p sts) key ≡ true
      → IsSettled w writes marks now p key (ran sts s).1
  unfolding run_ktest_job_inner
  run_ktest_job_inner-IsSettled sts s key e there = elim (Bool-cases (is_empty p.repo_url)) [
    | inl a ↦ absurd (ground (arith, rw a at e))
    | inr a ↦ elim (Bool-cases (steps w writes marks now p)) [
      | inr b ↦ absurd (ground (arith, rw (a, b) at e))
      | inl b ↦
          rw (a, b)
            (resume-IsSettled w writes marks now p (keys_of w writes marks now p sts)
              (length sts + 2) 0 false sts (mark_in_progress w writes marks now p sts s) key
              (λ k i g. absurd (ground (arith, i, g))) (rw (a, b) at e) there)
    ]
  ]

  pub get-fail_map :
      (ks : List Text) (s : Store) (m : TestResultsMap) (key : Text)
      → get key (fail_map w writes marks now p ks s m) ≡ (
          if contains ks key && is_in_progress (lookup p.commit key s)
          then some (marker w writes marks now failed_to_run)
          else get key m)
  unfolding fail_map contains
  get-fail_map [] s m key = refl
  get-fail_map (k ∷ ks) s m key = ground (
    arith,
    eq_iff k key,
    get-fail_map ks s (insert k (marker w writes marks now failed_to_run) m) key,
    get-fail_map ks s m key,
    get-insert k key (marker w writes marks now failed_to_run) m,
  )

  pub fail_map-IsAscending :
      (ks : List Text) (s : Store) (m : TestResultsMap)
      → IsAscending m
      → IsAscending (fail_map w writes marks now p ks s m)
  unfolding fail_map
  fail_map-IsAscending [] s m h = h
  fail_map-IsAscending (k ∷ ks) s m h = elim (Bool-cases (is_in_progress (lookup p.commit k s))) [
    | inl e ↦ rw (e, fail_map) (fail_map-IsAscending ks s _ (insert-IsAscending k _ m h))
    | inr e ↦ rw (e, fail_map) (fail_map-IsAscending ks s m h)
  ]

  failed-IsSettled :
      (ks : List Text) (s : Store) (d : Disk → Disk) (key : Text)
      → contains ks key ≡ true
      → IsSettled w writes marks now p key
          (update writes p.commit (fail_map w writes marks now p ks s []) (on_disk d s))
  unfolding get result_of
  failed-IsSettled ks s d key there =
      let m = fail_map w writes marks now p ks s [] in
      let before = lookup-result_of p.commit key s in
      let found = lookup-result_of p.commit key (update writes p.commit m (on_disk d s)) in
      let after =
        result_of-update writes p.commit p.commit key m (on_disk d s)
          (fail_map-IsAscending ks s [] tt) in
      ground (arith, found, before, after, get-fail_map ks s [] key, there, eq_self p.commit)

  -- A batch returns, whatever the worker does: the fuel of the resume loop never runs out.
  pub run_ktest_job-ne-out_of_fuel :
      (js : List JobParams) (s : Store)
      → (run_ktest_job w writes marks now p js s).0 ≢ err out_of_fuel
  unfolding run_ktest_job
  run_ktest_job-ne-out_of_fuel js s =
      let sts = map (λ j. j.subtest) (p ∷ js) in
      elim (Result-cases (ran sts s).0) [
        | inl (u, x) ↦ rw (x, run_ktest_job) (run_ktest_job_inner-ne-out_of_fuel sts s)
        | inr (e, x) ↦ rw (x, run_ktest_job) (λ y. run_ktest_job_inner-ne-out_of_fuel sts s (x ∙ y))
      ]

  -- However a batch ends, no subtest of it is left in progress in the store, where all its jobs
  -- have the keys that the first one gives their subtests.
  pub run_ktest_job-IsSettled :
      (js : List JobParams) (s : Store) (key : Text)
      → map job_key js ≡ keys_of w writes marks now p (map (λ j. j.subtest) js)
      → contains (map job_key (p ∷ js)) key ≡ true
      → IsSettled w writes marks now p key (run_ktest_job w writes marks now p js s).1
  unfolding run_ktest_job
  run_ktest_job-IsSettled js s key same there =
      let sts = map (λ j. j.subtest) (p ∷ js) in
      let ks = map job_key (p ∷ js) in
      let in_batch : contains (keys_of w writes marks now p sts) key ≡ true =
        subst (λ l. contains (job_key p ∷ l) key ≡ true) same there in
      elim (Result-cases (ran sts s).0) [
        | inl (u, x) ↦ rw (x, run_ktest_job) (run_ktest_job_inner-IsSettled sts s key x in_batch)
        | inr (e, x) ↦
            rw (x, run_ktest_job)
              (failed-IsSettled ks (ran sts s).1 (fail_dirs w writes marks now p ks (ran sts s).1)
                key there)
      ]
