-- ===== src/Daemon/System/Runs.antt =====
-- A batch that runs by itself goes through steps of the system.
use ktest.Prelude.{
  ℕ, zero, suc, ◌+◌, ◌≡◌, refl, ap, sym, ◌∙◌, subst, Bool, true, false, List, [], ◌∷◌, arith,
  length, map, contains, Bool-cases, inl, inr, is_empty,
}
use ktest.Prelude.Result.{ok, err, Result-cases}
use ktest.Text.{Text, text_eq}
use ktest.Store.{Store}
use ktest.Daemon.{
  JobParams, Worker, Ended, TaskError, retry, fatal, on_disk, job_key, steps, mark_in_progress,
  unpack_all, run_ktest_job_inner, run_ktest_job, resume,
}
use ktest.Daemon.Outcome.{
  keys_of, rest_of_run, resume-Round, stopped, Halted, untouched, pulled_only, judged, advanced,
  cleaned, after_round, left_to_run,
}
use ktest.Daemon.System.{
  Running, System, IsBatch, Move, mark, judge, clean, pull, finish, fail, Step, claim, moves, Reach,
  here, later, failed,
}

Reach-trans : {a b c : System} → Reach a b → Reach b c → Reach a c
Reach-trans p here = p
Reach-trans p (later q st) = later (Reach-trans p q) st

module _ (w : Worker) (writes : Bool) (marks : Text → Bool) (now : ℕ) (p : JobParams)
    (js : List JobParams) (others : List Running) where
  abbrev subtests_of : List Text
  subtests_of = map (λ (j : JobParams). j.subtest) (p ∷ js)

  -- The batch where its loop is at a round, with some subtests left.
  abbrev at : ℕ → List Text → Running
  at n sts = record {
    worker = w;
    writes = writes;
    marks = marks;
    now = now;
    params = p;
    subtests = subtests_of;
    batch_keys = map job_key (p ∷ js);
    round = n;
    remaining = sts;
  }

  abbrev with_batch : Running → Store → System
  with_batch b s = record { store = s; batches = b ∷ others }

  first_moves :
      (b next : Running) (s t : Store)
      → Move b s (next ∷ []) t
      → Step (with_batch b s) (with_batch next t)
  first_moves b next s t mv = moves [] others b (next ∷ []) t refl mv

  -- The run of the loop, seen as steps: a success leaves nothing to run.
  record IsRun (n : ℕ) (sts : List Text) (s : Store) (r : Ended × Store) : Type 0 where
    last_round : ℕ
    left : List Text
    path : Reach (with_batch (at n sts) s) (with_batch (at last_round left) r.1)
    all_done : r.0 ≡ ok tt → left ≡ []

  IsRun-later :
      {n m : ℕ} {sts sts' : List Text} {s t : Store} {r : Ended × Store}
      → Step (with_batch (at n sts) s) (with_batch (at m sts') t)
      → IsRun m sts' t r
      → IsRun n sts s r
  IsRun-later st run = record {
    last_round = run.last_round;
    left = run.left;
    path = Reach-trans (later here st) run.path;
    all_done = run.all_done;
  }

  stops_at :
      (n m : ℕ) (sts left : List Text) (s t : Store) (r : Ended × Store) (e : TaskError)
      → r.0 ≡ err e
      → r.1 ≡ t
      → Reach (with_batch (at n sts) s) (with_batch (at m left) t)
      → IsRun n sts s r
  stops_at n m sts left s t r e failure store reached = record {
    last_round = m;
    left = left;
    path =
        subst (λ x. Reach (with_batch (at n sts) s) (with_batch (at m left) x)) (sym store) reached;
    all_done = λ success. absurd (ground (arith, failure, success));
  }

  stopped-IsRun :
      (n : ℕ) (sts : List Text) (s t : Store) (r : Ended × Store)
      → r ≡ (err retry, t)
      → Halted w writes marks now p n sts s t
      → IsRun n sts s r
  stopped-IsRun n sts s t r e (untouched same) =
      stops_at n n sts sts s s r retry (ap (λ x. x.0) e) (ap (λ x. x.1) e ∙ same) here
  stopped-IsRun n sts s t r e (pulled_only same) =
      let f = unpack_all w writes marks now p n sts in
      stops_at n n sts sts s (on_disk f s) r retry (ap (λ x. x.0) e) (ap (λ x. x.1) e ∙ same)
        (later here (first_moves (at n sts) (at n sts) s (on_disk f s) (pull f)))
  stopped-IsRun n sts s t r e (judged same) =
      stops_at n (n + 1) sts sts s (after_round w writes marks now p n sts s) r retry
        (ap (λ x. x.0) e) (ap (λ x. x.1) e ∙ same)
        (later here (
          first_moves (at n sts) (at (n + 1) sts) s (after_round w writes marks now p n sts s)
            clean))

  resume-IsRun :
      (fuel n : ℕ) (did_clean : Bool) (sts : List Text) (s : Store)
      → IsRun n sts s (rest_of_run w writes marks now p fuel n did_clean sts s)
  unfolding resume
  resume-IsRun zero n did_clean sts s = record {
    last_round = n;
    left = sts;
    path = here;
    all_done = λ e. absurd (ground arith);
  }
  resume-IsRun (suc fuel) n did_clean [] s = record {
    last_round = n;
    left = [];
    path = here;
    all_done = λ e. refl;
  }
  resume-IsRun (suc fuel) n did_clean (st ∷ sts) s =
      elim (resume-Round w writes marks now p fuel n did_clean st sts s) [
        | stopped t e halted ↦ stopped-IsRun n (st ∷ sts) s t _ e halted
        | advanced e lt ↦
            let next = left_to_run w writes marks now p n (st ∷ sts) s in
            let s' = after_round w writes marks now p n (st ∷ sts) s in
            rw e (
              IsRun-later (first_moves (at n (st ∷ sts)) (at (n + 1) next) s s' judge)
                (resume-IsRun fuel (n + 1) did_clean next s'))
        | cleaned d e same ↦
            let s' = after_round w writes marks now p n (st ∷ sts) s in
            rw e (
              IsRun-later (first_moves (at n (st ∷ sts)) (at (n + 1) (st ∷ sts)) s s' clean)
                (resume-IsRun fuel (n + 1) true (st ∷ sts) s'))
      ]

  abbrev inner : Store → Ended × Store
  inner s = run_ktest_job_inner w writes marks now p subtests_of s

  inner-IsRun : (s : Store) → IsRun 0 [] s (inner s)
  unfolding run_ktest_job_inner
  inner-IsRun s =
      let t = mark_in_progress w writes marks now p subtests_of s in
      let begin = first_moves (at 0 []) (at 0 subtests_of) s t (mark refl) in
      elim (Bool-cases (is_empty p.repo_url)) [
        | inl a ↦ rw a (stops_at 0 0 [] [] s s (err fatal, s) fatal refl refl here)
        | inr a ↦ elim (Bool-cases (steps w writes marks now p)) [
          | inr b ↦
              rw (a, b)
                (stops_at 0 0 [] subtests_of s t (err retry, t) retry refl refl (later here begin))
          | inl b ↦
              rw (a, b)
                (IsRun-later begin (resume-IsRun (length subtests_of + 2) 0 false subtests_of t))
        ]
      ]

  ends :
      (s : Store)
      → IsRun 0 [] s (inner s)
      → Reach
          (with_batch (at 0 []) s)
          (record { store = (run_ktest_job w writes marks now p js s).1; batches = others })
  unfolding run_ktest_job
  ends s run = elim (Result-cases (inner s).0) [
    | inl (u, x) ↦
        rw (x, run_ktest_job)
          (later run.path (
            moves [] others (at run.last_round run.left) [] (inner s).1 refl
              (finish (run.all_done (x)))))
    | inr (e, x) ↦
        rw (x, run_ktest_job)
          (later run.path (
            moves [] others (at run.last_round run.left) []
              (failed (at run.last_round run.left) (inner s).1) refl fail))
  ]

  -- A run of a whole batch, beside whatever other batches, goes through steps of the system to the
  -- store that it leaves, where its jobs have the keys that the first one gives their subtests.
  pub run_ktest_job-Reach :
      (s : Store)
      → map job_key js ≡ keys_of w writes marks now p (map (λ (j : JobParams). j.subtest) js)
      → Reach
          (record { store = s; batches = others })
          (record { store = (run_ktest_job w writes marks now p js s).1; batches = others })
  run_ktest_job-Reach s same =
      let one_batch : IsBatch (at 0 []) =
        λ key h. subst (λ l. contains (job_key p ∷ l) key ≡ true) (sym same) h in
      Reach-trans (later here (claim (at 0 []) one_batch refl)) (ends s (inner-IsRun s))
