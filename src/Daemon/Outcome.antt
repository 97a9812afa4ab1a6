-- ===== src/Daemon/Outcome.antt =====
-- The resume loop: it ends, and where it ends well every subtest has a verdict.
use ktest.Prelude.{
  ℕ, zero, suc, ◌+◌, ◌≤◌, ◌<◌, ◌≡◌, ◌≢◌, refl, ap, Bool, true, false, List, [], ◌∷◌, some, arith,
  length, nat_beq, map, if◌then◌else◌, Bool-cases, inl, inr, ◌==◌, eq_iff, eq_self, contains,
}
use ktest.Prelude.Result.{ok, err}
use ktest.Text.{Text, text_eq}
use ktest.BTreeMap.{get, insert, IsAscending}
use ktest.BTreeMap.Laws.{get-insert, insert-IsAscending}
use ktest.Status.{in_progress, status_eq, TestResult, TestResultsMap}
use ktest.Store.{Disk, Store, lookup}
use ktest.Store.Laws.{result_of, result_of-update, lookup-result_of}
use ktest.Daemon.{
  JobParams, Worker, retry, out_of_fuel, Ended, on_disk, is_in_progress, key_of, unpack_all,
  verdict, next_of, verdicts_of, take_verdicts, next_round, resume,
}

module _ (w : Worker) (writes : Bool) (marks : Text → Bool) (now : ℕ) (p : JobParams) where
  next_of-length :
      (d : Disk) (sts : List Text) → length (next_of w writes marks now p d sts) ≤ length sts
  unfolding next_of
  next_of-length d [] = omega arith
  next_of-length d (st ∷ sts) = ground (arith, next_of-length d sts)

  abbrev pub after_round : ℕ → List Text → Store → Store
  after_round n sts s = take_verdicts w writes marks now p n sts s

  abbrev pub left_to_run : ℕ → List Text → Store → List Text
  left_to_run n sts s = next_round w writes marks now p n sts s

  abbrev pub rest_of_run : ℕ → ℕ → Bool → List Text → Store → Ended × Store
  rest_of_run = resume w writes marks now p

  -- The store that a stopped round leaves: as it was, after a pull, or after the verdicts.
  pub data Halted (n : ℕ) (sts : List Text) (s t : Store) : Type 0 where
    untouched : t ≡ s → Halted n sts s t
    pulled_only : t ≡ on_disk (unpack_all w writes marks now p n sts) s → Halted n sts s t
    judged : t ≡ after_round n sts s → Halted n sts s t

  -- What one round of the loop comes to: a failed step, progress, or a cleaning.
  pub data Round (fuel n : ℕ) (did_clean : Bool) (sts : List Text) (s : Store) (r : Ended × Store)
      : Type 0 where
    stopped : (t : Store) → r ≡ (err retry, t) → Halted n sts s t → Round fuel n did_clean sts s r
    advanced :
        r ≡ rest_of_run fuel (n + 1) did_clean (left_to_run n sts s) (after_round n sts s)
        → length (left_to_run n sts s) < length sts
        → Round fuel n did_clean sts s r
    cleaned :
        did_clean ≡ false
        → r ≡ rest_of_run fuel (n + 1) true sts (after_round n sts s)
        → length (left_to_run n sts s) ≡ length sts
        → Round fuel n did_clean sts s r

  pub resume-Round :
      (fuel n : ℕ) (did_clean : Bool) (st : Text) (sts : List Text) (s : Store)
      → Round fuel n did_clean (st ∷ sts) s (rest_of_run (suc fuel) n did_clean (st ∷ sts) s)
  unfolding resume
  resume-Round fuel n did_clean st sts s =
      let remaining = st ∷ sts in
      let shorter = next_of-length (unpack_all w writes marks now p n remaining s.disk) remaining in
      elim (Bool-cases (w.run n)) [
        | inr a ↦ stopped s (rw (a, resume) refl) (untouched refl)
        | inl a ↦ elim (Bool-cases (w.pull n)) [
          | inr b ↦
              stopped (on_disk (unpack_all w writes marks now p n remaining) s)
                (rw (a, b, resume) refl) (pulled_only refl)
          | inl b ↦
              elim (Bool-cases (nat_beq (length (left_to_run n remaining s)) (length remaining))) [
                | inr c ↦ advanced (rw (a, b, c, resume) refl) (ground arith)
                | inl c ↦ elim (Bool-cases did_clean) [
                  | inl d ↦
                      stopped (after_round n remaining s) (rw (a, b, c, d, resume) refl)
                        (judged refl)
                  | inr d ↦ elim (Bool-cases (w.clean n)) [
                    | inr f ↦
                        stopped (after_round n remaining s) (rw (a, b, c, d, f, resume) refl)
                          (judged refl)
                    | inl f ↦ cleaned d (rw (a, b, c, d, f, resume) refl) (ground arith)
                  ]
                ]
              ]
        ]
      ]

  -- Rounds left: one for each subtest, and one for the cleaning.
  abbrev pub rounds : Bool → List Text → ℕ
  rounds true sts = length sts
  rounds false sts = suc (length sts)

  pub resume-ne-out_of_fuel :
      (fuel n : ℕ) (did_clean : Bool) (sts : List Text) (s : Store)
      → rounds did_clean sts < fuel
      → (rest_of_run fuel n did_clean sts s).0 ≢ err out_of_fuel
  unfolding resume
  resume-ne-out_of_fuel zero n did_clean sts s h = absurd (omega arith)
  resume-ne-out_of_fuel (suc fuel) n did_clean [] s h = λ e. ground arith
  resume-ne-out_of_fuel (suc fuel) n did_clean (st ∷ sts) s h =
      elim (resume-Round fuel n did_clean st sts s) [
        | stopped t e halted ↦ rw e (λ x. ground arith)
        | advanced e lt ↦ rw e (resume-ne-out_of_fuel fuel (n + 1) did_clean _ _ (ground arith))
        | cleaned d e same ↦ rw e (resume-ne-out_of_fuel fuel (n + 1) true _ _ (ground arith))
      ]

  abbrev pub keys_of : List Text → List Text
  keys_of sts = map (key_of w writes marks now p) sts

  abbrev pub verdict_at : Disk → Text → TestResult
  verdict_at = verdict w writes marks now p

  -- The store has no marker of a run in progress under the key.
  abbrev pub IsSettled : Text → Store → Type 0
  IsSettled key s = is_in_progress (lookup p.commit key s) ≡ false

  pub get-verdicts_of :
      (d : Disk) (sts : List Text) (m : TestResultsMap) (key : Text)
      → get key (verdicts_of w writes marks now p d sts m)
        ≡ (if contains (keys_of sts) key then some (verdict_at d key) else get key m)
  unfolding verdicts_of contains
  get-verdicts_of d [] m key = refl
  get-verdicts_of d (st ∷ sts) m key =
      let k = key_of w writes marks now p st in
      elim (Bool-cases (k == key)) [
        | inl e ↦
            let same : k ≡ key = (eq_iff k key).0 e in
            ground (
              arith,
              get-verdicts_of d sts (insert k (verdict_at d k) m) key,
              get-insert k key (verdict_at d k) m,
              ap (verdict_at d) same,
              e,
            )
        | inr e ↦ ground (
          arith,
          get-verdicts_of d sts (insert k (verdict_at d k) m) key,
          get-insert k key (verdict_at d k) m,
          e,
        )
      ]

  pub verdicts_of-IsAscending :
      (d : Disk) (sts : List Text) (m : TestResultsMap)
      → IsAscending m
      → IsAscending (verdicts_of w writes marks now p d sts m)
  unfolding verdicts_of
  verdicts_of-IsAscending d [] m h = h
  verdicts_of-IsAscending d (st ∷ sts) m h =
      verdicts_of-IsAscending d sts _ (insert-IsAscending (key_of w writes marks now p st) _ m h)

  pub contains-next_of :
      (d : Disk) (sts : List Text) (key : Text)
      → contains (keys_of sts) key ≡ true
      → contains (keys_of (next_of w writes marks now p d sts)) key ≡ false
      → ((verdict_at d key).status == in_progress) ≡ false
  unfolding next_of contains
  contains-next_of d [] key h g = absurd (ground arith)
  contains-next_of d (st ∷ sts) key h g =
      let k = key_of w writes marks now p st in
      elim (Bool-cases (k == key)) [
        | inl e ↦
            let same : k ≡ key = (eq_iff k key).0 e in rw (← same) (ground (arith, eq_iff k key))
        | inr e ↦ ground (arith, contains-next_of d sts key, e)
      ]

  pub result_of-take_verdicts :
      (n : ℕ) (sts : List Text) (s : Store) (key : Text)
      → result_of p.commit key (after_round n sts s) ≡ (
          if contains (keys_of sts) key
          then some (verdict_at (unpack_all w writes marks now p n sts s.disk) key)
          else result_of p.commit key s)
  unfolding take_verdicts result_of get
  result_of-take_verdicts n sts s key =
      let s' = on_disk (unpack_all w writes marks now p n sts) s in
      ground (
        arith,
        eq_self p.commit,
        result_of-update writes p.commit p.commit key
            (verdicts_of w writes marks now p s'.disk sts []) s'
            (verdicts_of-IsAscending s'.disk sts [] tt),
        get-verdicts_of s'.disk sts [] key,
      )

  -- Every key is still to be run or settled.
  abbrev pub Settling : List Text → List Text → Store → Type 0
  Settling ks sts s =
      (key : Text) → contains ks key ≡ true → contains (keys_of sts) key ≡ false → IsSettled key s

  Settling-after_round :
      (ks : List Text) (n : ℕ) (sts : List Text) (s : Store)
      → Settling ks sts s
      → Settling ks (left_to_run n sts s) (after_round n sts s)
  Settling-after_round ks n sts s h key there gone =
      let after = result_of-take_verdicts n sts s key in
      let before = lookup-result_of p.commit key s in
      let found = lookup-result_of p.commit key (after_round n sts s) in
      elim (Bool-cases (contains (keys_of sts) key)) [
        | inl e ↦
            let done =
              contains-next_of (unpack_all w writes marks now p n sts s.disk) sts key e gone in
            ground (arith, after, found, e, done)
        | inr e ↦ ground (arith, after, found, e, before, h key there e)
      ]

  Settling-after_cleaning :
      (ks : List Text) (n : ℕ) (sts : List Text) (s : Store)
      → Settling ks sts s
      → Settling ks sts (after_round n sts s)
  Settling-after_cleaning ks n sts s h key there gone =
      let after = result_of-take_verdicts n sts s key in
      let before = lookup-result_of p.commit key s in
      let found = lookup-result_of p.commit key (after_round n sts s) in
      ground (arith, after, found, before, h key there gone)

  pub resume-IsSettled :
      (ks : List Text) (fuel n : ℕ) (did_clean : Bool) (sts : List Text) (s : Store) (key : Text)
      → Settling ks sts s
      → (rest_of_run fuel n did_clean sts s).0 ≡ ok tt
      → contains ks key ≡ true
      → IsSettled key (rest_of_run fuel n did_clean sts s).1
  unfolding resume contains
  resume-IsSettled ks zero n did_clean sts s key h e there = absurd (ground arith)
  resume-IsSettled ks (suc fuel) n did_clean [] s key h e there = h key there refl
  resume-IsSettled ks (suc fuel) n did_clean (st ∷ sts) s key h e there =
      elim (resume-Round fuel n did_clean st sts s) [
        | stopped t x halted ↦ absurd (ground (arith, rw x at e))
        | advanced x lt ↦ rw x (
            resume-IsSettled ks fuel (n + 1) did_clean _ _ key
              (Settling-after_round ks n (st ∷ sts) s h) (rw x at e) there)
        | cleaned d x same ↦ rw x (
            resume-IsSettled ks fuel (n + 1) true _ _ key
              (Settling-after_cleaning ks n (st ∷ sts) s h) (rw x at e) there)
      ]
