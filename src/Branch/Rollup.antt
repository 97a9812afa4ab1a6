-- ===== src/Branch/Rollup.antt =====
-- What the entries of a branch log count, and what `last_good_line` says.
use ktest.Prelude.{
  ℕ, zero, suc, ◌+◌, ◌^◌, ◌<◌, ◌≡◌, refl, List, [], ◌∷◌, Option, none, some, arith, length, keep_if,
  All, take, if◌then◌else◌, get_elem?, Bool-cases, Option-cases, inl, inr, ◌==◌, eq_iff, ◌↔◌,
}
use ktest.Text.{Text}
use ktest.BTreeMap.{get}
use ktest.Status.{
  TestStatus, in_progress, passed, failed, notrun, failed_to_run, unknown, status_beq, status_eq,
  TestResult, TestResultsMap,
}
use ktest.Branch.{
  CommitResults, good_at, at_least, last_good_from, count_status, branch_entry, BranchEntry,
  write_branch_log, branchlog_parse,
}

abbrev with_status : TestStatus → TestResultsMap → ℕ
with_status s m = length (keep_if (λ p. status_beq p.1.status s) m)

abbrev total : TestResultsMap → ℕ
total m =
    with_status passed m
    + with_status failed m
    + with_status notrun m
    + with_status failed_to_run m
    + with_status in_progress m
    + with_status unknown m

total-cons : (k : Text) (r : TestResult) (m : TestResultsMap) → total ((k, r) ∷ m) ≡ suc (total m)
unfolding keep_if
total-cons k r m = by_status r.status r.starttime r.duration
  where
    by_status :
        (s : TestStatus) (t d : ℕ)
        → total ((k, record { status = s; starttime = t; duration = d }) ∷ m) ≡ suc (total m)
    by_status passed t d = omega arith
    by_status failed t d = omega arith
    by_status notrun t d = omega arith
    by_status failed_to_run t d = omega arith
    by_status in_progress t d = omega arith
    by_status unknown t d = omega arith

total-eq-length : (m : TestResultsMap) → total m ≡ length m
unfolding keep_if
total-eq-length [] = refl
total-eq-length ((k, r) ∷ m) = omega (arith, total-cons k r m, total-eq-length m)

-- Below 2^32 results, the six counts of an entry add up to the number of results.
pub branch_entry-total :
    (r : CommitResults)
    → length r.tests < 2 ^ 32
    → let e = branch_entry r in
      e.passed + e.failed + e.notrun + e.failed_to_run + e.inprogress + e.unknown ≡ length r.tests
unfolding branch_entry count_status
branch_entry-total r h = omega (arith, total-eq-length r.tests)

-- Reading a written branch log gives its entries.
branchlog_parse-write_branch_log :
    (user branch : Text) (entries : List BranchEntry)
    → branchlog_parse (write_branch_log user branch entries).1 ≡ some entries
unfolding branchlog_parse write_branch_log
branchlog_parse-write_branch_log user branch [] = refl
branchlog_parse-write_branch_log user branch (e ∷ es) =
    rw (branchlog_parse-write_branch_log user branch es, branchlog_parse) refl

-- The status of a test at a commit.
unfoldable pub status_in : Text → CommitResults → Option TestStatus
status_in test r = elim (get test r.tests) [ none ↦ none | some t ↦ some t.status ]

unfoldable pub status_at : Text → Option CommitResults → Option TestStatus
unfolding status_in
status_at test none = none
status_at test (some r) = status_in test r

abbrev pub AllFailed : Text → List CommitResults → Type 0
AllFailed test rs = All (λ r. status_in test r ≡ some failed) rs

last_good_from-cons :
    (idx : ℕ) (r : CommitResults) (rs : List CommitResults) (test : Text)
    → last_good_from idx (r ∷ rs) test ≡ (elim (status_in test r) [
      | none ↦ at_least idx
      | some s ↦
          if s == passed
          then good_at idx
          else if s == failed
          then last_good_from (idx + 1) rs test
          else at_least idx
    ])
unfolding last_good_from status_in
last_good_from-cons idx r rs test = elim (Option-cases (get test r.tests)) [
  | inl e ↦ ground (arith, e)
  | inr (t, e) ↦ ground (arith, e)
]

good_from_sound :
    (idx m : ℕ) (rs : List CommitResults) (test : Text)
    → last_good_from idx rs test ≡ good_at m
    → (n : ℕ) × (m ≡ idx + n)
      × AllFailed test (take n rs)
      × (status_at test (get_elem? rs n) ≡ some passed)
unfolding last_good_from status_at
good_from_sound idx m [] test h = absurd (ground arith)
good_from_sound idx m (r ∷ rs) test h =
    let step = last_good_from-cons idx r rs test in
    elim (Option-cases (status_in test r)) [
      | inl e ↦ absurd (ground (arith, step, e))
      | inr (s, e) ↦ elim (Bool-cases (s == passed)) [
        | inl p ↦
            let here : idx ≡ m = ground (arith, step, e, p) in
            (0, omega (arith, here), tt, ground (arith, e, p, eq_iff s passed))
        | inr p ↦ elim (Bool-cases (s == failed)) [
          | inl q ↦
              let (n, at, fails, pass) =
                good_from_sound (idx + 1) m rs test (ground (arith, step, e, p, q)) in
              (suc n, omega (arith, at), (ground (arith, e, q, eq_iff s failed), fails), pass)
          | inr q ↦ absurd (ground (arith, step, e, p, q))
        ]
      ]
    ]

good_from_complete :
    (idx n : ℕ) (rs : List CommitResults) (test : Text)
    → AllFailed test (take n rs)
    → status_at test (get_elem? rs n) ≡ some passed
    → last_good_from idx rs test ≡ good_at (idx + n)
unfolding last_good_from status_at
good_from_complete idx n [] test f h = absurd (ground arith)
good_from_complete idx zero (r ∷ rs) test f h = ground (arith, last_good_from-cons idx r rs test)
good_from_complete idx (suc n) (r ∷ rs) test (b, f) h =
    ground (arith, last_good_from-cons idx r rs test, b, good_from_complete (idx + 1) n rs test f h)

-- The answer of `last_good_line` is a plain index exactly where the test passed at the commit of
-- that index and failed at every newer one.
pub last_good_from_iff :
    (rs : List CommitResults) (test : Text) (n : ℕ)
    → (last_good_from 0 rs test ≡ good_at n)
      ↔ (AllFailed test (take n rs) × (status_at test (get_elem? rs n) ≡ some passed))
last_good_from_iff rs test n = (
  (λ h.
      let (k, at, fails, pass) = good_from_sound 0 n rs test h in
      let same : k ≡ n = omega (arith, at) in rw (← same) (fails, pass)),
  (λ h. ground (arith, good_from_complete 0 n rs test h.0 h.1)),
)
