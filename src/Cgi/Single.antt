-- ===== src/Cgi/Single.antt =====
-- The statistics of a single test.
use ktest.Prelude.{
  ℕ, ◌+◌, ◌%◌, ◌^◌, ◌≡◌, refl, ap, ◌∙◌, Bool, true, ◌&&◌, ◌||◌, not, List, [], ◌∷◌, none, some,
  arith, if◌then◌else◌, nat_beq, Bool-cases, inl, inr, all, ◌==◌, eq_iff, flat_map,
}
use ktest.Text.{Text, text_eq}
use ktest.Status.{TestStatus, passed, failed, TestResult, status_eq}
use ktest.Branch.{CommitResults}
use ktest.Cgi.{SingleTestStats, no_stats, count_result, stats_from, single_test_stats}

-- All results are of one test.
abbrev pub one_test : List (Text × TestResult) → Bool
one_test [] = true
one_test ((name, result) ∷ rest) = all (λ p. name == p.0) rest

-- How many results have a status, and the time of those that passed or failed.
unfoldable pub nr_with : TestStatus → List (Text × TestResult) → ℕ
nr_with s [] = 0
nr_with s ((name, result) ∷ rest) = (if result.status == s then 1 else 0) + nr_with s rest

unfoldable pub time_completed : List (Text × TestResult) → ℕ
time_completed [] = 0
time_completed ((name, result) ∷ rest) =
    (if result.status == passed || result.status == failed then result.duration else 0)
    + time_completed rest

-- The totals, from given ones on, as u64.
abbrev totals_from : ℕ → ℕ → ℕ → List (Text × TestResult) → SingleTestStats
totals_from p f d rs = record {
  completed = (p + f + (nr_with passed rs + nr_with failed rs)) % 2 ^ 64;
  passed = (p + nr_with passed rs) % 2 ^ 64;
  failed = (f + nr_with failed rs) % 2 ^ 64;
  duration = (d + time_completed rs) % 2 ^ 64;
}

abbrev pub totals : List (Text × TestResult) → SingleTestStats
totals rs = record {
  completed = (nr_with passed rs + nr_with failed rs) % 2 ^ 64;
  passed = nr_with passed rs % 2 ^ 64;
  failed = nr_with failed rs % 2 ^ 64;
  duration = time_completed rs % 2 ^ 64;
}

abbrev so_far : ℕ → ℕ → ℕ → SingleTestStats
so_far p f d = record {
  completed = (p + f) % 2 ^ 64;
  passed = p % 2 ^ 64;
  failed = f % 2 ^ 64;
  duration = d % 2 ^ 64;
}

abbrev is_completed : TestResult → Bool
is_completed r = r.status == passed || r.status == failed

count_result-so_far :
    (p f d : ℕ) (r : TestResult)
    → count_result (so_far p f d) r
      ≡ so_far
          (p + (if r.status == passed then 1 else 0))
          (f + (if r.status == failed then 1 else 0))
          (d + (if is_completed r then r.duration else 0))
count_result-so_far p f d r = by_status r.status r.duration
  where
    by_status :
        (s : TestStatus) (n : ℕ)
        → count_result (so_far p f d) (record { status = s; starttime = 0; duration = n })
          ≡ so_far
              (p + (if s == passed then 1 else 0))
              (f + (if s == failed then 1 else 0))
              (d + (if s == passed || s == failed then n else 0))
    by_status s n = ground arith

totals_from-step :
    (p f d : ℕ) (name : Text) (r : TestResult) (rs : List (Text × TestResult))
    → totals_from
        (p + (if r.status == passed then 1 else 0))
        (f + (if r.status == failed then 1 else 0))
        (d + (if is_completed r then r.duration else 0))
        rs
      ≡ totals_from p f d ((name, r) ∷ rs)
unfolding nr_with time_completed
totals_from-step p f d name r rs = ground arith

stats_from_one :
    (name : Text) (p f d : ℕ) (rs : List (Text × TestResult))
    → stats_from (some name) (so_far p f d) rs
      ≡ (if all (λ q. name == q.0) rs then some (totals_from p f d rs) else none)
unfolding stats_from all nr_with time_completed
stats_from_one name p f d [] = ground arith
stats_from_one name p f d ((n, r) ∷ rs) = elim (Bool-cases (name == n)) [
  | inr e ↦ ground (arith, e)
  | inl e ↦
      rw (count_result-so_far p f d r, e)
        (rw (← (eq_iff name n).0 e) (
          stats_from_one name (p + (if r.status == passed then 1 else 0))
            (f + (if r.status == failed then 1 else 0))
            (d + (if is_completed r then r.duration else 0)) rs
          ∙ ap (λ t. if all (λ q. name == q.0) rs then some t else none)
              (totals_from-step p f d name r rs)))
]

stats_from_start :
    (rs : List (Text × TestResult))
    → stats_from none no_stats rs ≡ (if one_test rs then some (totals rs) else none)
unfolding stats_from nr_with time_completed
stats_from_start [] = refl
stats_from_start ((n, r) ∷ rs) = rw (count_result-so_far 0 0 0 r) (
    stats_from_one n (0 + (if r.status == passed then 1 else 0))
      (0 + (if r.status == failed then 1 else 0)) (0 + (if is_completed r then r.duration else 0))
      rs
    ∙ ap (λ t. if all (λ q. n == q.0) rs then some t else none)
        (totals_from-step 0 0 0 n r rs ∙ from_zero ((n, r) ∷ rs)))
  where
    from_zero : (l : List (Text × TestResult)) → totals_from 0 0 0 l ≡ totals l
    from_zero l = ground arith

-- The statistics are there exactly where all results have one name and the number of those that
-- passed or failed is not 0 as a u64, and then they are the counts and the summed durations of
-- those results, as u64.
pub single_test_stats-totals :
    (commits : List CommitResults)
    → single_test_stats commits ≡ (
        let results = flat_map (λ (c : CommitResults). c.tests) commits in
        if one_test results && not (nat_beq (totals results).completed 0)
        then some (totals results)
        else none)
unfolding single_test_stats
single_test_stats-totals commits =
    let results = flat_map (λ (c : CommitResults). c.tests) commits in
    rw (stats_from_start results, single_test_stats)
      (elim (Bool-cases (one_test results)) [
        | inl e ↦ rw e (elim (Bool-cases (nat_beq (totals results).completed 0)) [
          | inl f ↦ rw f refl
          | inr f ↦ rw f refl
        ])
        | inr e ↦ rw e refl
      ])
