-- ===== src/Examples/Jobs.antt =====
-- A matrix of one spec over two commits, of which one has a verdict for `x` and a run in progress
-- for `y`, and the other a verdict for `x`.
use ktest.Prelude.{
  ℕ, ◌+◌, ◌^◌, ◌<◌, ◌≡◌, ◌≢◌, subst, nat_beq, if◌then◌else◌, ◌↔◌, ◌⊎◌, refl, arith, true, false,
  Bool, List, [], ◌∷◌, Option, none, some, All, is_some, is_empty, map, eq_iff, ◌==◌, Bool-cases,
  inl, inr, Ordering,
}
use mathlib.Core.List.{Memᴰ}
use ktest.Text.{Text, lit, text_eq}
use ktest.BTreeMap.{get}
use ktest.Status.{TestResultsMap}
use ktest.Stats.{TestStats}
use ktest.Jobs.{JobKey, key_eq, Job, job_cmp}
use ktest.Jobs.Listing.{
  split_whitespace, Tests, Cache, Listing, success, exit_failure, IsTruthful, IsCurrent,
  get_subtests, get_subtests-IsTruthful,
}
use ktest.Jobs.Specs.{TestSpec}
use ktest.Jobs.Desired.{candidates, jobs_of_specs, job_at}
use ktest.Jobs.Dedup.{Covers}
use ktest.Jobs.Window.{Crowded}
use ktest.Jobs.Wanted.{IsPlace, candidates_iff, jobs_of_specs-IsPlace, jobs_of_specs-Covers}
use ktest.Examples.Data.{y_job, read_commit, spec}

abbrev no_stats : Text → Text → Text → Text → Option TestStats
no_stats test subtest kernel env = none

abbrev specs : List TestSpec
specs = spec ∷ []

y_job-IsPlace : IsPlace read_commit no_stats none specs y_job
unfolding ktest.Status.job_wanted ktest.Jobs.Desired.recorded get ktest.Text.text_beq
    ktest.Naming.subtest_result_key ktest.Text.replace_byte ktest.Text.remove_all job_at
    ktest.Jobs.job_nice
y_job-IsPlace = record {
  spec = spec;
  listed = Memᴰ.head refl;
  commit = lit "2";
  at_age = refl;
  subtest = lit "y";
  has_subtest = Memᴰ.tail (Memᴰ.head refl);
  kernel = [];
  has_kernel = Memᴰ.head refl;
  wanted = refl;
  job = refl;
}

y_alone : jobs_of_specs read_commit no_stats none specs 10 ≡ y_job ∷ []
unfolding jobs_of_specs ktest.Prelude.Cmp.Sort.sort_by ktest.Prelude.flat_map
    ktest.Prelude.filter_map ktest.Status.job_wanted get ktest.Text.text_beq
    ktest.Naming.subtest_result_key ktest.Text.replace_byte ktest.Text.remove_all
    ktest.Prelude.contains ktest.Jobs.job_nice
y_alone = refl

candidates_iff_example :
    Memᴰ y_job (candidates read_commit no_stats none specs)
    ↔ IsPlace read_commit no_stats none specs y_job
candidates_iff_example = candidates_iff read_commit no_stats none specs y_job

jobs_of_specs-IsPlace_example :
    All (IsPlace read_commit no_stats none specs) (jobs_of_specs read_commit no_stats none specs 10)
jobs_of_specs-IsPlace_example = jobs_of_specs-IsPlace read_commit no_stats none specs 10

jobs_of_specs-Covers_example :
    Covers (jobs_of_specs read_commit no_stats none specs 10) y_job
    ⊎ Crowded 10 (jobs_of_specs read_commit no_stats none specs 10) y_job
jobs_of_specs-Covers_example =
    jobs_of_specs-Covers read_commit no_stats none specs 10 y_job y_job-IsPlace

abbrev older : Job
older = record y_job { age = 3; nice = 2 }

abbrev AtMostEqual : Ordering → Type 0
AtMostEqual Ordering.gt = ⊥
AtMostEqual _ = Unit

y_not_behind : job_cmp y_job older ≢ Ordering.gt
unfolding job_cmp
y_not_behind e = elim (subst AtMostEqual e tt) [ ]

-- One test file, seen at time 5, which has changed at time 6.
abbrev history : Text → ℕ → List Text
history path time = if nat_beq time 5 then lit "x" ∷ [] else lit "x" ∷ lit "y" ∷ []

abbrev old_cache : Cache
old_cache = (lit "a.ktest", (5, lit "x" ∷ [])) ∷ []

abbrev fs : Tests
fs = record { mtime = λ path. some 6; run = λ path. success (lit "x y\n") }

old_cache-IsTruthful : IsTruthful history old_cache
unfolding ktest.HashMap.lookup
old_cache-IsTruthful path mt subtests e = elim (Bool-cases (lit "a.ktest" == path)) [
  | inl h ↦
      let entry : ◌≡◌ {A = Option (ℕ × List Text)} (some (5, lit "x" ∷ [])) (some (mt, subtests)) =
        ground (arith, h) in
      let time : 5 ≡ mt = ground arith in
      let listed : lit "x" ∷ [] ≡ subtests = ground arith in rw (← time, ← listed) (refl, refl)
  | inr h ↦ absurd (ground (arith, h))
]

fs-IsCurrent : IsCurrent history fs (lit "a.ktest")
unfolding ktest.Jobs.Listing.split_whitespace ktest.Prelude.keep_if
fs-IsCurrent mt e = let time : 6 ≡ mt = ground arith in rw (← time) (inr refl)

get_subtests-IsTruthful_example :
    IsTruthful history (get_subtests fs (lit "a.ktest") old_cache).1
    × (((get_subtests fs (lit "a.ktest") old_cache).0 ≡ [])
        ⊎ ((get_subtests fs (lit "a.ktest") old_cache).0 ≡ history (lit "a.ktest") 6))
get_subtests-IsTruthful_example =
    get_subtests-IsTruthful history fs (lit "a.ktest") old_cache old_cache-IsTruthful fs-IsCurrent 6
      refl

-- A no-break space separates, another character of two bytes does not.
split_wide :
    split_whitespace (b'x' ∷ 194 ∷ 160 ∷ b'y' ∷ 195 ∷ 160 ∷ b' ' ∷ b'z' ∷ [])
    ≡ lit "x" ∷ (b'y' ∷ 195 ∷ 160 ∷ []) ∷ lit "z" ∷ []
unfolding split_whitespace ktest.Prelude.keep_if
split_wide = refl
