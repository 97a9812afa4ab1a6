-- ===== src/Jobs/Desired.antt =====
-- `desired_jobs` of src/jobs.rs: the matrix of candidates, commit age by commit age, then sorted,
-- stripped of repeated keys and cut at the limit. The results of the commits are one snapshot of
-- the store, since the code reads each commit's once and keeps them.
use ktest.Prelude.{
  ℕ, zero, suc, ◌+◌, true, false, List, [], ◌∷◌, ◌++◌, Option, none, some, if◌then◌else◌, get_elem?,
  take, length, filter_map, flat_map, unwrap_or, contains, leb,
}
use ktest.Prelude.Cmp.Sort.{sort_by}
use ktest.Text.{Text}
use ktest.BTreeMap.{get}
use ktest.Status.{TestStatus, TestResult, TestResultsMap, job_wanted}
use ktest.Naming.{subtest_result_key}
use ktest.Stats.{TestStats, Duration, test_stats}
use ktest.Config.{CiConfig}
use ktest.Git.{Git}
use ktest.Jobs.{JobKey, key_eq, Job, job_nice, job_cmp}
use ktest.Jobs.Listing.{Tests, Cache}
use ktest.Jobs.Specs.{TestSpec, build_test_specs}

-- `max().unwrap_or(0)` of the lengths.
unfoldable pub max_age : List TestSpec → ℕ
max_age [] = 0
max_age (s ∷ ss) =
    let rest = max_age ss in if leb (length s.commits) rest then rest else length s.commits

abbrev pub duration_of : Option TestStats → ℕ → ℕ
duration_of none def = def
duration_of (some s) def = s.duration

abbrev pub status_of : Option TestResult → Option TestStatus
status_of none = none
status_of (some r) = some r.status

-- The results of a commit, and the statistics of a subtest at a kernel and an environment.
module _ (results : Text → Option TestResultsMap)
    (stats : Text → Text → Text → Text → Option TestStats) (duration_def : Option ℕ) where
  -- What the results say of a subtest at a commit.
  unfoldable pub recorded : TestSpec → Text → Text → Text → Option TestStatus
  recorded spec commit subtest kernel =
      status_of
        (get (subtest_result_key spec.test subtest kernel spec.env) (unwrap_or (results commit) []))

  -- The job of one place of the matrix.
  unfoldable pub job_at : ℕ → TestSpec → Text → Text → Text → Job
  job_at age spec commit subtest kernel = record {
    key = record {
      user = spec.user;
      repo = spec.repo;
      commit = commit;
      kernel = kernel;
      env = spec.env;
      test = spec.test;
      subtest = subtest;
    };
    age = age;
    nice = job_nice spec.tg (stats spec.test subtest [] []);
    duration = duration_of (stats spec.test subtest kernel spec.env) (unwrap_or duration_def 30);
  }

  -- The loop over the kernels: a job, or `continue`.
  unfoldable pub emit : ℕ → TestSpec → Text → Text → Text → Option Job
  unfolding recorded job_at
  emit age spec commit subtest kernel =
      if job_wanted (recorded spec commit subtest kernel)
      then some (job_at age spec commit subtest kernel)
      else none

  unfoldable pub jobs_of_spec : ℕ → TestSpec → List Job
  unfolding emit
  jobs_of_spec age spec = elim (get_elem? spec.commits age) [
    | none ↦ []
    | some commit ↦
        flat_map (λ subtest. filter_map (emit age spec commit subtest) spec.kernels) spec.subtests
  ]

  -- `for age in 0..max_age`, by the number of ages left.
  unfoldable pub jobs_from : List TestSpec → ℕ → ℕ → List Job
  unfolding jobs_of_spec
  jobs_from specs age zero = []
  jobs_from specs age (suc left) =
      flat_map (jobs_of_spec age) specs ++ jobs_from specs (age + 1) left

  unfoldable pub candidates : List TestSpec → List Job
  unfolding jobs_from max_age
  candidates specs = jobs_from specs 0 (max_age specs)

-- `out.retain(|j| seen.insert(j.key.clone()))`.
unfoldable pub dedup : List JobKey → List Job → List Job
dedup seen [] = []
dedup seen (j ∷ js) = elim (contains seen j.key) [
  | true ↦ dedup seen js
  | false ↦ j ∷ dedup (j.key ∷ seen) js
]

-- The end of `desired_jobs`: sort, drop repeated keys, truncate.
unfoldable pub select : List Job → ℕ → List Job
unfolding dedup
select out limit = take limit (dedup [] (sort_by job_cmp out))

unfoldable pub jobs_of_specs :
    (Text → Option TestResultsMap)
    → (Text → Text → Text → Text → Option TestStats)
    → Option ℕ
    → List TestSpec
    → ℕ
    → List Job
unfolding candidates select
jobs_of_specs results stats duration_def specs limit =
    select (candidates results stats duration_def specs) limit

-- `desired_jobs`, over the git repositories, the reader of the durations file, that file if it
-- could be mapped, and the test files; the cache of listings comes back changed.
unfoldable pub desired_jobs :
    {Repo : Type 0}
    → Git Repo
    → (Text → Option (List Duration))
    → Option Text
    → Tests
    → CiConfig
    → (Text → Option TestResultsMap)
    → ℕ
    → Cache
    → List Job × Cache
unfolding jobs_of_specs build_test_specs
desired_jobs git parse durations fs rc results limit cache =
    let (specs, cache') = build_test_specs git rc fs cache in
    (
      jobs_of_specs results (test_stats parse durations) rc.ktest.subtest_duration_def specs limit,
      cache',
    )
