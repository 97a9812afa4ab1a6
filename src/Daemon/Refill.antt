-- ===== src/Daemon/Refill.antt =====
-- The refill of the job window (`refill`, `make_job_spec` of src/bin/ci-daemon.rs). The choir is a
-- parameter: the ids of its jobs after the finished ones were removed, and the ids that it gives
-- to new jobs. Floating-point numbers are a parameter too.
pub mod Submitted
use ktest.Prelude.{
  ℕ, ◌+◌, ◌%◌, ◌^◌, ◌≡◌, refl, ap, Bool, true, false, ◌||◌, ◌&&◌, not, List, [], ◌∷◌, ◌++◌, arith,
  if◌then◌else◌, contains, IsNodup, is_some, keep_if, take, unwrap_or, map, ◌==◌, eq_iff,
  Bool-cases, inl, inr, nat_eq, All, subst, ◌∙◌,
}
use ktest.Text.{Text, lit, text_eq, join}
use ktest.BTreeMap.{get}
use ktest.HashMap as HashMap
use ktest.HashMap.{HashMap, lookup-insert}
use ktest.Config.{CiConfig, repo_path_url}
use ktest.Jobs.{JobKey, key_eq, Job}
use ktest.Jobs.Dedup.{job_keys}
use ktest.Daemon.{JobParams}

pub record JobSpec (F : Type 0) : Type 0 where
  pub name : Text
  pub params : JobParams
  pub batch_key : Text
  pub cost : F
  pub group : Text
  pub weight : F

-- `short_commit`.
abbrev pub short_commit : Text → Text
short_commit c = take 12 c

abbrev pub zero_sep : Text → Text → Text
zero_sep a b = a ++ (0 ∷ b)

-- `of_u64` is `as f64` on a u64, and `weight_of` is `(1.0 + nice as f64).max(0.1)`.
unfoldable pub make_job_spec : {F : Type 0} → (ℕ → F) → (ℕ → F) → CiConfig → Job → JobSpec F
make_job_spec of_u64 weight_of rc job =
    let k = job.key in
    record {
      name = short_commit k.commit ++ (lit " " ++ (k.test ++ (lit " " ++ k.subtest)));
      params = record {
        repo = k.repo;
        commit = k.commit;
        kernel = k.kernel;
        env = k.env;
        test = k.test;
        subtest = k.subtest;
        repo_url = unwrap_or (repo_path_url rc.ktest k.repo) [];
        ktest_url = unwrap_or rc.ktest.ktest_url [];
      };
      batch_key =
          zero_sep k.user
            (zero_sep k.repo (zero_sep k.commit (zero_sep k.kernel (zero_sep k.env k.test))));
      cost = of_u64 job.duration;
      group = k.user;
      weight = weight_of ((job.nice + unwrap_or (get k.user rc.ktest.user_nice) 0) % 2 ^ 64);
    }

abbrev pub JobMap : Type 0
JobMap = HashMap JobKey ℕ

-- `job_map.retain(|_, id| existing.contains(id))`.
unfoldable pub retain_existing : List ℕ → JobMap → JobMap
retain_existing existing [] = []
retain_existing existing ((key, id) ∷ m) =
    let rest = retain_existing existing m in if contains existing id then (key, id) ∷ rest else rest

abbrev pub is_tracked : JobKey → JobMap → Bool
is_tracked key m = is_some (HashMap.lookup key m)

-- The loop over the desired jobs: the map, and the jobs that were submitted, `n` of them before.
unfoldable pub submit_new : (ℕ → ℕ) → ℕ → List Job → JobMap → JobMap × List Job
submit_new new_id n [] m = (m, [])
submit_new new_id n (job ∷ jobs) m = elim (is_tracked job.key m) [
  | true ↦ submit_new new_id n jobs m
  | false ↦
      let (m', submitted) = submit_new new_id (n + 1) jobs (HashMap.insert job.key (new_id n) m) in
      (m', job ∷ submitted)
]

-- `refill` on the desired jobs: the map, and the specs given to the choir.
unfoldable pub refill :
    {F : Type 0}
    → (ℕ → F)
    → (ℕ → F)
    → (ℕ → ℕ)
    → CiConfig
    → List ℕ
    → List Job
    → JobMap
    → JobMap × List (JobSpec F)
unfolding make_job_spec retain_existing submit_new
refill of_u64 weight_of new_id rc existing desired m =
    let (m', submitted) = submit_new new_id 0 desired (retain_existing existing m) in
    (m', map (make_job_spec of_u64 weight_of rc) submitted)
