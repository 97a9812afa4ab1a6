-- ===== src/Daemon/Refill/Submitted.antt =====
-- What a refill submits, and which keys have an entry after it (`refill`, `make_job_spec` of
-- src/bin/ci-daemon.rs).
use ktest.Prelude.{
  ℕ, ◌+◌, ◌≡◌, refl, ap, Bool, true, false, ◌||◌, ◌&&◌, not, List, [], ◌∷◌, arith, contains,
  IsNodup, keep_if, map, ◌==◌, eq_iff, Bool-cases, inl, inr, nat_eq, All, subst, ◌∙◌,
}
use ktest.Text.{text_eq, join}
use ktest.HashMap as HashMap
use ktest.HashMap.{HashMap, lookup-insert}
use ktest.Config.{CiConfig}
use ktest.Jobs.{JobKey, key_eq, Job}
use ktest.Jobs.Dedup.{job_keys}
use ktest.Daemon.Refill.{
  JobSpec, make_job_spec, JobMap, retain_existing, is_tracked, submit_new, refill,
}

submit_new-is_tracked :
    (new_id : ℕ → ℕ) (n : ℕ) (jobs : List Job) (m : JobMap) (key : JobKey)
    → is_tracked key (submit_new new_id n jobs m).0
      ≡ (is_tracked key m || contains (job_keys jobs) key)
unfolding submit_new contains
submit_new-is_tracked new_id n [] m key = ground arith
submit_new-is_tracked new_id n (job ∷ jobs) m key = elim (Bool-cases (is_tracked job.key m)) [
  | inl e ↦ elim (Bool-cases (job.key == key)) [
    | inl k ↦
        let same : job.key ≡ key = (eq_iff job.key key).0 k in
        let tracked = subst (λ x. is_tracked x m ≡ true) same e in
        rw (e, submit_new) (ground (arith, submit_new-is_tracked new_id n jobs m key, tracked))
    | inr k ↦ rw (e, submit_new) (ground (arith, submit_new-is_tracked new_id n jobs m key, k))
  ]
  | inr e ↦
      rw (e, submit_new)
        (ground (
          arith,
          submit_new-is_tracked new_id (n + 1) jobs (HashMap.insert job.key (new_id n) m) key,
          lookup-insert job.key key (new_id n) m,
        ))
]

untracked_kept :
    (jobs : List Job) (key : JobKey) (id : ℕ) (m : JobMap)
    → contains (job_keys jobs) key ≡ false
    → keep_if (λ j. not (is_tracked j.key (HashMap.insert key id m))) jobs
      ≡ keep_if (λ j. not (is_tracked j.key m)) jobs
unfolding contains keep_if
untracked_kept [] key id m h = refl
untracked_kept (job ∷ jobs) key id m h = ground (
  arith,
  untracked_kept jobs key id m,
  lookup-insert key job.key id m,
  eq_iff key job.key,
  eq_iff job.key key,
)

submit_new-submitted :
    (new_id : ℕ → ℕ) (n : ℕ) (jobs : List Job) (m : JobMap)
    → IsNodup (job_keys jobs)
    → (submit_new new_id n jobs m).1 ≡ keep_if (λ j. not (is_tracked j.key m)) jobs
unfolding submit_new contains keep_if
submit_new-submitted new_id n [] m h = refl
submit_new-submitted new_id n (job ∷ jobs) m (f, h) = elim (Bool-cases (is_tracked job.key m)) [
  | inl e ↦ rw (e, submit_new, keep_if) (submit_new-submitted new_id n jobs m h)
  | inr e ↦
      rw (e, submit_new, keep_if)
        (ap (◌∷◌ job) (
          submit_new-submitted new_id (n + 1) jobs (HashMap.insert job.key (new_id n) m) h
          ∙ untracked_kept jobs job.key (new_id n) m f))
]

-- An entry of the key whose job the choir still has.
unfoldable pub has_live_job : List ℕ → JobKey → JobMap → Bool
has_live_job existing key [] = false
has_live_job existing key ((k, id) ∷ m) =
    k == key && contains existing id || has_live_job existing key m

is_tracked-retain_existing :
    (existing : List ℕ) (key : JobKey) (m : JobMap)
    → is_tracked key (retain_existing existing m) ≡ has_live_job existing key m
unfolding retain_existing has_live_job HashMap.lookup
is_tracked-retain_existing existing key [] = refl
is_tracked-retain_existing existing key ((k, id) ∷ m) =
    ground (arith, is_tracked-retain_existing existing key m)

-- The key of the job that a spec stands for.
abbrev pub key_of_spec : {F : Type 0} → JobSpec F → JobKey
key_of_spec spec = record {
  user = spec.group;
  repo = spec.params.repo;
  commit = spec.params.commit;
  kernel = spec.params.kernel;
  env = spec.params.env;
  test = spec.params.test;
  subtest = spec.params.subtest;
}

keys_of_specs :
    {F : Type 0} (of_u64 weight_of : ℕ → F) (rc : CiConfig) (jobs : List Job)
    → map key_of_spec (map (make_job_spec of_u64 weight_of rc) jobs) ≡ job_keys jobs
unfolding make_job_spec
keys_of_specs of_u64 weight_of rc [] = refl
keys_of_specs of_u64 weight_of rc (job ∷ jobs) =
    ap (◌∷◌ job.key) (keys_of_specs of_u64 weight_of rc jobs)

keep_if-same :
    (p q : Job → Bool)
    → ((j : Job) → p j ≡ q j)
    → (jobs : List Job) → keep_if p jobs ≡ keep_if q jobs
unfolding keep_if
keep_if-same p q h [] = refl
keep_if-same p q h (j ∷ jobs) = ground (arith, h j, keep_if-same p q h jobs)

-- The batch key of a spec: all of its key but the subtest, joined by zero bytes.
abbrev pub HasBatchKey : {F : Type 0} → JobSpec F → Type 0
HasBatchKey spec =
    let k = key_of_spec spec in
    spec.batch_key ≡ join (0 ∷ []) (k.user ∷ k.repo ∷ k.commit ∷ k.kernel ∷ k.env ∷ k.test ∷ [])

specs-HasBatchKey :
    {F : Type 0} (of_u64 weight_of : ℕ → F) (rc : CiConfig) (jobs : List Job)
    → All HasBatchKey (map (make_job_spec of_u64 weight_of rc) jobs)
unfolding make_job_spec join
specs-HasBatchKey of_u64 weight_of rc [] = tt
specs-HasBatchKey of_u64 weight_of rc (job ∷ jobs) =
    (refl, specs-HasBatchKey of_u64 weight_of rc jobs)

-- Where no key is desired twice, a refill submits, once each and in order, specs for the keys of
-- just those desired jobs that no entry of the map has under a job that the choir still has; the
-- batch key of each spec joins its key but the subtest by zero bytes; and then a key has an entry
-- exactly where it had such a one or is desired.
pub refill-submits :
    {F : Type 0} (of_u64 weight_of : ℕ → F) (new_id : ℕ → ℕ) (rc : CiConfig) (existing : List ℕ)
    (desired : List Job) (m : JobMap) (key : JobKey)
    → IsNodup (job_keys desired)
    → (map key_of_spec (refill of_u64 weight_of new_id rc existing desired m).1
        ≡ job_keys (keep_if (λ j. not (has_live_job existing j.key m)) desired))
      × All HasBatchKey (refill of_u64 weight_of new_id rc existing desired m).1
      × (is_tracked key (refill of_u64 weight_of new_id rc existing desired m).0
          ≡ (has_live_job existing key m || contains (job_keys desired) key))
unfolding refill
refill-submits of_u64 weight_of new_id rc existing desired m key h =
    let kept = retain_existing existing m in
    (
      ap (λ js. map key_of_spec (map (make_job_spec of_u64 weight_of rc) js))
            (submit_new-submitted new_id 0 desired kept h)
          ∙ keys_of_specs of_u64 weight_of rc (keep_if (λ j. not (is_tracked j.key kept)) desired)
          ∙ ap job_keys (same_kept desired),
      specs-HasBatchKey of_u64 weight_of rc (submit_new new_id 0 desired kept).1,
      submit_new-is_tracked new_id 0 desired kept key
          ∙ ap (λ b. b || contains (job_keys desired) key)
              (is_tracked-retain_existing existing key m),
    )
  where
    same_kept :
        (jobs : List Job)
        → keep_if (λ j. not (is_tracked j.key (retain_existing existing m))) jobs
          ≡ keep_if (λ j. not (has_live_job existing j.key m)) jobs
    same_kept jobs =
        keep_if-same (λ j. not (is_tracked j.key (retain_existing existing m)))
          (λ j. not (has_live_job existing j.key m))
          (λ j. ap not (is_tracked-retain_existing existing j.key m)) jobs
