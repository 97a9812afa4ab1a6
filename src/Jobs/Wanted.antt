-- ===== src/Jobs/Wanted.antt =====
-- Which jobs `desired_jobs` asks for: exactly the places of the matrix whose subtest is wanted.
use ktest.Prelude.{
  ℕ, zero, suc, ◌+◌, ◌≤◌, ◌<◌, ◌≡◌, true, List, [], ◌∷◌, Option, some, arith, get_elem?, length,
  flat_map, Option-cases, inl, inr, ◌⊎◌, sym, All, All-take, subst, ◌↔◌, ap, ℕ_discrete,
}
use mathlib.Core.List.{Memᴰ}
use ktest.Prelude.Members.{
  Memᴰ-append, Memᴰ-append_left, Memᴰ-append_right, Memᴰ-flat_map, flat_map-Memᴰ, Memᴰ-filter_map,
  filter_map-Memᴰ, All-of_Memᴰ,
}
use ktest.Prelude.Cmp.Sort.{sort_by-All}
use ktest.Text.{Text}
use ktest.Status.{TestResultsMap, job_wanted}
use ktest.Stats.{TestStats}
use ktest.Jobs.{Job, job_cmp}
use ktest.Jobs.Specs.{TestSpec}
use ktest.Jobs.Desired.{
  max_age, recorded, job_at, emit, jobs_of_spec, jobs_from, candidates, select, jobs_of_specs,
}
use ktest.Jobs.Dedup.{Covers, dedup-All}
use ktest.Jobs.Window.{select-Covers, Crowded}

max_age-le :
    (specs : List TestSpec) (s : TestSpec) → Memᴰ s specs → length s.commits ≤ max_age specs
unfolding max_age
max_age-le [] s m = elim m [ ]
max_age-le (x ∷ specs) s (Memᴰ.head e) =
    let same : length s.commits ≡ length x.commits = ap (λ (t : TestSpec). length t.commits) e in
    ground arith
max_age-le (x ∷ specs) s (Memᴰ.tail m) = ground (arith, max_age-le specs s m)

in_range : {A : Type 0} (xs : List A) (i : ℕ) (a : A) → get_elem? xs i ≡ some a → i < length xs
in_range [] i a h = cc
in_range (x ∷ xs) zero a h = omega arith
in_range (x ∷ xs) (suc i) a h = omega (arith, in_range xs i a h)

module _ (results : Text → Option TestResultsMap)
    (stats : Text → Text → Text → Text → Option TestStats) (duration_def : Option ℕ)
    (specs : List TestSpec) where
  -- A place of the matrix whose job is wanted: a spec, a commit of it at the job's age, a subtest
  -- and a kernel of it, with no verdict recorded and none in progress.
  pub record IsPlace (j : Job) : Type 0 where
    pub spec : TestSpec
    pub listed : Memᴰ spec specs
    pub commit : Text
    pub at_age : get_elem? spec.commits j.age ≡ some commit
    pub subtest : Text
    pub has_subtest : Memᴰ subtest spec.subtests
    pub kernel : Text
    pub has_kernel : Memᴰ kernel spec.kernels
    pub wanted : job_wanted (recorded results stats duration_def spec commit subtest kernel) ≡ true
    pub job : job_at results stats duration_def j.age spec commit subtest kernel ≡ j

  abbrev age_at : ℕ → TestSpec → Text → Text → Text → Job
  age_at = job_at results stats duration_def

  emit-eq-some :
      (age : ℕ) (spec : TestSpec) (commit subtest kernel : Text) (j : Job)
      → (emit results stats duration_def age spec commit subtest kernel ≡ some j) ↔ (
          (job_wanted (recorded results stats duration_def spec commit subtest kernel) ≡ true)
          × (age_at age spec commit subtest kernel ≡ j))
  unfolding emit
  emit-eq-some age spec commit subtest kernel j = ground arith

  jobs_of_spec-IsPlace :
      (age : ℕ) (spec : TestSpec) (j : Job)
      → Memᴰ spec specs
      → Memᴰ j (jobs_of_spec results stats duration_def age spec)
      → IsPlace j
  unfolding jobs_of_spec
  jobs_of_spec-IsPlace age spec j there m = elim (Option-cases (get_elem? spec.commits age)) [
    | inl e ↦ elim (rw (e, jobs_of_spec) at m) [ ]
    | inr (commit, e) ↦
        let (subtest, s, rest) = Memᴰ-flat_map _ j spec.subtests (rw (e, jobs_of_spec) at m) in
        let (kernel, k, made) = Memᴰ-filter_map _ j spec.kernels rest in
        let (wanted, job) = (emit-eq-some age spec commit subtest kernel j).0 made in
        let aged : age ≡ j.age = ap (λ (x : Job). x.age) job in
        record {
          spec = spec;
          listed = there;
          commit = commit;
          at_age = subst (λ n. get_elem? spec.commits n ≡ some commit) aged e;
          subtest = subtest;
          has_subtest = s;
          kernel = kernel;
          has_kernel = k;
          wanted = wanted;
          job = subst (λ n. age_at n spec commit subtest kernel ≡ j) aged job;
        }
  ]

  jobs_from-IsPlace :
      (age left : ℕ) (j : Job)
      → Memᴰ j (jobs_from results stats duration_def specs age left)
      → IsPlace j
  unfolding jobs_from
  jobs_from-IsPlace age zero j m = elim m [ ]
  jobs_from-IsPlace age (suc left) j m =
      elim (Memᴰ-append (flat_map (jobs_of_spec results stats duration_def age) specs) _ m) [
        | inl h ↦
            let (spec, there, rest) = Memᴰ-flat_map _ j specs h in
            jobs_of_spec-IsPlace age spec j there rest
        | inr h ↦ jobs_from-IsPlace (age + 1) left j h
      ]

  IsPlace-jobs_of_spec :
      (j : Job) (p : IsPlace j) → Memᴰ j (jobs_of_spec results stats duration_def j.age p.spec)
  unfolding jobs_of_spec
  IsPlace-jobs_of_spec j p =
      rw (p.at_age, jobs_of_spec)
        (flat_map-Memᴰ _ j p.subtest p.spec.subtests p.has_subtest (
          filter_map-Memᴰ _ j p.kernel p.spec.kernels p.has_kernel
            ((emit-eq-some j.age p.spec p.commit p.subtest p.kernel j).1 (p.wanted, p.job))))

  IsPlace-jobs_from :
      (age left : ℕ) (j : Job)
      → IsPlace j
      → age ≤ j.age
      → j.age < age + left
      → Memᴰ j (jobs_from results stats duration_def specs age left)
  unfolding jobs_from
  IsPlace-jobs_from age zero j p h h' = absurd (omega arith)
  IsPlace-jobs_from age (suc left) j p h h' =
      let here = flat_map (jobs_of_spec results stats duration_def age) specs in
      elim (ℕ_discrete age j.age) [
        | yes same ↦ Memᴰ-append_left here _ (
            flat_map-Memᴰ _ j p.spec specs p.listed (
              subst (λ n. Memᴰ j (jobs_of_spec results stats duration_def n p.spec)) (sym same)
                (IsPlace-jobs_of_spec j p)))
        | no later ↦
            Memᴰ-append_right here _
              (IsPlace-jobs_from (age + 1) left j p (omega arith) (omega arith))
      ]

  -- The candidates are the wanted places of the matrix.
  pub candidates_iff : (j : Job) → Memᴰ j (candidates results stats duration_def specs) ↔ IsPlace j
  unfolding candidates
  candidates_iff j = (
    jobs_from-IsPlace 0 (max_age specs) j,
    (λ p. IsPlace-jobs_from 0 (max_age specs) j p (omega arith) (
        omega (
          arith,
          max_age-le specs p.spec p.listed,
          in_range p.spec.commits j.age p.commit p.at_age,
        ))),
  )

  -- Every job that is asked for stands at a wanted place: a spec, a commit of it at the age of the
  -- job, a subtest and a kernel of it, with no verdict recorded and no run in progress.
  pub jobs_of_specs-IsPlace :
      (limit : ℕ) → All IsPlace (jobs_of_specs results stats duration_def specs limit)
  unfolding jobs_of_specs select
  jobs_of_specs-IsPlace limit = All-take IsPlace limit _ (
      dedup-All IsPlace [] _ (
        sort_by-All job_cmp IsPlace (candidates results stats duration_def specs)
          (All-of_Memᴰ IsPlace _ (λ j. (candidates_iff j).0))))

  -- Every wanted place of the matrix (spec, commit, subtest, kernel) is served: a job of its key
  -- that does not come behind it is asked for, or the limit is reached by jobs none of which comes
  -- behind it.
  pub jobs_of_specs-Covers :
      (limit : ℕ) (j : Job)
      → IsPlace j
      → Covers (jobs_of_specs results stats duration_def specs limit) j
        ⊎ Crowded limit (jobs_of_specs results stats duration_def specs limit) j
  unfolding jobs_of_specs
  jobs_of_specs-Covers limit j p =
      select-Covers (candidates results stats duration_def specs) limit j ((candidates_iff j).1 p)
