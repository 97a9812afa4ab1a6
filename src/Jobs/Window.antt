-- ===== src/Jobs/Window.antt =====
-- What `desired_jobs` promises the daemon about its window of jobs.
use ktest.Prelude.{
  ℕ, zero, suc, ◌≡◌, ◌≢◌, refl, List, [], ◌∷◌, arith, contains, All, inl, inr, ◌⊎◌, Ordering, take,
  length,
}
use mathlib.Core.List.{Memᴰ}
use ktest.Prelude.Cmp.Sort.{IsSortedBy, sort_by, sort_by-IsSortedBy, sort_by-Memᴰ}
use ktest.Jobs.{key_eq, Job, job_cmp}
use ktest.Jobs.Desired.{dedup, select}
use ktest.Jobs.Weight.{job_cmp-IsOrder}
use ktest.Jobs.Dedup.{All-Memᴰ, dedup-IsSortedBy, Covers, dedup-Covers}

-- A job is in the first `n`, or these are `n` jobs that do not come behind it.
abbrev pub Crowded : ℕ → List Job → Job → Type 0
Crowded n out j = (length out ≡ n) × All (λ x. job_cmp x j ≢ Ordering.gt) out

take-Memᴰ :
    (n : ℕ) (js : List Job) (j : Job)
    → IsSortedBy job_cmp js
    → Memᴰ j js
    → Memᴰ j (take n js) ⊎ Crowded n (take n js) j
take-Memᴰ n [] j s m = elim m [ ]
take-Memᴰ zero (x ∷ js) j s m = inr (refl, tt)
take-Memᴰ (suc n) (x ∷ js) j (b, s) (Memᴰ.head e) = inl (Memᴰ.head e)
take-Memᴰ (suc n) (x ∷ js) j (b, s) (Memᴰ.tail m) = elim (take-Memᴰ n js j s m) [
  | inl there ↦ inl (Memᴰ.tail there)
  | inr (full, le) ↦
      inr (omega (arith, full), (All-Memᴰ (λ k. job_cmp x k ≢ Ordering.gt) js j b m, le))
]

-- Every candidate is served: the window has a job of its key that does not come behind it, or the
-- window is full with jobs that do not come behind it.
pub select-Covers :
    (out : List Job) (limit : ℕ) (j : Job)
    → Memᴰ j out
    → Covers (select out limit) j ⊎ Crowded limit (select out limit) j
unfolding select contains
select-Covers out limit j m =
    let sorted = sort_by-IsSortedBy job_cmp job_cmp-IsOrder out in
    elim (dedup-Covers [] (sort_by job_cmp out) j sorted (sort_by-Memᴰ job_cmp j out m)) [
      | inl h ↦ absurd (ground arith)
      | inr (x, there, same, le) ↦
          elim (take-Memᴰ limit (dedup [] (sort_by job_cmp out)) x
            (dedup-IsSortedBy [] (sort_by job_cmp out) sorted) there) [
              | inl kept ↦ inl (x, kept, same, le)
              | inr (full, lower) ↦ inr (full, lower_trans _ x j lower le)
            ]
    ]
  where
    lower_trans :
        (js : List Job) (x j : Job)
        → All (λ k. job_cmp k x ≢ Ordering.gt) js
        → job_cmp x j ≢ Ordering.gt
        → All (λ k. job_cmp k j ≢ Ordering.gt) js
    lower_trans [] x j h le = tt
    lower_trans (k ∷ js) x j (p, h) le = (job_cmp-IsOrder.trans k x j p le, lower_trans js x j h le)
