-- ===== src/Jobs/Dedup.antt =====
-- Dropping repeated keys: no key stays twice, nothing new comes in, and the first job of each key
-- survives.
use ktest.Prelude.{
  ◌≡◌, ◌≢◌, refl, true, false, List, [], ◌∷◌, arith, ◌==◌, contains, IsNodup, contains-cons_self,
  All, map, Bool-cases, inl, inr, eq_iff, ◌⊎◌, Ordering, sym, ap, subst,
}
use ktest.Prelude.Cmp.Sort.{IsSortedBy}
use mathlib.Core.List.{Memᴰ}
use ktest.Jobs.{JobKey, key_eq, Job, job_cmp}
use ktest.Jobs.Desired.{dedup}
use ktest.Jobs.Weight.{job_cmp-IsOrder}

abbrev pub job_keys : List Job → List JobKey
job_keys js = map (λ j. j.key) js

-- No key of the result was seen before.
dedup-fresh :
    (seen : List JobKey) (js : List Job) (k : JobKey)
    → contains seen k ≡ true
    → contains (job_keys (dedup seen js)) k ≡ false
unfolding dedup contains
dedup-fresh seen [] k h = refl
dedup-fresh seen (j ∷ js) k h =
    ground (arith, eq_iff j.key k, dedup-fresh seen js k, dedup-fresh (j.key ∷ seen) js k)

pub dedup-IsNodup : (seen : List JobKey) (js : List Job) → IsNodup (job_keys (dedup seen js))
unfolding dedup
dedup-IsNodup seen [] = tt
dedup-IsNodup seen (j ∷ js) = elim (Bool-cases (contains seen j.key)) [
  | inl e ↦ rw (e, dedup) (dedup-IsNodup seen js)
  | inr e ↦
      rw (e, dedup)
        (
          dedup-fresh (j.key ∷ seen) js j.key (contains-cons_self j.key seen),
          dedup-IsNodup (j.key ∷ seen) js,
        )
]

module _ (P : Job → Type 0) where
  pub dedup-All : (seen : List JobKey) (js : List Job) → All P js → All P (dedup seen js)
  unfolding dedup
  dedup-All seen [] h = tt
  dedup-All seen (j ∷ js) (p, h) = elim (Bool-cases (contains seen j.key)) [
    | inl e ↦ rw (e, dedup) (dedup-All seen js h)
    | inr e ↦ rw (e, dedup) (p, dedup-All (j.key ∷ seen) js h)
  ]

pub dedup-IsSortedBy :
    (seen : List JobKey) (js : List Job)
    → IsSortedBy job_cmp js
    → IsSortedBy job_cmp (dedup seen js)
unfolding dedup
dedup-IsSortedBy seen [] h = tt
dedup-IsSortedBy seen (j ∷ js) (b, h) = elim (Bool-cases (contains seen j.key)) [
  | inl e ↦ rw (e, dedup) (dedup-IsSortedBy seen js h)
  | inr e ↦
      rw (e, dedup)
        (
          dedup-All (λ k. job_cmp j k ≢ Ordering.gt) (j.key ∷ seen) js b,
          dedup-IsSortedBy (j.key ∷ seen) js h,
        )
]

-- A job of the list that has the key of `j` and does not come behind it.
abbrev pub Covers : List Job → Job → Type 0
Covers out j = (x : Job) × Memᴰ x out × (x.key ≡ j.key) × (job_cmp x j ≢ Ordering.gt)

pub All-Memᴰ : (P : Job → Type 0) (js : List Job) (j : Job) → All P js → Memᴰ j js → P j
All-Memᴰ P [] j h m = elim m [ ]
All-Memᴰ P (x ∷ js) j (p, h) (Memᴰ.head e) = subst P (sym e) p
All-Memᴰ P (x ∷ js) j (p, h) (Memᴰ.tail m) = All-Memᴰ P js j h m

job_cmp_refl : (j : Job) → job_cmp j j ≢ Ordering.gt
job_cmp_refl j = ground (arith, job_cmp-IsOrder.flips j j)

Covers-cons : (x j : Job) (out : List Job) → Covers out j → Covers (x ∷ out) j
Covers-cons x j out (y, m, e, le) = (y, Memᴰ.tail m, e, le)

after_head :
    (seen : List JobKey) (x j : Job) (out : List Job)
    → job_cmp x j ≢ Ordering.gt
    → (contains (x.key ∷ seen) j.key ≡ true) ⊎ Covers out j
    → (contains seen j.key ≡ true) ⊎ Covers (x ∷ out) j
unfolding contains
after_head seen x j out le (inr c) = inr (Covers-cons x j out c)
after_head seen x j out le (inl h) = elim (Bool-cases (x.key == j.key)) [
  | inl same ↦ inr (x, Memᴰ.head refl, (eq_iff x.key j.key).0 same, le)
  | inr other ↦ inl (ground arith)
]

-- The first job of a sorted list with a given key survives, so each job is covered.
pub dedup-Covers :
    (seen : List JobKey) (js : List Job) (j : Job)
    → IsSortedBy job_cmp js
    → Memᴰ j js
    → (contains seen j.key ≡ true) ⊎ Covers (dedup seen js) j
unfolding dedup
dedup-Covers seen [] j s m = elim m [ ]
dedup-Covers seen (x ∷ js) j (b, s) (Memᴰ.head e) = elim (Bool-cases (contains seen x.key)) [
  | inl h ↦ inl (subst (λ (k : Job). contains seen k.key ≡ true) (sym e) h)
  | inr h ↦
      rw (h, dedup)
        (inr (
          x,
          Memᴰ.head refl,
          ap (λ (k : Job). k.key) (sym e),
          subst (λ k. job_cmp x k ≢ Ordering.gt) (sym e) (job_cmp_refl x),
        ))
]
dedup-Covers seen (x ∷ js) j (b, s) (Memᴰ.tail m) = elim (Bool-cases (contains seen x.key)) [
  | inl h ↦ rw (h, dedup) (dedup-Covers seen js j s m)
  | inr h ↦
      rw (h, dedup)
        (after_head seen x j (dedup (x.key ∷ seen) js)
          (All-Memᴰ (λ k. job_cmp x k ≢ Ordering.gt) js j b m)
          (dedup-Covers (x.key ∷ seen) js j s m))
]
