-- ===== src/Files/Fetch/Plan.antt =====
-- Which files are fetched, and by how many threads.
use ktest.Prelude.{
  ℕ, zero, suc, ◌+◌, ◌-◌, ◌≤◌, ◌≡◌, refl, ap, true, ◌||◌, ◌&&◌, not, List, [], ◌∷◌, ◌++◌, arith,
  is_empty, length, ltb, leb, take, contains, Bool-cases, inl, inr, eq_iff, map,
}
use ktest.Text.{Text, text_eq}
use ktest.Store.{Disk}
use ktest.Files.Fetch.{is_cached, nr_fresh, to_fetch_from, chunks_from, chunks, chunk_size, plan}

abbrev pub concat {ℓ} : {A : Type ℓ} → List (List A) → List A
concat [] = []
concat (c ∷ cs) = c ++ concat cs

concat-chunks_from :
    {A : Type 0} (size left : ℕ) (xs : List A)
    → (chunks_from size left xs).0 ++ concat (chunks_from size left xs).1 ≡ xs
unfolding chunks_from
concat-chunks_from size left [] = refl
concat-chunks_from size zero (x ∷ xs) = ap (◌∷◌ x) (concat-chunks_from size (size - 1) xs)
concat-chunks_from size (suc left) (x ∷ xs) = ap (◌∷◌ x) (concat-chunks_from size left xs)

chunks_from-none_open : {A : Type 0} (size : ℕ) (xs : List A) → (chunks_from size 0 xs).0 ≡ []
unfolding chunks_from
chunks_from-none_open size [] = refl
chunks_from-none_open size (x ∷ xs) = refl

concat-chunks : {A : Type 0} (size : ℕ) (xs : List A) → concat (chunks size xs) ≡ xs
unfolding chunks
concat-chunks size xs =
    let whole = concat-chunks_from size 0 xs in rw (chunks_from-none_open size xs) at whole

abbrev times : ℕ → ℕ → ℕ
times zero n = 0
times (suc k) n = n + times k n

length-chunks_from :
    {A : Type 0} (size left k : ℕ) (xs : List A)
    → 1 ≤ size
    → length xs ≤ left + times k size
    → length (chunks_from size left xs).1 ≤ k
unfolding chunks_from
length-chunks_from size left k [] s h = omega arith
length-chunks_from size zero zero (x ∷ xs) s h = absurd (omega arith)
length-chunks_from size zero (suc k) (x ∷ xs) s h =
    omega (arith, length-chunks_from size (size - 1) k xs s (omega arith))
length-chunks_from size (suc left) k (x ∷ xs) s h =
    length-chunks_from size left k xs s (omega arith)

chunk_size-positive : {A : Type 0} (xs : List A) → 1 ≤ chunk_size xs
chunk_size-positive xs = ground arith

chunk_size-enough : {A : Type 0} (xs : List A) → length xs ≤ times 8 (chunk_size xs)
chunk_size-enough xs = elim (Bool-cases (leb 8 (length xs))) [
  | inl e ↦ rw e (ground arith)
  | inr e ↦ let positive = chunk_size-positive xs in ground arith
]

-- Which commits are fetched.
pub plan-to_fetch :
    (commit_ids : List Text) (d : Disk)
    → (concat (plan commit_ids d) ≡ to_fetch_from 0 commit_ids d) × (length (plan commit_ids d) ≤ 8)
unfolding plan chunks
plan-to_fetch commit_ids d =
    let wanted = to_fetch_from 0 commit_ids d in
    elim (Bool-cases (is_empty wanted)) [
      | inl e ↦ rw e (empty wanted e, omega arith)
      | inr e ↦ rw e (
        concat-chunks (chunk_size wanted) wanted,
        length-chunks_from (chunk_size wanted) 0 8 wanted (chunk_size-positive wanted)
            (omega (arith, chunk_size-enough wanted)),
      )
    ]
  where
    empty : {A : Type 0} (xs : List A) → is_empty xs ≡ true → [] ≡ xs
    empty [] h = refl
    empty (x ∷ xs) h = absurd (ground arith)

-- The first commits are asked for whether the cache has them or not.
fetched_at :
    (i : ℕ) (ids : List Text) (d : Disk) (c : Text)
    → contains (map (λ p. p.0) (to_fetch_from i ids d)) c
      ≡ (contains (take (nr_fresh - i) ids) c || (contains ids c && not (is_cached c d)))
unfolding to_fetch_from contains
fetched_at i [] d c = elim (Bool-cases (ltb i nr_fresh)) [
  | inl e ↦ let further : nr_fresh - i ≡ suc (nr_fresh - (i + 1)) = ground arith in rw further refl
  | inr e ↦ let none_left : nr_fresh - i ≡ 0 = ground arith in rw none_left refl
]
fetched_at i (id ∷ ids) d c = elim (Bool-cases (ltb i nr_fresh)) [
  | inl e ↦
      let further : nr_fresh - i ≡ suc (nr_fresh - (i + 1)) = ground arith in
      rw further (rw e (ground (arith, fetched_at (i + 1) ids d c)))
  | inr e ↦
      let none_left : nr_fresh - i ≡ 0 = ground arith in
      let none_later : nr_fresh - (i + 1) ≡ 0 = omega arith in
      let later = fetched_at (i + 1) ids d c in
      rw none_left (rw e (ground (arith, rw none_later at later, eq_iff id c)))
]

-- A commit is fetched exactly where it is one of the first five of the list, or is in the list and
-- has no file in the cache.
plan_fetched :
    (commit_ids : List Text) (d : Disk) (c : Text)
    → contains (map (λ p. p.0) (concat (plan commit_ids d))) c
      ≡ (contains (take nr_fresh commit_ids) c || (contains commit_ids c && not (is_cached c d)))
plan_fetched commit_ids d c = rw (plan-to_fetch commit_ids d).0 (fetched_at 0 commit_ids d c)
