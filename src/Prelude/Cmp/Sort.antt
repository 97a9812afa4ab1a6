-- ===== src/Prelude/Cmp/Sort.antt =====
-- `slice::sort_by`: a stable sort by a comparator. It is written as insertion from the right,
-- which leaves equal elements in the order in which they came.
use Prim.Native.Nat.{Ordering}
use mathlib.Core.Logic.{◌≢◌, inl, inr}
use mathlib.Core.List.{List, [], ◌∷◌, Perm, Memᴰ}
use mathlib.Core.List.Perm
use native.Mathlib.Omega.{arith}
use ktest.Prelude.Tests.{if◌then◌else◌, Bool-cases}
use ktest.Prelude.Lists.{All}
use ktest.Prelude.Cmp.{IsOrder, is_le}

past_second {ℓ} :
    {A : Type ℓ} (x y a : A) (ys : List A) {zs : List A}
    → Memᴰ a (x ∷ y ∷ ys)
    → (Memᴰ a (x ∷ ys) → Memᴰ a zs)
    → Memᴰ a (y ∷ zs)
past_second x y a ys (Memᴰ.head e) f = Memᴰ.tail (f (Memᴰ.head e))
past_second x y a ys (Memᴰ.tail (Memᴰ.head e)) f = Memᴰ.head e
past_second x y a ys (Memᴰ.tail (Memᴰ.tail m)) f = Memᴰ.tail (f (Memᴰ.tail m))

module _ {ℓ} {A : Type ℓ} (c : A → A → Ordering) where
  unfoldable pub insert_by : A → List A → List A
  insert_by x [] = x ∷ []
  insert_by x (y ∷ ys) = let rest = insert_by x ys in if is_le (c x y) then x ∷ y ∷ ys else y ∷ rest

  unfoldable pub sort_by : List A → List A
  unfolding insert_by
  sort_by [] = []
  sort_by (x ∷ xs) = insert_by x (sort_by xs)

  -- Every element is at most each of those behind it.
  abbrev pub IsSortedBy : List A → Type ℓ
  IsSortedBy [] = Unit
  IsSortedBy (x ∷ xs) = All (λ y. c x y ≢ Ordering.gt) xs × IsSortedBy xs

  insert_by-perm : (x : A) (l : List A) → Perm (insert_by x l) (x ∷ l)
  unfolding insert_by
  insert_by-perm x [] = Perm.rfl
  insert_by-perm x (y ∷ ys) = elim (Bool-cases (is_le (c x y))) [
    | inl h ↦ rw h Perm.rfl
    | inr h ↦ rw h (Perm.trans (Perm.cons y (insert_by-perm x ys)) (Perm.swap x y ys))
  ]

  -- Sorting rearranges.
  pub sort_by-perm : (l : List A) → Perm (sort_by l) l
  unfolding sort_by
  sort_by-perm [] = Perm.rfl
  sort_by-perm (x ∷ xs) = Perm.trans (insert_by-perm x (sort_by xs)) (Perm.cons x (sort_by-perm xs))

  insert_by-Memᴰ : (x a : A) (l : List A) → Memᴰ a (x ∷ l) → Memᴰ a (insert_by x l)
  unfolding insert_by
  insert_by-Memᴰ x a [] m = m
  insert_by-Memᴰ x a (y ∷ ys) m = elim (Bool-cases (is_le (c x y))) [
    | inl h ↦ rw h m
    | inr h ↦ rw h (past_second x y a ys m (insert_by-Memᴰ x a ys))
  ]

  -- Nothing is lost.
  pub sort_by-Memᴰ : (a : A) (l : List A) → Memᴰ a l → Memᴰ a (sort_by l)
  unfolding sort_by
  sort_by-Memᴰ a [] m = m
  sort_by-Memᴰ a (x ∷ xs) (Memᴰ.head e) = insert_by-Memᴰ x a (sort_by xs) (Memᴰ.head e)
  sort_by-Memᴰ a (x ∷ xs) (Memᴰ.tail m) =
      insert_by-Memᴰ x a (sort_by xs) (Memᴰ.tail (sort_by-Memᴰ a xs m))

  module _ {κ} (P : A → Type κ) where
    insert_by-All : (x : A) (l : List A) → P x → All P l → All P (insert_by x l)
    unfolding insert_by
    insert_by-All x [] p h = (p, tt)
    insert_by-All x (y ∷ ys) p (q, h) = elim (Bool-cases (is_le (c x y))) [
      | inl e ↦ rw e (p, (q, h))
      | inr e ↦ rw e (q, insert_by-All x ys p h)
    ]

    pub sort_by-All : (l : List A) → All P l → All P (sort_by l)
    unfolding sort_by
    sort_by-All [] h = tt
    sort_by-All (x ∷ xs) (p, h) = insert_by-All x (sort_by xs) p (sort_by-All xs h)

  module _ (order : IsOrder c) where
    below_trans :
        (x y : A) (l : List A)
        → c x y ≢ Ordering.gt
        → All (λ z. c y z ≢ Ordering.gt) l
        → All (λ z. c x z ≢ Ordering.gt) l
    below_trans x y [] h b = tt
    below_trans x y (z ∷ zs) h (p, b) = (order.trans x y z h p, below_trans x y zs h b)

    insert_by-IsSortedBy : (x : A) (l : List A) → IsSortedBy l → IsSortedBy (insert_by x l)
    unfolding insert_by
    insert_by-IsSortedBy x [] s = (tt, tt)
    insert_by-IsSortedBy x (y ∷ ys) (b, s) = elim (Bool-cases (is_le (c x y))) [
      | inl e ↦
          let le : c x y ≢ Ordering.gt = ground arith in
          rw e ((le, below_trans x y ys le b), (b, s))
      | inr e ↦
          let ge : c y x ≢ Ordering.gt = ground (arith, order.flips x y) in
          rw e (insert_by-All (λ z. c y z ≢ Ordering.gt) x ys ge b, insert_by-IsSortedBy x ys s)
    ]

    -- The result ascends.
    pub sort_by-IsSortedBy : (l : List A) → IsSortedBy (sort_by l)
    unfolding sort_by
    sort_by-IsSortedBy [] = tt
    sort_by-IsSortedBy (x ∷ xs) = insert_by-IsSortedBy x (sort_by xs) (sort_by-IsSortedBy xs)
