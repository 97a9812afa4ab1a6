-- ===== src/Prelude/Members.antt =====
-- Membership with its place, through the list functions that run.
use mathlib.Core.Path.{◌≡◌, refl, sym, subst}
use mathlib.Core.Logic.{◌⊎◌, inl, inr}
use mathlib.Core.Option.{Option, some}
use mathlib.Core.List.{List, [], ◌∷◌, ◌++◌, Memᴰ}
use ktest.Prelude.Tests.{Option-cases}
use ktest.Prelude.Lists.{filter_map, flat_map, All}

module _ {ℓ} {A : Type ℓ} where
  pub Memᴰ-append_left : {a : A} (xs ys : List A) → Memᴰ a xs → Memᴰ a (xs ++ ys)
  Memᴰ-append_left [] ys m = elim m [ ]
  Memᴰ-append_left (x ∷ xs) ys (Memᴰ.head e) = Memᴰ.head e
  Memᴰ-append_left (x ∷ xs) ys (Memᴰ.tail m) = Memᴰ.tail (Memᴰ-append_left xs ys m)

  pub Memᴰ-append_right : {a : A} (xs ys : List A) → Memᴰ a ys → Memᴰ a (xs ++ ys)
  Memᴰ-append_right [] ys m = m
  Memᴰ-append_right (x ∷ xs) ys m = Memᴰ.tail (Memᴰ-append_right xs ys m)

  pub Memᴰ-append : {a : A} (xs ys : List A) → Memᴰ a (xs ++ ys) → Memᴰ a xs ⊎ Memᴰ a ys
  Memᴰ-append [] ys m = inr m
  Memᴰ-append (x ∷ xs) ys (Memᴰ.head e) = inl (Memᴰ.head e)
  Memᴰ-append (x ∷ xs) ys (Memᴰ.tail m) = elim (Memᴰ-append xs ys m) [
    | inl h ↦ inl (Memᴰ.tail h)
    | inr h ↦ inr h
  ]

  -- A property of every member.
  pub All-of_Memᴰ {κ} : (P : A → Type κ) (xs : List A) → ((a : A) → Memᴰ a xs → P a) → All P xs
  All-of_Memᴰ P [] f = tt
  All-of_Memᴰ P (x ∷ xs) f = (f x (Memᴰ.head refl), All-of_Memᴰ P xs (λ a m. f a (Memᴰ.tail m)))

module _ {ℓ κ} {A : Type ℓ} {B : Type κ} where
  pub Memᴰ-flat_map :
      (f : A → List B) (b : B) (xs : List A)
      → Memᴰ b (flat_map f xs)
      → (a : A) × Memᴰ a xs × Memᴰ b (f a)
  unfolding flat_map
  Memᴰ-flat_map f b [] m = elim m [ ]
  Memᴰ-flat_map f b (x ∷ xs) m = elim (Memᴰ-append (f x) (flat_map f xs) m) [
    | inl h ↦ (x, Memᴰ.head refl, h)
    | inr h ↦ let (a, there, in_a) = Memᴰ-flat_map f b xs h in (a, Memᴰ.tail there, in_a)
  ]

  pub flat_map-Memᴰ :
      (f : A → List B) (b : B) (a : A) (xs : List A)
      → Memᴰ a xs
      → Memᴰ b (f a)
      → Memᴰ b (flat_map f xs)
  unfolding flat_map
  flat_map-Memᴰ f b a [] t m = elim t [ ]
  flat_map-Memᴰ f b a (x ∷ xs) (Memᴰ.head e) m =
      Memᴰ-append_left (f x) (flat_map f xs) (subst (λ c. Memᴰ b (f c)) e m)
  flat_map-Memᴰ f b a (x ∷ xs) (Memᴰ.tail t) m =
      Memᴰ-append_right (f x) (flat_map f xs) (flat_map-Memᴰ f b a xs t m)

  found_step :
      (f : A → Option B) (b y : B) (x : A) (xs : List A) {ys : List B}
      → f x ≡ some y
      → (Memᴰ b ys → (a : A) × Memᴰ a xs × (f a ≡ some b))
      → Memᴰ b (y ∷ ys)
      → (a : A) × Memᴰ a (x ∷ xs) × (f a ≡ some b)
  found_step f b y x xs h rec (Memᴰ.head e) =
      (x, Memᴰ.head refl, subst (λ c. f x ≡ some c) (sym e) h)
  found_step f b y x xs h rec (Memᴰ.tail m) = let (a, there, e) = rec m in (a, Memᴰ.tail there, e)

  pub Memᴰ-filter_map :
      (f : A → Option B) (b : B) (xs : List A)
      → Memᴰ b (filter_map f xs)
      → (a : A) × Memᴰ a xs × (f a ≡ some b)
  unfolding filter_map
  Memᴰ-filter_map f b [] m = elim m [ ]
  Memᴰ-filter_map f b (x ∷ xs) m = elim (Option-cases (f x)) [
    | inl h ↦
        let (a, there, e) = Memᴰ-filter_map f b xs (rw (h, filter_map) at m) in
        (a, Memᴰ.tail there, e)
    | inr (y, h) ↦ found_step f b y x xs h (Memᴰ-filter_map f b xs) (rw (h, filter_map) at m)
  ]

  pub filter_map-Memᴰ :
      (f : A → Option B) (b : B) (a : A) (xs : List A)
      → Memᴰ a xs
      → f a ≡ some b
      → Memᴰ b (filter_map f xs)
  unfolding filter_map
  filter_map-Memᴰ f b a [] m h = elim m [ ]
  filter_map-Memᴰ f b a (x ∷ xs) (Memᴰ.head e) h =
      let here : f x ≡ some b = subst (λ c. f c ≡ some b) e h in
      rw (here, filter_map) (Memᴰ.head refl)
  filter_map-Memᴰ f b a (x ∷ xs) (Memᴰ.tail m) h = elim (Option-cases (f x)) [
    | inl n ↦ rw (n, filter_map) (filter_map-Memᴰ f b a xs m h)
    | inr (y, n) ↦ rw (n, filter_map) (Memᴰ.tail (filter_map-Memᴰ f b a xs m h))
  ]
