-- ===== src/Prelude/Cmp.antt =====
-- Comparators as `Ord::cmp` and `sort_by` use them, their laws, and the stable sort.
pub mod Sort
use Prim.Native.Nat.{ℕ, zero, suc, compare, Ordering}
use mathlib.Core.Path.{◌≡◌, refl}
use mathlib.Core.Logic.{◌≢◌, ◌⊎◌, inl, inr}
use mathlib.Core.Bool.{Bool, true, false}
use mathlib.Core.List.{List, [], ◌∷◌}
use native.Mathlib.Omega.{arith}
use ktest.Prelude.Tests.{Eq, ◌==◌}

-- `Ordering::then` and `Ordering::reverse`.
infixl 30 ◌then◌
abbrev pub ◌then◌ : Ordering → Ordering → Ordering
Ordering.eq then p = p
Ordering.lt then p = Ordering.lt
Ordering.gt then p = Ordering.gt

abbrev pub flip : Ordering → Ordering
flip Ordering.lt = Ordering.gt
flip Ordering.eq = Ordering.eq
flip Ordering.gt = Ordering.lt

abbrev pub is_le : Ordering → Bool
is_le Ordering.gt = false
is_le _ = true

pub Ordering-cases : (o : Ordering) → (o ≡ Ordering.lt) ⊎ ((o ≡ Ordering.gt) ⊎ (o ≡ Ordering.eq))
Ordering-cases Ordering.lt = inl refl
Ordering-cases Ordering.gt = inr (inl refl)
Ordering-cases Ordering.eq = inr (inr refl)

-- A comparator that `sort_by` documents as legal: a total preorder.
pub record IsOrder {ℓ} {A : Type ℓ} (c : A → A → Ordering) : Type ℓ where
  pub flips : (a b : A) → c b a ≡ flip (c a b)
  pub trans : (x y z : A) → c x y ≢ Ordering.gt → c y z ≢ Ordering.gt → c x z ≢ Ordering.gt

pub compare-IsOrder : IsOrder compare
compare-IsOrder = record { flips = λ a b. ground arith; trans = λ x y z p q r. ground arith }

module _ {ℓ κ} {A : Type ℓ} {B : Type κ} where
  -- Comparison of a field.
  abbrev pub by_key : (A → B) → (B → B → Ordering) → A → A → Ordering
  by_key f c a b = c (f a) (f b)

  pub by_key-IsOrder : (f : A → B) {c : B → B → Ordering} → IsOrder c → IsOrder (by_key f c)
  by_key-IsOrder f h = record {
    flips = λ a b. h.flips (f a) (f b);
    trans = λ x y z p q. h.trans (f x) (f y) (f z) p q;
  }

module _ {ℓ} {A : Type ℓ} {c d : A → A → Ordering} (hc : IsOrder c) (hd : IsOrder d) where
  pub then-IsOrder : IsOrder (λ a b. c a b then d a b)
  then-IsOrder = record {
    flips = λ a b. ground (arith, hc.flips a b, hd.flips a b);
    trans = λ x y z p q r. ground (
      arith,
      hc.trans x y z,
      hc.trans z x y,
      hc.trans y z x,
      hc.flips x y,
      hc.flips y z,
      hc.flips x z,
      hd.trans x y z,
      hd.flips x z,
    );
  }
