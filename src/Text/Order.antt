-- ===== src/Text/Order.antt =====
-- `str::cmp` is a total order that agrees with equality.
use ktest.Prelude.{◌≡◌, refl, ◌≢◌, ◌↔◌, [], ◌∷◌, arith, Ordering}
use ktest.Prelude.Cmp.{IsOrder, flip}
use ktest.Text.{Text, cmp, text_eq}

pub cmp-eq_iff : (a b : Text) → (cmp a b ≡ Ordering.eq) ↔ (a ≡ b)
unfolding cmp
cmp-eq_iff [] [] = ground arith
cmp-eq_iff [] (y ∷ ys) = ground arith
cmp-eq_iff (x ∷ xs) [] = ground arith
cmp-eq_iff (x ∷ xs) (y ∷ ys) = ground (arith, cmp-eq_iff xs ys)

pub cmp-flip : (a b : Text) → cmp b a ≡ flip (cmp a b)
unfolding cmp
cmp-flip [] [] = refl
cmp-flip [] (y ∷ ys) = refl
cmp-flip (x ∷ xs) [] = refl
cmp-flip (x ∷ xs) (y ∷ ys) = ground (arith, cmp-flip xs ys)

cmp_trans : (a b d : Text) → cmp a b ≢ Ordering.gt → cmp b d ≢ Ordering.gt → cmp a d ≢ Ordering.gt
unfolding cmp
cmp_trans [] b [] p q r = cc
cmp_trans [] b (z ∷ zs) p q r = cc
cmp_trans (x ∷ xs) [] d p q r = absurd (p refl)
cmp_trans (x ∷ xs) (y ∷ ys) [] p q r = absurd (q refl)
cmp_trans (x ∷ xs) (y ∷ ys) (z ∷ zs) p q r = ground (arith, cmp_trans xs ys zs)

pub cmp-IsOrder : IsOrder cmp
cmp-IsOrder = record { flips = cmp-flip; trans = cmp_trans }

-- A strict chain: below the least of a list is below all of it.
pub cmp-lt_trans :
    (a b d : Text) → cmp a b ≡ Ordering.lt → cmp b d ≡ Ordering.lt → cmp a d ≡ Ordering.lt
cmp-lt_trans a b d p q = ground (
  arith,
  cmp_trans a b d,
  cmp_trans d a b,
  cmp_trans b d a,
  cmp-flip a b,
  cmp-flip b d,
  cmp-flip a d,
)
