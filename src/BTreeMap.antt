-- ===== src/BTreeMap.antt =====
-- `BTreeMap<String, V>`: the pairs in ascending order of key, as iteration gives them.
pub mod Laws
use ktest.Prelude.{
  ◌≡◌, refl, Bool, true, false, List, [], ◌∷◌, Option, none, some, arith, if◌then◌else◌, ◌==◌, map,
  Ordering, All,
}
use ktest.Text.{Text, text_eq, cmp}

abbrev pub BTreeMap {ℓ} : Type ℓ → Type ℓ
BTreeMap V = List (Text × V)

module _ {ℓ} {V : Type ℓ} where
  unfoldable pub get : Text → BTreeMap V → Option V
  get k [] = none
  get k ((j, v) ∷ m) = if j == k then some v else get k m

  -- Replaces the value of a key that is there, or puts the new pair in its place in the order.
  unfoldable pub insert : Text → V → BTreeMap V → BTreeMap V
  insert k v [] = (k, v) ∷ []
  insert k v ((j, w) ∷ m) =
      let rest = insert k v m in
      elim (cmp k j) [
        | Ordering.lt ↦ (k, v) ∷ (j, w) ∷ m
        | Ordering.eq ↦ (k, v) ∷ m
        | Ordering.gt ↦ (j, w) ∷ rest
      ]

  unfoldable pub remove : Text → BTreeMap V → BTreeMap V
  remove k [] = []
  remove k ((j, v) ∷ m) = let rest = remove k m in if j == k then rest else (j, v) ∷ rest

  abbrev pub keys : BTreeMap V → List Text
  keys m = map (λ p. p.0) m

  abbrev pub values : BTreeMap V → List V
  values m = map (λ p. p.1) m

  -- `for (k, v) in updates { m.insert(k, v) }`, which `extend` and `collect` do too.
  unfoldable pub insert_all : BTreeMap V → BTreeMap V → BTreeMap V
  insert_all [] m = m
  insert_all ((k, v) ∷ us) m = insert_all us (insert k v m)

  unfoldable pub remove_keys : List Text → BTreeMap V → BTreeMap V
  remove_keys [] m = m
  remove_keys (k ∷ ks) m = remove_keys ks (remove k m)

  -- The representation invariant: keys ascend strictly.
  abbrev pub IsAbove : Text → BTreeMap V → Type 0
  IsAbove k m = All (λ (p : Text × V). cmp k p.0 ≡ Ordering.lt) m

  abbrev pub IsAscending : BTreeMap V → Type 0
  IsAscending [] = Unit
  IsAscending ((k, v) ∷ m) = IsAbove k m × IsAscending m
