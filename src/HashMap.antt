-- ===== src/HashMap.antt =====
-- `HashMap<K, V>`: an association list over a key with decidable equality. The programs never
-- depend on the order of iteration.
use ktest.Prelude.{
  ◌≡◌, refl, List, [], ◌∷◌, Option, none, some, arith, if◌then◌else◌, Eq, ◌==◌, eq_iff,
}

abbrev pub HashMap {ℓ κ} : Type ℓ → Type κ → Type (ℓ ⊔ κ)
HashMap K V = List (K × V)

module _ {ℓ κ} {K : Type ℓ} {V : Type κ} ⦃eq : Eq K⦄ where
  unfoldable pub lookup : K → HashMap K V → Option V
  lookup key [] = none
  lookup key ((k, value) ∷ rest) = if k == key then some value else lookup key rest

  unfoldable pub insert : K → V → HashMap K V → HashMap K V
  insert key value [] = (key, value) ∷ []
  insert key value ((k, old) ∷ rest) =
      let inserted = insert key value rest in
      if k == key then (key, value) ∷ rest else (k, old) ∷ inserted

  pub lookup-insert :
      (key other : K) (value : V) (map : HashMap K V)
      → lookup other (insert key value map)
        ≡ (if key == other then some value else lookup other map)
  unfolding lookup insert
  lookup-insert key other value [] = refl
  lookup-insert key other value ((k, old) ∷ rest) =
      ground
        (arith, lookup-insert key other value rest, eq_iff key other, eq_iff k key, eq_iff k other)
