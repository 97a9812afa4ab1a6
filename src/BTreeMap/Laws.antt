-- ===== src/BTreeMap/Laws.antt =====
-- The map laws, and that every operation keeps the keys in ascending order.
use ktest.Prelude.{
  ◌≡◌, refl, List, [], ◌∷◌, none, some, arith, if◌then◌else◌, ◌==◌, Ordering, eq_iff, eq_self,
  contains, or_else, All, ◌++◌, append-nil, append_assoc, sym, ap, subst, ◌∙◌,
}
use ktest.Text.{Text, text_eq, cmp}
use ktest.Text.Order.{cmp-eq_iff, cmp-flip, cmp-lt_trans}
use ktest.BTreeMap.{BTreeMap, get, insert, remove, insert_all, remove_keys, IsAbove, IsAscending}

module _ {ℓ} {V : Type ℓ} where
  pub get-insert :
      (k j : Text) (v : V) (m : BTreeMap V)
      → get j (insert k v m) ≡ (if k == j then some v else get j m)
  unfolding get insert
  get-insert k j v [] = refl
  get-insert k j v ((i, w) ∷ m) =
      ground (arith, eq_iff k j, eq_iff i j, cmp-eq_iff k i, get-insert k j v m)

  pub get-remove :
      (k j : Text) (m : BTreeMap V) → get j (remove k m) ≡ (if k == j then none else get j m)
  unfolding get remove
  get-remove k j [] = ground arith
  get-remove k j ((i, w) ∷ m) = ground (arith, eq_iff k j, eq_iff i j, eq_iff i k, get-remove k j m)

  pub get-insert_self : (k : Text) (v : V) (m : BTreeMap V) → get k (insert k v m) ≡ some v
  get-insert_self k v m = simp (get-insert, eq_self)

  pub get-remove_keys :
      (ks : List Text) (j : Text) (m : BTreeMap V)
      → get j (remove_keys ks m) ≡ (if contains ks j then none else get j m)
  unfolding remove_keys contains
  get-remove_keys [] j m = refl
  get-remove_keys (k ∷ ks) j m = ground (arith, get-remove_keys ks j (remove k m), get-remove k j m)

  insert-IsAbove :
      (i k : Text) (v : V) (m : BTreeMap V)
      → cmp i k ≡ Ordering.lt
      → IsAbove i m
      → IsAbove i (insert k v m)
  unfolding insert
  insert-IsAbove i k v [] h a = (h, tt)
  insert-IsAbove i k v ((j, w) ∷ m) h (b, a) = go (cmp k j) (insert-IsAbove i k v m h a)
    where
      go :
          (o : Ordering)
          → IsAbove i (insert k v m)
          → IsAbove i (elim o [
            | Ordering.lt ↦ (k, v) ∷ (j, w) ∷ m
            | Ordering.eq ↦ (k, v) ∷ m
            | Ordering.gt ↦ (j, w) ∷ insert k v m
          ])
      go Ordering.lt r = (h, (b, a))
      go Ordering.eq r = (h, a)
      go Ordering.gt r = (b, r)

  IsAbove-lower : (i k : Text) (m : BTreeMap V) → cmp i k ≡ Ordering.lt → IsAbove k m → IsAbove i m
  IsAbove-lower i k [] h a = tt
  IsAbove-lower i k ((j, w) ∷ m) h (b, a) = (cmp-lt_trans i k j h b, IsAbove-lower i k m h a)

  pub insert-IsAscending :
      (k : Text) (v : V) (m : BTreeMap V) → IsAscending m → IsAscending (insert k v m)
  unfolding insert
  insert-IsAscending k v [] h = (tt, tt)
  insert-IsAscending k v ((j, w) ∷ m) (b, a) = go (cmp k j) refl (insert-IsAscending k v m a)
    where
      go :
          (o : Ordering)
          → cmp k j ≡ o
          → IsAscending (insert k v m)
          → IsAscending (elim o [
            | Ordering.lt ↦ (k, v) ∷ (j, w) ∷ m
            | Ordering.eq ↦ (k, v) ∷ m
            | Ordering.gt ↦ (j, w) ∷ insert k v m
          ])
      go Ordering.lt e r = ((e, IsAbove-lower k j m e b), (b, a))
      go Ordering.eq e r = (rw ((cmp-eq_iff k j).0 e) b, a)
      go Ordering.gt e r = (insert-IsAbove j k v m (rw (cmp-flip k j, e) refl) b, r)

  remove-IsAbove : (i k : Text) (m : BTreeMap V) → IsAbove i m → IsAbove i (remove k m)
  unfolding remove
  remove-IsAbove i k [] a = tt
  remove-IsAbove i k ((j, w) ∷ m) (b, a) = ground (arith, remove-IsAbove i k m a)

  pub remove-IsAscending : (k : Text) (m : BTreeMap V) → IsAscending m → IsAscending (remove k m)
  unfolding remove
  remove-IsAscending k [] h = tt
  remove-IsAscending k ((j, w) ∷ m) (b, a) =
      ground (arith, remove-IsAbove j k m b, remove-IsAscending k m a)

  pub insert_all-IsAscending : (us m : BTreeMap V) → IsAscending m → IsAscending (insert_all us m)
  unfolding insert_all
  insert_all-IsAscending [] m h = h
  insert_all-IsAscending ((k, v) ∷ us) m h =
      insert_all-IsAscending us (insert k v m) (insert-IsAscending k v m h)

  pub remove_keys-IsAscending :
      (ks : List Text) (m : BTreeMap V) → IsAscending m → IsAscending (remove_keys ks m)
  unfolding remove_keys
  remove_keys-IsAscending [] m h = h
  remove_keys-IsAscending (k ∷ ks) m h =
      remove_keys-IsAscending ks (remove k m) (remove-IsAscending k m h)

  pub get_above : (k : Text) (m : BTreeMap V) → IsAbove k m → get k m ≡ none
  unfolding get
  get_above k [] a = refl
  get_above k ((j, w) ∷ m) (b, a) = ground (arith, eq_iff j k, cmp-eq_iff k j, get_above k m a)

  -- An update by an ascending map: its values win, all else is kept.
  pub get-insert_all :
      (us m : BTreeMap V) (j : Text)
      → IsAscending us
      → get j (insert_all us m) ≡ or_else (get j us) (get j m)
  unfolding insert_all get
  get-insert_all [] m j h = refl
  get-insert_all ((k, v) ∷ us) m j (b, a) = ground (
    arith,
    eq_iff k j,
    get_above k us b,
    get-insert k j v m,
    get-insert_all us (insert k v m) j a,
  )

module _ {ℓ} {V : Type ℓ} where
  abbrev IsBelow : BTreeMap V → Text → Type 0
  IsBelow m k = All (λ (p : Text × V). cmp p.0 k ≡ Ordering.lt) m

  insert_last : (k : Text) (v : V) (m : BTreeMap V) → IsBelow m k → insert k v m ≡ m ++ (k, v) ∷ []
  unfolding insert
  insert_last k v [] h = refl
  insert_last k v ((j, w) ∷ m) (b, h) =
      let gt : cmp k j ≡ Ordering.gt = ground (arith, cmp-flip j k) in
      rw (gt, insert) (ap (◌∷◌ (j, w)) (insert_last k v m h))

  IsBelow-of_IsAscending :
      (m : BTreeMap V) (k : Text) (v : V) (us : BTreeMap V)
      → IsAscending (m ++ ((k, v) ∷ us))
      → IsBelow m k
  IsBelow-of_IsAscending [] k v us h = tt
  IsBelow-of_IsAscending ((j, w) ∷ m) k v us (b, h) =
      (last_above j m b, IsBelow-of_IsAscending m k v us h)
    where
      last_above :
          (j : Text) (m : BTreeMap V) → IsAbove j (m ++ ((k, v) ∷ us)) → cmp j k ≡ Ordering.lt
      last_above j [] (b, h) = b
      last_above j (p ∷ m) (b, h) = last_above j m h

  insert_all-append : (us m : BTreeMap V) → IsAscending (m ++ us) → insert_all us m ≡ m ++ us
  unfolding insert_all
  insert_all-append [] m h = sym (append-nil m)
  insert_all-append ((k, v) ∷ us) m h =
      let e = insert_last k v m (IsBelow-of_IsAscending m k v us h) in
      let regroup : (m ++ (k, v) ∷ []) ++ us ≡ m ++ ((k, v) ∷ us) =
        append_assoc m ((k, v) ∷ []) us in
      rw e (insert_all-append us (m ++ (k, v) ∷ []) (subst IsAscending (sym regroup) h) ∙ regroup)

  -- Collecting an ascending map into an empty one gives it back.
  pub insert_all-nil : (us : BTreeMap V) → IsAscending us → insert_all us [] ≡ us
  insert_all-nil us h = insert_all-append us [] h
