-- ===== src/Stats/Search.antt =====
-- On the file that gen-avg-duration writes, the binary search is the lookup in its map.
use ktest.Prelude.{
  ℕ, zero, suc, ◌+◌, ◌-◌, ◌/◌, ◌<◌, ◌≤◌, ◌≡◌, refl, ap, ◌∙◌, List, [], ◌∷◌, Option, none, some,
  arith, Ordering, get_elem?, length, map, eq_iff, inl, inr, ◌≢◌, subst, dec_lt,
}
use ktest.Prelude.Cmp.{Ordering-cases}
use ktest.Text.{Text, cmp, text_eq}
use ktest.Text.Order.{cmp-eq_iff, cmp-flip, cmp-lt_trans}
use ktest.BTreeMap.{BTreeMap, get, IsAscending, IsAbove}
use ktest.Naming.{subtest_result_key}
use ktest.Stats.{
  TestDuration, Duration, duration_entry, duration_entries, TestStats, stats_of, Found, hit, miss,
  search_loop, found_stats, test_stats,
}

module _ {ℓ} {V : Type ℓ} where
  IsAbove-at :
      (k : Text) (m : BTreeMap V) (i : ℕ) (p : Text × V)
      → IsAbove k m
      → get_elem? m i ≡ some p
      → cmp k p.0 ≡ Ordering.lt
  IsAbove-at k [] i p a h = cc
  IsAbove-at k (q ∷ m) zero p (b, a) h =
      let same : q ≡ p = cc in subst (λ (x : Text × V). cmp k x.0 ≡ Ordering.lt) same b
  IsAbove-at k (q ∷ m) (suc i) p (b, a) h = IsAbove-at k m i p a h

  -- Keys at ascending places ascend.
  ascending_at :
      (m : BTreeMap V) (i j : ℕ) (p q : Text × V)
      → IsAscending m
      → i < j
      → get_elem? m i ≡ some p
      → get_elem? m j ≡ some q
      → cmp p.0 q.0 ≡ Ordering.lt
  ascending_at [] i j p q a h e e' = cc
  ascending_at (x ∷ m) zero zero p q a h e e' = elim h [ ]
  ascending_at (x ∷ m) zero (suc j) p q (b, a) h e e' =
      let same : x ≡ p = cc in
      subst (λ (y : Text × V). cmp y.0 q.0 ≡ Ordering.lt) same (IsAbove-at x.0 m j q b e')
  ascending_at (x ∷ m) (suc i) zero p q a h e e' = elim h [ ]
  ascending_at (x ∷ m) (suc i) (suc j) p q (b, a) h e e' =
      ascending_at m i j p q a (omega arith) e e'

  get_at :
      (m : BTreeMap V) (i : ℕ) (k : Text) (v : V)
      → IsAscending m
      → get_elem? m i ≡ some (k, v)
      → get k m ≡ some v
  unfolding get
  get_at [] i k v a h = cc
  get_at ((j, w) ∷ m) zero k v a h = ground (arith, eq_iff j k)
  get_at ((j, w) ∷ m) (suc i) k v (b, a) h =
      ground (arith, IsAbove-at j m i (k, v) b h, cmp-eq_iff j k, eq_iff j k, get_at m i k v a h)

  get_absent :
      (m : BTreeMap V) (k : Text)
      → ((i : ℕ) (p : Text × V) → get_elem? m i ≡ some p → cmp k p.0 ≢ Ordering.eq)
      → get k m ≡ none
  unfolding get
  get_absent [] k h = refl
  get_absent ((j, w) ∷ m) k h =
      ground (arith, h 0 (j, w) refl, eq_iff j k, cmp-eq_iff k j, get_absent m k (λ i. h (suc i)))

  get_elem?-lt : (m : BTreeMap V) (i : ℕ) → i < length m → (p : Text × V) × (get_elem? m i ≡ some p)
  get_elem?-lt [] i h = elim h [ ]
  get_elem?-lt (x ∷ m) zero h = (x, refl)
  get_elem?-lt (x ∷ m) (suc i) h = get_elem?-lt m i (omega arith)

  get_elem?-map :
      {W : Type 0} (f : Text × V → W) (m : BTreeMap V) (i : ℕ) (p : Text × V)
      → get_elem? m i ≡ some p
      → get_elem? (map f m) i ≡ some (f p)
  get_elem?-map f [] i p h = cc
  get_elem?-map f (x ∷ m) zero p h = ap some (ap f (cc))
  get_elem?-map f (x ∷ m) (suc i) p h = get_elem?-map f m i p h

out_of_range :
    {V : Type 0} (m : BTreeMap V) (i : ℕ) (p : Text × V) → length m ≤ i → get_elem? m i ≢ some p
out_of_range [] i p h e = cc
out_of_range (x ∷ m) zero p h e = elim h [ ]
out_of_range (x ∷ m) (suc i) p h e = out_of_range m i p (omega arith) e

abbrev answer : Option TestDuration → Found
answer none = miss
answer (some d) = hit (stats_of (duration_entry ([], d)))

module _ (m : BTreeMap TestDuration) (asc : IsAscending m) (k : Text) where
  -- What the loop knows of `[l, r)`: the key is above all before it and below all behind it.
  record Window (l r : ℕ) : Type 0 where
    below :
        (i : ℕ) (p : Text × TestDuration) → i < l → get_elem? m i ≡ some p → cmp k p.0 ≡ Ordering.gt
    above :
        (i : ℕ) (p : Text × TestDuration) → r ≤ i → get_elem? m i ≡ some p → cmp k p.0 ≡ Ordering.lt
    fits : r ≤ length m

  Window-empty : (l r : ℕ) → Window l r → r ≤ l → get k m ≡ none
  Window-empty l r w h = get_absent m k λ i p e. elim (dec_lt i l) [
    | yes lower ↦ ground (arith, w.below i p lower e)
    | no other ↦ ground (arith, w.above i p (omega arith) e)
  ]

  lt_behind :
      (i j : ℕ) (p q : Text × TestDuration)
      → get_elem? m i ≡ some p
      → get_elem? m j ≡ some q
      → i ≤ j
      → cmp k p.0 ≡ Ordering.lt
      → cmp k q.0 ≡ Ordering.lt
  lt_behind i j p q ei ej h e = elim (dec_lt i j) [
    | yes lower ↦ cmp-lt_trans k p.0 q.0 e (ascending_at m i j p q asc lower ei ej)
    | no other ↦
        let same : i ≡ j = omega arith in
        let both : p ≡ q = ground (arith, ap (get_elem? m) same) in
        subst (λ (x : Text × TestDuration). cmp k x.0 ≡ Ordering.lt) both e
  ]

  gt_before :
      (i j : ℕ) (p q : Text × TestDuration)
      → get_elem? m i ≡ some p
      → get_elem? m j ≡ some q
      → i ≤ j
      → cmp k q.0 ≡ Ordering.gt
      → cmp k p.0 ≡ Ordering.gt
  gt_before i j p q ei ej h e = elim (dec_lt i j) [
    | yes lower ↦ ground (
      arith,
      cmp-flip k q.0,
      cmp-flip p.0 k,
      cmp-lt_trans p.0 q.0 k (ascending_at m i j p q asc lower ei ej),
    )
    | no other ↦
        let same : i ≡ j = omega arith in
        let both : q ≡ p = ground (arith, ap (get_elem? m) same) in
        subst (λ (x : Text × TestDuration). cmp k x.0 ≡ Ordering.gt) both e
  ]

  Window-left :
      (l r c : ℕ) (p : Text × TestDuration)
      → Window l r
      → c < r
      → get_elem? m c ≡ some p
      → cmp k p.0 ≡ Ordering.lt
      → Window l c
  Window-left l r c p w h e lt = record {
    below = w.below;
    above = λ j q b e'. lt_behind c j p q e e' b lt;
    fits = omega (arith, w.fits);
  }

  Window-right :
      (l r c : ℕ) (p : Text × TestDuration)
      → Window l r
      → get_elem? m c ≡ some p
      → cmp k p.0 ≡ Ordering.gt
      → Window (c + 1) r
  Window-right l r c p w e gt = record {
    below = λ j q b e'. gt_before j c q p e' e (omega arith) gt;
    above = w.above;
    fits = w.fits;
  }

  at_hit :
      (c : ℕ) (p : Text × TestDuration)
      → get_elem? m c ≡ some p
      → cmp k p.0 ≡ Ordering.eq
      → get k m ≡ some p.1
  at_hit c (j, d) e eq = get_at m c k d asc (rw ((cmp-eq_iff k j).0 eq) e)

  search_loop-eq-answer :
      (fuel l r : ℕ)
      → r - l < fuel
      → Window l r
      → search_loop (duration_entries m) k fuel l r ≡ answer (get k m)
  unfolding search_loop duration_entries
  search_loop-eq-answer zero l r h w = elim h [ ]
  search_loop-eq-answer (suc fuel) l r h w = elim (dec_lt l r) [
    | no empty ↦ let closed : r ≤ l = omega arith in ground (arith, Window-empty l r w closed)
    | yes open_window ↦
        let c : ℕ = l + (r - l) / 2 in
        let inside : c < r = omega arith in
        let (p, e) = get_elem?-lt m c (omega (arith, w.fits)) in
        let read = get_elem?-map duration_entry m c p e in
        elim (Ordering-cases (cmp k p.0)) [
          | inl lt ↦
              let left = Window-left l r c p w inside e lt in
              ground (arith, read, lt, search_loop-eq-answer fuel l c (omega arith) left)
          | inr (inl gt) ↦
              let right = Window-right l r c p w e gt in
              ground (arith, read, gt, search_loop-eq-answer fuel (c + 1) r (omega arith) right)
          | inr (inr eq) ↦ ground (arith, read, eq, at_hit c p e eq)
        ]
  ]

  Window-whole : Window 0 (length m)
  Window-whole = record {
    below = λ i p h e. elim h [ ];
    above = λ i p h e. absurd (out_of_range m i p h e);
    fits = omega arith;
  }

  -- Between them the reader and the search are the lookup in the map that was written.
  search_whole : search_loop (duration_entries m) k (suc (length m)) 0 (length m) ≡ answer (get k m)
  search_whole = search_loop-eq-answer (suc (length m)) 0 (length m) (omega arith) Window-whole

length-duration_entries : (m : BTreeMap TestDuration) → length (duration_entries m) ≡ length m
unfolding duration_entries
length-duration_entries [] = refl
length-duration_entries (p ∷ m) = ap suc (length-duration_entries m)

-- The statistics that a written file holds for a key.
abbrev pub written : Option TestDuration → Option TestStats
written none = none
written (some d) =
    some
      (record { nr = d.nr; passed = d.nr_passed; failed = d.nr_failed; duration = d.secs / d.nr })

found_stats-answer : (d : Option TestDuration) → found_stats (answer d) ≡ written d
found_stats-answer none = refl
found_stats-answer (some d) = refl

-- On a file that holds the entries of a sorted map, `test_stats` finds exactly what the map has
-- for the result key of the subtest: the binary search ends, and misses nothing.
pub test_stats-duration_entries :
    (parse : Text → Option (List Duration)) (bytes : Text) (m : BTreeMap TestDuration)
    (test subtest kernel env : Text)
    → IsAscending m
    → parse bytes ≡ some (duration_entries m)
    → test_stats parse (some bytes) test subtest kernel env
      ≡ written (get (subtest_result_key test subtest kernel env) m)
unfolding test_stats
test_stats-duration_entries parse bytes m test subtest kernel env asc e =
    let key = subtest_result_key test subtest kernel env in
    rw (e, test_stats, length-duration_entries m)
      (ap found_stats (search_whole m asc key) ∙ found_stats-answer (get key m))
