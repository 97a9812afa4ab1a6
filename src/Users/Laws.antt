-- ===== src/Users/Laws.antt =====
-- What the resolver computes: each resolved group is its own fields over those of its resolved
-- parent, along the whole `extends` chain.
use ktest.Prelude.{
  ℕ, zero, suc, ◌≡◌, true, List, [], ◌∷◌, none, some, arith, All, ◌==◌, is_some, eq_iff, Bool-cases,
  Option-cases, inl, inr, subst, ◌≢◌, ◌∙◌, sym,
}
use ktest.Prelude.Result.{ok, Result-cases, >>=-eq-ok}
use ktest.Text.{Text, text_eq}
use ktest.BTreeMap.{BTreeMap, get, insert, keys}
use ktest.BTreeMap.Laws.{get-insert}
use ktest.Users.{
  RawTestGroup, RcTestGroup, Progress, push, finish, flatten, resolve_group, resolve_all, RawBranch,
  RawUserrc, Userrc, userrc_of_raw, check_groups, check_branches, rc_branches,
}

-- The declarative reading of `extends`.
pub data Resolves (raw : BTreeMap RawTestGroup) : Text → RcTestGroup → Type 0 where
  root :
      {n : Text} {r : RcTestGroup} (g : RawTestGroup)
      → get n raw ≡ some g
      → g.extends ≡ none
      → r ≡ flatten g none
      → Resolves raw n r
  child :
      {n : Text} {r : RcTestGroup} (g : RawTestGroup) (p : Text) (base : RcTestGroup)
      → get n raw ≡ some g
      → g.extends ≡ some p
      → Resolves raw p base
      → r ≡ flatten g (some base)
      → Resolves raw n r

module _ (raw : BTreeMap RawTestGroup) where
  abbrev pub AllResolve : BTreeMap RcTestGroup → Type 0
  AllResolve m = (n : Text) (r : RcTestGroup) → get n m ≡ some r → Resolves raw n r

  abbrev pub IsResolved : Text → BTreeMap RcTestGroup → Type 0
  IsResolved n m = is_some (get n m) ≡ true

  -- What a call for `name` does to the map.
  pub record Extends (name : Text) (m m' : BTreeMap RcTestGroup) : Type 0 where
    pub sound : AllResolve m'
    pub here : IsResolved name m'
    pub kept : (j : Text) → IsResolved j m → IsResolved j m'

  insert-AllResolve :
      (n : Text) (r : RcTestGroup) (m : BTreeMap RcTestGroup)
      → Resolves raw n r
      → AllResolve m
      → AllResolve (insert n r m)
  insert-AllResolve n r m h all j q e = elim (Bool-cases (n == j)) [
    | inl same ↦
        let n-j : n ≡ j = (eq_iff n j).0 same in
        let r-q : r ≡ q = ground (arith, get-insert n j r m) in rw (← n-j, ← r-q) h
    | inr other ↦ all j q (ground (arith, get-insert n j r m))
  ]

  insert-Extends :
      (n : Text) (r : RcTestGroup) (m m' : BTreeMap RcTestGroup)
      → Resolves raw n r
      → AllResolve m'
      → ((j : Text) → IsResolved j m → IsResolved j m')
      → Extends n m (insert n r m')
  insert-Extends n r m m' h all kept = record {
    sound = insert-AllResolve n r m' h all;
    here = ground (arith, get-insert n n r m', eq_iff n n);
    kept = λ j e. ground (arith, get-insert n j r m', kept j);
  }

  -- The three ways in which a call succeeds.
  data Succeeds (fuel : ℕ) (name : Text) (s s' : Progress) : Type 0 where
    cached : IsResolved name s.resolved → s ≡ s' → Succeeds fuel name s s'
    at_root :
        (g : RawTestGroup)
        → get name raw ≡ some g
        → g.extends ≡ none
        → finish name g (push name s) ≡ s'
        → Succeeds fuel name s s'
    at_child :
        (g : RawTestGroup) (p : Text) (t : Progress)
        → get name raw ≡ some g
        → g.extends ≡ some p
        → resolve_group raw fuel p (push name s) ≡ ok t
        → finish name g t ≡ s'
        → Succeeds fuel name s s'

  resolve_group-Succeeds :
      (fuel : ℕ) (name : Text) (s s' : Progress)
      → resolve_group raw (suc fuel) name s ≡ ok s'
      → Succeeds fuel name s s'
  unfolding resolve_group
  resolve_group-Succeeds fuel name s s' h = elim (Bool-cases (is_some (get name s.resolved))) [
    | inl e ↦ cached e (ground arith)
    | inr e ↦ elim (Option-cases (get name raw)) [
      | inl e' ↦ absurd (ground arith)
      | inr (g, e') ↦ elim (Option-cases g.extends) [
        | inl x ↦ at_root g e' x (ground arith)
        | inr (p, x) ↦ elim (Result-cases (resolve_group raw fuel p (push name s))) [
          | inl (t, r) ↦ at_child g p t e' x r (ground arith)
          | inr (y, r) ↦ absurd (ground arith)
        ]
      ]
    ]
  ]

  at_root-Extends :
      (name : Text) (s : Progress) (g : RawTestGroup)
      → AllResolve s.resolved
      → get name raw ≡ some g
      → g.extends ≡ none
      → Extends name s.resolved (finish name g (push name s)).resolved
  at_root-Extends name s g all e x =
      insert-Extends name _ s.resolved s.resolved (root g e x (rw x)) all (λ j h. h)

  at_child-Extends :
      (name : Text) (s t : Progress) (g : RawTestGroup) (p : Text) (base : RcTestGroup)
      → Extends p s.resolved t.resolved
      → get p t.resolved ≡ some base
      → get name raw ≡ some g
      → g.extends ≡ some p
      → Extends name s.resolved (finish name g t).resolved
  at_child-Extends name s t g p base ext found e x =
      insert-Extends name _ s.resolved t.resolved
        (child g p base e x (ext.sound p base found) (rw (x, found))) ext.sound ext.kept

  no_fuel : (name : Text) (s s' : Progress) → resolve_group raw 0 name s ≢ ok s'
  unfolding resolve_group
  no_fuel name s s' h = cc

  pub resolve_group-Extends :
      (fuel : ℕ) (name : Text) (s s' : Progress)
      → AllResolve s.resolved
      → resolve_group raw fuel name s ≡ ok s'
      → Extends name s.resolved s'.resolved
  resolve_group-Extends zero name s s' all h = absurd (no_fuel name s s' h)
  resolve_group-Extends (suc fuel) name s s' all h =
      elim (resolve_group-Succeeds fuel name s s' h) [
        | cached e same ↦
            subst (λ (t : Progress). Extends name s.resolved t.resolved) same
              (record { sound = all; here = e; kept = λ j k. k })
        | at_root g e x done ↦
            subst (λ (t : Progress). Extends name s.resolved t.resolved) done
              (at_root-Extends name s g all e x)
        | at_child g p t e x below done ↦
            let ext = resolve_group-Extends fuel p (push name s) t all below in
            elim (Option-cases (get p t.resolved)) [
              | inl missing ↦ absurd (ground (arith, ext.here))
              | inr (base, found) ↦
                  subst (λ (t : Progress). Extends name s.resolved t.resolved) done
                    (at_child-Extends name s t g p base ext found e x)
            ]
      ]

  -- The loop over all names.
  pub resolve_all-AllResolve :
      (fuel : ℕ) (names : List Text) (s s' : Progress)
      → AllResolve s.resolved
      → resolve_all raw fuel names s ≡ ok s'
      → AllResolve s'.resolved
        × All (λ n. IsResolved n s'.resolved) names
        × ((j : Text) → IsResolved j s.resolved → IsResolved j s'.resolved)
  unfolding resolve_all
  resolve_all-AllResolve fuel [] s s' all h =
      subst Good {x = s} {y = s'} (ground arith) (all, tt, λ j k. k)
    where
      Good : Progress → Type 0
      Good t =
          AllResolve t.resolved
          × Unit
          × ((j : Text) → IsResolved j s.resolved → IsResolved j t.resolved)
  resolve_all-AllResolve fuel (name ∷ names) s s' all h =
      let (t, first, rest) = >>=-eq-ok (resolve_group raw fuel name s) _ h in
      let ext = resolve_group-Extends fuel name s t all first in
      let (sound, there, kept) = resolve_all-AllResolve fuel names t s' ext.sound rest in
      (sound, (kept name ext.here, there), λ j k. kept j (ext.kept j k))

check_groups-All :
    (m m' : BTreeMap RcTestGroup) (bname : Text) (tgs : List Text)
    → check_groups m bname tgs ≡ ok m'
    → (m ≡ m') × All (λ tg. is_some (get tg m) ≡ true) tgs
unfolding check_groups
check_groups-All m m' bname [] h = (ground arith, tt)
check_groups-All m m' bname (tg ∷ tgs) h = elim (Bool-cases (is_some (get tg m))) [
  | inl e ↦
      let (same, rest) = check_groups-All m m' bname tgs (rw (e, check_groups) at h) in
      (same, (e, rest))
  | inr e ↦ absurd (ground arith)
]

-- Every group that a branch names is in the map.
abbrev pub AllDefined : BTreeMap RcTestGroup → BTreeMap RawBranch → Type 0
AllDefined m bs =
    All (λ (b : Text × RawBranch). All (λ tg. is_some (get tg m) ≡ true) b.1.test_groups) bs

check_branches-AllDefined :
    (m m' : BTreeMap RcTestGroup) (bs : BTreeMap RawBranch)
    → check_branches m bs ≡ ok m'
    → (m ≡ m') × AllDefined m bs
unfolding check_branches
check_branches-AllDefined m m' [] h = (ground arith, tt)
check_branches-AllDefined m m' ((bname, b) ∷ bs) h =
    let (t, first, rest) = >>=-eq-ok (check_groups m bname b.test_groups) _ h in
    let (same, defined) = check_groups-All m t bname b.test_groups first in
    let (same', later) = check_branches-AllDefined t m' bs rest in
    (same ∙ same', (defined, subst (λ k. AllDefined k bs) (sym same) later))

pub nothing_resolved : (raw : BTreeMap RawTestGroup) → AllResolve raw []
unfolding get
nothing_resolved raw n r h = cc

-- A configuration that was accepted.
pub record IsFaithful (raw : RawUserrc) (u : Userrc) : Type 0 where
  pub groups : AllResolve raw.test_groups u.test_groups
  pub complete : All (λ n. is_some (get n u.test_groups) ≡ true) (keys raw.test_groups)
  pub references : AllDefined u.test_groups raw.branches
  pub branches : u.branches ≡ rc_branches raw.branches

-- An accepted configuration is resolved: every group of the result is the flattening of its
-- `extends` chain, every group of the file is in it, every group that a branch names is in it, and
-- the branches are those of the file.
pub userrc_of_raw-IsFaithful :
    (raw : RawUserrc) (u : Userrc) → userrc_of_raw raw ≡ ok u → IsFaithful raw u
unfolding userrc_of_raw
userrc_of_raw-IsFaithful raw u h =
    let (s, first, rest) = >>=-eq-ok (resolve_all raw.test_groups _ _ _) _ h in
    let (m, second, last) = >>=-eq-ok (check_branches s.resolved raw.branches) _ rest in
    let (sound, complete, kept) =
      resolve_all-AllResolve raw.test_groups _ _ (record { resolved = []; stack = [] }) s
        (nothing_resolved raw.test_groups) first in
    let (same, defined) = check_branches-AllDefined s.resolved m raw.branches second in
    let groups : s.resolved ≡ u.test_groups = ground arith in
    record {
      groups = subst (AllResolve raw.test_groups) groups sound;
      complete =
          subst (λ k. All (λ n. is_some (get n k) ≡ true) (keys raw.test_groups)) groups complete;
      references = subst (λ k. AllDefined k raw.branches) groups defined;
      branches = ground arith;
    }
