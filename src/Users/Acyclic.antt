-- ===== src/Users/Acyclic.antt =====
-- The resolver refuses a configuration only for a fault: where `extends` has no cycle and names
-- defined groups, every group resolves.
use ktest.Prelude.{
  ℕ, zero, suc, ◌<◌, ◌≡◌, refl, true, false, List, [], ◌∷◌, some, arith, All, ◌==◌, contains,
  is_some, length, eq_iff, Bool-cases, Option-cases, inl, inr, subst, ap, sym, ◌∙◌,
}
use ktest.Prelude.Result.{ok, err, Result-cases}
use ktest.Text.{Text, text_eq}
use ktest.BTreeMap.{BTreeMap, get, keys}
use ktest.Users.{
  RawTestGroup, RcTestGroup, Progress, push, resolve_group, resolve_all, check_groups,
  check_branches, RawBranch, RawUserrc, Userrc, userrc_of_raw, rc_branches, ConfigError,
  out_of_fuel,
}
use ktest.Users.Termination.{resolve_group-stack, resolve_all_returns}
use ktest.Users.Laws.{AllDefined, resolve_all-AllResolve, nothing_resolved}

-- A rank that falls along `extends`, and no reference to a group that is not there.
abbrev pub IsRanked : (Text → ℕ) → BTreeMap RawTestGroup → Type 0
IsRanked rank raw =
    (n p : Text) (g : RawTestGroup)
    → get n raw ≡ some g
    → g.extends ≡ some p
    → (is_some (get p raw) ≡ true) × (rank p < rank n)

module _ (rank : Text → ℕ) where
  abbrev Above : Text → List Text → Type 0
  Above n stack = All (λ x. rank n < rank x) stack

  Above-contains : (n : Text) (stack : List Text) → Above n stack → contains stack n ≡ false
  unfolding contains
  Above-contains n [] h = refl
  Above-contains n (x ∷ xs) (h, hs) = elim (Bool-cases (x == n)) [
    | inl e ↦ absurd (lower x n ((eq_iff x n).0 e) h)
    | inr e ↦ rw e (Above-contains n xs hs)
  ]
    where
      lower : (x n : Text) → x ≡ n → rank n < rank x → ⊥
      lower x n e h = omega (arith, ap rank e)

  Above-push : (n p : Text) (stack : List Text) → rank p < rank n → Above n stack → Above p stack
  Above-push n p [] h a = tt
  Above-push n p (x ∷ xs) h (b, a) = (omega arith, Above-push n p xs h a)

  module _ (raw : BTreeMap RawTestGroup) (ranked : IsRanked rank raw) where
    resolve_group-eq-out_of_fuel :
        (fuel : ℕ) (name : Text) (s : Progress) (e : ConfigError)
        → is_some (get name raw) ≡ true
        → Above name s.stack
        → resolve_group raw fuel name s ≡ err e
        → e ≡ out_of_fuel
    unfolding resolve_group
    resolve_group-eq-out_of_fuel zero name s e d a h = ground arith
    resolve_group-eq-out_of_fuel (suc fuel) name s e d a h = elim (Option-cases (get name raw)) [
      | inl x ↦ absurd (ground arith)
      | inr (g, x) ↦ elim (Option-cases g.extends) [
        | inl y ↦ absurd (ground (arith, Above-contains name s.stack a))
        | inr (p, y) ↦
            let (there, lower) = ranked name p g x y in
            elim (Result-cases (resolve_group raw fuel p (push name s))) [
              | inl (t, r) ↦ absurd (ground (arith, Above-contains name s.stack a))
              | inr (z, r) ↦ ground (
                arith,
                Above-contains name s.stack a,
                resolve_group-eq-out_of_fuel fuel p (push name s) z there
                    (lower, Above-push name p s.stack lower a) r,
              )
            ]
      ]
    ]

    resolve_all-eq-out_of_fuel :
        (fuel : ℕ) (names : List Text) (s : Progress) (e : ConfigError)
        → All (λ n. is_some (get n raw) ≡ true) names
        → s.stack ≡ []
        → resolve_all raw fuel names s ≡ err e
        → e ≡ out_of_fuel
    unfolding resolve_all
    resolve_all-eq-out_of_fuel fuel [] s e d a h = absurd (ground arith)
    resolve_all-eq-out_of_fuel fuel (name ∷ names) s e (d, ds) a h =
        elim (Result-cases (resolve_group raw fuel name s)) [
          | inl (t, r) ↦
              resolve_all-eq-out_of_fuel fuel names t e ds
                (resolve_group-stack raw fuel name s t r ∙ a) (rw (r, resolve_all) at h)
          | inr (z, r) ↦
              resolve_group-eq-out_of_fuel fuel name s e d (subst (Above name) (sym a) tt)
                (ground arith)
        ]

get-keys :
    {V : Type 0} (m m' : BTreeMap V)
    → ((n : Text) → is_some (get n m) ≡ true → is_some (get n m') ≡ true)
    → All (λ n. is_some (get n m') ≡ true) (keys m)
unfolding get
get-keys [] m' sub = tt
get-keys ((n, v) ∷ m) m' sub =
    (sub n (ground (arith, eq_iff n n)), get-keys m m' λ j h. sub j (ground arith))

check_groups_returns :
    (m : BTreeMap RcTestGroup) (bname : Text) (tgs : List Text)
    → All (λ tg. is_some (get tg m) ≡ true) tgs
    → check_groups m bname tgs ≡ ok m
unfolding check_groups
check_groups_returns m bname [] d = refl
check_groups_returns m bname (tg ∷ tgs) (d, ds) =
    rw (d, check_groups) (check_groups_returns m bname tgs ds)

check_branches_returns :
    (m : BTreeMap RcTestGroup) (bs : BTreeMap RawBranch)
    → AllDefined m bs
    → check_branches m bs ≡ ok m
unfolding check_branches
check_branches_returns m [] d = refl
check_branches_returns m ((bname, b) ∷ bs) (d, ds) =
    rw (check_groups_returns m bname b.test_groups d, check_branches)
      (check_branches_returns m bs ds)

-- Each group that a branch of the file names is a group of the file.
abbrev pub RefersWithin : RawUserrc → Type 0
RefersWithin raw =
    All
      (λ (b : Text × RawBranch).
        All (λ tg. is_some (get tg raw.test_groups) ≡ true) b.1.test_groups)
      raw.branches

All-keys :
    {V : Type 0} (P : Text → Type 0) (m : BTreeMap V) (n : Text)
    → All P (keys m)
    → is_some (get n m) ≡ true
    → P n
unfolding get
All-keys P [] n a h = absurd (ground arith)
All-keys P ((j, v) ∷ m) n (p, a) h = elim (Bool-cases (j == n)) [
  | inl e ↦ subst P ((eq_iff j n).0 e) p
  | inr e ↦ All-keys P m n a (rw (e, get) at h)
]

All-imp :
    {A : Type 0} {P Q : A → Type 0} (xs : List A) → ((x : A) → P x → Q x) → All P xs → All Q xs
All-imp [] f h = tt
All-imp (x ∷ xs) f (p, h) = (f x p, All-imp xs f h)

-- A file whose `extends` falls by some rank and names only groups of the file, and whose branches
-- name groups of the file, is accepted.
pub userrc_of_raw-eq-ok :
    (rank : Text → ℕ) (raw : RawUserrc)
    → IsRanked rank raw.test_groups
    → RefersWithin raw
    → (u : Userrc) × (userrc_of_raw raw ≡ ok u)
unfolding userrc_of_raw
userrc_of_raw-eq-ok rank raw ranked refers =
    let groups = raw.test_groups in
    let start : Progress = record { resolved = []; stack = [] } in
    let there = get-keys groups groups (λ n h. h) in
    elim (Result-cases (resolve_all groups (suc (length groups)) (keys groups) start)) [
      | inl (s, r) ↦
          let (sound, complete, kept) =
            resolve_all-AllResolve groups _ (keys groups) start s (nothing_resolved groups) r in
          let defined : AllDefined s.resolved raw.branches =
            All-imp raw.branches
              (λ b.
                All-imp b.1.test_groups
                  (λ tg. All-keys (λ n. is_some (get n s.resolved) ≡ true) groups tg complete))
              refers in
          (
            record { test_groups = s.resolved; branches = rc_branches raw.branches },
            rw (r, check_branches_returns s.resolved raw.branches defined) refl,
          )
      | inr (e, r) ↦ absurd (
          resolve_all_returns groups (keys groups) start (
            r
            ∙ ap err (
                resolve_all-eq-out_of_fuel rank groups ranked _ (keys groups) start e there refl
                  r)))
    ]
