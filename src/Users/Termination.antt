-- ===== src/Users/Termination.antt =====
-- The resolver always returns: one more than the number of groups is enough fuel.
use ktest.Prelude.{
  ℕ, zero, suc, ◌≡◌, ◌≢◌, false, List, [], ◌∷◌, some, arith, ◌<◌, ◌≤◌, if◌then◌else◌, contains,
  length, eq_iff, ◌+◌, Option-cases, inl, inr, ◌∙◌,
}
use ktest.Prelude.Result.{ok, err, Result-cases}
use ktest.Text.{Text, text_eq}
use ktest.BTreeMap.{BTreeMap, get, keys}
use ktest.Users.{
  RawTestGroup, Progress, push, out_of_fuel, resolve_group, resolve_all, RawUserrc, RawBranch,
  RcTestGroup, check_groups, check_branches, userrc_of_raw,
}

-- How many groups are not on the stack.
unvisited : BTreeMap RawTestGroup → List Text → ℕ
unvisited [] stack = 0
unvisited ((n, g) ∷ m) stack = (if contains stack n then 0 else 1) + unvisited m stack

unvisited-le-length : (m : BTreeMap RawTestGroup) (stack : List Text) → unvisited m stack ≤ length m
unfolding unvisited
unvisited-le-length [] stack = omega arith
unvisited-le-length ((n, g) ∷ m) stack = ground (arith, unvisited-le-length m stack)

unvisited-push-le :
    (m : BTreeMap RawTestGroup) (name : Text) (stack : List Text)
    → unvisited m (name ∷ stack) ≤ unvisited m stack
unfolding unvisited contains
unvisited-push-le [] name stack = omega arith
unvisited-push-le ((n, g) ∷ m) name stack = ground (arith, unvisited-push-le m name stack)

unvisited-push :
    (m : BTreeMap RawTestGroup) (name : Text) (stack : List Text) (g : RawTestGroup)
    → get name m ≡ some g
    → contains stack name ≡ false
    → unvisited m (name ∷ stack) < unvisited m stack
unfolding unvisited contains get
unvisited-push [] name stack g h c = cc
unvisited-push ((n, g') ∷ m) name stack g h c = ground (
  arith,
  eq_iff n name,
  eq_iff name n,
  unvisited-push m name stack g,
  unvisited-push-le m name stack,
)

module _ (raw : BTreeMap RawTestGroup) where
  resolve_group-ne-out_of_fuel :
      (fuel : ℕ) (name : Text) (s : Progress)
      → unvisited raw s.stack < fuel
      → resolve_group raw fuel name s ≢ err out_of_fuel
  unfolding resolve_group
  resolve_group-ne-out_of_fuel zero name s h = elim h [ ]
  resolve_group-ne-out_of_fuel (suc fuel) name s h = elim (Option-cases (get name raw)) [
    | inl e ↦ ground arith
    | inr (g, e) ↦ elim (Option-cases g.extends) [
      | inl e' ↦ ground arith
      | inr (p, e') ↦ ground (
        arith,
        unvisited-push raw name s.stack g,
        resolve_group-ne-out_of_fuel fuel p (push name s),
      )
    ]
  ]

  -- A group that resolves leaves the stack as it was.
  pub resolve_group-stack :
      (fuel : ℕ) (name : Text) (s s' : Progress)
      → resolve_group raw fuel name s ≡ ok s'
      → s'.stack ≡ s.stack
  unfolding resolve_group
  resolve_group-stack zero name s s' h = cc
  resolve_group-stack (suc fuel) name s s' h = elim (Option-cases (get name raw)) [
    | inl e ↦ ground arith
    | inr (g, e) ↦ elim (Option-cases g.extends) [
      | inl e' ↦ ground arith
      | inr (p, e') ↦ elim (Result-cases (resolve_group raw fuel p (push name s))) [
        | inl (t, r) ↦ ground (arith, resolve_group-stack fuel p (push name s) t r)
        | inr (x, r) ↦ ground arith
      ]
    ]
  ]

  resolve_all-ne-out_of_fuel :
      (fuel : ℕ) (names : List Text) (s : Progress)
      → unvisited raw s.stack < fuel
      → resolve_all raw fuel names s ≢ err out_of_fuel
  unfolding resolve_all
  resolve_all-ne-out_of_fuel fuel [] s h = cc
  resolve_all-ne-out_of_fuel fuel (name ∷ names) s h =
      elim (Result-cases (resolve_group raw fuel name s)) [
        | inl (t, r) ↦
            rw r
              (resolve_all-ne-out_of_fuel fuel names t (rw (resolve_group-stack fuel name s t r) h))
        | inr (x, r) ↦ rw r (λ e. resolve_group-ne-out_of_fuel fuel name s h (r ∙ e))
      ]

  -- The names of the groups all resolve, or an error of the configuration is reported.
  pub resolve_all_returns :
      (names : List Text) (s : Progress)
      → resolve_all raw (suc (length raw)) names s ≢ err out_of_fuel
  resolve_all_returns names s =
      resolve_all-ne-out_of_fuel (suc (length raw)) names s
        (omega (arith, unvisited-le-length raw s.stack))

check_groups-ne-out_of_fuel :
    (m : BTreeMap RcTestGroup) (bname : Text) (tgs : List Text)
    → check_groups m bname tgs ≢ err out_of_fuel
unfolding check_groups
check_groups-ne-out_of_fuel m bname [] = cc
check_groups-ne-out_of_fuel m bname (tg ∷ tgs) =
    ground (arith, check_groups-ne-out_of_fuel m bname tgs)

check_branches-ne-out_of_fuel :
    (m : BTreeMap RcTestGroup) (bs : BTreeMap RawBranch) → check_branches m bs ≢ err out_of_fuel
unfolding check_branches
check_branches-ne-out_of_fuel m [] = cc
check_branches-ne-out_of_fuel m ((bname, b) ∷ bs) =
    elim (Result-cases (check_groups m bname b.test_groups)) [
      | inl (t, r) ↦ rw r (check_branches-ne-out_of_fuel t bs)
      | inr (x, r) ↦ rw r (λ e. check_groups-ne-out_of_fuel m bname b.test_groups (r ∙ e))
    ]

-- The resolver returns on every file, cyclic ones included: the fuel that it starts with never
-- runs out.
pub userrc_of_raw-ne-out_of_fuel : (raw : RawUserrc) → userrc_of_raw raw ≢ err out_of_fuel
unfolding userrc_of_raw
userrc_of_raw-ne-out_of_fuel raw h =
    let start : Progress = record { resolved = []; stack = [] } in
    let groups = raw.test_groups in
    elim (Result-cases (resolve_all groups (suc (length groups)) (keys groups) start)) [
      | inl (s, r) ↦ elim (Result-cases (check_branches s.resolved raw.branches)) [
        | inl (m, q) ↦ absurd (ground arith)
        | inr (x, q) ↦ check_branches-ne-out_of_fuel s.resolved raw.branches (ground arith)
      ]
      | inr (x, r) ↦ resolve_all_returns groups (keys groups) start (ground arith)
    ]
