-- ===== src/Examples/Users.antt =====
-- A configuration in which one group extends another, and one with a cycle.
use ktest.Prelude.{
  ℕ, ◌≡◌, ◌≢◌, refl, true, false, Bool, List, [], ◌∷◌, none, some, arith, eq_iff, Bool-cases, inl,
  inr, ◌==◌, is_some, if◌then◌else◌,
}
use ktest.Prelude.Result.{ok, err}
use ktest.Text.{Text, lit, text_eq}
use ktest.BTreeMap.{get}
use ktest.Users.{
  Userrc, RawTestGroup, ConfigError, cycle, out_of_fuel, userrc_of_raw, flatten, RcTestGroup,
  rc_branches,
}
use ktest.Users.Laws.{IsFaithful, userrc_of_raw-IsFaithful}
use ktest.Users.Termination.{userrc_of_raw-ne-out_of_fuel}
use ktest.Users.Acyclic.{IsRanked, RefersWithin, userrc_of_raw-eq-ok}
use ktest.Examples.Data.{userrc, cyclic, groups, base_group, lockdep_group}

userrc_of_raw-ne-out_of_fuel_example : userrc_of_raw cyclic ≢ err out_of_fuel
userrc_of_raw-ne-out_of_fuel_example = userrc_of_raw-ne-out_of_fuel cyclic

found_cycle : userrc_of_raw cyclic ≡ err (cycle (lit "base" ∷ lit "lockdep" ∷ []) (lit "base"))
unfolding userrc_of_raw ktest.Users.resolve_all ktest.Users.resolve_group get ktest.Prelude.contains
    ktest.Text.text_beq
found_cycle = refl

abbrev lockdep_rank : Text → ℕ
lockdep_rank name = if name == lit "lockdep" then 1 else 0

userrc-IsRanked : IsRanked lockdep_rank groups
unfolding get ktest.Text.text_beq
userrc-IsRanked n p g e x = elim (Bool-cases (lit "base" == n)) [
  | inl h ↦ absurd (ground (arith, h))
  | inr h ↦ elim (Bool-cases (lit "lockdep" == n)) [
    | inl k ↦
        let is_base : lit "base" ≡ p = ground (arith, h, k) in
        let is_lockdep : lit "lockdep" ≡ n = (eq_iff (lit "lockdep") n).0 k in
        rw (← is_base, ← is_lockdep) (refl, omega arith)
    | inr k ↦ absurd (ground (arith, h, k))
  ]
]

userrc-RefersWithin : RefersWithin userrc
unfolding get ktest.Text.text_beq
userrc-RefersWithin = ((refl, (refl, tt)), tt)

userrc_of_raw-eq-ok_example : (u : Userrc) × (userrc_of_raw userrc ≡ ok u)
userrc_of_raw-eq-ok_example =
    userrc_of_raw-eq-ok lockdep_rank userrc userrc-IsRanked userrc-RefersWithin

abbrev resolved_base : RcTestGroup
resolved_base = flatten base_group none

abbrev resolved : Userrc
resolved = record {
  test_groups =
      (lit "base", resolved_base)
      ∷ (lit "lockdep", flatten lockdep_group (some resolved_base))
      ∷ [];
  branches = rc_branches userrc.branches;
}

userrc_of_raw-IsFaithful_example : IsFaithful userrc resolved
unfolding userrc_of_raw ktest.Users.resolve_all ktest.Users.resolve_group get ktest.Prelude.contains
    ktest.Text.text_beq ktest.BTreeMap.insert ktest.Users.check_branches ktest.Users.check_groups
    ktest.Text.cmp
userrc_of_raw-IsFaithful_example = userrc_of_raw-IsFaithful userrc resolved refl
