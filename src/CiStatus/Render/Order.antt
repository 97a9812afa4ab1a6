-- ===== src/CiStatus/Render/Order.antt =====
-- The order of the tests in the table of a commit.
use Prim.Native.Nat.{Ordering, compare}
use mathlib.Core.List.{Perm}
use ktest.Prelude.{◌≡◌, ◌≢◌, List, [], ◌∷◌, arith, All}
use ktest.Prelude.Cmp.{by_key-IsOrder, compare-IsOrder}
use ktest.Prelude.Cmp.Sort.{sort_by-perm, sort_by-IsSortedBy, IsSortedBy}
use ktest.Status.{TestStatus, passed, from_str}
use ktest.Cgi.{TestEntry, CommitTests}
use ktest.CiStatus.{Calls}
use ktest.CiStatus.Render.{rank, rank_of, by_rank, sorted_tests}

-- Behind a test that passed there are only such.
abbrev pub PassedLast : List TestEntry → Type 0
PassedLast [] = Unit
PassedLast (t ∷ ts) =
    (from_str t.status ≡ passed → All (λ u. from_str u.status ≡ passed) ts) × PassedLast ts

module _ {Repo : Type 0} (calls : Calls Repo) where
  rank_last :
      (s t : TestStatus)
      → s ≡ passed
      → compare (rank calls s) (rank calls t) ≢ Ordering.gt
      → t ≡ passed
  unfolding rank
  rank_last s t p h = ground arith

  passed_behind :
      (t : TestEntry) (ts : List TestEntry)
      → from_str t.status ≡ passed
      → All (λ u. by_rank calls t u ≢ Ordering.gt) ts
      → All (λ u. from_str u.status ≡ passed) ts
  passed_behind t [] p h = tt
  passed_behind t (u ∷ us) p (le, h) =
      (rank_last (from_str t.status) (from_str u.status) p le, passed_behind t us p h)

  PassedLast-sorted : (ts : List TestEntry) → IsSortedBy (by_rank calls) ts → PassedLast ts
  PassedLast-sorted [] h = tt
  PassedLast-sorted (t ∷ ts) (b, h) = (λ p. passed_behind t ts p b, PassedLast-sorted ts h)

  -- The tests of a commit are printed rearranged, in ascending order of their rank, and behind one
  -- that passed there are only such.
  pub sorted_tests-PassedLast :
      (detail : CommitTests)
      → Perm (sorted_tests calls detail) detail.tests
        × IsSortedBy (by_rank calls) (sorted_tests calls detail)
        × PassedLast (sorted_tests calls detail)
  unfolding sorted_tests
  sorted_tests-PassedLast detail =
      let order = by_key-IsOrder (rank_of calls) compare-IsOrder in
      let sorted = sort_by-IsSortedBy (by_rank calls) order detail.tests in
      (
        sort_by-perm (by_rank calls) detail.tests,
        sorted,
        PassedLast-sorted (sorted_tests calls detail) sorted,
      )
