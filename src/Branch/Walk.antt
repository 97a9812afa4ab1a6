-- ===== src/Branch/Walk.antt =====
-- Which commits `branch_get_results` returns.
use ktest.Prelude.Result.{ok}
use ktest.Config.{Ktestrc}
use ktest.Git.{Git, readable}
use ktest.Prelude.{
  ℕ, zero, suc, ◌+◌, ◌≤◌, ◌<◌, ◌≡◌, refl, ap, sym, subst, Bool, true, false, List, [], ◌∷◌, Option,
  some, arith, is_empty, length, take, map, ltb, Bool-cases, inl, inr, if◌then◌else◌, ◌&&◌,
  length-take-le, filter_map, ◌++◌, ◌-◌, All,
}
use ktest.Text.{Text}
use ktest.Status.{TestResultsMap}
use ktest.Branch.{
  CommitResults, results_at, collect, drop_empty_end, listed_commits, branch_or_commit,
  branch_get_results, depth_of, with_message,
}

-- The end of a list has tests, or the list is empty.
unfoldable pub EndsWithTests : List CommitResults → Type 0
EndsWithTests [] = Unit
EndsWithTests (r ∷ rs) = elim rs [ [] ↦ is_empty r.tests ≡ false | _ ∷ _ ↦ EndsWithTests rs ]

drop_empty_end-EndsWithTests : (rs : List CommitResults) → EndsWithTests (drop_empty_end rs)
unfolding drop_empty_end EndsWithTests
drop_empty_end-EndsWithTests [] = tt
drop_empty_end-EndsWithTests (r ∷ rs) = keeps (drop_empty_end rs) (drop_empty_end-EndsWithTests rs)
  where
    keeps :
        (rest : List CommitResults)
        → EndsWithTests rest
        → EndsWithTests (if is_empty rest && is_empty r.tests then [] else r ∷ rest)
    keeps [] h = elim (Bool-cases (is_empty r.tests)) [ inl e ↦ rw e tt | inr e ↦ rw e e ]
    keeps (x ∷ xs) h = h

-- No more than 100 commits without tests in a row, with `nr_empty` already seen.
unfoldable pub HasShortGaps : ℕ → List CommitResults → Type 0
HasShortGaps nr_empty [] = Unit
HasShortGaps nr_empty (r ∷ rs) = elim (is_empty r.tests) [
  | true ↦ (nr_empty < 100) × HasShortGaps (nr_empty + 1) rs
  | false ↦ HasShortGaps 0 rs
]

-- The commit has no results that match.
abbrev pub HasNoTests : CommitResults → Type 0
HasNoTests r = is_empty r.tests ≡ true

-- What is left out after `rs`, with `nr_empty` commits without tests before: 101 commits without
-- tests in a row, or such ones to the end.
abbrev IsGap : ℕ → List CommitResults → List CommitResults → Type 0
IsGap nr_empty [] rest = All HasNoTests (take (101 - nr_empty) rest)
IsGap nr_empty (r ∷ rs) rest = All HasNoTests (take 101 rest)

-- `rs` is where the walk over `all` is cut.
abbrev Cut : ℕ → List CommitResults → List CommitResults → Type 0
Cut nr_empty rs all =
    (rest : List CommitResults) × (all ≡ rs ++ rest)
    × HasShortGaps nr_empty rs
    × IsGap nr_empty rs rest

-- `rs` is the start of `all` with no more than 100 commits without tests in a row and with tests at
-- its end; what follows it in `all` are 101 commits without tests, or such ones to the end.
pub record IsCutOff (rs all : List CommitResults) : Type 0 where
  pub rest : List CommitResults
  pub splits : all ≡ rs ++ rest
  pub short_gaps : HasShortGaps 0 rs
  pub end_tested : EndsWithTests rs
  pub cut : All HasNoTests (take 101 rest)

IsGap-zero : (rs rest : List CommitResults) → IsGap 0 rs rest → All HasNoTests (take 101 rest)
IsGap-zero [] rest h = h
IsGap-zero (r ∷ rs) rest h = h

Cut-at_end : (nr_empty : ℕ) → Cut nr_empty (drop_empty_end []) []
unfolding drop_empty_end HasShortGaps
Cut-at_end nr_empty = ([], refl, tt, take_nil (101 - nr_empty))
  where
    take_nil : (n : ℕ) → All HasNoTests (take n [])
    take_nil zero = tt
    take_nil (suc n) = tt

Cut-tested :
    (nr_empty : ℕ) (r : CommitResults) (rs all : List CommitResults)
    → is_empty r.tests ≡ false
    → Cut 0 (drop_empty_end rs) all
    → Cut nr_empty (drop_empty_end (r ∷ rs)) (r ∷ all)
unfolding HasShortGaps drop_empty_end
Cut-tested nr_empty r rs all e (rest, p, gaps, gap) =
    subst (λ x. Cut nr_empty x (r ∷ all)) (kept (drop_empty_end rs))
      (rest, ap (◌∷◌ r) p, rw (e, HasShortGaps) gaps, IsGap-zero (drop_empty_end rs) rest gap)
  where
    kept :
        (xs : List CommitResults)
        → r ∷ xs ≡ (if is_empty xs && is_empty r.tests then [] else r ∷ xs)
    kept xs = ground (arith, e)

take-HasNoTests :
    (n k : ℕ) (r : CommitResults) (rest : List CommitResults)
    → n ≡ suc k
    → HasNoTests r
    → All HasNoTests (take k rest)
    → All HasNoTests (take n (r ∷ rest))
take-HasNoTests n k r rest p e h = rw p (e, h)

Cut-far :
    (nr_empty : ℕ) (r : CommitResults) (all : List CommitResults)
    → HasNoTests r
    → nr_empty ≡ 100
    → Cut nr_empty (drop_empty_end []) (r ∷ all)
unfolding drop_empty_end HasShortGaps
Cut-far nr_empty r all e h =
    (r ∷ all, refl, tt, take-HasNoTests (101 - nr_empty) 0 r all (omega arith) e tt)

Cut-untested :
    (nr_empty : ℕ) (r : CommitResults) (rs all : List CommitResults)
    → HasNoTests r
    → nr_empty < 100
    → Cut (nr_empty + 1) (drop_empty_end rs) all
    → Cut nr_empty (drop_empty_end (r ∷ rs)) (r ∷ all)
unfolding HasShortGaps drop_empty_end
Cut-untested nr_empty r rs all e h = step (drop_empty_end rs)
  where
    step :
        (xs : List CommitResults)
        → Cut (nr_empty + 1) xs all
        → Cut nr_empty (if is_empty xs && is_empty r.tests then [] else r ∷ xs) (r ∷ all)
    step [] (rest, p, gaps, gap) = rw e (
      r ∷ rest,
      ap (◌∷◌ r) p,
      tt,
      take-HasNoTests (101 - nr_empty) (101 - (nr_empty + 1)) r rest (omega arith) e gap,
    )
    step (x ∷ xs) (rest, p, gaps, gap) = (rest, ap (◌∷◌ r) p, rw (e, HasShortGaps) (h, gaps), gap)

module _ (read : Text → Option TestResultsMap) (matches : Text → Bool) where
  abbrev all_results : List (Text × Text) → List CommitResults
  all_results cs = map (results_at read matches) cs

  collect-Cut :
      (depth : ℕ) (cs : List (Text × Text)) (nr_empty nr_commits : ℕ)
      → nr_commits + length cs ≤ depth
      → nr_empty ≤ 100
      → Cut nr_empty
          (drop_empty_end (collect read matches depth cs nr_empty nr_commits))
          (all_results cs)
  unfolding collect HasShortGaps
  collect-Cut depth [] nr_empty nr_commits h g = Cut-at_end nr_empty
  collect-Cut depth (c ∷ cs) nr_empty nr_commits h g =
      let r = results_at read matches c in
      let room : ltb depth (nr_commits + 1) ≡ false = ground arith in
      elim (Bool-cases (is_empty r.tests)) [
        | inr e ↦
            let rs = collect read matches depth cs 0 (nr_commits + 1) in
            let step : collect read matches depth (c ∷ cs) nr_empty nr_commits ≡ r ∷ rs =
              rw (e, room, collect) refl in
            subst (λ x. Cut nr_empty (drop_empty_end x) (all_results (c ∷ cs))) (sym step)
              (Cut-tested nr_empty r rs (all_results cs) e
                (collect-Cut depth cs 0 (nr_commits + 1) (omega arith) (omega arith)))
        | inl e ↦ elim (Bool-cases (ltb 100 (nr_empty + 1))) [
          | inl far ↦
              let step : collect read matches depth (c ∷ cs) nr_empty nr_commits ≡ [] =
                rw (e, far, collect) refl in
              subst (λ x. Cut nr_empty (drop_empty_end x) (all_results (c ∷ cs))) (sym step)
                (Cut-far nr_empty r (all_results cs) e (ground (arith, far)))
          | inr near ↦
              let rs = collect read matches depth cs (nr_empty + 1) (nr_commits + 1) in
              let step : collect read matches depth (c ∷ cs) nr_empty nr_commits ≡ r ∷ rs =
                rw (e, near, room, collect) refl in
              subst (λ x. Cut nr_empty (drop_empty_end x) (all_results (c ∷ cs))) (sym step)
                (Cut-untested nr_empty r rs (all_results cs) e (ground (arith, near)) (
                  collect-Cut depth cs (nr_empty + 1) (nr_commits + 1) (omega arith)
                    (ground (arith, near))))
        ]
      ]

  module _ {Repo : Type 0} (git : Git Repo) (repo : Repo) (rc : Ktestrc)
      (user branch commit : Option Text) (target id : Text) (walked : List (Option Text))
      (named : branch_or_commit user branch commit ≡ some target)
      (resolved : git.resolve repo target ≡ some id) (walks : git.walk repo id ≡ some walked) where
    -- Where the commit is found and the walk starts, the result is the start of the commits of the
    -- walk that can be read, at most the depth, each with its results that match: its last commit
    -- has some, no more than 100 in a row have none, and what follows it in those commits are 101
    -- commits without any, or such ones to the end.
    pub branch_get_results-IsCutOff :
        (rs : List CommitResults) × (branch_get_results git read repo rc user branch commit matches
          ≡ ok rs)
        × IsCutOff rs (all_results (listed_commits (git.message repo) rc walked))
    unfolding branch_get_results
    branch_get_results-IsCutOff =
        let cs = listed_commits (git.message repo) rc walked in
        let rs = collect read matches (depth_of rc) cs 0 0 in
        let (rest, p, gaps, gap) =
          collect-Cut (depth_of rc) cs 0 0
            (omega (
              arith,
              length-take-le (depth_of rc)
                  (filter_map (with_message (git.message repo)) (filter_map readable walked)),
            ))
            (omega arith) in
        (
          drop_empty_end rs,
          ground (arith, named, resolved, walks),
          record {
            rest = rest;
            splits = p;
            short_gaps = gaps;
            end_tested = drop_empty_end-EndsWithTests rs;
            cut = IsGap-zero (drop_empty_end rs) rest gap;
          },
        )
