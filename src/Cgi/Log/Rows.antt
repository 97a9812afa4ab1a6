-- ===== src/Cgi/Log/Rows.antt =====
-- The rows of the log page against the commits, and when the page is written.
use ktest.Prelude.{
  ℕ, zero, suc, ◌+◌, ◌≡◌, refl, ap, ◌∙◌, true, false, ◌&&◌, List, [], ◌∷◌, ◌++◌, Option, none, some,
  arith, if◌then◌else◌, nat_beq, is_empty, Bool-cases, inl, inr, map, flat_map,
}
use ktest.Branch.{CommitResults, drop_empty_end}
use ktest.Cgi.Log.{Row, untested, tested, rows}

-- What a row stands for: commits without results, which it only counts, or one commit.
unfoldable pub blanks : ℕ → List (Option CommitResults)
blanks zero = []
blanks (suc n) = none ∷ blanks n

abbrev pub stands_for : Row → List (Option CommitResults)
stands_for (untested n) = blanks n
stands_for (tested r) = some r ∷ []

abbrev pub shown : CommitResults → Option CommitResults
shown r = if is_empty r.tests then none else some r

blanks-shift :
    (n : ℕ) (l : List (Option CommitResults)) → blanks (n + 1) ++ l ≡ blanks n ++ none ∷ l
unfolding blanks
blanks-shift zero l = refl
blanks-shift (suc n) l =
    let one_more : suc n + 1 ≡ suc (n + 1) = omega arith in
    rw one_more (ap (◌∷◌ none) (blanks-shift n l))

abbrev ends : ℕ → List CommitResults → List (Option CommitResults)
ends n kept = if is_empty kept then [] else blanks n ++ map shown kept

ends-zero : (kept : List CommitResults) → ends 0 kept ≡ map shown kept
unfolding blanks
ends-zero [] = refl
ends-zero (r ∷ rs) = refl

ends-untested :
    (n : ℕ) (r : CommitResults) (kept : List CommitResults)
    → is_empty r.tests ≡ true
    → ends (n + 1) kept ≡ ends n (if is_empty kept && is_empty r.tests then [] else r ∷ kept)
ends-untested n r [] e = rw e refl
ends-untested n r (k ∷ kept) e = blanks-shift n (map shown (k ∷ kept)) ∙ rw e refl

ends-tested :
    (n : ℕ) (r : CommitResults) (kept : List CommitResults)
    → is_empty r.tests ≡ false
    → blanks n ++ (some r ∷ map shown kept)
      ≡ ends n (if is_empty kept && is_empty r.tests then [] else r ∷ kept)
ends-tested n r [] e = rw e (rw e refl)
ends-tested n r (k ∷ kept) e = rw e refl

abbrev counted : ℕ → CommitResults → List CommitResults → List Row
counted n r rs = if nat_beq n 0 then tested r ∷ rows 0 rs else untested n ∷ tested r ∷ rows 0 rs

rows-cons :
    (n : ℕ) (r : CommitResults) (rs : List CommitResults)
    → rows n (r ∷ rs) ≡ (if is_empty r.tests then rows (n + 1) rs else counted n r rs)
unfolding rows
rows-cons n r rs = ground arith

counted-stands_for :
    (n : ℕ) (r : CommitResults) (rs : List CommitResults)
    → flat_map stands_for (counted n r rs) ≡ blanks n ++ (some r ∷ flat_map stands_for (rows 0 rs))
unfolding flat_map blanks
counted-stands_for zero r rs = refl
counted-stands_for (suc n) r rs =
    let some_before : nat_beq (suc n) 0 ≡ false = ground arith in rw some_before refl

rows_from :
    (n : ℕ) (rs : List CommitResults) → flat_map stands_for (rows n rs) ≡ ends n (drop_empty_end rs)
unfolding drop_empty_end flat_map rows
rows_from n [] = refl
rows_from n (r ∷ rs) =
    let step = rows-cons n r rs in
    elim (Bool-cases (is_empty r.tests)) [
      | inl e ↦
          let untested_row : rows n (r ∷ rs) ≡ rows (n + 1) rs = ground (arith, e, step) in
          ap (flat_map stands_for) untested_row
          ∙ rows_from (n + 1) rs
          ∙ ends-untested n r (drop_empty_end rs) e
      | inr e ↦
          let tested_row : rows n (r ∷ rs) ≡ counted n r rs = ground (arith, e, step) in
          ap (flat_map stands_for) tested_row
          ∙ counted-stands_for n r rs
          ∙ ap (λ l. blanks n ++ (some r ∷ l)) (rows_from 0 rs ∙ ends-zero (drop_empty_end rs))
          ∙ ends-tested n r (drop_empty_end rs) e
    ]

-- The rows of the log page, each count put as so many commits without results, are the commits in
-- order up to the last one with results.
pub rows-drop_empty_end :
    (commits : List CommitResults)
    → flat_map stands_for (rows 0 commits) ≡ map shown (drop_empty_end commits)
rows-drop_empty_end commits = rows_from 0 commits ∙ ends-zero (drop_empty_end commits)
