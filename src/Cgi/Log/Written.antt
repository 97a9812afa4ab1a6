-- ===== src/Cgi/Log/Written.antt =====
-- When the log page is written.
use ktest.Prelude.{
  ℕ, ◌+◌, ◌≡◌, ◌≤◌, refl, true, List, [], ◌∷◌, ◌++◌, Option, none, some, arith, nat_beq, is_empty,
  leb, is_some, Bool-cases, inl, inr, map, All, All-append, length, take,
}
use ktest.Text.{Text}
use ktest.Status.{TestResultsMap}
use ktest.Branch.{CommitResults}
use ktest.Cgi.{Ci, Outside}
use ktest.Cgi.Log.{
  Row, untested, tested, rows, short_id, pieces, summary_row, single_row, multiple_test_view,
  log_table, log_page, log_head, log_end,
}

abbrev pub IsWritten : Option Text → Type 0
IsWritten t = is_some t ≡ true

pub pieces-IsWritten : (ps : List (Option Text)) → All IsWritten ps → IsWritten (pieces ps)
unfolding pieces
pieces-IsWritten [] h = refl
pieces-IsWritten (none ∷ ps) (w, h) = absurd (ground arith)
pieces-IsWritten (some p ∷ ps) (w, h) = ground (arith, pieces-IsWritten ps h)

pub framed-IsWritten :
    (start end : Text) (ps : List (Option Text))
    → All IsWritten ps
    → IsWritten (pieces (some start ∷ ps ++ (some end ∷ [])))
framed-IsWritten start end ps h =
    pieces-IsWritten (some start ∷ ps ++ (some end ∷ []))
      (refl, All-append IsWritten ps (some end ∷ []) h (refl, tt))

-- A commit's name is long enough to be cut to 14 bytes.
abbrev pub HasLongId : CommitResults → Type 0
HasLongId r = 14 ≤ length r.id

abbrev LongRow : Row → Type 0
LongRow (untested n) = Unit
LongRow (tested r) = HasLongId r

rows-LongRow : (n : ℕ) (rs : List CommitResults) → All HasLongId rs → All LongRow (rows n rs)
unfolding rows
rows-LongRow n [] h = tt
rows-LongRow n (r ∷ rs) (l, h) = elim (Bool-cases (is_empty r.tests)) [
  | inl e ↦ rw (e, rows) (rows-LongRow (n + 1) rs h)
  | inr e ↦ elim (Bool-cases (nat_beq n 0)) [
    | inl z ↦ rw (e, z, rows) (l, rows-LongRow 0 rs h)
    | inr z ↦ rw (e, z, rows) (tt, (l, rows-LongRow 0 rs h))
  ]
]

short_id-long : (r : CommitResults) → HasLongId r → short_id r.id ≡ some (take 14 r.id)
unfolding short_id
short_id-long r h = let long : leb 14 (length r.id) ≡ true = ground arith in rw long refl

module _ {Repo : Type 0} (o : Outside Repo) (ci : Ci Repo) (branch user : Text)
    (known : ci.user ≡ some user) where
  summary_row-IsWritten : (r : Row) → LongRow r → IsWritten (summary_row o ci branch r)
  unfolding summary_row
  summary_row-IsWritten (untested n) h = refl
  summary_row-IsWritten (tested r) h = ground (arith, known, short_id-long r h)

  single_row-IsWritten : (r : Row) → LongRow r → IsWritten (single_row o ci branch r)
  unfolding single_row
  single_row-IsWritten (untested n) h = refl
  single_row-IsWritten (tested r) h = of_tests r.tests
    where
      of_tests :
          (tests : TestResultsMap)
          → IsWritten (single_row o ci branch (tested (record r { tests = tests })))
      of_tests [] = refl
      of_tests (t ∷ ts) = ground (arith, known, short_id-long r h)

  map-IsWritten :
      (row : Row → Option Text) (rs : List Row)
      → ((r : Row) → LongRow r → IsWritten (row r))
      → All LongRow rs
      → All IsWritten (map row rs)
  map-IsWritten row [] w h = tt
  map-IsWritten row (r ∷ rs) w (l, h) = (w r l, map-IsWritten row rs w h)

  log_table-IsWritten :
      (commits : List CommitResults)
      → All HasLongId commits
      → All IsWritten (log_table o ci branch commits)
  unfolding log_table
  log_table-IsWritten commits h =
      let long = rows-LongRow 0 commits h in
      elim (Bool-cases (multiple_test_view commits)) [
        | inl e ↦ rw e (
          refl,
          map-IsWritten (summary_row o ci branch) (rows 0 commits) summary_row-IsWritten long,
        )
        | inr e ↦ rw e (
          refl,
          map-IsWritten (single_row o ci branch) (rows 0 commits) single_row-IsWritten long,
        )
      ]

  pub log_page-IsWritten :
      (commits : List CommitResults)
      → All HasLongId commits
      → IsWritten (log_page o ci branch commits)
  unfolding log_page
  log_page-IsWritten commits h =
      framed-IsWritten (log_head o ci branch commits) (log_end o ci) (log_table o ci branch commits)
        (log_table-IsWritten commits h)
