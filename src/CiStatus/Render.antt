-- ===== src/CiStatus/Render.antt =====
-- The tables that the terminal client prints: `render_log` and `render_show`.
pub mod Slices
pub mod Order
use Prim.Native.Nat.{Ordering, compare}
use ktest.Prelude.{
  ℕ, zero, suc, ◌≡◌, Bool, true, false, List, [], ◌∷◌, ◌++◌, Option, none, some, if◌then◌else◌,
  is_empty, length, ltb, leb, map, keep_if,
}
use ktest.Prelude.Cmp.{by_key}
use ktest.Prelude.Cmp.Sort.{sort_by}
use ktest.Text.{Text, lit}
use ktest.Status.{
  TestStatus, in_progress, passed, failed, notrun, failed_to_run, unknown, status_beq, from_str,
}
use ktest.Branch.{BranchEntry, format_duration, sum64}
use ktest.Cgi.{TestEntry, CommitTests, line}
use ktest.Cgi.Log.{pieces}
use ktest.CiStatus.{
  Calls, Ran, Failure, panic, prints, fails, or_panic, color_passed, color_failed, color_status,
  slice_to, pad_left, pad_right, first_line,
}

abbrev dashes : ℕ → Text
dashes zero = []
dashes (suc n) = b'-' ∷ dashes n

-- The subject of a commit in 50 bytes at most, and its name in 12.
unfoldable pub subject_cell : Text → Option Text
unfolding slice_to first_line
subject_cell message =
    let subject = first_line message in
    if ltb 50 (length subject) then slice_to 50 subject else some subject

unfoldable pub commit_cell : Text → Option Text
unfolding slice_to
commit_cell id = if leb 12 (length id) then slice_to 12 id else some id

module _ {Repo : Type 0} (calls : Calls Repo) where
  abbrev pub columns : Text → Text → Text → Text → Text → Text → Text → Text
  columns commit pass fail ftrun inpro duration message = line (
      pad_right 14 commit
      ++ (lit " "
          ++ (pad_left 6 pass
              ++ (lit " "
                  ++ (pad_left 6 fail
                      ++ (lit " "
                          ++ (pad_left 6 ftrun
                              ++ (lit " "
                                  ++ (pad_left 6 inpro
                                      ++ (lit " "
                                          ++ (pad_left 8 duration
                                              ++ (lit "  " ++ message))))))))))))

  unfoldable pub log_line : BranchEntry → Option Text
  unfolding subject_cell commit_cell pad_left pad_right format_duration
  log_line e = elim (subject_cell e.message) [
    | none ↦ none
    | some subject ↦ elim (commit_cell e.commit_id) [
      | none ↦ none
      | some commit ↦ some (
          columns commit
            (if ltb 0 e.passed
              then color_passed (calls.decimal e.passed)
              else calls.decimal e.passed)
            (if ltb 0 e.failed
              then color_failed (calls.decimal e.failed)
              else calls.decimal e.failed)
            (calls.decimal e.failed_to_run) (calls.decimal e.inprogress)
            (format_duration calls.decimal calls.tenths e.duration) subject)
    ]
  ]

  abbrev pub log_header : Text
  log_header =
      columns (lit "COMMIT") (lit "PASS") (lit "FAIL") (lit "FTRUN") (lit "INPRO") (lit "DURATION")
        (lit "MESSAGE")
      ++ line (dashes 80)

  unfoldable pub render_log : List BranchEntry → Text → Bool → Ran
  unfolding log_line pieces
  render_log entries branch json =
      if json
      then prints (line (calls.print_entries entries))
      else if is_empty entries
      then prints (line (lit "No results for " ++ branch))
      else or_panic (pieces (some log_header ∷ map log_line entries))

  -- `sort_by_key`.
  unfoldable pub rank : TestStatus → ℕ
  rank failed = 0
  rank in_progress = 1
  rank notrun = 2
  rank unknown = 3
  rank failed_to_run = 4
  rank passed = 5

  abbrev pub rank_of : TestEntry → ℕ
  rank_of t = rank (from_str t.status)

  abbrev pub by_rank : TestEntry → TestEntry → Ordering
  by_rank = by_key rank_of compare

  unfoldable pub sorted_tests : CommitTests → List TestEntry
  unfolding rank
  sorted_tests detail = sort_by by_rank detail.tests

  unfoldable pub show_line : Text → Text → Text → Text
  unfolding pad_left pad_right
  show_line name status duration =
      line
        (pad_right 60 name ++ (lit " " ++ (pad_left 12 status ++ (lit " " ++ pad_left 8 duration))))

  unfoldable pub test_line : TestEntry → Text
  unfolding color_status show_line format_duration
  test_line t =
      show_line t.name (color_status (from_str t.status))
        (format_duration calls.decimal calls.tenths t.duration)

  unfoldable pub count_tests : List TestEntry → TestStatus → ℕ
  count_tests tests s = length (keep_if (λ t. status_beq (from_str t.status) s) tests)

  abbrev pub lines_of : List TestEntry → Text
  lines_of [] = []
  lines_of (t ∷ ts) = test_line t ++ lines_of ts

  unfoldable pub totals_line : List TestEntry → Text
  unfolding count_tests sum64 format_duration
  totals_line tests = line (
      calls.decimal (length tests)
      ++ (lit " total: "
          ++ (color_passed (calls.decimal (count_tests tests passed))
              ++ (lit " passed, "
                  ++ (color_failed (calls.decimal (count_tests tests failed))
                      ++ (lit " failed, "
                          ++ (calls.decimal (count_tests tests in_progress)
                              ++ (lit " in progress, "
                                  ++ format_duration calls.decimal calls.tenths
                                      (sum64 (map (λ t. t.duration) tests))))))))))

  abbrev pub subject_lines : CommitTests → Text
  subject_lines detail =
      if is_empty detail.message
      then []
      else line (detail.commit ++ (lit " " ++ first_line detail.message)) ++ line []

  unfoldable pub render_show : CommitTests → Bool → Ran
  unfolding sorted_tests totals_line first_line show_line test_line
  render_show detail json =
      if json
      then prints (line (calls.print_commit detail))
      else prints (
          subject_lines detail
          ++ (if is_empty detail.tests
              then line (lit "No test results for " ++ detail.commit)
              else show_line (lit "TEST") (lit "STATUS") (lit "DURATION")
                ++ (line (dashes 82)
                    ++ (lines_of (sorted_tests detail) ++ (line [] ++ totals_line detail.tests)))))
