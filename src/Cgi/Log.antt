-- ===== src/Cgi/Log.antt =====
-- `ci_log` (src/bin/cgi.rs): the page of a branch.
pub mod Rows
pub mod Written
use ktest.Prelude.{
  ℕ, ◌+◌, ◌/◌, ◌≡◌, Bool, true, false, ◌||◌, not, List, [], ◌∷◌, ◌++◌, Option, none, some,
  if◌then◌else◌, is_empty, length, nat_beq, ltb, leb, take, keep_if, map, ◌==◌, or_else,
}
use ktest.Prelude.Result.{Result, ok, err}
use ktest.Text.{Text, lit, text_eq}
use ktest.BTreeMap.{values}
use ktest.Status.{
  TestStatus, in_progress, passed, failed, notrun, failed_to_run, unknown, status_beq, TestResult,
  TestResultsMap, to_str, table_class,
}
use ktest.Branch.{CommitResults, branch_entries, format_duration, sum64}
use ktest.Cgi.{
  Ci, Outside, Response, json_response, line, page, panicked, ci_branch_get_results,
  failed_response, search_form, SingleTestStats, single_test_stats, Value,
}

-- `message.find('\n').unwrap_or(message.len())` and the slice up to there.
unfoldable pub subject : Text → Text
subject [] = []
subject (c ∷ s) = let rest = subject s in if nat_beq c b'\n' then [] else c ∷ rest

-- The first 14 bytes of a commit's name; the slice panics on a shorter name.
unfoldable pub short_id : Text → Option Text
short_id id = if leb 14 (length id) then some (take 14 id) else none

-- A row of the table: a commit with results, or how many there are without before the next one.
pub data Row : Type 0 where
  untested : ℕ → Row
  tested : CommitResults → Row

-- The loop over the commits, which both views have.
unfoldable pub rows : ℕ → List CommitResults → List Row
rows nr_empty [] = []
rows nr_empty (r ∷ rs) = elim (is_empty r.tests) [
  | true ↦ rows (nr_empty + 1) rs
  | false ↦
      if nat_beq nr_empty 0 then tested r ∷ rows 0 rs else untested nr_empty ∷ tested r ∷ rows 0 rs
]

abbrev pub count : TestResultsMap → TestStatus → ℕ
count tests t = length (keep_if (λ p. status_beq p.1.status t) tests)

-- The pieces of the page, one after the other, if none of them panics.
unfoldable pub pieces : List (Option Text) → Option Text
pieces [] = some []
pieces (none ∷ ps) = none
pieces (some p ∷ ps) = elim (pieces ps) [ none ↦ none | some rest ↦ some (p ++ rest) ]

abbrev pub cell : Text → Text
cell t = line (lit "<td> " ++ (t ++ lit " </td>"))

module _ {Repo : Type 0} (o : Outside Repo) (ci : Ci Repo) (branch : Text) where
  unfoldable pub untested_row : ℕ → Text
  untested_row n = line (lit "<tr> <td> (" ++ (o.decimal n ++ lit " untested commits) </td> </tr>"))

  unfoldable pub commit_link : Text → CommitResults → Text → Text
  commit_link user r short = line (
      lit "<td> <a href=\""
      ++ (ci.script_name
          ++ (lit "?user="
              ++ (user
                  ++ (lit "&branch="
                      ++ (branch
                          ++ (lit "&commit="
                              ++ (r.id ++ (lit "\">" ++ (short ++ lit "</a> </td>"))))))))))

  -- A row of the view with several tests to a commit.
  unfoldable pub summary_row : Row → Option Text
  unfolding untested_row commit_link short_id subject
  summary_row (untested n) = some (untested_row n)
  summary_row (tested r) = elim ci.user [
    | none ↦ none
    | some user ↦ elim (short_id r.id) [
      | none ↦ none
      | some short ↦ some (
          line (lit "<tr>")
          ++ (commit_link user r short
              ++ (cell (subject r.message)
                  ++ (cell (o.decimal (count r.tests passed))
                      ++ (cell (o.decimal (count r.tests failed))
                          ++ (cell (o.decimal (count r.tests failed_to_run))
                              ++ (cell (o.decimal (count r.tests notrun))
                                  ++ (cell (o.decimal (count r.tests in_progress))
                                      ++ (cell (o.decimal (count r.tests unknown))
                                          ++ (cell (o.decimal (length r.tests))
                                              ++ (cell (
                                                    o.decimal (
                                                      sum64
                                                        (map (λ t. t.duration) (values r.tests)))
                                                    ++ lit "s")
                                                  ++ line (lit "</tr>"))))))))))))
    ]
  ]

  -- A row of the view with one test to a commit: the first one.
  unfoldable pub single_row : Row → Option Text
  unfolding untested_row commit_link short_id subject
  single_row (untested n) = some (untested_row n)
  single_row (tested r) = elim r.tests [
    | [] ↦ some []
    | t ∷ ts ↦ elim ci.user [
      | none ↦ none
      | some user ↦ elim (short_id r.id) [
        | none ↦ none
        | some short ↦ some (
            line (lit "<tr class=" ++ (table_class t.1.status ++ lit ">"))
            ++ (commit_link user r short
                ++ (cell (subject r.message)
                    ++ (cell (to_str t.1.status)
                        ++ (cell (o.decimal t.1.duration ++ lit "s")
                            ++ (line (
                                  lit "<td> <a href=c/"
                                  ++ (r.id
                                      ++ (lit "/"
                                          ++ (t.0
                                              ++ lit
                                                  "/log.br>        log                 </a> </td>"))))
                                ++ (line (
                                      lit "<td> <a href=c/"
                                      ++ (r.id
                                          ++ (lit "/"
                                              ++ (t.0
                                                  ++ lit
                                                      "/full_log.br>   full log            </a> </td>"))))
                                    ++ (line (
                                          lit "<td> <a href=c/"
                                          ++ (r.id
                                              ++ (lit "/"
                                                  ++ (t.0
                                                      ++ lit
                                                          ">\t\t        output directory    </a> </td>"))))
                                        ++ line (lit "</tr>")))))))))
      ]
    ]
  ]

-- `multiple_test_view`.
unfoldable pub multiple_test_view : List CommitResults → Bool
multiple_test_view [] = false
multiple_test_view (r ∷ rs) = ltb 1 (length r.tests) || multiple_test_view rs

abbrev pub summary_head : Text
summary_head =
    line (lit "<tr>")
    ++ (line (lit "<th> Commit      </th>")
        ++ (line (lit "<th> Description </th>")
            ++ (line (lit "<th> Passed      </th>")
                ++ (line (lit "<th> Failed      </th>")
                    ++ (line (lit "<th> Failed to run </th>")
                        ++ (line (lit "<th> Not run     </th>")
                            ++ (line (lit "<th> In progress </th>")
                                ++ (line (lit "<th> Unknown     </th>")
                                    ++ (line (lit "<th> Total       </th>")
                                        ++ (line (lit "<th> Duration    </th>")
                                            ++ line (lit "</tr>")))))))))))

abbrev pub single_head : Text
single_head =
    line (lit "<tr>")
    ++ (line (lit "<th> Commit      </th>")
        ++ (line (lit "<th> Description </th>")
            ++ (line (lit "<th> Status      </th>")
                ++ (line (lit "<th> Duration    </th>") ++ line (lit "</tr>")))))

abbrev pub stylesheet_link : Text → Text
stylesheet_link s = line (lit "<link href=\"" ++ (s ++ lit "\" rel=\"stylesheet\">"))

module _ {Repo : Type 0} (o : Outside Repo) (ci : Ci Repo) where
  -- The line on the runs of a single test, where the request has a pattern.
  unfoldable pub stats_line : List CommitResults → Text
  unfolding single_test_stats format_duration
  stats_line commits =
      if is_empty ci.tests_matching.as_str then [] else elim (single_test_stats commits) [
        | none ↦ []
        | some stats ↦ line (
            lit "<p><strong>"
            ++ (o.decimal stats.completed
                ++ (lit " completed runs</strong>: "
                    ++ (o.decimal stats.passed
                        ++ (lit " passed ("
                            ++ (o.percent stats.passed stats.completed
                                ++ (lit "%), "
                                    ++ (o.decimal stats.failed
                                        ++ (lit " failed ("
                                            ++ (o.percent stats.failed stats.completed
                                                ++ (lit "%); average duration "
                                                    ++ (format_duration o.decimal o.tenths
                                                          (stats.duration / stats.completed)
                                                        ++ lit "</p>"))))))))))))
      ]

  unfoldable pub log_head : Text → List CommitResults → Text
  unfolding search_form stats_line
  log_head branch commits =
      line (lit "<!DOCTYPE HTML>")
      ++ (line (lit "<html><head><title>" ++ (branch ++ lit "</title></head>"))
          ++ (stylesheet_link ci.stylesheet
              ++ (line (lit "<body>")
                  ++ (line (lit "<div class=\"container\">")
                      ++ (search_form ci
                          ++ (stats_line commits ++ line (lit "<table class=\"table\">")))))))

  unfoldable pub log_table : Text → List CommitResults → List (Option Text)
  unfolding multiple_test_view rows summary_row single_row
  log_table branch commits =
      if multiple_test_view commits
      then some summary_head ∷ map (summary_row o ci branch) (rows 0 commits)
      else some single_head ∷ map (single_row o ci branch) (rows 0 commits)

  abbrev pub log_end : Text
  log_end =
      line (lit "</table>")
      ++ (line (lit "</div>") ++ (line (lit "</body>") ++ line (lit "</html>")))

  unfoldable pub log_page : Text → List CommitResults → Option Text
  unfolding log_head log_table pieces
  log_page branch commits =
      pieces (some (log_head branch commits) ∷ log_table branch commits ++ (some log_end ∷ []))

  unfoldable pub ci_log : Response
  unfolding ci_branch_get_results failed_response json_response branch_entries log_page
  ci_log = elim ci.branch [
    | none ↦ panicked
    | some branch ↦ elim (ci_branch_get_results o ci) [
      | err e ↦ failed_response o ci e
      | ok commits ↦
          if ci.json
          then json_response (Value.branch_entries (branch_entries commits))
          else page (log_page branch commits)
    ]
  ]
