-- ===== src/Cgi/Commit.antt =====
-- `ci_commit` (src/bin/cgi.rs): the page of a commit. The style sheet and the filter of the page
-- are parameters: constant texts.
pub mod Panics
use ktest.Prelude.{
  ℕ, ◌≡◌, Bool, true, false, List, [], ◌∷◌, ◌++◌, Option, none, some, if◌then◌else◌, map, contains,
  ◌==◌,
}
use ktest.Prelude.Result.{Result, ok, err}
use ktest.Text.{Text, lit, text_eq}
use ktest.Status.{TestResult, to_str, table_class}
use ktest.Branch.{CommitResults, last_good_line}
use ktest.Files.Lcov.{LcovEnd, done, gave_up, no_tool, update_lcov}
use ktest.Cgi.{
  CommitFiles, Ci, Outside, Response, json_response, line, page, panicked, ci_branch_get_results,
  failed_response, search_form, Value, CommitTests, TestEntry,
}
use ktest.Cgi.Log.{subject, pieces, stylesheet_link}

-- A cell with a link that loads a log into the page.
unfoldable pub log_link : Text → Text → Text
log_link fname link =
    let onclick =
      lit "fetch('"
      ++ (fname
          ++ lit
              "')\n    .then(response => response.text())\n    .then(text => {\n        document.getElementById('testlog').textContent = text;\n  });\n  return false;\n") in
    line (
      lit "<td> <a href="
      ++ (fname ++ (lit " onclick=\"" ++ (onclick ++ (lit "\"> " ++ (link ++ lit " </a> </td>"))))))

abbrev pub test_entry : Text × TestResult → TestEntry
test_entry t = record { name = t.0; status = to_str t.1.status; duration = t.1.duration }

unfoldable pub commit_json : CommitResults → CommitTests
commit_json r = record { commit = r.id; message = r.message; tests = map test_entry r.tests }

-- The page, unless the update of the coverage ended in a panic.
unfoldable pub lcov_response : LcovEnd → Option Text → Response
lcov_response no_tool written = panicked
lcov_response done written = page written
lcov_response gave_up written = page written

module _ {Repo : Type 0} (o : Outside Repo) (css filter : Text) (ci : Ci Repo) where
  -- The link to the history of a test, where the request names a branch.
  unfoldable pub history_cell : Text → Option Text
  history_cell name = elim ci.branch [
    | none ↦ some []
    | some branch ↦ elim ci.user [
      | none ↦ none
      | some user ↦ some (
          line (
            lit "<td> <a href="
            ++ (ci.script_name
                ++ (lit "?user="
                    ++ (user
                        ++ (lit "&branch="
                            ++ (branch
                                ++ (lit "&test=^"
                                    ++ (name ++ lit "$> git log        </a> </td>")))))))))
    ]
  ]

  unfoldable pub test_row : List CommitResults → CommitResults → Text × TestResult → Option Text
  unfolding log_link last_good_line history_cell
  test_row commits first_commit t = elim (history_cell t.0) [
    | none ↦ none
    | some history ↦ some (
        line (lit "<tr class=" ++ (table_class t.1.status ++ lit ">"))
        ++ (log_link (lit "c/" ++ (first_commit.id ++ (lit "/" ++ (t.0 ++ lit "/log.br")))) t.0
            ++ (line (lit "<td> " ++ (o.decimal t.1.duration ++ lit "s </td>"))
                ++ (line (lit "<td> " ++ (to_str t.1.status ++ lit "  </td>"))
                    ++ (line
                          (lit "<td> " ++ (last_good_line o.decimal commits t.0 ++ lit "  </td>"))
                        ++ (history
                            ++ (log_link
                                  (lit "c/"
                                    ++ (first_commit.id
                                        ++ (lit "/" ++ (t.0 ++ lit "/full_log.br"))))
                                  (lit "full")
                                ++ line (lit "</tr>"))))))))
  ]

  unfoldable pub commit_head : Bool → CommitResults → Text
  unfolding search_form subject
  commit_head has_lcov first_commit =
      line (lit "<!DOCTYPE HTML>")
      ++ (css
          ++ (line (lit "<div class=\"header\">")
              ++ (line (
                    lit "<html><head><title>"
                    ++ (subject first_commit.message ++ lit "</title></head>"))
                  ++ (stylesheet_link ci.stylesheet
                      ++ (line (lit "<body>")
                          ++ (line (lit "<div class=\"toplevel-container\">")
                              ++ (line (
                                    lit "<h3><th>"
                                    ++ (subject first_commit.message ++ lit "</th></h3>"))
                                  ++ (search_form ci
                                      ++ ((if has_lcov
                                            then line (
                                                lit "<p> <a href=c/"
                                                ++ (first_commit.id
                                                    ++ lit "/lcov> Code coverage </a> </p>"))
                                            else [])
                                          ++ (filter
                                              ++ (line (lit "</div>")
                                                  ++ (line
                                                        (lit "<div class=\"horizontal-container\">")
                                                      ++ (line (lit "<div class=\"horizontal\">")
                                                          ++ line (
                                                            lit
                                                            "<table class=\"table no-wrap\">"))))))))))))))

  abbrev pub commit_end : Text
  commit_end =
      line (lit "</table>")
      ++ (line (lit "</div>")
          ++ (line (lit "<div class=\"horizontal\">")
              ++ (line (lit " <pre id=\"testlog\"></pre> ")
                  ++ (line (lit "</div>")
                      ++ (line (lit "<script>update_filter()</script>")
                          ++ (line (lit "</div>")
                              ++ (line (lit "</body>") ++ line (lit "</html>"))))))))

  unfoldable pub commit_page : Bool → List CommitResults → CommitResults → Option Text
  unfolding commit_head test_row pieces
  commit_page has_lcov commits first_commit = pieces (
      some (commit_head has_lcov first_commit)
        ∷ map (test_row commits first_commit) first_commit.tests
      ++ (some commit_end ∷ []))

  abbrev pub set_files : Text → List Text → CommitFiles
  set_files commit names = λ c. if c == commit then names else o.files c

  -- The page, after the coverage of the commit was updated.
  unfoldable pub updated_page : List CommitResults → CommitResults → Response × CommitFiles
  unfolding commit_page update_lcov lcov_response
  updated_page commits r =
      let (names, end) = update_lcov o.lcov r.id (o.files r.id) in
      (
        lcov_response end (commit_page (contains names (lit "lcov")) commits r),
        set_files r.id names,
      )

  -- The response and the directories after it. `commits[0]` panics where there is no commit.
  unfoldable pub ci_commit : Response × CommitFiles
  unfolding ci_branch_get_results failed_response json_response commit_json updated_page
  ci_commit = elim (ci_branch_get_results o ci) [
    | err e ↦ (failed_response o ci e, o.files)
    | ok [] ↦ (panicked, o.files)
    | ok (r ∷ rs) ↦ elim ci.json [
      | true ↦ (json_response (Value.commit_tests (commit_json r)), o.files)
      | false ↦ updated_page (r ∷ rs) r
    ]
  ]
