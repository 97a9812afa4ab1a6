-- ===== src/Examples/Cgi.antt =====
-- A dashboard over three commits: one request for a commit that has no result yet.
use ktest.Prelude.{
  ℕ, ◌≡◌, refl, sym, ap, ◌∙◌, subst, Bool, true, false, ◌&&◌, ◌||◌, not, List, [], ◌∷◌, Option,
  none, some, ◌==◌, map, flat_map, if◌then◌else◌, nat_beq, arith,
}
use ktest.Text.{Text, lit, has_byte, text_eq}
use ktest.Users.{ConfigError}
use ktest.Branch.{CommitResults, BranchError, drop_empty_end}
use ktest.Cgi.{Ci, Outside, Regex, attr, single_test_stats, panicked}
use ktest.Cgi.Escape.{unescape, unescape-attr}
use ktest.Cgi.Single.{one_test, totals, single_test_stats-totals}
use ktest.Cgi.Log.{rows}
use ktest.Cgi.Log.Rows.{stands_for, shown, rows-drop_empty_end}
use ktest.Cgi.Dispatch.{Texts, route}
use ktest.Files.Lcov.{LcovTools, no_tool, update_lcov}
use ktest.Examples.Data.{ktestrc, git_of_three, second_results}

-- A machine on which no tool is installed.
abbrev no_tools : LcovTools
no_tools = record {
  locks = true;
  lists = λ commit. true;
  removes = λ commit name. true;
  renames = λ commit. true;
  lcov_runs = false;
  lcov = λ commit args names. (false, names);
  git_runs = false;
  git = λ commit. false;
  genhtml_runs = false;
  genhtml = λ commit names. (false, names);
}

abbrev pub outside : Outside Unit
outside = record {
  git = git_of_three;
  read = λ commit. none;
  decimal = λ n. lit "1";
  tenths = λ a b. lit "1.0";
  percent = λ a b. lit "100.0";
  error_text = λ e. lit "commit not found";
  lcov = no_tools;
  files = λ commit. if commit == lit "2" then lit "lcov-stale" ∷ lit "lcov.partial.1" ∷ [] else [];
  env = [];
}

abbrev pub everything : Regex
everything = record { as_str = []; matches = λ test. true }

abbrev pub new_commit : Ci Unit
new_commit = record {
  rc = record { ktest = ktestrc; users = [] };
  repo = tt;
  stylesheet = lit "bootstrap.min.css";
  script_name = lit "/ci";
  user = some (lit "kent");
  branch = some (lit "master");
  commit = some (lit "2");
  tests_matching = everything;
  json = true;
}

abbrev constants : Texts
constants = record {
  commit_css_js = [];
  commit_filter = [];
  status_css = [];
  status_body = [];
  status_js = [];
}

abbrev config_error : ConfigError → Text
config_error e = lit "bad file"

abbrev signed : ℕ → Text
signed n = lit "0"

new_commit_panics : (route outside constants config_error signed false new_commit).0 ≡ panicked
unfolding route ktest.Prelude.filter_map ktest.Branch.filter_results ktest.BTreeMap.insert_all
    ktest.Prelude.keep_if
new_commit_panics = refl

unescape-attr_example :
    (unescape (attr (lit "<a href=\"x\">&")) ≡ lit "<a href=\"x\">&")
    × ((has_byte b'"' (attr (lit "<a href=\"x\">&"))
          || has_byte b'<' (attr (lit "<a href=\"x\">&")))
        ≡ false)
unescape-attr_example = unescape-attr (lit "<a href=\"x\">&")

abbrev two_results : List CommitResults
two_results =
    record { id = lit "2"; message = lit "new"; tests = second_results }
    ∷ record { id = lit "1"; message = lit "old"; tests = [] }
    ∷ record { id = lit "0"; message = lit "older"; tests = second_results }
    ∷ []

single_test_stats-totals_example : single_test_stats two_results ≡ (
    let results = flat_map (λ (c : CommitResults). c.tests) two_results in
    if one_test results && not (nat_beq (totals results).completed 0)
    then some (totals results)
    else none)
single_test_stats-totals_example = single_test_stats-totals two_results

two_failures :
    single_test_stats two_results
    ≡ some (record { completed = 2; passed = 0; failed = 2; duration = 80 })
unfolding single_test_stats flat_map ktest.Text.text_beq
two_failures = refl

rows-drop_empty_end_example :
    flat_map stands_for (rows 0 two_results) ≡ map shown (drop_empty_end two_results)
rows-drop_empty_end_example = rows-drop_empty_end two_results

lcov_missing :
    update_lcov no_tools (lit "2") (outside.files (lit "2")) ≡ (lit "lcov.partial.1" ∷ [], no_tool)
unfolding update_lcov ktest.Prelude.contains ktest.Text.text_beq ktest.Prelude.keep_if
lcov_missing = refl
