-- ===== src/Cgi.antt =====
-- The web interface (src/bin/cgi.rs): what the pages share, the search form, and the statistics of
-- a single test.
pub mod Escape
pub mod Single
pub mod Log
pub mod Commit
pub mod Users
pub mod Dispatch
use ktest.Prelude.{
  ℕ, zero, suc, ◌+◌, ◌-◌, ◌%◌, ◌^◌, ◌≡◌, Bool, true, false, ◌&&◌, not, List, [], ◌∷◌, ◌++◌, Option,
  none, some, if◌then◌else◌, is_empty, length, nat_beq, ◌==◌, flat_map,
}
use ktest.Prelude.Result.{Result, ok, err}
use ktest.Text.{Text, lit, text_eq}
use ktest.BTreeMap.{BTreeMap}
use ktest.Status.{TestStatus, passed, failed, TestResult, TestResultsMap, status_eq}
use ktest.Config.{CiConfig}
use ktest.Git.{Git}
use ktest.Files.Lcov.{LcovTools}
use ktest.Stats.{add64}
use ktest.Branch.{CommitResults, BranchEntry, BranchError, branch_get_results}

-- A compiled regular expression, with its source text.
pub record Regex : Type 0 where
  pub as_str : Text
  pub matches : Text → Bool

-- The request after its query was read.
pub record Ci (Repo : Type 0) : Type 0 where
  pub rc : CiConfig
  pub repo : Repo
  pub stylesheet : Text
  pub script_name : Text
  pub user : Option Text
  pub branch : Option Text
  pub commit : Option Text
  pub tests_matching : Regex
  pub json : Bool

-- The types of src/api.rs.
pub record TestEntry : Type 0 where
  pub name : Text
  pub status : Text
  pub duration : ℕ

pub record CommitTests : Type 0 where
  pub commit : Text
  pub message : Text
  pub tests : List TestEntry

pub record UserBranches : Type 0 where
  pub user : Text
  pub branches : List Text

-- What is serialized.
pub data Value : Type 0 where
  branch_entries : List BranchEntry → Value
  commit_tests : CommitTests → Value
  user_branches : UserBranches → Value
  all_branches : List UserBranches → Value
  api_error : Text → Value

-- A response by its status and body; `panicked` is a request that ends in a panic.
pub data Response : Type 0 where
  html : ℕ → Text → Response
  json : ℕ → Value → Response
  text : ℕ → Text → Response
  panicked : Response

unfoldable pub json_response : Value → Response
json_response val = json 200 val

unfoldable pub json_error : Text → Response
json_error msg = json 500 (api_error msg)

-- `writeln!`.
abbrev pub line : Text → Text
line t = t ++ lit "\n"

-- `env` is the environment as `{:?}` shows it.
unfoldable pub error_response : Text → Text → Response
error_response env msg = text 200 (line msg ++ line (lit "env: " ++ env))

-- The directories of the commits.
abbrev pub CommitFiles : Type 0
CommitFiles = Text → List Text

abbrev pub page : Option Text → Response
page none = panicked
page (some t) = html 200 t

-- The calls outside of the program: git, the files of the results, the formatting of numbers and
-- of errors.
pub record Outside (Repo : Type 0) : Type 0 where
  pub git : Git Repo
  pub read : Text → Option TestResultsMap
  pub decimal : ℕ → Text
  pub tenths : ℕ → ℕ → Text
  pub percent : ℕ → ℕ → Text
  pub error_text : BranchError → Text
  pub lcov : LcovTools
  -- the names in the directory of a commit
  pub files : Text → List Text
  pub env : Text

module _ {Repo : Type 0} (o : Outside Repo) (ci : Ci Repo) where
  unfoldable pub ci_branch_get_results : Result BranchError (List CommitResults)
  unfolding branch_get_results
  ci_branch_get_results =
      branch_get_results o.git o.read ci.repo ci.rc.ktest ci.user ci.branch ci.commit
        ci.tests_matching.matches

  -- The early return of a page for an error of `ci_branch_get_results`.
  unfoldable pub failed_response : BranchError → Response
  unfolding json_error error_response
  failed_response BranchError.panic = panicked
  failed_response e =
      if ci.json then json_error (o.error_text e) else error_response o.env (o.error_text e)

-- `str::replace` of one byte by a text.
unfoldable pub replace_with : ℕ → Text → Text → Text
replace_with b t [] = []
replace_with b t (c ∷ s) = (if nat_beq c b then t else c ∷ []) ++ replace_with b t s

-- The function `attr` of the search form.
unfoldable pub attr : Text → Text
unfolding replace_with
attr s =
    replace_with b'"' (lit "&quot;")
      (replace_with b'<' (lit "&lt;") (replace_with b'&' (lit "&amp;") s))

unfoldable pub hidden_field : Text → Option Text → Text
unfolding attr
hidden_field name none = []
hidden_field name (some val) =
    line (lit "<input type=hidden name=" ++ (name ++ (lit " value=\"" ++ (attr val ++ lit "\">"))))

unfoldable pub search_form : {Repo : Type 0} → Ci Repo → Text
unfolding attr hidden_field
search_form ci =
    line (lit "<form method=get action=" ++ (ci.script_name ++ lit ">"))
    ++ (hidden_field (lit "user") ci.user
        ++ (hidden_field (lit "branch") ci.branch
            ++ (hidden_field (lit "commit") ci.commit
                ++ (line (
                      lit "<input type=text name=test value=\""
                      ++ (attr ci.tests_matching.as_str
                          ++ lit
                              "\" placeholder=\"test name (regex)\" size=40> <input type=submit value=Search>"))
                    ++ line (lit "</form>")))))

pub record SingleTestStats : Type 0 where
  pub completed : ℕ
  pub passed : ℕ
  pub failed : ℕ
  pub duration : ℕ

abbrev pub no_stats : SingleTestStats
no_stats = record { completed = 0; passed = 0; failed = 0; duration = 0 }

-- The counts of one result.
abbrev pub count_result : SingleTestStats → TestResult → SingleTestStats
count_result stats result =
    if result.status == passed
    then record {
      completed = add64 stats.completed 1;
      passed = add64 stats.passed 1;
      failed = stats.failed;
      duration = add64 stats.duration result.duration;
    }
    else if result.status == failed
    then record {
      completed = add64 stats.completed 1;
      passed = stats.passed;
      failed = add64 stats.failed 1;
      duration = add64 stats.duration result.duration;
    }
    else stats

-- The test on the name in the loop.
abbrev pub other_test : Option Text → Text → Bool
other_test none name = false
other_test (some test_name) name = not (test_name == name)

unfoldable pub stats_from :
    Option Text → SingleTestStats → List (Text × TestResult) → Option SingleTestStats
stats_from test_name stats [] = some stats
stats_from test_name stats ((name, result) ∷ rest) =
    let further = stats_from (some name) (count_result stats result) rest in
    if other_test test_name name then none else further

unfoldable pub single_test_stats : List CommitResults → Option SingleTestStats
unfolding stats_from
single_test_stats commits = elim (stats_from none no_stats (flat_map (λ c. c.tests) commits)) [
  | none ↦ none
  | some stats ↦ if nat_beq stats.completed 0 then none else some stats
]
