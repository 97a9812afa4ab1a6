-- ===== src/Branch.antt =====
-- The results of a branch as the pages show them: `branch_get_results`, `last_good_line`, the
-- branch log and its file (src/lib.rs). Decimal numbers are formatted by a parameter.
pub mod Walk
pub mod Rollup
pub mod Nothing
use ktest.Prelude.{
  ℕ, ◌+◌, ◌/◌, ◌%◌, ◌^◌, ◌≡◌, Bool, true, false, ◌&&◌, List, [], ◌∷◌, ◌++◌, Option, none, some,
  if◌then◌else◌, is_empty, length, keep_if, filter_map, take, unwrap_or, map, ltb, ◌==◌, not,
}
use ktest.Prelude.Result.{Result, ok, err, ◌>>=◌}
use ktest.Text.{Text, lit}
use ktest.BTreeMap.{BTreeMap, get, insert_all, values}
use ktest.Status.{
  TestStatus, in_progress, passed, failed, notrun, failed_to_run, unknown, status_beq, TestResult,
  TestResultsMap, status_eq,
}
use ktest.Config.{Ktestrc}
use ktest.Git.{Git, readable}
use ktest.Stats.{add64}

-- `filter_results`, over the test of the regular expression.
unfoldable pub filter_results : (Text → Bool) → TestResultsMap → TestResultsMap
filter_results matches r = insert_all (keep_if (λ p. matches p.0) r) []

pub record CommitResults : Type 0 where
  pub id : Text
  pub message : Text
  pub tests : TestResultsMap

-- The errors; `panic` is an `unwrap` of a user or a branch that is not given.
pub data BranchError : Type 0 where
  commit_not_found walk_error panic : BranchError

abbrev pub branch_or_commit : Option Text → Option Text → Option Text → Option Text
branch_or_commit user branch (some commit) = some commit
branch_or_commit (some user) (some branch) none = some (user ++ (lit "/" ++ branch))
branch_or_commit _ _ none = none

-- `find_commit` and its message.
abbrev pub with_message : (Text → Option Text) → Text → Option (Text × Text)
with_message message id = elim (message id) [ none ↦ none | some m ↦ some (id, m) ]

module _ (read : Text → Option TestResultsMap) (matches : Text → Bool) where
  abbrev pub results_at : Text × Text → CommitResults
  results_at c = record {
    id = c.0;
    message = c.1;
    tests = filter_results matches (unwrap_or (read c.0) []);
  }

  -- The third phase: the loop over the commits, with its two counters.
  unfoldable pub collect : ℕ → List (Text × Text) → ℕ → ℕ → List CommitResults
  collect depth [] nr_empty nr_commits = []
  collect depth (c ∷ cs) nr_empty nr_commits = elim (is_empty (results_at c).tests) [
    | false ↦ results_at c ∷ elim (ltb depth (nr_commits + 1)) [
      | true ↦ []
      | false ↦ collect depth cs 0 (nr_commits + 1)
    ]
    | true ↦ elim (ltb 100 (nr_empty + 1)) [
      | true ↦ []
      | false ↦ results_at c ∷ elim (ltb depth (nr_commits + 1)) [
        | true ↦ []
        | false ↦ collect depth cs (nr_empty + 1) (nr_commits + 1)
      ]
    ]
  ]

-- The `while` loop that pops results without tests off the end.
unfoldable pub drop_empty_end : List CommitResults → List CommitResults
drop_empty_end [] = []
drop_empty_end (r ∷ rs) =
    let rest = drop_empty_end rs in if is_empty rest && is_empty r.tests then [] else r ∷ rest

abbrev pub depth_of : Ktestrc → ℕ
depth_of rc = unwrap_or rc.keep_results_commits 500

-- The first phase: the commits of the walk that can be read, at most the depth.
abbrev pub listed_commits : (Text → Option Text) → Ktestrc → List (Option Text) → List (Text × Text)
listed_commits message rc walked =
    take (depth_of rc) (filter_map (with_message message) (filter_map readable walked))

-- `branch_get_results`; `read` is `commitdir_get_results`, after the files were fetched.
unfoldable pub branch_get_results :
    {Repo : Type 0}
    → Git Repo
    → (Text → Option TestResultsMap)
    → Repo
    → Ktestrc
    → Option Text
    → Option Text
    → Option Text
    → (Text → Bool)
    → Result BranchError (List CommitResults)
unfolding collect drop_empty_end
branch_get_results git read repo rc user branch commit matches =
    elim (branch_or_commit user branch commit) [
      | none ↦ err panic
      | some target ↦ elim (git.resolve repo target) [
        | none ↦ err commit_not_found
        | some id ↦ elim (git.walk repo id) [
          | none ↦ err walk_error
          | some walked ↦
              let commits = listed_commits (git.message repo) rc walked in
              ok (drop_empty_end (collect read matches (depth_of rc) commits 0 0))
        ]
      ]
    ]

-- `last_good_line`: an index, or a lower bound.
pub data LastGood : Type 0 where
  good_at : ℕ → LastGood
  at_least : ℕ → LastGood

unfoldable pub last_good_from : ℕ → List CommitResults → Text → LastGood
last_good_from idx [] test = at_least idx
last_good_from idx (r ∷ rs) test =
    let below = last_good_from (idx + 1) rs test in
    elim (get test r.tests) [
      | none ↦ at_least idx
      | some result ↦
          if result.status == passed
          then good_at idx
          else if result.status == failed
          then below
          else at_least idx
    ]

unfoldable pub last_good_line : (ℕ → Text) → List CommitResults → Text → Text
unfolding last_good_from
last_good_line decimal results test = elim (last_good_from 0 results test) [
  | good_at idx ↦ decimal idx
  | at_least idx ↦ lit ">= " ++ decimal idx
]

-- `format_duration`; `tenths a b` is `a as f64 / b` to one decimal.
unfoldable pub format_duration : (ℕ → Text) → (ℕ → ℕ → Text) → ℕ → Text
format_duration decimal tenths secs =
    if ltb secs 60
    then decimal secs ++ lit "s"
    else if ltb secs 3600
    then decimal (secs / 60) ++ lit "m"
    else if ltb secs 86400
    then tenths secs 3600 ++ lit "h"
    else tenths secs 86400 ++ lit "d"

pub record BranchEntry : Type 0 where
  pub commit_id : Text
  pub message : Text
  pub passed : ℕ
  pub failed : ℕ
  pub notrun : ℕ
  pub failed_to_run : ℕ
  pub inprogress : ℕ
  pub unknown : ℕ
  pub duration : ℕ

-- `as u32`.
unfoldable pub count_status : TestResultsMap → TestStatus → ℕ
count_status tests status = length (keep_if (λ p. status_beq p.1.status status) tests) % 2 ^ 32

-- `sum` over u64.
unfoldable pub sum64 : List ℕ → ℕ
sum64 [] = 0
sum64 (n ∷ ns) = add64 n (sum64 ns)

unfoldable pub branch_entry : CommitResults → BranchEntry
unfolding count_status sum64
branch_entry r = record {
  commit_id = r.id;
  message = r.message;
  passed = count_status r.tests passed;
  failed = count_status r.tests failed;
  notrun = count_status r.tests notrun;
  failed_to_run = count_status r.tests failed_to_run;
  inprogress = count_status r.tests in_progress;
  unknown = count_status r.tests unknown;
  duration = sum64 (map (λ t. t.duration) (values r.tests));
}

abbrev pub has_tests : CommitResults → Bool
has_tests r = not (is_empty r.tests)

unfoldable pub branch_entries : List CommitResults → List BranchEntry
unfolding branch_entry
branch_entries results = map branch_entry (keep_if has_tests results)

-- `generate_branch_log`: all tests of a user's branch.
unfoldable pub generate_branch_log :
    {Repo : Type 0}
    → Git Repo
    → (Text → Option TestResultsMap)
    → Repo
    → Ktestrc
    → Text
    → Text
    → Result BranchError (List BranchEntry)
unfolding branch_get_results branch_entry
generate_branch_log git read repo rc user branch = do
  results ← branch_get_results git read repo rc (some user) (some branch) none (λ test. true)
  ok (map branch_entry (keep_if has_tests results))

-- One entry of a branch log as a reader sees it. The two `unwrap`s of `branchlog_parse` panic on a
-- text that is not valid, which is `none` here.
pub record LogEntry : Type 0 where
  pub stored_id : Option Text
  pub stored_message : Option Text
  pub counts : BranchEntry

abbrev pub log_entry : BranchEntry → LogEntry
log_entry e = record { stored_id = some e.commit_id; stored_message = some e.message; counts = e }

-- The name of a log and what `write_branch_log` puts there.
unfoldable pub write_branch_log : Text → Text → List BranchEntry → Text × List LogEntry
write_branch_log user branch entries =
    (lit "branch." ++ (user ++ (lit "." ++ (branch ++ lit ".capnp"))), map log_entry entries)

unfoldable pub branchlog_parse : List LogEntry → Option (List BranchEntry)
branchlog_parse [] = some []
branchlog_parse (e ∷ es) = elim e.stored_id [
  | none ↦ none
  | some id ↦ elim e.stored_message [
    | none ↦ none
    | some m ↦ elim (branchlog_parse es) [
      | none ↦ none
      | some rest ↦ some (record e.counts { commit_id = id; message = m } ∷ rest)
    ]
  ]
]
