-- ===== src/Examples/CiStatus.antt =====
-- The terminal client: a subject that is cut inside a character, a prefix, and a request that the
-- dashboard answers.
use ktest.Prelude.{
  ℕ, ◌<◌, ◌≡◌, ◌↔◌, refl, arith, Bool, true, false, not, List, [], ◌∷◌, ◌++◌, Option, none, some,
  any, ◌==◌, nat_beq, if◌then◌else◌,
}
use mathlib.Core.List.{Perm}
use ktest.Prelude.Result.{ok, err}
use ktest.Prelude.Cmp.Sort.{IsSortedBy}
use ktest.Text.{Text, lit, text_eq, starts_with}
use ktest.Branch.{BranchEntry, branch_entries, CommitResults}
use ktest.Cgi.{Ci, Value, CommitTests, ci_branch_get_results}
use ktest.Cgi.Log.{ci_log}
use ktest.CiStatus.{Calls, panic, resolve_commit_prefix}
use ktest.CiStatus.Prefix.{IsOnly, resolve_commit_prefix_iff}
use ktest.CiStatus.Render.{render_log, sorted_tests, by_rank}
use ktest.CiStatus.Render.Slices.{cuts, render_log_panics_iff}
use ktest.CiStatus.Render.Order.{PassedLast, sorted_tests-PassedLast}
use ktest.CiStatus.Server.{server_log, sent, IsJson}
use ktest.CiStatus.Composed.{entries_or_error, server_log-ci_log}
use ktest.Examples.Data.{git_of_three, commit_40}
use ktest.Examples.Cgi.{outside, new_commit}

-- 49 bytes of ASCII and a letter of two bytes.
abbrev accented : Text
accented = lit "bcachefs: a subject of forty nine bytes, and then" ++ (195 ∷ 169 ∷ lit " more")

abbrev entry : BranchEntry
entry = record {
  commit_id = commit_40;
  message = accented;
  passed = 3;
  failed = 1;
  notrun = 0;
  failed_to_run = 0;
  inprogress = 0;
  unknown = 0;
  duration = 60;
}

-- The JSON of a log that has no entry, and of an error, are all that this client reads.
abbrev write : Value → Text
write (Value.branch_entries []) = lit "[]"
write (Value.branch_entries (e ∷ es)) = lit "[{}]"
write (Value.api_error message) = lit "{" ++ message
write (Value.commit_tests c) = lit "{}"
write (Value.user_branches u) = lit "{}"
write (Value.all_branches us) = lit "[]"

abbrev without_brace : Text → Option Text
without_brace [] = none
without_brace (c ∷ s) = if nat_beq c b'{' then some s else none

abbrev log_json : Ci Unit
log_json = record new_commit { commit = none }

abbrev dashboard : Text
dashboard = lit "https://host/ci"

abbrev calls : Calls Unit
calls = record {
  git = git_of_three;
  revparse = λ repo name. true;
  http = λ url. some (sent write (ci_log outside log_json));
  list_dir = λ path. none;
  read_file = λ path. none;
  parse_json5 = λ t. none;
  parse_error = without_brace;
  entries_of_json = λ t. some [];
  commit_of_json = λ t. none;
  branches_of_json = λ t. none;
  print_entries = λ es. lit "[]";
  print_commit = λ c. lit "{}";
  print_branches = λ b. lit "{}";
  print_user = λ u. lit "{}";
  decompress = λ t. some t;
  decimal = λ n. lit "3";
  tenths = λ a b. lit "1.0";
  scp = λ a b. some true;
}

accented_panics : (render_log calls (entry ∷ []) (lit "master") false).ended ≡ err panic
unfolding render_log
accented_panics = refl

render_log_panics_iff_example :
    ((render_log calls (entry ∷ []) (lit "master") false).ended ≡ err panic)
    ↔ ((◌≡◌ {A = Bool} false false) × (any cuts (entry ∷ []) ≡ true))
render_log_panics_iff_example = render_log_panics_iff calls (entry ∷ []) (lit "master") false

abbrev decimal : ℕ → Text
decimal n = lit "2"

abbrev entries : List (Option Text)
entries = some commit_40 ∷ none ∷ some (lit "ci-daemon-logs") ∷ []

resolve_commit_prefix_iff_example :
    (resolve_commit_prefix decimal (some entries) (lit "0123") ≡ ok commit_40)
    ↔ IsOnly decimal entries (lit "0123") commit_40 (omega arith)
resolve_commit_prefix_iff_example =
    resolve_commit_prefix_iff decimal entries (lit "0123") commit_40 (omega arith)

prefix_resolves : resolve_commit_prefix decimal (some entries) (lit "0123") ≡ ok commit_40
unfolding resolve_commit_prefix ktest.Prelude.Cmp.Sort.sort_by ktest.Prelude.keep_if
    ktest.Prelude.filter_map starts_with
prefix_resolves = refl

abbrev detail : CommitTests
detail = record {
  commit = commit_40;
  message = lit "subject";
  tests =
      record { name = lit "a.x"; status = lit "Passed"; duration = 3 }
      ∷ record { name = lit "a.y"; status = lit "Failed"; duration = 4 }
      ∷ [];
}

sorted_tests-PassedLast_example :
    Perm (sorted_tests calls detail) detail.tests
    × IsSortedBy (by_rank calls) (sorted_tests calls detail)
    × PassedLast (sorted_tests calls detail)
sorted_tests-PassedLast_example = sorted_tests-PassedLast calls detail

nothing_logged : ci_branch_get_results outside log_json ≡ ok []
unfolding ci_branch_get_results ktest.Prelude.filter_map ktest.Branch.filter_results
    ktest.BTreeMap.insert_all ktest.Prelude.keep_if
nothing_logged = refl

written :
    (commits : List CommitResults)
    → ci_branch_get_results outside log_json ≡ ok commits
    → IsJson write calls.entries_of_json Value.branch_entries (branch_entries commits)
unfolding starts_with branch_entries ktest.Prelude.keep_if
written [] got = record { no_tag = refl; reads = refl }
written (r ∷ rs) got = cc (nothing_logged)

server_log-ci_log_example :
    server_log calls dashboard (lit "kent") (lit "master")
    ≡ entries_or_error outside.error_text (ci_branch_get_results outside log_json)
server_log-ci_log_example =
    server_log-ci_log calls outside log_json write dashboard (lit "kent") (lit "master") written
      (λ message. refl) refl refl refl refl refl
