-- ===== src/Examples/Branch.antt =====
-- A branch of three commits, of which the oldest has no results.
use ktest.Prelude.{
  ◌+◌, ◌≡◌, ◌↔◌, refl, arith, true, Bool, List, [], ◌∷◌, Option, none, some, take, length,
  get_elem?, map,
}
use ktest.Prelude.Result.{ok}
use ktest.Text.{Text, lit}
use ktest.Status.{passed}
use ktest.Branch.{
  CommitResults, branch_get_results, listed_commits, results_at, good_at, last_good_from,
  branch_entry,
}
use ktest.Branch.Walk.{IsCutOff, branch_get_results-IsCutOff}
use ktest.Branch.Rollup.{branch_entry-total, AllFailed, status_at, last_good_from_iff}
use ktest.Examples.Data.{read_commit, first_results, second_results, ktestrc, git_of_three}

abbrev any_test : Text → Bool
any_test test = true

abbrev walked : List (Option Text)
walked = some (lit "2") ∷ none ∷ some (lit "1") ∷ some (lit "0") ∷ []

abbrev commits : List (Text × Text)
commits = listed_commits (git_of_three.message tt) ktestrc walked

branch_get_results-IsCutOff_example :
    (rs : List CommitResults) × (branch_get_results git_of_three read_commit tt ktestrc
        (some (lit "kent"))
        (some (lit "master"))
        none
        any_test
      ≡ ok rs)
    × IsCutOff rs (map (results_at read_commit any_test) commits)
branch_get_results-IsCutOff_example =
    branch_get_results-IsCutOff read_commit any_test git_of_three tt ktestrc (some (lit "kent"))
      (some (lit "master")) none (lit "kent/master") (lit "2") walked refl refl refl

abbrev two_results : List CommitResults
two_results =
    record { id = lit "2"; message = []; tests = second_results }
    ∷ record { id = lit "1"; message = []; tests = first_results }
    ∷ []

last_good_from_iff_example : (last_good_from 0 two_results (lit "a.x") ≡ good_at 1) ↔ (
    AllFailed (lit "a.x") (take 1 two_results)
    × (status_at (lit "a.x") (get_elem? two_results 1) ≡ some passed))
last_good_from_iff_example = last_good_from_iff two_results (lit "a.x") 1

one_back : last_good_from 0 two_results (lit "a.x") ≡ good_at 1
unfolding last_good_from ktest.BTreeMap.get ktest.Text.text_beq
one_back = refl

abbrev first_commit : CommitResults
first_commit = record { id = lit "1"; message = []; tests = first_results }

branch_entry-total_example :
    (branch_entry first_commit).passed
      + (branch_entry first_commit).failed
      + (branch_entry first_commit).notrun
      + (branch_entry first_commit).failed_to_run
      + (branch_entry first_commit).inprogress
      + (branch_entry first_commit).unknown
    ≡ length first_results
branch_entry-total_example = branch_entry-total first_commit (omega arith)
