-- ===== src/Cgi/Dispatch/Routes.antt =====
-- Which requests end in a panic.
use ktest.Prelude.{◌≡◌, ◌⊎◌, Bool, true, false, List, [], ◌∷◌, is_some}
use ktest.Prelude.Result.{ok}
use ktest.Text.{Text}
use ktest.Branch.{CommitResults}
use ktest.Cgi.{Ci, Outside, ci_branch_get_results}
use ktest.Files.Lcov.{loses_tool}

-- The page of a commit is asked for, its results are found, and the update of its coverage needs a
-- tool that cannot be executed.
pub record LosesTool {Repo : Type 0} (o : Outside Repo) (ci : Ci Repo) : Type 0 where
  pub first : CommitResults
  pub others : List CommitResults
  pub found : ci_branch_get_results o ci ≡ ok (first ∷ others)
  pub no_json : ci.json ≡ false
  pub lost : loses_tool o.lcov first.id (o.files first.id) ≡ true

-- What a panic takes: a request for a commit, and no results to show or a tool that is missing.
pub record IsPanicking {Repo : Type 0} (o : Outside Repo) (status : Bool) (ci : Ci Repo)
    : Type 0 where
  pub no_status : status ≡ false
  pub has_user : is_some ci.user ≡ true
  pub has_commit : is_some ci.commit ≡ true
  pub reason : (ci_branch_get_results o ci ≡ ok []) ⊎ LosesTool o ci
