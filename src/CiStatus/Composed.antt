-- ===== src/CiStatus/Composed.antt =====
-- The client's branch log against the dashboard's: both ends of one request.
use ktest.Prelude.{◌≡◌, ◌≢◌, refl, ap, ◌∙◌, true, List, ◌++◌, none, some}
use ktest.Prelude.Result.{Result, ok, err}
use ktest.Text.{Text, lit}
use ktest.Branch.{
  BranchEntry, BranchError, commit_not_found, walk_error, panic, branch_entries, CommitResults,
}
use ktest.Branch.Nothing.{branch_get_results-ne-panic}
use ktest.Cgi.{
  Ci, Outside, Value, api_error, json_response, json_error, ci_branch_get_results, failed_response,
}
use ktest.Cgi.Log.{ci_log}
use ktest.CiStatus.{Failure, bail, Calls}
use ktest.CiStatus.Server.{
  server_log, sent, IsJson, server_get-json_response, server_get-json_error,
}

-- The entries, or the message of the error.
abbrev pub entries_or_error :
    (BranchError → Text)
    → Result BranchError (List CommitResults)
    → Result Failure (List BranchEntry)
entries_or_error error_text (ok commits) = ok (branch_entries commits)
entries_or_error error_text (err e) = err (bail (error_text e))

module _ {Client Repo : Type 0} (calls : Calls Client) (o : Outside Repo) (ci : Ci Repo)
    (write : Value → Text) (dashboard user branch : Text) where
  abbrev log_url : Text
  log_url =
      dashboard ++ (lit "?user=" ++ (user ++ (lit "&branch=" ++ (branch ++ lit "&format=json"))))

  answered :
      (r : Result BranchError (List CommitResults))
      → ci_branch_get_results o ci ≡ r
      → ((commits : List CommitResults)
          → ci_branch_get_results o ci ≡ ok commits
          → IsJson write calls.entries_of_json Value.branch_entries (branch_entries commits))
      → ((message : Text) → calls.parse_error (write (api_error message)) ≡ some message)
      → calls.http log_url ≡ some (sent write (ci_log o ci))
      → ci.branch ≡ some branch
      → ci.json ≡ true
      → r ≢ err panic
      → server_log calls dashboard user branch ≡ entries_or_error o.error_text r
  unfolding server_log ci_log failed_response
  answered (ok commits) r j m http b f np =
      let page : ci_log o ci ≡ json_response (Value.branch_entries (branch_entries commits)) =
        rw (b, r, ci_log, f) refl in
      server_get-json_response calls write calls.entries_of_json log_url Value.branch_entries
        (branch_entries commits) (j commits r) (http ∙ ap (λ x. some (sent write x)) page)
  answered (err commit_not_found) r j m http b f np =
      let page : ci_log o ci ≡ json_error (o.error_text commit_not_found) =
        rw (b, r, ci_log, failed_response, f) refl in
      server_get-json_error calls write calls.entries_of_json log_url
        (o.error_text commit_not_found) (http ∙ ap (λ x. some (sent write x)) page)
        (m (o.error_text commit_not_found))
  answered (err walk_error) r j m http b f np =
      let page : ci_log o ci ≡ json_error (o.error_text walk_error) =
        rw (b, r, ci_log, failed_response, f) refl in
      server_get-json_error calls write calls.entries_of_json log_url (o.error_text walk_error)
        (http ∙ ap (λ x. some (sent write x)) page) (m (o.error_text walk_error))
  answered (err panic) r j m http b f np = absurd (np refl)

  -- Where the client asks the dashboard for the JSON log of a user and a branch, and the reader
  -- gives back what is written for the answer and for messages, the client gets the entries of the
  -- branch's results, or the message of their error.
  pub server_log-ci_log :
      ((commits : List CommitResults)
        → ci_branch_get_results o ci ≡ ok commits
        → IsJson write calls.entries_of_json Value.branch_entries (branch_entries commits))
      → ((message : Text) → calls.parse_error (write (api_error message)) ≡ some message)
      → calls.http log_url ≡ some (sent write (ci_log o ci))
      → ci.user ≡ some user
      → ci.branch ≡ some branch
      → ci.commit ≡ none
      → ci.json ≡ true
      → server_log calls dashboard user branch
        ≡ entries_or_error o.error_text (ci_branch_get_results o ci)
  unfolding ci_branch_get_results
  server_log-ci_log j m http u b c f = answered (ci_branch_get_results o ci) refl j m http b f (
      branch_get_results-ne-panic o.git o.read ci.repo ci.rc.ktest ci.user ci.branch ci.commit
        ci.tests_matching.matches {target = user ++ (lit "/" ++ branch)} (rw (u, b, c) refl))
