-- ===== src/Cgi/Commit/Panics.antt =====
-- When the page of a commit is written.
use ktest.Prelude.{
  ◌≡◌, ◌≢◌, ◌↔◌, refl, Bool, true, false, contains, List, [], ◌∷◌, Option, none, some, arith,
  Bool-cases, Option-cases, inl, inr, map, All,
}
use ktest.Prelude.Result.{ok}
use ktest.Text.{Text, lit, text_eq}
use ktest.Status.{TestResult, TestResultsMap}
use ktest.Branch.{CommitResults}
use ktest.Cgi.{Ci, Outside, json_response, page, panicked, ci_branch_get_results}
use ktest.Cgi.Log.Written.{IsWritten, framed-IsWritten}
use ktest.Cgi.Commit.{
  history_cell, test_row, commit_head, commit_end, commit_page, lcov_response, updated_page,
  ci_commit,
}
use ktest.Files.Lcov.{LcovEnd, done, gave_up, no_tool, update_lcov, loses_tool, update_lcov_iff}

pub page-ne-panicked : (t : Option Text) → IsWritten t → page t ≢ panicked
page-ne-panicked none w e = ground arith
page-ne-panicked (some t) w e = ground arith

lcov_response_iff :
    (end : LcovEnd) (t : Option Text)
    → IsWritten t
    → (lcov_response end t ≡ panicked) ↔ (end ≡ no_tool)
unfolding lcov_response
lcov_response_iff no_tool t w = (λ h. refl, λ h. refl)
lcov_response_iff done t w = (λ h. absurd (page-ne-panicked t w h), λ h. ground arith)
lcov_response_iff gave_up t w = (λ h. absurd (page-ne-panicked t w h), λ h. ground arith)

module _ {Repo : Type 0} (o : Outside Repo) (css filter : Text) (ci : Ci Repo) (user : Text)
    (known : ci.user ≡ some user) where
  test_row-IsWritten :
      (commits : List CommitResults) (r : CommitResults) (t : Text × TestResult)
      → IsWritten (test_row o css filter ci commits r t)
  unfolding test_row history_cell
  test_row-IsWritten commits r t = elim (Option-cases ci.branch) [
    | inl e ↦ ground (arith, e)
    | inr (b, e) ↦ ground (arith, e, known)
  ]

  test_rows-IsWritten :
      (commits : List CommitResults) (r : CommitResults) (ts : TestResultsMap)
      → All IsWritten (map (test_row o css filter ci commits r) ts)
  test_rows-IsWritten commits r [] = tt
  test_rows-IsWritten commits r (t ∷ ts) =
      (test_row-IsWritten commits r t, test_rows-IsWritten commits r ts)

  commit_page-IsWritten :
      (has_lcov : Bool) (commits : List CommitResults) (r : CommitResults)
      → IsWritten (commit_page o css filter ci has_lcov commits r)
  unfolding commit_page
  commit_page-IsWritten has_lcov commits r =
      framed-IsWritten (commit_head o css filter ci has_lcov r) (commit_end o css filter ci)
        (map (test_row o css filter ci commits r) r.tests) (test_rows-IsWritten commits r r.tests)

  updated_page_iff :
      (commits : List CommitResults) (r : CommitResults)
      → ((updated_page o css filter ci commits r).0 ≡ panicked)
        ↔ (loses_tool o.lcov r.id (o.files r.id) ≡ true)
  unfolding updated_page
  updated_page_iff commits r =
      let (names, end) = update_lcov o.lcov r.id (o.files r.id) in
      let has_lcov = contains names (lit "lcov") in
      let (lost, loses) = update_lcov_iff o.lcov r.id (o.files r.id) in
      let (to, from) =
        lcov_response_iff end (commit_page o css filter ci has_lcov commits r)
          (commit_page-IsWritten has_lcov commits r) in
      (λ h. lost (to h), λ h. from (loses h))

  pub ci_commit-found :
      (r : CommitResults) (rs : List CommitResults)
      → ci_branch_get_results o ci ≡ ok (r ∷ rs)
      → ((ci_commit o css filter ci).0 ≡ panicked)
        ↔ ((ci.json ≡ false) × (loses_tool o.lcov r.id (o.files r.id) ≡ true))
  unfolding ci_commit json_response
  ci_commit-found r rs found = elim (Bool-cases ci.json) [
    | inl j ↦ ground (arith, found, j)
    | inr j ↦ ground (arith, found, j, updated_page_iff (r ∷ rs) r)
  ]
