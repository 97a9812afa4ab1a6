-- ===== src/Branch/Nothing.antt =====
-- What `branch_get_results` gives where no commit has a matching result.
use ktest.Prelude.{
  ℕ, ◌+◌, ◌≡◌, ◌≢◌, refl, Bool, true, List, [], ◌∷◌, Option, some, arith, is_empty, ltb, Bool-cases,
  Option-cases, inl, inr, All,
}
use ktest.Prelude.Result.{ok, err}
use ktest.Text.{Text}
use ktest.Status.{TestResultsMap}
use ktest.Config.{Ktestrc}
use ktest.Git.{Git}
use ktest.Branch.{
  CommitResults, BranchError, branch_get_results, branch_or_commit, collect, drop_empty_end,
  results_at, depth_of, listed_commits,
}

abbrev IsBlank : CommitResults → Type 0
IsBlank r = is_empty r.tests ≡ true

drop_empty_end-nil : (rs : List CommitResults) → All IsBlank rs → drop_empty_end rs ≡ []
unfolding drop_empty_end
drop_empty_end-nil [] h = refl
drop_empty_end-nil (r ∷ rs) (b, h) = rw (drop_empty_end-nil rs h, b) refl

module _ (read : Text → Option TestResultsMap) (matches : Text → Bool) where
  -- No result of any of the commits matches.
  abbrev pub NoneMatch : List (Text × Text) → Type 0
  NoneMatch cs = All (λ c. is_empty (results_at read matches c).tests ≡ true) cs

  collect-IsBlank :
      (depth : ℕ) (cs : List (Text × Text)) (nr_empty nr_commits : ℕ)
      → NoneMatch cs
      → All IsBlank (collect read matches depth cs nr_empty nr_commits)
  unfolding collect
  collect-IsBlank depth [] nr_empty nr_commits h = tt
  collect-IsBlank depth (c ∷ cs) nr_empty nr_commits (b, h) =
      elim (Bool-cases (ltb 100 (nr_empty + 1))) [
        | inl e ↦ rw (b, e, collect) tt
        | inr e ↦ elim (Bool-cases (ltb depth (nr_commits + 1))) [
          | inl f ↦ rw (b, e, f, collect) (b, tt)
          | inr f ↦
              rw (b, e, f, collect) (b, collect-IsBlank depth cs (nr_empty + 1) (nr_commits + 1) h)
        ]
      ]

  pub branch_get_results-NoneMatch :
      {Repo : Type 0} (git : Git Repo) (repo : Repo) (rc : Ktestrc)
      (user branch commit : Option Text) {target id : Text} {walked : List (Option Text)}
      → branch_or_commit user branch commit ≡ some target
      → git.resolve repo target ≡ some id
      → git.walk repo id ≡ some walked
      → NoneMatch (listed_commits (git.message repo) rc walked)
      → branch_get_results git read repo rc user branch commit matches ≡ ok []
  unfolding branch_get_results
  branch_get_results-NoneMatch git repo rc user branch commit {walked = walked} t r w h =
      let commits = listed_commits (git.message repo) rc walked in
      rw (t, r, w, branch_get_results)
        (rw
          (drop_empty_end-nil (collect read matches (depth_of rc) commits 0 0)
            (collect-IsBlank (depth_of rc) commits 0 0 h))
          refl)

-- The `unwrap`s do not panic where a user, and a branch or a commit, are given.
pub branch_get_results-ne-panic :
    {Repo : Type 0} (git : Git Repo) (read : Text → Option TestResultsMap) (repo : Repo)
    (rc : Ktestrc) (user branch commit : Option Text) (matches : Text → Bool) {target : Text}
    → branch_or_commit user branch commit ≡ some target
    → branch_get_results git read repo rc user branch commit matches ≢ err BranchError.panic
unfolding branch_get_results
branch_get_results-ne-panic git read repo rc user branch commit matches {target} t =
    elim (Option-cases (git.resolve repo target)) [
      | inl r ↦ rw (t, r, branch_get_results) (λ e. ground arith)
      | inr (id, r) ↦ elim (Option-cases (git.walk repo id)) [
        | inl w ↦ rw (t, r, w, branch_get_results) (λ e. ground arith)
        | inr (walked, w) ↦ rw (t, r, w, branch_get_results) (λ e. ground arith)
      ]
    ]
