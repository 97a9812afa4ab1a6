-- ===== src/Jobs/Specs.antt =====
-- `branch_commits` and `build_test_specs` of src/jobs.rs: one spec for each user, branch, test
-- group and test of the configuration. The cache of the subtest listings is threaded through.
use ktest.Prelude.{
  ℕ, List, [], ◌∷◌, ◌++◌, Option, none, some, if◌then◌else◌, is_empty, take, filter_map,
}
use ktest.Prelude.Result.{Result, ok, err}
use ktest.Text.{Text, lit}
use ktest.BTreeMap.{BTreeMap, get}
use ktest.Users.{RcTestGroup, RcBranch, Userrc, ConfigError}
use ktest.Config.{Ktestrc, CiConfig, repo_path}
use ktest.Naming.{encode_env}
use ktest.Git.{Git, readable}
use ktest.Jobs.Listing.{Tests, Cache, get_subtests}

pub record TestSpec : Type 0 where
  pub user : Text
  pub repo : Text
  pub test : Text
  pub env : Text
  pub tg : RcTestGroup
  pub subtests : List Text
  pub kernels : List Text
  -- newest first
  pub commits : List Text

-- `format!("{}/{}", user, branch)`.
abbrev pub user_branch : Text → Text → Text
user_branch user branch = user ++ (lit "/" ++ branch)

-- `PathBuf::join` of a relative path.
abbrev pub path_join : Text → Text → Text
path_join dir file = dir ++ (lit "/" ++ file)

-- The empty kernel stands for a build from the repository.
abbrev pub kernels_of : List Text → List Text
kernels_of [] = [] ∷ []
kernels_of (k ∷ ks) = k ∷ ks

module _ {Repo : Type 0} (git : Git Repo) where
  unfoldable pub branch_commits : Repo → Text → ℕ → Option (List Text)
  branch_commits repo userbranch max = elim (git.resolve repo userbranch) [
    | none ↦ none
    | some id ↦ elim (git.walk repo id) [
      | none ↦ none
      | some walked ↦ some (take max (filter_map readable walked))
    ]
  ]

  module _ (rc : Ktestrc) (fs : Tests) where
    -- The loop over the tests of a group.
    unfoldable pub specs_of_tests :
        Text → Text → Text → RcTestGroup → List Text → List Text → Cache → List TestSpec × Cache
    specs_of_tests user repo env tg commits [] cache = ([], cache)
    specs_of_tests user repo env tg commits (test ∷ tests) cache =
        let (subtests, cache') =
          get_subtests fs (path_join (path_join rc.ktest_dir (lit "tests")) test) cache in
        let (specs, cache'') = specs_of_tests user repo env tg commits tests cache' in
        let spec : TestSpec = record {
          user = user;
          repo = repo;
          test = test;
          env = env;
          tg = tg;
          subtests = subtests;
          kernels = kernels_of tg.kernels;
          commits = commits;
        } in
        (if is_empty subtests then specs else spec ∷ specs, cache'')

    -- The body of the loop over a branch's groups. Each `continue` gives no spec.
    unfoldable pub specs_of_group :
        Text → Userrc → Text → RcBranch → Text → Cache → List TestSpec × Cache
    unfolding specs_of_tests branch_commits
    specs_of_group user userconfig branch branchconfig tg_name cache =
        elim (get tg_name userconfig.test_groups) [
          | none ↦ ([], cache)
          | some tg ↦ elim (encode_env tg.env) [
            | err e ↦ ([], cache)
            | ok env ↦ elim (repo_path rc branchconfig.repo) [
              | none ↦ ([], cache)
              | some path ↦ elim (git.open_repo path) [
                | none ↦ ([], cache)
                | some repo ↦ elim (branch_commits repo (user_branch user branch) tg.max_commits) [
                  | none ↦ ([], cache)
                  | some commits ↦
                      specs_of_tests user branchconfig.repo env tg commits tg.tests cache
                ]
              ]
            ]
          ]
        ]

    unfoldable pub specs_of_groups :
        Text → Userrc → Text → RcBranch → List Text → Cache → List TestSpec × Cache
    unfolding specs_of_group
    specs_of_groups user userconfig branch branchconfig [] cache = ([], cache)
    specs_of_groups user userconfig branch branchconfig (g ∷ gs) cache =
        let (specs, cache') = specs_of_group user userconfig branch branchconfig g cache in
        let (more, cache'') = specs_of_groups user userconfig branch branchconfig gs cache' in
        (specs ++ more, cache'')

    unfoldable pub specs_of_branches :
        Text → Userrc → BTreeMap RcBranch → Cache → List TestSpec × Cache
    unfolding specs_of_groups
    specs_of_branches user userconfig [] cache = ([], cache)
    specs_of_branches user userconfig ((branch, branchconfig) ∷ bs) cache =
        let (specs, cache') =
          specs_of_groups user userconfig branch branchconfig branchconfig.test_groups cache in
        let (more, cache'') = specs_of_branches user userconfig bs cache' in
        (specs ++ more, cache'')

    unfoldable pub specs_of_users :
        BTreeMap (Result ConfigError Userrc) → Cache → List TestSpec × Cache
    unfolding specs_of_branches
    specs_of_users [] cache = ([], cache)
    specs_of_users ((user, err e) ∷ us) cache = specs_of_users us cache
    specs_of_users ((user, ok userconfig) ∷ us) cache =
        let (specs, cache') = specs_of_branches user userconfig userconfig.branches cache in
        let (more, cache'') = specs_of_users us cache' in (specs ++ more, cache'')

  unfoldable pub build_test_specs : CiConfig → Tests → Cache → List TestSpec × Cache
  unfolding specs_of_users
  build_test_specs rc fs cache = specs_of_users rc.ktest fs rc.users cache
