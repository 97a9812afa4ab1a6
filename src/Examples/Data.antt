-- ===== src/Examples/Data.antt =====
-- The inputs of the examples: a configuration of two groups, the results of two commits, and the
-- matrix of one spec.
use ktest.Prelude.{false, if◌then◌else◌, ◌==◌, List, [], ◌∷◌, Option, none, some, true}
use ktest.Text.{Text, lit, text_eq}
use ktest.BTreeMap.{BTreeMap}
use ktest.Status.{passed, failed, in_progress, TestResult, TestResultsMap}
use ktest.Users.{RawTestGroup, RawBranch, RawUserrc, RcTestGroup}
use ktest.Config.{Ktestrc}
use ktest.Git.{Git}
use ktest.Stats.{DirEntry}
use ktest.Capnp.{render}
use ktest.Store.{Disk, Store, Entry}
use ktest.Jobs.{Job}
use ktest.Jobs.Specs.{TestSpec}

abbrev pub base_group : RawTestGroup
base_group = record {
  extends = none;
  max_commits = some 10;
  nice = none;
  test_duration_nice = none;
  test_always_passes_nice = none;
  tests = some (lit "fs/bcachefs.ktest" ∷ []);
  kernels = none;
  env = none;
}

abbrev pub lockdep_group : RawTestGroup
lockdep_group = record {
  extends = some (lit "base");
  max_commits = none;
  nice = some 5;
  test_duration_nice = none;
  test_always_passes_nice = none;
  tests = none;
  kernels = none;
  env = some ((lit "ktest_lockdep", lit "1") ∷ []);
}

abbrev pub groups : BTreeMap RawTestGroup
groups = (lit "base", base_group) ∷ (lit "lockdep", lockdep_group) ∷ []

abbrev pub master : RawBranch
master = record {
  fetch = lit "git://host/linux.git master";
  repo = lit "linux";
  test_groups = lit "base" ∷ lit "lockdep" ∷ [];
}

abbrev pub userrc : RawUserrc
userrc = record { test_groups = groups; branches = (lit "master", master) ∷ [] }

-- `base` and `lockdep` extend each other.
abbrev pub cyclic : RawUserrc
cyclic = record {
  test_groups =
      (lit "base", record base_group { extends = some (lit "lockdep") })
      ∷ (lit "lockdep", lockdep_group)
      ∷ [];
  branches = [];
}

abbrev pub pass_20 : TestResult
pass_20 = record { status = passed; starttime = 7; duration = 20 }

abbrev pub fail_40 : TestResult
fail_40 = record { status = failed; starttime = 9; duration = 40 }

abbrev pub running : TestResult
running = record { status = in_progress; starttime = 0; duration = 0 }

abbrev pub first_results : TestResultsMap
first_results = (lit "a.x", pass_20) ∷ (lit "a.y", running) ∷ []

abbrev pub second_results : TestResultsMap
second_results = (lit "a.x", fail_40) ∷ []

-- `commitdir_get_results` on two commits.
abbrev pub read_commit : Text → Option TestResultsMap
read_commit name =
    if name == lit "1"
    then some first_results
    else if name == lit "2"
    then some second_results
    else none

abbrev pub commit_dir : Text → DirEntry
commit_dir n = record { name = some n; is_dir = true }

abbrev pub two_commits : List DirEntry
two_commits = commit_dir (lit "1") ∷ commit_dir (lit "2") ∷ []

abbrev pub commit_40 : Text
commit_40 = lit "0123456789abcdef0123456789abcdef01234567"

abbrev pub listing : List Entry
listing = record { name = some commit_40; is_dir = true } ∷ []

abbrev pub disk : Disk
disk = record { capnp = (commit_40, render commit_40 none first_results) ∷ []; dirs = [] }

abbrev pub empty_store : Store
empty_store = record { disk = record { capnp = []; dirs = [] }; by_commit = [] }

abbrev pub group : RcTestGroup
group = record {
  max_commits = 10;
  nice = 0;
  test_duration_nice = 180;
  test_always_passes_nice = 10;
  tests = lit "a.ktest" ∷ [];
  kernels = [];
  env = [];
}

abbrev pub spec : TestSpec
spec = record {
  user = lit "kent";
  repo = lit "linux";
  test = lit "a.ktest";
  env = [];
  tg = group;
  subtests = lit "x" ∷ lit "y" ∷ [];
  kernels = [] ∷ [];
  commits = lit "2" ∷ lit "1" ∷ [];
}

abbrev pub ktestrc : Ktestrc
ktestrc = record {
  linux_repo = lit "/srv/linux";
  output_dir = lit "/srv/ci";
  ktest_dir = lit "/srv/ktest";
  ktest_url = none;
  repos =
      (lit "tools", record { path = lit "/srv/tools"; url = lit "git://host/tools"; path_url = [] })
      ∷ [];
  ci_url = none;
  ci_remote = none;
  ci_host = none;
  users_dir = none;
  subtest_duration_max = none;
  subtest_duration_def = none;
  keep_results_commits = none;
  verbose = false;
  user_nice = [];
  executors = [];
}

-- A repository whose one branch has three commits, and a fourth object that cannot be read.
abbrev pub git_of_three : Git Unit
git_of_three = record {
  open_repo = λ path. some tt;
  resolve = λ repo name. some (lit "2");
  walk = λ repo id. some (some (lit "2") ∷ none ∷ some (lit "1") ∷ some (lit "0") ∷ []);
  message = λ repo id. some (lit "subject");
}

-- `y` at the newest commit is the one place without a result.
abbrev pub y_job : Job
y_job = record {
  key = record {
    user = lit "kent";
    repo = lit "linux";
    commit = lit "2";
    kernel = [];
    env = [];
    test = lit "a.ktest";
    subtest = lit "y";
  };
  age = 0;
  nice = 0;
  duration = 30;
}
