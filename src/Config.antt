-- ===== src/Config.antt =====
-- The server configuration: `Ktestrc` and `CiConfig` of src/lib.rs, and the reading of the users'
-- files.
pub mod Repos
use ktest.Prelude.{
  ℕ, Bool, true, false, List, [], ◌∷◌, Option, none, some, if◌then◌else◌, ◌==◌, is_empty, ◌≡◌,
}
use ktest.Prelude.Result.{Result, ok, err}
use ktest.Text.{Text, lit, text_eq}
use ktest.BTreeMap.{BTreeMap, get, insert}
use ktest.HashMap.{HashMap}
use ktest.Users.{Userrc, ConfigError}

-- One worker host, and one entry of `repos`.
pub record ExecutorHost : Type 0 where
  pub slots : ℕ

pub record RepoConfig : Type 0 where
  pub path : Text
  pub url : Text
  pub path_url : Text

pub record Ktestrc : Type 0 where
  pub linux_repo : Text
  pub output_dir : Text
  pub ktest_dir : Text
  pub ktest_url : Option Text
  pub repos : BTreeMap RepoConfig
  pub ci_url : Option Text
  pub ci_remote : Option Text
  pub ci_host : Option Text
  pub users_dir : Option Text
  pub subtest_duration_max : Option ℕ
  pub subtest_duration_def : Option ℕ
  pub keep_results_commits : Option ℕ
  pub verbose : Bool
  -- an i64, as its 64 bits
  pub user_nice : BTreeMap ℕ
  pub executors : BTreeMap ExecutorHost

pub record CiConfig : Type 0 where
  pub ktest : Ktestrc
  pub users : BTreeMap (Result ConfigError Userrc)

-- `Ktestrc::repo_path`, `repo_url`, `repo_path_url`.
unfoldable pub repo_path : Ktestrc → Text → Option Text
repo_path rc name = elim (get name rc.repos) [
  | some r ↦ some r.path
  | none ↦ if name == lit "linux" then some rc.linux_repo else none
]

unfoldable pub repo_url : Ktestrc → Text → Option Text
repo_url rc name = elim (get name rc.repos) [ some r ↦ some r.url | none ↦ none ]

unfoldable pub repo_path_url : Ktestrc → Text → Option Text
repo_path_url rc name = elim (get name rc.repos) [
  | some r ↦ some (if is_empty r.path_url then r.url else r.path_url)
  | none ↦ none
]

-- One entry of the users' directory: its stem and its extension, if it has one.
pub record UserFile : Type 0 where
  pub stem : Text
  pub extension : Option Text
  pub content : Result ConfigError Userrc

abbrev pub is_json5 : Option Text → Bool
is_json5 none = false
is_json5 (some e) = e == lit "json5"

-- The loop of `ciconfig_read`.
unfoldable pub read_users :
    List UserFile → BTreeMap (Result ConfigError Userrc) → BTreeMap (Result ConfigError Userrc)
read_users [] users = users
read_users (f ∷ fs) users =
    read_users fs (if is_json5 f.extension then insert f.stem f.content users else users)

-- `ciconfig_read`, over the server's configuration and a listing of a directory, which may fail.
unfoldable pub ciconfig_read : Option Ktestrc → (Text → Option (List UserFile)) → Option CiConfig
unfolding read_users
ciconfig_read none list_dir = none
ciconfig_read (some rc) list_dir = elim rc.users_dir [
  | none ↦ some (record { ktest = rc; users = [] })
  | some dir ↦ elim (list_dir dir) [
    | none ↦ none
    | some fs ↦ some (record { ktest = rc; users = read_users fs [] })
  ]
]
