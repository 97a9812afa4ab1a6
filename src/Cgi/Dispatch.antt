-- ===== src/Cgi/Dispatch.antt =====
-- The entry of the web interface (src/bin/cgi.rs): from the request to the page.
pub mod Routes
use ktest.Prelude.{
  ℕ, ◌≡◌, Bool, true, false, ◌||◌, List, [], ◌∷◌, ◌++◌, Option, none, some, if◌then◌else◌, ◌==◌,
  any, unwrap_or, is_some, not,
}
use ktest.Prelude.Result.{Result, ok, err}
use ktest.Text.{Text, lit, text_eq, starts_with, split}
use ktest.BTreeMap.{get}
use ktest.HashMap as HashMap
use ktest.HashMap.{HashMap}
use ktest.Users.{Userrc, RcBranch, ConfigError}
use ktest.Config.{Ktestrc, CiConfig, repo_path}
use ktest.Git.{Git}
use ktest.Cgi.{CommitFiles, Ci, Outside, Regex, Response, error_response}
use ktest.Cgi.Log.{ci_log}
use ktest.Cgi.Commit.{ci_commit}
use ktest.Cgi.Users.{ci_user, ci_home, ci_status_page}

-- `collect` into a HashMap: the last value of a key stays.
unfoldable pub collect_query : List (Text × Text) → HashMap Text Text → HashMap Text Text
collect_query [] m = m
collect_query ((k, v) ∷ rest) m = collect_query rest (HashMap.insert k v m)

-- The repository of the branch, or none if one of the steps fails.
unfoldable pub branch_repo : CiConfig → Option Text → Option Text → Option Text
unfolding repo_path
branch_repo rc none branch = none
branch_repo rc (some user) none = none
branch_repo rc (some user) (some branch) = elim (get user rc.users) [
  | none ↦ none
  | some (err e) ↦ none
  | some (ok userrc) ↦ elim (get branch userrc.branches) [
    | none ↦ none
    | some branchconfig ↦ repo_path rc.ktest branchconfig.repo
  ]
]

abbrev pub is_status : Text → Bool
is_status p = p == lit "status" || starts_with p (lit "status=")

-- `cgi_header_get`: a header that is missing, or is not text, is empty.
unfoldable pub cgi_header_get : (Text → Option Text) → Text → Text
cgi_header_get headers name = unwrap_or (headers name) []

-- What the pages take as constant texts.
pub record Texts : Type 0 where
  pub commit_css_js : Text
  pub commit_filter : Text
  pub status_css : Text
  pub status_body : Text
  pub status_js : Text

module _ {Repo : Type 0} (o : Outside Repo) (texts : Texts) (config_error : ConfigError → Text)
    (signed : ℕ → Text) where
  -- The choice of the page: the response, and the directories of the commits after it.
  unfoldable pub route : Bool → Ci Repo → Response × CommitFiles
  unfolding ci_status_page ci_commit ci_log ci_user ci_home
  route status ci =
      if status
      then (
        ci_status_page ci.stylesheet texts.status_css texts.status_body texts.status_js,
        o.files,
      )
      else elim ci.user [
        | none ↦ (ci_home o config_error signed ci, o.files)
        | some user ↦ elim ci.commit [
          | some commit ↦ ci_commit o texts.commit_css_js texts.commit_filter ci
          | none ↦ elim ci.branch [
            | some branch ↦ (ci_log o ci, o.files)
            | none ↦ (ci_user o config_error signed ci, o.files)
          ]
        ]
      ]

  -- The query as `Ci`; `compile` is `Regex::new`.
  unfoldable pub ci_of_query :
      (Text → Option (Text → Bool)) → CiConfig → Repo → Text → HashMap Text Text → Ci Repo
  ci_of_query compile rc repo script_name query =
      let pattern = unwrap_or (HashMap.lookup (lit "test") query) [] in
      record {
        rc = rc;
        repo = repo;
        stylesheet = lit "bootstrap.min.css";
        script_name = script_name;
        user = HashMap.lookup (lit "user") query;
        branch = HashMap.lookup (lit "branch") query;
        commit = HashMap.lookup (lit "commit") query;
        tests_matching = elim (compile pattern) [
          | none ↦ record { as_str = []; matches = λ test. true }
          | some matches ↦ record { as_str = pattern; matches = matches }
        ];
        json = elim (HashMap.lookup (lit "format") query) [
          | none ↦ false
          | some f ↦ f == lit "json"
        ];
      }

  -- The whole request. `rc` is `ciconfig_read` or the text of its error, `exists` is
  -- `Path::exists`, `debug` formats a path, `open_error` is the text of git's error.
  unfoldable pub respond :
      Result Text CiConfig
      → (Text → Bool)
      → (Text → Text)
      → Text
      → (Text → List (Text × Text))
      → (Text → Option (Text → Bool))
      → (Text → Option Text)
      → Response × CommitFiles
  unfolding error_response branch_repo ci_of_query route collect_query cgi_header_get split
  respond (err e) exists debug open_error querify compile headers =
      (error_response o.env (lit "could not read config; " ++ e), o.files)
  respond (ok rc) exists debug open_error querify compile headers =
      let query_string = cgi_header_get headers (lit "x-cgi-query-string") in
      let query = collect_query (querify query_string) [] in
      let path =
        unwrap_or
          (branch_repo rc (HashMap.lookup (lit "user") query) (HashMap.lookup (lit "branch") query))
          rc.ktest.linux_repo in
      if not (exists rc.ktest.output_dir)
      then (
        error_response o.env (
            lit "required file missing: JOBSERVER_OUTPUT_DIR (got "
            ++ (debug rc.ktest.output_dir ++ lit ")")),
        o.files,
      )
      else elim (o.git.open_repo path) [
        | none ↦ (
          error_response o.env
              (lit "error opening repository " ++ (debug path ++ (lit ": " ++ open_error))),
          o.files,
        )
        | some repo ↦
            route (any is_status (split b'&' query_string))
              (ci_of_query compile rc repo (cgi_header_get headers (lit "x-cgi-script-name")) query)
      ]
