-- ===== src/CiStatus/Commands.antt =====
-- The commands of the terminal client and their dispatch (`run`).
use ktest.Prelude.{
  ℕ, ◌+◌, Bool, true, false, List, [], ◌∷◌, ◌++◌, Option, none, some, if◌then◌else◌, is_empty,
  length, map, keep_if, ◌==◌, or_else, unwrap_or, flat_map,
}
use ktest.Prelude.Result.{Result, ok, err}
use ktest.Prelude.Cmp.{by_key}
use ktest.Prelude.Cmp.Sort.{sort_by}
use ktest.Text.{Text, lit, text_eq, contains_text, cmp, join}
use ktest.Status.{failed, status_beq, TestResult, TestResultsMap}
use ktest.Capnp.{CommitResultsCapnp}
use ktest.Users.{RcBranch, userrc_read_str}
use ktest.Config.{Ktestrc}
use ktest.Branch.{branch_get_results, branch_entries}
use ktest.Cgi.{CommitTests, line}
use ktest.Cgi.Commit.{test_entry}
use ktest.CiStatus.{
  Failure, bail, outside_error, panic, Ran, prints, fails, then_run, Calls, color_status, color_dim,
  slice_to, pad_left, pad_right, user_config_path, open_branch_repo, resolve_branch,
  resolve_commit_prefix,
}
use ktest.CiStatus.Render.{render_log, render_show}
use ktest.CiStatus.Server.{server_log, server_show, server_branches, is_success}

-- `Iterator::find`.
unfoldable pub find : {A : Type 0} → (A → Bool) → List A → Option A
find f [] = none
find f (x ∷ xs) = let later = find f xs in if f x then some x else later

-- `exact.or(first_failed).unwrap_or(&matches[0])`, over the first match and the others.
unfoldable pub chosen : Text → Text × TestResult → TestResultsMap → Text × TestResult
unfolding find
chosen filter first rest =
    unwrap_or
      (or_else (find (λ p. p.0 == filter) (first ∷ rest))
        (find (λ p. status_beq p.1.status failed) (first ∷ rest)))
      first

abbrev pub matching : Text → TestResultsMap → TestResultsMap
matching filter tests = keep_if (λ p. contains_text p.0 filter) tests

module _ {Repo : Type 0} (calls : Calls Repo) (ktest : Ktestrc) where
  -- `cmd_log`; `read` is `commitdir_get_results` after the files were fetched.
  unfoldable pub cmd_log : (Text → Option TestResultsMap) → Text → Bool → Ran
  unfolding open_branch_repo resolve_branch branch_get_results branch_entries render_log
  cmd_log read branch as_json = then_run (open_branch_repo calls ktest branch) (λ repo.
      then_run (resolve_branch calls ktest repo branch) (λ gitref.
        elim (branch_get_results calls.git read repo ktest none none (some gitref) (λ test. true)) [
          | err e ↦ fails outside_error
          | ok results ↦ render_log calls (branch_entries results) branch as_json
        ]))

  -- `commitdir_get_results_full` is a parameter here, with its error as a missing result.
  abbrev pub full_results :
      (Text → Option CommitResultsCapnp) → Text → Result Failure CommitResultsCapnp
  full_results read commit = elim (read commit) [ none ↦ err outside_error | some c ↦ ok c ]

  unfoldable pub detail_of : Text → CommitResultsCapnp → CommitTests
  detail_of commit full = record {
    commit = commit;
    message = full.message;
    tests = map test_entry full.tests;
  }

  unfoldable pub cmd_show : (Text → Option CommitResultsCapnp) → Text → Bool → Ran
  unfolding resolve_commit_prefix detail_of render_show
  cmd_show read commit as_json =
      then_run (resolve_commit_prefix calls.decimal (calls.list_dir ktest.output_dir) commit) (λ id.
        then_run (full_results read id) (λ full. render_show calls (detail_of id full) as_json))

  unfoldable pub ci_scp_path : Result Failure Text
  ci_scp_path = elim ktest.ci_host [
    | none ↦ err (bail (lit "ci_host not set in config"))
    | some host ↦ ok (host ++ lit ":ci.json5")
  ]

  unfoldable pub cmd_pull_config : Ran
  unfolding ci_scp_path user_config_path
  cmd_pull_config = then_run ci_scp_path (λ remote.
      let dest = user_config_path calls ktest in
      elim (calls.scp remote dest) [
        | none ↦ fails outside_error
        | some false ↦ fails (
            bail (
              lit "scp "
              ++ (remote
                  ++ (lit " failed "
                      ++ ((226 ∷ 128 ∷ 148 ∷ [])
                          ++ lit " you may need to set up ~/ci.json5 on the server")))))
        | some true ↦ prints (line (lit "Config saved to " ++ dest))
      ])

  unfoldable pub cmd_push_config : Ran
  unfolding ci_scp_path user_config_path
  cmd_push_config = then_run ci_scp_path (λ remote.
      let src = user_config_path calls ktest in
      elim (calls.read_file src) [
        | none ↦ fails (
            bail (
              lit "no local config at "
              ++ (src ++ (lit " " ++ ((226 ∷ 128 ∷ 148 ∷ []) ++ lit " run pull-config first")))))
        | some config ↦ elim (calls.scp src remote) [
          | none ↦ fails outside_error
          | some false ↦ fails (bail (lit "scp failed"))
          | some true ↦ prints (line (lit "Config pushed to " ++ remote))
        ]
      ])

  unfoldable pub branch_line : Text × RcBranch → Text
  unfolding join pad_right
  branch_line b =
      line (pad_right 40 b.0 ++ (lit " " ++ color_dim (join (lit ", ") b.1.test_groups)))

  unfoldable pub cmd_branches : Bool → Ran
  unfolding user_config_path branch_line userrc_read_str
  cmd_branches as_json = elim (calls.read_file (user_config_path calls ktest)) [
    | none ↦ fails (
        bail (
          lit "no user config "
          ++ ((226 ∷ 128 ∷ 148 ∷ []) ++ lit " run `ci-status pull-config` first")))
    | some config ↦ elim (userrc_read_str calls.parse_json5 config) [
      | err e ↦ fails outside_error
      | ok userrc ↦
          if as_json
          then prints (line (calls.print_user userrc))
          else prints (flat_map branch_line userrc.branches)
    ]
  ]

  abbrev pub decompressed : Text → Result Failure Text
  decompressed bytes = elim (calls.decompress bytes) [ none ↦ err outside_error | some t ↦ ok t ]

  -- `fetch_log`: the file in the output directory if it is there, or the server's.
  unfoldable pub fetch_log : Text → Text → Bool → Result Failure Text
  fetch_log commit test full =
      let filename = if full then lit "full_log.br" else lit "log.br" in
      let path = commit ++ (lit "/" ++ (test ++ (lit "/" ++ filename))) in
      elim (calls.read_file (ktest.output_dir ++ (lit "/" ++ path))) [
        | some bytes ↦ decompressed bytes
        | none ↦ elim ktest.ci_url [
          | none ↦ err (bail (lit "no ci_url configured and log not found locally"))
          | some ci_url ↦
              let url = ci_url ++ (lit "/" ++ path) in
              elim (calls.http url) [
                | none ↦ err outside_error
                | some resp ↦
                    if is_success resp.status
                    then decompressed resp.body
                    else err (bail (lit "HTTP " ++ (resp.status_text ++ (lit " fetching " ++ url))))
              ]
        ]
      ]

  -- The numbered list of the failed tests.
  unfoldable pub failed_lines : ℕ → TestResultsMap → Text
  unfolding pad_left
  failed_lines i [] = []
  failed_lines i (p ∷ ps) =
      line (
        lit "  "
        ++ (pad_left 3 (calls.decimal i)
            ++ (lit ". " ++ (p.0 ++ (lit " (" ++ (calls.decimal p.1.duration ++ lit "s)"))))))
      ++ failed_lines (i + 1) ps

  abbrev pub match_line : Text × TestResult → Text
  match_line p = line (lit "  " ++ (color_status p.1.status ++ (lit " " ++ p.0)))

  -- The log of one test, after notes on the choice.
  abbrev pub show_log : Text → Text → Bool → Text → Ran
  show_log commit test full notes = elim (fetch_log commit test full) [
    | err f ↦ record { out = []; notes = notes; ended = err f }
    | ok log ↦ record { out = log; notes = notes; ended = ok tt }
  ]

  unfoldable pub log_of_match : Text → Text → TestResultsMap → Bool → Ran
  unfolding fetch_log chosen slice_to color_status
  log_of_match commit filter [] full = elim (slice_to 12 commit) [
    | none ↦ fails panic
    | some short ↦
        fails (bail (lit "no test matching '" ++ (filter ++ (lit "' for commit " ++ short))))
  ]
  log_of_match commit filter (p ∷ []) full = show_log commit p.0 full []
  log_of_match commit filter (p ∷ q ∷ ps) full =
      let test = (chosen filter p (q ∷ ps)).0 in
      show_log commit test full (
        line (
          lit "Multiple tests match '"
          ++ (filter ++ (lit "' " ++ ((226 ∷ 128 ∷ 148 ∷ []) ++ lit " showing all:\n"))))
        ++ (flat_map match_line (p ∷ q ∷ ps)
            ++ (line [] ++ line (lit "Showing log for: " ++ (test ++ lit "\n")))))

  unfoldable pub list_failed : Text → TestResultsMap → Ran
  unfolding failed_lines slice_to
  list_failed commit tests =
      let failed_tests =
        sort_by (by_key (λ p. p.0) cmp) (keep_if (λ p. status_beq p.1.status failed) tests) in
      elim (slice_to 12 commit) [
        | none ↦ fails panic
        | some short ↦
            if is_empty failed_tests
            then prints (line (lit "No failed tests for " ++ short))
            else prints (
                line (
                  calls.decimal (length failed_tests)
                  ++ (lit " failed tests for " ++ (short ++ lit ":\n")))
                ++ (failed_lines 1 failed_tests
                    ++ line (
                        lit "\nUse: ci-status logs "
                        ++ (short ++ lit " <test-name-or-substring>"))))
      ]

  unfoldable pub cmd_logs : (Text → Option CommitResultsCapnp) → Text → Option Text → Bool → Ran
  unfolding resolve_commit_prefix log_of_match list_failed
  cmd_logs read commit test full =
      then_run (resolve_commit_prefix calls.decimal (calls.list_dir ktest.output_dir) commit) (λ id.
        then_run (full_results read id) (λ results. elim test [
          | some filter ↦ log_of_match id filter (matching filter results.tests) full
          | none ↦ list_failed id results.tests
        ]))

-- `Command` and `Args`.
pub data Command : Type 0 where
  log show : Text → Command
  branches pull_config push_config : Command
  logs : Text → Option Text → Bool → Command

pub record Args : Type 0 where
  pub command : Command
  pub remote : Option Text
  pub user : Option Text
  pub dashboard : Text
  pub branch : Option Text
  pub json : Bool

module _ {Repo : Type 0} (calls : Calls Repo) where
  -- The commands of `--user` mode.
  unfoldable pub run_user : Args → Text → Command → Ran
  unfolding server_log server_show server_branches render_log render_show
  run_user args user (log branch) =
      then_run (server_log calls args.dashboard user branch)
        (λ entries. render_log calls entries branch args.json)
  run_user args user (show commit) = elim args.branch [
    | none ↦
        fails (bail (lit "show --user needs --branch (the server resolves commits per-branch)"))
    | some branch ↦
        then_run (server_show calls args.dashboard user branch commit)
          (λ detail. render_show calls detail args.json)
  ]
  run_user args user branches = then_run (server_branches calls args.dashboard user) (λ b.
      if args.json
      then prints (line (calls.print_branches b))
      else prints (flat_map line b.branches))
  run_user args user _ = fails (bail (lit "--user mode supports log, show, and branches"))

  -- The commands over local files; the configuration is what `ktestrc_read` and `--remote` give.
  unfoldable pub run_local :
      (Text → Option TestResultsMap)
      → (Ktestrc → Text → Option CommitResultsCapnp)
      → Args
      → Ktestrc
      → Command
      → Ran
  unfolding cmd_log cmd_show cmd_logs cmd_branches cmd_pull_config cmd_push_config
  run_local read read_full args ktest (log branch) = cmd_log calls ktest read branch args.json
  run_local read read_full args ktest (show commit) =
      cmd_show calls ktest (read_full ktest) commit args.json
  run_local read read_full args ktest (logs commit test full) =
      cmd_logs calls ktest (read_full ktest) commit test full
  run_local read read_full args ktest branches = cmd_branches calls ktest args.json
  run_local read read_full args ktest pull_config = cmd_pull_config calls ktest
  run_local read read_full args ktest push_config = cmd_push_config calls ktest

  unfoldable pub run :
      (Text → Option TestResultsMap)
      → (Ktestrc → Text → Option CommitResultsCapnp)
      → Option Ktestrc
      → Args
      → Ran
  unfolding run_user run_local
  run read read_full config args = elim args.user [
    | some user ↦ run_user args user args.command
    | none ↦ elim config [
      | none ↦ fails outside_error
      | some ktest ↦
          run_local read read_full args (record ktest { ci_url = or_else args.remote ktest.ci_url })
            args.command
    ]
  ]
