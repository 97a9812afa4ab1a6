-- ===== src/Lib.antt =====
-- A model of the continuous-integration server of ktest: the Rust programs under src/ that decide
-- what to test, hand the jobs to workers, and record and show the results.
--
-- How the parts interact. The users' files (src/users.rs) are read into a configuration
-- (src/lib.rs). `desired_jobs` (src/jobs.rs) builds from it, from the branches' commits and from
-- the tests' subtests the matrix of all jobs, leaves out those that have a result, and returns a
-- window of the most urgent ones, which the daemon (src/bin/ci-daemon.rs) runs. Results are kept
-- per commit in a store (`TestResultsStore`, src/lib.rs), which a capnp file for each commit
-- mirrors; the web pages read the files. gen-avg-duration (src/bin/gen-avg-duration.rs) sums past
-- results into a file that the scheduler searches.
--
-- The files. Prelude has tests, lists, comparators, results and membership; Text has byte strings
-- with the operations of `str`; BTreeMap and HashMap have the maps of the standard library.
--   Status    `TestStatus`, `TestResult` (src/lib.rs), `job_wanted` (src/jobs.rs)
--   Users     `resolve_group`, `userrc_read_str` (src/users.rs)
--   Config    `Ktestrc`, `CiConfig`, `ciconfig_read` (src/lib.rs)
--   Naming    `subtest_result_key`, `encode_env` (src/lib.rs), `job_env_prefix` (ci-daemon.rs)
--   Stats     `read_duration_sums`, `write_durations_capnp` (gen-avg-duration.rs), `test_stats`
--             (src/lib.rs)
--   Git       the calls of git2, as a record of functions
--   Jobs      `get_subtests`, `build_test_specs`, `job_nice`, `job_weight`, `desired_jobs`
--   Capnp     `results_to_capnp` (the message), `parse_test_results` (src/lib.rs)
--   Store     `TestResultsStore` (src/lib.rs)
--   Branch    `branch_get_results`, `last_good_line`, the branch log (src/lib.rs)
--   Daemon    `run_ktest_job`, `run_ktest_job_inner`, `refill`, `make_job_spec` (ci-daemon.rs),
--             `read_test_result` (src/lib.rs)
--             Daemon/Fetcher has `fetch_branch` and `spawn_repo_fetcher` (ci-daemon.rs), and
--             Daemon/System has the batches of all workers as a step relation over the one store
--   Gc        src/bin/gc-results.rs
--   Files     `commitdir_get_results_fs`, `commit_update_results`, `cleanup_inprogress_results`,
--             `prefetch_capnp`, `update_lcov` (src/lib.rs)
--   Cgi       src/bin/cgi.rs: the pages, one module to each, and Dispatch, the choice of the page
--   Rm        src/bin/rm-results.rs
--   CiStatus  src/bin/ci-status.rs: the finding of commits, the tables, the client of the
--             dashboard's JSON, the commands
--   Examples  small inputs, tests and instances
--
-- Conventions. A text is its list of bytes. A BTreeMap is its list of pairs, in ascending order of
-- key. Machine integers are natural numbers with the wrap-around written out. What a program calls
-- outside the repository (git2, the JSON5 parser, the capnp reader and writer, the file system) is
-- a parameter: a function, a record of functions, or a Boolean that says whether a write succeeds.
--
-- Fuel. `resolve_group` recurses on one more than the number of groups: a call gets past the cycle
-- test only with a group that is not on the stack. The binary search of `test_stats` runs on one
-- more than the number of entries: each round shortens the range. The resume loop of the daemon runs
-- on two more than the number of subtests: each round settles a subtest, cleans once, or ends.
--
-- Not modelled: the threads and processes of the daemon, its choir of workers and the log files,
-- the style sheets and scripts that src/bin/cgi.rs embeds, the parsing of command lines, and the
-- small tools that fetch files, the panics on a start time that chrono does not represent
-- (`parse_test_results`) and on a name that is not UTF-8 (`test_stats`), neither of which the programs
-- write to their files. Logging is left out.
pub mod Prelude
pub mod Text
pub mod BTreeMap
pub mod HashMap
pub mod Status
pub mod Users
pub mod Naming
pub mod Stats
pub mod Config
pub mod Git
pub mod Jobs
pub mod Capnp
pub mod Store
pub mod Branch
pub mod Daemon
pub mod Gc
pub mod Rm
pub mod Cgi
pub mod Examples
pub mod CiStatus
pub mod Files
