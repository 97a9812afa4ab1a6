-- ===== src/Examples/Stats.antt =====
-- The sums over two commits, and the search in the file that holds them.
use ktest.Prelude.{ℕ, ◌≡◌, ◌<◌, refl, arith, List, [], ◌∷◌, Option, none, some, All, length}
use ktest.Text.{Text, lit}
use ktest.BTreeMap.{BTreeMap, get, IsAscending}
use ktest.Naming.{subtest_result_key}
use ktest.Stats.{
  TestDuration, read_duration_sums, Duration, duration_entries, TestStats, test_stats,
}
use ktest.Stats.Search.{written, test_stats-duration_entries}
use ktest.Stats.Sums.{runs, commits_of, summary, get-read_duration_sums}
use ktest.Examples.Data.{read_commit, two_commits}

two_commits-IsAscending : All IsAscending (commits_of read_commit two_commits)
unfolding ktest.Prelude.filter_map ktest.Stats.results_of_entry ktest.Text.text_beq ktest.Text.cmp
two_commits-IsAscending = ((((refl, tt), (tt, tt))), (((tt, tt), tt)))

get-read_duration_sums_example :
    get (lit "a.x") (read_duration_sums read_commit (some two_commits))
    ≡ summary (runs (lit "a.x") (commits_of read_commit two_commits))
get-read_duration_sums_example =
    get-read_duration_sums read_commit two_commits (lit "a.x") two_commits-IsAscending

abbrev a_x_duration : TestDuration
a_x_duration = record { secs = 60; nr = 2; nr_passed = 1; nr_failed = 1 }

two_runs : get (lit "a.x") (read_duration_sums read_commit (some two_commits)) ≡ some a_x_duration
unfolding read_duration_sums get ktest.Prelude.filter_map ktest.Text.text_beq ktest.BTreeMap.insert
    ktest.Text.cmp
two_runs = refl

abbrev durations : BTreeMap TestDuration
durations =
    (lit "a.x", a_x_duration)
    ∷ (lit "a.y", record { secs = 30; nr = 1; nr_passed = 0; nr_failed = 0 })
    ∷ (lit "b@6.1.x", record { secs = 9; nr = 3; nr_passed = 3; nr_failed = 0 })
    ∷ []

abbrev parse_durations : Text → Option (List Duration)
parse_durations bytes = some (duration_entries durations)

test_stats-duration_entries_example :
    test_stats parse_durations (some (lit "capnp")) (lit "b.ktest") (lit "x") (lit "6.1") []
    ≡ written (get (subtest_result_key (lit "b.ktest") (lit "x") (lit "6.1") []) durations)
unfolding ktest.Text.cmp
test_stats-duration_entries_example =
    test_stats-duration_entries parse_durations (lit "capnp") durations (lit "b.ktest") (lit "x")
      (lit "6.1") [] ((refl, (refl, tt)), ((refl, tt), (tt, tt))) refl

b_x_stats :
    test_stats parse_durations (some (lit "capnp")) (lit "b.ktest") (lit "x") (lit "6.1") []
    ≡ some (record { nr = 3; passed = 3; failed = 0; duration = 3 })
unfolding test_stats duration_entries ktest.Text.cmp subtest_result_key ktest.Text.replace_byte
    ktest.Text.remove_all
b_x_stats = refl

abbrev parse_sums : Text → Option (List Duration)
parse_sums bytes = some (duration_entries (read_duration_sums read_commit (some two_commits)))
