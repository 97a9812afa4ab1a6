-- ===== src/Stats.antt =====
-- Historical durations: src/bin/gen-avg-duration.rs sums the results of all commits into one sorted
-- file, and `test_stats` of src/lib.rs finds an entry of it by binary search.
pub mod Search
pub mod Sums
use ktest.Prelude.{
  ℕ, zero, suc, ◌+◌, ◌-◌, ◌/◌, ◌%◌, ◌^◌, ◌≡◌, Bool, true, false, List, [], ◌∷◌, Option, none, some,
  ltb, if◌then◌else◌, ◌==◌, Ordering, get_elem?, length, unwrap_or, map, filter_map,
}
use ktest.Text.{Text, cmp, text_eq}
use ktest.BTreeMap.{BTreeMap, get, insert}
use ktest.Status.{TestResult, TestStatus, passed, failed, status_beq, TestResultsMap}
use ktest.Naming.{subtest_result_key}

-- u64 addition.
abbrev pub add64 : ℕ → ℕ → ℕ
add64 a b = (a + b) % 2 ^ 64

pub record TestDuration : Type 0 where
  pub secs : ℕ
  pub nr : ℕ
  pub nr_passed : ℕ
  pub nr_failed : ℕ

abbrev pub no_runs : TestDuration
no_runs = record { secs = 0; nr = 0; nr_passed = 0; nr_failed = 0 }

-- `b as u64`.
abbrev pub bit : Bool → ℕ
bit true = 1
bit false = 0

-- The body of the inner loop of `read_duration_sums`.
unfoldable pub add_result : TestDuration → TestResult → TestDuration
add_result t result = record {
  secs = add64 t.secs result.duration;
  nr = add64 t.nr 1;
  nr_passed = add64 t.nr_passed (bit (status_beq result.status passed));
  nr_failed = add64 t.nr_failed (bit (status_beq result.status failed));
}

-- The inner loop, over one commit's results.
unfoldable pub add_results : TestResultsMap → BTreeMap TestDuration → BTreeMap TestDuration
unfolding add_result
add_results [] durations = durations
add_results ((test, result) ∷ rest) durations =
    add_results rest
      (insert test (add_result (unwrap_or (get test durations) no_runs) result) durations)

-- A directory entry: its name if it is text, and whether it is a directory.
pub record DirEntry : Type 0 where
  pub name : Option Text
  pub is_dir : Bool

-- One entry: its name, then `commitdir_get_results`, which may fail.
unfoldable pub results_of_entry : (Text → Option TestResultsMap) → DirEntry → Option TestResultsMap
results_of_entry read e = elim e.is_dir [
  | false ↦ none
  | true ↦ elim e.name [ none ↦ none | some n ↦ read n ]
]

unfoldable pub sum_commits : List TestResultsMap → BTreeMap TestDuration → BTreeMap TestDuration
unfolding add_results
sum_commits [] durations = durations
sum_commits (c ∷ cs) durations = sum_commits cs (add_results c durations)

-- `read_duration_sums`; no listing at all is an empty map.
unfoldable pub read_duration_sums :
    (Text → Option TestResultsMap) → Option (List DirEntry) → BTreeMap TestDuration
unfolding results_of_entry sum_commits
read_duration_sums read none = []
read_duration_sums read (some entries) = sum_commits (filter_map (results_of_entry read) entries) []

-- One `Duration` of the capnp file, as a reader sees it: `get_test` may fail.
pub record Duration : Type 0 where
  pub test : Option Text
  pub nr : ℕ
  pub passed : ℕ
  pub failed : ℕ
  pub duration : ℕ

-- The entry that `write_durations_capnp` writes for a pair of the map, and the list of all.
abbrev pub duration_entry : Text × TestDuration → Duration
duration_entry p = record {
  test = some p.0;
  nr = p.1.nr;
  passed = p.1.nr_passed;
  failed = p.1.nr_failed;
  duration = p.1.secs / p.1.nr;
}

unfoldable pub duration_entries : BTreeMap TestDuration → List Duration
duration_entries durations = map duration_entry durations

pub record TestStats : Type 0 where
  pub nr : ℕ
  pub passed : ℕ
  pub failed : ℕ
  pub duration : ℕ

abbrev pub stats_of : Duration → TestStats
stats_of d = record { nr = d.nr; passed = d.passed; failed = d.failed; duration = d.duration }

-- How the loop of `test_stats` ends. `out_of_fuel` is the model's own.
pub data Found : Type 0 where
  hit : TestStats → Found
  miss : Found
  unreadable : Found
  out_of_fuel : Found

module _ (entries : List Duration) (full_test : Text) where
  -- `while l < r`.
  unfoldable pub search_loop : ℕ → ℕ → ℕ → Found
  search_loop zero l r = out_of_fuel
  search_loop (suc fuel) l r = elim (ltb l r) [
    | false ↦ miss
    | true ↦
        let m = l + (r - l) / 2 in
        elim (get_elem? entries m) [
          | none ↦ unreadable
          | some d ↦ elim d.test [
            | none ↦ unreadable
            | some t ↦ elim (cmp full_test t) [
              | Ordering.lt ↦ search_loop fuel l m
              | Ordering.gt ↦ search_loop fuel (m + 1) r
              | Ordering.eq ↦ hit (stats_of d)
            ]
          ]
        ]
  ]

abbrev pub found_stats : Found → Option TestStats
found_stats (hit s) = some s
found_stats _ = none

-- `test_stats`, over the capnp reader `parse`. The `unwrap` of a name panics on one that is not UTF-8;
-- here a name that can be read is UTF-8, as in the files that gen-avg-duration writes.
unfoldable pub test_stats :
    (Text → Option (List Duration)) → Option Text → Text → Text → Text → Text → Option TestStats
unfolding search_loop
test_stats parse none test subtest kernel env = none
test_stats parse (some bytes) test subtest kernel env = elim (parse bytes) [
  | none ↦ none
  | some entries ↦ found_stats (
      search_loop entries (subtest_result_key test subtest kernel env) (suc (length entries)) 0
        (length entries))
]
