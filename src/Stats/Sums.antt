-- ===== src/Stats/Sums.antt =====
-- What gen-avg-duration sums: for each key the runs of that key over all commits.
use ktest.Prelude.{
  ℕ, ◌+◌, ◌%◌, ◌^◌, ◌<◌, ◌≡◌, refl, sym, ap, ◌∙◌, List, [], ◌∷◌, Option, none, some, arith, eq_iff,
  unwrap_or, filter_map, length, All,
}
use ktest.Text.{Text, text_eq}
use ktest.BTreeMap.{BTreeMap, get, insert, IsAscending}
use ktest.BTreeMap.Laws.{get-insert, insert-IsAscending, get_above}
use ktest.Status.{TestResult, TestResultsMap, passed, failed, status_beq}
use ktest.Naming.{subtest_result_key}
use ktest.Stats.{
  TestDuration, no_runs, bit, add_result, add_results, sum_commits, DirEntry, results_of_entry,
  read_duration_sums, Duration, duration_entries, test_stats,
}
use ktest.Stats.Search.{test_stats-duration_entries, written}

add_results-IsAscending :
    (c : TestResultsMap) (d : BTreeMap TestDuration) → IsAscending d → IsAscending (add_results c d)
unfolding add_results
add_results-IsAscending [] d h = h
add_results-IsAscending ((k, r) ∷ c) d h = add_results-IsAscending c _ (insert-IsAscending k _ d h)

sum_commits-IsAscending :
    (cs : List TestResultsMap) (d : BTreeMap TestDuration)
    → IsAscending d
    → IsAscending (sum_commits cs d)
unfolding sum_commits
sum_commits-IsAscending [] d h = h
sum_commits-IsAscending (c ∷ cs) d h =
    sum_commits-IsAscending cs (add_results c d) (add_results-IsAscending c d h)

-- The entries are written in the order that the binary search wants.
pub read_duration_sums-IsAscending :
    (read : Text → Option TestResultsMap) (dir : Option (List DirEntry))
    → IsAscending (read_duration_sums read dir)
unfolding read_duration_sums
read_duration_sums-IsAscending read none = tt
read_duration_sums-IsAscending read (some es) =
    sum_commits-IsAscending (filter_map (results_of_entry read) es) [] tt

-- One more run of a key.
abbrev bump : Option TestDuration → Option TestResult → Option TestDuration
bump d none = d
bump d (some r) = some (add_result (unwrap_or d no_runs) r)

get-add_results :
    (k : Text) (c : TestResultsMap) (d : BTreeMap TestDuration)
    → IsAscending c
    → get k (add_results c d) ≡ bump (get k d) (get k c)
unfolding add_results get
get-add_results k [] d h = refl
get-add_results k ((j, r) ∷ c) d (b, h) = ground (
  arith,
  get-add_results k c (insert j (add_result (unwrap_or (get j d) no_runs) r) d) h,
  get-insert j k (add_result (unwrap_or (get j d) no_runs) r) d,
  get_above j c b,
  eq_iff j k,
)

-- The runs of a key, commit by commit, and their summary.
abbrev pub runs : Text → List TestResultsMap → List TestResult
runs k cs = filter_map (get k) cs

abbrev pub add_runs : Option TestDuration → List TestResult → Option TestDuration
add_runs d [] = d
add_runs d (r ∷ rs) = add_runs (bump d (some r)) rs

get-sum_commits :
    (k : Text) (cs : List TestResultsMap) (d : BTreeMap TestDuration)
    → All IsAscending cs
    → get k (sum_commits cs d) ≡ add_runs (get k d) (runs k cs)
unfolding sum_commits filter_map
get-sum_commits k [] d h = refl
get-sum_commits k (c ∷ cs) d (a, h) =
    ground (arith, get-sum_commits k cs (add_results c d) h, get-add_results k c d a)

-- Independent sums over a list of runs.
abbrev pub total_secs : List TestResult → ℕ
total_secs [] = 0
total_secs (r ∷ rs) = r.duration + total_secs rs

abbrev pub count_passed : List TestResult → ℕ
count_passed [] = 0
count_passed (r ∷ rs) = bit (status_beq r.status passed) + count_passed rs

abbrev pub count_failed : List TestResult → ℕ
count_failed [] = 0
count_failed (r ∷ rs) = bit (status_beq r.status failed) + count_failed rs

abbrev pub word : ℕ
word = 2 ^ 64

-- A key with no run has no entry; any other has the sums of its runs, each as a u64.
abbrev pub summary : List TestResult → Option TestDuration
summary [] = none
summary (r ∷ rs) = some (record {
  secs = total_secs (r ∷ rs) % word;
  nr = length (r ∷ rs) % word;
  nr_passed = count_passed (r ∷ rs) % word;
  nr_failed = count_failed (r ∷ rs) % word;
})

abbrev plus : TestDuration → List TestResult → TestDuration
plus t rs = record {
  secs = (t.secs + total_secs rs) % word;
  nr = (t.nr + length rs) % word;
  nr_passed = (t.nr_passed + count_passed rs) % word;
  nr_failed = (t.nr_failed + count_failed rs) % word;
}

record IsWord (t : TestDuration) : Type 0 where
  secs : t.secs < word
  nr : t.nr < word
  nr_passed : t.nr_passed < word
  nr_failed : t.nr_failed < word

add_runs-plus :
    (t : TestDuration) (rs : List TestResult) → IsWord t → add_runs (some t) rs ≡ some (plus t rs)
unfolding add_result
add_runs-plus t [] w = ap some (ground arith)
add_runs-plus t (r ∷ rs) w =
    add_runs-plus (add_result t r) rs (omega arith) ∙ ap some (ground arith)

add_runs-summary : (rs : List TestResult) → add_runs none rs ≡ summary rs
unfolding add_result
add_runs-summary [] = refl
add_runs-summary (r ∷ rs) =
    add_runs-plus (add_result no_runs r) rs (omega arith) ∙ ap some (ground arith)

-- The results of the commits that the directory lists.
abbrev pub commits_of : (Text → Option TestResultsMap) → List DirEntry → List TestResultsMap
commits_of read es = filter_map (results_of_entry read) es

-- For every key, the map that gen-avg-duration builds holds the sums over the runs of that key in
-- the commits that could be read, as u64; a key with no run has no entry. The results of each
-- commit are in key order.
pub get-read_duration_sums :
    (read : Text → Option TestResultsMap) (es : List DirEntry) (k : Text)
    → All IsAscending (commits_of read es)
    → get k (read_duration_sums read (some es)) ≡ summary (runs k (commits_of read es))
unfolding read_duration_sums get
get-read_duration_sums read es k h =
    get-sum_commits k (commits_of read es) [] h ∙ add_runs-summary (runs k (commits_of read es))

-- Where the results of each commit are in key order and the reader gives back the entries that
-- gen-avg-duration wrote, `test_stats` answers for a subtest with the sums over its runs.
test_stats-read_duration_sums :
    (parse : Text → Option (List Duration)) (bytes : Text) (read : Text → Option TestResultsMap)
    (es : List DirEntry) (test subtest kernel env : Text)
    → All IsAscending (commits_of read es)
    → parse bytes ≡ some (duration_entries (read_duration_sums read (some es)))
    → test_stats parse (some bytes) test subtest kernel env
      ≡ written (summary (runs (subtest_result_key test subtest kernel env) (commits_of read es)))
test_stats-read_duration_sums parse bytes read es test subtest kernel env h e =
    test_stats-duration_entries parse bytes (read_duration_sums read (some es)) test subtest kernel
      env (read_duration_sums-IsAscending read (some es)) e
    ∙ ap written (get-read_duration_sums read es (subtest_result_key test subtest kernel env) h)

-- Below 2^64 runs of a key, with the results of each commit in key order, its entry does not count
-- zero runs, so the average divides by no zero.
read_duration_sums-nr :
    (read : Text → Option TestResultsMap) (es : List DirEntry) (k : Text) (t : TestDuration)
    → All IsAscending (commits_of read es)
    → length (runs k (commits_of read es)) < word
    → get k (read_duration_sums read (some es)) ≡ some t
    → 0 < t.nr
read_duration_sums-nr read es k t h small e =
    positive (runs k (commits_of read es)) t small (sym (get-read_duration_sums read es k h) ∙ e)
  where
    positive :
        (rs : List TestResult) (t : TestDuration)
        → length rs < word
        → summary rs ≡ some t
        → 0 < t.nr
    positive [] t small e = cc
    positive (r ∷ rs) t small e = ground arith
