-- ===== src/Capnp.antt =====
-- The capnp file of one commit: what `results_to_capnp` writes and `parse_test_results` reads.
use ktest.Prelude.{
  ℕ, ◌≡◌, refl, List, [], ◌∷◌, Option, none, some, arith, unwrap_or, map, Option-cases, inl, inr,
}
use ktest.Text.{Text, text_eq}
use ktest.BTreeMap.{insert, insert_all, IsAscending, IsAbove}
use ktest.BTreeMap.Laws.{insert_all-nil, insert-IsAscending}
use ktest.Status.{TestStatus, TestResult, TestResultsMap}

-- An entry as a reader sees it: the name or the status may be unreadable.
pub record StoredEntry : Type 0 where
  pub name : Option Text
  pub starttime : ℕ
  pub duration : ℕ
  pub status : Option TestStatus

pub record CapnpFile : Type 0 where
  pub message : Text
  pub commit_id : Text
  pub entries : List StoredEntry

pub record CommitResultsCapnp : Type 0 where
  pub message : Text
  pub commit_id : Text
  pub tests : TestResultsMap

-- The entry that `results_to_capnp` writes. The start time is not set, so it has the default 0.
abbrev pub stored : Text × TestResult → StoredEntry
stored p = record {
  name = some p.0;
  starttime = 0;
  duration = p.1.duration;
  status = some p.1.status;
}

-- The message that `results_to_capnp` builds.
unfoldable pub render : Text → Option Text → TestResultsMap → CapnpFile
render commit_id message results = record {
  message = unwrap_or message [];
  commit_id = commit_id;
  entries = map stored results;
}

-- The loop of `parse_test_results`; an unreadable field ends it with an error. The `unwrap` of the
-- start time panics on one that chrono does not represent; here each is one that it does, as in the
-- files that the programs write, where it is 0.
unfoldable pub parse_entries : List StoredEntry → TestResultsMap → Option TestResultsMap
parse_entries [] results = some results
parse_entries (e ∷ es) results = elim e.status [
  | none ↦ none
  | some s ↦ elim e.name [
    | none ↦ none
    | some n ↦
        parse_entries es
          (insert n (record { status = s; starttime = e.starttime; duration = e.duration }) results)
  ]
]

unfoldable pub parse_test_results : CapnpFile → Option CommitResultsCapnp
unfolding parse_entries
parse_test_results f = elim (parse_entries f.entries []) [
  | none ↦ none
  | some tests ↦ some (record { message = f.message; commit_id = f.commit_id; tests = tests })
]

-- A map with the start times dropped, as a file keeps it.
abbrev pub unstarted : TestResult → TestResult
unstarted r = record r { starttime = 0 }

unfoldable pub unstarted_map : TestResultsMap → TestResultsMap
unstarted_map [] = []
unstarted_map ((k, r) ∷ m) = (k, unstarted r) ∷ unstarted_map m

parse_entries-stored :
    (m acc : TestResultsMap)
    → parse_entries (map stored m) acc ≡ some (insert_all (unstarted_map m) acc)
unfolding parse_entries unstarted_map insert_all
parse_entries-stored [] acc = refl
parse_entries-stored ((k, r) ∷ m) acc = parse_entries-stored m (insert k (unstarted r) acc)

unstarted-IsAbove : (k : Text) (m : TestResultsMap) → IsAbove k m → IsAbove k (unstarted_map m)
unfolding unstarted_map
unstarted-IsAbove k [] h = tt
unstarted-IsAbove k (p ∷ m) (b, h) = (b, unstarted-IsAbove k m h)

pub unstarted_map-IsAscending : (m : TestResultsMap) → IsAscending m → IsAscending (unstarted_map m)
unfolding unstarted_map
unstarted_map-IsAscending [] h = tt
unstarted_map-IsAscending ((k, r) ∷ m) (b, h) =
    (unstarted-IsAbove k m b, unstarted_map-IsAscending m h)

parse_entries-IsAscending :
    (es : List StoredEntry) (acc m : TestResultsMap)
    → IsAscending acc
    → parse_entries es acc ≡ some m
    → IsAscending m
unfolding parse_entries
parse_entries-IsAscending [] acc m a e = ground (arith, a)
parse_entries-IsAscending (x ∷ es) acc m a e = elim (Option-cases x.status) [
  | inl h ↦ ground (arith, h)
  | inr (s, h) ↦ elim (Option-cases x.name) [
    | inl g ↦ ground (arith, h, g)
    | inr (n, g) ↦
        let r : TestResult = record {
          status = s;
          starttime = x.starttime;
          duration = x.duration;
        } in
        parse_entries-IsAscending es (insert n r acc) m (insert-IsAscending n r acc a)
          (rw (h, g, parse_entries) at e)
  ]
]

pub parse_test_results-IsAscending :
    (f : CapnpFile) (c : CommitResultsCapnp) → parse_test_results f ≡ some c → IsAscending c.tests
unfolding parse_test_results
parse_test_results-IsAscending f c e = elim (Option-cases (parse_entries f.entries [])) [
  | inl h ↦ ground (arith, h)
  | inr (m, h) ↦ ground (arith, h, parse_entries-IsAscending f.entries [] m tt h)
]

-- Reading a written file of a sorted map gives the commit, the message (empty if there was none)
-- and every result with its key, status and duration; the start times are lost.
pub parse_test_results-render :
    (commit_id : Text) (message : Option Text) (m : TestResultsMap)
    → IsAscending m
    → parse_test_results (render commit_id message m)
      ≡ some (record {
        message = unwrap_or message [];
        commit_id = commit_id;
        tests = unstarted_map m;
      })
unfolding parse_test_results render
parse_test_results-render commit_id message m h = rw (
  parse_entries-stored m [],
  parse_test_results,
  insert_all-nil (unstarted_map m) (unstarted_map-IsAscending m h),
)
