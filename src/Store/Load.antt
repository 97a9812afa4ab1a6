-- ===== src/Store/Load.antt =====
-- Loading the store at startup: what a previous run left unfinished is dropped, the rest is kept.
pub mod Startup
use ktest.Prelude.{
  ℕ, ◌≡◌, ◌≢◌, refl, sym, ap, ◌∙◌, Bool, true, false, ◌||◌, List, [], ◌∷◌, Option, none, some,
  arith, if◌then◌else◌, ◌==◌, is_empty, is_some, or_else, unwrap_or, contains, eq_iff, eq_self,
  Bool-cases, Option-cases, inl, inr, keep_if, All, IsNodup,
}
use ktest.Text.{Text, text_eq}
use ktest.BTreeMap.{BTreeMap, get, insert, insert_all, remove_keys, remove, IsAscending, IsAbove}
use ktest.BTreeMap.Laws.{get-remove_keys, get_above}
use ktest.HashMap as HashMap
use ktest.HashMap.{HashMap, lookup-insert}
use ktest.Status.{TestStatus, in_progress, failed_to_run, TestResult, TestResultsMap, job_wanted}
use ktest.Capnp.{
  CommitResultsCapnp, CapnpFile, parse_test_results, parse_test_results-IsAscending, render,
}
use ktest.Store.{
  Store, lookup, commit_results, read_capnp, Disk, drop_status, stale_keys, load_commit, load_entry,
  load_entries, load, Entry, is_commit_dir, remove_dirs, results_to_capnp,
}
use ktest.Store.Laws.{result_of}

-- What `load` keeps of a result.
unfoldable pub kept_result : Bool → Option TestResult → Option TestResult
unfolding drop_status
kept_result clear none = none
kept_result clear (some r) = if drop_status clear r.status then none else some r

stale_keys-absent :
    (clear : Bool) (m : TestResultsMap) (key : Text)
    → get key m ≡ none
    → contains (stale_keys clear m) key ≡ false
unfolding stale_keys get contains keep_if
stale_keys-absent clear [] key h = refl
stale_keys-absent clear ((k, r) ∷ m) key h =
    ground (arith, eq_iff k key, stale_keys-absent clear m key)

contains-stale_keys :
    (clear : Bool) (m : TestResultsMap) (key : Text) (r : TestResult)
    → IsAscending m
    → get key m ≡ some r
    → contains (stale_keys clear m) key ≡ drop_status clear r.status
unfolding stale_keys get contains keep_if
contains-stale_keys clear [] key r a h = ground arith
contains-stale_keys clear ((k, q) ∷ m) key r (b, a) h = ground (
  arith,
  eq_iff k key,
  get_above k m b,
  stale_keys-absent clear m key,
  contains-stale_keys clear m key r a,
)

get-kept :
    (clear : Bool) (m : TestResultsMap) (key : Text)
    → IsAscending m
    → get key (remove_keys (stale_keys clear m) m) ≡ kept_result clear (get key m)
unfolding kept_result
get-kept clear m key a = elim (Option-cases (get key m)) [
  | inl e ↦ ground (arith, e, get-remove_keys (stale_keys clear m) key m)
  | inr (r, e) ↦
      ground (
        arith,
        e,
        get-remove_keys (stale_keys clear m) key m,
        contains-stale_keys clear m key r a e,
      )
]

result_of-load_commit :
    (writes clear : Bool) (commit key : Text) (m : TestResultsMap) (s : Store)
    → IsAscending m
    → HashMap.lookup commit s.by_commit ≡ none
    → result_of commit key (load_commit writes clear commit m s) ≡ kept_result clear (get key m)
unfolding result_of load_commit get
result_of-load_commit writes clear commit key m s a h =
    elim (Bool-cases (is_empty (remove_keys (stale_keys clear m) m))) [
      | inl e ↦ ground (arith, e, h, get-kept clear m key a)
      | inr e ↦ ground (
        arith,
        e,
        eq_self commit,
        lookup-insert commit commit (remove_keys (stale_keys clear m) m) s.by_commit,
        get-kept clear m key a,
      )
    ]

file_kept :
    (writes : Bool) (commit c : Text) (clear : Bool) (m : TestResultsMap) (s : Store)
    → commit ≢ c
    → HashMap.lookup c (load_commit writes clear commit m s).disk.capnp
      ≡ HashMap.lookup c s.disk.capnp
unfolding load_commit results_to_capnp
file_kept true commit c clear m s h = ground (
  arith,
  eq_iff commit c,
  lookup-insert commit c (render commit none (remove_keys (stale_keys clear m) m)) s.disk.capnp,
)
file_kept false commit c clear m s h = ground arith

load_commit-other :
    (writes clear : Bool) (commit c : Text) (m : TestResultsMap) (s : Store)
    → commit ≢ c
    → (HashMap.lookup c (load_commit writes clear commit m s).by_commit
        ≡ HashMap.lookup c s.by_commit)
      × (read_capnp c (load_commit writes clear commit m s).disk ≡ read_capnp c s.disk)
unfolding load_commit read_capnp results_to_capnp
load_commit-other writes clear commit c m s h =
    let m' = remove_keys (stale_keys clear m) m in
    (
      ground (arith, eq_iff commit c, lookup-insert commit c m' s.by_commit),
      ap (λ o. elim o [ none ↦ none | some f ↦ parse_test_results f ])
          (file_kept writes commit c clear m s h),
    )

-- The commits of a listing.
unfoldable pub commit_dirs : List Entry → List Text
commit_dirs [] = []
commit_dirs (e ∷ es) =
    let rest = commit_dirs es in
    let commit = unwrap_or e.name [] in if is_commit_dir e commit then commit ∷ rest else rest

-- The result that a commit's file has for a subtest.
unfoldable pub stored_result : Text → Text → Disk → Option TestResult
stored_result commit key d = elim (read_capnp commit d) [ none ↦ none | some c ↦ get key c.tests ]

pub read_capnp-IsAscending :
    (commit : Text) (d : Disk) (c : CommitResultsCapnp)
    → read_capnp commit d ≡ some c
    → IsAscending c.tests
unfolding read_capnp
read_capnp-IsAscending commit d c e = elim (Option-cases (HashMap.lookup commit d.capnp)) [
  | inl h ↦ ground (arith, h)
  | inr (f, h) ↦ parse_test_results-IsAscending f c (rw (h, read_capnp) at e)
]

pub result_of-load_entry :
    (writes : Text → Bool) (clear : Bool) (e : Entry) (key : Text) (s : Store)
    → is_commit_dir e (unwrap_or e.name []) ≡ true
    → HashMap.lookup (unwrap_or e.name []) s.by_commit ≡ none
    → result_of (unwrap_or e.name []) key (load_entry writes clear e s)
      ≡ kept_result clear (stored_result (unwrap_or e.name []) key s.disk)
unfolding load_entry stored_result result_of kept_result
result_of-load_entry writes clear e key s d h =
    let commit = unwrap_or e.name [] in
    elim (Option-cases (read_capnp commit s.disk)) [
      | inl r ↦ ground (arith, d, r, h)
      | inr (c, r) ↦ ground (
        arith,
        d,
        r,
        result_of-load_commit (writes commit) clear commit key c.tests s
            (read_capnp-IsAscending commit s.disk c r) h,
      )
    ]

pub load_entry-other :
    (writes : Text → Bool) (clear : Bool) (e : Entry) (c : Text) (s : Store)
    → unwrap_or e.name [] ≢ c
    → (HashMap.lookup c (load_entry writes clear e s).by_commit ≡ HashMap.lookup c s.by_commit)
      × (read_capnp c (load_entry writes clear e s).disk ≡ read_capnp c s.disk)
unfolding load_entry
load_entry-other writes clear e c s h =
    let commit = unwrap_or e.name [] in
    elim (Bool-cases (is_commit_dir e commit)) [
      | inl d ↦ elim (Option-cases (read_capnp commit s.disk)) [
        | inl r ↦ rw (d, r) (refl, refl)
        | inr (f, r) ↦ rw (d, r) (load_commit-other (writes commit) clear commit c f.tests s h)
      ]
      | inr d ↦ rw d (refl, refl)
    ]
