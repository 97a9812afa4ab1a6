-- ===== src/Store/Load/Startup.antt =====
-- Startup as a whole: the results in memory after `load`, and the jobs that are wanted then.
use ktest.Prelude.{
  ◌≡◌, ◌≢◌, refl, ap, ◌∙◌, Bool, true, false, List, [], ◌∷◌, none, some, arith, if◌then◌else◌, ◌==◌,
  Option, unwrap_or, contains, eq_iff, eq_self, Bool-cases, Option-cases, inl, inr, IsNodup,
}
use ktest.Text.{Text, text_eq}
use ktest.BTreeMap.{get}
use ktest.HashMap as HashMap
use ktest.HashMap.{HashMap, lookup-insert}
use ktest.Status.{
  TestStatus, in_progress, passed, failed, notrun, failed_to_run, unknown, TestResult, job_wanted,
}
use ktest.Store.{Store, lookup, Disk, load_entry, load_entries, load, Entry, is_commit_dir}
use ktest.Store.Laws.{result_of}
use ktest.Store.Load.{
  kept_result, stored_result, commit_dirs, result_of-load_entry, load_entry-other,
}

-- No commit of the listing is in memory yet.
Unloaded : List Entry → Store → Type 0
Unloaded es s =
    (c : Text) → contains (commit_dirs es) c ≡ true → HashMap.lookup c s.by_commit ≡ none

Unloaded-head :
    (e : Entry) (es : List Entry) (s : Store)
    → is_commit_dir e (unwrap_or e.name []) ≡ true
    → Unloaded (e ∷ es) s
    → HashMap.lookup (unwrap_or e.name []) s.by_commit ≡ none
unfolding commit_dirs contains Unloaded
Unloaded-head e es s d u =
    u (unwrap_or e.name []) (ground (arith, d, eq_self (unwrap_or e.name [])))

Unloaded-skip :
    (e : Entry) (es : List Entry) (s : Store)
    → is_commit_dir e (unwrap_or e.name []) ≡ false
    → Unloaded (e ∷ es) s
    → Unloaded es s
unfolding commit_dirs Unloaded
Unloaded-skip e es s d u c h = u c (rw d h)

Unloaded-tail :
    (writes : Text → Bool) (clear : Bool) (e : Entry) (es : List Entry) (s : Store)
    → is_commit_dir e (unwrap_or e.name []) ≡ true
    → contains (commit_dirs es) (unwrap_or e.name []) ≡ false
    → Unloaded (e ∷ es) s
    → Unloaded es (load_entry writes clear e s)
unfolding commit_dirs contains Unloaded
Unloaded-tail writes clear e es s d n u c h =
    let commit = unwrap_or e.name [] in
    let differs : commit ≢ c = λ p. ground (arith, rw p at n) in
    (load_entry-other writes clear e c s differs).0 ∙ u c (ground (arith, d))

result_of-load_entry_other :
    (writes : Text → Bool) (clear : Bool) (e : Entry) (c key : Text) (s : Store)
    → unwrap_or e.name [] ≢ c
    → (result_of c key (load_entry writes clear e s) ≡ result_of c key s)
      × (stored_result c key (load_entry writes clear e s).disk ≡ stored_result c key s.disk)
unfolding result_of stored_result
result_of-load_entry_other writes clear e c key s h =
    let (l, r) = load_entry-other writes clear e c s h in
    (
      ap (λ o. elim o [ none ↦ none | some m ↦ get key m ]) l,
      ap (λ o. elim o [ none ↦ none | some f ↦ get key f.tests ]) r,
    )

load_entries-result_of :
    (writes : Text → Bool) (clear : Bool) (es : List Entry) (s : Store) (c key : Text)
    → IsNodup (commit_dirs es)
    → Unloaded es s
    → result_of c key (load_entries writes clear es s) ≡ (
        if contains (commit_dirs es) c
        then kept_result clear (stored_result c key s.disk)
        else result_of c key s)
unfolding load_entries commit_dirs contains
load_entries-result_of writes clear [] s c key n u = refl
load_entries-result_of writes clear (e ∷ es) s c key n u =
    let commit = unwrap_or e.name [] in
    let s' = load_entry writes clear e s in
    elim (Bool-cases (is_commit_dir e commit)) [
      | inl d ↦
          let (new, distinct) = rw d at n in
          let below =
            load_entries-result_of writes clear es s' c key distinct
              (Unloaded-tail writes clear e es s d new u) in
          elim (Bool-cases (commit == c)) [
            | inl same ↦
                let p : commit ≡ c = (eq_iff commit c).0 same in
                let loaded =
                  result_of-load_entry writes clear e key s d (Unloaded-head e es s d u) in
                ground (arith, below, rw p at new, rw p at loaded, d, same)
            | inr other ↦
                let kept =
                  result_of-load_entry_other writes clear e c key s
                    (λ p. ground (arith, eq_iff commit c)) in
                ground (arith, below, kept, d, other)
          ]
      | inr d ↦
          rw d
            (load_entries-result_of writes clear es s c key (rw d at n) (Unloaded-skip e es s d u))
    ]

-- After startup, the listing naming each commit once, the store has for every commit with a
-- directory just the results that its file has and that are not stale, and nothing else.
pub result_of-load :
    (writes : Text → Bool) (clear : Bool) (es : List Entry) (d : Disk) (c key : Text)
    → IsNodup (commit_dirs es)
    → result_of c key (load writes clear (some es) d)
      ≡ (if contains (commit_dirs es) c then kept_result clear (stored_result c key d) else none)
unfolding load Unloaded result_of HashMap.lookup
result_of-load writes clear es d c key n =
    load_entries-result_of writes clear es (record { disk = d; by_commit = [] }) c key n
      (λ j h. refl)

abbrev status_of : Option TestResult → Option TestStatus
status_of o = elim o [ none ↦ none | some r ↦ some r.status ]

lookup-result_of : (c key : Text) (s : Store) → lookup c key s ≡ status_of (result_of c key s)
unfolding lookup result_of
lookup-result_of c key s = elim (Option-cases (HashMap.lookup c s.by_commit)) [
  | inl e ↦ ground (arith, e)
  | inr (m, e) ↦ elim (Option-cases (get key m)) [
    | inl f ↦ ground (arith, e, f)
    | inr (r, f) ↦ ground (arith, e, f)
  ]
]

-- Whether a stored result leaves its subtest to be run.
unfoldable pub is_unsettled : Bool → Option TestResult → Bool
is_unsettled clear none = true
is_unsettled clear (some r) = elim r.status [
  | in_progress ↦ true
  | unknown ↦ true
  | failed_to_run ↦ clear
  | passed ↦ false
  | failed ↦ false
  | notrun ↦ false
]

job_wanted-kept_result :
    (clear : Bool) (o : Option TestResult)
    → job_wanted (status_of (kept_result clear o)) ≡ is_unsettled clear o
unfolding job_wanted is_unsettled kept_result
job_wanted-kept_result clear none = refl
job_wanted-kept_result clear (some r) = ground arith

-- After startup, the listing naming each commit once, a subtest of a commit that has a directory
-- is wanted exactly where the file of the commit has no result for it, or one that is in progress
-- or unknown, or, with `clear`, one that failed to run; every subtest of another commit is wanted.
pub job_wanted-load :
    (writes : Text → Bool) (clear : Bool) (es : List Entry) (d : Disk) (c key : Text)
    → IsNodup (commit_dirs es)
    → job_wanted (lookup c key (load writes clear (some es) d))
      ≡ (if contains (commit_dirs es) c then is_unsettled clear (stored_result c key d) else true)
unfolding job_wanted
job_wanted-load writes clear es d c key n =
    let s = load writes clear (some es) d in
    ap job_wanted (lookup-result_of c key s)
    ∙ ap (λ o. job_wanted (status_of o)) (result_of-load writes clear es d c key n)
    ∙ by_listing (contains (commit_dirs es) c)
  where
    by_listing :
        (b : Bool)
        → job_wanted (status_of (if b then kept_result clear (stored_result c key d) else none))
          ≡ (if b then is_unsettled clear (stored_result c key d) else true)
    by_listing true = job_wanted-kept_result clear (stored_result c key d)
    by_listing false = refl
