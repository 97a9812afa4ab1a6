-- ===== src/Files/Cleanup.antt =====
-- Dropping the markers of unfinished runs: which directories stay.
use ktest.Prelude.{
  ◌≡◌, refl, ap, sym, Bool, true, false, ◌&&◌, List, [], ◌∷◌, Option, none, some, arith,
  if◌then◌else◌, ◌==◌, eq_iff, eq_self, Option-cases, Bool-cases, inl, inr, unwrap_or, contains,
  nat_beq,
}
use ktest.Text.{Text, text_eq}
use ktest.BTreeMap.{BTreeMap, get, IsAscending, IsAbove}
use ktest.BTreeMap.Laws.{get_above}
use ktest.HashMap as HashMap
use ktest.HashMap.{lookup-insert}
use ktest.Store.{ResultDir, Disk, results_to_capnp, Entry, is_commit_dir}
use ktest.Store.Load.{commit_dirs}
use ktest.Files.{
  dir_of, dirs_of, is_stale, sweep, set_dirs, commit_update_results, cleanup_commit,
  cleanup_entries, cleanup_inprogress_results,
}

-- What becomes of one directory.
abbrev pub swept : Bool → Option ResultDir → Option ResultDir
swept removed none = none
swept removed (some dir) = if is_stale dir && removed then none else some dir

sweep-IsAbove :
    (removes : Text → Bool) (k : Text) (ds : BTreeMap ResultDir)
    → IsAbove k ds
    → IsAbove k (sweep removes ds).0
unfolding sweep
sweep-IsAbove removes k [] h = tt
sweep-IsAbove removes k ((j, dir) ∷ ds) (b, h) = ground (arith, sweep-IsAbove removes k ds h)

sweep-IsAscending :
    (removes : Text → Bool) (ds : BTreeMap ResultDir)
    → IsAscending ds
    → IsAscending (sweep removes ds).0
unfolding sweep
sweep-IsAscending removes [] h = tt
sweep-IsAscending removes ((k, dir) ∷ ds) (b, h) =
    ground (arith, sweep-IsAbove removes k ds b, sweep-IsAscending removes ds h)

get-sweep :
    (removes : Text → Bool) (ds : BTreeMap ResultDir) (key : Text)
    → IsAscending ds
    → get key (sweep removes ds).0 ≡ swept (removes key) (get key ds)
unfolding sweep get
get-sweep removes [] key h = refl
get-sweep removes ((k, dir) ∷ ds) key (b, h) = elim (Bool-cases (k == key)) [
  | inl e ↦
      let same : k ≡ key = (eq_iff k key).0 e in
      ground (
        arith,
        e,
        get-sweep removes ds key h,
        get_above k ds b,
        ap removes same,
        ap (λ x. get x ds) same,
      )
  | inr e ↦ ground (arith, e, get-sweep removes ds key h)
]

sweep-none_deleted :
    (removes : Text → Bool) (ds : BTreeMap ResultDir)
    → (sweep removes ds).1 ≡ 0
    → (sweep removes ds).0 ≡ ds
unfolding sweep
sweep-none_deleted removes [] h = refl
sweep-none_deleted removes ((k, dir) ∷ ds) h = ground (arith, sweep-none_deleted removes ds)

-- Writing a capnp file leaves the directories alone.
pub commit_update_results-dirs :
    (writes : Bool) (commit : Text) (message : Option Text) (d : Disk)
    → (commit_update_results writes commit message d).dirs ≡ d.dirs
unfolding commit_update_results results_to_capnp
commit_update_results-dirs true commit message d = refl
commit_update_results-dirs false commit message d = refl

dirs_of-cleanup_commit :
    (writes : Text → Bool) (removes : Text → Text → Bool) (commit c : Text) (d : Disk)
    → dirs_of c (cleanup_commit writes removes commit d)
      ≡ (if commit == c then (sweep (removes commit) (dirs_of commit d)).0 else dirs_of c d)
unfolding cleanup_commit
dirs_of-cleanup_commit writes removes commit c d =
    let (kept, deleted) = sweep (removes commit) (dirs_of commit d) in
    elim (Bool-cases (nat_beq deleted 0)) [
      | inl e ↦
          let same = sweep-none_deleted (removes commit) (dirs_of commit d) (ground (arith, e)) in
          rw (e, same) (unchanged c)
      | inr e ↦
          let written =
            commit_update_results-dirs (writes commit) commit none (set_dirs commit kept d) in
          rw (e, written) (ground (arith, lookup-insert commit c kept d.dirs, eq_iff commit c))
    ]
  where
    unchanged : (c : Text) → dirs_of c d ≡ (if commit == c then dirs_of commit d else dirs_of c d)
    unchanged c = elim (Bool-cases (commit == c)) [
      | inl e ↦ rw e (ap (λ x. dirs_of x d) (sym ((eq_iff commit c).0 e)))
      | inr e ↦ rw e refl
    ]

pub dir_of-get : (c key : Text) (d : Disk) → dir_of c key d ≡ get key (dirs_of c d)
unfolding get
dir_of-get c key d = elim (Option-cases (HashMap.lookup c d.dirs)) [
  | inl e ↦ ground (arith, e)
  | inr (m, e) ↦ ground (arith, e)
]

get-cleanup_entries :
    (writes : Text → Bool) (removes : Text → Text → Bool) (es : List Entry) (d : Disk)
    (c key : Text)
    → IsAscending (dirs_of c d)
    → get key (dirs_of c (cleanup_entries writes removes es d)) ≡ (
        if contains (commit_dirs es) c
        then swept (removes c key) (get key (dirs_of c d))
        else get key (dirs_of c d))
unfolding cleanup_entries commit_dirs contains
get-cleanup_entries writes removes [] d c key h = refl
get-cleanup_entries writes removes (e ∷ es) d c key h =
    let commit = unwrap_or e.name [] in
    let d' = cleanup_commit writes removes commit d in
    let after = dirs_of-cleanup_commit writes removes commit c d in
    elim (Bool-cases (is_commit_dir e commit)) [
      | inr n ↦ ground (arith, n, get-cleanup_entries writes removes es d c key h)
      | inl y ↦ elim (Bool-cases (commit == c)) [
        | inr other ↦
            let same : dirs_of c d' ≡ dirs_of c d = ground (arith, after, other) in
            let below = get-cleanup_entries writes removes es d' c key (rw same h) in
            ground (arith, below, same, y, other)
        | inl this ↦
            let p : commit ≡ c = (eq_iff commit c).0 this in
            let now : dirs_of c d' ≡ (sweep (removes c) (dirs_of c d)).0 = rw (← p) (
              ground
                (arith, dirs_of-cleanup_commit writes removes commit commit d, eq_self commit)) in
            let below =
              get-cleanup_entries writes removes es d' c key
                (rw now (sweep-IsAscending (removes c) (dirs_of c d) h)) in
            ground (arith, below, now, get-sweep (removes c) (dirs_of c d) key h, y, this)
      ]
    ]

-- Where the names of the directories of a commit ascend, a result directory is gone after the
-- cleaning exactly where its commit is listed, its status reads as in progress and it can be
-- removed; every other one is as it was.
pub dir_of-cleanup_inprogress_results :
    (writes : Text → Bool) (removes : Text → Text → Bool) (es : List Entry) (d : Disk)
    (c key : Text)
    → IsAscending (dirs_of c d)
    → dir_of c key (cleanup_inprogress_results writes removes (some es) d) ≡ (
        if contains (commit_dirs es) c
        then swept (removes c key) (dir_of c key d)
        else dir_of c key d)
unfolding cleanup_inprogress_results
dir_of-cleanup_inprogress_results writes removes es d c key h =
    rw (dir_of-get c key d, dir_of-get c key (cleanup_entries writes removes es d))
      (get-cleanup_entries writes removes es d c key h)
