-- ===== src/Store.antt =====
-- `TestResultsStore` of src/lib.rs, with the part of the disk that it reads and writes: the
-- commits' capnp files and the directories of their subtests. A capnp file that cannot be read or
-- decoded counts as missing, as `load` treats it. The mutex makes each operation one step; `writes`
-- says whether a file can be written, since a failure is logged and the operation goes on.
pub mod Laws
pub mod Mirror
pub mod Load
use ktest.Prelude.{
  ℕ, ◌≡◌, Bool, true, false, not, ◌&&◌, ◌||◌, List, [], ◌∷◌, Option, none, some, if◌then◌else◌,
  ◌==◌, is_empty, is_some, unwrap_or, map, all, length, leb, nat_beq, keep_if,
}
use ktest.Text.{Text, text_eq}
use ktest.BTreeMap.{BTreeMap, get, insert, insert_all, remove_keys, remove, keys}
use ktest.HashMap as HashMap
use ktest.HashMap.{HashMap}
use ktest.Status.{TestStatus, in_progress, failed_to_run, status_beq, TestResult, TestResultsMap}
use ktest.Capnp.{CapnpFile, CommitResultsCapnp, render, parse_test_results}

-- The files of one subtest's directory.
pub record ResultDir : Type 0 where
  pub status : Option Text
  pub duration : Option Text
  pub mtime : ℕ

pub record Disk : Type 0 where
  pub capnp : HashMap Text CapnpFile
  pub dirs : HashMap Text (BTreeMap ResultDir)

pub record Store : Type 0 where
  pub disk : Disk
  pub by_commit : HashMap Text TestResultsMap

abbrev pub set_capnp : Text → CapnpFile → Disk → Disk
set_capnp commit f d = record d { capnp = HashMap.insert commit f d.capnp }

-- `results_to_capnp`: a temporary file renamed over the old one, or nothing.
unfoldable pub results_to_capnp : Bool → Text → Option Text → TestResultsMap → Disk → Disk
results_to_capnp true commit message results d = set_capnp commit (render commit message results) d
results_to_capnp false commit message results d = d

-- `lookup`, `commit_results`.
unfoldable pub lookup : Text → Text → Store → Option TestStatus
lookup commit key s = elim (HashMap.lookup commit s.by_commit) [
  | none ↦ none
  | some m ↦ elim (get key m) [ none ↦ none | some r ↦ some r.status ]
]

unfoldable pub commit_results : Store → Text → Option TestResultsMap
commit_results s commit = HashMap.lookup commit s.by_commit

-- The entry of a commit, and its replacement with a rewrite of the commit's file.
abbrev pub entry_of : Text → Store → TestResultsMap
entry_of commit s = unwrap_or (HashMap.lookup commit s.by_commit) []

abbrev pub put_entry : Bool → Text → TestResultsMap → Store → Store
put_entry writes commit m s = record {
  disk = results_to_capnp writes commit none m s.disk;
  by_commit = HashMap.insert commit m s.by_commit;
}

unfoldable pub update : Bool → Text → TestResultsMap → Store → Store
unfolding results_to_capnp
update writes commit updates s =
    if is_empty updates
    then s
    else put_entry writes commit (insert_all updates (entry_of commit s)) s

unfoldable pub update_one : Bool → Text → Text → TestResult → Store → Store
unfolding update
update_one writes commit key result s = update writes commit (insert key result []) s

-- The loop of `delete`: the map without the keys, and whether one was there.
unfoldable pub delete_keys : List Text → TestResultsMap → TestResultsMap × Bool
delete_keys [] m = (m, false)
delete_keys (k ∷ ks) m =
    let (m', changed) = delete_keys ks (remove k m) in (m', is_some (get k m) || changed)

unfoldable pub delete : Bool → Text → List Text → Store → Store
unfolding delete_keys results_to_capnp
delete writes commit ks s = if is_empty ks then s else elim (HashMap.lookup commit s.by_commit) [
  | none ↦ s
  | some m ↦
      let (m', changed) = delete_keys ks m in if changed then put_entry writes commit m' s else s
]

-- An entry of the output directory.
pub record Entry : Type 0 where
  pub name : Option Text
  pub is_dir : Bool

-- `is_ascii_hexdigit`, and the names that are full commit ids.
abbrev pub is_hexdigit : ℕ → Bool
is_hexdigit c =
    (leb b'0' c && leb c b'9') || ((leb b'a' c && leb c b'f') || (leb b'A' c && leb c b'F'))

abbrev pub is_commit_dir : Entry → Text → Bool
is_commit_dir e commit = nat_beq (length commit) 40 && (all is_hexdigit commit && e.is_dir)

-- The closure `drop_status` of `load`.
unfoldable pub drop_status : Bool → TestStatus → Bool
drop_status clear s = status_beq s in_progress || (clear && status_beq s failed_to_run)

unfoldable pub stale_keys : Bool → TestResultsMap → List Text
unfolding drop_status
stale_keys clear m = keys (keep_if (λ p. drop_status clear p.1.status) m)

abbrev pub remove_dirs : Text → List Text → Disk → Disk
remove_dirs commit ks d = record d {
  dirs =
      HashMap.insert commit (remove_keys ks (unwrap_or (HashMap.lookup commit d.dirs) [])) d.dirs;
}

-- What `load` does with the results of one commit: the stale ones are dropped, with their
-- directories, and the file is rewritten; a map that is left empty is not kept.
unfoldable pub load_commit : Bool → Bool → Text → TestResultsMap → Store → Store
unfolding stale_keys results_to_capnp
load_commit writes clear commit m s =
    let stale = stale_keys clear m in
    let m' = remove_keys stale m in
    let d =
      if is_empty stale
      then s.disk
      else results_to_capnp writes commit none m' (remove_dirs commit stale s.disk) in
    record {
      disk = d;
      by_commit = if is_empty m' then s.by_commit else HashMap.insert commit m' s.by_commit;
    }

-- The results in a commit's file.
unfoldable pub read_capnp : Text → Disk → Option CommitResultsCapnp
read_capnp commit d = elim (HashMap.lookup commit d.capnp) [
  | none ↦ none
  | some f ↦ parse_test_results f
]

unfoldable pub load_entry : (Text → Bool) → Bool → Entry → Store → Store
unfolding load_commit read_capnp
load_entry writes clear e s =
    let commit = unwrap_or e.name [] in
    if is_commit_dir e commit
    then elim (read_capnp commit s.disk) [
      | none ↦ s
      | some c ↦ load_commit (writes commit) clear commit c.tests s
    ]
    else s

unfoldable pub load_entries : (Text → Bool) → Bool → List Entry → Store → Store
unfolding load_entry
load_entries writes clear [] s = s
load_entries writes clear (e ∷ es) s = load_entries writes clear es (load_entry writes clear e s)

-- `TestResultsStore::load`; a directory that cannot be listed is empty.
unfoldable pub load : (Text → Bool) → Bool → Option (List Entry) → Disk → Store
unfolding load_entries
load writes clear listing d =
    load_entries writes clear (unwrap_or listing []) (record { disk = d; by_commit = [] })
