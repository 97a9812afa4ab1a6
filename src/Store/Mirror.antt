-- ===== src/Store/Mirror.antt =====
-- The capnp files as a mirror of the results in memory (start times aside), which the operations
-- keep as long as the files can be written.
use ktest.Prelude.{
  ◌≡◌, ◌≢◌, refl, sym, ap, ◌∙◌, true, List, [], ◌∷◌, none, some, arith, ◌==◌, eq_iff, eq_self,
  Bool-cases, Option-cases, inl, inr,
}
use ktest.Text.{Text, text_eq}
use ktest.BTreeMap.{insert_all, IsAscending}
use ktest.BTreeMap.Laws.{insert_all-IsAscending, remove_keys-IsAscending}
use ktest.HashMap as HashMap
use ktest.HashMap.{HashMap, lookup-insert}
use ktest.Status.{TestResultsMap}
use ktest.Capnp.{CommitResultsCapnp, render, unstarted_map, unstarted, parse_test_results-render}
use ktest.Store.{
  Store, entry_of, put_entry, update, delete_keys, delete, read_capnp, Disk, results_to_capnp,
}
use ktest.Store.Laws.{delete_keys-remove_keys}

pub unstarted_map_twice : (m : TestResultsMap) → unstarted_map (unstarted_map m) ≡ unstarted_map m
unfolding unstarted_map
unstarted_map_twice [] = refl
unstarted_map_twice ((k, r) ∷ m) = ap (◌∷◌ (k, unstarted r)) (unstarted_map_twice m)

-- The file of a commit has the results `m`, start times aside.
abbrev pub Shows : Text → TestResultsMap → Disk → Type 0
Shows c m d =
    (f : CommitResultsCapnp) × (read_capnp c d ≡ some f) × (unstarted_map f.tests ≡ unstarted_map m)

-- Every commit in memory has its results in key order, and a file that shows them.
unfoldable pub IsMirrored : Store → Type 0
IsMirrored s =
    (c : Text) (m : TestResultsMap)
    → HashMap.lookup c s.by_commit ≡ some m
    → IsAscending m × Shows c m s.disk

pub Shows-written :
    (c : Text) (m : TestResultsMap) (d : Disk)
    → IsAscending m
    → Shows c m (results_to_capnp true c none m d)
unfolding results_to_capnp read_capnp
Shows-written c m d h = (
  record { message = []; commit_id = c; tests = unstarted_map m },
  ground (
    arith,
    lookup-insert c c (render c none m) d.capnp,
    eq_self c,
    parse_test_results-render c none m h,
  ),
  unstarted_map_twice m,
)

pub read_capnp-other :
    (commit c : Text) (m : TestResultsMap) (d : Disk)
    → commit ≢ c
    → read_capnp c (results_to_capnp true commit none m d) ≡ read_capnp c d
unfolding results_to_capnp read_capnp
read_capnp-other commit c m d h =
    ground (arith, eq_iff commit c, lookup-insert commit c (render commit none m) d.capnp)

pub put_entry-IsMirrored :
    (commit : Text) (m : TestResultsMap) (s : Store)
    → IsAscending m
    → IsMirrored s
    → IsMirrored (put_entry true commit m s)
unfolding IsMirrored
put_entry-IsMirrored commit m s a h c n e =
    let found = lookup-insert commit c m s.by_commit in
    elim (Bool-cases (commit == c)) [
      | inl same ↦
          let n_is : m ≡ n = ground (arith, found) in
          let c_is : commit ≡ c = (eq_iff commit c).0 same in
          rw (sym n_is, sym c_is) (a, Shows-written commit m s.disk a)
      | inr other ↦
          let kept : HashMap.lookup c s.by_commit ≡ some n = ground (arith, found) in
          let (asc, (f, r, same)) = h c n kept in
          let r' = read_capnp-other commit c m s.disk (λ p. ground (arith, eq_iff commit c)) ∙ r in
          (asc, (f, r', same))
    ]

entry_of-IsAscending : (commit : Text) (s : Store) → IsMirrored s → IsAscending (entry_of commit s)
unfolding IsMirrored
entry_of-IsAscending commit s h = elim (Option-cases (HashMap.lookup commit s.by_commit)) [
  | inl e ↦ rw e tt
  | inr (m, e) ↦ rw e (h commit m e).0
]

-- An update by a sorted map whose file is written keeps the files a mirror of the memory, start
-- times aside.
pub update-IsMirrored :
    (commit : Text) (updates : TestResultsMap) (s : Store)
    → IsAscending updates
    → IsMirrored s
    → IsMirrored (update true commit updates s)
unfolding update
update-IsMirrored commit [] s a h = h
update-IsMirrored commit (u ∷ us) s a h =
    put_entry-IsMirrored commit (insert_all (u ∷ us) (entry_of commit s)) s
      (insert_all-IsAscending (u ∷ us) (entry_of commit s) (entry_of-IsAscending commit s h)) h

-- A deletion whose file is written keeps the files a mirror of the memory, start times aside.
delete-IsMirrored :
    (commit : Text) (ks : List Text) (s : Store)
    → IsMirrored s
    → IsMirrored (delete true commit ks s)
unfolding delete IsMirrored
delete-IsMirrored commit [] s h = h
delete-IsMirrored commit (k ∷ ks) s h = elim (Option-cases (HashMap.lookup commit s.by_commit)) [
  | inl e ↦ rw e h
  | inr (m, e) ↦
      let asc : IsAscending (delete_keys (k ∷ ks) m).0 =
        rw (delete_keys-remove_keys (k ∷ ks) m)
          (remove_keys-IsAscending (k ∷ ks) m (h commit m e).0) in
      elim (Bool-cases (delete_keys (k ∷ ks) m).1) [
        | inl b ↦ rw (e, b) (put_entry-IsMirrored commit (delete_keys (k ∷ ks) m).0 s asc h)
        | inr b ↦ rw (e, b) h
      ]
]
