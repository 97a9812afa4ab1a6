-- ===== src/Store/Laws.antt =====
-- What the operations do to the results in memory, whether or not the files can be written.
use ktest.Prelude.{
  ◌≡◌, refl, Bool, true, false, List, [], ◌∷◌, Option, none, some, arith, if◌then◌else◌, ◌==◌,
  or_else, contains, eq_iff, Option-cases, inl, inr, ◌&&◌,
}
use ktest.Text.{Text, text_eq}
use ktest.BTreeMap.{get, insert_all, remove_keys, remove, IsAscending}
use ktest.BTreeMap.Laws.{get-insert_all, get-remove_keys, get-remove}
use ktest.HashMap as HashMap
use ktest.HashMap.{HashMap, lookup-insert}
use ktest.Status.{TestResult, TestResultsMap, TestStatus}
use ktest.Store.{Store, entry_of, update, delete_keys, delete, lookup}

-- The result that the store has for a subtest.
unfoldable pub result_of : Text → Text → Store → Option TestResult
result_of commit key s = elim (HashMap.lookup commit s.by_commit) [
  | none ↦ none
  | some m ↦ get key m
]

-- After an update by a sorted map the store has the new result where there is one, and all else as
-- before.
pub result_of-update :
    (writes : Bool) (commit c key : Text) (updates : TestResultsMap) (s : Store)
    → IsAscending updates
    → result_of c key (update writes commit updates s)
      ≡ (if commit == c then or_else (get key updates) (result_of c key s) else result_of c key s)
unfolding result_of update get
result_of-update writes commit c key [] s h = ground arith
result_of-update writes commit c key (u ∷ us) s h = ground (
  arith,
  eq_iff commit c,
  lookup-insert commit c (insert_all (u ∷ us) (entry_of commit s)) s.by_commit,
  get-insert_all (u ∷ us) (entry_of commit s) key h,
)

pub delete_keys-remove_keys :
    (ks : List Text) (m : TestResultsMap) → (delete_keys ks m).0 ≡ remove_keys ks m
unfolding delete_keys remove_keys
delete_keys-remove_keys [] m = refl
delete_keys-remove_keys (k ∷ ks) m = delete_keys-remove_keys ks (remove k m)

delete_keys-unchanged :
    (ks : List Text) (m : TestResultsMap) (key : Text)
    → (delete_keys ks m).1 ≡ false
    → contains ks key ≡ true
    → get key m ≡ none
unfolding delete_keys contains
delete_keys-unchanged [] m key e h = ground arith
delete_keys-unchanged (k ∷ ks) m key e h =
    ground (arith, eq_iff k key, delete_keys-unchanged ks (remove k m) key, get-remove k key m)

-- After a deletion the store has no result under the keys, and all else as before.
result_of-delete :
    (writes : Bool) (commit c key : Text) (ks : List Text) (s : Store)
    → result_of c key (delete writes commit ks s)
      ≡ (if (commit == c) && contains ks key then none else result_of c key s)
unfolding result_of delete contains
result_of-delete writes commit c key [] s = ground arith
result_of-delete writes commit c key (k ∷ ks) s =
    elim (Option-cases (HashMap.lookup commit s.by_commit)) [
      | inl e ↦ ground (arith, e, eq_iff commit c)
      | inr (m, e) ↦
          let gone = delete_keys-remove_keys (k ∷ ks) m in
          ground (
            arith,
            e,
            gone,
            eq_iff commit c,
            delete_keys-unchanged (k ∷ ks) m key,
            get-remove_keys (k ∷ ks) key m,
            lookup-insert commit c (delete_keys (k ∷ ks) m).0 s.by_commit,
          )
    ]

abbrev pub status_of : Option TestResult → Option TestStatus
status_of none = none
status_of (some r) = some r.status

-- `lookup` gives the status of the result.
pub lookup-result_of : (c key : Text) (s : Store) → lookup c key s ≡ status_of (result_of c key s)
unfolding lookup result_of
lookup-result_of c key s = elim (Option-cases (HashMap.lookup c s.by_commit)) [
  | inl e ↦ ground (arith, e)
  | inr (m, e) ↦ ground (arith, e)
]
