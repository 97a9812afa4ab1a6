-- ===== src/Rm/Removed.antt =====
-- Which results are gone after a run, and what the summaries hold then.
use ktest.Prelude.{
  ◌≡◌, refl, ap, ◌∙◌, Bool, true, false, ◌&&◌, ◌||◌, not, List, [], ◌∷◌, ◌++◌, Option, none, some,
  arith, if◌then◌else◌, is_some, contains, any, keep_if, map, ◌==◌, eq_iff, Bool-cases,
  Option-cases, inl, inr,
}
use ktest.Prelude.Result.{ok, Result-cases}
use ktest.Text.{Text, text_eq}
use ktest.BTreeMap.{BTreeMap, get, keys, remove_keys}
use ktest.BTreeMap.Laws.{get-remove_keys}
use ktest.HashMap as HashMap
use ktest.HashMap.{lookup-insert}
use ktest.Store.{ResultDir, Disk, remove_dirs}
use ktest.Files.{dir_of, dirs_of, commit_update_results}
use ktest.Files.Cleanup.{commit_update_results-dirs, dir_of-get}
use ktest.Rm.{
  DirEntry, is_wanted, matches_in, find_matching_results, remove_results, affected,
  update_summaries, delete_found,
}

abbrev is_result : Text → Text → List (Text × Text) → Bool
is_result c key rs = any (λ r. r.0 == c && r.1 == key) rs

-- The directory of a commit is listed and looked at.
abbrev pub is_yes : Option Bool → Bool
is_yes none = false
is_yes (some b) = b

abbrev pub looked_at : Option (List Text) → Text → List DirEntry → Bool
looked_at commits c es =
    any (λ e. e.name == c && (is_yes (is_wanted commits e.name) && e.is_dir)) es

dir_of-remove_dirs :
    (n k c key : Text) (d : Disk)
    → dir_of c key (remove_dirs n (k ∷ []) d)
      ≡ (if n == c && k == key then none else dir_of c key d)
unfolding contains
dir_of-remove_dirs n k c key d =
    let removed = get-remove_keys (k ∷ []) key (dirs_of n d) in
    let found = dir_of-get c key d in
    let after = lookup-insert n c (remove_keys (k ∷ []) (dirs_of n d)) d.dirs in
    elim (Bool-cases (n == c)) [
      | inl e ↦
          let same : get key (dirs_of n d) ≡ get key (dirs_of c d) =
            ap (λ x. get key (dirs_of x d)) ((eq_iff n c).0 e) in
          ground (arith, e, removed, same, found, after)
      | inr e ↦ ground (arith, e, after)
    ]

dir_of-remove_results :
    (removes : Text → Text → Bool) (rs : List (Text × Text)) (d : Disk) (c key : Text)
    → dir_of c key (remove_results removes rs d)
      ≡ (if is_result c key rs && removes c key then none else dir_of c key d)
unfolding remove_results any
dir_of-remove_results removes [] d c key = refl
dir_of-remove_results removes ((n, k) ∷ rs) d c key = elim (Bool-cases (removes n k)) [
  | inl e ↦ rw e (
      ground (
        arith,
        eq_iff n c,
        eq_iff k key,
        e,
        dir_of-remove_results removes rs (remove_dirs n (k ∷ []) d) c key,
        dir_of-remove_dirs n k c key d,
      ))
  | inr e ↦
      rw e (ground (arith, eq_iff n c, eq_iff k key, e, dir_of-remove_results removes rs d c key))
]

any-matches :
    (pattern : Text → Bool) (n c key : Text) (m : BTreeMap ResultDir)
    → is_result c key (map (λ k. (n, k)) (keep_if pattern (keys m)))
      ≡ (n == c && (pattern key && is_some (get key m)))
unfolding any keep_if get
any-matches pattern n c key [] = ground arith
any-matches pattern n c key ((k, dir) ∷ m) = elim (Bool-cases (pattern k)) [
  | inl e ↦ rw e (ground (arith, e, eq_iff k key, any-matches pattern n c key m))
  | inr e ↦ rw e (ground (arith, e, eq_iff k key, any-matches pattern n c key m))
]

update_summaries-dirs :
    (writes : Text → Bool) (cs : List Text) (d : Disk)
    → (update_summaries writes cs d).dirs ≡ d.dirs
unfolding update_summaries
update_summaries-dirs writes [] d = refl
update_summaries-dirs writes (c ∷ cs) d =
    update_summaries-dirs writes cs (commit_update_results (writes c) c none d)
    ∙ commit_update_results-dirs (writes c) c none d

any-append :
    (f : Text × Text → Bool) (xs ys : List (Text × Text))
    → any f (xs ++ ys) ≡ (any f xs || any f ys)
unfolding any
any-append f [] ys = refl
any-append f (x ∷ xs) ys = ground (arith, any-append f xs ys)

any-matches_in :
    (pattern : Text → Bool) (n c key : Text) (d : Disk)
    → is_result c key (matches_in pattern n d)
      ≡ (n == c && (pattern key && is_some (dir_of c key d)))
any-matches_in pattern n c key d =
    let here = any-matches pattern n c key (dirs_of n d) in
    let found = dir_of-get c key d in
    elim (Bool-cases (n == c)) [
      | inl e ↦
          let same : get key (dirs_of n d) ≡ get key (dirs_of c d) =
            ap (λ x. get key (dirs_of x d)) ((eq_iff n c).0 e) in
          here ∙ rw (same, found) refl
      | inr e ↦ here ∙ rw e refl
    ]

either :
    (n l w : Bool) {a b : Bool} → a ≡ (n && w) → b ≡ (l && w) → (a || b) ≡ ((n && true || l) && w)
either n l w h k = ground arith

-- What stays of one result, where one that is found is there.
stays :
    (o : Option ResultDir) {t : Option ResultDir} {f : Bool} (l p r : Bool)
    → f ≡ (l && (p && is_some o))
    → t ≡ (if f && r then none else o)
    → t ≡ (if l && (p && r) then none else o)
stays none l p r h k = ground arith
stays (some dir) l p r h k = ground arith

find_matching_results_iff :
    (pattern : Text → Bool) (commits : Option (List Text)) (es : List DirEntry) (d : Disk)
    (c key : Text) {results : List (Text × Text)}
    → find_matching_results pattern commits es d ≡ ok results
    → is_result c key results
      ≡ (looked_at commits c es && (pattern key && is_some (dir_of c key d)))
unfolding find_matching_results any
find_matching_results_iff pattern commits [] d c key h = ground (arith, h)
find_matching_results_iff pattern commits (e ∷ es) d c key {results} h =
    elim (Option-cases (is_wanted commits e.name)) [
      | inl w ↦ absurd (ground (arith, rw (w, find_matching_results) at h))
      | inr (wanted, w) ↦ elim (Bool-cases (wanted && (e.is_dir && not e.lists))) [
        | inl bad ↦ absurd (ground (arith, rw (w, bad, find_matching_results) at h))
        | inr good ↦ elim (Result-cases (find_matching_results pattern commits es d)) [
          | inr (f, r) ↦ absurd (ground (arith, rw (w, good, r, find_matching_results) at h))
          | inl (rest, r) ↦
              let got : (if wanted && e.is_dir then matches_in pattern e.name d ++ rest else rest)
                  ≡ results =
                cc (rw (w, good, r, find_matching_results) at h) in
              let later = find_matching_results_iff pattern commits es d c key r in
              rw (← got, w)
                (elim (Bool-cases (wanted && e.is_dir)) [
                  | inl y ↦
                      rw
                        (
                          y,
                          any-append (λ x. x.0 == c && x.1 == key) (matches_in pattern e.name d)
                              rest,
                        )
                        (either (e.name == c) (looked_at commits c es) _
                          (any-matches_in pattern e.name c key d) later)
                  | inr n ↦ rw n (ground (arith, n, later))
                ])
        ]
      ]
    ]

abbrev dir_in : Text → Text → HashMap.HashMap Text (BTreeMap ResultDir) → Option ResultDir
dir_in c key ds = elim (HashMap.lookup c ds) [ none ↦ none | some m ↦ get key m ]

-- After the results that were found are deleted, a result directory is gone exactly where this is
-- no dry run, its commit's directory is listed and looked at, its name matches the pattern and it
-- can be removed; every other one is as it was.
pub dir_of-delete_found :
    (writes : Text → Bool) (removes : Text → Text → Bool) (dry_run : Bool) (pattern : Text → Bool)
    (commits : Option (List Text)) (es : List DirEntry) (d : Disk) (c key : Text)
    (results : List (Text × Text))
    → find_matching_results pattern commits es d ≡ ok results
    → dir_of c key (delete_found writes removes dry_run results d) ≡ (
        if not dry_run && (looked_at commits c es && (pattern key && removes c key))
        then none
        else dir_of c key d)
unfolding delete_found any
dir_of-delete_found writes removes true pattern commits es d c key [] found = refl
dir_of-delete_found writes removes true pattern commits es d c key (r ∷ rs) found = refl
dir_of-delete_found writes removes false pattern commits es d c key [] found =
    stays (dir_of c key d) (looked_at commits c es) (pattern key) (removes c key)
      (find_matching_results_iff pattern commits es d c key found) refl
dir_of-delete_found writes removes false pattern commits es d c key (r ∷ rs) found =
    let results = r ∷ rs in
    let same =
      ap (λ ds. dir_in c key ds)
        (update_summaries-dirs writes (affected results) (remove_results removes results d)) in
    stays (dir_of c key d) (looked_at commits c es) (pattern key) (removes c key)
      (find_matching_results_iff pattern commits es d c key found)
      (same ∙ dir_of-remove_results removes results d c key)
