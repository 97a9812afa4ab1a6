-- ===== src/Daemon/System/Owned.antt =====
-- Every result in progress belongs to a batch that runs.
use ktest.Prelude.{
  ◌≡◌, ◌⊎◌, refl, ap, sym, ◌∙◌, subst, Bool, true, false, ◌&&◌, ◌||◌, List, [], ◌∷◌, Option, some,
  arith, if◌then◌else◌, ◌==◌, eq_iff, any, contains, All, Bool-cases, inl, inr,
}
use ktest.Text.{Text, text_eq}
use ktest.BTreeMap.{get, insert, IsAscending}
use ktest.BTreeMap.Laws.{get-insert, insert-IsAscending}
use ktest.Status.{in_progress, failed_to_run, TestResult, TestResultsMap, status_eq}
use ktest.Store.{Disk, Store, lookup}
use ktest.Store.Laws.{result_of, result_of-update, lookup-result_of, status_of}
use ktest.Daemon.{
  on_disk, is_in_progress, mark_in_progress, mark_dirs, inprogress_map, marker, take_verdicts,
  fail_dirs, fail_map, unpack_all, verdicts_of, key_of,
}
use ktest.Daemon.Outcome.{verdict_at, contains-next_of, verdicts_of-IsAscending, get-verdicts_of}
use ktest.Daemon.Batch.{get-fail_map, fail_map-IsAscending}
use ktest.Daemon.System.{
  Running, System, keys, marked, judged, failed, started, advanced, IsBatch, Move, mark, judge,
  clean, pull, finish, fail,
}

-- The batch has the subtest of this result still to run.
abbrev pub owns : Text → Text → Running → Bool
owns c key b = b.params.commit == c && contains (keys b b.remaining) key

abbrev pub in_progress_at : Text → Text → Store → Bool
in_progress_at c key s = is_in_progress (lookup c key s)

-- What is left of a batch belongs to it.
pub record IsKnown (b : Running) : Type 0 where
  pub batch : IsBatch b
  pub left :
      (key : Text) → contains (keys b b.remaining) key ≡ true → contains b.batch_keys key ≡ true

pub record IsOwned (sys : System) : Type 0 where
  pub owned :
      (c key : Text) → in_progress_at c key sys.store ≡ true → any (owns c key) sys.batches ≡ true
  pub known : All IsKnown sys.batches

abbrev is_marker : Option TestResult → Bool
is_marker r = is_in_progress (status_of r)

module _ (b : Running) (s : Store) (c key : Text) where
  result_of-on_disk : (f : Disk → Disk) → result_of c key (on_disk f s) ≡ result_of c key s
  unfolding result_of
  result_of-on_disk f = refl

  get-inprogress_map :
      (sts : List Text) (m : TestResultsMap)
      → get key (inprogress_map b.worker b.writes b.marks b.now b.params sts m) ≡ (
          if contains (keys b sts) key
          then some (marker b.worker b.writes b.marks b.now in_progress)
          else get key m)
  unfolding inprogress_map contains
  get-inprogress_map [] m = refl
  get-inprogress_map (st ∷ sts) m =
      let k = key_of b.worker b.writes b.marks b.now b.params st in
      let r = marker b.worker b.writes b.marks b.now in_progress in
      ground (arith, get-inprogress_map sts (insert k r m), get-insert k key r m)

  inprogress_map-IsAscending :
      (sts : List Text) (m : TestResultsMap)
      → IsAscending m
      → IsAscending (inprogress_map b.worker b.writes b.marks b.now b.params sts m)
  unfolding inprogress_map
  inprogress_map-IsAscending [] m h = h
  inprogress_map-IsAscending (st ∷ sts) m h =
      inprogress_map-IsAscending sts _ (insert-IsAscending _ _ m h)

  result_of-marked : result_of c key (marked b s) ≡ (
      if b.params.commit == c && contains (keys b b.subtests) key
      then some (marker b.worker b.writes b.marks b.now in_progress)
      else result_of c key s)
  unfolding mark_in_progress get
  result_of-marked =
      let m = inprogress_map b.worker b.writes b.marks b.now b.params b.subtests [] in
      let f = mark_dirs b.worker b.writes b.marks b.now b.params b.subtests in
      ground (
        arith,
        result_of-update b.writes b.params.commit c key m (on_disk f s)
            (inprogress_map-IsAscending b.subtests [] tt),
        get-inprogress_map b.subtests [],
        result_of-on_disk f,
      )

  result_of-judged : result_of c key (judged b s) ≡ (
      if b.params.commit == c && contains (keys b b.remaining) key
      then some (
          verdict_at b.worker b.writes b.marks b.now b.params
            (unpack_all b.worker b.writes b.marks b.now b.params b.round b.remaining s.disk)
            key)
      else result_of c key s)
  unfolding take_verdicts get
  result_of-judged =
      let f = unpack_all b.worker b.writes b.marks b.now b.params b.round b.remaining in
      let m = verdicts_of b.worker b.writes b.marks b.now b.params (f s.disk) b.remaining [] in
      ground (
        arith,
        result_of-update b.writes b.params.commit c key m (on_disk f s) (
            verdicts_of-IsAscending b.worker b.writes b.marks b.now b.params (f s.disk) b.remaining
              [] tt),
        get-verdicts_of b.worker b.writes b.marks b.now b.params (f s.disk) b.remaining [] key,
        result_of-on_disk f,
      )

  result_of-failed : result_of c key (failed b s) ≡ (
      if b.params.commit == c && (contains b.batch_keys key && in_progress_at b.params.commit key s)
      then some (marker b.worker b.writes b.marks b.now failed_to_run)
      else result_of c key s)
  unfolding get
  result_of-failed =
      let f = fail_dirs b.worker b.writes b.marks b.now b.params b.batch_keys s in
      let m = fail_map b.worker b.writes b.marks b.now b.params b.batch_keys s [] in
      ground (
        arith,
        result_of-update b.writes b.params.commit c key m (on_disk f s)
            (fail_map-IsAscending b.worker b.writes b.marks b.now b.params b.batch_keys s [] tt),
        get-fail_map b.worker b.writes b.marks b.now b.params b.batch_keys s [] key,
        result_of-on_disk f,
      )

-- After a move of a batch, a result in progress is one that the batch has to run, or was in
-- progress before and is not one that the batch had to run.
abbrev pub IsAccounted : Text → Text → Running → Store → List Running → Store → Type 0
IsAccounted c key b s new t =
    (any (owns c key) new ≡ true) ⊎ ((in_progress_at c key s ≡ true) × (owns c key b ≡ false))

-- Where the store has the same result, or a verdict under a test.
carried :
    (c key : Text) (s t : Store)
    → result_of c key t ≡ result_of c key s
    → in_progress_at c key t ≡ true
    → in_progress_at c key s ≡ true
carried c key s t same h =
    ground (arith, same, lookup-result_of c key s, lookup-result_of c key t, h)

pub idle_owns : (c key : Text) (b : Running) → b.remaining ≡ [] → owns c key b ≡ false
unfolding contains
idle_owns c key b idle =
    let none_left : contains (keys b b.remaining) key ≡ false =
      ap (λ l. contains (keys b l) key) idle in
    ground (arith, none_left)

-- The key is judged as in progress, and so it is left to run.
judged-advanced :
    (c key : Text) (b : Running) (s : Store)
    → owns c key b ≡ true
    → in_progress_at c key (judged b s) ≡ true
    → owns c key (advanced s b) ≡ true
judged-advanced c key b s mine h =
    let d = unpack_all b.worker b.writes b.marks b.now b.params b.round b.remaining s.disk in
    elim (Bool-cases (contains (keys b (advanced s b).remaining) key)) [
      | inl e ↦ ground (arith, e, mine)
      | inr e ↦
          let verdict_in =
            contains-next_of b.worker b.writes b.marks b.now b.params d b.remaining key in
          let within : contains (keys b b.remaining) key ≡ true = ground (arith, mine) in
          absurd (
            ground (
              arith,
              verdict_in within e,
              mine,
              h,
              result_of-judged b s c key,
              lookup-result_of c key (judged b s),
            ))
    ]

or_false : (x : Bool) → x ≡ true → (x || false) ≡ true
or_false x h = ground arith

pub Move-IsAccounted :
    {b : Running} {s t : Store} {new : List Running} (c key : Text)
    → IsKnown b
    → Move b s new t
    → in_progress_at c key t ≡ true
    → IsAccounted c key b s new t
unfolding any
Move-IsAccounted {b} {s} c key k (mark idle) h = elim (Bool-cases (owns c key (started b))) [
  | inl e ↦ inl (or_false _ e)
  | inr e ↦
      let same : result_of c key (marked b s) ≡ result_of c key s =
        result_of-marked b s c key ∙ rw e refl in
      inr (carried c key s (marked b s) same h, idle_owns c key b idle)
]
Move-IsAccounted {b} {s} c key k judge h = elim (Bool-cases (owns c key b)) [
  | inl e ↦ inl (or_false _ (judged-advanced c key b s e h))
  | inr e ↦
      let same : result_of c key (judged b s) ≡ result_of c key s =
        result_of-judged b s c key ∙ rw e refl in
      inr (carried c key s (judged b s) same h, e)
]
Move-IsAccounted {b} {s} c key k clean h = elim (Bool-cases (owns c key b)) [
  | inl e ↦ inl (or_false _ e)
  | inr e ↦
      let same : result_of c key (judged b s) ≡ result_of c key s =
        result_of-judged b s c key ∙ rw e refl in
      inr (carried c key s (judged b s) same h, e)
]
Move-IsAccounted {b} {s} c key k (pull f) h = elim (Bool-cases (owns c key b)) [
  | inl e ↦ inl (or_false _ e)
  | inr e ↦ inr (carried c key s (on_disk f s) (result_of-on_disk b s c key f) h, e)
]
Move-IsAccounted {b} {s} c key k (finish idle) h = inr (h, idle_owns c key b idle)
Move-IsAccounted {b} {s} c key k fail h =
    elim (Bool-cases (
      b.params.commit == c
      && (contains b.batch_keys key && in_progress_at b.params.commit key s))) [
        | inl e ↦
            absurd (
              ground (arith, e, h, result_of-failed b s c key, lookup-result_of c key (failed b s)))
        | inr e ↦
            let same : result_of c key (failed b s) ≡ result_of c key s =
              result_of-failed b s c key ∙ rw e refl in
            let before = carried c key s (failed b s) same h in inr (before, not_mine before e)
      ]
  where
    not_mine :
        in_progress_at c key s ≡ true
        → (b.params.commit == c
            && (contains b.batch_keys key && in_progress_at b.params.commit key s))
          ≡ false
        → owns c key b ≡ false
    not_mine before e = elim (Bool-cases (owns c key b)) [
      | inr n ↦ n
      | inl y ↦
          let this : b.params.commit ≡ c = (eq_iff b.params.commit c).0 (ground (arith, y)) in
          let within : contains b.batch_keys key ≡ true = k.left key (ground (arith, y)) in
          let there : in_progress_at b.params.commit key s ≡ true =
            subst (λ x. in_progress_at x key s ≡ true) (sym this) before in
          absurd (ground (arith, e, y, within, there))
    ]
