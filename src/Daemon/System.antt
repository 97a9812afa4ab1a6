-- ===== src/Daemon/System.antt =====
-- The daemon as a whole (src/bin/ci-daemon.rs): one store and the batches that run, each on a
-- worker of its own, step by step and in any order. A step is what one batch does to the store
-- between two waits.
pub mod Owned
pub mod Invariant
pub mod Runs
use ktest.Prelude.{
  ℕ, ◌+◌, ◌≡◌, Bool, true, false, ◌&&◌, List, [], ◌∷◌, ◌++◌, ◌==◌, any, contains, map,
}
use ktest.Text.{Text, text_eq}
use ktest.Store.{Disk, Store, lookup, update}
use ktest.Daemon.{
  JobParams, Worker, on_disk, is_in_progress, mark_in_progress, take_verdicts, next_round,
  fail_dirs, fail_map,
}
use ktest.Daemon.Outcome.{keys_of}

-- A batch that runs: what it was given, and where its resume loop is.
pub record Running : Type 0 where
  pub worker : Worker
  pub writes : Bool
  pub marks : Text → Bool
  pub now : ℕ
  pub params : JobParams
  pub subtests : List Text
  -- the keys of its jobs
  pub batch_keys : List Text
  pub round : ℕ
  pub remaining : List Text

pub record System : Type 0 where
  pub store : Store
  pub batches : List Running

abbrev pub keys : Running → List Text → List Text
keys b = keys_of b.worker b.writes b.marks b.now b.params

-- The steps of a batch on the store.
abbrev pub marked : Running → Store → Store
marked b s = mark_in_progress b.worker b.writes b.marks b.now b.params b.subtests s

abbrev pub judged : Running → Store → Store
judged b s = take_verdicts b.worker b.writes b.marks b.now b.params b.round b.remaining s

abbrev pub failed : Running → Store → Store
failed b s =
    update b.writes b.params.commit
      (fail_map b.worker b.writes b.marks b.now b.params b.batch_keys s [])
      (on_disk (fail_dirs b.worker b.writes b.marks b.now b.params b.batch_keys s) s)

-- The batch after its marking, after a round, and after a cleaning.
abbrev pub started : Running → Running
started b = record b { remaining = b.subtests }

abbrev pub advanced : Store → Running → Running
advanced s b = record b {
  round = b.round + 1;
  remaining = next_round b.worker b.writes b.marks b.now b.params b.round b.remaining s;
}

abbrev pub cleaned : Running → Running
cleaned b = record b { round = b.round + 1 }

-- The keys of the subtests of a batch are keys of its jobs.
abbrev pub IsBatch : Running → Type 0
IsBatch b =
    (key : Text) → contains (keys b b.subtests) key ≡ true → contains b.batch_keys key ≡ true

-- What one batch does: what it is then, unless it is gone, and the store then.
pub data Move (b : Running) (s : Store) : List Running → Store → Type 0 where
  mark : b.remaining ≡ [] → Move b s (started b ∷ []) (marked b s)
  judge : Move b s (advanced s b ∷ []) (judged b s)
  clean : Move b s (cleaned b ∷ []) (judged b s)
  pull : (f : Disk → Disk) → Move b s (b ∷ []) (on_disk f s)
  finish : b.remaining ≡ [] → Move b s [] s
  fail : Move b s [] (failed b s)

-- A worker claims a batch, or one of the batches moves.
pub data Step (sys : System) : System → Type 0 where
  claim :
      (b : Running)
      → IsBatch b
      → b.remaining ≡ []
      → Step sys (record { store = sys.store; batches = b ∷ sys.batches })
  moves :
      (before after : List Running) (b : Running) (new : List Running) (t : Store)
      → sys.batches ≡ before ++ (b ∷ after)
      → Move b sys.store new t
      → Step sys (record { store = t; batches = before ++ (new ++ after) })

pub data Reach (start : System) : System → Type 0 where
  here : Reach start start
  later : {now next : System} → Reach start now → Step now next → Reach start next
