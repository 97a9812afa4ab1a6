-- ===== src/Daemon/System/Invariant.antt =====
-- The invariant: true at startup, and kept by every step.
use ktest.Prelude.{
  ◌≡◌, refl, ap, subst, Bool, true, false, ◌||◌, not, List, [], ◌∷◌, ◌++◌, Option, none, some,
  arith, ◌==◌, any, contains, All, All-append, Bool-cases, Option-cases, inl, inr, IsNodup,
}
use ktest.Text.{Text, text_eq}
use ktest.Status.{in_progress, TestResult, status_eq, job_wanted, result_is_done}
use ktest.Store.{Disk, Store, Entry, lookup, load, drop_status}
use ktest.Store.Laws.{lookup-result_of, status_of}
use ktest.Store.Load.{kept_result, stored_result, commit_dirs}
use ktest.Store.Load.Startup.{result_of-load}
use ktest.Daemon.{is_in_progress, next_of, unpack_all}
use ktest.Daemon.System.{
  Running, System, keys, advanced, Move, mark, judge, clean, pull, finish, fail, Step, claim, moves,
  Reach, here, later,
}
use ktest.Daemon.System.Owned.{owns, in_progress_at, IsKnown, IsOwned, Move-IsAccounted}

any-append :
    {A : Type 0} (f : A → Bool) (xs ys : List A) → any f (xs ++ ys) ≡ (any f xs || any f ys)
unfolding any
any-append f [] ys = refl
any-append f (x ∷ xs) ys = ground (arith, any-append f xs ys)

All-split : {A : Type 0} (P : A → Type 0) (xs ys : List A) → All P (xs ++ ys) → All P xs × All P ys
All-split P [] ys h = (tt, h)
All-split P (x ∷ xs) ys (p, h) = let (q, r) = All-split P xs ys h in ((p, q), r)

-- What is left after a round was left before it.
contains-next :
    (b : Running) (d : Disk) (sts : List Text) (key : Text)
    → contains (keys b (next_of b.worker b.writes b.marks b.now b.params d sts)) key ≡ true
    → contains (keys b sts) key ≡ true
unfolding next_of contains
contains-next b d [] key h = h
contains-next b d (st ∷ sts) key h = ground (arith, contains-next b d sts key)

contains-advanced :
    (b : Running) (s : Store) (key : Text)
    → contains (keys b (advanced s b).remaining) key ≡ true
    → contains (keys b b.remaining) key ≡ true
contains-advanced b s key =
    contains-next b (unpack_all b.worker b.writes b.marks b.now b.params b.round b.remaining s.disk)
      b.remaining key

none_left :
    (b : Running) (key : Text) → b.remaining ≡ [] → contains (keys b b.remaining) key ≡ false
unfolding contains
none_left b key idle = ap (λ l. contains (keys b l) key) idle

Move-IsKnown :
    {b : Running} {s t : Store} {new : List Running} → IsKnown b → Move b s new t → All IsKnown new
Move-IsKnown k (mark idle) = (record { batch = k.batch; left = k.batch }, tt)
Move-IsKnown {b} {s} k judge =
    (record { batch = k.batch; left = λ key h. k.left key (contains-advanced b s key h) }, tt)
Move-IsKnown k clean = (record { batch = k.batch; left = k.left }, tt)
Move-IsKnown k (pull f) = (k, tt)
Move-IsKnown k (finish idle) = tt
Move-IsKnown k fail = tt

Step-IsOwned : {sys next : System} → Step sys next → IsOwned sys → IsOwned next
unfolding any
Step-IsOwned {sys} (claim b batch idle) inv = record {
  owned = λ c key h. ground (arith, inv.owned c key h);
  known = (
    record { batch = batch; left = λ key h. absurd (ground (arith, h, none_left b key idle)) },
    inv.known,
  );
}
Step-IsOwned {sys} (moves before after b new t here_it_is mv) inv =
    let (known_before, known_rest) =
      All-split IsKnown before (b ∷ after) (subst (All IsKnown) here_it_is inv.known) in
    let (known_b, known_after) = known_rest in
    record {
      owned = λ c key h. elim (Move-IsAccounted c key known_b mv h) [
        | inl mine ↦ ground (
          arith,
          mine,
          any-append (owns c key) before (new ++ after),
          any-append (owns c key) new after,
        )
        | inr (was, not_mine) ↦
            let found : any (owns c key) (before ++ (b ∷ after)) ≡ true =
              subst (λ bs. any (owns c key) bs ≡ true) here_it_is (inv.owned c key was) in
            ground (
              arith,
              found,
              not_mine,
              any-append (owns c key) before (b ∷ after),
              any-append (owns c key) before (new ++ after),
              any-append (owns c key) new after,
            )
      ];
      known =
          All-append IsKnown before (new ++ after) known_before
            (All-append IsKnown new after (Move-IsKnown known_b mv) known_after);
    }

pub Reach-IsOwned : {start sys : System} → IsOwned start → Reach start sys → IsOwned sys
Reach-IsOwned inv here = inv
Reach-IsOwned inv (later r st) = Step-IsOwned st (Reach-IsOwned inv r)

-- No result is in progress after startup.
in_progress-kept :
    (clear : Bool) (r : Option TestResult)
    → is_in_progress (status_of (kept_result clear r)) ≡ false
unfolding kept_result drop_status
in_progress-kept clear none = refl
in_progress-kept clear (some r) = elim (Bool-cases (drop_status clear r.status)) [
  | inl e ↦ rw e refl
  | inr e ↦ rw e (ground arith)
]

in_progress_at-load :
    (writes : Text → Bool) (clear : Bool) (es : List Entry) (d : Disk) (c key : Text)
    → IsNodup (commit_dirs es)
    → in_progress_at c key (load writes clear (some es) d) ≡ false
in_progress_at-load writes clear es d c key n =
    let s = load writes clear (some es) d in
    ground (
      arith,
      lookup-result_of c key s,
      result_of-load writes clear es d c key n,
      in_progress-kept clear (stored_result c key d),
    )

abbrev pub startup : (Text → Bool) → Bool → List Entry → Disk → System
startup writes clear es d = record { store = load writes clear (some es) d; batches = [] }

startup-IsOwned :
    (writes : Text → Bool) (clear : Bool) (es : List Entry) (d : Disk)
    → IsNodup (commit_dirs es)
    → IsOwned (startup writes clear es d)
startup-IsOwned writes clear es d n = record {
  owned = λ c key h. absurd (ground (arith, h, in_progress_at-load writes clear es d c key n));
  known = tt;
}

-- Where the listing names each commit once, in every state that the daemon reaches from startup,
-- its batches being claimed, marked, judged and ended in any order, a result in progress is one
-- that a running batch still has to run.
pub Reach-startup :
    (writes : Text → Bool) (clear : Bool) (es : List Entry) (d : Disk) (sys : System)
    → IsNodup (commit_dirs es)
    → Reach (startup writes clear es d) sys
    → (c key : Text) → lookup c key sys.store ≡ some in_progress
    → any (owns c key) sys.batches ≡ true
Reach-startup writes clear es d sys n r c key h =
    let inv = Reach-IsOwned (startup-IsOwned writes clear es d n) r in inv.owned c key (rw h refl)

-- Where the listing names each commit once, in every state with no running batch that the daemon
-- reaches from startup, a subtest is wanted exactly where it has no final result: none is held
-- back by a marker.
pub job_wanted-quiet :
    (writes : Text → Bool) (clear : Bool) (es : List Entry) (d : Disk) (s : Store)
    → IsNodup (commit_dirs es)
    → Reach (startup writes clear es d) (record { store = s; batches = [] })
    → (c key : Text)
    → job_wanted (lookup c key s)
      ≡ elim (lookup c key s) [ none ↦ true | some status ↦ not (result_is_done status) ]
unfolding job_wanted any
job_wanted-quiet writes clear es d s n r c key =
    let inv = Reach-IsOwned (startup-IsOwned writes clear es d n) r in
    elim (Option-cases (lookup c key s)) [
      | inl e ↦ rw e refl
      | inr (status, e) ↦ elim (Bool-cases (status == in_progress)) [
        | inl p ↦ absurd (ground (arith, e, p, inv.owned c key))
        | inr p ↦ rw e (ground (arith, p))
      ]
    ]
