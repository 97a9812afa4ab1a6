-- ===== src/Gc/Live.antt =====
-- What the collector never removes, and that it leaves the scheduler's commits alone.
use ktest.Prelude.{
  ℕ, zero, suc, ◌-◌, ◌≤◌, ◌<◌, ◌≡◌, refl, sym, ◌∙◌, ◌≢◌, if◌then◌else◌, Bool-cases, ltb, ◌↔◌, ◌⊎◌,
  Bool, true, false, List, [], ◌∷◌, Option, none, some, arith, length, take, filter_map, contains,
  Option-cases, inl, inr,
}
use mathlib.Core.List.{Memᴰ}
use ktest.Prelude.Members.{filter_map-Memᴰ}
use ktest.Text.{Text, text_eq}
use ktest.Git.{Git, readable}
use ktest.Jobs.Specs.{branch_commits}
use ktest.Gc.{
  found, branch_get_commits, OutputEntry, result_is_live, removed, panicked, kept, gc_entry,
}
use ktest.CiStatus.Render.Slices.{cuts_at, cuts_at-beyond, slice_to-cut, slice_to-whole}

-- The byte at 40 continues a character.
abbrev pub HasCutName : Option Text → Type 0
HasCutName none = ⊥
HasCutName (some name) = cuts_at 40 name ≡ true

-- The name is not text, or has 40 bytes or more that do not start with a live commit.
abbrev pub IsDead : List Text → Option Text → Type 0
IsDead commits none = Unit
IsDead commits (some name) =
    (40 ≤ length name) × (cuts_at 40 name ≡ false) × (contains commits (take 40 name) ≡ false)

-- The time is known and more than an hour ago.
abbrev pub IsOld : ℕ → Option ℕ → Type 0
IsOld now none = ⊥
IsOld now (some t) = t < now - 3600

removed-ne-panicked : removed ≢ panicked
removed-ne-panicked e = ground arith

kept-ne-removed : (d : OutputEntry) → kept d ≢ removed
kept-ne-removed d e = ground arith

kept-ne-panicked : (d : OutputEntry) → kept d ≢ panicked
kept-ne-panicked d e = ground arith

module _ (now : ℕ) (touches : Text → Bool) (removes : OutputEntry → Bool) (dry_run : Bool)
    (commits : List Text) where
  dead_entry :
      (d : OutputEntry)
      → result_is_live now touches commits d ≡ some (false, d)
      → ((gc_entry now touches removes dry_run commits d ≡ removed)
          ↔ (IsOld now d.mtime × (dry_run ≡ false) × (removes d ≡ true)))
        × ((gc_entry now touches removes dry_run commits d ≡ panicked) ↔ (d.mtime ≡ none))
  unfolding gc_entry
  dead_entry d h = elim (Option-cases d.mtime) [
    | inl e ↦ ground (arith, e, h)
    | inr (t, e) ↦ ground (arith, e, h)
  ]

  result_is_live-dead :
      (d : OutputEntry)
      → IsDead commits d.name
      → result_is_live now touches commits d ≡ some (false, d)
  unfolding result_is_live
  result_is_live-dead d h = elim (Option-cases d.name) [
    | inl e ↦ ground (arith, e)
    | inr (name, e) ↦
        let (long, whole, out) = rw e at h in ground (arith, e, slice_to-whole 40 name long whole)
  ]

  cut_entry :
      (d : OutputEntry)
      → HasCutName d.name
      → ¬ IsDead commits d.name × (gc_entry now touches removes dry_run commits d ≡ panicked)
  unfolding gc_entry result_is_live
  cut_entry d h = elim (Option-cases d.name) [
    | inl e ↦ absurd (rw e at h)
    | inr (name, e) ↦
        let cut = rw e at h in
        (
          λ dead. let (long, whole, out) = rw e at dead in ground (arith, cut, whole),
          elim (Bool-cases (ltb (length name) 40)) [
            | inl short ↦
                absurd (ground (arith, short, cut, cuts_at-beyond name 40 (ground (arith, short))))
            | inr long ↦ ground (arith, e, long, slice_to-cut 40 name cut)
          ],
        )
  ]

  live_entry :
      (d : OutputEntry)
      → ¬ IsDead commits d.name
      → ¬ HasCutName d.name
      → (d' : OutputEntry) × (gc_entry now touches removes dry_run commits d ≡ kept d')
  unfolding gc_entry result_is_live
  live_entry d h n = elim (Option-cases d.name) [
    | inl e ↦ absurd (h (rw e tt))
    | inr (name, e) ↦ elim (Bool-cases (ltb (length name) 40)) [
      | inl short ↦ (d, ground (arith, e, short))
      | inr long ↦ elim (Bool-cases (cuts_at 40 name)) [
        | inl cut ↦ absurd (n (rw e cut))
        | inr whole ↦
            let long' : 40 ≤ length name = ground (arith, long) in
            let slice = slice_to-whole 40 name long' whole in
            elim (Bool-cases (contains commits (take 40 name))) [
              | inl live ↦ (
                (if touches name then record d { mtime = some now } else d),
                ground (arith, e, long, slice, live),
              )
              | inr dead ↦ absurd (h (rw e (long', whole, dead)))
            ]
      ]
    ]
  ]

  HasCutName-cases : (name : Option Text) → HasCutName name ⊎ (¬ HasCutName name)
  HasCutName-cases none = inr (λ h. h)
  HasCutName-cases (some name) = elim (Bool-cases (cuts_at 40 name)) [
    | inl e ↦ inl e
    | inr e ↦ inr (λ h. ground (arith, e, h))
  ]

  IsDead-cases : (name : Option Text) → IsDead commits name ⊎ (¬ IsDead commits name)
  IsDead-cases none = inl tt
  IsDead-cases (some name) = elim (Bool-cases (ltb (length name) 40)) [
    | inl e ↦ inr (λ h. ground (arith, e, h))
    | inr e ↦ elim (Bool-cases (cuts_at 40 name)) [
      | inl c ↦ inr (λ h. ground (arith, c, h))
      | inr c ↦ elim (Bool-cases (contains commits (take 40 name))) [
        | inl l ↦ inr (λ h. ground (arith, l, h))
        | inr l ↦ inl (ground (arith, e), c, l)
      ]
    ]
  ]

  -- An entry is removed exactly where it is dead, its time is known and more than an hour ago,
  -- this is no dry run, and the removal works; the run panics at it exactly where the byte at 40
  -- of its name continues a character, or where it is dead and its time cannot be read. It is dead
  -- if its name is not text, or has 40 bytes or more that can be cut at 40 and do not start with a
  -- live commit.
  pub gc_entry_iff :
      (d : OutputEntry)
      → ((gc_entry now touches removes dry_run commits d ≡ removed)
          ↔ (IsDead commits d.name × IsOld now d.mtime × (dry_run ≡ false) × (removes d ≡ true)))
        × ((gc_entry now touches removes dry_run commits d ≡ panicked)
            ↔ (HasCutName d.name ⊎ (IsDead commits d.name × (d.mtime ≡ none))))
  gc_entry_iff d = elim (HasCutName-cases d.name) [
    | inl c ↦
        let (alive, p) = cut_entry d c in
        (
          (λ r. absurd (removed-ne-panicked (sym r ∙ p)), λ h. absurd (alive h.0)),
          (λ r. inl c, λ h. p),
        )
    | inr c ↦ elim (IsDead-cases d.name) [
      | inl dead ↦
          let (r, p) = dead_entry d (result_is_live-dead d dead) in
          (
            (λ e. let (old, dry, gone) = r.0 e in (dead, old, dry, gone), λ h. r.1 (h.1, h.2, h.3)),
            (λ e. inr (dead, p.0 e), λ h. elim h [ inl x ↦ absurd (c x) | inr x ↦ p.1 x.1 ]),
          )
      | inr alive ↦
          let (d', k) = live_entry d alive c in
          (
            (λ e. absurd (kept-ne-removed d' (sym k ∙ e)), λ h. absurd (alive h.0)),
            (
              λ e. absurd (kept-ne-panicked d' (sym k ∙ e)),
              λ h. elim h [ inl x ↦ absurd (c x) | inr x ↦ absurd (alive x.0) ],
            ),
          )
    ]
  ]

take-Memᴰ_le :
    (n m : ℕ) (xs : List Text) (x : Text) → n ≤ m → Memᴰ x (take n xs) → Memᴰ x (take m xs)
take-Memᴰ_le zero m xs x h i = elim i [ ]
take-Memᴰ_le (suc n) zero xs x h i = absurd (omega arith)
take-Memᴰ_le (suc n) (suc m) [] x h i = i
take-Memᴰ_le (suc n) (suc m) (y ∷ ys) x h (Memᴰ.head e) = Memᴰ.head e
take-Memᴰ_le (suc n) (suc m) (y ∷ ys) x h (Memᴰ.tail i) =
    Memᴰ.tail (take-Memᴰ_le n m ys x (omega arith) i)

-- A commit that the scheduler takes from a branch is a live one of the branch, where the depth of
-- the collector is not below that of the test group and the commit can be found.
pub branch_get_commits-covers :
    {Repo : Type 0} (git : Git Repo) (repo : Repo) (branch : Text) (max depth : ℕ)
    (commits : List Text) (c m : Text)
    → max ≤ depth
    → branch_commits git repo branch max ≡ some commits
    → git.message repo c ≡ some m
    → Memᴰ c commits
    → Memᴰ c (branch_get_commits git repo branch depth)
unfolding branch_commits branch_get_commits
branch_get_commits-covers git repo branch max depth commits c m le h f i =
    elim (Option-cases (git.resolve repo branch)) [
      | inl e ↦ absurd (ground (arith, e))
      | inr (id, e) ↦ elim (Option-cases (git.walk repo id)) [
        | inl w ↦ absurd (ground (arith, e, w))
        | inr (walked, w) ↦
            let same : take max (filter_map readable walked) ≡ commits = ground (arith, e, w) in
            rw (e, w, branch_get_commits)
              (filter_map-Memᴰ (found (git.message repo)) c c
                (take depth (filter_map readable walked))
                (take-Memᴰ_le max depth (filter_map readable walked) c le (rw (← same) at i))
                (rw (f, found) refl))
      ]
    ]
