-- ===== src/CiStatus/Render/Slices.antt =====
-- When the log panics: the slices of its cells.
use ktest.Prelude.{
  ℕ, zero, suc, ◌≤◌, ◌≡◌, ◌↔◌, refl, ap, sym, ◌∙◌, Bool, true, false, ◌||◌, not, List, [], ◌∷◌,
  Option, none, some, arith, is_some, length, take, nat_beq, ltb, leb, get_elem?, map, any,
  Bool-cases, Option-cases, inl, inr,
}
use ktest.Prelude.Result.{err}
use ktest.Text.{Text}
use ktest.Branch.{BranchEntry}
use ktest.Cgi.Log.{pieces}
use ktest.CiStatus.{Calls, Ran, panic, or_panic, is_continuation, slice_to, first_line}
use ktest.CiStatus.Render.{subject_cell, commit_cell, log_line, log_header, render_log}

-- The byte at a place continues a character.
abbrev pub cuts_at : ℕ → Text → Bool
cuts_at n s = elim (get_elem? s n) [ none ↦ false | some b ↦ is_continuation b ]

-- The subject is longer than 50 bytes and the 51st continues a character, or so with the name of
-- the commit and 12 bytes.
abbrev pub cuts : BranchEntry → Bool
cuts e = cuts_at 50 (first_line e.message) || cuts_at 12 e.commit_id

get_elem?-none : (s : Text) (n : ℕ) → get_elem? s n ≡ none → length s ≤ n
get_elem?-none [] n h = omega arith
get_elem?-none (c ∷ s) zero h = absurd (ground arith)
get_elem?-none (c ∷ s) (suc n) h = omega (arith, get_elem?-none s n h)

pub cuts_at-beyond : (s : Text) (n : ℕ) → length s ≤ n → cuts_at n s ≡ false
cuts_at-beyond [] n h = refl
cuts_at-beyond (c ∷ s) zero h = absurd (omega arith)
cuts_at-beyond (c ∷ s) (suc n) h = cuts_at-beyond s n (omega arith)

slice_to-is_some : (n : ℕ) (s : Text) → n ≤ length s → is_some (slice_to n s) ≡ not (cuts_at n s)
unfolding slice_to
slice_to-is_some n s h = elim (Option-cases (get_elem? s n)) [
  | inl e ↦
      let long = get_elem?-none s n e in
      let whole : nat_beq n (length s) ≡ true = ground arith in ground (arith, e, whole)
  | inr (b, e) ↦ ground (arith, e)
]

take_whole : (n : ℕ) (s : Text) → length s ≡ n → take n s ≡ s
take_whole zero [] h = refl
take_whole zero (c ∷ s) h = absurd (omega arith)
take_whole (suc n) [] h = refl
take_whole (suc n) (c ∷ s) h = ap (◌∷◌ c) (take_whole n s (omega arith))

pub slice_to-cut : (n : ℕ) (s : Text) → cuts_at n s ≡ true → slice_to n s ≡ none
unfolding slice_to
slice_to-cut n s e = elim (Option-cases (get_elem? s n)) [
  | inl f ↦ absurd (ground (arith, f))
  | inr (b, f) ↦ ground (arith, f)
]

pub slice_to-whole :
    (n : ℕ) (s : Text) → n ≤ length s → cuts_at n s ≡ false → slice_to n s ≡ some (take n s)
unfolding slice_to
slice_to-whole n s h e = elim (Option-cases (get_elem? s n)) [
  | inl f ↦
      let exact : length s ≡ n = omega (arith, get_elem?-none s n f) in
      ground (arith, f, exact, take_whole n s exact)
  | inr (b, f) ↦ ground (arith, f)
]

subject_cell-is_some :
    (message : Text) → is_some (subject_cell message) ≡ not (cuts_at 50 (first_line message))
unfolding subject_cell
subject_cell-is_some message =
    let s = first_line message in
    elim (Bool-cases (ltb 50 (length s))) [
      | inl e ↦ rw e (slice_to-is_some 50 s (ground arith))
      | inr e ↦ ground (arith, e, cuts_at-beyond s 50 (ground arith))
    ]

commit_cell-is_some : (id : Text) → is_some (commit_cell id) ≡ not (cuts_at 12 id)
unfolding commit_cell
commit_cell-is_some id = elim (Bool-cases (leb 12 (length id))) [
  | inl e ↦ rw e (slice_to-is_some 12 id (ground arith))
  | inr e ↦ ground (arith, e, cuts_at-beyond id 12 (ground arith))
]

module _ {Repo : Type 0} (calls : Calls Repo) where
  log_line-is_some : (e : BranchEntry) → is_some (log_line calls e) ≡ not (cuts e)
  unfolding log_line
  log_line-is_some e =
      let subject = subject_cell-is_some e.message in
      let commit = commit_cell-is_some e.commit_id in
      elim (Option-cases (subject_cell e.message)) [
        | inl a ↦ ground (arith, a, subject)
        | inr (s, a) ↦ elim (Option-cases (commit_cell e.commit_id)) [
          | inl b ↦ ground (arith, a, b, subject, commit)
          | inr (c, b) ↦ ground (arith, a, b, subject, commit)
        ]
      ]

  pieces-is_some :
      (es : List BranchEntry) → is_some (pieces (map (log_line calls) es)) ≡ not (any cuts es)
  unfolding pieces any
  pieces-is_some [] = refl
  pieces-is_some (e ∷ es) =
      let this = log_line-is_some e in
      let rest = pieces-is_some es in
      elim (Option-cases (log_line calls e)) [
        | inl a ↦ rw (a, pieces) (ground (arith, a, this))
        | inr (t, a) ↦ elim (Option-cases (pieces (map (log_line calls) es))) [
          | inl b ↦ rw (a, b, pieces) (ground (arith, a, b, this, rest))
          | inr (u, b) ↦ rw (a, b, pieces) (ground (arith, a, b, this, rest))
        ]
      ]

  or_panic_iff : (o : Option Text) → ((or_panic o).ended ≡ err panic) ↔ (is_some o ≡ false)
  or_panic_iff none = (λ h. refl, λ h. refl)
  or_panic_iff (some t) = (λ h. ground arith, λ h. ground arith)

  header_first :
      (t : Text) (ps : List (Option Text)) → is_some (pieces (some t ∷ ps)) ≡ is_some (pieces ps)
  unfolding pieces
  header_first t ps = elim (Option-cases (pieces ps)) [
    | inl a ↦ ground (arith, a)
    | inr (u, a) ↦ ground (arith, a)
  ]

  render_log-table :
      (e : BranchEntry) (es : List BranchEntry) (branch : Text)
      → render_log calls (e ∷ es) branch false
        ≡ or_panic (pieces (some (log_header calls) ∷ map (log_line calls) (e ∷ es)))
  unfolding render_log
  render_log-table e es branch = refl

  table_panics :
      (e : BranchEntry) (es : List BranchEntry) (branch : Text)
      → ((render_log calls (e ∷ es) branch false).ended ≡ err panic) ↔ (any cuts (e ∷ es) ≡ true)
  table_panics e es branch =
      let rows = map (log_line calls) (e ∷ es) in
      let (panics, panicked) = or_panic_iff (pieces (some (log_header calls) ∷ rows)) in
      let present = header_first (log_header calls) rows ∙ pieces-is_some (e ∷ es) in
      let table = ap (λ (r : Ran). r.ended) (render_log-table e es branch) in
      (
        λ h. flip_not (any cuts (e ∷ es)) (sym present ∙ panics (sym table ∙ h)),
        λ h. table ∙ panicked (present ∙ ap not h),
      )
    where
      flip_not : (x : Bool) → not x ≡ false → x ≡ true
      flip_not x h = ground arith

  -- The table of a branch panics exactly where it is not JSON and for some entry the byte at 50 of
  -- the subject, or at 12 of the name of the commit, continues a character.
  pub render_log_panics_iff :
      (entries : List BranchEntry) (branch : Text) (json : Bool)
      → ((render_log calls entries branch json).ended ≡ err panic)
        ↔ ((json ≡ false) × (any cuts entries ≡ true))
  unfolding render_log any
  render_log_panics_iff entries branch true =
      (λ h. absurd (ground arith), λ h. absurd (ground arith))
  render_log_panics_iff [] branch false = (λ h. absurd (ground arith), λ h. absurd (ground arith))
  render_log_panics_iff (e ∷ es) branch false =
      let (panics, panicked) = table_panics e es branch in
      (λ h. (refl, panics h), λ h. panicked h.1)
