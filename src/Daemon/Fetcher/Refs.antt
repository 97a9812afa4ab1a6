-- ===== src/Daemon/Fetcher/Refs.antt =====
-- What a round of fetching leaves in the repositories.
use ktest.Prelude.{
  ℕ, zero, suc, ◌+◌, ◌%◌, ◌^◌, ◌≡◌, refl, ap, sym, ◌∙◌, Bool, true, false, ◌&&◌, List, [], ◌∷◌,
  Option, none, some, arith, if◌then◌else◌, ◌==◌, eq_iff, contains, IsNodup, map, or_else,
  Bool-cases, Option-cases, inl, inr, length, length-append,
}
use ktest.Text.{Text, text_eq}
use ktest.BTreeMap.{BTreeMap}
use ktest.Config.{ExecutorHost}
use ktest.Daemon.Fetcher.{
  Fetch, Refs, Fetching, ref_name, fetched, fetch_branch, fetch_round, host_slots, executors_of,
  total_slots,
}

abbrev pub name_of : Fetch → Text
name_of f = ref_name f.user f.branch

fetch_branch_at :
    (git : Fetching) (f : Fetch) (refs : Refs) (path name : Text)
    → fetch_branch git f refs path name ≡ (
        if path == f.path && name == name_of f
        then or_else (fetched git f) (refs path name)
        else refs path name)
unfolding fetch_branch
fetch_branch_at git f refs path name = elim (Bool-cases (git.fetches f.path f.fetch)) [
  | inr a ↦ ground (arith, a)
  | inl a ↦ elim (Option-cases (git.fetch_head f.path f.fetch)) [
    | inl b ↦ ground (arith, a, b)
    | inr (id, b) ↦ ground (arith, a, b)
  ]
]

-- A reference that no fetch of the round names.
fetch_round-other :
    (git : Fetching) (fs : List Fetch) (refs : Refs) (path name : Text)
    → contains (map name_of fs) name ≡ false
    → fetch_round git fs refs path name ≡ refs path name
unfolding fetch_round contains
fetch_round-other git [] refs path name h = refl
fetch_round-other git (f ∷ fs) refs path name h = ground (
  arith,
  h,
  eq_iff name (name_of f),
  eq_iff (name_of f) name,
  fetch_branch_at git f refs path name,
  fetch_round-other git fs (fetch_branch git f refs) path name,
)

-- The fetch of a reference among those of a round, if there is one.
unfoldable pub fetch_of : Text → Text → List Fetch → Option Fetch
fetch_of path name [] = none
fetch_of path name (f ∷ fs) =
    if path == f.path && name == name_of f then some f else fetch_of path name fs

abbrev pub brought : Fetching → Option Fetch → Option Text
brought git none = none
brought git (some f) = fetched git f

if_true {ℓ} : {A : Type ℓ} (b : Bool) (x y : A) → b ≡ true → (if b then x else y) ≡ x
if_true b x y h = ground (arith, h)

if_false {ℓ} : {A : Type ℓ} (b : Bool) (x y : A) → b ≡ false → (if b then x else y) ≡ y
if_false b x y h = ground (arith, h)

and_second : (a b : Bool) → a && b ≡ true → b ≡ true
and_second a b h = ground (arith, h)

name_matches :
    (path name : Text) (f : Fetch) → path == f.path && name == name_of f ≡ true → name ≡ name_of f
name_matches path name f e =
    (eq_iff name (name_of f)).0 (and_second (path == f.path) (name == name_of f) e)

-- Where no two branches of the round have the same name, after a round of fetching the reference
-- of a branch is at the commit that its fetch brought, or where a step of the fetch failed, or
-- none is for it, where it was: the failure of one branch leaves the others to be fetched.
pub fetch_round-brought :
    (git : Fetching) (fs : List Fetch) (refs : Refs) (path name : Text)
    → IsNodup (map name_of fs)
    → fetch_round git fs refs path name
      ≡ or_else (brought git (fetch_of path name fs)) (refs path name)
unfolding fetch_round fetch_of
fetch_round-brought git [] refs path name h = refl
fetch_round-brought git (f ∷ fs) refs path name (new, h) =
    elim (Bool-cases (path == f.path && name == name_of f)) [
      | inl e ↦
          (fetch_round-other git fs (fetch_branch git f refs) path name
              (ap (contains (map name_of fs)) (name_matches path name f e) ∙ new)
            ∙ fetch_branch_at git f refs path name
            ∙ if_true (path == f.path && name == name_of f)
                (or_else (fetched git f) (refs path name)) (refs path name) e)
          ∙ sym (
              ap (λ o. or_else (brought git o) (refs path name))
                (if_true (path == f.path && name == name_of f) (some f) (fetch_of path name fs) e))
      | inr e ↦
          fetch_round-brought git fs (fetch_branch git f refs) path name h
          ∙ ap (or_else (brought git (fetch_of path name fs))) (
              fetch_branch_at git f refs path name
              ∙ if_false (path == f.path && name == name_of f)
                  (or_else (fetched git f) (refs path name)) (refs path name) e)
          ∙ sym (
              ap (λ o. or_else (brought git o) (refs path name))
                (if_false (path == f.path && name == name_of f) (some f) (fetch_of path name fs) e))
    ]

length-host_slots : (host : Text) (slot n : ℕ) → length (host_slots host slot n) ≡ n
unfolding host_slots
length-host_slots host slot zero = refl
length-host_slots host slot (suc n) = ap suc (length-host_slots host (slot + 1) n)

-- The executors started are as many as the total that is logged, modulo the width of it.
length-executors_of :
    (hs : BTreeMap ExecutorHost) → length (executors_of hs) % 2 ^ 32 ≡ total_slots hs
unfolding executors_of total_slots
length-executors_of [] = refl
length-executors_of ((host, ex) ∷ hs) = omega (
  arith,
  length-append (host_slots host 0 ex.slots) (executors_of hs),
  length-host_slots host 0 ex.slots,
  length-executors_of hs,
)
