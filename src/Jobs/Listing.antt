-- ===== src/Jobs/Listing.antt =====
-- `get_subtests` of src/jobs.rs: listing the subtests of a test file, with the cache keyed on the
-- path and checked against the file's modification time.
use ktest.Prelude.{
  ℕ, zero, suc, Bool, ◌&&◌, leb, false, List, [], ◌∷◌, Option, none, some, if◌then◌else◌, ◌==◌,
  is_empty, nat_beq, ◌||◌, not, keep_if, ◌≡◌, refl, arith, eq_iff, Option-cases, inl, inr,
  Bool-cases, ◌⊎◌,
}
use ktest.Text.{Text, text_eq}
use ktest.HashMap.{HashMap, lookup, insert, lookup-insert}

-- The end of a run of `list-tests`.
pub data Listing : Type 0 where
  success : Text → Listing
  exit_failure : Listing
  spawn_error : Listing

abbrev pub Cache : Type 0
Cache = HashMap Text (ℕ × List Text)

abbrev pub is_space : ℕ → Bool
is_space c =
    nat_beq c b' '
    || (nat_beq c 9 || (nat_beq c 10 || (nat_beq c 11 || (nat_beq c 12 || nat_beq c 13))))

-- How many bytes after the first one the white space at the start of a text has, if it has more
-- than one byte in UTF-8: U+0085, U+00A0; U+1680, U+2000 to U+200A, U+2028, U+2029, U+202F, U+205F,
-- U+3000.
abbrev pub is_wide_space : ℕ → ℕ → ℕ → Bool
is_wide_space a b c =
    (nat_beq a 225 && (nat_beq b 154 && nat_beq c 128))
    || ((nat_beq a 226
          && (nat_beq b 128
              && ((leb 128 c && leb c 138) || (nat_beq c 168 || (nat_beq c 169 || nat_beq c 175)))))
        || ((nat_beq a 226 && (nat_beq b 129 && nat_beq c 159))
            || (nat_beq a 227 && (nat_beq b 128 && nat_beq c 128))))

unfoldable pub space_tail : Text → ℕ
space_tail [] = 0
space_tail (a ∷ []) = 0
space_tail (a ∷ b ∷ []) = if nat_beq a 194 && (nat_beq b 133 || nat_beq b 160) then 1 else 0
space_tail (a ∷ b ∷ c ∷ s) =
    if nat_beq a 194 && (nat_beq b 133 || nat_beq b 160)
    then 1
    else if is_wide_space a b c
    then 2
    else 0

-- A text with a blank for each such white space; `skip` counts the bytes of one that are left.
unfoldable pub blanked : ℕ → Text → Text
unfolding space_tail
blanked skip [] = []
blanked (suc skip) (c ∷ s) = blanked skip s
blanked zero (c ∷ s) = elim (space_tail (c ∷ s)) [
  | zero ↦ c ∷ blanked 0 s
  | suc n ↦ b' ' ∷ blanked (suc n) s
]

-- `split_whitespace`.
abbrev pub add_byte : ℕ → List Text → List Text
add_byte c [] = []
add_byte c (p ∷ ps) = if is_space c then [] ∷ p ∷ ps else (c ∷ p) ∷ ps

unfoldable pub pieces : Text → List Text
pieces [] = [] ∷ []
pieces (c ∷ s) = add_byte c (pieces s)

unfoldable pub split_whitespace : Text → List Text
unfolding pieces blanked
split_whitespace s = keep_if (λ p. not (is_empty p)) (pieces (blanked 0 s))

abbrev pub listed : Listing → List Text
listed (success out) = split_whitespace out
listed exit_failure = []
listed spawn_error = []

-- The lookup that may answer from the cache.
abbrev pub cached : Option ℕ → Option (ℕ × List Text) → Option (List Text)
cached none entry = none
cached (some mt) none = none
cached (some mt) (some entry) = if nat_beq entry.0 mt then some entry.1 else none

-- The write back: successes only, and only under a known time.
abbrev pub remember : Text → Option ℕ → List Text → Cache → Cache
remember path none subtests cache = cache
remember path (some mt) [] cache = cache
remember path (some mt) (s ∷ ss) cache = insert path (mt, s ∷ ss) cache

-- The file system that `get_subtests` sees during one call: the time of a path, and what running
-- it lists.
pub record Tests : Type 0 where
  pub mtime : Text → Option ℕ
  pub run : Text → Listing

unfoldable pub get_subtests : Tests → Text → Cache → List Text × Cache
get_subtests fs path cache = elim (cached (fs.mtime path) (lookup path cache)) [
  | some subtests ↦ (subtests, cache)
  | none ↦
      let subtests = listed (fs.run path) in
      (subtests, remember path (fs.mtime path) subtests cache)
]

-- A cache tells the truth about the versions of the files: `at path time` is what a file lists in
-- the version of that time.
abbrev pub IsTruthful : (Text → ℕ → List Text) → Cache → Type 0
IsTruthful history cache =
    (path : Text) (mt : ℕ) (subtests : List Text)
    → lookup path cache ≡ some (mt, subtests)
    → (subtests ≡ history path mt) × (is_empty subtests ≡ false)

-- What running a file lists now is what its current version lists, or the run failed or listed
-- nothing.
abbrev pub IsCurrent : (Text → ℕ → List Text) → Tests → Text → Type 0
IsCurrent history fs path =
    (mt : ℕ)
    → fs.mtime path ≡ some mt
    → (listed (fs.run path) ≡ []) ⊎ (listed (fs.run path) ≡ history path mt)

module _ (history : Text → ℕ → List Text) (fs : Tests) (path : Text) (cache : Cache)
    (truthful : IsTruthful history cache) (current : IsCurrent history fs path) where
  insert-IsTruthful :
      (mt : ℕ) (s : Text) (ss : List Text)
      → s ∷ ss ≡ history path mt
      → IsTruthful history (insert path (mt, s ∷ ss) cache)
  insert-IsTruthful mt s ss e p mt' subtests h = elim (Bool-cases (path == p)) [
    | inl same ↦
        let is_path : path ≡ p = (eq_iff path p).0 same in
        let stored : ◌≡◌ {A = Option (ℕ × List Text)} (some (mt, s ∷ ss)) (some (mt', subtests)) =
          ground (arith, lookup-insert path p (mt, s ∷ ss) cache) in
        (cc (e, stored, is_path), ground arith)
    | inr other ↦ truthful p mt' subtests (ground (arith, lookup-insert path p (mt, s ∷ ss) cache))
  ]

  remember-IsTruthful :
      (time : Option ℕ) (subtests : List Text)
      → ((mt : ℕ) → time ≡ some mt → (subtests ≡ []) ⊎ (subtests ≡ history path mt))
      → IsTruthful history (remember path time subtests cache)
  remember-IsTruthful none subtests h = truthful
  remember-IsTruthful (some mt) [] h = truthful
  remember-IsTruthful (some mt) (s ∷ ss) h =
      insert-IsTruthful mt s ss (elim (h mt refl) [ inl e ↦ absurd (ground arith) | inr e ↦ e ])

  -- Listing a file of a known time with a truthful cache, where a run lists the current version,
  -- fails or lists nothing, leaves the cache truthful, and answers with the subtests of the
  -- current version or with nothing.
  pub get_subtests-IsTruthful :
      (mt : ℕ)
      → fs.mtime path ≡ some mt
      → IsTruthful history (get_subtests fs path cache).1
        × (((get_subtests fs path cache).0 ≡ [])
            ⊎ ((get_subtests fs path cache).0 ≡ history path mt))
  unfolding get_subtests
  get_subtests-IsTruthful mt h = elim (Option-cases (cached (fs.mtime path) (lookup path cache))) [
    | inl e ↦
        rw (e, get_subtests)
          (remember-IsTruthful (fs.mtime path) (listed (fs.run path)) current, current mt h)
    | inr (subtests, e) ↦ rw (e, get_subtests) (truthful, inr (from_cache subtests e))
  ]
    where
      from_cache :
          (subtests : List Text)
          → cached (fs.mtime path) (lookup path cache) ≡ some subtests
          → subtests ≡ history path mt
      from_cache subtests e = elim (Option-cases (lookup path cache)) [
        | inl x ↦ absurd (ground arith)
        | inr ((t, ss), x) ↦ ground (arith, truthful path t ss x)
      ]
