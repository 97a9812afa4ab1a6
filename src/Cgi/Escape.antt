-- ===== src/Cgi/Escape.antt =====
-- The escaping of attributes.
use ktest.Prelude.{
  ℕ, zero, suc, ◌≡◌, refl, false, ◌||◌, [], ◌∷◌, ◌++◌, arith, if◌then◌else◌, nat_beq, Bool-cases,
  inl, inr,
}
use ktest.Text.{Text, lit, starts_with, has_byte}
use ktest.Cgi.{attr, replace_with}

-- What a byte becomes.
abbrev escaped : ℕ → Text
escaped c =
    if nat_beq c b'&'
    then lit "&amp;"
    else if nat_beq c b'<'
    then lit "&lt;"
    else if nat_beq c b'"'
    then lit "&quot;"
    else c ∷ []

abbrev escape : Text → Text
escape [] = []
escape (c ∷ s) = escaped c ++ escape s

attr-escape : (s : Text) → attr s ≡ escape s
unfolding attr replace_with
attr-escape [] = refl
attr-escape (c ∷ s) = elim (Bool-cases (nat_beq c b'&')) [
  | inl e ↦ ground (arith, e, attr-escape s)
  | inr e ↦ elim (Bool-cases (nat_beq c b'<')) [
    | inl f ↦ ground (arith, e, f, attr-escape s)
    | inr f ↦ ground (arith, e, f, attr-escape s)
  ]
]

-- A reader of the three entities, as a browser decodes them.
unfoldable pub unescape_from : ℕ → Text → Text
unescape_from skip [] = []
unescape_from (suc skip) (c ∷ s) = unescape_from skip s
unescape_from zero (c ∷ s) =
    if starts_with (c ∷ s) (lit "&amp;")
    then b'&' ∷ unescape_from 4 s
    else if starts_with (c ∷ s) (lit "&lt;")
    then b'<' ∷ unescape_from 3 s
    else if starts_with (c ∷ s) (lit "&quot;")
    then b'"' ∷ unescape_from 5 s
    else c ∷ unescape_from 0 s

abbrev pub unescape : Text → Text
unescape s = unescape_from 0 s

has_byte-escape : (s : Text) → (has_byte b'"' (escape s) || has_byte b'<' (escape s)) ≡ false
unfolding has_byte
has_byte-escape [] = refl
has_byte-escape (c ∷ s) = ground (arith, has_byte-escape s)

unescape-escape : (s : Text) → unescape (escape s) ≡ s
unfolding unescape_from starts_with
unescape-escape [] = refl
unescape-escape (c ∷ s) = ground (arith, unescape-escape s)

-- Decoding the three entities in an escaped attribute gives the text back, and the escaped text
-- has no double quote and no less-than sign.
pub unescape-attr :
    (s : Text)
    → (unescape (attr s) ≡ s) × ((has_byte b'"' (attr s) || has_byte b'<' (attr s)) ≡ false)
unescape-attr s = rw (attr-escape s) (unescape-escape s, has_byte-escape s)
