-- ===== src/Text.antt =====
-- Rust's `str` and `String`: a text is the list of its UTF-8 bytes, so that length, order and
-- comparison are those of `str::len` and `str::cmp`. The string operations of src/lib.rs and
-- src/jobs.rs are by clauses.
pub mod Order
use Prim.Native.Char.{code}
use Prim.Native.String.{String}
use ktest.Prelude.{
  ℕ, zero, suc, ◌-◌, ◌≡◌, refl, ap, ◌↔◌, Bool, true, false, ◌&&◌, ◌||◌, List, [], ◌∷◌, ◌++◌, arith,
  ltb, leb, if◌then◌else◌, nat_beq, Eq, ◌==◌, length, Ordering, compare,
}
use ktest.Prelude.Cmp.{◌then◌}

abbrev pub Text : Type 0
Text = List ℕ

-- The bytes of an ASCII literal.
abbrev pub lit : String → Text
lit String.[] = []
lit (String.◌∷◌ c s) = code c ∷ lit s

-- `str::eq`, `str::cmp`: lexicographic on bytes.
unfoldable pub text_beq : Text → Text → Bool
text_beq [] [] = true
text_beq [] (y ∷ ys) = false
text_beq (x ∷ xs) [] = false
text_beq (x ∷ xs) (y ∷ ys) = nat_beq x y && text_beq xs ys

unfoldable pub cmp : Text → Text → Ordering
cmp [] [] = Ordering.eq
cmp [] (y ∷ ys) = Ordering.lt
cmp (x ∷ xs) [] = Ordering.gt
cmp (x ∷ xs) (y ∷ ys) = compare x y then cmp xs ys

pub text_beq_iff : (a b : Text) → (text_beq a b ≡ true) ↔ (a ≡ b)
unfolding text_beq
text_beq_iff [] [] = ground arith
text_beq_iff [] (y ∷ ys) = ground arith
text_beq_iff (x ∷ xs) [] = ground arith
text_beq_iff (x ∷ xs) (y ∷ ys) = ground (arith, text_beq_iff xs ys)

instance abbrev pub text_eq : Eq Text
text_eq = record { beq = text_beq; beq_iff = text_beq_iff }

-- `str::starts_with`.
unfoldable pub starts_with : Text → Text → Bool
starts_with s [] = true
starts_with [] (p ∷ ps) = false
starts_with (c ∷ s) (p ∷ ps) = nat_beq c p && starts_with s ps

-- `str::contains`, with a text and with one byte.
unfoldable pub contains_text : Text → Text → Bool
unfolding starts_with
contains_text [] p = starts_with [] p
contains_text (c ∷ s) p = starts_with (c ∷ s) p || contains_text s p

unfoldable pub has_byte : ℕ → Text → Bool
has_byte b [] = false
has_byte b (c ∷ s) = nat_beq c b || has_byte b s

-- `str::replace` of one byte by another.
unfoldable pub replace_byte : ℕ → ℕ → Text → Text
replace_byte b d [] = []
replace_byte b d (c ∷ s) = (if nat_beq c b then d else c) ∷ replace_byte b d s

-- `slice::join`.
unfoldable pub join : Text → List Text → Text
join sep [] = []
join sep (t ∷ []) = t
join sep (t ∷ u ∷ us) = t ++ (sep ++ join sep (u ∷ us))

-- `str::split` at one byte: always at least one piece.
unfoldable pub split_step : ℕ → ℕ → List Text → List Text
split_step b c [] = []
split_step b c (p ∷ ps) = if nat_beq c b then [] ∷ p ∷ ps else (c ∷ p) ∷ ps

unfoldable pub split : ℕ → Text → List Text
unfolding split_step
split b [] = [] ∷ []
split b (c ∷ s) = split_step b c (split b s)

-- `str::replace(pat, "")`: drops the occurrences of a non-empty pattern from left to right. `skip`
-- counts the bytes of an occurrence that are still to be dropped.
unfoldable pub remove_all_from : ℕ → Text → Text → Text
unfolding starts_with
remove_all_from skip p [] = []
remove_all_from (suc skip) p (c ∷ s) = remove_all_from skip p s
remove_all_from zero p (c ∷ s) = elim (starts_with (c ∷ s) p) [
  | true ↦ remove_all_from (length p - 1) p s
  | false ↦ c ∷ remove_all_from zero p s
]

unfoldable pub remove_all : Text → Text → Text
unfolding remove_all_from
remove_all p s = remove_all_from 0 p s
