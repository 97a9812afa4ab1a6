-- ===== src/CiStatus/Prefix.antt =====
-- Which commit a prefix stands for.
use ktest.Prelude.{
  ℕ, ◌<◌, ◌≡◌, ◌↔◌, refl, ap, sym, ◌∙◌, Bool, true, false, ◌&&◌, ◌||◌, List, [], ◌∷◌, Option, some,
  arith, length, leb, ◌==◌, eq_iff, eq_self, contains, keep_if, filter_map, All, Bool-cases, inl,
  inr,
}
use ktest.Prelude.Result.{Result, ok}
use ktest.Prelude.Cmp.{is_le}
use ktest.Prelude.Cmp.Sort.{sort_by, insert_by}
use ktest.Text.{Text, text_eq, cmp}
use ktest.CiStatus.{Failure, dedup_names, is_commit_of, names_with_prefix, resolve_commit_prefix}

contains-insert_by :
    (x : Text) (l : List Text) (a : Text)
    → contains (insert_by cmp x l) a ≡ (x == a || contains l a)
unfolding insert_by contains
contains-insert_by x [] a = refl
contains-insert_by x (y ∷ ys) a = elim (Bool-cases (is_le (cmp x y))) [
  | inl e ↦ rw e refl
  | inr e ↦ rw e (ground (arith, contains-insert_by x ys a))
]

contains-sort_by : (l : List Text) (a : Text) → contains (sort_by cmp l) a ≡ contains l a
unfolding sort_by contains
contains-sort_by [] a = refl
contains-sort_by (x ∷ xs) a =
    ground (arith, contains-insert_by x (sort_by cmp xs) a, contains-sort_by xs a)

contains-dedup_names : (l : List Text) (a : Text) → contains (dedup_names l) a ≡ contains l a
unfolding dedup_names contains
contains-dedup_names [] a = refl
contains-dedup_names (x ∷ []) a = refl
contains-dedup_names (x ∷ y ∷ ys) a = elim (Bool-cases (x == y)) [
  | inl e ↦
      let same : (x == a) ≡ (y == a) = ap (λ z. z == a) ((eq_iff x y).0 e) in
      ground (arith, e, same, contains-dedup_names (y ∷ ys) a)
  | inr e ↦ ground (arith, e, contains-dedup_names (y ∷ ys) a)
]

contains-keep_if :
    (f : Text → Bool) (l : List Text) (a : Text) → contains (keep_if f l) a ≡ (contains l a && f a)
unfolding keep_if contains
contains-keep_if f [] a = refl
contains-keep_if f (x ∷ xs) a = elim (Bool-cases (x == a)) [
  | inl e ↦
      let same : f x ≡ f a = ap f ((eq_iff x a).0 e) in
      ground (arith, e, same, contains-keep_if f xs a)
  | inr e ↦ ground (arith, e, contains-keep_if f xs a)
]

contains-names_with_prefix :
    (prefix : Text) (entries : List (Option Text)) (a : Text)
    → contains (names_with_prefix prefix entries) a
      ≡ (contains (filter_map (λ e. e) entries) a && is_commit_of prefix a)
contains-names_with_prefix prefix entries a =
    let names = filter_map (λ (e : Option Text). e) entries in
    contains-dedup_names (sort_by cmp (keep_if (is_commit_of prefix) names)) a
    ∙ contains-sort_by (keep_if (is_commit_of prefix) names) a
    ∙ contains-keep_if (is_commit_of prefix) names a

-- A list of one text, over and over, is that text without repetitions.
same_names :
    (l : List Text) (c : Text) → ((a : Text) → contains l a ≡ true → a ≡ c) → All (λ n. n ≡ c) l
unfolding contains
same_names [] c h = tt
same_names (x ∷ xs) c h =
    (h x (ground (arith, eq_self x)), same_names xs c (λ a i. h a (ground (arith, i))))

dedup_names-repeated :
    (l : List Text) (c : Text) → All (λ n. n ≡ c) l → contains l c ≡ true → dedup_names l ≡ c ∷ []
unfolding dedup_names contains
dedup_names-repeated [] c h i = absurd (ground arith)
dedup_names-repeated (x ∷ []) c (p, h) i = ap (λ z. z ∷ []) p
dedup_names-repeated (x ∷ y ∷ ys) c (p, (q, h)) i =
    let same : (x == y) ≡ true = (eq_iff x y).1 (p ∙ sym q) in
    rw same (dedup_names-repeated (y ∷ ys) c (q, h) (ground (arith, (eq_iff y c).1 q)))

module _ (decimal : ℕ → Text) (entries : List (Option Text)) (prefix commit : Text)
    (short : length prefix < 40) where
  abbrev resolved : Result Failure Text
  resolved = resolve_commit_prefix decimal (some entries) prefix

  picked :
      (l : List Text)
      → names_with_prefix prefix entries ≡ l
      → (resolved ≡ ok commit) ↔ (l ≡ commit ∷ [])
  unfolding resolve_commit_prefix
  picked l h = let not_long : leb 40 (length prefix) ≡ false = ground arith in of_list l not_long h
    where
      of_list :
          (k : List Text)
          → leb 40 (length prefix) ≡ false
          → names_with_prefix prefix entries ≡ k
          → (resolved ≡ ok commit) ↔ (k ≡ commit ∷ [])
      of_list [] n g = rw (n, resolve_commit_prefix, g) (λ e. ground arith, λ e. ground arith)
      of_list (x ∷ []) n g = rw (n, resolve_commit_prefix, g) (λ e. ground arith, λ e. ground arith)
      of_list (x ∷ y ∷ ys) n g =
          rw (n, resolve_commit_prefix, g) (λ e. ground arith, λ e. ground arith)

  -- A commit that is listed, of 40 bytes and with the prefix, and the only such.
  abbrev pub IsOnly : Type 0
  IsOnly =
      (contains (filter_map (λ e. e) entries) commit ≡ true)
      × (is_commit_of prefix commit ≡ true)
      × ((name : Text)
          → contains (filter_map (λ e. e) entries) name ≡ true
          → is_commit_of prefix name ≡ true
          → name ≡ commit)

  abbrev names : List Text
  names = filter_map (λ (e : Option Text). e) entries

  resolved-IsOnly : resolved ≡ ok commit → IsOnly
  unfolding contains
  resolved-IsOnly h =
      let one : names_with_prefix prefix entries ≡ commit ∷ [] =
        (picked (names_with_prefix prefix entries) refl).0 h in
      let found = λ (a : Text).
        sym (contains-names_with_prefix prefix entries a) ∙ ap (λ l. contains l a) one in
      (
        ground (arith, found commit, eq_self commit),
        ground (arith, found commit, eq_self commit),
        λ name listed fits. sym ((eq_iff commit name).0 (ground (arith, found name, listed, fits))),
      )

  IsOnly-resolved : IsOnly → resolved ≡ ok commit
  IsOnly-resolved (listed, fits, only) =
      let sorted = sort_by cmp (keep_if (is_commit_of prefix) names) in
      let found = λ (a : Text).
        contains-sort_by (keep_if (is_commit_of prefix) names) a
        ∙ contains-keep_if (is_commit_of prefix) names a in
      let equal =
        same_names sorted commit
          (λ a i. only a (ground (arith, found a, i)) (ground (arith, found a, i))) in
      (picked (names_with_prefix prefix entries) refl).1
        (dedup_names-repeated sorted commit equal (ground (arith, found commit, listed, fits)))

  -- A prefix below 40 bytes stands for a commit exactly where the commit is listed, has 40 bytes
  -- and the prefix, and every listed name of 40 bytes with the prefix is the commit.
  pub resolve_commit_prefix_iff : (resolved ≡ ok commit) ↔ IsOnly
  resolve_commit_prefix_iff = (resolved-IsOnly, IsOnly-resolved)
