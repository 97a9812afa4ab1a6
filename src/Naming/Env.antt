-- ===== src/Naming/Env.antt =====
-- The wire form of an environment: what it accepts, that it is one safe path component, and that
-- the reader in src/bin/ci-daemon.rs gets back the pairs that were written.
use ktest.Prelude.{
  ℕ, ◌≡◌, refl, sym, ap, ◌∙◌, false, not, ◌||◌, List, [], ◌∷◌, ◌++◌, arith, All, is_empty, nat_beq,
  map, keep_if, Bool-cases, inl, inr, ◌↔◌, subst,
}
use ktest.Prelude.Result.{ok, >>=-eq-ok}
use ktest.Text.{Text, lit, has_byte, join, split}
use ktest.BTreeMap.{BTreeMap}
use ktest.Naming.{slash, bad, pair, encode_parts, encode_env, env_pairs, subtest_result_key}
use ktest.Naming.Keys.{no_byte-append, subtest_result_key-no_slash}

-- What `encode_env` asks of a pair.
abbrev pub IsEncodable : Text × Text → Type 0
IsEncodable p = (is_empty p.0 ≡ false) × (bad p.0 ≡ false) × (bad p.1 ≡ false)

encode_parts-eq-ok :
    (env : BTreeMap Text) (parts : List Text)
    → encode_parts env ≡ ok parts
    → (parts ≡ map (λ p. pair p.0 p.1) env) × All IsEncodable env
unfolding encode_parts
encode_parts-eq-ok [] parts h = (ground arith, tt)
encode_parts-eq-ok ((k, v) ∷ env) parts h = elim (Bool-cases (is_empty k || bad k)) [
  | inl e ↦ absurd (ground arith)
  | inr e ↦ elim (Bool-cases (bad v)) [
    | inl e' ↦ absurd (ground arith)
    | inr e' ↦
        let (rest, first, last) = >>=-eq-ok (encode_parts env) _ (rw (e, e', encode_parts) at h) in
        let (same, good) = encode_parts-eq-ok env rest first in
        (ground arith, ((ground arith, ground arith, e'), good))
  ]
]

encode_parts_returns :
    (env : BTreeMap Text)
    → All IsEncodable env
    → encode_parts env ≡ ok (map (λ p. pair p.0 p.1) env)
unfolding encode_parts
encode_parts_returns [] h = refl
encode_parts_returns ((k, v) ∷ env) ((e, b, b'), h) = rw (e, b, b', encode_parts_returns env h)

-- Splitting at a separator that no part holds undoes joining.
split_none : (b : ℕ) (s : Text) → has_byte b s ≡ false → split b s ≡ s ∷ []
unfolding split has_byte
split_none b [] h = refl
split_none b (c ∷ s) h = ground (arith, split_none b s)

split-cons : (b : ℕ) (s : Text) → (p : Text) × (ps : List Text) × (split b s ≡ p ∷ ps)
unfolding split
split-cons b [] = ([], [], refl)
split-cons b (c ∷ s) =
    let (p, ps, e) = split-cons b s in
    elim (Bool-cases (nat_beq c b)) [
      | inl h ↦ ([], p ∷ ps, rw e (rw h))
      | inr h ↦ (c ∷ p, ps, rw e (rw h))
    ]

split_first : (b : ℕ) (s t : Text) → has_byte b s ≡ false → split b (s ++ (b ∷ t)) ≡ s ∷ split b t
unfolding split has_byte
split_first b [] t h = let (p, ps, e) = split-cons b t in ground (arith, e)
split_first b (c ∷ s) t h = ground (arith, split_first b s t)

split-join :
    (b : ℕ) (p : Text) (ps : List Text)
    → All (λ q. has_byte b q ≡ false) (p ∷ ps)
    → split b (join (b ∷ []) (p ∷ ps)) ≡ p ∷ ps
unfolding join
split-join b p [] (h, hs) = split_none b p h
split-join b p (q ∷ qs) (h, hs) =
    split_first b p (join (b ∷ []) (q ∷ qs)) h ∙ ap (◌∷◌ p) (split-join b q qs hs)

pair-no_byte :
    (b : ℕ) (k v : Text)
    → nat_beq b'=' b ≡ false
    → has_byte b k ≡ false
    → has_byte b v ≡ false
    → has_byte b (pair k v) ≡ false
unfolding has_byte
pair-no_byte b k v e hk hv = no_byte-append b k (lit "=" ++ v) hk (ground arith)

pairs-no_byte :
    (b : ℕ) (env : BTreeMap Text)
    → nat_beq b'=' b ≡ false
    → All (λ (p : Text × Text). (has_byte b p.0 ≡ false) × (has_byte b p.1 ≡ false)) env
    → All (λ q. has_byte b q ≡ false) (map (λ p. pair p.0 p.1) env)
pairs-no_byte b [] e h = tt
pairs-no_byte b ((k, v) ∷ env) e ((hk, hv), h) =
    (pair-no_byte b k v e hk hv, pairs-no_byte b env e h)

encodable-no_byte :
    (env : BTreeMap Text)
    → All IsEncodable env
    → All (λ (p : Text × Text). (has_byte b',' p.0 ≡ false) × (has_byte b',' p.1 ≡ false)) env
      × All (λ (p : Text × Text). (has_byte slash p.0 ≡ false) × (has_byte slash p.1 ≡ false)) env
unfolding bad
encodable-no_byte [] h = (tt, tt)
encodable-no_byte ((k, v) ∷ env) ((e, b, b'), h) =
    let (commas, slashes) = encodable-no_byte env h in
    ((ground arith, commas), (ground arith, slashes))

keep_pairs :
    (env : BTreeMap Text)
    → keep_if (λ s. not (is_empty s)) (map (λ p. pair p.0 p.1) env) ≡ map (λ p. pair p.0 p.1) env
unfolding keep_if
keep_pairs [] = refl
keep_pairs (([], v) ∷ env) = ap (◌∷◌ (pair [] v)) (keep_pairs env)
keep_pairs ((c ∷ k, v) ∷ env) = ap (◌∷◌ (pair (c ∷ k) v)) (keep_pairs env)

env_pairs-join :
    (env : BTreeMap Text)
    → All IsEncodable env
    → env_pairs (join (lit ",") (map (λ p. pair p.0 p.1) env)) ≡ map (λ p. pair p.0 p.1) env
unfolding env_pairs join split keep_if
env_pairs-join [] h = refl
env_pairs-join ((k, v) ∷ env) h =
    ap (keep_if (λ s. not (is_empty s))) (
      split-join b',' (pair k v) (map (λ p. pair p.0 p.1) env)
        (pairs-no_byte b',' ((k, v) ∷ env) refl (encodable-no_byte ((k, v) ∷ env) h).0))
    ∙ keep_pairs ((k, v) ∷ env)

-- Reading an encoded environment, as the daemon does for the command line of the worker, gives the
-- `K=V` pairs of the map, in order and with none lost.
pub env_pairs-encode_env :
    (env : BTreeMap Text) (s : Text)
    → encode_env env ≡ ok s
    → env_pairs s ≡ map (λ p. pair p.0 p.1) env
unfolding encode_env
env_pairs-encode_env env s h =
    let (parts, first, last) = >>=-eq-ok (encode_parts env) _ h in
    let (same, good) = encode_parts-eq-ok env parts first in
    let joined : join (lit ",") parts ≡ s = ground arith in
    subst (λ t. env_pairs t ≡ map (λ p. pair p.0 p.1) env) (ap (join (lit ",")) (sym same) ∙ joined)
      (env_pairs-join env good)

-- An environment is encoded exactly when every key is non-empty and no key or value holds a space,
-- an equals sign, a comma or a slash.
encode_env_iff :
    (env : BTreeMap Text) → ((s : Text) × (encode_env env ≡ ok s)) ↔ All IsEncodable env
unfolding encode_env
encode_env_iff env = (
  (λ (s, h).
      let (parts, first, last) = >>=-eq-ok (encode_parts env) _ h in
      (encode_parts-eq-ok env parts first).1),
  (λ good. (join (lit ",") (map (λ p. pair p.0 p.1) env), rw (encode_parts_returns env good) refl)),
)

join-no_byte :
    (b : ℕ) (ps : List Text)
    → nat_beq b',' b ≡ false
    → All (λ q. has_byte b q ≡ false) ps
    → has_byte b (join (lit ",") ps) ≡ false
unfolding join has_byte
join-no_byte b [] e h = refl
join-no_byte b (p ∷ []) e (h, hs) = h
join-no_byte b (p ∷ q ∷ qs) e (h, hs) =
    no_byte-append b p _ h (ground (arith, join-no_byte b (q ∷ qs) e hs))

-- The result key of an encoded environment holds no slash, so it names one directory.
pub subtest_result_key-encode_env :
    (test subtest kernel : Text) (env : BTreeMap Text) (s : Text)
    → encode_env env ≡ ok s
    → has_byte slash (subtest_result_key test subtest kernel s) ≡ false
unfolding encode_env
subtest_result_key-encode_env test subtest kernel env s h =
    let (parts, first, last) = >>=-eq-ok (encode_parts env) _ h in
    let (same, good) = encode_parts-eq-ok env parts first in
    let joined : join (lit ",") parts ≡ s = ground arith in
    subtest_result_key-no_slash test subtest kernel s (
      subst (λ t. has_byte slash t ≡ false) (ap (join (lit ",")) (sym same) ∙ joined)
        (join-no_byte slash _ refl (pairs-no_byte slash env refl (encodable-no_byte env good).1)))
