-- ===== src/Naming/Keys.antt =====
-- Result keys: one safe path component, the legacy layout, and what they tell apart.
use ktest.Prelude.{
  ℕ, ◌≡◌, ◌≢◌, refl, sym, ap, false, ◌||◌, [], ◌∷◌, ◌++◌, arith, if◌then◌else◌, is_empty, length,
  length-append,
}
use mathlib.Core.List.{append_cancel_left, append_cancel_right}
use ktest.Text.{Text, lit, has_byte, replace_byte}
use ktest.Naming.{
  slash, dot, strip, subtest_full_name, sanitize_kernel, test_name_with_kernel, result_basename,
  subtest_result_key,
}

pub has_byte-append : (b : ℕ) (s t : Text) → has_byte b (s ++ t) ≡ (has_byte b s || has_byte b t)
unfolding has_byte
has_byte-append b [] t = refl
has_byte-append b (c ∷ s) t = ground (arith, has_byte-append b s t)

replace_byte-append :
    (b d : ℕ) (s t : Text) → replace_byte b d (s ++ t) ≡ replace_byte b d s ++ replace_byte b d t
unfolding replace_byte
replace_byte-append b d [] t = refl
replace_byte-append b d (c ∷ s) t = ground (arith, replace_byte-append b d s t)

has_byte-replace_byte : (b d : ℕ) (s : Text) → b ≢ d → has_byte b (replace_byte b d s) ≡ false
unfolding has_byte replace_byte
has_byte-replace_byte b d [] h = refl
has_byte-replace_byte b d (c ∷ s) h = ground (arith, has_byte-replace_byte b d s h)

replace_byte_idem :
    (b d : ℕ) (s : Text) → replace_byte b d (replace_byte b d s) ≡ replace_byte b d s
unfolding replace_byte
replace_byte_idem b d [] = refl
replace_byte_idem b d (c ∷ s) = ground (arith, replace_byte_idem b d s)

pub no_byte-append :
    (b : ℕ) (s t : Text) → has_byte b s ≡ false → has_byte b t ≡ false → has_byte b (s ++ t) ≡ false
no_byte-append b s t p q = rw (has_byte-append b s t, p, q)

slash-ne-dot : slash ≢ dot
slash-ne-dot h = omega arith

-- With no kernel and no environment the key is the legacy name.
subtest_result_key-legacy :
    (test subtest : Text) → subtest_result_key test subtest [] [] ≡ subtest_full_name test subtest
unfolding subtest_result_key subtest_full_name replace_byte
subtest_result_key-legacy test subtest =
    sym (replace_byte-append slash dot (strip test) (lit "." ++ subtest))

flat-no_slash : (s : Text) → has_byte slash (replace_byte slash dot s) ≡ false
flat-no_slash s = has_byte-replace_byte slash dot s slash-ne-dot

test_name_with_kernel-no_slash :
    (test kernel : Text) → has_byte slash (test_name_with_kernel test kernel) ≡ false
unfolding test_name_with_kernel has_byte
test_name_with_kernel-no_slash test [] = flat-no_slash (strip test)
test_name_with_kernel-no_slash test (c ∷ kernel) =
    no_byte-append slash (replace_byte slash dot (strip test)) _ (flat-no_slash (strip test))
      (has_byte-replace_byte slash b'_' (c ∷ kernel) (λ e. omega arith))

result_basename-no_slash :
    (test kernel env : Text)
    → has_byte slash env ≡ false
    → has_byte slash (result_basename test kernel env) ≡ false
unfolding result_basename has_byte
result_basename-no_slash test kernel [] h = test_name_with_kernel-no_slash test kernel
result_basename-no_slash test kernel (c ∷ env) h =
    no_byte-append slash (test_name_with_kernel test kernel) _
      (test_name_with_kernel-no_slash test kernel) h

-- Whatever the test, the subtest and the kernel hold, the key of an environment without a slash
-- holds no slash: it is one path component.
pub subtest_result_key-no_slash :
    (test subtest kernel env : Text)
    → has_byte slash env ≡ false
    → has_byte slash (subtest_result_key test subtest kernel env) ≡ false
unfolding subtest_result_key has_byte
subtest_result_key-no_slash test subtest kernel env h =
    no_byte-append slash (result_basename test kernel env) _
      (result_basename-no_slash test kernel env h) (flat-no_slash subtest)

longer : (s t : Text) (c : ℕ) → s ≢ s ++ (c ∷ t)
longer s t c e = omega (arith, ap length e, length-append s (c ∷ t))

result_basename-injective :
    (test kernel env env' : Text)
    → result_basename test kernel env ≡ result_basename test kernel env'
    → env ≡ env'
unfolding result_basename
result_basename-injective test kernel [] [] e = refl
result_basename-injective test kernel [] (c ∷ t) e = absurd (longer _ _ _ e)
result_basename-injective test kernel (c ∷ t) [] e = absurd (longer _ _ _ (sym e))
result_basename-injective test kernel (c ∷ t) (d ∷ u) e =
    cc (append_cancel_left (test_name_with_kernel test kernel) _ _ e)

subtest_result_key-injective_env :
    (test subtest kernel env env' : Text)
    → subtest_result_key test subtest kernel env ≡ subtest_result_key test subtest kernel env'
    → env ≡ env'
unfolding subtest_result_key
subtest_result_key-injective_env test subtest kernel env env' e =
    result_basename-injective test kernel env env' (append_cancel_right _ _ _ e)

-- Kernels that differ only in `/` against `_` share every key.
subtest_result_key-sanitized :
    (test subtest kernel env : Text)
    → subtest_result_key test subtest kernel env
      ≡ subtest_result_key test subtest (sanitize_kernel kernel) env
unfolding subtest_result_key replace_byte
subtest_result_key-sanitized test subtest kernel env =
    ap (λ name. qualified name env ++ (lit "." ++ replace_byte slash dot subtest)) (same kernel)
  where
    qualified : Text → Text → Text
    qualified name e = if is_empty e then name else name ++ (lit "@" ++ e)

    same :
        (k : Text) → test_name_with_kernel test k ≡ test_name_with_kernel test (sanitize_kernel k)
    same [] = refl
    same (c ∷ k) =
        ap (λ t. replace_byte slash dot (strip test) ++ (lit "@" ++ t))
          (sym (replace_byte_idem slash b'_' (c ∷ k)))

-- Runs of one subtest that differ in the environment have different keys.
subtest_result_key-distinct_env :
    (test subtest kernel env env' : Text)
    → env ≢ env'
    → subtest_result_key test subtest kernel env ≢ subtest_result_key test subtest kernel env'
subtest_result_key-distinct_env test subtest kernel env env' h e =
    h (subtest_result_key-injective_env test subtest kernel env env' e)
