-- ===== src/Naming.antt =====
-- The names under which results are stored (src/lib.rs): result keys qualified by kernel and
-- environment, and the wire form of an environment (also src/bin/ci-daemon.rs, which reads it).
pub mod Keys
pub mod Env
use ktest.Prelude.{
  Bool, true, false, ◌||◌, List, [], ◌∷◌, ◌++◌, if◌then◌else◌, is_empty, ℕ, keep_if, not,
}
use ktest.Prelude.Result.{Result, ok, err, ◌>>=◌}
use ktest.Text.{Text, lit, has_byte, replace_byte, remove_all, join, split}
use ktest.BTreeMap.{BTreeMap}

abbrev pub slash : ℕ
slash = b'/'

abbrev pub dot : ℕ
dot = b'.'

-- `test.replace(".ktest", "")`.
abbrev pub strip : Text → Text
strip test = remove_all (lit ".ktest") test

unfoldable pub subtest_full_name : Text → Text → Text
subtest_full_name test subtest = replace_byte slash dot (strip test ++ (lit "." ++ subtest))

unfoldable pub sanitize_kernel : Text → Text
sanitize_kernel kernel = replace_byte slash b'_' kernel

unfoldable pub test_name_with_kernel : Text → Text → Text
unfolding sanitize_kernel
test_name_with_kernel test kernel =
    let name = replace_byte slash dot (strip test) in
    if is_empty kernel then name else name ++ (lit "@" ++ sanitize_kernel kernel)

unfoldable pub result_basename : Text → Text → Text → Text
unfolding test_name_with_kernel
result_basename test kernel env =
    let base = test_name_with_kernel test kernel in
    if is_empty env then base else base ++ (lit "@" ++ env)

unfoldable pub subtest_result_key : Text → Text → Text → Text → Text
unfolding result_basename
subtest_result_key test subtest kernel env =
    result_basename test kernel env ++ (lit "." ++ replace_byte slash dot subtest)

-- `encode_env`: the closure `bad`, one pair, and the loop over the sorted map.
unfoldable pub bad : Text → Bool
bad s = has_byte b' ' s || has_byte b'=' s || has_byte b',' s || has_byte slash s

pub data EnvError : Type 0 where
  bad_key : Text → EnvError
  bad_value : Text → EnvError

abbrev pub pair : Text → Text → Text
pair k v = k ++ (lit "=" ++ v)

unfoldable pub encode_parts : BTreeMap Text → Result EnvError (List Text)
unfolding bad
encode_parts [] = ok []
encode_parts ((k, v) ∷ env) =
    if is_empty k || bad k
    then err (bad_key k)
    else if bad v
    then err (bad_value k)
    else (encode_parts env >>= λ parts. ok (pair k v ∷ parts))

unfoldable pub encode_env : BTreeMap Text → Result EnvError Text
unfolding encode_parts
encode_env env = encode_parts env >>= λ parts. ok (join (lit ",") parts)

-- `env.split(',').filter(|s| !s.is_empty())` of `job_env_prefix`.
unfoldable pub env_pairs : Text → List Text
env_pairs env = keep_if (λ s. not (is_empty s)) (split b',' env)

unfoldable pub spaced : List Text → Text
spaced [] = []
spaced (p ∷ ps) = p ++ (lit " " ++ spaced ps)

unfoldable pub job_env_prefix : Text → Text → Text
unfolding env_pairs spaced
job_env_prefix env ws = (lit "ktest_deps_dir=$HOME/" ++ (ws ++ lit " ")) ++ spaced (env_pairs env)
