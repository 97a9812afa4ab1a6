-- ===== src/Examples/Naming.antt =====
-- Result keys and encoded environments.
use ktest.Prelude.{◌≡◌, refl, false, [], ◌∷◌, map}
use ktest.Prelude.Result.{ok}
use ktest.Text.{Text, lit, has_byte}
use ktest.BTreeMap.{BTreeMap}
use ktest.Naming.{subtest_result_key, encode_env, env_pairs, pair, slash}
use ktest.Naming.Env.{env_pairs-encode_env, subtest_result_key-encode_env}

abbrev debug_env : BTreeMap Text
debug_env = (lit "ktest_kasan", lit "1") ∷ (lit "ktest_lockdep", lit "y") ∷ []

debug_env_text : encode_env debug_env ≡ ok (lit "ktest_kasan=1,ktest_lockdep=y")
unfolding encode_env has_byte ktest.Text.join
debug_env_text = refl

full_key :
    subtest_result_key (lit "fs/a.ktest") (lit "x") (lit "rpm/6.1") (lit "k=1")
    ≡ lit "fs.a@rpm_6.1@k=1.x"
unfolding subtest_result_key ktest.Text.replace_byte ktest.Text.remove_all
full_key = refl

env_pairs-encode_env_example :
    env_pairs (lit "ktest_kasan=1,ktest_lockdep=y") ≡ map (λ p. pair p.0 p.1) debug_env
env_pairs-encode_env_example =
    env_pairs-encode_env debug_env (lit "ktest_kasan=1,ktest_lockdep=y") debug_env_text

subtest_result_key-encode_env_example :
    has_byte slash (
      subtest_result_key
        (lit "fs/a.ktest")
        (lit "x/y")
        (lit "rpm/6.1")
        (lit "ktest_kasan=1,ktest_lockdep=y"))
    ≡ false
subtest_result_key-encode_env_example =
    subtest_result_key-encode_env (lit "fs/a.ktest") (lit "x/y") (lit "rpm/6.1") debug_env
      (lit "ktest_kasan=1,ktest_lockdep=y") debug_env_text
