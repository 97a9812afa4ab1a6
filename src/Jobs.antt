-- ===== src/Jobs.antt =====
-- The job matrix of src/jobs.rs: what a job is, its niceness and weight, and the order of jobs.
-- An i64 is its 64 bits, so that `as i64` from u64 keeps the number, `+` is addition modulo 2^64
-- (as in a release build), and signed comparison is that of the bits moved by 2^63.
pub mod Listing
pub mod Specs
pub mod Desired
pub mod Weight
pub mod Dedup
pub mod Window
pub mod Wanted
use ktest.Prelude.{
  ℕ, ◌+◌, ◌/◌, ◌%◌, ◌^◌, ◌≡◌, ◌↔◌, Bool, true, false, not, ◌&&◌, List, Option, none, some, arith,
  ltb, nat_beq, if◌then◌else◌, Eq, ◌==◌, eq_iff, Ordering, compare,
}
use ktest.Prelude.Cmp.{◌then◌, by_key}
use ktest.Text.{Text, cmp, text_eq}
use ktest.Users.{RcTestGroup}
use ktest.Stats.{add64, TestStats}

pub record JobKey : Type 0 where
  pub user : Text
  pub repo : Text
  pub commit : Text
  pub kernel : Text
  pub env : Text
  pub test : Text
  pub subtest : Text

-- The derived `PartialEq`.
abbrev pub key_beq : JobKey → JobKey → Bool
key_beq a b =
    a.user == b.user
    && (a.repo == b.repo
        && (a.commit == b.commit
            && (a.kernel == b.kernel
                && (a.env == b.env && (a.test == b.test && a.subtest == b.subtest)))))

pub key_beq_iff : (a b : JobKey) → (key_beq a b ≡ true) ↔ (a ≡ b)
key_beq_iff a b = ground (
  arith,
  eq_iff a.user b.user,
  eq_iff a.repo b.repo,
  eq_iff a.commit b.commit,
  eq_iff a.kernel b.kernel,
  eq_iff a.env b.env,
  eq_iff a.test b.test,
  eq_iff a.subtest b.subtest,
)

instance abbrev pub key_eq : Eq JobKey
key_eq = record { beq = key_beq; beq_iff = key_beq_iff }

pub record Job : Type 0 where
  pub key : JobKey
  pub age : ℕ
  pub nice : ℕ
  pub duration : ℕ

-- `job_nice`: the two adjustments, one after the other.
abbrev pub passes_nice : RcTestGroup → TestStats → ℕ → ℕ
passes_nice tg stats nice =
    if not (nat_beq tg.test_always_passes_nice 0)
      && (not (nat_beq stats.passed stats.failed)
          && ltb tg.test_always_passes_nice (add64 stats.passed stats.failed))
    then add64 nice tg.test_always_passes_nice
    else nice

abbrev pub duration_nice : RcTestGroup → TestStats → ℕ → ℕ
duration_nice tg stats nice =
    if not (nat_beq tg.test_duration_nice 0)
    then add64 nice (stats.duration / tg.test_duration_nice)
    else nice

unfoldable pub job_nice : RcTestGroup → Option TestStats → ℕ
job_nice tg none = tg.nice
job_nice tg (some stats) = duration_nice tg stats (passes_nice tg stats tg.nice)

-- `job_weight`, and comparison of i64 values.
unfoldable pub job_weight : Job → ℕ
job_weight j = add64 j.age j.nice

abbrev pub biased : ℕ → ℕ
biased w = (w + 2 ^ 63) % 2 ^ 64

abbrev pub cmp_i64 : ℕ → ℕ → Ordering
cmp_i64 = by_key biased compare

-- The closure that `desired_jobs` sorts by.
unfoldable pub job_cmp : Job → Job → Ordering
unfolding job_weight
job_cmp a b =
    cmp_i64 (job_weight a) (job_weight b)
    then cmp a.key.commit b.key.commit
    then cmp a.key.test b.key.test
    then cmp a.key.kernel b.key.kernel
    then cmp a.key.env b.key.env
    then compare a.duration b.duration
