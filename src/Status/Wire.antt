-- ===== src/Status/Wire.antt =====
-- The wire format of a status, and what the status files of the supervisor are read as.
use ktest.Prelude.{◌≡◌, refl, ◌≢◌, ◌↔◌, ◌⊎◌, true, false, Option, none, some, arith, ◌++◌, [], ◌∷◌}
use ktest.Text.{Text, lit, text_beq, text_eq, contains_text, starts_with}
use ktest.Status.{
  TestStatus, in_progress, passed, failed, notrun, failed_to_run, unknown, to_str, from_file,
  from_str, job_wanted,
}

-- Reading back what `to_str` wrote gives the status, for every status.
from_str-to_str : (s : TestStatus) → from_str (to_str s) ≡ s
unfolding from_str to_str text_beq
from_str-to_str in_progress = refl
from_str-to_str passed = refl
from_str-to_str failed = refl
from_str-to_str notrun = refl
from_str-to_str failed_to_run = refl
from_str-to_str unknown = refl

starts_with-append : (s p q : Text) → starts_with s (p ++ q) ≡ true → starts_with s p ≡ true
unfolding starts_with
starts_with-append s [] q h = refl
starts_with-append [] (x ∷ p) q h = h
starts_with-append (c ∷ s) (x ∷ p) q h = ground (arith, starts_with-append s p q)

contains_text-append : (s p q : Text) → contains_text s (p ++ q) ≡ true → contains_text s p ≡ true
unfolding contains_text
contains_text-append [] p q h = starts_with-append [] p q h
contains_text-append (c ∷ s) p q h =
    ground (arith, starts_with-append (c ∷ s) p q, contains_text-append s p q)

empty_holds_nothing : contains_text [] (lit "FAILED TO RUN") ≢ true
unfolding contains_text starts_with
empty_holds_nothing h = cc

-- A status file that holds "FAILED TO RUN" but neither "IN PROGRESS" nor "PASSED" is read as
-- `failed`, since "FAILED" is tested first.
pub from_file-failed_to_run :
    (s : Text)
    → contains_text s (lit "FAILED TO RUN") ≡ true
    → contains_text s (lit "IN PROGRESS") ≡ false
    → contains_text s (lit "PASSED") ≡ false
    → from_file s ≡ failed
unfolding from_file
from_file-failed_to_run [] h p q = absurd (empty_holds_nothing h)
from_file-failed_to_run (c ∷ s) h p q =
    rw (p, q, contains_text-append (c ∷ s) (lit "FAILED") (lit " TO RUN") h)

-- A job is wanted exactly when its subtest has no result or an unknown one.
pub job_wanted_iff :
    (s : Option TestStatus) → (job_wanted s ≡ true) ↔ ((s ≡ none) ⊎ (s ≡ some unknown))
unfolding job_wanted
job_wanted_iff s = ground arith
