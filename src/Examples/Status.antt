-- ===== src/Examples/Status.antt =====
-- Statuses as text.
use ktest.Prelude.{◌≡◌, refl}
use ktest.Text.{lit, contains_text}
use ktest.Status.{failed, from_str, from_file}
use ktest.Status.Wire.{from_file-failed_to_run}

-- The status file that the daemon writes for a run that failed to start.
from_file-failed_to_run_example : from_file (lit "FAILED TO RUN\n") ≡ failed
unfolding contains_text
from_file-failed_to_run_example = from_file-failed_to_run (lit "FAILED TO RUN\n") refl refl refl

-- The supervisor's status file of a run that timed out.
timed_out : from_str (lit "FAILED TIMEOUT") ≡ failed
unfolding from_str ktest.Text.text_beq contains_text
timed_out = refl
