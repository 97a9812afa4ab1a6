-- ===== src/Status.antt =====
-- `TestStatus` and `TestResult` (src/testresult.capnp, src/lib.rs): the verdict of one subtest and
-- the texts that stand for it, and which verdicts are final (src/jobs.rs).
pub mod Wire
use ktest.Prelude.{
  ℕ, ◌≡◌, refl, ◌↔◌, Bool, true, false, not, ◌&&◌, ◌||◌, Option, none, some, arith, if◌then◌else◌,
  Eq, ◌==◌, is_empty,
}
use ktest.Text.{Text, lit, text_eq, contains_text}
use ktest.BTreeMap.{BTreeMap}

pub data TestStatus : Type 0 where
  in_progress passed failed notrun failed_to_run unknown : TestStatus

abbrev pub status_beq : TestStatus → TestStatus → Bool
status_beq in_progress in_progress = true
status_beq passed passed = true
status_beq failed failed = true
status_beq notrun notrun = true
status_beq failed_to_run failed_to_run = true
status_beq unknown unknown = true
status_beq _ _ = false

pub status_beq_iff : (a b : TestStatus) → (status_beq a b ≡ true) ↔ (a ≡ b)
status_beq_iff a b = ground arith

instance abbrev pub status_eq : Eq TestStatus
status_eq = record { beq = status_beq; beq_iff = status_beq_iff }

pub record TestResult : Type 0 where
  pub status : TestStatus
  pub starttime : ℕ
  pub duration : ℕ

-- `TestStatus::to_str`: the JSON wire format.
unfoldable pub to_str : TestStatus → Text
to_str in_progress = lit "In progress"
to_str passed = lit "Passed"
to_str failed = lit "Failed"
to_str notrun = lit "Not run"
to_str failed_to_run = lit "Failed to run"
to_str unknown = lit "Unknown"

-- The second half of `TestStatus::from_str`: the supervisor's status files, by what they contain.
unfoldable pub from_file : Text → TestStatus
from_file s =
    if is_empty s
    then in_progress
    else if contains_text s (lit "IN PROGRESS")
    then in_progress
    else if contains_text s (lit "PASSED")
    then passed
    else if contains_text s (lit "FAILED")
    then failed
    else if contains_text s (lit "NOTRUN")
    then notrun
    else if contains_text s (lit "FAILED TO RUN") || contains_text s (lit "NOT STARTED")
    then failed_to_run
    else unknown

-- `TestStatus::from_str`: the exact inverse of `to_str` first.
unfoldable pub from_str : Text → TestStatus
unfolding from_file
from_str s =
    if s == lit "In progress"
    then in_progress
    else if s == lit "Passed"
    then passed
    else if s == lit "Failed"
    then failed
    else if s == lit "Not run"
    then notrun
    else if s == lit "Failed to run"
    then failed_to_run
    else if s == lit "Unknown"
    then unknown
    else from_file s

unfoldable pub table_class : TestStatus → Text
table_class passed = lit "table-success"
table_class failed = lit "table-danger"
table_class _ = lit "table-secondary"

-- `result_is_done`, `job_wanted` of src/jobs.rs.
unfoldable pub result_is_done : TestStatus → Bool
result_is_done passed = true
result_is_done failed = true
result_is_done notrun = true
result_is_done failed_to_run = true
result_is_done _ = false

unfoldable pub job_wanted : Option TestStatus → Bool
unfolding result_is_done
job_wanted none = true
job_wanted (some s) = not (result_is_done s) && not (s == in_progress)

-- `TestResultsMap`: the results of one commit by result key.
abbrev pub TestResultsMap : Type 0
TestResultsMap = BTreeMap TestResult
