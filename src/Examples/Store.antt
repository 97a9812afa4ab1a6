-- ===== src/Examples/Store.antt =====
-- A store that starts up from a file with a result and a marker of an unfinished run.
use ktest.Prelude.{
  ℕ, ◌≡◌, refl, arith, true, false, Bool, List, [], ◌∷◌, Option, none, some, or_else, ◌==◌,
  contains, ◌&&◌, if◌then◌else◌, unwrap_or,
}
use ktest.Text.{Text, lit, text_eq}
use ktest.BTreeMap.{get}
use ktest.Status.{job_wanted}
use ktest.Capnp.{render, parse_test_results, unstarted_map, parse_test_results-render}
use ktest.Store.{Store, load, lookup, update, delete}
use ktest.Store.Laws.{result_of, result_of-update}
use ktest.Store.Mirror.{IsMirrored, update-IsMirrored}
use ktest.Store.Load.{kept_result, stored_result, commit_dirs}
use ktest.Store.Load.Startup.{is_unsettled, result_of-load, job_wanted-load}
use ktest.Examples.Data.{first_results, commit_40, listing, disk, empty_store}

abbrev all_written : Text → Bool
all_written commit = true

result_of-load_example :
    result_of commit_40 (lit "a.x") (load all_written false (some listing) disk) ≡ (
      if contains (commit_dirs listing) commit_40
      then kept_result false (stored_result commit_40 (lit "a.x") disk)
      else none)
unfolding commit_dirs ktest.Prelude.all contains
result_of-load_example =
    result_of-load all_written false listing disk commit_40 (lit "a.x") (refl, tt)

job_wanted-load_example :
    job_wanted (lookup commit_40 (lit "a.y") (load all_written false (some listing) disk)) ≡ true
unfolding commit_dirs ktest.Prelude.all contains is_unsettled stored_result ktest.Store.read_capnp
    ktest.HashMap.lookup ktest.Text.text_beq parse_test_results render get ktest.BTreeMap.insert
    ktest.Text.cmp
job_wanted-load_example =
    job_wanted-load all_written false listing disk commit_40 (lit "a.y") (refl, tt)

not_wanted_again :
    job_wanted (lookup commit_40 (lit "a.x") (load all_written false (some listing) disk)) ≡ false
unfolding load job_wanted lookup ktest.HashMap.lookup ktest.Prelude.all ktest.Text.text_beq
    parse_test_results render ktest.BTreeMap.remove_keys ktest.Prelude.keep_if ktest.BTreeMap.insert
    ktest.Text.cmp ktest.BTreeMap.remove ktest.HashMap.insert get
not_wanted_again = refl

result_of-update_example :
    result_of (lit "c1") (lit "a.x") (update false (lit "c1") first_results empty_store) ≡ (
      if lit "c1" == lit "c1"
      then or_else (get (lit "a.x") first_results) (result_of (lit "c1") (lit "a.x") empty_store)
      else result_of (lit "c1") (lit "a.x") empty_store)
unfolding ktest.Text.cmp
result_of-update_example =
    result_of-update false (lit "c1") (lit "c1") (lit "a.x") first_results empty_store
      ((refl, tt), (tt, tt))

abbrev one_commit : Store
one_commit = update true (lit "c1") first_results empty_store

empty_store-IsMirrored : IsMirrored empty_store
unfolding IsMirrored ktest.HashMap.lookup
empty_store-IsMirrored c m e = absurd (ground arith)

update-IsMirrored_example : IsMirrored (update true (lit "c1") first_results empty_store)
unfolding ktest.Text.cmp
update-IsMirrored_example =
    update-IsMirrored (lit "c1") first_results empty_store ((refl, tt), (tt, tt))
      empty_store-IsMirrored

one_commit-IsMirrored : IsMirrored one_commit
unfolding ktest.Text.cmp
one_commit-IsMirrored =
    update-IsMirrored (lit "c1") first_results empty_store ((refl, tt), (tt, tt))
      empty_store-IsMirrored

parse_test_results-render_example :
    parse_test_results (render (lit "c1") (some (lit "subject")) first_results)
    ≡ some (record {
      message = unwrap_or (some (lit "subject")) [];
      commit_id = lit "c1";
      tests = unstarted_map first_results;
    })
unfolding ktest.Text.cmp
parse_test_results-render_example =
    parse_test_results-render (lit "c1") (some (lit "subject")) first_results ((refl, tt), (tt, tt))
