-- ===== src/Examples/Files.antt =====
-- A commit with one finished and one unfinished result directory.
use ktest.Prelude.{
  ℕ, ◌≡◌, refl, Bool, true, false, List, [], ◌∷◌, Option, none, some, ◌==◌, contains, take, map,
  ◌||◌, ◌&&◌, not, if◌then◌else◌, length, ◌≤◌,
}
use ktest.Text.{Text, lit, text_eq}
use ktest.BTreeMap.{get}
use ktest.Status.{passed}
use ktest.Store.{Disk, ResultDir}
use ktest.Store.Load.{commit_dirs}
use ktest.Files.{dir_of, cleanup_inprogress_results, read_test_result}
use ktest.Files.Cleanup.{swept, dir_of-cleanup_inprogress_results}
use ktest.Examples.Data.{commit_40, listing, disk}

abbrev pub finished : ResultDir
finished = record { status = some (lit "PASSED"); duration = some (lit "20"); mtime = 7 }

abbrev pub unfinished : ResultDir
unfinished = record { status = some (lit "IN PROGRESS"); duration = none; mtime = 8 }

abbrev pub with_dirs : Disk
with_dirs = record disk {
  dirs = (commit_40, (lit "a.x", finished) ∷ (lit "a.y", unfinished) ∷ []) ∷ [];
}

abbrev pub removable : Text → Text → Bool
removable commit key = true

abbrev pub written : Text → Bool
written commit = true

read_finished :
    read_test_result finished ≡ some (record { status = passed; starttime = 7; duration = 20 })
unfolding read_test_result ktest.Status.from_str ktest.Text.text_beq ktest.Text.contains_text
read_finished = refl

cleaned_up :
    dir_of commit_40
      (lit "a.y")
      (cleanup_inprogress_results written removable (some listing) with_dirs)
    ≡ none
unfolding ktest.HashMap.lookup cleanup_inprogress_results ktest.Prelude.all ktest.Text.text_beq
    ktest.Status.from_str ktest.Text.contains_text ktest.HashMap.insert get
cleaned_up = refl

dir_of-cleanup_inprogress_results_example :
    dir_of commit_40
      (lit "a.y")
      (cleanup_inprogress_results written removable (some listing) with_dirs)
    ≡ (if contains (commit_dirs listing) commit_40
        then swept true (dir_of commit_40 (lit "a.y") with_dirs)
        else dir_of commit_40 (lit "a.y") with_dirs)
unfolding ktest.HashMap.lookup ktest.Text.text_beq ktest.Text.cmp
dir_of-cleanup_inprogress_results_example =
    dir_of-cleanup_inprogress_results written removable listing with_dirs commit_40 (lit "a.y")
      ((refl, tt), (tt, tt))
