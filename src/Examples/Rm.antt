-- ===== src/Examples/Rm.antt =====
-- A run of rm-results that deletes one of the two results of a commit.
use ktest.Prelude.{
  ◌≡◌, refl, Bool, true, false, ◌&&◌, not, List, [], ◌∷◌, Option, none, some, ◌==◌, if◌then◌else◌,
}
use ktest.Prelude.Result.{ok}
use ktest.Text.{Text, lit, text_eq}
use ktest.Files.{dir_of}
use ktest.Rm.{DirEntry, find_matching_results, delete_found}
use ktest.Rm.Removed.{looked_at, dir_of-delete_found}
use ktest.Examples.Data.{commit_40}
use ktest.Examples.Files.{with_dirs, finished, removable, written}

abbrev only_y : Text → Bool
only_y key = key == lit "a.y"

abbrev output_dir : List DirEntry
output_dir =
    record { name = lit "jobs.kent"; is_dir = false; lists = false }
    ∷ record { name = commit_40; is_dir = true; lists = true }
    ∷ []

y_found : find_matching_results only_y none output_dir with_dirs ≡ ok ((commit_40, lit "a.y") ∷ [])
unfolding find_matching_results ktest.Prelude.any ktest.Text.text_beq ktest.Prelude.keep_if
    ktest.HashMap.lookup
y_found = refl

dir_of-delete_found_example :
    dir_of commit_40
      (lit "a.y")
      (delete_found written removable false ((commit_40, lit "a.y") ∷ []) with_dirs)
    ≡ (if not false
          && (looked_at none commit_40 output_dir
              && (only_y (lit "a.y") && removable commit_40 (lit "a.y")))
        then none
        else dir_of commit_40 (lit "a.y") with_dirs)
dir_of-delete_found_example =
    dir_of-delete_found written removable false only_y none output_dir with_dirs commit_40
      (lit "a.y") ((commit_40, lit "a.y") ∷ []) y_found

x_stays :
    dir_of commit_40
      (lit "a.x")
      (delete_found written removable false ((commit_40, lit "a.y") ∷ []) with_dirs)
    ≡ some finished
unfolding ktest.HashMap.lookup delete_found ktest.Prelude.contains ktest.HashMap.insert
    ktest.Text.text_beq ktest.BTreeMap.get ktest.BTreeMap.remove_keys ktest.BTreeMap.remove
x_stays = refl
