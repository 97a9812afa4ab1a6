-- ===== src/Examples/Gc.antt =====
-- An output directory with an old and a live commit.
use ktest.Prelude.{
  ℕ, ◌-◌, ◌≡◌, ◌<◌, ◌↔◌, ◌⊎◌, refl, arith, true, false, Bool, List, [], ◌∷◌, Option, none, some,
}
use mathlib.Core.List.{Memᴰ}
use ktest.Text.{lit}
use ktest.Gc.{OutputEntry, removed, panicked, gc_entry, branch_get_commits}
use ktest.Gc.Live.{HasCutName, IsDead, IsOld, gc_entry_iff, branch_get_commits-covers}
use ktest.Examples.Data.{commit_40, git_of_three}

abbrev old_entry : OutputEntry
old_entry = record { name = some commit_40; mtime = some 5 }

abbrev always : {A : Type 0} → A → Bool
always x = true

gc_entry_iff_example :
    ((gc_entry 10000 always always false [] old_entry ≡ removed) ↔ (
      IsDead [] old_entry.name
      × IsOld 10000 old_entry.mtime
      × (false ≡ false)
      × (always old_entry ≡ true)))
    × ((gc_entry 10000 always always false [] old_entry ≡ panicked)
        ↔ (HasCutName old_entry.name ⊎ (IsDead [] old_entry.name × (old_entry.mtime ≡ none))))
gc_entry_iff_example = gc_entry_iff 10000 always always false [] old_entry

old_entry_goes : gc_entry 10000 always always false [] old_entry ≡ removed
unfolding gc_entry ktest.Prelude.contains
old_entry_goes = refl

branch_get_commits-covers_example :
    Memᴰ (lit "1") (branch_get_commits git_of_three tt (lit "kent/master") 500)
unfolding ktest.Jobs.Specs.branch_commits ktest.Prelude.filter_map
branch_get_commits-covers_example =
    branch_get_commits-covers git_of_three tt (lit "kent/master") 2 500 (lit "2" ∷ lit "1" ∷ [])
      (lit "1") (lit "subject") (omega arith) refl refl (Memᴰ.tail (Memᴰ.head refl))
