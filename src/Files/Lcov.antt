-- ===== src/Files/Lcov.antt =====
-- `update_lcov` (src/lib.rs): the merging of the coverage files of a commit. A directory is the list
-- of the names in it; the lock, lcov, git and genhtml are parameters.
use ktest.Prelude.{
  ◌≡◌, ◌↔◌, Bool, true, ◌&&◌, ◌||◌, not, List, [], ◌∷◌, ◌++◌, arith, if◌then◌else◌, ◌==◌, contains,
  keep_if, flat_map,
}
use ktest.Text.{Text, lit, text_eq, starts_with}

-- What the system does: whether the lock is taken, a directory can be listed, a file removed, the
-- merged file renamed, and each tool executed. lcov and genhtml answer whether they succeed, with
-- the names in the directory after them.
pub record LcovTools : Type 0 where
  pub locks : Bool
  pub lists : Text → Bool
  pub removes : Text → Text → Bool
  pub renames : Text → Bool
  pub lcov_runs : Bool
  pub lcov : Text → List Text → List Text → Bool × List Text
  pub git_runs : Bool
  pub git : Text → Bool
  pub genhtml_runs : Bool
  pub genhtml : Text → List Text → Bool × List Text

-- `Some(())`, `None`, or the panic of an `expect`.
pub data LcovEnd : Type 0 where
  done gave_up no_tool : LcovEnd

abbrev pub drop_name : Text → List Text → List Text
drop_name name names = keep_if (λ n. not (n == name)) names

unfoldable pub remove_names : LcovTools → Text → List Text → List Text → List Text
remove_names t commit [] names = names
remove_names t commit (n ∷ ns) names =
    remove_names t commit ns (if t.removes commit n then drop_name n names else names)

unfoldable pub partial_names : List Text → List Text
partial_names names = keep_if (λ n. starts_with n (lit "lcov.partial.")) names

unfoldable pub lcov_args : List Text → List Text
unfolding partial_names
lcov_args names =
    flat_map (λ n. lit "--add-tracefile" ∷ n ∷ []) (partial_names names)
    ++ (if contains names (lit "lcov.info")
        then lit "--add-tracefile" ∷ lit "lcov.info" ∷ []
        else [])

-- After lcov has succeeded: the rename, the removal of the merged files, git and genhtml.
unfoldable pub finish_lcov : LcovTools → Text → List Text → List Text → List Text × LcovEnd
unfolding remove_names
finish_lcov t commit merged names =
    if not (t.renames commit)
    then (names, gave_up)
    else let info = lit "lcov.info" in
      let left =
        remove_names t commit merged
          (info ∷ drop_name info (drop_name (lit "lcov.info.new") names)) in
      if not t.git_runs
      then (left, no_tool)
      else if not (t.git commit)
      then (left, done)
      else if not t.genhtml_runs
      then (left, no_tool)
      else ((t.genhtml commit left).1, done)

unfoldable pub update_lcov : LcovTools → Text → List Text → List Text × LcovEnd
unfolding partial_names lcov_args finish_lcov
update_lcov t commit names =
    let stale = lit "lcov-stale" in
    if not (contains names stale && t.removes commit stale)
    then (names, done)
    else let left = drop_name stale names in
      if not t.locks || not (t.lists commit)
      then (left, gave_up)
      else if not t.lcov_runs
      then (left, no_tool)
      else let (succeeds, after) = t.lcov commit (lcov_args left) left in
        if succeeds then finish_lcov t commit (partial_names left) after else (after, done)

-- The marker of stale coverage is there and can be removed, the lock is taken and the directory
-- listed, and lcov cannot be executed, or it succeeds, its result is renamed, and git cannot be
-- executed, or git succeeds and genhtml cannot be executed.
unfoldable pub loses_tool : LcovTools → Text → List Text → Bool
loses_tool t commit names =
    let left = drop_name (lit "lcov-stale") names in
    contains names (lit "lcov-stale")
    && (t.removes commit (lit "lcov-stale")
        && (t.locks
            && (t.lists commit
                && (not t.lcov_runs
                    || ((t.lcov commit (lcov_args left) left).0
                        && (t.renames commit
                            && (not t.git_runs || (t.git commit && not t.genhtml_runs))))))))

finish_lcov_iff :
    (t : LcovTools) (commit : Text) (merged names : List Text)
    → ((finish_lcov t commit merged names).1 ≡ no_tool)
      ↔ ((t.renames commit && (not t.git_runs || (t.git commit && not t.genhtml_runs))) ≡ true)
unfolding finish_lcov
finish_lcov_iff t commit merged names = ground arith

pub update_lcov_iff :
    (t : LcovTools) (commit : Text) (names : List Text)
    → ((update_lcov t commit names).1 ≡ no_tool) ↔ (loses_tool t commit names ≡ true)
unfolding update_lcov loses_tool
update_lcov_iff t commit names =
    let left = drop_name (lit "lcov-stale") names in
    ground
      (arith, finish_lcov_iff t commit (partial_names left) (t.lcov commit (lcov_args left) left).1)
