-- ===== src/Git.antt =====
-- The git repositories that the programs read, by the calls of git2 that they make.
use ktest.Prelude.{List, Option}
use ktest.Text.{Text}

-- `open` is `Repository::open`; `resolve` is `revparse_single` with `peel_to_commit`
-- (`git_get_commit`); `walk` is `revwalk` with `push`, and lists what the walk yields, newest
-- first, `none` for an object that cannot be read; `message` is `find_commit` with `message`.
pub record Git (Repo : Type 0) : Type 0 where
  pub open_repo : Text → Option Repo
  pub resolve : Repo → Text → Option Text
  pub walk : Repo → Text → Option (List (Option Text))
  pub message : Repo → Text → Option Text

abbrev pub readable : Option Text → Option Text
readable o = o
