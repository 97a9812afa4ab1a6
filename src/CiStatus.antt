-- ===== src/CiStatus.antt =====
-- The terminal client (src/bin/ci-status.rs): what its commands share, and how it finds a branch
-- and a commit.
pub mod Prefix
pub mod Render
pub mod Server
pub mod Composed
pub mod Commands
use ktest.Prelude.{
  ℕ, zero, suc, ◌+◌, ◌-◌, ◌≡◌, Bool, true, false, ◌&&◌, not, List, [], ◌∷◌, ◌++◌, Option, none,
  some, if◌then◌else◌, is_empty, is_some, length, nat_beq, ltb, leb, ◌==◌, take, keep_if,
  filter_map, unwrap_or, get_elem?,
}
use ktest.Prelude.Result.{Result, ok, err}
use ktest.Prelude.Cmp.Sort.{sort_by}
use ktest.Text.{Text, lit, text_eq, starts_with, cmp}
use ktest.BTreeMap.{get}
use ktest.Status.{TestStatus, in_progress, passed, failed, to_str}
use ktest.Users.{RawUserrc, Userrc, ConfigError, userrc_read_str}
use ktest.Config.{Ktestrc, repo_path}
use ktest.Git.{Git}
use ktest.Branch.{BranchEntry}
use ktest.Cgi.{CommitTests, UserBranches}

-- How a command fails: with a message, by an error of an outside call, or by a panic.
pub data Failure : Type 0 where
  bail : Text → Failure
  outside_error panic : Failure

-- What a command prints, on the two streams, and how it ends. What a failing command has printed
-- before a panic is left out.
pub record Ran : Type 0 where
  pub out : Text
  pub notes : Text
  pub ended : Result {0, 0} Failure Unit

abbrev pub prints : Text → Ran
prints t = record { out = t; notes = []; ended = ok tt }

abbrev pub fails : Failure → Ran
fails f = record { out = []; notes = []; ended = err f }

-- `?` on a value.
abbrev pub then_run {ℓ} : {A : Type ℓ} → Result Failure A → (A → Ran) → Ran
then_run (ok a) next = next a
then_run (err f) next = fails f

abbrev pub or_panic : Option Text → Ran
or_panic none = fails panic
or_panic (some t) = prints t

pub record HttpResponse : Type 0 where
  pub status : ℕ
  pub status_text : Text
  pub body : Text

-- The calls outside of the program.
pub record Calls (Repo : Type 0) : Type 0 where
  pub git : Git Repo
  -- whether `revparse_single` succeeds
  pub revparse : Repo → Text → Bool
  pub http : Text → Option HttpResponse
  pub list_dir : Text → Option (List (Option Text))
  pub read_file : Text → Option Text
  pub parse_json5 : Text → Option RawUserrc
  pub parse_error : Text → Option Text
  pub entries_of_json : Text → Option (List BranchEntry)
  pub commit_of_json : Text → Option CommitTests
  pub branches_of_json : Text → Option UserBranches
  pub print_entries : List BranchEntry → Text
  pub print_commit : CommitTests → Text
  pub print_branches : UserBranches → Text
  pub print_user : Userrc → Text
  pub decompress : Text → Option Text
  pub decimal : ℕ → Text
  pub tenths : ℕ → ℕ → Text
  pub scp : Text → Text → Option Bool

-- The colours of the terminal.
abbrev pub coloured : Text → Text → Text
coloured code s = (27 ∷ []) ++ (lit "[" ++ (code ++ (lit "m" ++ (s ++ ((27 ∷ []) ++ lit "[0m")))))

abbrev pub color_passed : Text → Text
color_passed s = coloured (lit "32") s

abbrev pub color_failed : Text → Text
color_failed s = coloured (lit "31") s

abbrev pub color_inprog : Text → Text
color_inprog s = coloured (lit "33") s

abbrev pub color_dim : Text → Text
color_dim s = coloured (lit "2") s

unfoldable pub color_status : TestStatus → Text
unfolding to_str
color_status passed = color_passed (to_str passed)
color_status failed = color_failed (to_str failed)
color_status in_progress = color_inprog (to_str in_progress)
color_status status = color_dim (to_str status)

-- A byte that continues a character, and the slice of the first bytes, which panics where it would
-- cut a character or is longer than the text.
abbrev pub is_continuation : ℕ → Bool
is_continuation b = leb 128 b && ltb b 192

unfoldable pub slice_to : ℕ → Text → Option Text
slice_to n s = elim (get_elem? s n) [
  | none ↦ if nat_beq n (length s) then some s else none
  | some b ↦ if is_continuation b then none else some (take n s)
]

-- `{:<w}` and `{:>w}`: the width counts characters.
unfoldable pub chars : Text → ℕ
chars s = length (keep_if (λ b. not (is_continuation b)) s)

abbrev pub spaces : ℕ → Text
spaces zero = []
spaces (suc n) = b' ' ∷ spaces n

unfoldable pub pad_right : ℕ → Text → Text
unfolding chars
pad_right w s = s ++ spaces (w - chars s)

unfoldable pub pad_left : ℕ → Text → Text
unfolding chars
pad_left w s = spaces (w - chars s) ++ s

-- `lines().next().unwrap_or("")`.
unfoldable pub first_line : Text → Text
first_line [] = []
first_line (c ∷ s) =
    let rest = first_line s in
    if nat_beq c b'\n'
    then []
    else if nat_beq c b'\r' && starts_with s (lit "\n")
    then []
    else c ∷ rest

module _ {Repo : Type 0} (calls : Calls Repo) (ktest : Ktestrc) where
  unfoldable pub resolve_branch : Repo → Text → Result Failure Text
  resolve_branch repo name =
      let with_remote : Option Text = elim ktest.ci_remote [
        | none ↦ none
        | some remote ↦
            let full = remote ++ (lit "/" ++ name) in
            if calls.revparse repo full then some full else none
      ] in
      elim with_remote [
        | some full ↦ ok full
        | none ↦
            if calls.revparse repo name
            then ok name
            else err (
                bail (
                  lit "can't resolve '"
                  ++ (name
                      ++ (lit "' "
                          ++ ((226 ∷ 128 ∷ 148 ∷ [])
                              ++ lit " try a full ref like 'remote/branch'")))))
      ]

  unfoldable pub user_config_path : Text
  user_config_path = ktest.output_dir ++ lit "/ci-user.json5"

  -- The repository that the user's file names for a branch.
  abbrev pub branch_repo_path : Text → Option Text
  branch_repo_path branch = elim (calls.read_file user_config_path) [
    | none ↦ none
    | some config ↦ elim (userrc_read_str calls.parse_json5 config) [
      | err e ↦ none
      | ok userrc ↦ elim (get branch userrc.branches) [
        | none ↦ none
        | some b ↦ repo_path ktest b.repo
      ]
    ]
  ]

  unfoldable pub open_branch_repo : Text → Result Failure Repo
  open_branch_repo branch =
      elim (calls.git.open_repo (unwrap_or (branch_repo_path branch) ktest.linux_repo)) [
        | none ↦ err outside_error
        | some repo ↦ ok repo
      ]

-- `Vec::dedup`.
unfoldable pub dedup_names : List Text → List Text
dedup_names [] = []
dedup_names (x ∷ []) = x ∷ []
dedup_names (x ∷ y ∷ ys) = let rest = dedup_names (y ∷ ys) in if x == y then rest else x ∷ rest

abbrev pub is_commit_of : Text → Text → Bool
is_commit_of prefix name = nat_beq (length name) 40 && starts_with name prefix

abbrev pub names_with_prefix : Text → List (Option Text) → List Text
names_with_prefix prefix entries =
    dedup_names (sort_by cmp (keep_if (is_commit_of prefix) (filter_map (λ e. e) entries)))

-- `resolve_commit_prefix`, over the listing of the output directory.
unfoldable pub resolve_commit_prefix :
    (ℕ → Text) → Option (List (Option Text)) → Text → Result Failure Text
unfolding dedup_names
resolve_commit_prefix decimal listing prefix =
    if leb 40 (length prefix) then ok prefix else elim listing [
      | none ↦ err outside_error
      | some entries ↦ elim (names_with_prefix prefix entries) [
        | [] ↦ err (bail (lit "no test results for commit " ++ prefix))
        | commit ∷ [] ↦ ok commit
        | first ∷ second ∷ rest ↦ err (
            bail (
              lit "ambiguous commit prefix "
              ++ (prefix
                  ++ (lit " (" ++ (decimal (length (first ∷ second ∷ rest)) ++ lit " matches)")))))
      ]
    ]
