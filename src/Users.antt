-- ===== src/Users.antt =====
-- The CI configuration of one user (src/users.rs): test groups that extend one another, resolved
-- with cycle detection into flat groups, and branches that name them.
pub mod Laws
pub mod Termination
pub mod Acyclic
use ktest.Prelude.{
  ℕ, zero, suc, ◌≡◌, Bool, true, false, List, [], ◌∷◌, Option, none, some, if◌then◌else◌, ◌==◌,
  reverse, contains, is_some, or_else, unwrap_or, length,
}
use ktest.Prelude.Result.{Result, ok, err, ◌>>=◌, ok_or}
use ktest.Text.{Text, lit, text_eq}
use ktest.BTreeMap.{BTreeMap, get, insert, insert_all, keys}

-- The on-disk schema.
pub record RawTestGroup : Type 0 where
  pub extends : Option Text
  pub max_commits : Option ℕ
  pub nice : Option ℕ
  pub test_duration_nice : Option ℕ
  pub test_always_passes_nice : Option ℕ
  pub tests : Option (List Text)
  pub kernels : Option (List Text)
  pub env : Option (BTreeMap Text)

pub record RawBranch : Type 0 where
  pub fetch : Text
  pub repo : Text
  pub test_groups : List Text

pub record RawUserrc : Type 0 where
  pub test_groups : BTreeMap RawTestGroup
  pub branches : BTreeMap RawBranch

-- `default_repo`, which the deserializer puts in for a missing `repo`.
abbrev pub default_repo : Text
default_repo = lit "linux"

-- A resolved group.
pub record RcTestGroup : Type 0 where
  pub max_commits : ℕ
  pub nice : ℕ
  pub test_duration_nice : ℕ
  pub test_always_passes_nice : ℕ
  pub tests : List Text
  pub kernels : List Text
  pub env : BTreeMap Text

pub record RcBranch : Type 0 where
  pub fetch : Text
  pub repo : Text
  pub test_groups : List Text

pub record Userrc : Type 0 where
  pub test_groups : BTreeMap RcTestGroup
  pub branches : BTreeMap RcBranch

-- The errors of the resolver. `out_of_fuel` is the model's own.
pub data ConfigError : Type 0 where
  cycle : List Text → Text → ConfigError
  not_defined : Text → ConfigError
  undefined_reference : Text → Text → ConfigError
  parse_error : ConfigError
  out_of_fuel : ConfigError

-- A field of the child, else the parent's, else the default.
abbrev inherit {ℓ} : {A : Type ℓ} → Option A → Option RcTestGroup → (RcTestGroup → A) → A → A
inherit own none f d = unwrap_or own d
inherit own (some p) f d = unwrap_or own (f p)

abbrev env_over : Option (BTreeMap Text) → BTreeMap Text → BTreeMap Text
env_over none base = base
env_over (some e) base = insert_all e base

-- `resolved_group` of `resolve_group`.
unfoldable pub flatten : RawTestGroup → Option RcTestGroup → RcTestGroup
flatten g parent = record {
  max_commits = inherit g.max_commits parent (λ p. p.max_commits) 50;
  nice = inherit g.nice parent (λ p. p.nice) 0;
  test_duration_nice = inherit g.test_duration_nice parent (λ p. p.test_duration_nice) 180;
  test_always_passes_nice =
      inherit g.test_always_passes_nice parent (λ p. p.test_always_passes_nice) 10;
  tests = inherit g.tests parent (λ p. p.tests) [];
  kernels = inherit g.kernels parent (λ p. p.kernels) [];
  env = env_over g.env (inherit none parent (λ p. p.env) []);
}

-- The two `&mut` arguments of `resolve_group`. The top of the stack stands first.
pub record Progress : Type 0 where
  pub resolved : BTreeMap RcTestGroup
  pub stack : List Text

abbrev pub push : Text → Progress → Progress
push name s = record s { stack = name ∷ s.stack }

abbrev pub tail : List Text → List Text
tail [] = []
tail (x ∷ xs) = xs

abbrev pub parent_of : RawTestGroup → Progress → Option RcTestGroup
parent_of g s = elim g.extends [ none ↦ none | some p ↦ get p s.resolved ]

-- The end of `resolve_group`, from the lookup of the parent on.
abbrev pub finish : Text → RawTestGroup → Progress → Progress
finish name g s = record {
  resolved = insert name (flatten g (parent_of g s)) s.resolved;
  stack = tail s.stack;
}

module _ (raw : BTreeMap RawTestGroup) where
  -- Recursion on fuel: each call that gets past the cycle test pushes a group of `raw` that is not
  -- on the stack.
  unfoldable pub resolve_group : ℕ → Text → Progress → Result ConfigError Progress
  resolve_group zero name s = err out_of_fuel
  resolve_group (suc fuel) name s = elim (is_some (get name s.resolved)) [
    | true ↦ ok s
    | false ↦ elim (contains s.stack name) [
      | true ↦ err (cycle (reverse s.stack) name)
      | false ↦ elim (get name raw) [
        | none ↦ err (not_defined name)
        | some g ↦ elim g.extends [
          | none ↦ ok (finish name g (push name s))
          | some p ↦ resolve_group fuel p (push name s) >>= λ s'. ok (finish name g s')
        ]
      ]
    ]
  ]

  -- The loop of `userrc_read_str` over the names of the groups.
  unfoldable pub resolve_all : ℕ → List Text → Progress → Result ConfigError Progress
  resolve_all fuel [] s = ok s
  resolve_all fuel (name ∷ names) s = do s' ← resolve_group fuel name s; resolve_all fuel names s'

-- The loop over the branches and their groups: every group that is named is defined.
unfoldable pub check_groups :
    BTreeMap RcTestGroup → Text → List Text → Result ConfigError (BTreeMap RcTestGroup)
check_groups resolved bname [] = ok resolved
check_groups resolved bname (tg ∷ tgs) = elim (is_some (get tg resolved)) [
  | true ↦ check_groups resolved bname tgs
  | false ↦ err (undefined_reference bname tg)
]

unfoldable pub check_branches :
    BTreeMap RcTestGroup → BTreeMap RawBranch → Result ConfigError (BTreeMap RcTestGroup)
check_branches resolved [] = ok resolved
check_branches resolved ((bname, b) ∷ bs) = do
  r ← check_groups resolved bname b.test_groups
  check_branches r bs

unfoldable pub rc_branches : BTreeMap RawBranch → BTreeMap RcBranch
rc_branches [] = []
rc_branches ((name, b) ∷ bs) =
    (name, record { fetch = b.fetch; repo = b.repo; test_groups = b.test_groups }) ∷ rc_branches bs

-- `userrc_read_str` behind the parser.
unfoldable pub userrc_of_raw : RawUserrc → Result ConfigError Userrc
userrc_of_raw raw = do
  s ←
      resolve_all raw.test_groups (suc (length raw.test_groups)) (keys raw.test_groups)
        (record { resolved = []; stack = [] })
  resolved ← check_branches s.resolved raw.branches
  ok (record { test_groups = resolved; branches = rc_branches raw.branches })

-- `userrc_read_str`, over the JSON5 parser.
unfoldable pub userrc_read_str : (Text → Option RawUserrc) → Text → Result ConfigError Userrc
unfolding userrc_of_raw
userrc_read_str parse s = ok_or (parse s) parse_error >>= userrc_of_raw
