-- ===== src/Files/Fetch.antt =====
-- The client side (src/lib.rs): a cache of the server's capnp files. The server is a parameter:
-- its answer to a request, plain or on the condition that the file has changed.
pub mod Plan
use ktest.Prelude.{
  ℕ, zero, suc, ◌+◌, ◌-◌, ◌*◌, ◌/◌, ◌≤◌, ◌<◌, ◌≡◌, ◌↔◌, refl, ap, sym, ◌∙◌, Bool, true, false, List,
  [], ◌∷◌, ◌++◌, Option, none, some, arith, if◌then◌else◌, ◌==◌, is_some, is_empty, length, ltb,
  leb, take, min, contains, Option-cases, Bool-cases, inl, inr, nat_beq, eq_iff, ◌||◌, filter_map,
  map,
}
use ktest.Prelude.Result.{Result, ok, err, ◌>>=◌}
use ktest.Text.{Text, text_eq}
use ktest.HashMap as HashMap
use ktest.HashMap.{lookup-insert}
use ktest.Status.{TestResultsMap}
use ktest.Capnp.{CapnpFile, CommitResultsCapnp, parse_test_results}
use ktest.Config.{Ktestrc}
use ktest.Store.{Disk, set_capnp, read_capnp}

pub data Response : Type 0 where
  send_error : Response
  status : ℕ → CapnpFile → Response

pub data FetchError : Type 0 where
  request_failed no_file unreadable : FetchError
  http : ℕ → FetchError

-- A request: the commit, and whether it has the `If-Modified-Since` header.
abbrev pub Server : Type 0
Server = Text → Bool → Response

module _ (server : Server) (caches : Text → Bool) where
  -- `fetch_capnp_cached`: whether the file was there, and the cache; `caches` says whether it can
  -- be written.
  unfoldable pub fetch_capnp_cached : Text → Disk → Result FetchError Bool × Disk
  fetch_capnp_cached commit d = elim (server commit (is_some (HashMap.lookup commit d.capnp))) [
    | send_error ↦ (err request_failed, d)
    | status s body ↦
        if nat_beq s 304
        then (ok true, d)
        else if nat_beq s 200
        then (ok true, if caches commit then set_capnp commit body d else d)
        else if nat_beq s 404
        then (ok false, d)
        else (err (http s), d)
  ]

  -- The loop of one thread: errors are logged.
  unfoldable pub fetch_all : List Text → Disk → Disk
  unfolding fetch_capnp_cached
  fetch_all [] d = d
  fetch_all (id ∷ ids) d = fetch_all ids (fetch_capnp_cached id d).1

abbrev pub is_cached : Text → Disk → Bool
is_cached commit d = is_some (HashMap.lookup commit d.capnp)

abbrev pub nr_fresh : ℕ
nr_fresh = 5

-- `to_fetch`, from the commit at `i` on.
unfoldable pub to_fetch_from : ℕ → List Text → Disk → List (Text × Bool)
to_fetch_from i [] d = []
to_fetch_from i (id ∷ ids) d =
    let rest = to_fetch_from (i + 1) ids d in
    let cached = is_cached id d in
    if ltb i nr_fresh then (id, cached) ∷ rest else if cached then rest else (id, false) ∷ rest

-- `slice::chunks`, with `left` to go in the chunk that is open.
unfoldable pub chunks_from : {A : Type 0} → ℕ → ℕ → List A → List A × List (List A)
chunks_from size left [] = ([], [])
chunks_from size zero (x ∷ xs) =
    let (open_chunk, rest) = chunks_from size (size - 1) xs in ([], (x ∷ open_chunk) ∷ rest)
chunks_from size (suc left) (x ∷ xs) =
    let (open_chunk, rest) = chunks_from size left xs in (x ∷ open_chunk, rest)

unfoldable pub chunks : {A : Type 0} → ℕ → List A → List (List A)
unfolding chunks_from
chunks size xs = (chunks_from size 0 xs).1

abbrev pub max : ℕ → ℕ → ℕ
max a b = if leb a b then b else a

abbrev pub div_ceil : ℕ → ℕ → ℕ
div_ceil a b = (a + (b - 1)) / b

abbrev pub nr_threads : {A : Type 0} → List A → ℕ
nr_threads xs = max (if leb 8 (length xs) then 8 else length xs) 1

abbrev pub chunk_size : {A : Type 0} → List A → ℕ
chunk_size xs = max (div_ceil (length xs) (nr_threads xs)) 1

-- One chunk to a thread.
unfoldable pub plan : List Text → Disk → List (List (Text × Bool))
unfolding to_fetch_from chunks
plan commit_ids d =
    let wanted = to_fetch_from 0 commit_ids d in
    if is_empty wanted then [] else chunks (chunk_size wanted) wanted

module _ (server : Server) (caches : Text → Bool) where
  -- The threads, one after the other: each writes the files of its own commits only.
  unfoldable pub fetch_chunks : List (List (Text × Bool)) → Disk → Disk
  unfolding fetch_all
  fetch_chunks [] d = d
  fetch_chunks (chunk ∷ rest) d =
      fetch_chunks rest (fetch_all server caches (map (λ p. p.0) chunk) d)

  unfoldable pub prefetch_capnp : List Text → Disk → Disk
  unfolding plan fetch_chunks
  prefetch_capnp commit_ids d = fetch_chunks (plan commit_ids d) d

  -- `commitdir_get_results`, and `commitdir_get_results_full`, which asks the server first if there
  -- is one.
  unfoldable pub commitdir_get_results : Text → Disk → Option TestResultsMap
  unfolding read_capnp
  commitdir_get_results commit d = elim (read_capnp commit d) [
    | none ↦ none
    | some c ↦ some c.tests
  ]

  abbrev pub read_full : Text → Disk → Result FetchError CommitResultsCapnp
  read_full commit d = elim (HashMap.lookup commit d.capnp) [
    | none ↦ err no_file
    | some f ↦ elim (parse_test_results f) [ none ↦ err unreadable | some c ↦ ok c ]
  ]

  unfoldable pub commitdir_get_results_full :
      Ktestrc → Text → Disk → Result FetchError CommitResultsCapnp × Disk
  unfolding fetch_capnp_cached
  commitdir_get_results_full rc commit d = elim rc.ci_url [
    | none ↦ (read_full commit d, d)
    | some url ↦
        let fetched = fetch_capnp_cached server caches commit d in
        elim fetched.0 [
          | err e ↦ (err e, fetched.1)
          | ok there ↦ (read_full commit fetched.1, fetched.1)
        ]
  ]
