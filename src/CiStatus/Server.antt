-- ===== src/CiStatus/Server.antt =====
-- The client of the dashboard's JSON, against what the dashboard answers.
use ktest.Prelude.{
  ℕ, ◌≡◌, refl, Bool, false, ◌&&◌, not, List, [], ◌∷◌, ◌++◌, Option, none, some, if◌then◌else◌, leb,
  ltb,
}
use ktest.Prelude.Result.{Result, ok, err}
use ktest.Text.{Text, lit, starts_with, split}
use ktest.Branch.{BranchEntry}
use ktest.Cgi.{
  CommitTests, UserBranches, Value, api_error, Response, html, json, text, panicked, json_response,
  json_error,
}
use ktest.CiStatus.{Failure, bail, outside_error, HttpResponse, Calls}

abbrev pub is_success : ℕ → Bool
is_success status = leb 200 status && ltb status 300

abbrev pub first_piece : List Text → Text → Text
first_piece [] t = t
first_piece (p ∷ ps) t = p

module _ {Repo : Type 0} (calls : Calls Repo) where
  -- `server_get`; `parse` is the reader of the type that is asked for.
  unfoldable pub server_get : {A : Type 0} → (Text → Option A) → Text → Result Failure A
  unfolding starts_with split
  server_get parse url = elim (calls.http url) [
    | none ↦ err outside_error
    | some resp ↦
        if not (is_success resp.status)
        then elim (calls.parse_error resp.body) [
          | some message ↦ err (bail message)
          | none ↦ err (bail (resp.status_text ++ (lit " fetching " ++ url)))
        ]
        else if starts_with resp.body (lit "<")
        then err (
            bail (
              lit "server returned HTML, not JSON "
              ++ ((226 ∷ 128 ∷ 148 ∷ [])
                  ++ (lit " dashboard at "
                      ++ (first_piece (split b'?' url) url ++ lit " predates format=json?")))))
        else elim (parse resp.body) [ none ↦ err outside_error | some a ↦ ok a ]
  ]

  unfoldable pub server_log : Text → Text → Text → Result Failure (List BranchEntry)
  unfolding server_get
  server_log dashboard user branch =
      server_get calls.entries_of_json (
        dashboard ++ (lit "?user=" ++ (user ++ (lit "&branch=" ++ (branch ++ lit "&format=json")))))

  unfoldable pub server_show : Text → Text → Text → Text → Result Failure CommitTests
  unfolding server_get
  server_show dashboard user branch commit = server_get calls.commit_of_json (
      dashboard
      ++ (lit "?user="
          ++ (user
              ++ (lit "&branch="
                  ++ (branch ++ (lit "&commit=" ++ (commit ++ lit "&format=json")))))))

  unfoldable pub server_branches : Text → Text → Result Failure UserBranches
  unfolding server_get
  server_branches dashboard user =
      server_get calls.branches_of_json
        (dashboard ++ (lit "?user=" ++ (user ++ lit "&format=json")))

-- A web server that sends what the dashboard answers; `write` is the JSON of a value.
abbrev pub sent : (Value → Text) → Response → HttpResponse
sent write (html s t) = record { status = s; status_text = []; body = t }
sent write (text s t) = record { status = s; status_text = []; body = t }
sent write (json s v) = record { status = s; status_text = []; body = write v }
sent write panicked = record { status = 500; status_text = []; body = [] }

-- What is written for a value does not start with `<`, and a reader gives the value back.
pub record IsJson {A : Type 0} (write : Value → Text) (parse : Text → Option A) (value : A → Value)
    (a : A) : Type 0 where
  pub no_tag : starts_with (write (value a)) (lit "<") ≡ false
  pub reads : parse (write (value a)) ≡ some a

module _ {Repo : Type 0} (calls : Calls Repo) {A : Type 0} (write : Value → Text)
    (parse : Text → Option A) (url : Text) where
  pub server_get-json_response :
      (value : A → Value) (a : A)
      → IsJson write parse value a
      → calls.http url ≡ some (sent write (json_response (value a)))
      → server_get calls parse url ≡ ok a
  unfolding server_get json_response
  server_get-json_response value a is_json answer =
      let no_tag = is_json.no_tag in
      let read = is_json.reads in rw (answer, server_get, no_tag, read) refl

  pub server_get-json_error :
      (message : Text)
      → calls.http url ≡ some (sent write (json_error message))
      → calls.parse_error (write (api_error message)) ≡ some message
      → server_get calls parse url ≡ err (bail message)
  unfolding server_get json_error
  server_get-json_error message answer reads = rw (answer, server_get, reads) refl
