-- ===== src/Cgi/Users.antt =====
-- The pages of the users (src/bin/cgi.rs): `ci_user`, `ci_list_users`, `ci_home`, `ci_status_page`.
use ktest.Prelude.{ℕ, List, [], ◌∷◌, ◌++◌, none, some, if◌then◌else◌, flat_map, unwrap_or}
use ktest.Prelude.Result.{Result, ok, err}
use ktest.Text.{Text, lit, join}
use ktest.BTreeMap.{get, keys}
use ktest.Users.{Userrc, ConfigError}
use ktest.Cgi.{
  Ci, Outside, Response, html, json_response, json_error, error_response, line, panicked, Value,
  UserBranches,
}
use ktest.Cgi.Log.{stylesheet_link}

unfoldable pub user_branches_json : Text → Userrc → UserBranches
user_branches_json username u = record { user = username; branches = keys u.branches }

-- The rows of `ci_list_branches`.
unfoldable pub ci_list_branches : Text → Text → Userrc → Text
ci_list_branches script_name user u =
    line (lit "<div> <table class=\"table\">")
    ++ (flat_map
          (λ b. line (
            lit "<tr> <th> <a href="
            ++ (script_name
                ++ (lit "?user="
                    ++ (user
                        ++ (lit "&branch="
                            ++ (b ++ (lit ">" ++ (b ++ lit "</a> </th> </tr>")))))))))
          (keys u.branches)
        ++ line (lit "</table> </div>"))

-- `error_text` is the `Display` of an error of a user's file, and `signed` that of an i64.
module _ {Repo : Type 0} (o : Outside Repo) (error_text : ConfigError → Text) (signed : ℕ → Text)
    (ci : Ci Repo) where
  -- The start of the pages that list branches.
  abbrev pub list_head : Text
  list_head =
      line (lit "<!DOCTYPE HTML>")
      ++ (line (lit "<html><head><title>CI branch list</title></head>")
          ++ (stylesheet_link ci.stylesheet ++ line (lit "<body>")))

  abbrev pub list_end : Text
  list_end = line (lit "</body>") ++ line (lit "</html>")

  abbrev pub bad_config : ConfigError → Text
  bad_config e = lit "error parsing user config: " ++ error_text e

  unfoldable pub ci_user : Response
  unfolding json_error error_response json_response user_branches_json ci_list_branches
  ci_user = elim ci.user [
    | none ↦ panicked
    | some username ↦ elim (get username ci.rc.users) [
      | none ↦
          let e = lit "User " ++ (username ++ lit " not found") in
          if ci.json then json_error e else error_response o.env e
      | some u ↦
          if ci.json
          then elim u [
            | ok v ↦ json_response (Value.user_branches (user_branches_json username v))
            | err e ↦ json_error (bad_config e)
          ]
          else html 200 (
              list_head
              ++ ((elim u [
                | ok v ↦ ci_list_branches ci.script_name username v
                | err e ↦ bad_config e
              ])
                  ++ list_end))
    ]
  ]

  abbrev pub branches_text : Result ConfigError Userrc → Text
  branches_text (ok u) = join (lit ", ") (keys u.branches)
  branches_text (err e) = lit "error"

  unfoldable pub user_row : Text × Result ConfigError Userrc → Text
  unfolding join
  user_row u =
      line (lit "<tr>")
      ++ (line (
            lit "<td> <a href=\""
            ++ (ci.script_name
                ++ (lit "?user=" ++ (u.0 ++ (lit "\">" ++ (u.0 ++ lit "</a> </td>"))))))
          ++ (line (
                lit "<td> "
                ++ (signed (unwrap_or (get u.0 ci.rc.ktest.user_nice) 0) ++ lit " </td>"))
              ++ (line (lit "<td> " ++ (branches_text u.1 ++ lit " </td>")) ++ line (lit "</tr>"))))

  unfoldable pub ci_list_users : Text
  unfolding user_row
  ci_list_users =
      line (lit "<h4>Users</h4>")
      ++ (line (lit "<div> <table class=\"table\">")
          ++ (line (lit "<tr> <th> User </th> <th> Nice </th> <th> Branches </th> </tr>")
              ++ (flat_map user_row ci.rc.users ++ line (lit "</table> </div>"))))

  -- The users whose files can be read.
  unfoldable pub all_user_branches : List (Text × Result ConfigError Userrc) → List UserBranches
  unfolding user_branches_json
  all_user_branches [] = []
  all_user_branches ((name, ok u) ∷ us) = user_branches_json name u ∷ all_user_branches us
  all_user_branches ((name, err e) ∷ us) = all_user_branches us

  unfoldable pub ci_home : Response
  unfolding json_response ci_list_users all_user_branches
  ci_home =
      if ci.json
      then json_response (Value.all_branches (all_user_branches ci.rc.users))
      else html 200 (
          list_head
          ++ (line (
                lit "<p><a href=\""
                ++ (ci.script_name
                    -- the bytes of an arrow
                    ++ (lit "?status\">"
                        ++ ((226 ∷ 134 ∷ 146 ∷ []) ++ lit " live CI status</a></p>"))))
              ++ (ci_list_users ++ list_end)))

-- `ci_status_page`; its style sheet, body and script are parameters: constant texts.
unfoldable pub ci_status_page : Text → Text → Text → Text → Response
ci_status_page stylesheet css body script = html 200 (
    lit "<!DOCTYPE html>\n<html><head><title>CI status</title>\n<link href=\""
    ++ (stylesheet
        ++ (lit "\" rel=\"stylesheet\">\n<style>"
            ++ (css
                ++ (lit "</style></head>\n<body>"
                    ++ (body
                        ++ (lit "<script>" ++ (script ++ lit "</script></body></html>\n"))))))))
