-- ===== src/Backend/Github.antt =====
-- `GithubRaginatorClient` of app/github_raginator/client.py.
use group_assessment_agent.Base.{ℕ, Text, codes, Option, none, some, [], ◌∷◌, if◌then◌else◌}
use group_assessment_agent.Exec.{pure, raise, ◌>>=◌}
use group_assessment_agent.Backend.Json.{
  Json, null, object, array, text, Items, no_items, item, no_fields, is_text, type_error, subscript,
}
use group_assessment_agent.Backend.Json
use group_assessment_agent.Backend.Http.{
  Body, no_body, repo_question, Call, Server, malformed, classify_github,
}
use group_assessment_agent.Backend.Http
use group_assessment_agent.Backend.Retrying.{Retrying, request}
use group_assessment_agent.Backend.Diarisation.{decoded, reads}

pub record RepoJson : Type 0 where
  pub id : Json
  pub github_url : Json
  pub group_name : Json

module _ (server : Server) (retrying : Retrying) (json : Text → Option Json)
    (max_attempts : ℕ) where
  unfoldable pub exchange : Http.Method → Text → Body → Call Json
  unfolding ◌>>=◌ request
  exchange method path body = do
    resp ←
        request retrying server classify_github max_attempts
          (record { method = method; path = path; token = none; body = body })
    reads (decoded (json resp.content))

  unfoldable pub repo : Json → Json → Call (Option RepoJson)
  unfolding ◌>>=◌ subscript
  repo r group_name = do
    id ← reads (subscript r (codes "id"))
    github_url ← reads (subscript r (codes "github_url"))
    pure (some (record { id = id; github_url = github_url; group_name = group_name }))

  -- The loop, which stops at the first repository of the group.
  unfoldable pub first_repo : Text → Items → Call (Option RepoJson)
  unfolding ◌>>=◌ repo Json.get
  first_repo group_name no_items = pure none
  first_repo group_name (item r rs) = do
    name ← reads (Json.get r (codes "group_name") null)
    if is_text name group_name then repo r name else first_repo group_name rs

  -- A loop over an object or a text meets texts, which have no `get`.
  abbrev pub search_repos : Text → Json → Call (Option RepoJson)
  search_repos group_name (array rs) = first_repo group_name rs
  search_repos group_name (object no_fields) = pure none
  search_repos group_name (object _) = raise (malformed Json.attribute_error)
  search_repos group_name (text []) = pure none
  search_repos group_name (text (_ ∷ _)) = raise (malformed Json.attribute_error)
  search_repos group_name _ = raise (malformed type_error)

  unfoldable pub find_repo_by_group_name : Text → Call (Option RepoJson)
  unfolding ◌>>=◌ exchange first_repo
  find_repo_by_group_name group_name = do
    reply ← exchange Http.get (codes "/repos") no_body
    search_repos group_name reply

  unfoldable pub query : ℕ → Text → Call Json
  unfolding ◌>>=◌ exchange subscript
  query repo_id question = do
    reply ← exchange Http.post (codes "/query") (repo_question repo_id question)
    reads (subscript reply (codes "answer"))
