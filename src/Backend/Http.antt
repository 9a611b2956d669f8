-- ===== src/Backend/Http.antt =====
-- What both clients of app/diarisation/client.py and app/github_raginator/client.py share: one HTTP
-- call and the kinds of its outcome. httpx and the servers are a parameter, whose answer may
-- depend on how many requests came before.
use group_assessment_agent.Base.{
  ℕ, Text, leb, nat_eq, length, Bool, ◌||◌, Option, List, [], ◌∷◌, ◌++◌, if◌then◌else◌,
}
use group_assessment_agent.Exec.{Result, ok, raised, Exec}
use group_assessment_agent.Backend.Json.{Malformed}

pub data Method : Type 0 where
  get post : Method

-- The body of a request: the form of the login, the JSON objects, and the uploaded file.
pub data Body : Type 0 where
  no_body : Body
  username : Text → Body
  meeting_date : Text → Body
  file : Text → List ℕ → Body
  member : ℕ → Body
  names : List Text → Option Text → Body
  search : Text → Option ℕ → Body
  repo_question : ℕ → Text → Body

-- `_auth` puts the token into the header `Authorization: Bearer …`.
pub record Request : Type 0 where
  pub method : Method
  pub path : Text
  pub token : Option Text
  pub body : Body

pub record Response : Type 0 where
  pub status_code : ℕ
  pub content : Text

-- Or what `httpx.Client.request` raises: `request_error` stands for the errors that are neither a
-- timeout nor a transport error, as too many redirects or a body that cannot be decompressed.
pub data Reply : Type 0 where
  timeout transport_error request_error : Reply
  response : Response → Reply

-- The subclasses of `DiarisationApiError` and of `GithubRaginatorApiError`.
pub data ApiError : Type 0 where
  auth_error not_found_error conflict_error client_error transient_error : ApiError

pub data Failure : Type 0 where
  api : ApiError → Failure
  malformed : Malformed → Failure
  uncaught : Failure

-- The requests sent so far, the first one first.
abbrev pub Call : Type 0 → Type 0
Call = Exec (List Request) Failure

abbrev pub is_transient : Failure → Bool
is_transient (api transient_error) = Bool.true
is_transient _ = Bool.false

abbrev pub Server : Type 0
Server = ℕ → Request → Reply

-- How the two clients read a reply.
abbrev pub Classify : Type 0
Classify = Reply → Result Failure Response

-- `_do_request` of the diarisation client.
unfoldable pub classify : Classify
classify timeout = raised (api transient_error)
classify transport_error = raised (api transient_error)
classify request_error = raised uncaught
classify (response r) =
    if leb 500 r.status_code
    then raised (api transient_error)
    else if nat_eq r.status_code 401 || nat_eq r.status_code 403
    then raised (api auth_error)
    else if nat_eq r.status_code 404
    then raised (api not_found_error)
    else if nat_eq r.status_code 409
    then raised (api conflict_error)
    else if leb 400 r.status_code
    then raised (api client_error)
    else ok r

-- `_do_request` of the GitHub-RAGinator client.
unfoldable pub classify_github : Classify
classify_github timeout = raised (api transient_error)
classify_github transport_error = raised (api transient_error)
classify_github request_error = raised uncaught
classify_github (response r) =
    if leb 500 r.status_code
    then raised (api transient_error)
    else if nat_eq r.status_code 404
    then raised (api not_found_error)
    else if leb 400 r.status_code
    then raised (api client_error)
    else ok r

unfoldable pub do_request : Server → Classify → Request → Call Response
do_request server reading r sent = (reading (server (length sent) r), sent ++ (r ∷ []))
