-- ===== src/Backend/Ollama.antt =====
-- `OllamaClient` of app/llm/ollama_client.py. The server and the decoder of JSON texts are parameters;
-- the timeouts, the transport errors and the other errors of a request are all `HTTPError`s of httpx.
use group_assessment_agent.Base.{
  Text, codes, nat_eq, Bool, false, Option, none, some, [], if◌then◌else◌,
}
use group_assessment_agent.Exec.{Result, ok, raised}
use group_assessment_agent.Backend.Json.{Json, text, Malformed, value_error, get}
use group_assessment_agent.Backend.Http.{
  Reply, timeout, transport_error, request_error, response, Response,
}

-- The payload of a request; the temperature, which no caller sets, is 0.
pub record Payload : Type 0 where
  pub model : Text
  pub system : Text
  pub prompt : Text
  pub stream : Bool
  pub format : Option Text

pub data OllamaFailure : Type 0 where
  ollama_unavailable : OllamaFailure
  malformed : Malformed → OllamaFailure

abbrev is_ok : Response → Bool
is_ok r = nat_eq r.status_code 200

unfoldable pub is_available : Reply → Bool
is_available timeout = false
is_available transport_error = false
is_available request_error = false
is_available (response r) = is_ok r

unfoldable pub payload : Text → Text → Text → Bool → Payload
payload model system_prompt user_prompt json_mode = record {
  model = model;
  system = system_prompt;
  prompt = user_prompt;
  stream = false;
  format = if json_mode then some (codes "json") else none;
}

module _ (json : Text → Option Json) where
  abbrev read_reply : Result Malformed Json → Result OllamaFailure Json
  read_reply (raised e) = raised (malformed e)
  read_reply (ok v) = ok v

  abbrev read_decoded : Option Json → Result OllamaFailure Json
  read_decoded none = raised (malformed value_error)
  read_decoded (some v) = read_reply (get v (codes "response") (text []))

  abbrev read_response : Reply → Result OllamaFailure Json
  read_response timeout = raised ollama_unavailable
  read_response transport_error = raised ollama_unavailable
  read_response request_error = raised ollama_unavailable
  read_response (response r) =
      if is_ok r then read_decoded (json r.content) else raised ollama_unavailable

  -- The answer of the server to a payload decides.
  unfoldable pub generate :
      (Payload → Reply) → Text → Text → Text → Bool → Result OllamaFailure Json
  unfolding payload get
  generate server model system_prompt user_prompt json_mode =
      read_response (server (payload model system_prompt user_prompt json_mode))
