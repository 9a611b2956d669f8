-- ===== src/Tests/Clients.antt =====
-- The theorems on the backend clients and the start at concrete inputs.
use group_assessment_agent.Base.{
  ℕ, zero, suc, ◌+◌, ◌≤◌, ◌<◌, ◌≡◌, refl, true, false, ◌⊎◌, some, none, List, [], ◌∷◌, codes,
  nat_eq, if◌then◌else◌, Option,
}
use group_assessment_agent.Exec.{◌>>=◌}
use group_assessment_agent.Auth.{authorise}
use group_assessment_agent.Settings.{Settings}
use group_assessment_agent.Settings.Startup.{build_authoriser, nobody_authorised}
use group_assessment_agent.Backend.Json.{Json, null}
use group_assessment_agent.Backend.Http.{
  Request, Response, timeout, response, Call, get, no_body, Server, classify, do_request,
}
use group_assessment_agent.Backend.Retrying.{
  Retrying, retries, request, repeat, Retried, request_attempts,
}
use group_assessment_agent.Backend.Diarisation.{exchange}
use group_assessment_agent.Backend.Answers.{exchange_answered}
use group_assessment_agent.Tests.{ann, passing}

abbrev bare : Settings
bare = record {
  mail = record {
    provider = codes "fake";
    mailbox_upn = [];
    move_to_folder = none;
    max_body_chars_to_llm = 4000;
  };
  authorisation = record { require_auth_pass = true; group_owners = [] };
  llm = record { provider = codes "ollama"; host = []; model = []; max_parse_retries = 2 };
  backend = record { base_url = []; max_retry_attempts = 3 };
  github_raginator = record { base_url = []; max_retry_attempts = 3 };
  limits = record { allowed_attachment_extensions = []; max_email_body_chars = 20000 };
  weekly_update = record {
    enabled = false;
    weekday = 0;
    hour = 8;
    minute = 0;
    lookback_days = 7;
    recipient_mode = codes "group_owners";
  };
  admin_email = none;
  authorised_email_domains = codes "example.org" ∷ [];
  mail_username = none;
  mail_password = none;
  graph_tenant_id = none;
  graph_client_id = none;
  graph_client_secret = none;
  diarisation_service_api_key = some (codes "key");
}

nobody_authorised_example :
    (authorise
      (build_authoriser bare (some (record { status_code = 503; owners = (ann, 7) ∷ [] })))
      ann
      passing).ok
    ≡ false
nobody_authorised_example =
    nobody_authorised bare (some (record { status_code = 503; owners = (ann, 7) ∷ [] })) ann passing
      refl refl

-- tenacity, as a function.
attempt_with : ℕ → Call Response → Call Response
attempt_with zero m s = m s
attempt_with (suc zero) m s = m s
attempt_with (suc (suc n)) m s =
    let later = attempt_with (suc n) m (m s).1 in if retries (m s).0 then later else m s

attempt_with-settles :
    (n : ℕ) (m : Call Response) (s : List Request)
    → retries (m s).0 ≡ false
    → attempt_with (suc n) m s ≡ m s
unfolding attempt_with
attempt_with-settles zero m s h = refl
attempt_with-settles (suc n) m s h = rw h refl

attempt_with-again :
    (n : ℕ) (m : Call Response) (s : List Request)
    → retries (m s).0 ≡ true
    → attempt_with (suc (suc n)) m s ≡ attempt_with (suc n) m (m s).1
unfolding attempt_with
attempt_with-again n m s h = rw h refl

abbrev retrying : Retrying
unfolding attempt_with
retrying = record {
  call = attempt_with;
  settles = attempt_with-settles;
  gives_up = λ m s. refl;
  again = attempt_with-again;
}

-- A server that does not answer the first request in time.
abbrev slow : Server
slow n r = if nat_eq n 0 then timeout else response (record { status_code = 200; content = [] })

abbrev list_request : Request
list_request = record {
  method = get;
  path = codes "/groups/";
  token = some (codes "t");
  body = no_body;
}

request_attempts_example :
    (k : ℕ) × (k ≤ 2)
    × (request retrying slow classify 3 list_request []
        ≡ (classify (slow (0 + k) list_request), repeat (suc k) list_request))
    × ((k ≡ 2) ⊎ (retries (classify (slow (0 + k) list_request)) ≡ false))
    × Retried retrying slow classify list_request 0 k
request_attempts_example = request_attempts retrying slow classify list_request 2 []

exchange_answered_example :
    (k : ℕ) × (k ≤ 2)
    × (resp : Response) × (slow (0 + k) list_request ≡ response resp)
    × (resp.status_code < 400)
    × (◌≡◌ {A = Option Json} (some null) (some null))
    × (list_request ∷ list_request ∷ [] ≡ repeat (suc k) list_request)
unfolding exchange request do_request attempt_with classify ◌>>=◌
exchange_answered_example =
    exchange_answered slow retrying (λ t. some null) 2 list_request null []
      (list_request ∷ list_request ∷ []) refl
