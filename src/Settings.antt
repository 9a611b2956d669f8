-- ===== src/Settings.antt =====
-- app/settings.py: the settings that the program reads, and what the environment overrides. The file
-- and its validation by pydantic are a parameter; the settings that are floats, and the paths, are
-- left out.
pub mod Startup
use group_assessment_agent.Base.{
  ℕ, Text, codes, strip, lower, is_empty, nat_eq, nonempty, ◌==◌, Bool, Option, none, some, List,
  [], ◌∷◌, if◌then◌else◌,
}

pub record MailSettings : Type 0 where
  pub provider : Text
  pub mailbox_upn : Text
  pub move_to_folder : Option Text
  pub max_body_chars_to_llm : ℕ

pub record AuthorisationSettings : Type 0 where
  pub require_auth_pass : Bool
  pub group_owners : List (Text × ℕ)

pub record LlmSettings : Type 0 where
  pub provider : Text
  pub host : Text
  pub model : Text
  pub max_parse_retries : ℕ

pub record BackendSettings : Type 0 where
  pub base_url : Text
  pub max_retry_attempts : ℕ

pub record LimitsSettings : Type 0 where
  pub allowed_attachment_extensions : List Text
  pub max_email_body_chars : ℕ

pub record WeeklyUpdateSettings : Type 0 where
  pub enabled : Bool
  pub weekday : ℕ
  pub hour : ℕ
  pub minute : ℕ
  pub lookback_days : ℕ
  pub recipient_mode : Text

pub record Settings : Type 0 where
  pub mail : MailSettings
  pub authorisation : AuthorisationSettings
  pub llm : LlmSettings
  pub backend : BackendSettings
  pub github_raginator : BackendSettings
  pub limits : LimitsSettings
  pub weekly_update : WeeklyUpdateSettings
  pub admin_email : Option Text
  pub authorised_email_domains : List Text
  pub mail_username : Option Text
  pub mail_password : Option Text
  pub graph_tenant_id : Option Text
  pub graph_client_id : Option Text
  pub graph_client_secret : Option Text
  pub diarisation_service_api_key : Option Text

-- `d[k] = v`: a key that is there keeps its place.
unfoldable pub put : Text → ℕ → List (Text × ℕ) → List (Text × ℕ)
put k v [] = (k, v) ∷ []
put k v ((j, u) ∷ d) = let rest = put k v d in if j == k then (k, v) ∷ d else (j, u) ∷ rest

lowercase_into : List (Text × ℕ) → List (Text × ℕ) → List (Text × ℕ)
unfolding put
lowercase_into d [] = d
lowercase_into d ((k, v) ∷ owners) = lowercase_into (put (lower (strip k)) v d) owners

-- The validator `_lowercase_keys`: of two keys that become alike the later one's value stays.
unfoldable pub lowercase_keys : List (Text × ℕ) → List (Text × ℕ)
unfolding lowercase_into lower strip
lowercase_keys owners = lowercase_into [] owners

-- `s.split(",")`.
abbrev split_first : Text → List Text → List Text
split_first c [] = c ∷ []
split_first c (w ∷ ws) = c ∷ w ∷ ws

abbrev onto_first : ℕ → List Text → List Text
onto_first c [] = (c ∷ []) ∷ []
onto_first c (w ∷ ws) = (c ∷ w) ∷ ws

unfoldable pub split_commas : Text → List Text
split_commas [] = [] ∷ []
split_commas (c ∷ s) =
    let rest = split_commas s in if nat_eq c b',' then [] ∷ rest else onto_first c rest

-- `[d.strip().lower() for d in parts if d.strip()]`.
unfoldable pub named_domains : List Text → List Text
unfolding lower strip
named_domains [] = []
named_domains (d ∷ ds) =
    let rest = named_domains ds in if is_empty (strip d) then rest else lower (strip d) ∷ rest

-- `os.getenv(name) or value`.
abbrev pub env_or : Option Text → Option Text → Option Text
env_or none value = value
env_or (some []) value = value
env_or (some (c ∷ s)) value = some (c ∷ s)

abbrev pub domains_or : Option Text → List Text → List Text
domains_or none domains = domains
domains_or (some []) domains = domains
domains_or (some (c ∷ s)) domains = named_domains (split_commas (c ∷ s))

-- `load_settings`, from the validated file on.
unfoldable pub load_settings : (Text → Option Text) → Settings → Settings
unfolding named_domains split_commas
load_settings getenv s = record s {
  admin_email = env_or (getenv (codes "ADMIN_EMAIL")) s.admin_email;
  authorised_email_domains =
      domains_or (getenv (codes "AUTHORISED_EMAIL_DOMAINS")) s.authorised_email_domains;
  mail_username = env_or (getenv (codes "MAIL_USERNAME")) s.mail_username;
  mail_password = env_or (getenv (codes "MAIL_PASSWORD")) s.mail_password;
  graph_tenant_id = env_or (getenv (codes "GRAPH_TENANT_ID")) s.graph_tenant_id;
  graph_client_id = env_or (getenv (codes "GRAPH_CLIENT_ID")) s.graph_client_id;
  graph_client_secret = env_or (getenv (codes "GRAPH_CLIENT_SECRET")) s.graph_client_secret;
  diarisation_service_api_key =
      env_or (getenv (codes "DIARISATION_SERVICE_API_KEY")) s.diarisation_service_api_key;
}
