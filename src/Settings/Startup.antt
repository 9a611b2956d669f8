-- ===== src/Settings/Startup.antt =====
-- What app/main.py makes of the settings: the mail client, the map of the owners, and the authoriser.
-- `AdminDiarisationClient` of app/diarisation/admin_client.py asks the backend for the owners.
use group_assessment_agent.Base.{
  ℕ, Text, codes, nonempty, nat_eq, ◌==◌, ◌≡◌, refl, ap, ◌∙◌, Bool, false, ◌&&◌, Option, none, some,
  List, [], ◌∷◌, arith, if◌then◌else◌,
}
use group_assessment_agent.Exec.{Result, ok, raised}
use group_assessment_agent.Mailbox.{AuthSignals}
use group_assessment_agent.Auth.{Authoriser, authorise, owner_id}
use group_assessment_agent.Settings.{Settings}

pub data StartupError : Type 0 where
  missing_graph_secrets missing_mail_secrets : StartupError
  unsupported_provider : Text → StartupError

-- The clients with the arguments of their constructors; the secrets of Graph are left out.
pub data MailClient : Type 0 where
  graph_client : Text → MailClient
  imap_client : Text → Text → Text → MailClient
  fake_client : MailClient

abbrev text_or : Text → Text → Text
text_or [] default = default
text_or (c ∷ s) default = c ∷ s

abbrev imap_for : Option Text → Option Text → Text → Result StartupError MailClient
imap_for (some (u ∷ us)) (some (p ∷ ps)) mailbox =
    ok (imap_client (u ∷ us) (p ∷ ps) (text_or mailbox (u ∷ us)))
imap_for username password mailbox = raised missing_mail_secrets

unfoldable pub build_mail_client : Settings → Result StartupError MailClient
build_mail_client s =
    if s.mail.provider == codes "graph"
    then (if nonempty s.graph_tenant_id
          && nonempty s.graph_client_id
          && nonempty s.graph_client_secret
        then ok (graph_client s.mail.mailbox_upn)
        else raised missing_graph_secrets)
    else if s.mail.provider == codes "mail"
    then imap_for s.mail_username s.mail_password s.mail.mailbox_upn
    else if s.mail.provider == codes "fake"
    then ok fake_client
    else raised (unsupported_provider s.mail.provider)

-- The reply to GET /admin/group-owners: none where httpx raises an `HTTPError`.
pub record OwnersReply : Type 0 where
  pub status_code : ℕ
  pub owners : List (Text × ℕ)

pub data AdminDiarisationApiError : Type 0 where
  api_error : AdminDiarisationApiError

unfoldable pub get_group_owners :
    Option OwnersReply → Result AdminDiarisationApiError (List (Text × ℕ))
get_group_owners none = raised api_error
get_group_owners (some r) = if nat_eq r.status_code 200 then ok r.owners else raised api_error

abbrev or_nobody : Result AdminDiarisationApiError (List (Text × ℕ)) → List (Text × ℕ)
or_nobody (ok owners) = owners
or_nobody (raised e) = []

abbrev from_backend : Option Text → Option OwnersReply → List (Text × ℕ)
from_backend none reply = []
from_backend (some []) reply = []
from_backend (some (c ∷ s)) reply = or_nobody (get_group_owners reply)

abbrev static_or : List (Text × ℕ) → Option Text → Option OwnersReply → List (Text × ℕ)
static_or [] key reply = from_backend key reply
static_or (o ∷ owners) key reply = o ∷ owners

unfoldable pub load_group_owners : Settings → Option OwnersReply → List (Text × ℕ)
unfolding get_group_owners
load_group_owners s reply =
    static_or s.authorisation.group_owners s.diarisation_service_api_key reply

-- The authoriser that `run` builds.
unfoldable pub build_authoriser : Settings → Option OwnersReply → Authoriser
unfolding load_group_owners
build_authoriser s reply = record {
  group_owners = load_group_owners s reply;
  authorised_domains = s.authorised_email_domains;
  require_auth_pass = s.authorisation.require_auth_pass;
}

abbrev pub answers_ok : Option OwnersReply → Bool
answers_ok none = false
answers_ok (some r) = nat_eq r.status_code 200

no_owners :
    (key : Option Text) (reply : Option OwnersReply)
    → (nonempty key && answers_ok reply) ≡ false
    → from_backend key reply ≡ []
unfolding get_group_owners
no_owners none reply h = refl
no_owners (some []) reply h = refl
no_owners (some (c ∷ s)) none h = refl
no_owners (some (c ∷ s)) (some r) h = rw h refl

not_set :
    (owners : List (Text × ℕ)) (key : Option Text) (reply : Option OwnersReply)
    → owners ≡ []
    → (nonempty key && answers_ok reply) ≡ false
    → static_or owners key reply ≡ []
not_set [] key reply e h = no_owners key reply h
not_set (o ∷ owners) key reply e h = absurd (ground arith)

nobody :
    (domains : List Text) (strict : Bool) (from : Text) (signals : AuthSignals)
    → (authorise
        (record { group_owners = []; authorised_domains = domains; require_auth_pass = strict })
        from
        signals).ok
      ≡ false
unfolding authorise owner_id
nobody domains strict from signals = ground arith

-- Where no owners are configured, and there is no service key or the backend does not answer with
-- status 200, the program starts with an authoriser that lets nobody in, whoever the sender is and
-- whatever the verdicts on the mail are.
pub nobody_authorised :
    (s : Settings) (reply : Option OwnersReply) (from : Text) (signals : AuthSignals)
    → s.authorisation.group_owners ≡ []
    → (nonempty s.diarisation_service_api_key && answers_ok reply) ≡ false
    → (authorise (build_authoriser s reply) from signals).ok ≡ false
unfolding build_authoriser load_group_owners
nobody_authorised s reply from signals none_set unanswered =
    ap
      (λ owners.
        (authorise
          (record {
            group_owners = owners;
            authorised_domains = s.authorised_email_domains;
            require_auth_pass = s.authorisation.require_auth_pass;
          })
          from signals).ok)
      (not_set s.authorisation.group_owners s.diarisation_service_api_key reply none_set unanswered)
    ∙ nobody s.authorised_email_domains s.authorisation.require_auth_pass from signals
