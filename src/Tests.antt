-- ===== src/Tests.antt =====
-- A small mailbox, configuration and outside for the theorems of the other files.
pub mod Life
pub mod Stores
pub mod Requests
pub mod Weekly
pub mod Clients
pub mod Mailboxes
use group_assessment_agent.Base.{
  ℕ, Text, codes, Bool, true, false, Option, none, some, List, [], ◌∷◌,
}
use group_assessment_agent.Exec.{ok}
use group_assessment_agent.Jobs.{JobState, submit_transcript, Job, FilePath, processing_dir}
use group_assessment_agent.Messages.{Mail, help}
use group_assessment_agent.World.{World, initial, OutboxMessage, pending}
use group_assessment_agent.Mailbox.{AuthSignals, EmailMessage}
use group_assessment_agent.Outside.{Outside}
use group_assessment_agent.Auth.{Authoriser}
use group_assessment_agent.Notifier.{Notifier}
use group_assessment_agent.JobStore.{blank_job}
use group_assessment_agent.Commands.{RawCommand}
use group_assessment_agent.Pipeline.{Config}

abbrev pub ann : Text
ann = codes "ann@example.org"

abbrev pub job_id : Text
job_id = codes "DIAR-2026-0101-0001"

abbrev pub stored : FilePath
stored = record { stage = processing_dir; name = codes "a.vtt" }

abbrev pub job_in : JobState → Job
job_in s = record (blank_job ann 7 (codes "<m1@x>") submit_transcript job_id 5) {
  status = s;
  attachment_storage_path = some stored;
}

abbrev pub start : World
start = initial 10 (codes "2026-0101")

abbrev pub world_with : Job → World
world_with j = record start { jobs = j ∷ [] }

abbrev pub passing : AuthSignals
passing = record { spf = some (codes "pass"); dkim = some (codes "pass"); dmarc = none }

abbrev pub failing : AuthSignals
failing = record { spf = some (codes "pass"); dkim = none; dmarc = some (codes "fail") }

abbrev pub mail_from : Text → AuthSignals → EmailMessage
mail_from sender signals = record {
  message_id = codes "<m2@x>";
  provider_ref = codes "2";
  from_address = sender;
  subject = codes "status";
  body_text = codes "How far is it?";
  received_at = 9;
  attachments = [];
  auth_signals = signals;
  in_reply_to = none;
  references = none;
}

abbrev pub authoriser : Authoriser
authoriser = record {
  group_owners = (codes "Ann@Example.org", 7) ∷ [];
  authorised_domains = codes "example.org" ∷ [];
  require_auth_pass = true;
}

abbrev pub notifier : Notifier
notifier = record { admin_email = some (codes "admin@example.org"); cooldown = 60 }

abbrev pub config : Config
config = record {
  authoriser = authoriser;
  notifier = notifier;
  max_bytes = 100;
  max_retries = 1;
  max_body_chars = 50;
}

abbrev pub status_command : RawCommand
status_command = record {
  operation = codes "status";
  attachment = none;
  group_hint = none;
  job_id = some job_id;
  mentioned_date = none;
  return_statistics = false;
  transcript_focus = none;
  github_focus = none;
  trello_focus = none;
  requires_clarification = false;
  clarification_question = none;
  extra = [];
}

-- Services that answer, with one message in the mailbox.
abbrev pub outside : Outside
outside = record {
  secure_filename = λ s. s;
  decode_utf8 = λ b. b;
  parse_date = λ s. none;
  parse_iso_date = λ s. some 5;
  iso_format = λ d. d ∷ [];
  error_text = λ e. codes "error";
  parse_date_fuzzy = λ s. none;
  decode_json = λ s. some status_command;
  unique_name = λ n. n ∷ [];
  fetch_new_messages = λ n. ok (mail_from (codes "bob@example.org") passing ∷ []);
  mark_processed = λ n ref. ok tt;
  send_email = λ n m. ok (codes "<sent@x>");
  is_available = λ n. true;
  generate = λ n p. ok (codes "{}");
  write = λ n p text. ok (codes "answer");
  login = λ n user. ok (codes "token");
  list_groups = λ n token. ok [];
  create_meeting = λ n token group date. ok 1;
  upload_file = λ n token group meeting name content. ok 1;
  resolve_aliases = λ n token group names. ok [];
  add_attendee = λ n token group meeting member. ok tt;
  search_transcripts = λ n token group focus. ok [];
  find_repo = λ n name. ok none;
  query_repo = λ n repo focus. ok (codes "answer");
}

abbrev pub queued_mail : OutboxMessage
queued_mail = record {
  id = 1;
  job_id = some job_id;
  to_email = ann;
  mail = help;
  attachments = [];
  in_reply_to_message_id = none;
  references_header = none;
  status = pending;
  attempts = 0;
  last_error = none;
  created_at = 5;
  sent_at = none;
}
