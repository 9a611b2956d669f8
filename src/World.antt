-- ===== src/World.antt =====
-- The state that the program's threads share: the SQLite tables of app/storage/db.py, the stored
-- attachments, and the mail provider's side. Rows stand in the order of insertion.
use group_assessment_agent.Base.{ℕ, Text, Option, List, []}
use group_assessment_agent.Exec.{Exec}
use group_assessment_agent.Jobs.{Job, Operation, FilePath}
use group_assessment_agent.Messages.{Question, AdminCategory, Mail, Error}

-- `AuthResultReason` of app/auth/authorisation.py.
pub data AuthReason : Type 0 where
  authorised unrecognised_in_domain unauthorised_external unauthenticated malformed_sender :
      AuthReason

-- The values that the program writes to `processed_messages.outcome`.
pub data Outcome : Type 0 where
  in_progress unrecognised_sender_replied rejected_silently weekly_report_reply : Outcome
  llm_parse_failed clarification_sent rejected handled clarification_applied : Outcome

-- The values of `processed_messages.operation`.
pub data Handling : Type 0 where
  command : Operation → Handling
  report_reply clarification_answer : Handling

pub record ProcessedMessage : Type 0 where
  pub message_id : Text
  pub received_at : ℕ
  pub sender_email : Text
  pub auth_result : AuthReason
  pub operation : Option Handling
  pub job_id : Option Text
  pub outcome : Outcome
  pub attempt_count : ℕ
  pub processed_at : Option ℕ

pub data SendStatus : Type 0 where
  pending sent failed : SendStatus

pub record OutboxMessage : Type 0 where
  pub id : ℕ
  pub job_id : Option Text
  pub to_email : Text
  pub mail : Mail
  pub attachments : List FilePath
  pub in_reply_to_message_id : Option Text
  pub references_header : Option Text
  pub status : SendStatus
  pub attempts : ℕ
  pub last_error : Option Error
  pub created_at : ℕ
  pub sent_at : Option ℕ

pub record MessageLink : Type 0 where
  pub outbox_id : ℕ
  pub job_id : Option Text
  pub message_id : Text
  pub created_at : ℕ

pub record PendingClarification : Type 0 where
  pub job_id : Text
  pub question : Question
  pub options : List Text
  pub created_at : ℕ

pub data ReportStatus : Type 0 where
  received collecting synthesising queued sent completed failed : ReportStatus

pub record WeeklyReport : Type 0 where
  pub report_id : Text
  pub group_id : ℕ
  pub group_name : Text
  pub owner_email : Text
  pub backend_user_id : ℕ
  pub period_start : Text
  pub period_end : Text
  pub status : ReportStatus
  pub report_text : Option Text
  pub last_error : Option Error
  pub created_at : ℕ
  pub completed_at : Option ℕ

-- Where a piece of evidence comes from.
pub data Source : Type 0 where
  github meetings trello : Source

-- The column `raw_json` is written and never read, and is left out.
pub record ReportEvidence : Type 0 where
  pub report_id : Text
  pub source : Source
  pub evidence_id : Text
  pub title : Text
  pub event_date : Option Text
  pub content : Text
  pub citation : Text

-- `admin_alerts`: the time of the last alert of a category.
pub record SentAlert : Type 0 where
  pub category : AdminCategory
  pub last_sent_at : ℕ

-- A mail that the provider has taken for delivery.
pub record Delivery : Type 0 where
  pub outbox_id : ℕ
  pub to : Text
  pub mail : Mail

pub record World : Type 0 where
  pub jobs : List Job
  pub processed : List ProcessedMessage
  pub outbox : List OutboxMessage
  pub outbox_sequence : ℕ  -- AUTOINCREMENT: the last id given
  pub links : List MessageLink
  pub clarifications : List PendingClarification
  pub alerts : List SentAlert
  pub reports : List WeeklyReport
  pub evidence : List ReportEvidence
  pub files : List (FilePath × List ℕ)
  pub marked : List Text  -- the provider references that are marked processed
  pub deliveries : List Delivery
  pub calls : ℕ  -- how often the outside has been asked
  pub now : ℕ  -- the clock, which stands still during one operation
  pub today : Text  -- the date of `now`, as YYYY-MMDD

abbrev pub Action : Type 0 → Type 0
Action = Exec World Error

-- Nothing has happened yet.
abbrev pub initial : ℕ → Text → World
initial now today = record {
  jobs = [];
  processed = [];
  outbox = [];
  outbox_sequence = 0;
  links = [];
  clarifications = [];
  alerts = [];
  reports = [];
  evidence = [];
  files = [];
  marked = [];
  deliveries = [];
  calls = 0;
  now = now;
  today = today;
}
