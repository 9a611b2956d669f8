-- ===== src/Outside.antt =====
-- What the program asks of services and libraries that are not its own code: the mail provider,
-- the language model, the two backends, dateutil, werkzeug. Each answer may depend on how often
-- the outside has been asked before, so the same question may get another answer later.
use group_assessment_agent.Base.{ℕ, ◌+◌, Text, Bool, Option, List}
use group_assessment_agent.Exec.{Result}
use group_assessment_agent.Messages.{Error}
use group_assessment_agent.World.{Action, OutboxMessage}
use group_assessment_agent.Mailbox.{EmailMessage}
use group_assessment_agent.Commands.{RawCommand}
use group_assessment_agent.Groups.{GroupSummary}
use group_assessment_agent.Backend.{TranscriptChunk, RepoSummary}

-- What `EmailCommandParser` puts to the model: the reminder after a failed attempt, the body, the
-- names of the attachments, and the job of the thread.
pub record Prompt : Type 0 where
  pub reminded : Bool
  pub body : Text
  pub filenames : List Text
  pub thread_job_id : Option Text

-- Which system prompt goes with a prompt for free text: those of app/llm/transcript_synthesis.py,
-- app/reports/reply.py and app/reports/workflow.py.
pub data Purpose : Type 0 where
  transcript_answer report_answer weekly_report : Purpose

pub record Outside : Type 0 where
  -- libraries
  pub secure_filename : Text → Text
  pub decode_utf8 : List ℕ → Text
  pub parse_date : Text → Option ℕ
  pub parse_iso_date : Text → Option ℕ
  pub iso_format : ℕ → Text
  pub error_text : Error → Text
  pub parse_date_fuzzy : Text → Option ℕ
  pub decode_json : Text → Option RawCommand
  pub unique_name : ℕ → Text
  -- the mail provider
  pub fetch_new_messages : ℕ → Result Error (List EmailMessage)
  pub mark_processed : ℕ → Text → Result Error (Unit {0})
  pub send_email : ℕ → OutboxMessage → Result Error Text
  -- the language model
  pub is_available : ℕ → Bool
  pub generate : ℕ → Prompt → Result Error Text
  pub write : ℕ → Purpose → Text → Result Error Text
  -- the transcript backend
  pub login : ℕ → ℕ → Result Error Text
  pub list_groups : ℕ → Text → Result Error (List GroupSummary)
  pub create_meeting : ℕ → Text → ℕ → ℕ → Result Error ℕ
  pub upload_file : ℕ → Text → ℕ → ℕ → Option Text → List ℕ → Result Error ℕ
  pub resolve_aliases : ℕ → Text → ℕ → List Text → Result Error (List (Text × Option ℕ))
  pub add_attendee : ℕ → Text → ℕ → ℕ → ℕ → Result Error (Unit {0})
  pub search_transcripts : ℕ → Text → ℕ → Text → Result Error (List TranscriptChunk)
  -- the repository backend
  pub find_repo : ℕ → Text → Result Error (Option RepoSummary)
  pub query_repo : ℕ → ℕ → Text → Result Error Text

-- One question to the outside.
unfoldable pub ask : {A : Type 0} → (ℕ → Result Error A) → Action A
ask f w = (f w.calls, record w { calls = w.calls + 1 })
