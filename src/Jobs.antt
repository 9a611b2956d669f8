-- ===== src/Jobs.antt =====
-- app/jobs/models.py: the states of a job, the transitions between them, and the job record; and
-- `Operation` of app/commands/schema.py, which a job's `operation` column holds.
pub mod Lifecycle
use group_assessment_agent.Base.{
  ℕ, Text, Bool, true, false, Option, none, some, List, [], ◌∷◌, exists, ◌||◌, if◌then◌else◌,
}

pub data JobState : Type 0 where
  received validating needs_clarification queued processing completed failed cancelled : JobState

pub data Operation : Type 0 where
  submit_transcript status results cancel assess_query help : Operation

abbrev pub same_state : JobState → JobState → Bool
same_state received received = true
same_state validating validating = true
same_state needs_clarification needs_clarification = true
same_state queued queued = true
same_state processing processing = true
same_state completed completed = true
same_state failed failed = true
same_state cancelled cancelled = true
same_state _ _ = false

unfoldable pub allowed_transitions : JobState → List JobState
allowed_transitions received = validating ∷ failed ∷ []
allowed_transitions validating = queued ∷ needs_clarification ∷ failed ∷ []
allowed_transitions needs_clarification = queued ∷ cancelled ∷ failed ∷ []
allowed_transitions queued = processing ∷ cancelled ∷ []
allowed_transitions processing = completed ∷ failed ∷ needs_clarification ∷ []
allowed_transitions completed = []
allowed_transitions failed = []
allowed_transitions cancelled = []

-- The test of `JobStore.set_status`: the new state may follow the current one, or is the same.
unfoldable pub may_become : JobState → JobState → Bool
unfolding allowed_transitions
may_become current new =
    exists (same_state new) (allowed_transitions current) || same_state new current

-- The directories of app/settings.py's `StorageSettings`, and a stored attachment's path.
pub data Stage : Type 0 where
  incoming_dir processing_dir completed_dir failed_dir : Stage

pub record FilePath : Type 0 where
  pub stage : Stage
  pub name : Text

pub data DateSource : Type 0 where
  vtt_note email_text received_timestamp : DateSource

-- The notes of app/handlers/assess_query.py on the sources that could not be asked.
pub data Note : Type 0 where
  transcripts_unavailable no_repository tools_unavailable : Note

-- Why a request or a job failed: the texts that the program writes, with what they quote.
pub data Reason : Type 0 where
  audio_not_accepted : Reason
  unsupported_type : Text → Reason
  too_large : Text → ℕ → Reason
  not_a_transcript : Reason → Reason
  no_webvtt_header no_cues_found : Reason
  backend_error unexpected_error backend_unreachable group_not_resolved : Reason
  no_source_answered : List Note → Reason
  unsupported_operation : Operation → Reason

-- A timestamp is the number of the instant, in the order of time.
pub record Job : Type 0 where
  pub job_id : Text
  pub sender_email : Text
  pub backend_user_id : ℕ
  pub source_message_id : Text
  pub status : JobState
  pub operation : Operation
  pub group_hint : Option Text
  pub resolved_group_id : Option ℕ
  pub resolved_group_name : Option Text
  pub attachment_filename : Option Text
  pub attachment_storage_path : Option FilePath
  pub meeting_date : Option ℕ
  pub meeting_date_source : Option DateSource
  pub speakers : List Text
  pub backend_meeting_id : Option ℕ
  pub backend_raw_file_id : Option ℕ
  pub resolved_attendees : List Text
  pub unresolved_speakers : List Text
  pub transcript_focus : Option Text
  pub github_focus : Option Text
  pub trello_focus : Option Text
  pub error : Option Reason
  pub retry_count : ℕ
  pub created_at : ℕ
  pub started_at : Option ℕ
  pub completed_at : Option ℕ
  pub last_response_message_id : Option Text
  pub in_reply_to_message_id : Option Text

-- One keyword argument of `update`, `set_status` or `create_job`. No caller passes another column.
pub data Field : Type 0 where
  group_hint : Option Text → Field
  resolved_group_id : ℕ → Field
  resolved_group_name : Text → Field
  attachment_filename : Text → Field
  attachment_storage_path : FilePath → Field
  meeting_date : ℕ → Field
  meeting_date_source : DateSource → Field
  speakers : List Text → Field
  backend_meeting_id : ℕ → Field
  backend_raw_file_id : ℕ → Field
  resolved_attendees : List Text → Field
  unresolved_speakers : List Text → Field
  transcript_focus : Option Text → Field
  github_focus : Option Text → Field
  trello_focus : Option Text → Field
  error : Reason → Field
  last_response_message_id : Text → Field
  in_reply_to_message_id : Text → Field

-- `SET column = value`, for one column.
unfoldable pub assign : Field → Job → Job
assign (group_hint v) j = record j { group_hint = v }
assign (resolved_group_id v) j = record j { resolved_group_id = some v }
assign (resolved_group_name v) j = record j { resolved_group_name = some v }
assign (attachment_filename v) j = record j { attachment_filename = some v }
assign (attachment_storage_path v) j = record j { attachment_storage_path = some v }
assign (meeting_date v) j = record j { meeting_date = some v }
assign (meeting_date_source v) j = record j { meeting_date_source = some v }
assign (speakers v) j = record j { speakers = v }
assign (backend_meeting_id v) j = record j { backend_meeting_id = some v }
assign (backend_raw_file_id v) j = record j { backend_raw_file_id = some v }
assign (resolved_attendees v) j = record j { resolved_attendees = v }
assign (unresolved_speakers v) j = record j { unresolved_speakers = v }
assign (transcript_focus v) j = record j { transcript_focus = v }
assign (github_focus v) j = record j { github_focus = v }
assign (trello_focus v) j = record j { trello_focus = v }
assign (error v) j = record j { error = some v }
assign (last_response_message_id v) j = record j { last_response_message_id = some v }
assign (in_reply_to_message_id v) j = record j { in_reply_to_message_id = some v }

-- The assignments of an `UPDATE`, in the order of the keyword arguments.
unfoldable pub assign_all : List Field → Job → Job
unfolding assign
assign_all [] j = j
assign_all (f ∷ fs) j = assign_all fs (assign f j)
