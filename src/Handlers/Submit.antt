-- ===== src/Handlers/Submit.antt =====
-- app/handlers/submit_transcript.py: `accept`, run by the mail thread, and `execute`, by the worker.
use group_assessment_agent.Base.{
  ℕ, Text, ◌==◌, Bool, true, false, Option, none, some, List, [], ◌∷◌, find,
}
use group_assessment_agent.Exec.{Result, ok, raised, pure, raise, gets, ◌>>=◌, ◌>>◌, catch}
use group_assessment_agent.Jobs.{
  validating, queued, processing, needs_clarification, completed, failed, submit_transcript,
  FilePath, processing_dir, completed_dir, failed_dir, DateSource, vtt_note, email_text,
  received_timestamp, Reason, not_a_transcript, backend_error, unexpected_error,
  backend_unreachable, Job, Field,
}
use group_assessment_agent.Messages
use group_assessment_agent.Messages.{
  this_transcript, Error, vtt_parse_error, diarisation_api_error, assertion_error, unexpected,
  backend_submission_failure, submission_failed,
}
use group_assessment_agent.World.{Action}
use group_assessment_agent.Mailbox.{Attachment}
use group_assessment_agent.Outside.{Outside, ask}
use group_assessment_agent.JobStore
use group_assessment_agent.JobStore.{create_job, set_status, update, existing}
use group_assessment_agent.Outbox.{enqueue}
use group_assessment_agent.Clarifications
use group_assessment_agent.FileStore.{save_incoming, move_to, path_exists, read_bytes}
use group_assessment_agent.Notifier.{Notifier, alert}
use group_assessment_agent.Groups.{
  GroupSummary, MatchResult, matched, ambiguous, no_match, match_group, names,
  group_clarification_question,
}
use group_assessment_agent.Vtt.{ParsedVtt, parse_vtt}
use group_assessment_agent.Commands.Validation.{ValidatedCommand, AttachmentMeta}
use group_assessment_agent.Handlers.Outcome.{HandlerOutcome, outcome, job_created, was_rejected}

-- `assert x is not None`.
abbrev pub asserted : {A : Type 0} → Option A → Action A
asserted none = raise assertion_error
asserted (some a) = pure a

abbrev pub parent : Job → Text
parent job = elim job.in_reply_to_message_id [
  | none ↦ job.source_message_id
  | some [] ↦ job.source_message_id
  | some (c ∷ cs) ↦ c ∷ cs
]

module _ (out : Outside) where
  abbrev pub dated_by_text : ℕ → Option ℕ → ℕ × DateSource
  dated_by_text received none = (received, received_timestamp)
  dated_by_text received (some date) = (date, email_text)

  abbrev pub dated_by : ℕ → Option Text → Option ℕ → ℕ × DateSource
  dated_by received mentioned (some date) = (date, vtt_note)
  dated_by received none none = (received, received_timestamp)
  dated_by received (some []) none = (received, received_timestamp)
  dated_by received (some (c ∷ cs)) none = dated_by_text received (out.parse_date_fuzzy (c ∷ cs))

  -- The note's date, else a date in the email, else the time of receipt.
  unfoldable pub resolve_meeting_date : ParsedVtt → Option Text → ℕ → ℕ × DateSource
  resolve_meeting_date vtt mentioned received = dated_by received mentioned vtt.meeting_date

  abbrev pub move_if : Bool → Text → FilePath → Action (Unit {0})
  move_if false job_id path = pure tt
  move_if true job_id path = do
    moved ← move_to path failed_dir
    update job_id (Field.attachment_storage_path moved ∷ [])

  unfoldable pub fail_and_move :
      Text → FilePath → Reason → Text → Option Text → Option Text → Action (Unit {0})
  unfolding ◌>>=◌
  fail_and_move job_id stored reason sender in_reply_to references = do
    there ← path_exists stored
    move_if there job_id stored
    enqueue sender (Messages.failure (not_a_transcript reason) (some job_id)) (some job_id) []
        in_reply_to references
    pure tt

  -- The reading of the stored file, with the parser's own error as a value.
  abbrev pub parsed : Result Error ParsedVtt → Action (Result Reason ParsedVtt)
  parsed (ok vtt) = pure (ok vtt)
  parsed (raised (vtt_parse_error r)) = pure (raised r)
  parsed (raised e) = raise e

  module _ (cmd : ValidatedCommand) (sender : Text) (received_at : ℕ)
      (in_reply_to references : Option Text) (attachment : AttachmentMeta) where
    abbrev pub queue_or_fail : Text → FilePath → Result Reason ParsedVtt → Action HandlerOutcome
    queue_or_fail job_id stored (raised reason) = do
      set_status job_id failed (Field.error reason ∷ [])
      fail_and_move job_id stored reason sender in_reply_to references
      pure (outcome was_rejected job_id)
    queue_or_fail job_id stored (ok vtt) = do
      let (date, source) = resolve_meeting_date vtt cmd.mentioned_date received_at
      update job_id (
          Field.speakers vtt.speakers
          ∷ Field.meeting_date date
          ∷ Field.meeting_date_source source
          ∷ [])
      set_status job_id queued []
      enqueue sender (Messages.ack job_id attachment.filename date) (some job_id) [] in_reply_to
          references
      pure (outcome job_created job_id)

    abbrev pub accept_attachment : ℕ → Text → Attachment → Action HandlerOutcome
    accept_attachment user source_message_id real = do
      job ←
          create_job sender user source_message_id submit_transcript
            (Field.group_hint cmd.group_hint ∷ Field.attachment_filename attachment.filename ∷ [])
      set_status job.job_id validating []
      n ← gets (λ w. w.calls)
      stored ← save_incoming out.secure_filename (out.unique_name n) real.content real.filename
      update job.job_id (Field.attachment_storage_path stored ∷ [])
      content ← read_bytes stored
      vtt ← parsed (parse_vtt out.parse_date (out.decode_utf8 content))
      queue_or_fail job.job_id stored vtt

  abbrev pub named : Text → Attachment → Bool
  named filename a = a.filename == filename

  unfoldable pub accept :
      List Attachment
      → ValidatedCommand
      → Text
      → ℕ
      → Text
      → ℕ
      → Option Text
      → Option Text
      → Action HandlerOutcome
  unfolding ◌>>=◌ resolve_meeting_date fail_and_move
  accept attachments cmd sender user source_message_id received_at in_reply_to references = do
    attachment ← asserted cmd.attachment
    real ← asserted (find (named attachment.filename) attachments)
    accept_attachment cmd sender received_at in_reply_to references attachment user
        source_message_id real

module _ (out : Outside) (n : Notifier) where
  abbrev pub move_failed : Bool → Text → FilePath → Action (Unit {0})
  move_failed false job_id path = pure tt
  move_failed true job_id path = do
    moved ← move_to path failed_dir
    update job_id (Field.attachment_storage_path moved ∷ [])

  abbrev pub move_stored : Text → Option FilePath → Action (Unit {0})
  move_stored job_id none = pure tt
  move_stored job_id (some path) = do there ← path_exists path; move_failed there job_id path

  unfoldable pub handle_execute_failure : Job → Reason → Action (Unit {0})
  unfolding ◌>>=◌
  handle_execute_failure job reason = do
    set_status job.job_id failed (Field.error reason ∷ [])
    move_stored job.job_id job.attachment_storage_path
    enqueue job.sender_email (Messages.failure backend_unreachable (some job.job_id))
        (some job.job_id) [] (some (parent job)) (some (parent job))
    alert n backend_submission_failure (submission_failed job.job_id job.sender_email reason)
    pure tt

  -- The loop over the resolved names: the attendees that are added, and the names without a member.
  unfoldable pub add_attendees :
      Text → ℕ → ℕ → List (Text × Option ℕ) → Action (List Text × List Text)
  unfolding ◌>>=◌
  add_attendees token group meeting [] = pure ([], [])
  add_attendees token group meeting ((name, none) ∷ rest) = do
    lists ← add_attendees token group meeting rest
    pure (lists.0, name ∷ lists.1)
  add_attendees token group meeting ((name, some member) ∷ rest) = do
    ask (λ c. out.add_attendee c token group meeting member)
    lists ← add_attendees token group meeting rest
    pure (name ∷ lists.0, lists.1)

  abbrev pub resolve_speakers : Text → ℕ → ℕ → List Text → Action (List Text × List Text)
  resolve_speakers token group meeting [] = pure ([], [])
  resolve_speakers token group meeting (s ∷ ss) = do
    resolved ← ask (λ c. out.resolve_aliases c token group (s ∷ ss))
    add_attendees token group meeting resolved

  abbrev pub required : {A : Type 0} → Option A → Action A
  required none = raise unexpected
  required (some a) = pure a

  abbrev pub move_completed : Text → Option FilePath → Action (Unit {0})
  move_completed job_id none = pure tt
  move_completed job_id (some path) = do
    moved ← move_to path completed_dir
    update job_id (Field.attachment_storage_path moved ∷ [])

  unfoldable pub submit_to_group : Job → Text → GroupSummary → Action (Unit {0})
  unfolding ◌>>=◌ add_attendees
  submit_to_group job token group = do
    date ← required job.meeting_date
    meeting ← ask (λ c. out.create_meeting c token group.id date)
    path ← required job.attachment_storage_path
    content ← read_bytes path
    raw_file ← ask (λ c. out.upload_file c token group.id meeting job.attachment_filename content)
    lists ← resolve_speakers token group.id meeting job.speakers
    update job.job_id (
        Field.resolved_group_id group.id
        ∷ Field.resolved_group_name group.name
        ∷ Field.backend_meeting_id meeting
        ∷ Field.backend_raw_file_id raw_file
        ∷ Field.resolved_attendees lists.0
        ∷ Field.unresolved_speakers lists.1
        ∷ [])
    set_status job.job_id completed []
    move_completed job.job_id job.attachment_storage_path
    enqueue job.sender_email
        (Messages.completion job.job_id group.name job.meeting_date lists.0 lists.1)
        (some job.job_id) [] (some (parent job)) (some (parent job))
    pure tt

  abbrev pub ask_for_group : Job → List GroupSummary → Action (Unit {0})
  ask_for_group job groups = do
    let question = group_clarification_question groups this_transcript
    set_status job.job_id needs_clarification []
    Clarifications.put job.job_id question (names groups)
    enqueue job.sender_email (Messages.clarification question (some job.job_id)) (some job.job_id)
        [] (some (parent job)) (some (parent job))
    pure tt

  abbrev pub by_match : Job → Text → List GroupSummary → MatchResult → Action (Unit {0})
  by_match job token groups (matched group) = submit_to_group job token group
  by_match job token groups (ambiguous _) = ask_for_group job groups
  by_match job token groups no_match = ask_for_group job groups

  -- The body of the `try`.
  unfoldable pub submit : Job → Action (Unit {0})
  unfolding ◌>>=◌ submit_to_group
  submit job = do
    token ← ask (λ c. out.login c job.backend_user_id)
    groups ← ask (λ c. out.list_groups c token)
    by_match job token groups (match_group job.group_hint groups)

  abbrev pub reason_of : Error → Reason
  reason_of diarisation_api_error = backend_error
  reason_of _ = unexpected_error

  -- Before the `try`: the stored file goes to the processing stage, and the job is read again.
  abbrev pub stage : Job → Option FilePath → Action Job
  stage job none = pure job
  stage job (some path) = do
    moved ← move_to path processing_dir
    update job.job_id (Field.attachment_storage_path moved ∷ [])
    again ← JobStore.get job.job_id
    existing again

  unfoldable pub execute : Job → Action (Unit {0})
  unfolding ◌>>=◌ submit handle_execute_failure
  execute job = do
    set_status job.job_id processing []
    staged ← stage job job.attachment_storage_path
    catch (submit staged) (λ e. handle_execute_failure staged (reason_of e))
