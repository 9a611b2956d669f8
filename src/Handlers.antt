-- ===== src/Handlers.antt =====
-- app/handlers/base.py, status.py, results.py, cancel.py and help.py: the handlers that answer at
-- once. The others are in the modules below.
pub mod Outcome
pub mod Submit
pub mod Assess
pub mod Cancelling
use group_assessment_agent.Base.{
  ℕ, Text, Bool, true, false, Option, none, some, List, [], ◌∷◌, if◌then◌else◌,
}
use group_assessment_agent.Exec.{pure, raise, ◌>>=◌, ◌>>◌}
use group_assessment_agent.Jobs.{
  JobState, queued, needs_clarification, completed, cancelled, same_state, FilePath, Job,
}
use group_assessment_agent.Messages
use group_assessment_agent.Messages.{clarification_required, job_gone}
use group_assessment_agent.World.{Action}
use group_assessment_agent.JobStore.{get_owned, set_status}
use group_assessment_agent.Outbox.{enqueue}
use group_assessment_agent.FileStore.{path_exists}
use group_assessment_agent.Commands.Validation.{ValidatedCommand}
use group_assessment_agent.Handlers.Outcome.{
  HandlerOutcome, outcome, status_reply, results_reply, was_cancelled, cannot_cancel, help_reply,
}

-- The job id of a validated command; the validator sets it for these operations. `None` would
-- look up no job.
abbrev pub look_up : Option Text → Text → Action (Option Job)
look_up none sender = pure none
look_up (some job_id) sender = get_owned job_id sender

abbrev pub id_text : Option Text → Text
id_text none = []
id_text (some t) = t

module _ (sender : Text) (in_reply_to references : Option Text) where
  abbrev pub status_of : ValidatedCommand → Option Job → Action HandlerOutcome
  status_of cmd none = raise (clarification_required (job_gone (id_text cmd.job_id)))
  status_of cmd (some job) = do
    enqueue sender (Messages.status job.job_id job.status) (some job.job_id) [] in_reply_to
        references
    pure (outcome status_reply job.job_id)

  -- status.py, `handle`.
  unfoldable pub handle_status : ValidatedCommand → Action HandlerOutcome
  unfolding ◌>>=◌
  handle_status cmd = do job ← look_up cmd.job_id sender; status_of cmd job

  abbrev pub present_file : Option FilePath → Action (List FilePath)
  present_file none = pure []
  present_file (some path) = do there ← path_exists path; pure (if there then path ∷ [] else [])

  abbrev pub transcript_of : Bool → Job → Action (List FilePath)
  transcript_of true job = present_file job.attachment_storage_path
  transcript_of false job = pure []

  abbrev pub results_of : ValidatedCommand → Option Job → Action HandlerOutcome
  results_of cmd none = raise (clarification_required (job_gone (id_text cmd.job_id)))
  results_of cmd (some job) = do
    let done = same_state job.status completed
    attachments ← transcript_of done job
    enqueue sender
        (Messages.results job.job_id job.status job.resolved_group_name job.meeting_date
          (if done then some job.resolved_attendees else none)
          (if done then some job.unresolved_speakers else none))
        (some job.job_id) attachments in_reply_to references
    pure (outcome results_reply job.job_id)

  -- results.py, `handle`.
  unfoldable pub handle_results : ValidatedCommand → Action HandlerOutcome
  unfolding ◌>>=◌
  handle_results cmd = do job ← look_up cmd.job_id sender; results_of cmd job

  -- `_CANCELLABLE_STATES`.
  abbrev pub cancellable : JobState → Bool
  cancellable queued = true
  cancellable needs_clarification = true
  cancellable _ = false

  abbrev pub cancel_of : ValidatedCommand → Option Job → Action HandlerOutcome
  cancel_of cmd none = raise (clarification_required (job_gone (id_text cmd.job_id)))
  cancel_of cmd (some job) =
      if cancellable job.status
      then (do
        set_status job.job_id cancelled []
        enqueue sender (Messages.cancelled job.job_id) (some job.job_id) [] in_reply_to references
        pure (outcome was_cancelled job.job_id))
      else (do
        enqueue sender (Messages.cannot_cancel job.job_id job.status) (some job.job_id) []
            in_reply_to references
        pure (outcome cannot_cancel job.job_id))

  -- cancel.py, `handle`.
  unfoldable pub handle_cancel : ValidatedCommand → Action HandlerOutcome
  unfolding ◌>>=◌
  handle_cancel cmd = do job ← look_up cmd.job_id sender; cancel_of cmd job

  -- help.py, `handle`.
  unfoldable pub handle_help : Action HandlerOutcome
  unfolding ◌>>=◌
  handle_help = do
    enqueue sender Messages.help none [] in_reply_to references
    pure (record { outcome_type = help_reply; job_id = none })
