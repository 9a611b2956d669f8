-- ===== src/Safety/Handlers.antt =====
-- The handlers let every job live on, along allowed transitions.
use group_assessment_agent.Base.{ℕ, Text, Bool, true, false, Option, none, some, List}
use group_assessment_agent.Exec.{Result, ok, raised}
use group_assessment_agent.Exec.Steps.{Steps}
use group_assessment_agent.Jobs.{FilePath, Job, Reason}
use group_assessment_agent.Messages.{Error, vtt_parse_error}
use group_assessment_agent.Mailbox.{Attachment}
use group_assessment_agent.Outside.{Outside}
use group_assessment_agent.JobStore.Evolution.{
  Evolves, existing-Evolves, get-Evolves, create_job-Evolves,
}
use group_assessment_agent.Vtt.{ParsedVtt}
use group_assessment_agent.Commands.Validation.{ValidatedCommand, AttachmentMeta}
use group_assessment_agent.Handlers.{
  look_up, handle_status, status_of, handle_results, results_of, present_file, transcript_of,
  handle_cancel, cancel_of, handle_help,
}
use group_assessment_agent.Handlers.Submit
use group_assessment_agent.Handlers.Assess
use group_assessment_agent.Safety.Stores.{store_rules, alert-Evolves}

ruleset rules = (store_rules, alert-Evolves, existing-Evolves, get-Evolves, create_job-Evolves)

look_up-Evolves : (job_id : Option Text) (sender : Text) → Steps Evolves (look_up job_id sender)
look_up-Evolves none sender = search rules
look_up-Evolves (some job_id) sender = search rules

module _ (sender : Text) (r s : Option Text) (cmd : ValidatedCommand) where
  status_of-Evolves : (job : Option Job) → Steps Evolves (status_of sender r s cmd job)
  status_of-Evolves none = search rules
  status_of-Evolves (some job) = search rules

  pub handle_status-Evolves : Steps Evolves (handle_status sender r s cmd)
  unfolding handle_status
  handle_status-Evolves = search (rules, look_up-Evolves, status_of-Evolves)

  present_file-Evolves : (path : Option FilePath) → Steps Evolves (present_file sender r s path)
  present_file-Evolves none = search rules
  present_file-Evolves (some path) = search rules

  transcript_of-Evolves : (b : Bool) (job : Job) → Steps Evolves (transcript_of sender r s b job)
  transcript_of-Evolves true job = present_file-Evolves job.attachment_storage_path
  transcript_of-Evolves false job = search rules

  results_of-Evolves : (job : Option Job) → Steps Evolves (results_of sender r s cmd job)
  results_of-Evolves none = search rules
  results_of-Evolves (some job) = search (rules, transcript_of-Evolves)

  pub handle_results-Evolves : Steps Evolves (handle_results sender r s cmd)
  unfolding handle_results
  handle_results-Evolves = search (rules, look_up-Evolves, results_of-Evolves)

  cancel_of-Evolves : (job : Option Job) → Steps Evolves (cancel_of sender r s cmd job)
  cancel_of-Evolves none = search rules
  cancel_of-Evolves (some job) = search rules depth 8

  pub handle_cancel-Evolves : Steps Evolves (handle_cancel sender r s cmd)
  unfolding handle_cancel
  handle_cancel-Evolves = search (rules, look_up-Evolves, cancel_of-Evolves)

pub handle_help-Evolves :
    (sender : Text) (r s : Option Text) → Steps Evolves (handle_help sender r s)
unfolding handle_help
handle_help-Evolves sender r s = search rules

asserted-Evolves : {A : Type 0} (o : Option A) → Steps Evolves (Submit.asserted o)
asserted-Evolves none = search rules
asserted-Evolves (some a) = search rules

module _ (out : Outside) where
  move_if-Evolves :
      (b : Bool) (id : Text) (p : FilePath) → Steps Evolves (Submit.move_if out b id p)
  move_if-Evolves false id p = search rules
  move_if-Evolves true id p = search rules

  fail_and_move-Evolves :
      (id : Text) (p : FilePath) (reason : Reason) (sender : Text) (r s : Option Text)
      → Steps Evolves (Submit.fail_and_move out id p reason sender r s)
  unfolding Submit.fail_and_move
  fail_and_move-Evolves id p reason sender r s = search (rules, move_if-Evolves) depth 8

  parsed-Evolves : (v : Result Error ParsedVtt) → Steps Evolves (Submit.parsed out v)
  parsed-Evolves (ok vtt) = search rules
  parsed-Evolves (raised (vtt_parse_error reason)) = search rules
  parsed-Evolves (raised _) = search rules

  module _ (cmd : ValidatedCommand) (sender : Text) (at : ℕ) (r s : Option Text)
      (a : AttachmentMeta) where
    queue_or_fail-Evolves :
        (id : Text) (p : FilePath) (v : Result Reason ParsedVtt)
        → Steps Evolves (Submit.queue_or_fail out cmd sender at r s a id p v)
    queue_or_fail-Evolves id p (raised reason) = search (rules, fail_and_move-Evolves) depth 8
    queue_or_fail-Evolves id p (ok vtt) = search rules depth 8

    accept_attachment-Evolves :
        (user : ℕ) (message : Text) (real : Attachment)
        → Steps Evolves (Submit.accept_attachment out cmd sender at r s a user message real)
    accept_attachment-Evolves user message real =
        search (rules, parsed-Evolves, queue_or_fail-Evolves) depth 12

  pub accept_transcript-Evolves :
      (attachments : List Attachment) (cmd : ValidatedCommand) (sender : Text) (user : ℕ)
      (message : Text) (at : ℕ) (r s : Option Text)
      → Steps Evolves (Submit.accept out attachments cmd sender user message at r s)
  unfolding Submit.accept
  accept_transcript-Evolves attachments cmd sender user message at r s =
      search (rules, asserted-Evolves, accept_attachment-Evolves)

pub accept_query-Evolves :
    (cmd : ValidatedCommand) (sender : Text) (user : ℕ) (message : Text) (r s : Option Text)
    → Steps Evolves (Assess.accept cmd sender user message r s)
unfolding Assess.accept
accept_query-Evolves cmd sender user message r s = search rules depth 8
