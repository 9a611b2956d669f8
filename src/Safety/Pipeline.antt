-- ===== src/Safety/Pipeline.antt =====
-- The mail thread lets every job live on, along allowed transitions.
use group_assessment_agent.Base.{ℕ, Text, Option, none, some, [], ◌∷◌}
use group_assessment_agent.Exec.Steps.{Steps, Steps-bind, Steps-if}
use group_assessment_agent.Jobs.{
  Operation, submit_transcript, status, results, cancel, assess_query, help,
}
use group_assessment_agent.Messages.{
  Error, clarification_required, rejected, command_parsing_failed,
}
use group_assessment_agent.World.{
  Action, AuthReason, authorised, unrecognised_in_domain, WeeklyReport,
}
use group_assessment_agent.Mailbox.{EmailMessage}
use group_assessment_agent.Outside.{Outside}
use group_assessment_agent.Auth.{SenderAuthResult, authorise}
use group_assessment_agent.JobStore.Evolution.{Evolves, Evolves-IsPreorder}
use group_assessment_agent.ReportStore
use group_assessment_agent.Commands.{ParsedCommand}
use group_assessment_agent.Commands.Validation.{ValidatedCommand}
use group_assessment_agent.Pipeline.{Config}
use group_assessment_agent.Pipeline.Message
use group_assessment_agent.Pipeline.Message.{Settled, done, asks, refuses, settle, parsed}
use group_assessment_agent.Safety.Stores.{
  store_rules, ask-Evolves, report-Evolves, begin-Evolves, alert-Evolves,
}
use group_assessment_agent.Safety.Reading.{
  mark_processed-Evolves, reply_and_finalize-Evolves, continue_clarification-Evolves,
  match_report-Evolves, match-Evolves, parse_email-Evolves, validate_command-Evolves,
}
use group_assessment_agent.Safety.Handlers.{
  handle_status-Evolves, handle_results-Evolves, handle_cancel-Evolves, handle_help-Evolves,
  accept_transcript-Evolves, accept_query-Evolves,
}

ruleset rules = (store_rules, alert-Evolves)

settled-Evolves : {A : Type 0} (e : Error) → Steps Evolves (Message.settled {A = A} e)
settled-Evolves (clarification_required q) = search rules
settled-Evolves (rejected r) = search rules
settled-Evolves _ = search rules

settle-Evolves : {A : Type 0} (m : Action A) → Steps Evolves m → Steps Evolves (settle m)
unfolding settle
settle-Evolves m h = search (rules, settled-Evolves)

unparsed-Evolves : (e : Error) → Steps Evolves (Message.unparsed e)
unparsed-Evolves command_parsing_failed = search rules
unparsed-Evolves _ = search rules

parsed-Evolves : (m : Action ParsedCommand) → Steps Evolves m → Steps Evolves (parsed m)
unfolding parsed
parsed-Evolves m h = search (rules, unparsed-Evolves)

module _ (out : Outside) (config : Config) (msg : EmailMessage) where
  handle-Evolves :
      (op : Operation) (cmd : ValidatedCommand) (sender : Text) (user : ℕ)
      → Steps Evolves (Message.handle out config msg op cmd sender user)
  handle-Evolves submit_transcript cmd sender user =
      accept_transcript-Evolves out msg.attachments cmd sender user msg.message_id msg.received_at _
        _
  handle-Evolves status cmd sender user = handle_status-Evolves sender _ _ cmd
  handle-Evolves results cmd sender user = handle_results-Evolves sender _ _ cmd
  handle-Evolves cancel cmd sender user = handle_cancel-Evolves sender _ _ cmd
  handle-Evolves assess_query cmd sender user =
      accept_query-Evolves cmd sender user msg.message_id _ _
  handle-Evolves help cmd sender user = handle_help-Evolves sender _ _

  dispatch-Evolves :
      (cmd : ValidatedCommand) (sender : Text) (user : ℕ)
      → Steps Evolves (Message.dispatch out config msg cmd sender user)
  unfolding Message.dispatch
  dispatch-Evolves cmd sender user =
      let handled = handle-Evolves cmd.operation cmd sender user in search (rules, handled)

  ruleset endings = (rules, reply_and_finalize-Evolves, mark_processed-Evolves)

  finish-Evolves :
      (thread : Option Text) (op : Operation) (r : Settled (Option Text))
      → Steps Evolves (Message.finish out config msg thread op r)
  finish-Evolves thread op (asks q) = search endings
  finish-Evolves thread op (refuses r) = search endings
  finish-Evolves thread op (done job_id) = search endings

  run_validated-Evolves :
      (sender : Text) (user : ℕ) (thread : Option Text) (op : Operation)
      (r : Settled ValidatedCommand)
      → Steps Evolves (Message.run_validated out config msg sender user thread op r)
  run_validated-Evolves sender user thread op (asks q) = search endings
  run_validated-Evolves sender user thread op (refuses r) = search endings
  run_validated-Evolves sender user thread op (done cmd) =
      Steps-bind Evolves-IsPreorder _ _ (settle-Evolves _ (dispatch-Evolves cmd sender user))
        (λ r. finish-Evolves thread cmd.operation r)

  run_command-Evolves :
      (sender : Text) (user : ℕ) (thread : Option Text) (cmd : Option ParsedCommand)
      → Steps Evolves (Message.run_command out config msg sender user thread cmd)
  run_command-Evolves sender user thread none = search endings depth 8
  run_command-Evolves sender user thread (some cmd) =
      Steps-bind Evolves-IsPreorder _ _ (settle-Evolves _ (validate_command-Evolves cmd _))
        (λ r. run_validated-Evolves sender user thread cmd.operation r)

  read_command-Evolves :
      (sender : Text) (user : ℕ) (thread : Option Text)
      → Steps Evolves (Message.read_command out config msg sender user thread)
  read_command-Evolves sender user thread =
      Steps-bind Evolves-IsPreorder _ _
        (parsed-Evolves _ (parse_email-Evolves out config.max_retries config.max_body_chars _ _ _))
        (λ cmd. run_command-Evolves sender user thread cmd)

  interpret-Evolves :
      (sender : Text) (user : ℕ) (thread : Option Text)
      → Steps Evolves (Message.interpret out config msg sender user thread)
  unfolding Message.interpret
  interpret-Evolves sender user thread =
      Steps-bind Evolves-IsPreorder _ _ (ask-Evolves _)
        λ b. Steps-if b _ _ (read_command-Evolves sender user thread) (search rules)

  continued-Evolves :
      (sender : Text) (thread : Option Text)
      → Steps Evolves (Message.continued out config msg sender thread)
  continued-Evolves sender none = search rules
  continued-Evolves sender (some []) = search rules
  continued-Evolves sender (some (c ∷ cs)) = continue_clarification-Evolves out msg sender (c ∷ cs)

  pub process_command-Evolves :
      (sender : Text) (user : ℕ)
      → Steps Evolves (Message.process_command out config msg sender user)
  unfolding Message.process_command
  process_command-Evolves sender user =
      search (rules, match-Evolves, continued-Evolves, interpret-Evolves)

  reply-Evolves : (references id : Text) → Steps Evolves (ReportStore.reply out msg references id)
  unfolding ReportStore.reply
  reply-Evolves references id = Steps-bind Evolves-IsPreorder _ _ (report-Evolves id) (λ r. about r)
    where
      about :
          (r : Option WeeklyReport)
          → Steps Evolves (ReportStore.reply_about out msg references id r)
      about none = search rules
      about (some r) = search rules

  process_matched-Evolves :
      (sender : Text) (user : ℕ) (report : Option WeeklyReport)
      → Steps Evolves (Message.process_matched out config msg sender user report)
  process_matched-Evolves sender user none = process_command-Evolves sender user
  process_matched-Evolves sender user (some report) =
      Steps-bind Evolves-IsPreorder _ _ (ask-Evolves _)
        λ b. Steps-if b _ _ (search (endings, reply-Evolves)) (search rules)

  process_authorised-Evolves :
      (sender : Text) (user : ℕ)
      → Steps Evolves (Message.process_authorised out config msg sender user)
  unfolding Message.process_authorised
  process_authorised-Evolves sender user =
      search (rules, match_report-Evolves, process_matched-Evolves)

  by_reason-Evolves :
      (reason : AuthReason) (auth : SenderAuthResult)
      → Steps Evolves (Message.by_reason out config msg reason auth)
  by_reason-Evolves unrecognised_in_domain auth = search endings depth 8
  by_reason-Evolves authorised auth = process_authorised-Evolves auth.sender_email _
  by_reason-Evolves _ auth = search endings

  process_as-Evolves :
      (auth : SenderAuthResult) → Steps Evolves (Message.process_as out config msg auth)
  process_as-Evolves auth =
      Steps-bind Evolves-IsPreorder _ _ (begin-Evolves msg.message_id _ auth.reason) λ fresh.
        Steps-if fresh _ _ (by_reason-Evolves auth.reason auth)
          (mark_processed-Evolves out msg.provider_ref)

  pub process_message-Evolves : Steps Evolves (Message.process_message out config msg)
  unfolding Message.process_message
  process_message-Evolves =
      process_as-Evolves (authorise config.authoriser msg.from_address msg.auth_signals)

module _ (out : Outside) (config : Config) where
  -- One poll of the mailbox, whatever it holds and wherever the handling of a message stops: every
  -- job is still there under its id, with the same sender, user, message, operation and time of
  -- creation, and its state has moved along allowed transitions only.
  pub poll_once-Evolves : Steps Evolves (Message.poll_once out config)
  unfolding Message.poll_once
  poll_once-Evolves =
      Steps-bind Evolves-IsPreorder _ _ (ask-Evolves _)
        λ messages. search (rules, process_message-Evolves) depth 8
