-- ===== src/Pipeline/Message.antt =====
-- `_process_message`, `_dispatch` and `poll_once` of app/pipeline.py.
use mathlib.Core.List.{map}
use group_assessment_agent.Base.{
  ℕ, Text, Bool, false, Option, none, some, List, [], ◌∷◌, length, if◌then◌else◌, is_empty,
}
use group_assessment_agent.Exec.{ok, pure, raise, ◌>>=◌, ◌>>◌, catch, for_each}
use group_assessment_agent.Jobs.{
  Operation, submit_transcript, status, results, cancel, assess_query, help, Reason,
}
use group_assessment_agent.Messages
use group_assessment_agent.Messages.{
  Question, Error, clarification_required, rejected, command_parsing_failed, rephrase,
}
use group_assessment_agent.World
use group_assessment_agent.World.{
  World, Action, AuthReason, authorised, unrecognised_in_domain, Outcome, WeeklyReport,
}
use group_assessment_agent.Mailbox.{EmailMessage, Attachment, size_bytes}
use group_assessment_agent.Outside.{Outside, ask}
use group_assessment_agent.Auth.{SenderAuthResult, authorise}
use group_assessment_agent.Notifier.{alert}
use group_assessment_agent.ProcessedStore.{begin, finalize}
use group_assessment_agent.Outbox.{enqueue}
use group_assessment_agent.ReportStore
use group_assessment_agent.Threads
use group_assessment_agent.Commands.{ParsedCommand}
use group_assessment_agent.Commands.Parser.{parse_email}
use group_assessment_agent.Commands.Validation.{
  AttachmentMeta, ValidationContext, ValidatedCommand, validate_command,
}
use group_assessment_agent.Handlers.{handle_status, handle_results, handle_cancel, handle_help}
use group_assessment_agent.Handlers.Outcome.{HandlerOutcome}
use group_assessment_agent.Handlers.Submit
use group_assessment_agent.Handlers.Assess
use group_assessment_agent.Pipeline.{
  Config, reply_references, match_report, mark_processed, reply_and_finalize,
  continue_clarification,
}

-- How a step that may ask back or refuse has ended.
pub data Settled (A : Type 0) : Type 0 where
  done : A → Settled A
  asks : Question → Settled A
  refuses : Reason → Settled A

-- `except ClarificationRequired` and `except Rejected`; any other error goes on.
abbrev pub settled : {A : Type 0} → Error → Action (Settled A)
settled (clarification_required q) = pure (asks q)
settled (rejected r) = pure (refuses r)
settled e = raise e

unfoldable pub settle : {A : Type 0} → Action A → Action (Settled A)
unfolding ◌>>=◌
settle m = catch (do a ← m; pure (done a)) settled

abbrev pub unparsed : Error → Action (Option ParsedCommand)
unparsed command_parsing_failed = pure none
unparsed e = raise e

-- `except CommandParsingFailed`.
unfoldable pub parsed : Action ParsedCommand → Action (Option ParsedCommand)
unfolding ◌>>=◌
parsed m = catch (do cmd ← m; pure (some cmd)) unparsed

module _ (out : Outside) (config : Config) (msg : EmailMessage) where
  abbrev pub this_reply : Option Text
  this_reply = some msg.message_id

  abbrev pub this_thread : Option Text
  this_thread = some (reply_references msg)

  abbrev pub handle : Operation → ValidatedCommand → Text → ℕ → Action HandlerOutcome
  handle submit_transcript cmd sender user =
      Submit.accept out msg.attachments cmd sender user msg.message_id msg.received_at this_reply
        this_thread
  handle status cmd sender user = handle_status sender this_reply this_thread cmd
  handle results cmd sender user = handle_results sender this_reply this_thread cmd
  handle cancel cmd sender user = handle_cancel sender this_reply this_thread cmd
  handle assess_query cmd sender user =
      Assess.accept cmd sender user msg.message_id this_reply this_thread
  handle help cmd sender user = handle_help sender this_reply this_thread

  unfoldable pub dispatch : ValidatedCommand → Text → ℕ → Action (Option Text)
  unfolding ◌>>=◌
  dispatch cmd sender user = do outcome ← handle cmd.operation cmd sender user; pure outcome.job_id

  abbrev pub meta : Attachment → AttachmentMeta
  meta a = record {
    filename = a.filename;
    size_bytes = size_bytes a;
    content_type = a.content_type;
  }

  abbrev pub context : Text → Option Text → ValidationContext
  context sender thread = record {
    attachments = map meta msg.attachments;
    thread_job_id = thread;
    sender_email = sender;
    max_bytes = config.max_bytes;
  }

  abbrev pub reply_question : Option Text → Operation → Question → Action (Unit {0})
  reply_question thread op q =
      reply_and_finalize out msg (Messages.clarification q thread) World.clarification_sent
        (some (World.command op))

  abbrev pub reply_refusal : Option Text → Operation → Reason → Action (Unit {0})
  reply_refusal thread op r =
      reply_and_finalize out msg (Messages.failure r thread) World.rejected
        (some (World.command op))

  abbrev pub finish : Option Text → Operation → Settled (Option Text) → Action (Unit {0})
  finish thread op (asks q) = reply_question thread op q
  finish thread op (refuses r) = reply_refusal thread op r
  finish thread op (done job_id) = do
    finalize msg.message_id World.handled job_id (some (World.command op))
    mark_processed out msg.provider_ref

  abbrev pub run_validated :
      Text → ℕ → Option Text → Operation → Settled ValidatedCommand → Action (Unit {0})
  run_validated sender user thread op (asks q) = reply_question thread op q
  run_validated sender user thread op (refuses r) = reply_refusal thread op r
  run_validated sender user thread op (done cmd) = do
    ended ← settle (dispatch cmd sender user)
    finish thread cmd.operation ended

  abbrev pub run_command : Text → ℕ → Option Text → Option ParsedCommand → Action (Unit {0})
  run_command sender user thread none = do
    reply_and_finalize out msg (Messages.clarification rephrase none) World.llm_parse_failed none
    alert config.notifier Messages.llm_parse_failure (Messages.unparsed_email sender)
    pure tt
  run_command sender user thread (some cmd) = do
    checked ← settle (validate_command cmd (context sender thread))
    run_validated sender user thread cmd.operation checked

  -- The message is left unfinished and unmarked when the model cannot be reached.
  abbrev pub defer : Action (Unit {0})
  defer = do alert config.notifier Messages.infrastructure Messages.model_unreachable; pure tt

  abbrev pub read_command : Text → ℕ → Option Text → Action (Unit {0})
  read_command sender user thread = do
    cmd ← parsed (
        parse_email out config.max_retries config.max_body_chars msg.body_text
          (map (λ a. a.filename) msg.attachments) thread)
    run_command sender user thread cmd

  -- From the question whether the model is there to the end of `_process_message`.
  unfoldable pub interpret : Text → ℕ → Option Text → Action (Unit {0})
  unfolding ◌>>=◌ dispatch
  interpret sender user thread = do
    available ← ask (λ c. ok (out.is_available c))
    if available then read_command sender user thread else defer

  abbrev pub continued : Text → Option Text → Action Bool
  continued sender none = pure false
  continued sender (some []) = pure false
  continued sender (some (c ∷ cs)) = continue_clarification out msg sender (c ∷ cs)

  -- The part behind the report match, for a message that belongs to no report.
  unfoldable pub process_command : Text → ℕ → Action (Unit {0})
  unfolding ◌>>=◌ interpret
  process_command sender user = do
    thread ← Threads.match msg sender
    answered ← continued sender thread
    if answered then pure tt else interpret sender user thread

  abbrev pub answer_report : WeeklyReport → Action (Unit {0})
  answer_report report = do
    ReportStore.reply out msg (reply_references msg) report.report_id
    finalize msg.message_id World.weekly_report_reply (some report.report_id)
        (some World.report_reply)
    mark_processed out msg.provider_ref

  abbrev pub process_matched : Text → ℕ → Option WeeklyReport → Action (Unit {0})
  process_matched sender user none = process_command sender user
  process_matched sender user (some report) = do
    available ← ask (λ c. ok (out.is_available c))
    if available then answer_report report else pure tt

  unfoldable pub process_authorised : Text → ℕ → Action (Unit {0})
  unfolding ◌>>=◌ process_command
  process_authorised sender user = do
    report ← match_report msg sender
    process_matched sender user report

  abbrev pub reply_unrecognised : Text → Action (Unit {0})
  reply_unrecognised sender = do
    enqueue sender (Messages.unrecognised_sender config.notifier.admin_email) none [] this_reply
        this_thread
    alert config.notifier Messages.unauthorised_sender
        (Messages.unrecognised_in_domain_sender sender)
    finalize msg.message_id World.unrecognised_sender_replied none none
    mark_processed out msg.provider_ref

  abbrev pub drop_silently : Action (Unit {0})
  drop_silently = do
    alert config.notifier Messages.unauthorised_sender (Messages.rejected_sender msg.from_address)
    finalize msg.message_id World.rejected_silently none none
    mark_processed out msg.provider_ref

  abbrev pub user_of : Option ℕ → ℕ
  user_of none = 0
  user_of (some user) = user

  abbrev pub by_reason : AuthReason → SenderAuthResult → Action (Unit {0})
  by_reason unrecognised_in_domain auth = reply_unrecognised auth.sender_email
  by_reason authorised auth = process_authorised auth.sender_email (user_of auth.user_id)
  by_reason _ auth = drop_silently

  abbrev pub dedup_sender : SenderAuthResult → Text
  dedup_sender auth = if is_empty auth.sender_email then msg.from_address else auth.sender_email

  abbrev pub process_as : SenderAuthResult → Action (Unit {0})
  process_as auth = do
    fresh ← begin msg.message_id (dedup_sender auth) auth.reason
    if fresh then by_reason auth.reason auth else mark_processed out msg.provider_ref

  unfoldable pub process_message : Action (Unit {0})
  unfolding ◌>>=◌ process_authorised
  process_message = process_as (authorise config.authoriser msg.from_address msg.auth_signals)

module _ (out : Outside) (config : Config) where
  -- An error in one message is logged, and the next message is taken.
  abbrev pub guarded : EmailMessage → Action (Unit {0})
  guarded msg = catch (process_message out config msg) (λ _. pure tt)

  unfoldable pub process_batch : List EmailMessage → Action (Unit {0})
  unfolding ◌>>=◌ for_each
  process_batch messages = for_each messages guarded

  unfoldable pub poll_once : Action ℕ
  unfolding ◌>>=◌ process_batch
  poll_once = do
    messages ← ask out.fetch_new_messages
    process_batch messages
    pure (length messages)
