-- ===== src/Safety/Reading.antt =====
-- The jobs under the reading of a message: its thread, its report, its command.
use group_assessment_agent.Base.{ℕ, zero, suc, refl, Text, true, Option, none, some, List, [], ◌∷◌}
use group_assessment_agent.Exec.Steps.{Steps, Steps-bind, Steps-if}
use group_assessment_agent.Jobs.{Operation, status, results, cancel, Job}
use group_assessment_agent.Messages.{Mail}
use group_assessment_agent.World.{Outcome, Handling, PendingClarification}
use group_assessment_agent.Mailbox.{EmailMessage}
use group_assessment_agent.Outside.{Outside, Prompt}
use group_assessment_agent.JobStore.Evolution.{Evolves, Evolves-IsPreorder, quiet}
use group_assessment_agent.Threads
use group_assessment_agent.Commands.{ParsedCommand}
use group_assessment_agent.Commands.Parser.{attempt, parse_email}
use group_assessment_agent.Commands.Validation.{
  ValidationContext, validate_command, by_operation, reference, reference_to,
  validate_job_reference_operation,
}
use group_assessment_agent.Pipeline
use group_assessment_agent.Pipeline.{Config}
use group_assessment_agent.Safety.Stores.{
  store_rules, ask-Evolves, linked_report-Evolves, report-Evolves, alert-Evolves,
}

ruleset rules = (store_rules, alert-Evolves)

module _ (out : Outside) where
  pub mark_processed-Evolves : (ref : Text) → Steps Evolves (Pipeline.mark_processed out ref)
  unfolding Pipeline.mark_processed
  mark_processed-Evolves ref =
      Steps-bind Evolves-IsPreorder _ _ (ask-Evolves _) (λ _. quiet (λ w. refl))

  pub reply_and_finalize-Evolves :
      (msg : EmailMessage) (mail : Mail) (outcome : Outcome) (operation : Option Handling)
      → Steps Evolves (Pipeline.reply_and_finalize out msg mail outcome operation)
  unfolding Pipeline.reply_and_finalize
  reply_and_finalize-Evolves msg mail outcome operation = search (rules, mark_processed-Evolves)

  module _ (msg : EmailMessage) (sender job_id : Text) where
    repeat_question-Evolves :
        (p : PendingClarification)
        → Steps Evolves (Pipeline.repeat_question out msg sender job_id p)
    repeat_question-Evolves p = search (rules, mark_processed-Evolves) depth 8

    apply_answer-Evolves :
        (selected : Text) → Steps Evolves (Pipeline.apply_answer out msg sender job_id selected)
    apply_answer-Evolves selected = search (rules, mark_processed-Evolves) depth 12

    answer_or_repeat-Evolves :
        (p : PendingClarification) (l : List Text)
        → Steps Evolves (Pipeline.answer_or_repeat out msg sender job_id p l)
    answer_or_repeat-Evolves p [] = repeat_question-Evolves p
    answer_or_repeat-Evolves p (selected ∷ []) = search (rules, apply_answer-Evolves)
    answer_or_repeat-Evolves p (a ∷ b ∷ more) = repeat_question-Evolves p

    answer_for-Evolves :
        (p : Option PendingClarification)
        → Steps Evolves (Pipeline.answer_for out msg sender job_id p)
    answer_for-Evolves none = search rules
    answer_for-Evolves (some p) = answer_or_repeat-Evolves p _

    pub continue_clarification-Evolves :
        Steps Evolves (Pipeline.continue_clarification out msg sender job_id)
    unfolding Pipeline.continue_clarification
    continue_clarification-Evolves = search (rules, answer_for-Evolves)

report_by_link-Evolves :
    (sender : Text) (ids : List Text) → Steps Evolves (Pipeline.report_by_link sender ids)
unfolding Pipeline.report_by_link
report_by_link-Evolves sender [] = search rules
report_by_link-Evolves sender (id ∷ ids) =
    let ih = report_by_link-Evolves sender ids in
    Steps-bind Evolves-IsPreorder _ _ (linked_report-Evolves id sender) (λ r. search (rules, ih))

report_by_mention-Evolves :
    (sender : Text) (ids : List Text) → Steps Evolves (Pipeline.report_by_mention sender ids)
unfolding Pipeline.report_by_mention
report_by_mention-Evolves sender [] = search rules
report_by_mention-Evolves sender (id ∷ ids) =
    let ih = report_by_mention-Evolves sender ids in
    Steps-bind Evolves-IsPreorder _ _ (report-Evolves id) (λ r. search (rules, ih))

reference_words-Evolves : (a b : Option Text) → Steps Evolves (Pipeline.reference_words a b)
unfolding Pipeline.reference_words
reference_words-Evolves a b = search rules

pub match_report-Evolves :
    (msg : EmailMessage) (sender : Text) → Steps Evolves (Pipeline.match_report msg sender)
unfolding Pipeline.match_report
match_report-Evolves msg sender =
    search (rules, reference_words-Evolves, report_by_link-Evolves, report_by_mention-Evolves)

by_reference-Evolves : (sender ref : Text) → Steps Evolves (Threads.by_reference sender ref)
unfolding Threads.by_reference
by_reference-Evolves sender ref = search rules

first_match-Evolves :
    (sender : Text) (refs : List Text) → Steps Evolves (Threads.first_match sender refs)
unfolding Threads.first_match
first_match-Evolves sender [] = search rules
first_match-Evolves sender (ref ∷ refs) =
    let ih = first_match-Evolves sender refs in
    Steps-bind Evolves-IsPreorder _ _ (by_reference-Evolves sender ref) (λ r. search (rules, ih))

by_mention-Evolves :
    (sender : Text) (id : Option Text) → Steps Evolves (Threads.by_mention sender id)
by_mention-Evolves sender none = search rules
by_mention-Evolves sender (some id) = search rules

pub match-Evolves : (msg : EmailMessage) (sender : Text) → Steps Evolves (Threads.match msg sender)
unfolding Threads.match
match-Evolves msg sender = search (rules, first_match-Evolves, by_mention-Evolves) depth 8

attempt-Evolves :
    (out : Outside) (rounds : ℕ) (prompt : Prompt) → Steps Evolves (attempt out rounds prompt)
unfolding attempt
attempt-Evolves out zero prompt = search rules
attempt-Evolves out (suc rounds) prompt =
    let ih = attempt-Evolves out rounds (record prompt { reminded = true }) in
    Steps-bind Evolves-IsPreorder _ _ (ask-Evolves _) (λ raw. search (rules, ih))

pub parse_email-Evolves :
    (out : Outside) (retries limit : ℕ) (body : Text) (names : List Text) (hint : Option Text)
    → Steps Evolves (parse_email out retries limit body names hint)
unfolding parse_email
parse_email-Evolves out retries limit body names hint = attempt-Evolves out _ _

reference-Evolves :
    (cmd : ParsedCommand) (id : Text) (job : Option Job) → Steps Evolves (reference cmd id job)
reference-Evolves cmd id none = search rules
reference-Evolves cmd id (some job) = search rules

reference_to-Evolves :
    (cmd : ParsedCommand) (sender : Text) (id : Option Text)
    → Steps Evolves (reference_to cmd sender id)
reference_to-Evolves cmd sender none = search rules
reference_to-Evolves cmd sender (some id) = search (rules, reference-Evolves)

validate_reference-Evolves :
    (cmd : ParsedCommand) (ctx : ValidationContext)
    → Steps Evolves (validate_job_reference_operation cmd ctx)
unfolding validate_job_reference_operation
validate_reference-Evolves cmd ctx = reference_to-Evolves cmd ctx.sender_email _

by_operation-Evolves :
    (op : Operation) (cmd : ParsedCommand) (ctx : ValidationContext)
    → Steps Evolves (by_operation op cmd ctx)
by_operation-Evolves status cmd ctx = validate_reference-Evolves cmd ctx
by_operation-Evolves results cmd ctx = validate_reference-Evolves cmd ctx
by_operation-Evolves cancel cmd ctx = validate_reference-Evolves cmd ctx
by_operation-Evolves _ cmd ctx = search rules

pub validate_command-Evolves :
    (cmd : ParsedCommand) (ctx : ValidationContext) → Steps Evolves (validate_command cmd ctx)
unfolding validate_command
validate_command-Evolves cmd ctx =
    Steps-if cmd.requires_clarification _ _ (search rules)
      (by_operation-Evolves cmd.operation cmd ctx)
