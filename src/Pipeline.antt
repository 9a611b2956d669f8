-- ===== src/Pipeline.antt =====
-- app/pipeline.py: one inbound message from the mailbox to its handler, and the sending of the outbox.
pub mod Message
pub mod Flush
pub mod Redelivery
pub mod Outcomes
pub mod Silence
pub mod Idle
pub mod Strangers
use mathlib.Core.List.{map}
use group_assessment_agent.Base.{
  ℕ, zero, suc, ◌+◌, Text, codes, lower, strip, split, join, starts_with, is_empty, ◌==◌, nat_eq,
  Bool, true, false, not, ◌&&◌, ◌||◌, Option, none, some, List, [], ◌∷◌, ◌++◌, length, select,
  exists, find_all, Pattern, literals, literal, digits_of_length, is_some, or_else, if◌then◌else◌,
}
use group_assessment_agent.Exec.{
  Result, ok, raised, pure, raise, gets, modify, found_or, ◌>>=◌, ◌>>◌,
}
use group_assessment_agent.Jobs.{
  JobState, queued, needs_clarification, same_state, Operation, Job, Field,
}
use group_assessment_agent.Jobs
use group_assessment_agent.Messages
use group_assessment_agent.Messages.{Mail, Error}
use group_assessment_agent.World.{
  World, Action, PendingClarification, Outcome, clarification_sent, clarification_applied, Handling,
  clarification_answer, WeeklyReport,
}
use group_assessment_agent.Mailbox.{EmailMessage, Attachment, size_bytes}
use group_assessment_agent.Outside.{Outside, ask}
use group_assessment_agent.Auth.{Authoriser}
use group_assessment_agent.Notifier.{Notifier}
use group_assessment_agent.JobStore.{get_owned, update, set_status}
use group_assessment_agent.ProcessedStore.{finalize}
use group_assessment_agent.Outbox.{enqueue}
use group_assessment_agent.Clarifications
use group_assessment_agent.ReportStore
use group_assessment_agent.Threads.{present}
use group_assessment_agent.Vtt.{split_lines}

-- What the pipeline is made with: the authoriser, the notifier, and the limits of the settings.
pub record Config : Type 0 where
  pub authoriser : Authoriser
  pub notifier : Notifier
  pub max_bytes : ℕ
  pub max_retries : ℕ
  pub max_body_chars : ℕ

-- `dict.fromkeys(values)`: each value once, at its first place.
distinct_from : List Text → List Text → List Text
distinct_from seen [] = []
distinct_from seen (t ∷ ts) =
    let old = distinct_from seen ts in
    let new = t ∷ distinct_from (t ∷ seen) ts in if exists (λ u. u == t) seen then old else new

unfoldable pub reply_references : EmailMessage → Text
unfolding distinct_from
reply_references msg =
    join (codes " ")
      (distinct_from [] (present (msg.references ∷ msg.in_reply_to ∷ some msg.message_id ∷ [])))

unfoldable pub normalise : Text → Text
normalise value = join (codes " ") (split (lower (strip value)))

-- The first of the lines that is neither blank nor quoted, stripped.
abbrev pub first_unquoted : List Text → Text
first_unquoted [] = []
first_unquoted (l ∷ ls) =
    if not (is_empty (strip l)) && not (starts_with (strip l) (codes ">"))
    then strip l
    else first_unquoted ls

-- `WEEKLY-\d{4}-\d{2}-\d{2}-\d{4}`.
abbrev pub report_id_pattern : Pattern
report_id_pattern =
    literals (codes "WEEKLY-")
    ++ (digits_of_length 4
        ++ (literal b'-'
            ∷ (digits_of_length 2
                ++ (literal b'-' ∷ (digits_of_length 2 ++ (literal b'-' ∷ digits_of_length 4))))))

-- `f"{msg.in_reply_to or ''}"` and the like.
abbrev pub text_of : Option Text → Text
text_of none = []
text_of (some t) = t

-- `(msg.in_reply_to or "", msg.references or "").split()`: the brackets make a tuple, and a tuple has
-- no method `split`, so Python raises an AttributeError.
unfoldable pub reference_words : Option Text → Option Text → Action (List Text)
reference_words in_reply_to references = raise Messages.attribute_error

abbrev pub owned_report : Text → Option WeeklyReport → Option WeeklyReport
owned_report sender none = none
owned_report sender (some r) = if lower r.owner_email == lower sender then some r else none

unfoldable pub report_by_link : Text → List Text → Action (Option WeeklyReport)
unfolding ◌>>=◌ found_or
report_by_link sender [] = pure none
report_by_link sender (id ∷ ids) = do
  report ← ReportStore.get_by_message_id id sender
  found_or report (report_by_link sender ids)

unfoldable pub report_by_mention : Text → List Text → Action (Option WeeklyReport)
unfolding ◌>>=◌ found_or
report_by_mention sender [] = pure none
report_by_mention sender (id ∷ ids) = do
  report ← ReportStore.get id
  found_or (owned_report sender report) (report_by_mention sender ids)

unfoldable pub match_report : EmailMessage → Text → Action (Option WeeklyReport)
unfolding ◌>>=◌ reference_words report_by_link report_by_mention
match_report msg sender = do
  ids ← reference_words msg.in_reply_to msg.references
  linked ← report_by_link sender ids
  found_or linked (
      report_by_mention sender
        (find_all report_id_pattern (msg.subject ++ (codes " " ++ msg.body_text))))

module _ (out : Outside) where
  unfoldable pub mark_processed : Text → Action (Unit {0})
  unfolding ◌>>=◌
  mark_processed ref = do
    ask (λ c. out.mark_processed c ref)
    modify (λ w. record w { marked = ref ∷ w.marked })

  unfoldable pub reply_and_finalize :
      EmailMessage → Mail → Outcome → Option Handling → Action (Unit {0})
  unfolding ◌>>=◌ mark_processed
  reply_and_finalize msg mail outcome operation = do
    enqueue msg.from_address mail none [] (some msg.message_id) (some (reply_references msg))
    finalize msg.message_id outcome none operation
    mark_processed msg.provider_ref

  module _ (msg : EmailMessage) (sender job_id : Text) where
    abbrev pub repeat_question : PendingClarification → Action Bool
    repeat_question p = do
      enqueue sender (Messages.clarification p.question (some job_id)) (some job_id) []
          (some msg.message_id) (some (reply_references msg))
      finalize msg.message_id clarification_sent none (some clarification_answer)
      mark_processed msg.provider_ref
      pure true

    abbrev pub apply_answer : Text → Action Bool
    apply_answer selected = do
      update job_id
          (Field.group_hint (some selected) ∷ Field.in_reply_to_message_id msg.message_id ∷ [])
      set_status job_id queued []
      Clarifications.delete job_id
      enqueue sender (Messages.clarification_received job_id selected) (some job_id) []
          (some msg.message_id) (some (reply_references msg))
      finalize msg.message_id clarification_applied (some job_id) (some clarification_answer)
      mark_processed msg.provider_ref
      pure true

    abbrev pub waits : Option Job → Bool
    waits none = false
    waits (some job) = same_state job.status needs_clarification

    abbrev pub answer_or_repeat : PendingClarification → List Text → Action Bool
    answer_or_repeat p [] = repeat_question p
    answer_or_repeat p (selected ∷ []) = do
      job ← get_owned job_id sender
      if waits job then apply_answer selected else pure false
    answer_or_repeat p (a ∷ b ∷ more) = repeat_question p

    -- The options that the answer names.
    unfoldable pub chosen : PendingClarification → List Text
    chosen p =
        select (λ o. normalise o == normalise (first_unquoted (split_lines msg.body_text)))
          p.options

    abbrev pub answer_for : Option PendingClarification → Action Bool
    answer_for none = pure false
    answer_for (some p) = answer_or_repeat p (chosen p)

    -- Whether the message has been dealt with as an answer to a question about the job.
    unfoldable pub continue_clarification : Action Bool
    unfolding ◌>>=◌ mark_processed chosen
    continue_clarification = do p ← Clarifications.get job_id; answer_for p
