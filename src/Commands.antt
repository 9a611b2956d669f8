-- ===== src/Commands.antt =====
-- app/commands/schema.py: the command that the model's JSON must make, and its checks.
pub mod Validation
pub mod Parser
pub mod Checked
pub mod Attempts
pub mod Schema
use group_assessment_agent.Base.{
  ℕ, Text, codes, strip, contains, is_empty, is_some, ◌==◌, ltb, Bool, true, false, not, ◌&&◌, ◌||◌,
  Option, none, some, List, [], ◌∷◌, ◌++◌, exists, length, Pattern, literals, literal,
  digits_of_length, matches_whole, if◌then◌else◌,
}
use group_assessment_agent.Jobs.{
  Operation, submit_transcript, status, results, cancel, assess_query, help,
}

-- `DIAR-\d{4}-\d{4}-\d{4}`.
abbrev pub job_id_pattern : Pattern
job_id_pattern =
    literals (codes "DIAR-")
    ++ (digits_of_length 4
        ++ (literal b'-' ∷ (digits_of_length 4 ++ (literal b'-' ∷ digits_of_length 4))))

-- The JSON object of the model's reply, typed; `extra` are the keys that the schema lacks.
pub record RawCommand : Type 0 where
  pub operation : Text
  pub attachment : Option Text
  pub group_hint : Option Text
  pub job_id : Option Text
  pub mentioned_date : Option Text
  pub return_statistics : Bool
  pub transcript_focus : Option Text
  pub github_focus : Option Text
  pub trello_focus : Option Text
  pub requires_clarification : Bool
  pub clarification_question : Option Text
  pub extra : List Text

pub record ParsedCommand : Type 0 where
  pub operation : Operation
  pub attachment : Option Text
  pub group_hint : Option Text
  pub job_id : Option Text
  pub mentioned_date : Option Text
  pub return_statistics : Bool
  pub transcript_focus : Option Text
  pub github_focus : Option Text
  pub trello_focus : Option Text
  pub requires_clarification : Bool
  pub clarification_question : Option Text

-- The values of `Operation`.
unfoldable pub parse_operation : Text → Option Operation
parse_operation s =
    if s == codes "submit_transcript"
    then some submit_transcript
    else if s == codes "status"
    then some status
    else if s == codes "results"
    then some results
    else if s == codes "cancel"
    then some cancel
    else if s == codes "assess_query"
    then some assess_query
    else if s == codes "help"
    then some help
    else none

-- `max_length` of an optional text.
abbrev pub within : ℕ → Option Text → Bool
within n none = true
within n (some s) = not (ltb n (length s))

-- `_attachment_no_path_chars` accepts the text.
unfoldable pub is_bare : Text → Bool
is_bare s =
    not (
      exists (λ p. contains s p) (codes "/" ∷ codes "\\" ∷ (0 ∷ []) ∷ [])
      || contains s (codes ".."))

abbrev pub bare : Option Text → Bool
bare none = true
bare (some s) = is_bare s

-- `_strip_and_reject_blank`.
unfoldable pub strip_blank : Option Text → Option Text
strip_blank none = none
strip_blank (some s) = if is_empty (strip s) then none else some (strip s)

abbrev pub is_job_id : Option Text → Bool
is_job_id none = true
is_job_id (some s) = matches_whole job_id_pattern s

abbrev pub no_extra : List Text → Bool
no_extra [] = true
no_extra (_ ∷ _) = false

pub fields_fit : RawCommand → Bool
fields_fit r =
    no_extra r.extra
    && within 255 r.attachment
    && within 200 r.group_hint
    && is_job_id r.job_id
    && within 64 r.mentioned_date
    && within 300 r.transcript_focus
    && within 300 r.github_focus
    && within 300 r.trello_focus
    && within 500 r.clarification_question
    && bare r.attachment

pub convert : RawCommand → Operation → ParsedCommand
unfolding strip_blank
convert r op = record {
  operation = op;
  attachment = strip_blank r.attachment;
  group_hint = strip_blank r.group_hint;
  job_id = r.job_id;
  mentioned_date = strip_blank r.mentioned_date;
  return_statistics = r.return_statistics;
  transcript_focus = strip_blank r.transcript_focus;
  github_focus = strip_blank r.github_focus;
  trello_focus = strip_blank r.trello_focus;
  requires_clarification = r.requires_clarification;
  clarification_question = strip_blank r.clarification_question;
}

-- `_clarification_requires_question`, on the converted command.
abbrev pub with_question : ParsedCommand → Option ParsedCommand
with_question c =
    if c.requires_clarification && not (is_some c.clarification_question) then none else some c

abbrev pub build : RawCommand → Option Operation → Option ParsedCommand
build r none = none
build r (some op) = if fields_fit r then with_question (convert r op) else none

-- `ParsedCommand.model_validate`, with `none` for a `ValidationError`.
unfoldable pub model_validate : RawCommand → Option ParsedCommand
unfolding fields_fit convert parse_operation
model_validate r = build r (parse_operation r.operation)
