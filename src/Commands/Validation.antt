-- ===== src/Commands/Validation.antt =====
-- `validate_command` of app/commands/validator.py: the trust boundary behind the schema.
use group_assessment_agent.Base.{
  ℕ, Text, codes, lower, ends_with, ◌==◌, ltb, Bool, false, not, ◌||◌, Option, none, some, or_else,
  nonempty, List, [], ◌∷◌, select, find, exists, if◌then◌else◌,
}
use mathlib.Core.List.{map}
use group_assessment_agent.Exec.{Result, ok, raised, pure, raise, lift, ◌>>=◌}
use group_assessment_agent.Jobs.{
  Operation, submit_transcript, status, results, cancel, assess_query, help, Job,
  audio_not_accepted, unsupported_type, too_large,
}
use group_assessment_agent.Messages.{
  Question, from_model, what_to_do, no_attachment, no_transcript, several_transcripts, which_job,
  which_source, job_not_found, Error, clarification_required, rejected,
}
use group_assessment_agent.World.{Action}
use group_assessment_agent.JobStore
use group_assessment_agent.Commands.{ParsedCommand}

pub record AttachmentMeta : Type 0 where
  pub filename : Text
  pub size_bytes : ℕ
  pub content_type : Text

-- `max_bytes` is the limit of the settings in bytes, `int(max_attachment_size_mb * 1024 * 1024)`.
pub record ValidationContext : Type 0 where
  pub attachments : List AttachmentMeta
  pub thread_job_id : Option Text
  pub sender_email : Text
  pub max_bytes : ℕ

pub record ValidatedCommand : Type 0 where
  pub operation : Operation
  pub attachment : Option AttachmentMeta
  pub group_hint : Option Text
  pub mentioned_date : Option Text
  pub job_id : Option Text
  pub return_statistics : Bool
  pub transcript_focus : Option Text
  pub github_focus : Option Text
  pub trello_focus : Option Text

abbrev pub only : Operation → ValidatedCommand
only op = record {
  operation = op;
  attachment = none;
  group_hint = none;
  mentioned_date = none;
  job_id = none;
  return_statistics = false;
  transcript_focus = none;
  github_focus = none;
  trello_focus = none;
}

abbrev pub audio_extensions : List Text
audio_extensions =
    codes ".wav"
    ∷ codes ".mp3"
    ∷ codes ".m4a"
    ∷ codes ".ogg"
    ∷ codes ".flac"
    ∷ codes ".aac"
    ∷ codes ".wma"
    ∷ []

unfoldable pub is_audio : Text → Bool
is_audio filename = exists (ends_with (lower filename)) audio_extensions

unfoldable pub is_vtt : Text → Bool
is_vtt filename = ends_with (lower filename) (codes ".vtt")

abbrev pub named : Text → AttachmentMeta → Bool
named filename a = a.filename == filename

-- The attachment that the model names, looked up among the real ones.
abbrev pub claimed : Option Text → List AttachmentMeta → Option AttachmentMeta
claimed none attachments = none
claimed (some []) attachments = none
claimed (some (c ∷ cs)) attachments = find (named (c ∷ cs)) attachments

-- Without a usable claim: the one transcript that is attached.
abbrev pub by_type : List AttachmentMeta → List AttachmentMeta → Result Error AttachmentMeta
by_type attachments [] =
    if exists (λ a. is_audio a.filename) attachments
    then raised (rejected audio_not_accepted)
    else raised (clarification_required no_transcript)
by_type attachments (a ∷ []) = ok a
by_type attachments (a ∷ b ∷ more) =
    raised (clarification_required (several_transcripts (map (λ x. x.filename) (a ∷ b ∷ more))))

abbrev pub resolve : Option AttachmentMeta → List AttachmentMeta → Result Error AttachmentMeta
resolve (some a) attachments = ok a
resolve none attachments = by_type attachments (select (λ a. is_vtt a.filename) attachments)

-- The checks of the attachment that was found, on its real name and size.
abbrev pub recheck : ℕ → AttachmentMeta → Result Error AttachmentMeta
recheck max_bytes a =
    if is_audio a.filename
    then raised (rejected audio_not_accepted)
    else if not (is_vtt a.filename)
    then raised (rejected (unsupported_type a.filename))
    else if ltb max_bytes a.size_bytes
    then raised (rejected (too_large a.filename a.size_bytes))
    else ok a

abbrev pub submission : ParsedCommand → Result Error AttachmentMeta → Result Error ValidatedCommand
submission cmd (raised e) = raised e
submission cmd (ok a) = ok (record (only submit_transcript) {
  attachment = some a;
  group_hint = cmd.group_hint;
  mentioned_date = cmd.mentioned_date;
})

abbrev pub rechecked : ℕ → Result Error AttachmentMeta → Result Error AttachmentMeta
rechecked max_bytes (raised e) = raised e
rechecked max_bytes (ok a) = recheck max_bytes a

abbrev pub submission_from : ParsedCommand → ℕ → List AttachmentMeta → Result Error ValidatedCommand
submission_from cmd max_bytes [] = raised (clarification_required no_attachment)
submission_from cmd max_bytes (a ∷ as') =
    submission cmd (rechecked max_bytes (resolve (claimed cmd.attachment (a ∷ as')) (a ∷ as')))

unfoldable pub validate_submit_transcript :
    ParsedCommand → ValidationContext → Result Error ValidatedCommand
unfolding is_audio is_vtt
validate_submit_transcript cmd ctx = submission_from cmd ctx.max_bytes ctx.attachments

abbrev pub truthy : Option Text → Option Text
truthy none = none
truthy (some []) = none
truthy (some (c ∷ cs)) = some (c ∷ cs)

abbrev pub reference : ParsedCommand → Text → Option Job → Action ValidatedCommand
reference cmd job_id none = raise (clarification_required (job_not_found job_id))
reference cmd job_id (some job) = pure (record (only cmd.operation) {
  job_id = some job_id;
  return_statistics = cmd.return_statistics;
})

abbrev pub reference_to : ParsedCommand → Text → Option Text → Action ValidatedCommand
reference_to cmd sender none = raise (clarification_required which_job)
reference_to cmd sender (some job_id) = do
  job ← JobStore.get_owned job_id sender
  reference cmd job_id job

unfoldable pub validate_job_reference_operation :
    ParsedCommand → ValidationContext → Action ValidatedCommand
unfolding ◌>>=◌
validate_job_reference_operation cmd ctx =
    reference_to cmd ctx.sender_email (truthy (or_else (truthy cmd.job_id) ctx.thread_job_id))

unfoldable pub validate_assess_query : ParsedCommand → Result Error ValidatedCommand
validate_assess_query cmd =
    if nonempty cmd.transcript_focus || (nonempty cmd.github_focus || nonempty cmd.trello_focus)
    then ok (record (only assess_query) {
      group_hint = cmd.group_hint;
      transcript_focus = cmd.transcript_focus;
      github_focus = cmd.github_focus;
      trello_focus = cmd.trello_focus;
    })
    else raised (clarification_required which_source)

abbrev pub asked : Option Text → Question
asked none = what_to_do
asked (some []) = what_to_do
asked (some (c ∷ cs)) = from_model (c ∷ cs)

abbrev pub by_operation : Operation → ParsedCommand → ValidationContext → Action ValidatedCommand
by_operation submit_transcript cmd ctx = lift (validate_submit_transcript cmd ctx)
by_operation status cmd ctx = validate_job_reference_operation cmd ctx
by_operation results cmd ctx = validate_job_reference_operation cmd ctx
by_operation cancel cmd ctx = validate_job_reference_operation cmd ctx
by_operation assess_query cmd ctx = lift (validate_assess_query cmd)
by_operation help cmd ctx = pure (only help)

unfoldable pub validate_command : ParsedCommand → ValidationContext → Action ValidatedCommand
unfolding raise pure lift validate_submit_transcript validate_job_reference_operation
    validate_assess_query
validate_command cmd ctx =
    if cmd.requires_clarification
    then raise (clarification_required (asked cmd.clarification_question))
    else by_operation cmd.operation cmd ctx
