-- ===== src/Tests/Requests.antt =====
-- The theorems on requests: who may make them, how they are read, and what they do.
use group_assessment_agent.Base.{
  join, find_all, matches_whole, ℕ, ◌+◌, ◌≤◌, Text, codes, ◌==◌, lower, strip, ends_with, ◌≡◌, ◌↔◌,
  refl, true, false, none, some, [], ◌∷◌, find, select,
}
use group_assessment_agent.Exec.{ok}
use group_assessment_agent.Jobs.{queued, submit_transcript, status, Job}
use group_assessment_agent.World.{authorised}
use group_assessment_agent.Auth.{authorise, normalise_email, is_email, auth_pass, owner_id}
use group_assessment_agent.Auth.Decisions.{IsEntitled, authorised-IsEntitled}
use group_assessment_agent.JobStore.{has_id, get_owned}
use group_assessment_agent.Commands.{ParsedCommand, model_validate, parse_operation}
use group_assessment_agent.Commands.Validation.{
  AttachmentMeta, ValidationContext, ValidatedCommand, only, is_audio, is_vtt,
  validate_submit_transcript, validate_job_reference_operation,
}
use group_assessment_agent.Commands.Checked.{IsAccepted, validated_submission, validated_reference}
use group_assessment_agent.Commands.Parser.{parse_email}
use group_assessment_agent.Commands.Attempts.{parse_email_calls}
use group_assessment_agent.Groups.{GroupSummary, matched, match_group}
use group_assessment_agent.Groups.Matching.{answers, matched-iff-only}
use group_assessment_agent.Handlers.{handle_cancel}
use group_assessment_agent.Handlers.Cancelling.{Cancels, handle_cancel-Cancels}
use group_assessment_agent.Auth.Owners.{with_owner, authorise-with_owner}
use group_assessment_agent.Handlers.Outcome.{HandlerOutcome}
use group_assessment_agent.Vtt.{ParsedVtt}
use group_assessment_agent.Mailbox.{EmailMessage}
use group_assessment_agent.Threads.{match, referenced_message_ids}
use group_assessment_agent.Threads.Ownership.{IsTheirs, match-IsTheirs}
use group_assessment_agent.Commands.Schema.{IsWellFormed, model_validate-IsWellFormed}
use group_assessment_agent.Tests.{
  mail_from, status_command, ann, job_id, job_in, start, world_with, passing, authoriser, outside,
}

abbrev bob : Text
bob = codes "bob@example.org"

authorise-with_owner_example :
    authorise (with_owner (codes " BOB@example.org") 8 authoriser) bob passing
    ≡ record { ok = true; user_id = some 8; sender_email = bob; reason = authorised }
unfolding normalise_email is_email auth_pass lower strip ◌==◌
authorise-with_owner_example =
    authorise-with_owner authoriser (codes " BOB@example.org") bob 8 passing bob refl refl

authorised-IsEntitled_example :
    (user : ℕ) × ((authorise authoriser ann passing).user_id ≡ some user)
    × IsEntitled authoriser ann passing user
unfolding authorise normalise_email is_email auth_pass owner_id lower strip ◌==◌
authorised-IsEntitled_example = authorised-IsEntitled authoriser ann passing refl

abbrev command : ParsedCommand
command = record {
  operation = status;
  attachment = none;
  group_hint = none;
  job_id = some job_id;
  mentioned_date = none;
  return_statistics = false;
  transcript_focus = none;
  github_focus = none;
  trello_focus = none;
  requires_clarification = false;
  clarification_question = none;
}

abbrev transcript : AttachmentMeta
transcript = record { filename = codes "a.vtt"; size_bytes = 80; content_type = codes "text/vtt" }

abbrev context : ValidationContext
context = record {
  attachments = transcript ∷ [];
  thread_job_id = none;
  sender_email = ann;
  max_bytes = 100;
}

validated_submission_example :
    (a : AttachmentMeta) × (some transcript ≡ some a) × IsAccepted context a
unfolding validate_submit_transcript is_audio is_vtt ends_with lower ◌==◌
validated_submission_example =
    validated_submission command context
      (record (only submit_transcript) { attachment = some transcript }) refl

validated_reference_example :
    (id : Text) × (j : Job) × (some job_id ≡ some id)
    × (status ≡ status)
    × (find (has_id id) (world_with (job_in queued)).jobs ≡ some j)
    × (lower j.sender_email ≡ lower ann)
unfolding validate_job_reference_operation get_owned ◌==◌ lower
validated_reference_example =
    validated_reference command context (world_with (job_in queued))
      (record (only status) { job_id = some job_id }) refl

parse_email_calls_example :
    let after = (parse_email outside 2 100 (codes "status?") [] none start).1 in
    (after.calls ≤ 0 + (2 + 1)) × (after ≡ record start { calls = after.calls })
parse_email_calls_example = parse_email_calls outside 2 100 (codes "status?") [] none start

abbrev sprint_group : GroupSummary
sprint_group = record { id = 1; name = codes "Sprint" }

matched-iff-only_example :
    (match_group (some (codes " sprint")) (sprint_group ∷ []) ≡ matched sprint_group)
    ↔ (select (answers (some (codes " sprint"))) (sprint_group ∷ []) ≡ sprint_group ∷ [])
matched-iff-only_example =
    matched-iff-only (some (codes " sprint")) (sprint_group ∷ []) sprint_group

abbrev cancel_command : ValidatedCommand
cancel_command = record (only status) { job_id = some job_id }

handle_cancel-Cancels_example :
    let w = world_with (job_in queued) in
    (o : HandlerOutcome) × ((handle_cancel ann none none cancel_command w).0 ≡ ok o)
    × Cancels ann job_id (job_in queued) w (handle_cancel ann none none cancel_command w).1 o
unfolding ◌==◌
handle_cancel-Cancels_example =
    handle_cancel-Cancels ann none none (world_with (job_in queued)) (job_in queued) cancel_command
      job_id refl refl refl

abbrev transcript_text : Text
transcript_text = codes "WEBVTT\n\n1\n00:01 --> 00:02\nAnn: Hi\n\n00:02 --> 00:03\nAnn: So\n"

abbrev parsed_transcript : ParsedVtt
parsed_transcript = record {
  speakers = codes "Ann" ∷ [];
  meeting_date = none;
  cue_count = 2;
  warnings = [];
}

abbrev reply : EmailMessage
reply = record (mail_from ann passing) { body_text = codes "About DIAR-2026-0101-0001" }

match-IsTheirs_example :
    ((j : Job) × (j.job_id ≡ job_id) × IsTheirs ann (world_with (job_in queued)) j)
    × ((match reply ann (world_with (job_in queued))).1 ≡ world_with (job_in queued))
unfolding match ◌==◌ find_all referenced_message_ids join strip get_owned lower
match-IsTheirs_example = match-IsTheirs reply ann (world_with (job_in queued)) job_id refl

model_validate-IsWellFormed_example : IsWellFormed status_command command
unfolding model_validate parse_operation ◌==◌ matches_whole
model_validate-IsWellFormed_example = model_validate-IsWellFormed status_command command refl
