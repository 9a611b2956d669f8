-- ===== src/Messages.antt =====
-- What the program says: the questions and reasons of app/commands/validator.py and the handlers,
-- the mails of app/email_templates/render.py, the alerts of app/admin/notifier.py, and the errors
-- that its methods raise. A text is named by a constructor that holds what the text quotes.
use group_assessment_agent.Base.{ℕ, Text, Bool, Option, List}
use group_assessment_agent.Jobs.{JobState, Reason, Note}

-- What a group is needed for, the third argument of `group_clarification_question`.
pub data Subject : Type 0 where
  this_transcript this_question : Subject

pub data Question : Type 0 where
  from_model : Text → Question
  what_to_do rephrase : Question
  no_attachment no_transcript : Question
  several_transcripts : List Text → Question
  which_job which_source : Question
  job_not_found : Text → Question
  job_gone : Text → Question
  no_groups : Subject → Question
  which_group : Subject → List Text → Question

pub data AdminCategory : Type 0 where
  unauthorised_sender llm_parse_failure backend_submission_failure : AdminCategory
  assess_query_failure infrastructure : AdminCategory

abbrev pub same_category : AdminCategory → AdminCategory → Bool
same_category unauthorised_sender unauthorised_sender = Bool.true
same_category llm_parse_failure llm_parse_failure = Bool.true
same_category backend_submission_failure backend_submission_failure = Bool.true
same_category assess_query_failure assess_query_failure = Bool.true
same_category infrastructure infrastructure = Bool.true
same_category _ _ = Bool.false

pub data Error : Type 0 where
  clarification_required : Question → Error
  rejected : Reason → Error
  invalid_transition : Text → Error
  job_id_allocation : Error
  command_parsing_failed : Error
  vtt_parse_error : Reason → Error
  weekly_send_failed : Error
  diarisation_api_error github_api_error : Error
  os_error integrity_error assertion_error attribute_error unexpected : Error

-- The summary of an alert, with what it quotes.
pub data Summary : Type 0 where
  unrecognised_in_domain_sender : Text → Summary
  rejected_sender : Text → Summary
  model_unreachable : Summary
  unparsed_email : Text → Summary
  submission_failed : Text → Text → Reason → Summary
  assess_failed : Text → Text → Reason → Summary
  weekly_report_failed : Text → Error → Summary

-- The subject and body of one mail: the renderer that makes them and its arguments.
pub data Mail : Type 0 where
  ack : Text → Text → ℕ → Mail
  clarification : Question → Option Text → Mail
  clarification_received : Text → Text → Mail
  failure : Reason → Option Text → Mail
  completion : Text → Text → Option ℕ → List Text → List Text → Mail
  status : Text → JobState → Mail
  results :
      Text → JobState → Option Text → Option ℕ → Option (List Text) → Option (List Text) → Mail
  cancelled : Text → Mail
  cannot_cancel : Text → JobState → Mail
  help : Mail
  unrecognised_sender : Option Text → Mail
  assess_ack : Text → Mail
  assess_result : Text → Text → Option Text → Option Text → Bool → List Note → Mail
  admin_alert : AdminCategory → Summary → Mail
  report_answer : Text → Text → Mail
  weekly_update : Text → Text → Text → Text → Text → Mail
