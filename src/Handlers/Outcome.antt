-- ===== src/Handlers/Outcome.antt =====
-- app/handlers/base.py: what a handler reports. The outcomes that no handler returns are left out.
use group_assessment_agent.Base.{Text, Option, some}

pub data OutcomeType : Type 0 where
  job_created status_reply results_reply was_cancelled cannot_cancel help_reply : OutcomeType
  was_rejected : OutcomeType

pub record HandlerOutcome : Type 0 where
  pub outcome_type : OutcomeType
  pub job_id : Option Text

abbrev pub outcome : OutcomeType → Text → HandlerOutcome
outcome t job_id = record { outcome_type = t; job_id = some job_id }
