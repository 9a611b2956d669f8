-- ===== src/ProcessedStore.antt =====
-- `ProcessedMessageStore` of app/jobs/store.py: which inbound messages were begun and finished.
pub mod Attempts
use group_assessment_agent.Base.{
  ℕ, ◌+◌, Text, ◌==◌, Bool, true, false, ◌&&◌, Option, none, some, [], ◌∷◌, ◌++◌, find,
  update_where, ltb, if◌then◌else◌,
}
use group_assessment_agent.Exec.{ok, gets}
use group_assessment_agent.World.{
  World, Action, AuthReason, Outcome, in_progress, Handling, ProcessedMessage,
}

abbrev pub max_processing_attempts : ℕ
max_processing_attempts = 3

abbrev pub has_message_id : Text → ProcessedMessage → Bool
has_message_id message_id r = r.message_id == message_id

abbrev pub is_in_progress : Outcome → Bool
is_in_progress in_progress = true
is_in_progress _ = false

unfoldable pub begun : Text → Text → AuthReason → ℕ → ProcessedMessage
begun message_id sender auth now = record {
  message_id = message_id;
  received_at = now;
  sender_email = sender;
  auth_result = auth;
  operation = none;
  job_id = none;
  outcome = in_progress;
  attempt_count = 1;
  processed_at = none;
}

-- A retry is granted to a message that is in progress and has attempts left.
unfoldable pub may_retry : ProcessedMessage → Bool
may_retry r = is_in_progress r.outcome && ltb r.attempt_count max_processing_attempts

abbrev pub count_attempt : ProcessedMessage → ProcessedMessage
count_attempt r = record r { attempt_count = r.attempt_count + 1 }

unfoldable pub begin : Text → Text → AuthReason → Action Bool
unfolding begun may_retry
begin message_id sender auth w = elim (find (has_message_id message_id) w.processed) [
  | none ↦
      (ok true, record w { processed = w.processed ++ (begun message_id sender auth w.now ∷ []) })
  | some r ↦
      if may_retry r
      then (
        ok true,
        record w { processed = update_where (has_message_id message_id) count_attempt w.processed },
      )
      else (ok false, w)
]

unfoldable pub finish :
    Outcome → Option Text → Option Handling → ℕ → ProcessedMessage → ProcessedMessage
finish outcome job_id operation now r = record r {
  outcome = outcome;
  job_id = job_id;
  operation = operation;
  processed_at = some now;
}

unfoldable pub finalize : Text → Outcome → Option Text → Option Handling → Action (Unit {0})
unfolding finish
finalize message_id outcome job_id operation w = (
  ok tt,
  record w {
    processed =
        update_where (has_message_id message_id) (finish outcome job_id operation w.now)
          w.processed;
  },
)

abbrev outcome_of : Option ProcessedMessage → Option Outcome
outcome_of none = none
outcome_of (some r) = some r.outcome

unfoldable pub get_outcome : Text → Action (Option Outcome)
unfolding gets
get_outcome message_id = gets (λ w. outcome_of (find (has_message_id message_id) w.processed))
