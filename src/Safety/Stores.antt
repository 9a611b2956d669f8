-- ===== src/Safety/Stores.antt =====
-- The actions of the other stores, and the questions to the outside, leave the jobs alone.
use group_assessment_agent.Base.{ℕ, Text, refl, Option, none, some, List, [], ◌∷◌, arith}
use group_assessment_agent.Exec.{Result}
use group_assessment_agent.Exec.Steps.{Steps}
use group_assessment_agent.Jobs.{FilePath, Stage}
use group_assessment_agent.Messages.{Mail, Error, AdminCategory, Summary, Question}
use group_assessment_agent.World.{AuthReason, Outcome, Handling}
use group_assessment_agent.Outside.{ask}
use group_assessment_agent.JobStore.{
  get_owned, get_by_response_message_id, get_by_last_response_message_id, list_queued,
}
use group_assessment_agent.JobStore.Evolution.{Evolves, quiet, evolution_rules}
use group_assessment_agent.ProcessedStore.{begin, finalize}
use group_assessment_agent.Outbox.{enqueue, list_pending, mark_sent, mark_failed}
use group_assessment_agent.Clarifications
use group_assessment_agent.FileStore.{save_incoming, move_to, path_exists, read_bytes}
use group_assessment_agent.Notifier.{Notifier, should_send, record_sent, alert}
use group_assessment_agent.ReportStore

pub ask-Evolves : {A : Type 0} (f : ℕ → Result Error A) → Steps Evolves (ask f)
unfolding ask
ask-Evolves f = quiet (λ w. refl)

pub enqueue-Evolves :
    (to : Text) (mail : Mail) (job_id : Option Text) (files : List FilePath) (r s : Option Text)
    → Steps Evolves (enqueue to mail job_id files r s)
unfolding enqueue
enqueue-Evolves to mail job_id files r s = quiet (λ w. refl)

pub list_pending-Evolves : Steps Evolves list_pending
unfolding list_pending
list_pending-Evolves = search evolution_rules

pub mark_sent-Evolves : (id : ℕ) (message_id : Text) → Steps Evolves (mark_sent id message_id)
unfolding mark_sent
mark_sent-Evolves id message_id = quiet (λ w. ground arith)

pub mark_failed-Evolves : (id : ℕ) (e : Error) → Steps Evolves (mark_failed id e)
unfolding mark_failed
mark_failed-Evolves id e = quiet (λ w. refl)

pub begin-Evolves :
    (message_id sender : Text) (auth : AuthReason) → Steps Evolves (begin message_id sender auth)
unfolding begin
begin-Evolves message_id sender auth = quiet (λ w. ground arith)

pub finalize-Evolves :
    (message_id : Text) (outcome : Outcome) (job_id : Option Text) (operation : Option Handling)
    → Steps Evolves (finalize message_id outcome job_id operation)
unfolding finalize
finalize-Evolves message_id outcome job_id operation = quiet (λ w. refl)

pub put-Evolves :
    (job_id : Text) (q : Question) (options : List Text)
    → Steps Evolves (Clarifications.put job_id q options)
unfolding Clarifications.put
put-Evolves job_id q options = quiet (λ w. refl)

pub pending-Evolves : (job_id : Text) → Steps Evolves (Clarifications.get job_id)
unfolding Clarifications.get
pending-Evolves job_id = search evolution_rules

pub delete-Evolves : (job_id : Text) → Steps Evolves (Clarifications.delete job_id)
unfolding Clarifications.delete
delete-Evolves job_id = quiet (λ w. refl)

pub save_incoming-Evolves :
    (safe : Text → Text) (unique : Text) (content : List ℕ) (original : Text)
    → Steps Evolves (save_incoming safe unique content original)
unfolding save_incoming
save_incoming-Evolves safe unique content original = quiet (λ w. refl)

pub move_to-Evolves : (path : FilePath) (target : Stage) → Steps Evolves (move_to path target)
unfolding move_to
move_to-Evolves path target = quiet (λ w. ground arith)

pub path_exists-Evolves : (path : FilePath) → Steps Evolves (path_exists path)
unfolding path_exists
path_exists-Evolves path = search evolution_rules

pub read_bytes-Evolves : (path : FilePath) → Steps Evolves (read_bytes path)
unfolding read_bytes
read_bytes-Evolves path = quiet (λ w. ground arith)

record_sent-Evolves : (c : AdminCategory) → Steps Evolves (record_sent c)
unfolding record_sent
record_sent-Evolves c = quiet (λ w. refl)

should_send-Evolves : (n : Notifier) (c : AdminCategory) → Steps Evolves (should_send n c)
unfolding should_send
should_send-Evolves n c = search evolution_rules

pub get_owned-Evolves : (job_id sender : Text) → Steps Evolves (get_owned job_id sender)
unfolding get_owned
get_owned-Evolves job_id sender = search evolution_rules

pub list_queued-Evolves : Steps Evolves list_queued
unfolding list_queued
list_queued-Evolves = search evolution_rules

pub by_response-Evolves :
    (message_id sender : Text) → Steps Evolves (get_by_response_message_id message_id sender)
unfolding get_by_response_message_id
by_response-Evolves message_id sender = search evolution_rules

pub by_last_response-Evolves :
    (message_id sender : Text) → Steps Evolves (get_by_last_response_message_id message_id sender)
unfolding get_by_last_response_message_id
by_last_response-Evolves message_id sender = search evolution_rules

pub report-Evolves : (report_id : Text) → Steps Evolves (ReportStore.get report_id)
unfolding ReportStore.get
report-Evolves report_id = search evolution_rules

pub evidence-Evolves : (report_id : Text) → Steps Evolves (ReportStore.evidence report_id)
unfolding ReportStore.evidence
evidence-Evolves report_id = search evolution_rules

pub linked_report-Evolves :
    (message_id sender : Text) → Steps Evolves (ReportStore.get_by_message_id message_id sender)
unfolding ReportStore.get_by_message_id
linked_report-Evolves message_id sender = search evolution_rules

pub ruleset store_rules = (
  evolution_rules, ask-Evolves, enqueue-Evolves, list_pending-Evolves, mark_sent-Evolves,
  mark_failed-Evolves, begin-Evolves, finalize-Evolves, put-Evolves, pending-Evolves,
  delete-Evolves, save_incoming-Evolves, move_to-Evolves, path_exists-Evolves, read_bytes-Evolves,
  get_owned-Evolves, list_queued-Evolves, by_response-Evolves, by_last_response-Evolves,
  report-Evolves, linked_report-Evolves, evidence-Evolves,
)

alert_to-Evolves :
    (to : Option Text) (n : Notifier) (c : AdminCategory) (s : Summary)
    → Steps Evolves (alert (record n { admin_email = to }) c s)
unfolding alert
alert_to-Evolves none n c s = search store_rules
alert_to-Evolves (some []) n c s = search store_rules
alert_to-Evolves (some (x ∷ xs)) n c s =
    search (store_rules, should_send-Evolves, record_sent-Evolves) depth 9

pub alert-Evolves : (n : Notifier) (c : AdminCategory) (s : Summary) → Steps Evolves (alert n c s)
alert-Evolves n c s = alert_to-Evolves n.admin_email n c s
