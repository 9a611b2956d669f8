-- ===== src/ReportStore/Actions.antt =====
-- The actions on the tables keep every report.
use group_assessment_agent.Base.{ℕ, Text, ◌≡◌, refl, Option, none, some, List, [], ◌∷◌, ◌++◌, arith}
use group_assessment_agent.Exec.{Result}
use group_assessment_agent.Exec.Steps.{Steps, IsPreorder, steps_rules}
use group_assessment_agent.Jobs.{FilePath}
use group_assessment_agent.Messages.{Error, Mail, AdminCategory, Summary}
use group_assessment_agent.World.{World, WeeklyReport, ReportEvidence, OutboxMessage}
use group_assessment_agent.Outside.{ask}
use group_assessment_agent.Outbox.{enqueue, list_pending, mark_sent, mark_failed}
use group_assessment_agent.FileStore.{read_bytes}
use group_assessment_agent.Notifier.{Notifier, should_send, record_sent, alert}
use group_assessment_agent.Pipeline.Flush.{record_delivery}
use group_assessment_agent.ReportStore.Keeping.{
  ReportsKept, Kept-IsPreorder, still, set_status-Kept, insert_report-Kept,
}
use group_assessment_agent.ReportStore.{
  insert_evidence, delete_evidence, replace_evidence, get, get_by_period, existing, create_or_get,
}

pub ask-Kept : {A : Type 0} (f : ℕ → Result Error A) → Steps ReportsKept (ask f)
unfolding ask
ask-Kept f = still (λ w. refl)

pub enqueue-Kept :
    (to : Text) (mail : Mail) (job_id : Option Text) (files : List FilePath) (r s : Option Text)
    → Steps ReportsKept (enqueue to mail job_id files r s)
unfolding enqueue
enqueue-Kept to mail job_id files r s = still (λ w. refl)

pub mark_sent-Kept : (id : ℕ) (message_id : Text) → Steps ReportsKept (mark_sent id message_id)
unfolding mark_sent
mark_sent-Kept id message_id = still (λ w. ground arith)

pub mark_failed-Kept : (id : ℕ) (e : Error) → Steps ReportsKept (mark_failed id e)
unfolding mark_failed
mark_failed-Kept id e = still (λ w. refl)

pub read_bytes-Kept : (path : FilePath) → Steps ReportsKept (read_bytes path)
unfolding read_bytes
read_bytes-Kept path = still (λ w. ground arith)

pub record_delivery-Kept : (m : OutboxMessage) → Steps ReportsKept (record_delivery m)
unfolding record_delivery
record_delivery-Kept m = still (λ w. refl)

pub record_sent-Kept : (c : AdminCategory) → Steps ReportsKept (record_sent c)
unfolding record_sent
record_sent-Kept c = still (λ w. refl)

pub delete_evidence-Kept : (id : Text) → Steps ReportsKept (delete_evidence id)
unfolding delete_evidence
delete_evidence-Kept id = still (λ w. refl)

inserted :
    (id : Text) (l : List ReportEvidence) (w : World)
    → (insert_evidence id l w).1.reports ≡ w.reports
unfolding insert_evidence
inserted id [] w = refl
inserted id (e ∷ l) w =
    let row = record e { report_id = id } in
    ground (arith, inserted id l (record w { evidence = w.evidence ++ (row ∷ []) }))

pub insert_evidence-Kept :
    (id : Text) (l : List ReportEvidence) → Steps ReportsKept (insert_evidence id l)
insert_evidence-Kept id l = still (inserted id l)

pub ruleset base_rules = (
  steps_rules, Kept-IsPreorder, set_status-Kept, insert_report-Kept, ask-Kept, enqueue-Kept,
  mark_sent-Kept, mark_failed-Kept, read_bytes-Kept, record_delivery-Kept, record_sent-Kept,
  delete_evidence-Kept, insert_evidence-Kept,
)

pub replace_evidence-Kept :
    (id : Text) (l : List ReportEvidence) → Steps ReportsKept (replace_evidence id l)
unfolding replace_evidence
replace_evidence-Kept id l = search base_rules

pub existing-Kept : (o : Option WeeklyReport) → Steps ReportsKept (existing o)
existing-Kept none = search base_rules
existing-Kept (some r) = search base_rules

pub get-Kept : (id : Text) → Steps ReportsKept (get id)
unfolding get
get-Kept id = search base_rules

pub list_pending-Kept : Steps ReportsKept list_pending
unfolding list_pending
list_pending-Kept = search base_rules

get_by_period-Kept :
    (group : ℕ) (start end_date : Text) → Steps ReportsKept (get_by_period group start end_date)
unfolding get_by_period
get_by_period-Kept group start end_date = search base_rules

pub create_or_get-Kept :
    (group : ℕ) (name owner : Text) (user : ℕ) (start end_date : Text)
    → Steps ReportsKept (create_or_get group name owner user start end_date)
unfolding create_or_get
create_or_get-Kept group name owner user start end_date =
    search (base_rules, get_by_period-Kept, existing-Kept)

should_send-Kept : (n : Notifier) (c : AdminCategory) → Steps ReportsKept (should_send n c)
unfolding should_send
should_send-Kept n c = search base_rules

alert_to-Kept :
    (to : Option Text) (n : Notifier) (c : AdminCategory) (s : Summary)
    → Steps ReportsKept (alert (record n { admin_email = to }) c s)
unfolding alert
alert_to-Kept none n c s = search base_rules
alert_to-Kept (some []) n c s = search base_rules
alert_to-Kept (some (x ∷ xs)) n c s = search (base_rules, should_send-Kept) depth 9

pub alert-Kept : (n : Notifier) (c : AdminCategory) (s : Summary) → Steps ReportsKept (alert n c s)
alert-Kept n c s = alert_to-Kept n.admin_email n c s

pub ruleset kept_rules =
    (base_rules, replace_evidence-Kept, existing-Kept, get-Kept, create_or_get-Kept, alert-Kept)
