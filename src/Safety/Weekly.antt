-- ===== src/Safety/Weekly.antt =====
-- The weekly updates let every job live on.
use group_assessment_agent.Base.{ℕ, ◌≡◌, refl, Text, Option, none, some, List, [], ◌∷◌, ◌++◌, arith}
use group_assessment_agent.Exec.Steps.{Steps}
use group_assessment_agent.World.{World, ReportStatus, ReportEvidence, WeeklyReport, OutboxMessage}
use group_assessment_agent.Messages.{Error}
use group_assessment_agent.JobStore.Evolution.{Evolves, Evolves-IsPreorder, quiet, evolution_rules}
use group_assessment_agent.Exec.{ok}
use group_assessment_agent.Outside.{ask}
use group_assessment_agent.ReportStore.{
  get_by_period, set_status, insert_report, insert_evidence, delete_evidence, replace_evidence,
  create_or_get, existing,
}
use group_assessment_agent.Pipeline.Flush.{record_delivery}
use group_assessment_agent.Safety.Stores.{
  ask-Evolves, enqueue-Evolves, list_pending-Evolves, mark_sent-Evolves, mark_failed-Evolves,
  read_bytes-Evolves, report-Evolves, alert-Evolves,
}
use group_assessment_agent.Weekly.Frame.{Frame}

set_report-Evolves :
    (id : Text) (s : ReportStatus) (text : Option Text) (e : Option Error)
    → Steps Evolves (set_status id s text e)
unfolding set_status
set_report-Evolves id s text e = quiet (λ w. refl)

inserted :
    (id : Text) (l : List ReportEvidence) (w : World) → (insert_evidence id l w).1.jobs ≡ w.jobs
unfolding insert_evidence
inserted id [] w = refl
inserted id (e ∷ l) w =
    let row = record e { report_id = id } in
    ground (arith, inserted id l (record w { evidence = w.evidence ++ (row ∷ []) }))

delete_evidence-Evolves : (id : Text) → Steps Evolves (delete_evidence id)
unfolding delete_evidence
delete_evidence-Evolves id = quiet (λ w. refl)

insert_evidence-Evolves :
    (id : Text) (l : List ReportEvidence) → Steps Evolves (insert_evidence id l)
insert_evidence-Evolves id l = quiet (inserted id l)

replace-Evolves : (id : Text) (l : List ReportEvidence) → Steps Evolves (replace_evidence id l)
unfolding replace_evidence
replace-Evolves id l = search (evolution_rules, delete_evidence-Evolves, insert_evidence-Evolves)

insert_report-Evolves : (r : WeeklyReport) → Steps Evolves (insert_report r)
unfolding insert_report
insert_report-Evolves r = quiet (λ w. ground arith)

by_period-Evolves :
    (group : ℕ) (start end_date : Text) → Steps Evolves (get_by_period group start end_date)
unfolding get_by_period
by_period-Evolves group start end_date = search evolution_rules

existing_report-Evolves : (o : Option WeeklyReport) → Steps Evolves (existing o)
existing_report-Evolves none = search evolution_rules
existing_report-Evolves (some r) = search evolution_rules

create-Evolves :
    (group : ℕ) (name owner : Text) (user : ℕ) (start end_date : Text)
    → Steps Evolves (create_or_get group name owner user start end_date)
unfolding create_or_get
create-Evolves group name owner user start end_date =
    search (evolution_rules, insert_report-Evolves, by_period-Evolves, existing_report-Evolves)

delivery-Evolves : (m : OutboxMessage) → Steps Evolves (record_delivery m)
unfolding record_delivery
delivery-Evolves m = quiet (λ w. refl)

pub jobs_frame : Frame Evolves
unfolding ask
jobs_frame = record {
  preorder = Evolves-IsPreorder;
  asked = λ w. (ask-Evolves (λ _. ok tt)).at w;
  on_get = report-Evolves;
  on_set_status = set_report-Evolves;
  on_replace = replace-Evolves;
  on_enqueue = enqueue-Evolves;
  on_alert = alert-Evolves;
  on_create = create-Evolves;
  on_pending = list_pending-Evolves;
  on_read = read_bytes-Evolves;
  on_delivery = delivery-Evolves;
  on_sent = mark_sent-Evolves;
  on_failed = mark_failed-Evolves;
}
