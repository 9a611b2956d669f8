-- ===== src/Weekly/Keeping.antt =====
-- The weekly updates keep every report.
use group_assessment_agent.Exec.{ok}
use group_assessment_agent.Outside.{ask}
use group_assessment_agent.ReportStore.Keeping.{ReportsKept, Kept-IsPreorder, set_status-Kept}
use group_assessment_agent.ReportStore.Actions.{
  ask-Kept, get-Kept, replace_evidence-Kept, enqueue-Kept, alert-Kept, create_or_get-Kept,
  read_bytes-Kept, record_delivery-Kept, mark_sent-Kept, mark_failed-Kept, list_pending-Kept,
}
use group_assessment_agent.Weekly.Frame.{Frame}

pub reports_frame : Frame ReportsKept
unfolding ask
reports_frame = record {
  preorder = Kept-IsPreorder;
  asked = λ w. (ask-Kept (λ _. ok tt)).at w;
  on_get = get-Kept;
  on_set_status = set_status-Kept;
  on_replace = replace_evidence-Kept;
  on_enqueue = enqueue-Kept;
  on_alert = alert-Kept;
  on_create = create_or_get-Kept;
  on_pending = list_pending-Kept;
  on_read = read_bytes-Kept;
  on_delivery = record_delivery-Kept;
  on_sent = mark_sent-Kept;
  on_failed = mark_failed-Kept;
}
