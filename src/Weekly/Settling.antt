-- ===== src/Weekly/Settling.antt =====
-- How a run of the workflow ends: the report is queued with its mail, or it has failed.
use group_assessment_agent.Base.{
  Text, ◌≡◌, refl, Bool, true, false, Bool-cases, Option, none, some, [], ◌∷◌, find, inl, inr, ◌⊎◌,
}
use group_assessment_agent.Exec.{Result, ok, raised, pure, ◌>>=◌, ◌>>◌, catch}
use group_assessment_agent.Exec.Ensures.{Outcome}
use group_assessment_agent.Messages.{
  Error, weekly_report_failed, AdminCategory, infrastructure, Summary,
}
use group_assessment_agent.World.{World, WeeklyReport, failed}
use group_assessment_agent.Outside.{Outside}
use group_assessment_agent.Notifier.{Notifier, alert, should_send, record_sent, cooled, of_category}
use group_assessment_agent.Outbox.{enqueue}
use group_assessment_agent.ReportStore.{get, set_status, enter}
use group_assessment_agent.ReportStore.Keeping.{report, enter_keeps}
use group_assessment_agent.Weekly.Workflow
use group_assessment_agent.Weekly.Workflow.{Engine, Node, ReportState, Update, merge}
use group_assessment_agent.Weekly.Queueing.{Queued, stored, graph_queues}
use group_assessment_agent.ReportStore.Keeping.{ReportsKept}
use group_assessment_agent.Weekly.Keeping.{reports_frame}
use group_assessment_agent.Weekly.Frame.{graph-Steps, run-Steps}

alert_returns :
    (to : Option Text) (n : Notifier) (c : AdminCategory) (m : Summary) (w : World)
    → let after = alert (record n { admin_email = to }) c m w in
      (b : Bool) × (after.0 ≡ ok b) × (after.1.reports ≡ w.reports)
unfolding alert should_send record_sent enqueue
alert_returns none n c m w = (false, refl, refl)
alert_returns (some []) n c m w = (false, refl, refl)
alert_returns (some (x ∷ xs)) n c m w =
    elim (Bool-cases (cooled n.cooldown w.now (find (of_category c) w.alerts))) [
      | inl due ↦ rw due (true, refl, refl)
      | inr recent ↦ rw recent (false, refl, refl)
    ]

pub record Failed (id : Text) (w : World) : Type 0 where
  pub row : WeeklyReport
  pub found : report w id ≡ some row
  pub is_failed : row.status ≡ failed

module _ (out : Outside) (engine : Engine) (n : Notifier) where
  pub fails :
      (id : Text) (e : Error) (v : World) (r : WeeklyReport)
      → report v id ≡ some r
      → let after = Workflow.fail out engine n id e v in (after.0 ≡ ok tt) × Failed id after.1
  unfolding Workflow.fail set_status
  fails id e v r found =
      let (b, returns, kept) =
        alert_returns n.admin_email n infrastructure (weekly_report_failed id e)
          (set_status id failed none (some e) v).1 in
      (
        rw returns refl,
        record {
          row = enter failed none (some e) v.now r;
          found = rw (returns, kept) (stored id id failed none (some e) v r refl found);
          is_failed = (enter_keeps failed none (some e) v.now r).1;
        },
      )

  -- The rest of `run` after the graph, by what the graph did.
  ends :
      (id : Text) (w : World) (r : WeeklyReport) (o : Result Error ReportState × World)
      → report w id ≡ some r
      → ReportsKept w o.1
      → Outcome (λ _ v. Queued id v) o.0 o.1
      → let after = catch ((λ (_ : World). o) >> pure tt) (Workflow.fail out engine n id) w in
        (after.0 ≡ ok tt) × (Queued id after.1 ⊎ Failed id after.1)
  unfolding catch ◌>>=◌
  ends id w r (ok s, v) found kept q = (refl, inl q)
  ends id w r (raised e, v) found kept q =
      let (s, found', same) = kept.at id r found in
      let (returns, over) = fails id e v s found' in (returns, inr over)

  -- A queued report is left alone.
  rerun : (id : Text) (w : World) → Queued id w → Workflow.run out engine n id w ≡ (ok tt, w)
  unfolding Workflow.run get Workflow.is_finished
  rerun id w q = rw (q.found, q.is_queued) refl

  pub run_opened :
      (id : Text) (w : World) (r : WeeklyReport)
      → report w id ≡ some r
      → Workflow.is_finished r.status ≡ false
      → Workflow.run out engine n id w
        ≡ catch (Workflow.generate out engine n id) (Workflow.fail out engine n id) w
  run_opened id w r found unfinished = unfold Workflow.run get in rw (found, unfinished) refl

  -- A run for a report that is known and not yet queued, sent or completed returns, whatever the
  -- services answer: the report is then queued, with its text stored and one mail to its owner that
  -- carries this text last in the outbox, or it has failed. No report goes away, and what the reports
  -- are about stays. A second run of a queued report does nothing.
  pub run_settles :
      (id : Text) (w : World) (r : WeeklyReport)
      → report w id ≡ some r
      → Workflow.is_finished r.status ≡ false
      → let after = Workflow.run out engine n id w in
        (after.0 ≡ ok tt)
        × ((Queued id after.1 × (Workflow.run out engine n id after.1 ≡ (ok tt, after.1)))
            ⊎ Failed id after.1)
        × ReportsKept w after.1
  unfolding ◌>>=◌ catch
  run_settles id w r found unfinished =
      let (returns, settled) = ended in
      (
        returns,
        elim settled [
          | inl q ↦ inl (q, rerun id (Workflow.run out engine n id w).1 q)
          | inr f ↦ inr f
        ],
        (run-Steps reports_frame out engine n id).at w,
      )
    where
      ended :
          ((Workflow.run out engine n id w).0 ≡ ok tt)
          × (Queued id (Workflow.run out engine n id w).1
              ⊎ Failed id (Workflow.run out engine n id w).1)
      ended = rw (run_opened id w r found unfinished) (
          ends id w r (engine.invoke (Workflow.graph out) (Workflow.fresh out id) w) found
            ((graph-Steps reports_frame out engine (Workflow.fresh out id)).at w)
            ((graph_queues out engine id).at w tt))
