-- ===== src/Weekly/Dated.antt =====
-- The run of a weekly report, as to the dates of its evidence.
pub mod Stages
use group_assessment_agent.Base.{ℕ, Text, ◌≡◌, false, some, arith}
use group_assessment_agent.Exec.{Result, ok, raised, pure, ◌>>=◌, ◌>>◌, catch}
use group_assessment_agent.Exec.Ensures.{Outcome}
use group_assessment_agent.Messages.{Error}
use group_assessment_agent.World.{World, WeeklyReport}
use group_assessment_agent.Notifier.{Notifier}
use group_assessment_agent.Outside.{Outside}
use group_assessment_agent.ReportStore.Keeping.{ReportsKept, SameReport-refl, report}
use group_assessment_agent.Weekly.Workflow
use group_assessment_agent.Weekly.Workflow.{Engine, ReportState}
use group_assessment_agent.Weekly.Keeping.{reports_frame}
use group_assessment_agent.Weekly.Frame.{graph-Steps}
use group_assessment_agent.Weekly.Queueing.{Queued}
use group_assessment_agent.Weekly.Settling.{Failed, fails, run_opened}
use group_assessment_agent.Weekly.Stored.{StoredInPeriod}
use group_assessment_agent.Weekly.Dated.Stages.{graph_stores}

module _ (out : Outside) (engine : Engine) (n : Notifier) where
  -- A report that is queued has not failed.
  not_both : (id : Text) (w : World) → Queued id w → Failed id w → ⊥
  not_both id w q f = ground (arith, q.found, q.is_queued, f.found, f.is_failed)

  -- By what the graph did.
  ran :
      (start end_date : ℕ) (id : Text) (w : World) (r : WeeklyReport)
      (o : Result Error ReportState × World)
      → report w id ≡ some r
      → ReportsKept w o.1
      → Outcome (λ _ v. StoredInPeriod out start end_date id v) o.0 o.1
      → let after = catch ((λ (_ : World). o) >> pure tt) (Workflow.fail out engine n id) w in
        Queued id after.1 → StoredInPeriod out start end_date id after.1
  unfolding catch ◌>>=◌
  ran start end_date id w r (ok s, v) found kept p q = p
  ran start end_date id w r (raised e, v) found kept p q =
      let (s, found', _) = kept.at id r found in
      let (_, over) = fails out engine n id e v s found' in absurd (not_both id _ q over)

  -- When a run of a report that was not yet queued, sent or completed leaves it queued, all the evidence
  -- stored for it lies in the report's own period: that of a meeting is dated, and its day is one
  -- from the start of the period up to, but not including, its end; the answers of the project tools
  -- carry no date. The two days are those that the texts of the period in the report stand for.
  pub run-StoredInPeriod :
      (start end_date : ℕ) (id : Text) (w : World) (r : WeeklyReport)
      → report w id ≡ some r
      → Workflow.is_finished r.status ≡ false
      → out.parse_iso_date r.period_start ≡ some start
      → out.parse_iso_date r.period_end ≡ some end_date
      → Queued id (Workflow.run out engine n id w).1
      → StoredInPeriod out start end_date id (Workflow.run out engine n id w).1
  unfolding ◌>>=◌ catch
  run-StoredInPeriod start end_date id w r found unfinished starts ends q =
      let opened = run_opened out engine n id w r found unfinished in
      let q' = rw opened at q in
      rw opened (
        ran start end_date id w r (engine.invoke (Workflow.graph out) (Workflow.fresh out id) w)
          found ((graph-Steps reports_frame out engine (Workflow.fresh out id)).at w)
          ((graph_stores out start end_date engine id r starts ends).at w
            (record { row = r; found = found; same = SameReport-refl r }))
          q')
