-- ===== src/Weekly/Run.antt =====
-- app/weekly_update.py: the period, the run over the groups of every owner, and the sending of the
-- reports' mails.
use group_assessment_agent.Base.{
  ℕ, ◌+◌, ◌-◌, Text, codes, starts_with, leb, Option, none, some, List, [], ◌∷◌, if◌then◌else◌,
}
use group_assessment_agent.Exec.{pure, raise, ◌>>=◌, ◌>>◌, catch, for_each}
use group_assessment_agent.Messages.{unexpected, weekly_send_failed}
use group_assessment_agent.World.{Action, OutboxMessage, sent}
use group_assessment_agent.Groups.{GroupSummary}
use group_assessment_agent.Outside.{Outside, ask}
use group_assessment_agent.Outbox.{list_pending, mark_sent, mark_failed}
use group_assessment_agent.Notifier.{Notifier}
use group_assessment_agent.ReportStore.{create_or_get, set_status}
use group_assessment_agent.Pipeline.Flush.{read_all, hand_over}
use group_assessment_agent.Weekly.Workflow.{Engine}
use group_assessment_agent.Weekly.Workflow

-- The messages that belong to a weekly report, with its id.
unfoldable pub report_of : Option Text → Option Text
report_of none = none
report_of (some []) = none
report_of (some (c ∷ cs)) = if starts_with (c ∷ cs) (codes "WEEKLY-") then some (c ∷ cs) else none

-- Days are counted from the day before the first that `date` has, where the subtraction raises.
unfoldable pub reporting_period : ℕ → ℕ → Action (ℕ × ℕ)
reporting_period lookback_days today =
    if leb today lookback_days then raise unexpected else pure (today - lookback_days, today)

module _ (out : Outside) where
  unfoldable pub send_report : OutboxMessage → Text → Action (Unit {0})
  unfolding ◌>>=◌
  send_report m report_id = do
    read_all m.attachments
    provider_id ← hand_over out m
    mark_sent m.id provider_id
    set_status report_id sent none none

  abbrev pub send_if_report : OutboxMessage → Option Text → Action (Unit {0})
  send_if_report m none = pure tt
  send_if_report m (some report_id) =
      catch (send_report m report_id) (λ e. mark_failed m.id weekly_send_failed)

  -- `_flush_report_outbox`.
  unfoldable pub flush_reports : Action (Unit {0})
  unfolding ◌>>=◌ report_of
  flush_reports = do
    messages ← list_pending
    for_each messages (λ m. send_if_report m (report_of m.job_id))

  module _ (engine : Engine) (n : Notifier) where
    -- The loop over the groups of one owner, with the number of reports so far.
    unfoldable pub report_groups : Text → ℕ → ℕ → ℕ → ℕ → List GroupSummary → Action ℕ
    unfolding ◌>>=◌
    report_groups owner user start end_date generated [] = pure generated
    report_groups owner user start end_date generated (g ∷ gs) = do
      report ← create_or_get g.id g.name owner user (out.iso_format start) (out.iso_format end_date)
      Workflow.run out engine n report.report_id
      report_groups owner user start end_date (generated + 1) gs

    abbrev pub listed_groups : ℕ → Action (List GroupSummary)
    listed_groups user = do token ← ask (λ c. out.login c user); ask (λ c. out.list_groups c token)

    -- An owner whose groups cannot be listed is passed over, as if there were none.
    unfoldable pub report_owners : ℕ → ℕ → ℕ → List (Text × ℕ) → Action ℕ
    unfolding ◌>>=◌
    report_owners start end_date generated [] = pure generated
    report_owners start end_date generated ((owner, user) ∷ owners) = do
      groups ← catch (listed_groups user) (λ e. pure [])
      total ← report_groups owner user start end_date generated groups
      report_owners start end_date total owners

    unfoldable pub run_once : ℕ → ℕ → List (Text × ℕ) → Action ℕ
    unfolding ◌>>=◌
    run_once lookback_days today [] = pure 0
    run_once lookback_days today (o ∷ os) = do
      period ← reporting_period lookback_days today
      generated ← report_owners period.0 period.1 0 (o ∷ os)
      flush_reports
      pure generated
