-- ===== src/Tests/Weekly.antt =====
-- The theorems on the weekly updates at concrete states.
use group_assessment_agent.Base.{
  ℕ, Text, Option, if◌then◌else◌, ◌==◌, ◌≡◌, refl, some, none, List, [], ◌∷◌, codes, ◌⊎◌, strip,
}
use group_assessment_agent.Exec.{pure, ◌>>=◌, ok, catch, attempt}
use group_assessment_agent.World.{
  World, Action, WeeklyReport, received, queued, OutboxMessage, pending,
}
use group_assessment_agent.Messages.{weekly_update}
use group_assessment_agent.ReportStore
use group_assessment_agent.ReportStore.Keeping.{ReportsKept}
use group_assessment_agent.Weekly.Workflow.{Engine, Node, ReportState, merge}
use group_assessment_agent.Weekly.Workflow
use group_assessment_agent.Weekly.Run
use group_assessment_agent.Weekly.Sources
use group_assessment_agent.Weekly.Queueing.{Queued}
use group_assessment_agent.Weekly.Settling.{Failed, run_settles}
use group_assessment_agent.Weekly.Sending.{Sent, FromReport, flush_sends_reports}
use group_assessment_agent.Weekly.Stored.{StoredInPeriod}
use group_assessment_agent.Weekly.Dated.{run-StoredInPeriod}
use group_assessment_agent.Outside.{Outside, ask}
use group_assessment_agent.Outbox.{enqueue}
use group_assessment_agent.Tests.{ann, start, outside, notifier}

-- An engine that runs the nodes one after the other.
abbrev sequence : List Node → ReportState → Action ReportState
sequence [] s = pure s
sequence (n ∷ ns) s = n s >>= λ u. sequence ns (merge s u)

abbrev engine : Engine
engine = record { invoke = sequence; invoke_end = λ s. refl; invoke_node = λ n ns s. refl }

abbrev new_report : WeeklyReport
new_report = record {
  report_id = codes "WEEKLY-2026-01-05-0003";
  group_id = 3;
  group_name = codes "Blue";
  owner_email = ann;
  backend_user_id = 7;
  period_start = codes "2026-01-05";
  period_end = codes "2026-01-12";
  status = received;
  report_text = none;
  last_error = none;
  created_at = 5;
  completed_at = none;
}

abbrev with_report : World
with_report = record start { reports = new_report ∷ [] }

run_settles_example :
    let after = Workflow.run outside engine notifier new_report.report_id with_report in
    (after.0 ≡ ok tt)
    × ((Queued new_report.report_id after.1
          × (Workflow.run outside engine notifier new_report.report_id after.1 ≡ (ok tt, after.1)))
        ⊎ Failed new_report.report_id after.1)
    × ReportsKept with_report after.1
unfolding ◌==◌ Workflow.is_finished
run_settles_example =
    run_settles outside engine notifier new_report.report_id with_report new_report refl refl

-- The transcript backend answers with one excerpt.
abbrev with_excerpt : Outside
with_excerpt = record outside {
  search_transcripts = λ c token group query. ok (
      record {
        chunk_id = codes "c1";
        meeting_id = codes "9";
        meeting_title = codes "Standup";
        meeting_date = codes "2026-01-06T10:00";
        speaker = codes "Ann";
        text = codes "We are done.";
        start_ts = codes "00:01";
        end_ts = codes "00:02";
      }
      ∷ []);
}

abbrev day_of : Text → Option ℕ
unfolding ◌==◌
day_of s =
    if s == codes "2026-01-05" then some 4 else if s == codes "2026-01-12" then some 11 else some 5

abbrev dated_outside : Outside
dated_outside = record with_excerpt { parse_iso_date = day_of }

abbrev after_run : World
after_run = (Workflow.run dated_outside engine notifier new_report.report_id with_report).1

after_run-Queued : Queued new_report.report_id after_run
unfolding Workflow.run ReportStore.get ◌==◌ catch Workflow.load ReportStore.set_status
    Workflow.collect_sources merge ask Sources.collect attempt Workflow.persist
    ReportStore.replace_evidence Workflow.synthesise Workflow.enqueue_report enqueue strip
after_run-Queued = record {
  row = record new_report { status = queued; report_text = some (codes "answer") };
  found = refl;
  is_queued = refl;
  text = codes "answer";
  stored = refl;
  earlier = [];
  mail = record {
    id = 1;
    job_id = some new_report.report_id;
    to_email = ann;
    mail =
        weekly_update new_report.report_id (codes "Blue") new_report.period_start
          new_report.period_end (codes "answer");
    attachments = [];
    in_reply_to_message_id = none;
    references_header = none;
    status = pending;
    attempts = 0;
    last_error = none;
    created_at = 10;
    sent_at = none;
  };
  last = refl;
  waiting = refl;
  to_owner = refl;
  about = refl;
  content = refl;
}

run-StoredInPeriod_example : StoredInPeriod dated_outside 4 11 new_report.report_id after_run
unfolding ◌==◌ Workflow.is_finished
run-StoredInPeriod_example =
    run-StoredInPeriod dated_outside engine notifier 4 11 new_report.report_id with_report
      new_report refl refl refl refl after_run-Queued

abbrev report_mail : OutboxMessage
report_mail = record {
  id = 1;
  job_id = some new_report.report_id;
  to_email = ann;
  mail = weekly_update new_report.report_id (codes "Blue") [] [] (codes "All well.");
  attachments = [];
  in_reply_to_message_id = none;
  references_header = none;
  status = pending;
  attempts = 0;
  last_error = none;
  created_at = 5;
  sent_at = none;
}

abbrev with_mail : World
with_mail = record with_report { outbox = report_mail ∷ []; outbox_sequence = 1 }

flush_sends_reports_example :
    Sent (FromReport with_mail) [] (Run.flush_reports outside with_mail).1.deliveries
flush_sends_reports_example = flush_sends_reports outside with_mail
