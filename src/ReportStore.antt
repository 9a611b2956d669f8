-- ===== src/ReportStore.antt =====
-- `ReportStore` of app/reports/store.py over the tables of the weekly reports, and the reply service
-- of app/reports/reply.py.
pub mod Keeping
pub mod Actions
use group_assessment_agent.Base.{
  ℕ, Text, codes, lower, pad4, ◌==◌, nat_eq, Bool, ◌&&◌, not, Option, none, some, List, [], ◌∷◌,
  ◌++◌, find, select, exists, update_where, latest_by, or_else, is_some, order_by, join, strip,
  if◌then◌else◌,
}
use group_assessment_agent.Exec.{ok, raised, pure, raise, gets, ◌>>=◌, ◌>>◌}
use group_assessment_agent.Messages
use group_assessment_agent.Messages.{Error, unexpected, integrity_error}
use group_assessment_agent.World.{
  Action, WeeklyReport, ReportStatus, received, completed, failed, Source, github, meetings, trello,
  ReportEvidence, MessageLink,
}
use group_assessment_agent.Mailbox.{EmailMessage}
use mathlib.Core.List.{map}
use group_assessment_agent.Outside.{Outside, ask, report_answer}
use group_assessment_agent.Outbox.{enqueue}

abbrev pub has_id : Text → WeeklyReport → Bool
has_id report_id r = r.report_id == report_id

unfoldable pub in_period : ℕ → Text → Text → WeeklyReport → Bool
in_period group start end_date r =
    nat_eq r.group_id group && r.period_start == start && r.period_end == end_date

unfoldable pub report_id_of : Text → ℕ → Text
report_id_of start group = codes "WEEKLY-" ++ (start ++ (codes "-" ++ pad4 group))

abbrev pub existing : Option WeeklyReport → Action WeeklyReport
existing none = raise unexpected
existing (some r) = pure r

unfoldable pub get_by_period : ℕ → Text → Text → Action (Option WeeklyReport)
unfolding gets in_period
get_by_period group start end_date = gets (λ w. find (in_period group start end_date) w.reports)

-- The INSERT does nothing when the period of the group has a report, and raises when only the
-- report's id is taken.
unfoldable pub insert_report : WeeklyReport → Action (Unit {0})
unfolding in_period
insert_report r w =
    if exists (in_period r.group_id r.period_start r.period_end) w.reports
    then (ok tt, w)
    else if exists (has_id r.report_id) w.reports
    then (raised integrity_error, w)
    else (ok tt, record w { reports = w.reports ++ (r ∷ []) })

unfoldable pub create_or_get : ℕ → Text → Text → ℕ → Text → Text → Action WeeklyReport
unfolding ◌>>=◌
create_or_get group group_name owner user start end_date = do
  now ← gets (λ w. w.now)
  insert_report (record {
    report_id = report_id_of start group;
    group_id = group;
    group_name = group_name;
    owner_email = owner;
    backend_user_id = user;
    period_start = start;
    period_end = end_date;
    status = received;
    report_text = none;
    last_error = none;
    created_at = now;
    completed_at = none;
  })
  report ← get_by_period group start end_date
  existing report

unfoldable pub get : Text → Action (Option WeeklyReport)
unfolding gets
get report_id = gets (λ w. find (has_id report_id) w.reports)

unfoldable pub report_owned_by : Text → Option WeeklyReport → Option WeeklyReport
report_owned_by recipient none = none
report_owned_by recipient (some r) = if lower r.owner_email == lower recipient then some r else none

-- One row of the join: the report that a link names, if the recipient owns it.
unfoldable pub linked_report : Text → List WeeklyReport → MessageLink → Option WeeklyReport
unfolding report_owned_by
linked_report recipient reports l = elim l.job_id [
  | none ↦ none
  | some id ↦ report_owned_by recipient (find (has_id id) reports)
]

abbrev pub joined : Text → List WeeklyReport → Option MessageLink → Option WeeklyReport
joined recipient reports none = none
joined recipient reports (some l) = linked_report recipient reports l

unfoldable pub get_by_message_id : Text → Text → Action (Option WeeklyReport)
unfolding gets linked_report
get_by_message_id message_id recipient = gets (λ w. joined recipient w.reports (
    latest_by (λ l. l.created_at)
      (select (λ l. l.message_id == message_id && is_some (linked_report recipient w.reports l))
        w.links)))

abbrev pub completion_time : ReportStatus → ℕ → Option ℕ
completion_time completed now = some now
completion_time failed now = some now
completion_time _ now = none

-- COALESCE keeps the text and the time of completion where none is given; the error is replaced.
unfoldable pub enter : ReportStatus → Option Text → Option Error → ℕ → WeeklyReport → WeeklyReport
enter status text e now r = record r {
  status = status;
  report_text = or_else text r.report_text;
  last_error = e;
  completed_at = or_else (completion_time status now) r.completed_at;
}

unfoldable pub set_status : Text → ReportStatus → Option Text → Option Error → Action (Unit {0})
unfolding enter
set_status report_id status text e w = (
  ok tt,
  record w { reports = update_where (has_id report_id) (enter status text e w.now) w.reports },
)

abbrev pub evidence_of : Text → ReportEvidence → Bool
evidence_of report_id e = e.report_id == report_id

-- The place of a source in the alphabetical order of their names.
abbrev pub rank : Source → ℕ
rank github = 0
rank meetings = 1
rank trello = 2

abbrev pub source_name : Source → Text
source_name github = codes "github"
source_name meetings = codes "meetings"
source_name trello = codes "trello"

abbrev pub same_evidence : ReportEvidence → ReportEvidence → Bool
same_evidence e f =
    e.report_id == f.report_id
    && nat_eq (rank e.source) (rank f.source)
    && e.evidence_id == f.evidence_id

-- `executemany`: each row commits on its own, and a row that breaks the UNIQUE constraint raises.
unfoldable pub insert_evidence : Text → List ReportEvidence → Action (Unit {0})
insert_evidence report_id [] w = (ok tt, w)
insert_evidence report_id (item ∷ items) w =
    let e = record item { report_id = report_id } in
    let rest = insert_evidence report_id items (record w { evidence = w.evidence ++ (e ∷ []) }) in
    if exists (same_evidence e) w.evidence then (raised integrity_error, w) else rest

unfoldable pub delete_evidence : Text → Action (Unit {0})
delete_evidence report_id w =
    (ok tt, record w { evidence = select (λ e. not (evidence_of report_id e)) w.evidence })

unfoldable pub replace_evidence : Text → List ReportEvidence → Action (Unit {0})
unfolding ◌>>=◌ insert_evidence delete_evidence
replace_evidence report_id items = do delete_evidence report_id; insert_evidence report_id items

-- Of one source, in the order of insertion.
unfoldable pub evidence : Text → Action (List ReportEvidence)
unfolding gets
evidence report_id =
    gets (λ w. order_by (λ e. rank e.source) (select (evidence_of report_id) w.evidence))

-- The evidence as the prompts quote it.
unfoldable pub evidence_text : List ReportEvidence → Text
evidence_text items = join (codes "\n\n") (
    map
      (λ e.
        codes "Source: "
        ++ (source_name e.source
            ++ (codes "\nCitation: [" ++ (e.citation ++ (codes "]\n" ++ e.content)))))
      items)

unfoldable pub or_text : Text → Text → Text
or_text [] default = default
or_text (c ∷ s) default = c ∷ s

abbrev pub about_report : WeeklyReport → Text
about_report r =
    codes "Project: "
    ++ (r.group_name
        ++ (codes "\nReporting period: "
            ++ (r.period_start ++ (codes " to " ++ (r.period_end ++ codes "\n")))))

unfoldable pub reply_prompt : WeeklyReport → Text → List ReportEvidence → Text
unfolding evidence_text or_text
reply_prompt r question items =
    about_report r
    ++ (codes "User question: "
        ++ (question
            ++ (codes "\n\nPersisted evidence:\n"
                ++ or_text (evidence_text items) (codes "(No evidence was persisted.)"))))

module _ (out : Outside) where
  abbrev pub reply_about : EmailMessage → Text → Text → Option WeeklyReport → Action (Unit {0})
  reply_about msg references report_id none = raise unexpected
  reply_about msg references report_id (some r) = do
    items ← evidence report_id
    answer ← ask (λ c. out.write c report_answer (reply_prompt r msg.body_text items))
    enqueue msg.from_address (Messages.report_answer r.report_id (strip answer)) (some r.report_id)
        [] (some msg.message_id) (some references)
    pure tt

  -- `WeeklyReportReplyService.reply`.
  unfoldable pub reply : EmailMessage → Text → Text → Action (Unit {0})
  unfolding ◌>>=◌
  reply msg references report_id = do
    report ← get report_id
    reply_about msg references report_id report
