-- ===== src/Weekly/Workflow.antt =====
-- `WeeklyReportWorkflow` of app/reports/workflow.py. The graph is run by LangGraph, which is a
-- parameter: it calls the nodes along the edges, and merges what a node returns into the state.
use group_assessment_agent.Base.{
  ℕ, Text, codes, join, strip, or_else, Bool, true, false, Option, none, some, List, [], ◌∷◌, ◌++◌,
  ◌≡◌, if◌then◌else◌,
}
use mathlib.Core.List.{map}
use group_assessment_agent.Exec.{pure, raise, ◌>>=◌, ◌>>◌, catch}
use group_assessment_agent.Messages.{
  Error, unexpected, infrastructure, weekly_report_failed, weekly_update,
}
use group_assessment_agent.World.{
  Action, WeeklyReport, ReportStatus, collecting, synthesising, queued, sent, completed, failed,
  ReportEvidence,
}
use group_assessment_agent.Outside.{Outside, ask, weekly_report}
use group_assessment_agent.Outbox.{enqueue}
use group_assessment_agent.Notifier.{Notifier, alert}
use group_assessment_agent.ReportStore.{
  get, existing, set_status, replace_evidence, source_name, evidence_text, or_text, about_report,
}
use group_assessment_agent.Weekly.Sources.{
  Unavailable, source_unavailable, project_tools_unavailable, no_linked_repository, collect,
}

-- The keys of `ReportState`; `report_id` is set from the start, and `error` is never set.
pub record ReportState : Type 0 where
  pub report_id : Text
  pub evidence : Option (List ReportEvidence)
  pub unavailable : Option (List Unavailable)
  pub report_text : Option Text

-- What a node returns: the keys to replace.
pub record Update : Type 0 where
  pub report_id : Option Text
  pub evidence : Option (List ReportEvidence)
  pub unavailable : Option (List Unavailable)
  pub report_text : Option Text

abbrev pub get_or : {A : Type 0} → Option A → A → A
get_or none default = default
get_or (some a) default = a

unfoldable pub merge : ReportState → Update → ReportState
merge s u = record {
  report_id = get_or u.report_id s.report_id;
  evidence = or_else u.evidence s.evidence;
  unavailable = or_else u.unavailable s.unavailable;
  report_text = or_else u.report_text s.report_text;
}

abbrev pub Node : Type 0
Node = ReportState → Action Update

-- `StateGraph` with edges from START through the nodes to END, compiled: one node after the other,
-- each on the merged state; an exception of a node ends the run.
pub record Engine : Type 0 where
  pub invoke : List Node → ReportState → Action ReportState
  pub invoke_end : (s : ReportState) → invoke [] s ≡ pure s
  pub invoke_node :
      (n : Node) (ns : List Node) (s : ReportState)
      → invoke (n ∷ ns) s ≡ (n s >>= λ u. invoke ns (merge s u))

abbrev pub whole : ReportState → Update
whole s = record {
  report_id = some s.report_id;
  evidence = s.evidence;
  unavailable = s.unavailable;
  report_text = s.report_text;
}

abbrev pub parsed_date : Option ℕ → Action ℕ
parsed_date none = raise unexpected
parsed_date (some d) = pure d

unfoldable pub is_finished : ReportStatus → Bool
is_finished completed = true
is_finished queued = true
is_finished sent = true
is_finished _ = false

module _ (out : Outside) where
  abbrev pub unavailable_line : Unavailable → Text
  unavailable_line (source_unavailable s e) =
      codes "- " ++ (source_name s ++ (codes " (" ++ (out.error_text e ++ codes ")")))
  unavailable_line (project_tools_unavailable e) =
      codes "- GitHub/Trello (" ++ (out.error_text e ++ codes ")")
  unavailable_line no_linked_repository = codes "- GitHub/Trello (no linked repository)"

  unfoldable pub report_prompt : WeeklyReport → List ReportEvidence → List Unavailable → Text
  unfolding evidence_text or_text
  report_prompt r items unavailable =
      about_report r
      ++ (codes "\nEvidence:\n"
          ++ (or_text (evidence_text items) (codes "(No source evidence was returned.)")
              ++ (codes "\n\nUnavailable sources:\n"
                  ++ or_text (join (codes "\n") (map unavailable_line unavailable))
                      (codes "- None"))))

  unfoldable pub load : Node
  unfolding ◌>>=◌
  load s = do
    found ← get s.report_id
    report ← existing found
    set_status report.report_id collecting none none
    pure (record {
      report_id = some report.report_id;
      evidence = some [];
      unavailable = some [];
      report_text = none;
    })

  unfoldable pub collect_sources : Node
  unfolding ◌>>=◌
  collect_sources s = do
    found ← get s.report_id
    report ← existing found
    token ← ask (λ c. out.login c report.backend_user_id)
    start ← parsed_date (out.parse_iso_date report.period_start)
    end_date ← parsed_date (out.parse_iso_date report.period_end)
    collected ←
        collect out token (record { id = report.group_id; name = report.group_name }) start end_date
    pure (record {
      report_id = none;
      evidence = some collected.evidence;
      unavailable = some collected.unavailable;
      report_text = none;
    })

  unfoldable pub persist : Node
  unfolding ◌>>=◌
  persist s = do
    replace_evidence s.report_id (get_or s.evidence [])
    set_status s.report_id synthesising none none
    pure (whole s)

  unfoldable pub synthesise : Node
  unfolding ◌>>=◌
  synthesise s = do
    found ← get s.report_id
    report ← existing found
    text ← ask (λ c.
        out.write c weekly_report
          (report_prompt report (get_or s.evidence []) (get_or s.unavailable [])))
    pure (record {
      report_id = none;
      evidence = none;
      unavailable = none;
      report_text = some (strip text);
    })

  unfoldable pub enqueue_report : Node
  unfolding ◌>>=◌
  enqueue_report s = do
    found ← get s.report_id
    report ← existing found
    let text = get_or s.report_text []
    set_status report.report_id queued (some text) none
    enqueue report.owner_email
        (weekly_update report.report_id report.group_name report.period_start report.period_end
          text)
        (some report.report_id) [] none none
    pure (whole s)

  abbrev pub graph : List Node
  graph = load ∷ collect_sources ∷ persist ∷ synthesise ∷ enqueue_report ∷ []

  abbrev pub fresh : Text → ReportState
  fresh report_id = record {
    report_id = report_id;
    evidence = none;
    unavailable = none;
    report_text = none;
  }

  module _ (engine : Engine) (n : Notifier) where
    unfoldable pub fail : Text → Error → Action (Unit {0})
    unfolding ◌>>=◌
    fail report_id e = do
      set_status report_id failed none (some e)
      alert n infrastructure (weekly_report_failed report_id e)
      pure tt

    abbrev pub generate : Text → Action (Unit {0})
    generate report_id = engine.invoke graph (fresh report_id) >> pure tt

    unfoldable pub run_found : Text → Option WeeklyReport → Action (Unit {0})
    unfolding ◌>>=◌ is_finished
    run_found report_id none = raise unexpected
    run_found report_id (some r) =
        if is_finished r.status then pure tt else catch (generate report_id) (fail report_id)

    unfoldable pub run : Text → Action (Unit {0})
    unfolding ◌>>=◌ run_found
    run report_id = do found ← get report_id; run_found report_id found
