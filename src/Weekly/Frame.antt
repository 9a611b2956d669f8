-- ===== src/Weekly/Frame.antt =====
-- What the actions on the tables do to the state, the workflow and the run do. `Frame` lists the
-- actions that the weekly updates are made of.
use group_assessment_agent.Base.{ℕ, ◌+◌, Text, Option, none, some, List, [], ◌∷◌, All}
use group_assessment_agent.Exec.{Result, ok, raised, pure, catch}
use group_assessment_agent.Exec.Steps.{
  Steps, IsPreorder, Steps-pure, Steps-raise, Steps-bind, steps_rules,
}
use group_assessment_agent.Jobs.{FilePath}
use group_assessment_agent.Groups.{GroupSummary}
use group_assessment_agent.Messages.{
  Error, Mail, AdminCategory, Summary, diarisation_api_error, github_api_error,
}
use group_assessment_agent.World.{
  World, WeeklyReport, ReportStatus, ReportEvidence, Source, OutboxMessage,
}
use group_assessment_agent.Backend.{RepoSummary}
use group_assessment_agent.Outside.{Outside, ask}
use group_assessment_agent.Outbox.{enqueue, list_pending, mark_sent, mark_failed}
use group_assessment_agent.FileStore.{read_bytes}
use group_assessment_agent.Notifier.{Notifier, alert}
use group_assessment_agent.ReportStore.{get, existing, set_status, replace_evidence, create_or_get}
use group_assessment_agent.Pipeline.Flush.{read_all, record_delivery, hand_over}
use group_assessment_agent.Weekly.Sources
use group_assessment_agent.Weekly.Sources.{SourceCollection}
use group_assessment_agent.Weekly.Workflow
use group_assessment_agent.Weekly.Workflow.{Engine, Node, ReportState, merge}
use group_assessment_agent.Weekly.Run

pub record Frame (R : World → World → Type 0) : Type 0 where
  pub preorder : IsPreorder R
  pub asked : (w : World) → R w (record w { calls = w.calls + 1 })
  pub on_get : (id : Text) → Steps R (get id)
  pub on_set_status :
      (id : Text) (s : ReportStatus) (text : Option Text) (e : Option Error)
      → Steps R (set_status id s text e)
  pub on_replace : (id : Text) (l : List ReportEvidence) → Steps R (replace_evidence id l)
  pub on_enqueue :
      (to : Text) (mail : Mail) (job_id : Option Text) (files : List FilePath) (r s : Option Text)
      → Steps R (enqueue to mail job_id files r s)
  pub on_alert : (n : Notifier) (c : AdminCategory) (s : Summary) → Steps R (alert n c s)
  pub on_create :
      (group : ℕ) (name owner : Text) (user : ℕ) (start end_date : Text)
      → Steps R (create_or_get group name owner user start end_date)
  pub on_pending : Steps R list_pending
  pub on_read : (p : FilePath) → Steps R (read_bytes p)
  pub on_delivery : (m : OutboxMessage) → Steps R (record_delivery m)
  pub on_sent : (id : ℕ) (message_id : Text) → Steps R (mark_sent id message_id)
  pub on_failed : (id : ℕ) (e : Error) → Steps R (mark_failed id e)

module _ {R : World → World → Type 0} (frame : Frame R) where
  frame_ask : {A : Type 0} (f : ℕ → Result Error A) → Steps R (ask f)
  unfolding ask
  frame_ask f = record { at = frame.asked }

  frame_existing : (o : Option WeeklyReport) → Steps R (existing o)
  frame_existing none = Steps-raise frame.preorder _
  frame_existing (some r) = Steps-pure frame.preorder r

  module _ (out : Outside) where
    without_meetings-Steps : (e : Error) → Steps R (Sources.without_meetings out e)
    without_meetings-Steps diarisation_api_error = search steps_rules
    without_meetings-Steps _ = search steps_rules

    collect_meetings-Steps :
        (token : Text) (g : GroupSummary) (start end_date : ℕ)
        → Steps R (Sources.collect_meetings out token g start end_date)
    unfolding Sources.collect_meetings
    collect_meetings-Steps token g start end_date =
        search (steps_rules, frame_ask, without_meetings-Steps)

    without_answer-Steps :
        (c : SourceCollection) (s : Source) (e : Error) → Steps R (Sources.without_answer out c s e)
    without_answer-Steps c s github_api_error = search steps_rules
    without_answer-Steps c s _ = search steps_rules

    collect_query-Steps :
        (c : SourceCollection) (s : Source) (id : ℕ) (question cited : Text)
        → Steps R (Sources.collect_query out c s id question cited)
    unfolding Sources.collect_query
    collect_query-Steps c s id question cited =
        search (steps_rules, frame_ask, without_answer-Steps)

    query_repo-Steps :
        (start end_date : ℕ) (r : Result Error (Option RepoSummary))
        → Steps R (Sources.query_repo out start end_date r)
    query_repo-Steps start end_date (raised github_api_error) = search steps_rules
    query_repo-Steps start end_date (raised _) = search steps_rules
    query_repo-Steps start end_date (ok none) = search steps_rules
    query_repo-Steps start end_date (ok (some r)) = search (steps_rules, collect_query-Steps)

    collect-Steps :
        (token : Text) (g : GroupSummary) (start end_date : ℕ)
        → Steps R (Sources.collect out token g start end_date)
    unfolding Sources.collect Sources.collect_github_and_trello
    collect-Steps token g start end_date =
        search (steps_rules, frame_ask, collect_meetings-Steps, query_repo-Steps) depth 9

    parsed_date-Steps : (o : Option ℕ) → Steps R (Workflow.parsed_date o)
    parsed_date-Steps none = search steps_rules
    parsed_date-Steps (some d) = search steps_rules

    pub load-Steps : (s : ReportState) → Steps R (Workflow.load out s)
    unfolding Workflow.load
    load-Steps s = search (steps_rules, frame.on_get, frame.on_set_status, frame_existing) depth 9

    collect_sources-Steps : (s : ReportState) → Steps R (Workflow.collect_sources out s)
    unfolding Workflow.collect_sources
    collect_sources-Steps s =
        search
          (steps_rules, frame.on_get, frame_ask, frame_existing, collect-Steps, parsed_date-Steps)
          depth 12

    persist-Steps : (s : ReportState) → Steps R (Workflow.persist out s)
    unfolding Workflow.persist
    persist-Steps s = search (steps_rules, frame.on_replace, frame.on_set_status)

    synthesise-Steps : (s : ReportState) → Steps R (Workflow.synthesise out s)
    unfolding Workflow.synthesise
    synthesise-Steps s = search (steps_rules, frame.on_get, frame_ask, frame_existing) depth 9

    enqueue-Steps : (s : ReportState) → Steps R (Workflow.enqueue_report out s)
    unfolding Workflow.enqueue_report
    enqueue-Steps s =
        search (steps_rules, frame.on_get, frame_existing, frame.on_set_status, frame.on_enqueue)
          depth 9

    -- What every node does, the whole graph does.
    pub invoke-Steps :
        (engine : Engine) (ns : List Node) (s : ReportState)
        → All (λ (n : Node). (t : ReportState) → Steps R (n t)) ns
        → Steps R (engine.invoke ns s)
    invoke-Steps engine [] s h = rw (engine.invoke_end s) (Steps-pure frame.preorder s)
    invoke-Steps engine (n ∷ ns) s (h, hs) = rw (engine.invoke_node n ns s) (
        Steps-bind frame.preorder (n s) (λ u. engine.invoke ns (merge s u)) (h s)
          (λ u. invoke-Steps engine ns (merge s u) hs))

    pub graph-Steps :
        (engine : Engine) (s : ReportState) → Steps R (engine.invoke (Workflow.graph out) s)
    graph-Steps engine s = invoke-Steps engine (Workflow.graph out) s (
      load-Steps,
      (collect_sources-Steps, (persist-Steps, (synthesise-Steps, (enqueue-Steps, tt)))),
    )

    module _ (engine : Engine) (n : Notifier) where
      fail-Steps : (id : Text) (e : Error) → Steps R (Workflow.fail out engine n id e)
      unfolding Workflow.fail
      fail-Steps id e = search (steps_rules, frame.on_set_status, frame.on_alert)

      run_found-Steps :
          (id : Text) (r : Option WeeklyReport) → Steps R (Workflow.run_found out engine n id r)
      unfolding Workflow.run_found
      run_found-Steps id none = search steps_rules
      run_found-Steps id (some r) = search (steps_rules, graph-Steps, fail-Steps)

      pub run-Steps : (id : Text) → Steps R (Workflow.run out engine n id)
      unfolding Workflow.run
      run-Steps id = search (steps_rules, frame.on_get, run_found-Steps)

      report_groups-Steps :
          (owner : Text) (user start end_date generated : ℕ) (gs : List GroupSummary)
          → Steps R (Run.report_groups out engine n owner user start end_date generated gs)
      unfolding Run.report_groups
      report_groups-Steps owner user start end_date generated [] = search steps_rules
      report_groups-Steps owner user start end_date generated (g ∷ gs) =
          Steps-bind frame.preorder _ _ (frame.on_create _ _ _ _ _ _) (λ r.
            Steps-bind frame.preorder _ _ (run-Steps r.report_id)
              (λ _. report_groups-Steps owner user start end_date (generated + 1) gs))

      listed-Steps :
          (user : ℕ) → Steps R (catch (Run.listed_groups out engine n user) (λ e. pure []))
      listed-Steps user = search (steps_rules, frame_ask) depth 8

      report_owners-Steps :
          (start end_date generated : ℕ) (owners : List (Text × ℕ))
          → Steps R (Run.report_owners out engine n start end_date generated owners)
      unfolding Run.report_owners
      report_owners-Steps start end_date generated [] = search steps_rules
      report_owners-Steps start end_date generated ((owner, user) ∷ owners) =
          Steps-bind frame.preorder _ _ (listed-Steps user) (λ groups.
            Steps-bind frame.preorder _ _
              (report_groups-Steps owner user start end_date generated groups)
              (λ total. report_owners-Steps start end_date total owners))

    read_all-Steps : (l : List FilePath) → Steps R (read_all l)
    unfolding read_all
    read_all-Steps [] = search steps_rules
    read_all-Steps (p ∷ l) = Steps-bind frame.preorder _ _ (frame.on_read p) (λ _. read_all-Steps l)

    send_report-Steps : (m : OutboxMessage) (id : Text) → Steps R (Run.send_report out m id)
    unfolding Run.send_report hand_over
    send_report-Steps m id =
        search
          (
            steps_rules, frame_ask, read_all-Steps, frame.on_delivery, frame.on_sent,
            frame.on_set_status,
          )
          depth 9

    send_if_report-Steps :
        (m : OutboxMessage) (id : Option Text) → Steps R (Run.send_if_report out m id)
    send_if_report-Steps m none = search steps_rules
    send_if_report-Steps m (some id) = search (steps_rules, send_report-Steps, frame.on_failed)

    flush_reports-Steps : Steps R (Run.flush_reports out)
    unfolding Run.flush_reports
    flush_reports-Steps = search (steps_rules, send_if_report-Steps)

    pub run_once-Steps :
        (engine : Engine) (n : Notifier) (lookback today : ℕ) (owners : List (Text × ℕ))
        → Steps R (Run.run_once out engine n lookback today owners)
    unfolding Run.run_once Run.reporting_period
    run_once-Steps engine n lookback today [] = search steps_rules
    run_once-Steps engine n lookback today (o ∷ os) =
        search (steps_rules, report_owners-Steps, flush_reports-Steps) depth 9
