-- ===== src/Weekly/Dated/Stages.antt =====
-- The stages of the graph of app/reports/workflow.py, as to the dates of the evidence of a run.
use group_assessment_agent.Base.{
  ℕ, Text, ◌≡◌, ap, ◌∙◌, Option, none, some, List, [], ◌∷◌, All, arith,
}
use group_assessment_agent.Exec.Ensures.{
  Ensures, Ensures-pure, Ensures-bind, Ensures-then, Ensures-value, Ensures-both, Ensures-kept,
  Ensures-weaken,
}
use group_assessment_agent.World.{World, WeeklyReport, ReportEvidence, synthesising}
use group_assessment_agent.Groups.{GroupSummary}
use group_assessment_agent.Weekly.Sources.{collect}
use group_assessment_agent.Outside.{Outside}
use group_assessment_agent.ReportStore.{
  get, existing, delete_evidence, insert_evidence, replace_evidence,
}
use group_assessment_agent.ReportStore.Keeping.{ReportsKept, SameReport, SameReport-trans, report}
use group_assessment_agent.Weekly.Workflow
use group_assessment_agent.Weekly.Workflow.{Engine, Node, ReportState, Update, merge}
use group_assessment_agent.Weekly.Keeping.{reports_frame}
use group_assessment_agent.Weekly.Frame.{load-Steps}
use group_assessment_agent.Weekly.Period.{Dated, InPeriod, collect-InPeriod}
use group_assessment_agent.Weekly.Queueing.{load_names, collect_names}
use group_assessment_agent.Weekly.Stored.{
  StoredInPeriod, inserted, select-none, status-Same, synthesise-Same, enqueue_report-Same,
}

abbrev Always : World → Type 0
Always w = Unit

-- The report with that id is about the same as `r`.
pub record Known (id : Text) (r : WeeklyReport) (w : World) : Type 0 where
  pub row : WeeklyReport
  pub found : report w id ≡ some row
  pub same : SameReport r row

Known-kept :
    (id : Text) (r : WeeklyReport) (w v : World) → ReportsKept w v → Known id r w → Known id r v
Known-kept id r w v kept k =
    let (s, found, same) = kept.at id k.row k.found in
    record { row = s; found = found; same = SameReport-trans k.same same }

Known-at : (key id : Text) (r : WeeklyReport) (w : World) → key ≡ id → Known id r w → Known key r w
Known-at key id r w e k = rw e k

get_row :
    (id : Text) (r : WeeklyReport)
    → Ensures (Known id r) (get id) (λ o _. (s : WeeklyReport) × (o ≡ some s) × SameReport r s)
unfolding get
get_row id r = record { at = λ w k. (k.row, k.found, k.same) }

existing_row :
    (r : WeeklyReport) (o : Option WeeklyReport) (s : WeeklyReport)
    → o ≡ some s
    → SameReport r s
    → Ensures Always (existing o) (λ t _. SameReport r t)
existing_row r none s e same = absurd (ground arith)
existing_row r (some t) s e same = Ensures-pure t (λ w p. let x : t ≡ s = ground arith in rw x same)

parsed_day :
    (o : Option ℕ) (day : ℕ)
    → o ≡ some day
    → Ensures Always (Workflow.parsed_date o) (λ d _. d ≡ day)
parsed_day none day e = absurd (ground arith)
parsed_day (some d) day e = Ensures-pure d (λ w p. ground arith)

module _ (out : Outside) (start end_date : ℕ) where
  abbrev Gathered : ReportState → Update → World → Type 0
  Gathered s u w =
      All (λ e. Dated out start end_date e.source e.event_date)
        (Workflow.get_or (merge s u).evidence [])

  collect_at :
      (token : Text) (g : GroupSummary) (d f : ℕ)
      → d ≡ start
      → f ≡ end_date
      → Ensures Always (collect out token g d f) (λ c _. InPeriod out start end_date c)
  collect_at token g d f is_start is_end =
      rw (is_start, is_end) (collect-InPeriod out start end_date token g)

  collects :
      (s : ReportState) (r : WeeklyReport)
      → out.parse_iso_date r.period_start ≡ some start
      → out.parse_iso_date r.period_end ≡ some end_date
      → Ensures (Known s.report_id r) (Workflow.collect_sources out s) (Gathered s)
  unfolding Workflow.collect_sources merge
  collects s r starts ends = Ensures-value _ _ (get_row s.report_id r) (λ o (t, e, same).
      Ensures-value _ _ (existing_row r o t e same) (λ q alike. Ensures-then _ _ (λ token.
        Ensures-value _ _
          (parsed_day (out.parse_iso_date q.period_start) start
            (ap out.parse_iso_date alike.period_start ∙ starts))
          (λ d is_start.
            Ensures-value _ _
              (parsed_day (out.parse_iso_date q.period_end) end_date
                (ap out.parse_iso_date alike.period_end ∙ ends))
              (λ f is_end.
                Ensures-value _ _ (collect_at token _ d f is_start is_end)
                  (λ c dated. Ensures-pure _ (λ w p. dated)))))))

  deletes :
      (key id : Text)
      → key ≡ id
      → Ensures Always (delete_evidence key) (λ _ w. StoredInPeriod out start end_date id w)
  unfolding delete_evidence
  deletes key id e = record { at = λ w p. rw (e, select-none out start end_date id w.evidence) tt }

  replaces :
      (key id : Text) (l : List ReportEvidence)
      → key ≡ id
      → All (λ e. Dated out start end_date e.source e.event_date) l
      → Ensures Always (replace_evidence key l) (λ _ w. StoredInPeriod out start end_date id w)
  unfolding replace_evidence
  replaces key id l e dated =
      Ensures-bind (delete_evidence key) (λ _. insert_evidence key l) (deletes key id e)
        (λ _. record { at = λ w p. inserted out start end_date id key l w dated p })

  persists :
      (id : Text) (s : ReportState)
      → All (λ e. Dated out start end_date e.source e.event_date) (Workflow.get_or s.evidence [])
      → s.report_id ≡ id
      → Ensures Always (Workflow.persist out s) (λ _ w. StoredInPeriod out start end_date id w)
  unfolding Workflow.persist
  persists id s dated named =
      Ensures-bind _ _ (replaces s.report_id id (Workflow.get_or s.evidence []) named dated) (λ _.
        Ensures-bind _ _
          (Ensures-kept _ (status-Same s.report_id synthesising none none) (λ v w e p. rw e p))
          (λ _. Ensures-pure _ (λ w p. p)))

  module _ (engine : Engine) where
    next :
        {P : World → Type 0} {Q : Update → World → Type 0} {R : ReportState → World → Type 0}
        (n : Node) (ns : List Node) (s : ReportState)
        → Ensures P (n s) Q
        → ((u : Update) → Ensures (Q u) (engine.invoke ns (merge s u)) R)
        → Ensures P (engine.invoke (n ∷ ns) s) R
    next n ns s h hs =
        rw (engine.invoke_node n ns s) (Ensures-bind (n s) (λ u. engine.invoke ns (merge s u)) h hs)

    ends_at : {P : World → Type 0} (s : ReportState) → Ensures P (engine.invoke [] s) (λ _ w. P w)
    ends_at s = rw (engine.invoke_end s) (Ensures-pure s (λ w p. p))

    -- From the stored evidence on.
    rest_keeps :
        (id : Text) (s : ReportState)
        → Ensures
            (StoredInPeriod out start end_date id)
            (engine.invoke (Workflow.synthesise out ∷ Workflow.enqueue_report out ∷ []) s)
            (λ _ w. StoredInPeriod out start end_date id w)
    rest_keeps id s = next _ _ s (Ensures-kept _ (synthesise-Same out s) (λ v w e p. rw e p)) (λ u.
        next _ _ (merge s u)
          (Ensures-kept _ (enqueue_report-Same out (merge s u)) (λ v w e p. rw e p))
          (λ t. ends_at (merge (merge s u) t)))

    -- From the collected evidence on.
    persist_stage :
        (id : Text) (s : ReportState)
        → All (λ e. Dated out start end_date e.source e.event_date) (Workflow.get_or s.evidence [])
        → s.report_id ≡ id
        → Ensures Always
            (engine.invoke
              (Workflow.persist out ∷ Workflow.synthesise out ∷ Workflow.enqueue_report out ∷ [])
              s)
            (λ _ w. StoredInPeriod out start end_date id w)
    persist_stage id s dated named =
        next _ _ s (persists id s dated named) (λ u. rest_keeps id (merge s u))

    module _ (id : Text) (r : WeeklyReport)
        (starts : out.parse_iso_date r.period_start ≡ some start)
        (ends : out.parse_iso_date r.period_end ≡ some end_date) where
      collect_stage :
          (s : ReportState)
          → s.report_id ≡ id
          → Ensures
              (Known id r)
              (engine.invoke
                (Workflow.collect_sources out
                  ∷ Workflow.persist out
                  ∷ Workflow.synthesise out
                  ∷ Workflow.enqueue_report out
                  ∷ [])
                s)
              (λ _ w. StoredInPeriod out start end_date id w)
      collect_stage s named =
          next _ _ s
            (Ensures-both (Workflow.collect_sources out s)
              (Ensures-weaken _ (λ w k. Known-at s.report_id id r w named k)
                (collects s r starts ends))
              (Ensures-weaken _ (λ w k. tt) (collect_names out s)))
            (λ u. record {
              at = λ w (dated, same). (persist_stage id (merge s u) dated (same ∙ named)).at w tt;
            })

      pub graph_stores :
          Ensures
            (Known id r)
            (engine.invoke (Workflow.graph out) (Workflow.fresh out id))
            (λ _ w. StoredInPeriod out start end_date id w)
      graph_stores =
          let s = Workflow.fresh out id in
          next _ _ s
            (Ensures-both (Workflow.load out s) (Ensures-weaken _ (λ w k. tt) (load_names out s)) (
              Ensures-kept _ (load-Steps reports_frame out s)
                (λ w v kept k. Known-kept id r w v kept k)))
            (λ u. record { at = λ w (named, k). (collect_stage (merge s u) named).at w k })
