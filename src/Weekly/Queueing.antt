-- ===== src/Weekly/Queueing.antt =====
-- When the graph of the workflow runs to its end, the report is queued with its mail.
use group_assessment_agent.Base.{
  ◌+◌, Text, eq_of_==, ==_iff, ◌≡◌, refl, sym, ap, ◌∙◌, Option, none, some, List, [], ◌∷◌, ◌++◌,
  find, arith, Option-cases, inl, inr,
}
use group_assessment_agent.Exec.Ensures.{Ensures, Ensures-pure, Ensures-bind, Ensures-then}
use group_assessment_agent.Messages.{Error, weekly_update}
use group_assessment_agent.World.{World, WeeklyReport, ReportStatus, OutboxMessage, queued, pending}
use group_assessment_agent.Outside.{Outside}
use group_assessment_agent.Outbox.{enqueue}
use group_assessment_agent.ReportStore.{has_id, get, set_status, enter}
use group_assessment_agent.ReportStore.Keeping.{report, find-update_where, enter_keeps}
use group_assessment_agent.Weekly.Workflow
use group_assessment_agent.Weekly.Workflow.{Engine, Node, ReportState, Update, merge}

pub found_id :
    (id : Text) (l : List WeeklyReport) (r : WeeklyReport)
    → find (has_id id) l ≡ some r
    → r.report_id ≡ id
found_id id [] r h = absurd (ground arith)
found_id id (x ∷ xs) r h = ground (arith, found_id id xs r, eq_of_== x.report_id id)

pub stored :
    (key id : Text) (status : ReportStatus) (text : Option Text) (e : Option Error) (w : World)
    (r : WeeklyReport)
    → key ≡ id
    → report w id ≡ some r
    → report (set_status key status text e w).1 id ≡ some (enter status text e w.now r)
unfolding set_status
stored key id status text e w r same found = ground (
  arith,
  ==_iff key id,
  find-update_where key id (enter status text e w.now) w.reports
      (λ x. (enter_keeps status text e w.now x).0.report_id),
)

-- The report is queued with its text, and the last mail of the outbox takes this text to its owner.
pub record Queued (id : Text) (w : World) : Type 0 where
  pub row : WeeklyReport
  pub found : report w id ≡ some row
  pub is_queued : row.status ≡ queued
  pub text : Text
  pub stored : row.report_text ≡ some text
  pub earlier : List OutboxMessage
  pub mail : OutboxMessage
  pub last : w.outbox ≡ earlier ++ (mail ∷ [])
  pub waiting : mail.status ≡ pending
  pub to_owner : mail.to_email ≡ row.owner_email
  pub about : mail.job_id ≡ some id
  pub content : mail.mail ≡ weekly_update id row.group_name row.period_start row.period_end text

abbrev pub Always : World → Type 0
Always w = Unit

abbrev pub Named : Text → ReportState → Update → World → Type 0
Named id s u w = (merge s u).report_id ≡ id

module _ (out : Outside) where
  pub load_names : (s : ReportState) → Ensures Always (Workflow.load out s) (Named s.report_id s)
  unfolding Workflow.load get set_status merge
  load_names s = record {
    at = λ w p. elim (Option-cases (report w s.report_id)) [
      | inl e ↦ rw e tt
      | inr (r, e) ↦ rw e (found_id s.report_id w.reports r e)
    ];
  }

  pub collect_names :
      (s : ReportState) → Ensures Always (Workflow.collect_sources out s) (Named s.report_id s)
  unfolding Workflow.collect_sources merge
  collect_names s = search (Ensures-then, Ensures-pure) depth 16

  pub persist_names :
      (s : ReportState) → Ensures Always (Workflow.persist out s) (Named s.report_id s)
  unfolding Workflow.persist merge
  persist_names s = search (Ensures-then, Ensures-pure) depth 12

  pub synthesise_names :
      (s : ReportState) → Ensures Always (Workflow.synthesise out s) (Named s.report_id s)
  unfolding Workflow.synthesise merge
  synthesise_names s = search (Ensures-then, Ensures-pure) depth 12

  enqueued :
      (s : ReportState)
      → Ensures Always (Workflow.enqueue_report out s) (λ _ w. Queued s.report_id w)
  unfolding Workflow.enqueue_report get set_status enqueue enter
  enqueued s = record {
    at = λ w p. elim (Option-cases (report w s.report_id)) [
      | inl e ↦ rw e tt
      | inr (r, e) ↦
          let text = Workflow.get_or s.report_text [] in
          let same = found_id s.report_id w.reports r e in
          rw e (record {
            row = enter queued (some text) none w.now r;
            found = stored r.report_id s.report_id queued (some text) none w r same e;
            is_queued = refl;
            text = text;
            stored = refl;
            earlier = w.outbox;
            mail = record {
              id = w.outbox_sequence + 1;
              job_id = some r.report_id;
              to_email = r.owner_email;
              mail = weekly_update r.report_id r.group_name r.period_start r.period_end text;
              attachments = [];
              in_reply_to_message_id = none;
              references_header = none;
              status = pending;
              attempts = 0;
              last_error = none;
              created_at = w.now;
              sent_at = none;
            };
            last = refl;
            waiting = refl;
            to_owner = refl;
            about = ap some same;
            content =
                ap (λ id. weekly_update id r.group_name r.period_start r.period_end text) same;
          })
    ];
  }

  module _ (engine : Engine) where
    node_then :
        {R : ReportState → World → Type 0} (n : Node) (ns : List Node) (s : ReportState)
        → Ensures Always (n s) (Named s.report_id s)
        → ((t : ReportState) → t.report_id ≡ s.report_id → Ensures Always (engine.invoke ns t) R)
        → Ensures Always (engine.invoke (n ∷ ns) s) R
    node_then n ns s h hs = rw (engine.invoke_node n ns s) (
        Ensures-bind (n s) (λ u. engine.invoke ns (merge s u)) h
          (λ u. record { at = λ w named. (hs (merge s u) named).at w tt }))

    last_node :
        (n : Node) (s : ReportState) {P : World → Type 0}
        → Ensures Always (n s) (λ _ w. P w)
        → Ensures Always (engine.invoke (n ∷ []) s) (λ _ w. P w)
    last_node n s h = rw (engine.invoke_node n [] s) (
        Ensures-bind (n s) (λ u. engine.invoke [] (merge s u)) h
          (λ u. rw (engine.invoke_end (merge s u)) (Ensures-pure _ (λ w q. q))))

    pub graph_queues :
        (id : Text)
        → Ensures Always
            (engine.invoke (Workflow.graph out) (Workflow.fresh out id))
            (λ _ w. Queued id w)
    graph_queues id = node_then _ _ _ (load_names _) (λ s e.
        node_then _ _ s (collect_names s) (λ t f. node_then _ _ t (persist_names t) (λ u g.
          node_then _ _ u (synthesise_names u) (λ v h.
            let same : id ≡ v.report_id = sym (h ∙ (g ∙ (f ∙ e))) in
            rw same (last_node _ v (enqueued v))))))
