-- ===== src/Weekly/Stored.antt =====
-- What is stored as the evidence of a report lies in the period of the report.
use group_assessment_agent.Base.{
  ℕ, Text, ◌≡◌, refl, ◌∙◌, Bool-cases, Option, none, some, List, [], ◌∷◌, ◌++◌, All, arith, inl,
  inr, select, exists, not,
}
use group_assessment_agent.Exec.{Result}
use group_assessment_agent.Exec.Steps.{Steps, steps_rules, IsPreorder}
use group_assessment_agent.Exec.Ensures.{Outcome}
use group_assessment_agent.Jobs.{FilePath}
use group_assessment_agent.Messages.{Error, Mail}
use group_assessment_agent.World.{World, WeeklyReport, ReportStatus, ReportEvidence}
use group_assessment_agent.Outside.{Outside, ask}
use group_assessment_agent.Outbox.{enqueue}
use group_assessment_agent.ReportStore
use group_assessment_agent.ReportStore.{
  evidence_of, get, existing, set_status, insert_evidence, delete_evidence, replace_evidence,
}
use group_assessment_agent.Weekly.Workflow
use group_assessment_agent.Weekly.Workflow.{Engine, Node, ReportState, Update, merge}
use group_assessment_agent.Weekly.Period.{Dated}

-- The nodes after `persist` leave the evidence alone.
abbrev SameEvidence : World → World → Type 0
SameEvidence w w' = w'.evidence ≡ w.evidence

Same-IsPreorder : IsPreorder SameEvidence
Same-IsPreorder = record { refl_at = λ w. refl; trans_at = λ s t u p q. q ∙ p }

get-Same : (id : Text) → Steps SameEvidence (get id)
unfolding get
get-Same id = record { at = λ w. refl }

existing-Same : (o : Option WeeklyReport) → Steps SameEvidence (existing o)
existing-Same none = search (steps_rules, Same-IsPreorder)
existing-Same (some r) = search (steps_rules, Same-IsPreorder)

ask-Same : {A : Type 0} (f : ℕ → Result Error A) → Steps SameEvidence (ask f)
unfolding ask
ask-Same f = record { at = λ w. refl }

pub status-Same :
    (id : Text) (s : ReportStatus) (text : Option Text) (e : Option Error)
    → Steps SameEvidence (set_status id s text e)
unfolding set_status
status-Same id s text e = record { at = λ w. refl }

enqueue-Same :
    (to : Text) (mail : Mail) (job_id : Option Text) (files : List FilePath) (r s : Option Text)
    → Steps SameEvidence (enqueue to mail job_id files r s)
unfolding enqueue
enqueue-Same to mail job_id files r s = record { at = λ w. refl }

ruleset same_rules =
    (steps_rules, Same-IsPreorder, get-Same, existing-Same, ask-Same, status-Same, enqueue-Same)

module _ (out : Outside) where
  pub synthesise-Same : (s : ReportState) → Steps SameEvidence (Workflow.synthesise out s)
  unfolding Workflow.synthesise
  synthesise-Same s = search same_rules depth 9

  pub enqueue_report-Same : (s : ReportState) → Steps SameEvidence (Workflow.enqueue_report out s)
  unfolding Workflow.enqueue_report
  enqueue_report-Same s = search same_rules depth 9

  module _ (start end_date : ℕ) (id : Text) where
    abbrev AllDated : List ReportEvidence → Type 0
    AllDated l = All (λ e. Dated out start end_date e.source e.event_date) l

    -- The rows of the report are dated in the period.
    abbrev pub StoredInPeriod : World → Type 0
    StoredInPeriod w = AllDated (select (evidence_of id) w.evidence)

    pub select-none :
        (l : List ReportEvidence)
        → select (evidence_of id) (select (λ e. not (evidence_of id e)) l) ≡ []
    select-none [] = refl
    select-none (e ∷ l) = ground (arith, select-none l)

    AllDated-snoc :
        (l : List ReportEvidence) (e : ReportEvidence)
        → AllDated (select (evidence_of id) l)
        → Dated out start end_date e.source e.event_date
        → AllDated (select (evidence_of id) (l ++ (e ∷ [])))
    AllDated-snoc [] e h d = elim (Bool-cases (evidence_of id e)) [
      | inl mine ↦ rw mine (d, tt)
      | inr other ↦ rw other tt
    ]
    AllDated-snoc (f ∷ l) e h d = elim (Bool-cases (evidence_of id f)) [
      | inl mine ↦
          let h' : AllDated (f ∷ select (evidence_of id) l) = rw mine at h in
          rw mine (h'.0, AllDated-snoc l e h'.1 d)
      | inr other ↦ rw other (AllDated-snoc l e (rw other at h) d)
    ]

    pub inserted :
        (key : Text) (l : List ReportEvidence) (w : World)
        → AllDated l
        → StoredInPeriod w
        → Outcome (λ _ v. StoredInPeriod v) (insert_evidence key l w).0 (insert_evidence key l w).1
    unfolding insert_evidence
    inserted key [] w d h = h
    inserted key (e ∷ l) w (d, ds) h =
        let row = record e { report_id = key } in
        elim (Bool-cases (exists (ReportStore.same_evidence row) w.evidence)) [
          | inl taken ↦ rw taken tt
          | inr free ↦ rw free (
              inserted key l (record w { evidence = w.evidence ++ (row ∷ []) }) ds
                (AllDated-snoc w.evidence row h d))
        ]
