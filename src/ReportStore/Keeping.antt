-- ===== src/ReportStore/Keeping.antt =====
-- No report of the table `weekly_reports` goes away, and the columns that say what it reports on
-- stay. Which actions change the table, and how.
use group_assessment_agent.Base.{
  ℕ, Text, ◌==◌, ==_iff, ◌≡◌, Bool-cases, Option, none, some, List, [], ◌∷◌, ◌++◌, find, exists,
  update_where, arith, inl, inr, if◌then◌else◌,
}
use group_assessment_agent.Exec.Steps.{Steps, IsPreorder}
use group_assessment_agent.Messages.{Error}
use group_assessment_agent.World.{World, Action, WeeklyReport, ReportStatus}
use group_assessment_agent.ReportStore.{has_id, enter, in_period, set_status, insert_report}

pub record SameReport (r s : WeeklyReport) : Type 0 where
  pub report_id : s.report_id ≡ r.report_id
  pub group_id : s.group_id ≡ r.group_id
  pub group_name : s.group_name ≡ r.group_name
  pub owner_email : s.owner_email ≡ r.owner_email
  pub backend_user_id : s.backend_user_id ≡ r.backend_user_id
  pub period_start : s.period_start ≡ r.period_start
  pub period_end : s.period_end ≡ r.period_end

pub SameReport-refl : (r : WeeklyReport) → SameReport r r
SameReport-refl r = ground arith

pub SameReport-trans : {r s t : WeeklyReport} → SameReport r s → SameReport s t → SameReport r t
SameReport-trans p q = ground arith

pub enter_keeps :
    (status : ReportStatus) (text : Option Text) (e : Option Error) (now : ℕ) (r : WeeklyReport)
    → SameReport r (enter status text e now r) × ((enter status text e now r).status ≡ status)
unfolding enter
enter_keeps status text e now r = ground arith

abbrev pub report : World → Text → Option WeeklyReport
report w id = find (has_id id) w.reports

pub record ReportsKept (w w' : World) : Type 0 where
  pub at :
      (id : Text) (r : WeeklyReport)
      → report w id ≡ some r
      → (s : WeeklyReport) × (report w' id ≡ some s) × SameReport r s

ReportsKept-trans : (u v w : World) → ReportsKept u v → ReportsKept v w → ReportsKept u w
ReportsKept-trans u v w p q = record {
  at = λ id r e.
      let (s, found, same) = p.at id r e in
      let (t, found', same') = q.at id s found in (t, found', SameReport-trans same same');
}

pub Kept-IsPreorder : IsPreorder ReportsKept
Kept-IsPreorder = record {
  refl_at = λ w. record { at = λ id r e. (r, e, SameReport-refl r) };
  trans_at = ReportsKept-trans;
}

abbrev pub changed : (WeeklyReport → WeeklyReport) → Option WeeklyReport → Option WeeklyReport
changed f none = none
changed f (some r) = some (f r)

pub find-update_where :
    (id other : Text) (f : WeeklyReport → WeeklyReport) (reports : List WeeklyReport)
    → ((r : WeeklyReport) → (f r).report_id ≡ r.report_id)
    → find (has_id other) (update_where (has_id id) f reports) ≡ (
        if id == other
        then changed f (find (has_id other) reports)
        else find (has_id other) reports)
find-update_where id other f [] keeps = ground arith
find-update_where id other f (r ∷ rs) keeps = ground (
  arith,
  keeps r,
  find-update_where id other f rs keeps,
  ==_iff r.report_id id,
  ==_iff r.report_id other,
  ==_iff id other,
)

pub set_status-Kept :
    (id : Text) (status : ReportStatus) (text : Option Text) (e : Option Error)
    → Steps ReportsKept (set_status id status text e)
unfolding set_status
set_status-Kept id status text e = record {
  at = λ w. record {
    at = λ other r found.
        let f = enter status text e w.now in
        let moved =
          find-update_where id other f w.reports
            (λ x. (enter_keeps status text e w.now x).0.report_id) in
        elim (Bool-cases (id == other)) [
          | inl same ↦ (f r, ground arith, (enter_keeps status text e w.now r).0)
          | inr differs ↦ (r, ground arith, SameReport-refl r)
        ];
  };
}

find-snoc :
    (id : Text) (l : List WeeklyReport) (x r : WeeklyReport)
    → find (has_id id) l ≡ some r
    → find (has_id id) (l ++ (x ∷ [])) ≡ some r
find-snoc id [] x r h = ground arith
find-snoc id (y ∷ ys) x r h = ground (arith, find-snoc id ys x r)

pub insert_report-Kept : (r : WeeklyReport) → Steps ReportsKept (insert_report r)
unfolding insert_report
insert_report-Kept r = record {
  at = λ w.
      elim (Bool-cases (exists (in_period r.group_id r.period_start r.period_end) w.reports)) [
        | inl known ↦ rw known (Kept-IsPreorder.refl_at w)
        | inr new ↦ elim (Bool-cases (exists (has_id r.report_id) w.reports)) [
          | inl taken ↦ rw (new, taken) (Kept-IsPreorder.refl_at w)
          | inr free ↦
              rw (new, free)
                (record {
                  at = λ id s found. (s, find-snoc id w.reports r s found, SameReport-refl s);
                })
        ]
      ];
}

-- An action that leaves the table alone.
pub still :
    {A : Type 0} {m : Action A} → ((w : World) → (m w).1.reports ≡ w.reports) → Steps ReportsKept m
still h = record { at = λ w. record { at = λ id r found. (r, rw (h w) found, SameReport-refl r) } }
