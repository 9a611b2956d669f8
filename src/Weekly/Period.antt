-- ===== src/Weekly/Period.antt =====
-- What is collected for a weekly report lies in its period.
use group_assessment_agent.Base.{
  ℕ, ◌≤◌, ◌<◌, ◌≡◌, refl, Text, take, true, Bool-cases, Option-cases, Option, none, some, List, [],
  ◌∷◌, ◌++◌, All, arith, inl, inr, strip,
}
use group_assessment_agent.Exec.{Result, ok, raised}
use group_assessment_agent.Exec.Ensures.{
  Ensures, Ensures-pure, Ensures-raise, Ensures-catch, Ensures-attempt, Ensures-lift, Ensures-value,
  Ensures-then,
}
use group_assessment_agent.Groups.{GroupSummary}
use group_assessment_agent.Messages.{Error, diarisation_api_error, github_api_error}
use group_assessment_agent.World.{World, Source, github, meetings, trello, ReportEvidence}
use group_assessment_agent.Backend.{TranscriptChunk, RepoSummary}
use group_assessment_agent.Outside.{Outside}
use group_assessment_agent.Weekly.Sources.{SourceCollection, answer_evidence, nothing}
use group_assessment_agent.Weekly.Sources

abbrev Always : World → Type 0
Always w = Unit

module _ (out : Outside) (start end_date : ℕ) where
  -- Evidence of a meeting has a date, the first ten characters of which are a day in the period; an
  -- answer of the project tools has none.
  abbrev pub Dated : Source → Option Text → Type 0
  Dated meetings none = ⊥
  Dated meetings (some date) =
      (day : ℕ) × (out.parse_iso_date (take 10 date) ≡ some day) × (start ≤ day) × (day < end_date)
  Dated github date = date ≡ none
  Dated trello date = date ≡ none

  abbrev pub InPeriod : SourceCollection → Type 0
  InPeriod c = All (λ e. Dated e.source e.event_date) c.evidence

  InPeriod-append :
      (l m : List ReportEvidence)
      → All (λ e. Dated e.source e.event_date) l
      → All (λ e. Dated e.source e.event_date) m
      → All (λ e. Dated e.source e.event_date) (l ++ m)
  InPeriod-append [] m p q = q
  InPeriod-append (e ∷ l) m (p, ps) q = (p, InPeriod-append l m ps q)

  gather-InPeriod :
      (l : List TranscriptChunk)
      → All (λ e. Dated e.source e.event_date) (Sources.gather out start end_date l)
  unfolding Sources.gather
  gather-InPeriod [] = tt
  gather-InPeriod (c ∷ l) = elim (Bool-cases (Sources.chunk_in_period out start end_date c)) [
    | inl inside ↦ rw inside (dated c inside, gather-InPeriod l)
    | inr outside ↦ rw outside (gather-InPeriod l)
  ]
    where
      dated :
          (c : TranscriptChunk)
          → Sources.chunk_in_period out start end_date c ≡ true
          → Dated meetings (some c.meeting_date)
      dated c h = elim (Option-cases (out.parse_iso_date (take 10 c.meeting_date))) [
        | inl none_read ↦ absurd (ground arith)
        | inr (day, read) ↦ (day, read, ground arith, ground arith)
      ]

  meetings-InPeriod :
      (token : Text) (g : GroupSummary)
      → Ensures Always (Sources.collect_meetings out token g start end_date) (λ c _. InPeriod c)
  unfolding Sources.collect_meetings
  meetings-InPeriod token g =
      Ensures-catch _ _
        (Ensures-then _ _ (λ chunks. Ensures-pure _ (λ w p. gather-InPeriod chunks))) degraded
    where
      degraded : (e : Error) → Ensures Always (Sources.without_meetings out e) (λ c _. InPeriod c)
      degraded diarisation_api_error = Ensures-pure _ (λ w p. tt)
      degraded _ = Ensures-raise _

  answer-InPeriod :
      (c : SourceCollection) (s : Source) (id : ℕ) (cited answer : Text)
      → Dated s none
      → InPeriod c
      → InPeriod (Sources.with_answer out c s id cited answer)
  unfolding Sources.answer_evidence
  answer-InPeriod c s id cited [] undated h = h
  answer-InPeriod c s id cited (x ∷ xs) undated h = InPeriod-append c.evidence _ h (undated, tt)

  query-InPeriod :
      (c : SourceCollection) (s : Source) (id : ℕ) (question cited : Text)
      → Dated s none
      → InPeriod c
      → Ensures Always (Sources.collect_query out c s id question cited) (λ d _. InPeriod d)
  unfolding Sources.collect_query
  query-InPeriod c s id question cited undated h =
      Ensures-catch _ _
        (Ensures-then _ _
          (λ answer. Ensures-pure _ (λ w p. answer-InPeriod c s id cited (strip answer) undated h)))
        degraded
    where
      degraded : (e : Error) → Ensures Always (Sources.without_answer out c s e) (λ d _. InPeriod d)
      degraded github_api_error = Ensures-pure _ (λ w p. h)
      degraded _ = Ensures-raise _

  tools-InPeriod :
      (r : Result Error (Option RepoSummary))
      → Ensures Always (Sources.query_repo out start end_date r) (λ c _. InPeriod c)
  tools-InPeriod (raised github_api_error) = Ensures-pure _ (λ w p. tt)
  tools-InPeriod (raised _) = Ensures-raise _
  tools-InPeriod (ok none) = Ensures-pure _ (λ w p. tt)
  tools-InPeriod (ok (some r)) =
      Ensures-value _ _ (query-InPeriod nothing github r.id _ r.github_url refl tt)
        (λ c h. query-InPeriod c trello r.id _ r.github_url refl h)

  -- Whatever the backends answer, a collection that returns holds, of the meetings, only excerpts whose
  -- date is a day from the start of the period up to, but not including, its end; the answers of the
  -- project tools carry no date.
  pub collect-InPeriod :
      (token : Text) (g : GroupSummary)
      → Ensures Always (Sources.collect out token g start end_date) (λ c _. InPeriod c)
  unfolding Sources.collect Sources.collect_github_and_trello
  collect-InPeriod token g =
      Ensures-value _ _ (Ensures-attempt _ (meetings-InPeriod token g)) (λ from_meetings p.
        Ensures-value _ _ (Ensures-attempt _ (Ensures-then _ _ (λ found. tools-InPeriod found)))
          (λ project_tools q. Ensures-value _ _ (Ensures-lift from_meetings p) (λ c hc.
            Ensures-value _ _ (Ensures-lift project_tools q)
              (λ d hd. Ensures-pure _ (λ w _. InPeriod-append c.evidence d.evidence hc hd)))))
