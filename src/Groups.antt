-- ===== src/Groups.antt =====
-- app/diarisation/group_matching.py: which of the sender's groups a request is about.
pub mod Matching
use mathlib.Core.List.{map}
use group_assessment_agent.Base.{
  ℕ, Text, lower, strip, ◌==◌, Option, none, some, List, [], ◌∷◌, select,
}
use group_assessment_agent.Messages.{Subject, Question, no_groups, which_group}

-- `GroupSummary` of app/diarisation/client.py.
pub record GroupSummary : Type 0 where
  pub id : ℕ
  pub name : Text

pub data MatchResult : Type 0 where
  matched : GroupSummary → MatchResult
  ambiguous : List GroupSummary → MatchResult
  no_match : MatchResult

abbrev pub folded : Text → Text
folded s = lower (strip s)

abbrev pub by_name : List GroupSummary → MatchResult
by_name [] = no_match
by_name (g ∷ []) = matched g
by_name (g ∷ h ∷ more) = ambiguous (g ∷ h ∷ more)

abbrev alone : List GroupSummary → MatchResult
alone [] = no_match
alone (g ∷ []) = matched g
alone (g ∷ h ∷ more) = ambiguous (g ∷ h ∷ more)

unfoldable pub match_group : Option Text → List GroupSummary → MatchResult
match_group hint [] = no_match
match_group none (g ∷ gs) = alone (g ∷ gs)
match_group (some []) (g ∷ gs) = alone (g ∷ gs)
match_group (some (c ∷ cs)) (g ∷ gs) =
    by_name (select (λ h. folded h.name == folded (c ∷ cs)) (g ∷ gs))

abbrev pub names : List GroupSummary → List Text
names = map (λ g. g.name)

unfoldable pub group_clarification_question : List GroupSummary → Subject → Question
group_clarification_question [] subject = no_groups subject
group_clarification_question (g ∷ gs) subject = which_group subject (names (g ∷ gs))
