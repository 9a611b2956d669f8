-- ===== src/Weekly/Sources.antt =====
-- `WeeklySourceCollector` of app/reports/sources.py. Of the two tasks of its executor the meetings
-- come first; the order shows in the evidence only, where the source fixes it too.
use group_assessment_agent.Base.{
  ℕ, Text, codes, digits, take, strip, leb, ltb, Bool, false, ◌&&◌, Option, none, some, List, [],
  ◌∷◌, ◌++◌, if◌then◌else◌,
}
use group_assessment_agent.Exec.{Result, ok, raised, pure, raise, lift, ◌>>=◌, catch, attempt}
use group_assessment_agent.Messages.{Error, diarisation_api_error, github_api_error}
use group_assessment_agent.World.{Action, Source, github, meetings, trello, ReportEvidence}
use group_assessment_agent.Backend.{TranscriptChunk, citation, RepoSummary}
use group_assessment_agent.Groups.{GroupSummary}
use group_assessment_agent.Outside.{Outside, ask}
use group_assessment_agent.ReportStore.{source_name}

-- The entries of `unavailable`, with the exception that they quote.
pub data Unavailable : Type 0 where
  source_unavailable : Source → Error → Unavailable
  project_tools_unavailable : Error → Unavailable
  no_linked_repository : Unavailable

pub record SourceCollection : Type 0 where
  pub evidence : List ReportEvidence
  pub unavailable : List Unavailable

abbrev pub nothing : SourceCollection
nothing = record { evidence = []; unavailable = [] }

abbrev pub missing : Unavailable → SourceCollection → SourceCollection
missing u c = record c { unavailable = c.unavailable ++ (u ∷ []) }

abbrev pub within : ℕ → ℕ → ℕ → Bool
within start end_date d = leb start d && ltb d end_date

abbrev pub dated_within : ℕ → ℕ → Option ℕ → Bool
dated_within start end_date none = false
dated_within start end_date (some d) = within start end_date d

-- The report that it belongs to is set when it is stored.
abbrev pub chunk_evidence : TranscriptChunk → ReportEvidence
chunk_evidence c = record {
  report_id = [];
  source = meetings;
  evidence_id = c.chunk_id;
  title = c.meeting_title;
  event_date = some c.meeting_date;
  content = c.text;
  citation = citation c;
}

abbrev pub source_title : Source → Text
source_title github = codes "Github"
source_title meetings = codes "Meetings"
source_title trello = codes "Trello"

unfoldable pub answer_evidence : Source → ℕ → Text → Text → ReportEvidence
answer_evidence source repo_id answer cited = record {
  report_id = [];
  source = source;
  evidence_id = codes "repo-" ++ (digits repo_id ++ (codes "-" ++ source_name source));
  title = source_title source ++ codes " activity query";
  event_date = none;
  content = answer;
  citation = cited ++ (codes " (" ++ (source_name source ++ codes " activity query)"));
}

module _ (out : Outside) where
  abbrev pub chunk_in_period : ℕ → ℕ → TranscriptChunk → Bool
  chunk_in_period start end_date c =
      dated_within start end_date (out.parse_iso_date (take 10 c.meeting_date))

  -- The loop over the excerpts.
  unfoldable pub gather : ℕ → ℕ → List TranscriptChunk → List ReportEvidence
  gather start end_date [] = []
  gather start end_date (c ∷ cs) =
      let rest = gather start end_date cs in
      if chunk_in_period start end_date c then chunk_evidence c ∷ rest else rest

  abbrev pub period_text : ℕ → ℕ → Text
  period_text start end_date =
      codes "between " ++ (out.iso_format start ++ (codes " and " ++ out.iso_format end_date))

  abbrev pub without_meetings : Error → Action SourceCollection
  without_meetings diarisation_api_error =
      pure (missing (source_unavailable meetings diarisation_api_error) nothing)
  without_meetings e = raise e

  abbrev pub search_meetings : Text → GroupSummary → ℕ → ℕ → Action SourceCollection
  search_meetings token group start end_date = do
    chunks ← ask (λ c.
        out.search_transcripts c token group.id
          (codes "meetings and decisions " ++ period_text start end_date))
    pure (record { evidence = gather start end_date chunks; unavailable = [] })

  unfoldable pub collect_meetings : Text → GroupSummary → ℕ → ℕ → Action SourceCollection
  unfolding ◌>>=◌ gather
  collect_meetings token group start end_date =
      catch (search_meetings token group start end_date) without_meetings

  abbrev pub without_answer : SourceCollection → Source → Error → Action SourceCollection
  without_answer result source github_api_error =
      pure (missing (source_unavailable source github_api_error) result)
  without_answer result source e = raise e

  abbrev pub with_answer : SourceCollection → Source → ℕ → Text → Text → SourceCollection
  with_answer result source repo_id cited [] = result
  with_answer result source repo_id cited (c ∷ cs) = record result {
    evidence = result.evidence ++ (answer_evidence source repo_id (c ∷ cs) cited ∷ []);
  }

  abbrev pub ask_repo : SourceCollection → Source → ℕ → Text → Text → Action SourceCollection
  ask_repo result source repo_id question cited = do
    answer ← ask (λ c. out.query_repo c repo_id question)
    pure (with_answer result source repo_id cited (strip answer))

  unfoldable pub collect_query :
      SourceCollection → Source → ℕ → Text → Text → Action SourceCollection
  unfolding ◌>>=◌ answer_evidence
  collect_query result source repo_id question cited =
      catch (ask_repo result source repo_id question cited) (without_answer result source)

  abbrev pub github_question : ℕ → ℕ → Text
  github_question start end_date =
      codes "Summarise GitHub commits, pull requests, issues, and releases "
      ++ (period_text start end_date
          ++ codes ". Return only activity in that period with identifiers and dates.")

  abbrev pub trello_question : ℕ → ℕ → Text
  trello_question start end_date =
      codes "Summarise Trello card movement, completed work, blockers, and due dates "
      ++ (period_text start end_date
          ++ codes ". Return only activity in that period with card names and dates.")

  -- What follows the call of `find_repo_by_group_name`, by its result.
  abbrev pub query_repo : ℕ → ℕ → Result Error (Option RepoSummary) → Action SourceCollection
  query_repo start end_date (raised github_api_error) =
      pure (missing (project_tools_unavailable github_api_error) nothing)
  query_repo start end_date (raised e) = raise e
  query_repo start end_date (ok none) = pure (missing no_linked_repository nothing)
  query_repo start end_date (ok (some repo)) = do
    result ← collect_query nothing github repo.id (github_question start end_date) repo.github_url
    collect_query result trello repo.id (trello_question start end_date) repo.github_url

  unfoldable pub collect_github_and_trello : GroupSummary → ℕ → ℕ → Action SourceCollection
  unfolding ◌>>=◌ collect_query
  collect_github_and_trello group start end_date = do
    found ← attempt (ask (λ c. out.find_repo c group.name))
    query_repo start end_date found

  unfoldable pub collect : Text → GroupSummary → ℕ → ℕ → Action SourceCollection
  unfolding ◌>>=◌ collect_meetings collect_github_and_trello
  collect token group start end_date = do
    from_meetings ← attempt (collect_meetings token group start end_date)
    project_tools ← attempt (collect_github_and_trello group start end_date)
    result ← lift from_meetings
    other ← lift project_tools
    pure (record {
      evidence = result.evidence ++ other.evidence;
      unavailable = result.unavailable ++ other.unavailable;
    })
