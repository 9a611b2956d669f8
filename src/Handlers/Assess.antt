-- ===== src/Handlers/Assess.antt =====
-- app/handlers/assess_query.py: `accept`, run by the mail thread, and `execute`, by the worker; and
-- `synthesize_transcript_answer` of app/llm/transcript_synthesis.py.
use group_assessment_agent.Base.{
  ℕ, Text, codes, join, strip, nonempty, ◌&&◌, ◌||◌, Option, none, some, List, [], ◌∷◌, ◌++◌,
  if◌then◌else◌,
}
use group_assessment_agent.Exec.{pure, raise, ◌>>=◌, ◌>>◌, catch}
use group_assessment_agent.Jobs.{
  validating, queued, processing, needs_clarification, completed, failed, assess_query, Reason,
  unexpected_error, group_not_resolved, no_source_answered, Note, transcripts_unavailable,
  no_repository, tools_unavailable, Job, Field,
}
use group_assessment_agent.Messages
use group_assessment_agent.Messages.{
  this_question, Error, diarisation_api_error, github_api_error, assess_query_failure,
  assess_failed,
}
use group_assessment_agent.World.{Action}
use mathlib.Core.List.{map}
use group_assessment_agent.Backend.{TranscriptChunk, RepoSummary, citation}
use group_assessment_agent.Outside.{Outside, ask, transcript_answer}
use group_assessment_agent.JobStore.{create_job, set_status}
use group_assessment_agent.Outbox.{enqueue}
use group_assessment_agent.Clarifications
use group_assessment_agent.Notifier.{Notifier, alert}
use group_assessment_agent.Groups.{
  GroupSummary, MatchResult, matched, ambiguous, no_match, match_group, names,
  group_clarification_question,
}
use group_assessment_agent.Threads.{present}
use group_assessment_agent.Commands.Validation.{ValidatedCommand}
use group_assessment_agent.Handlers.Outcome.{HandlerOutcome, outcome, job_created}
use group_assessment_agent.Handlers.Submit.{parent}

unfoldable pub accept :
    ValidatedCommand → Text → ℕ → Text → Option Text → Option Text → Action HandlerOutcome
unfolding ◌>>=◌
accept cmd sender user source_message_id in_reply_to references = do
  job ← create_job sender user source_message_id assess_query (
      Field.group_hint cmd.group_hint
      ∷ Field.transcript_focus cmd.transcript_focus
      ∷ Field.github_focus cmd.github_focus
      ∷ Field.trello_focus cmd.trello_focus
      ∷ [])
  set_status job.job_id validating []
  set_status job.job_id queued []
  enqueue sender (Messages.assess_ack job.job_id) (some job.job_id) [] in_reply_to references
  pure (outcome job_created job.job_id)

-- The user prompt of `synthesize_transcript_answer`.
unfoldable pub question_prompt : Text → List TranscriptChunk → Text
unfolding citation
question_prompt question chunks =
    codes "Question: "
    ++ (question
        ++ (codes "\n\nTranscript excerpts:\n\n"
            ++ join (codes "\n\n") (map (λ c. citation c ++ (codes "\n" ++ c.text)) chunks)))

module _ (out : Outside) (n : Notifier) where
  unfoldable pub handle_failure : Job → Reason → Action (Unit {0})
  unfolding ◌>>=◌
  handle_failure job reason = do
    set_status job.job_id failed (Field.error reason ∷ [])
    enqueue job.sender_email (Messages.failure reason (some job.job_id)) (some job.job_id) []
        (some (parent job)) (some (parent job))
    alert n assess_query_failure (assess_failed job.job_id job.sender_email reason)
    pure tt

  -- Without excerpts the model is not asked.
  unfoldable pub synthesize_transcript_answer : Text → List TranscriptChunk → Action Text
  unfolding ◌>>=◌
  synthesize_transcript_answer question [] =
      pure (codes "I didn't find anything in past transcripts that speaks to this.")
  synthesize_transcript_answer question (c ∷ cs) = do
    answer ← ask (λ i. out.write i transcript_answer (question_prompt question (c ∷ cs)))
    pure (strip answer)

  abbrev pub Answer : Type 0
  Answer = Option Text × List Note

  abbrev pub search_transcripts : Text → ℕ → Text → Action Answer
  search_transcripts token group focus = do
    chunks ← ask (λ c. out.search_transcripts c token group focus)
    answer ← synthesize_transcript_answer focus chunks
    pure (some answer, [])

  abbrev pub degrade_transcripts : Error → Action Answer
  degrade_transcripts diarisation_api_error = pure (none, transcripts_unavailable ∷ [])
  degrade_transcripts e = raise e

  unfoldable pub ask_transcripts : Text → ℕ → Option Text → Action Answer
  unfolding ◌>>=◌ synthesize_transcript_answer
  ask_transcripts token group none = pure (none, [])
  ask_transcripts token group (some []) = pure (none, [])
  ask_transcripts token group (some (c ∷ cs)) =
      catch (search_transcripts token group (c ∷ cs)) degrade_transcripts

  abbrev pub query_tools : Text → Option RepoSummary → Action Answer
  query_tools question none = pure (none, no_repository ∷ [])
  query_tools question (some repo) = do
    answer ← ask (λ c. out.query_repo c repo.id question)
    pure (some answer, [])

  abbrev pub find_and_query : Text → Text → Action Answer
  find_and_query group_name question = do
    repo ← ask (λ c. out.find_repo c group_name)
    query_tools question repo

  abbrev pub degrade_tools : Error → Action Answer
  degrade_tools github_api_error = pure (none, tools_unavailable ∷ [])
  degrade_tools e = raise e

  unfoldable pub ask_tools : Text → Option Text → Option Text → Action Answer
  unfolding ◌>>=◌
  ask_tools group_name github trello =
      if nonempty github || nonempty trello
      then catch (find_and_query group_name (join (codes " ") (present (github ∷ trello ∷ []))))
          degrade_tools
      else pure (none, [])

  -- Nothing answered: the job fails. An answer from either source completes it.
  abbrev pub report : Job → GroupSummary → Option Text → Option Text → List Note → Action (Unit {0})
  report job group none none notes = handle_failure job (no_source_answered notes)
  report job group transcripts tools notes = do
    set_status job.job_id completed []
    enqueue job.sender_email
        (Messages.assess_result job.job_id group.name transcripts tools
          (nonempty job.trello_focus && nonempty tools) notes)
        (some job.job_id) [] (some (parent job)) (some (parent job))
    pure tt

  abbrev pub answer_for : Job → Text → GroupSummary → Action (Unit {0})
  answer_for job token group = do
    transcripts ← ask_transcripts token group.id job.transcript_focus
    tools ← ask_tools group.name job.github_focus job.trello_focus
    report job group transcripts.0 tools.0 (transcripts.1 ++ tools.1)

  abbrev pub ask_for_group : Job → List GroupSummary → Action (Unit {0})
  ask_for_group job groups = do
    let question = group_clarification_question groups this_question
    set_status job.job_id needs_clarification []
    Clarifications.put job.job_id question (names groups)
    enqueue job.sender_email (Messages.clarification question (some job.job_id)) (some job.job_id)
        [] (some (parent job)) (some (parent job))
    pure tt

  abbrev pub by_match : Job → Text → List GroupSummary → MatchResult → Action (Unit {0})
  by_match job token groups (matched group) = answer_for job token group
  by_match job token groups (ambiguous _) = ask_for_group job groups
  by_match job token groups no_match = ask_for_group job groups

  -- The body of the `try`.
  unfoldable pub assess : Job → Action (Unit {0})
  unfolding ◌>>=◌ ask_transcripts ask_tools handle_failure
  assess job = do
    token ← ask (λ c. out.login c job.backend_user_id)
    groups ← ask (λ c. out.list_groups c token)
    by_match job token groups (match_group job.group_hint groups)

  abbrev pub reason_of : Error → Reason
  reason_of diarisation_api_error = group_not_resolved
  reason_of _ = unexpected_error

  unfoldable pub execute : Job → Action (Unit {0})
  unfolding ◌>>=◌ assess handle_failure
  execute job = do
    set_status job.job_id processing []
    catch (assess job) (λ e. handle_failure job (reason_of e))
