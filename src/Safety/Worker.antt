-- ===== src/Safety/Worker.antt =====
-- The worker lets every job live on, along allowed transitions.
use group_assessment_agent.Base.{
  ℕ, Text, Bool, true, false, Option, none, some, List, [], ◌∷◌, nonempty, ◌||◌,
}
use group_assessment_agent.Exec.Steps.{Steps, Steps-if, Steps-bind}
use group_assessment_agent.Jobs.{
  Operation, submit_transcript, assess_query, FilePath, Job, Reason, Note,
}
use group_assessment_agent.Messages.{Error, diarisation_api_error, github_api_error}
use group_assessment_agent.Backend.{TranscriptChunk, RepoSummary}
use group_assessment_agent.Outside.{Outside}
use group_assessment_agent.Notifier.{Notifier}
use group_assessment_agent.JobStore.Evolution.{
  Evolves, Evolves-IsPreorder, existing-Evolves, get-Evolves,
}
use group_assessment_agent.Groups.{GroupSummary, MatchResult, matched, ambiguous, no_match}
use group_assessment_agent.Handlers.Submit
use group_assessment_agent.Handlers.Assess
use group_assessment_agent.Worker.{run, process_job, run_once}
use group_assessment_agent.Safety.Stores.{store_rules, ask-Evolves, alert-Evolves}

ruleset rules = (store_rules, alert-Evolves, existing-Evolves, get-Evolves)

module _ (out : Outside) (n : Notifier) where
  move_failed-Evolves :
      (b : Bool) (id : Text) (p : FilePath) → Steps Evolves (Submit.move_failed out n b id p)
  move_failed-Evolves false id p = search rules
  move_failed-Evolves true id p = search rules

  move_stored-Evolves :
      (id : Text) (p : Option FilePath) → Steps Evolves (Submit.move_stored out n id p)
  move_stored-Evolves id none = search rules
  move_stored-Evolves id (some p) = search (rules, move_failed-Evolves)

  execute_failure-Evolves :
      (job : Job) (reason : Reason) → Steps Evolves (Submit.handle_execute_failure out n job reason)
  unfolding Submit.handle_execute_failure
  execute_failure-Evolves job reason = search (rules, move_stored-Evolves) depth 8

  add_attendees-Evolves :
      (token : Text) (group meeting : ℕ) (l : List (Text × Option ℕ))
      → Steps Evolves (Submit.add_attendees out n token group meeting l)
  unfolding Submit.add_attendees
  add_attendees-Evolves token group meeting [] = search rules
  add_attendees-Evolves token group meeting ((name, none) ∷ l) =
      let ih = add_attendees-Evolves token group meeting l in search (rules, ih)
  add_attendees-Evolves token group meeting ((name, some member) ∷ l) =
      let ih = add_attendees-Evolves token group meeting l in
      Steps-bind Evolves-IsPreorder _ _ (ask-Evolves _) (λ _. search (rules, ih))

  resolve_speakers-Evolves :
      (token : Text) (group meeting : ℕ) (l : List Text)
      → Steps Evolves (Submit.resolve_speakers out n token group meeting l)
  resolve_speakers-Evolves token group meeting [] = search rules
  resolve_speakers-Evolves token group meeting (s ∷ l) = search (rules, add_attendees-Evolves)

  required-Evolves : {A : Type 0} (o : Option A) → Steps Evolves (Submit.required out n o)
  required-Evolves none = search rules
  required-Evolves (some a) = search rules

  move_completed-Evolves :
      (id : Text) (p : Option FilePath) → Steps Evolves (Submit.move_completed out n id p)
  move_completed-Evolves id none = search rules
  move_completed-Evolves id (some p) = search rules

  submit_to_group-Evolves :
      (job : Job) (token : Text) (g : GroupSummary)
      → Steps Evolves (Submit.submit_to_group out n job token g)
  unfolding Submit.submit_to_group
  submit_to_group-Evolves job token g =
      search (rules, required-Evolves, resolve_speakers-Evolves, move_completed-Evolves) depth 14

  ask_transcript_group-Evolves :
      (job : Job) (gs : List GroupSummary) → Steps Evolves (Submit.ask_for_group out n job gs)
  ask_transcript_group-Evolves job gs = search rules depth 8

  by_match-Evolves :
      (job : Job) (token : Text) (gs : List GroupSummary) (m : MatchResult)
      → Steps Evolves (Submit.by_match out n job token gs m)
  by_match-Evolves job token gs (matched g) = submit_to_group-Evolves job token g
  by_match-Evolves job token gs (ambiguous _) = ask_transcript_group-Evolves job gs
  by_match-Evolves job token gs no_match = ask_transcript_group-Evolves job gs

  submit-Evolves : (job : Job) → Steps Evolves (Submit.submit out n job)
  unfolding Submit.submit
  submit-Evolves job = search (rules, by_match-Evolves)

  stage-Evolves : (job : Job) (p : Option FilePath) → Steps Evolves (Submit.stage out n job p)
  stage-Evolves job none = search rules
  stage-Evolves job (some p) = search rules depth 8

  pub execute_transcript-Evolves : (job : Job) → Steps Evolves (Submit.execute out n job)
  unfolding Submit.execute
  execute_transcript-Evolves job =
      search (rules, stage-Evolves, submit-Evolves, execute_failure-Evolves) depth 8

  failure-Evolves :
      (job : Job) (reason : Reason) → Steps Evolves (Assess.handle_failure out n job reason)
  unfolding Assess.handle_failure
  failure-Evolves job reason = search rules depth 8

  synthesize-Evolves :
      (q : Text) (l : List TranscriptChunk)
      → Steps Evolves (Assess.synthesize_transcript_answer out n q l)
  unfolding Assess.synthesize_transcript_answer
  synthesize-Evolves q [] = search rules
  synthesize-Evolves q (c ∷ l) = search rules

  degrade_transcripts-Evolves : (e : Error) → Steps Evolves (Assess.degrade_transcripts out n e)
  degrade_transcripts-Evolves diarisation_api_error = search rules
  degrade_transcripts-Evolves _ = search rules

  degrade_tools-Evolves : (e : Error) → Steps Evolves (Assess.degrade_tools out n e)
  degrade_tools-Evolves github_api_error = search rules
  degrade_tools-Evolves _ = search rules

  ask_transcripts-Evolves :
      (token : Text) (g : ℕ) (focus : Option Text)
      → Steps Evolves (Assess.ask_transcripts out n token g focus)
  unfolding Assess.ask_transcripts
  ask_transcripts-Evolves token g none = search rules
  ask_transcripts-Evolves token g (some []) = search rules
  ask_transcripts-Evolves token g (some (c ∷ cs)) =
      search (rules, synthesize-Evolves, degrade_transcripts-Evolves) depth 8

  query_tools-Evolves :
      (q : Text) (repo : Option RepoSummary) → Steps Evolves (Assess.query_tools out n q repo)
  query_tools-Evolves q none = search rules
  query_tools-Evolves q (some repo) = search rules

  ask_tools-Evolves :
      (name : Text) (a b : Option Text) → Steps Evolves (Assess.ask_tools out n name a b)
  unfolding Assess.ask_tools
  ask_tools-Evolves name a b =
      Steps-if (nonempty a || nonempty b) _ _
        (search (rules, query_tools-Evolves, degrade_tools-Evolves) depth 8) (search rules)

  report-Evolves :
      (job : Job) (g : GroupSummary) (a b : Option Text) (notes : List Note)
      → Steps Evolves (Assess.report out n job g a b notes)
  report-Evolves job g none none notes = failure-Evolves job _
  report-Evolves job g _ _ notes = search rules depth 8

  ask_query_group-Evolves :
      (job : Job) (gs : List GroupSummary) → Steps Evolves (Assess.ask_for_group out n job gs)
  ask_query_group-Evolves job gs = search rules depth 8

  by_query_match-Evolves :
      (job : Job) (token : Text) (gs : List GroupSummary) (m : MatchResult)
      → Steps Evolves (Assess.by_match out n job token gs m)
  by_query_match-Evolves job token gs (matched g) =
      search (rules, ask_transcripts-Evolves, ask_tools-Evolves, report-Evolves) depth 8
  by_query_match-Evolves job token gs (ambiguous _) = ask_query_group-Evolves job gs
  by_query_match-Evolves job token gs no_match = ask_query_group-Evolves job gs

  assess-Evolves : (job : Job) → Steps Evolves (Assess.assess out n job)
  unfolding Assess.assess
  assess-Evolves job = search (rules, by_query_match-Evolves)

  pub execute_query-Evolves : (job : Job) → Steps Evolves (Assess.execute out n job)
  unfolding Assess.execute
  execute_query-Evolves job = search (rules, assess-Evolves, failure-Evolves) depth 8

  run-Evolves : (op : Operation) (job : Job) → Steps Evolves (run out n op job)
  run-Evolves submit_transcript job = execute_transcript-Evolves job
  run-Evolves assess_query job = execute_query-Evolves job
  run-Evolves _ job = search rules

  process_job-Evolves : (job : Job) → Steps Evolves (process_job out n job)
  unfolding process_job
  process_job-Evolves job = search (rules, run-Evolves)

  -- One round of the worker, whatever the services answer and wherever a handler stops: every job is
  -- still there under its id, with the same sender, user, message, operation and time of creation,
  -- and its state has moved along allowed transitions only.
  pub run_once-Evolves : Steps Evolves (run_once out n)
  unfolding run_once
  run_once-Evolves = search (rules, process_job-Evolves)
