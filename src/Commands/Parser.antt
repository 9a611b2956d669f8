-- ===== src/Commands/Parser.antt =====
-- `EmailCommandParser` of app/llm/command_parser.py: the model is asked until its reply makes a
-- command, `max_retries + 1` times at most.
use group_assessment_agent.Base.{
  ℕ, zero, suc, ◌+◌, Text, true, false, Option, none, some, List, take,
}
use group_assessment_agent.Exec.{raise, value_or, ◌>>=◌}
use group_assessment_agent.Messages.{command_parsing_failed}
use group_assessment_agent.World.{Action}
use group_assessment_agent.Outside.{Outside, Prompt, ask}
use group_assessment_agent.Commands.{RawCommand, ParsedCommand, model_validate}

abbrev pub validated : Option RawCommand → Option ParsedCommand
validated none = none
validated (some r) = model_validate r

module _ (out : Outside) where
  -- The attempts that are left; the reminder is added after the first.
  unfoldable pub attempt : ℕ → Prompt → Action ParsedCommand
  unfolding ◌>>=◌ value_or
  attempt zero prompt = raise command_parsing_failed
  attempt (suc rounds) prompt = do
    raw ← ask (λ c. out.generate c prompt)
    value_or (validated (out.decode_json raw)) (attempt rounds (record prompt { reminded = true }))

  unfoldable pub parse_email : ℕ → ℕ → Text → List Text → Option Text → Action ParsedCommand
  unfolding attempt
  parse_email max_retries max_body_chars body filenames hint = attempt (max_retries + 1) (record {
    reminded = false;
    body = take max_body_chars body;
    filenames = filenames;
    thread_job_id = hint;
  })
