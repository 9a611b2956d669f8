-- ===== src/Commands/Attempts.antt =====
-- How often `parse_email` asks the model, and what it may return.
use group_assessment_agent.Base.{
  ℕ, zero, suc, ◌+◌, ◌≤◌, Text, ◌≡◌, refl, ap, ◌∙◌, true, Option, none, some, List, arith,
  Option-cases, inl, inr,
}
use group_assessment_agent.Exec.{Result, ok, raised}
use group_assessment_agent.Messages.{Error}
use group_assessment_agent.World.{World}
use group_assessment_agent.Outside.{Outside, Prompt, ask}
use group_assessment_agent.Commands.{RawCommand, ParsedCommand, model_validate}
use group_assessment_agent.Commands.Parser.{validated, attempt, parse_email}

validated-some :
    (o : Option RawCommand) (cmd : ParsedCommand)
    → validated o ≡ some cmd
    → (r : RawCommand) × (o ≡ some r) × (model_validate r ≡ some cmd)
validated-some none cmd h = absurd (ground arith)
validated-some (some r) cmd h = (r, refl, h)

module _ (out : Outside) where
  -- Asking the model is all that is done, once in each attempt.
  attempt_calls :
      (n : ℕ) (prompt : Prompt) (w : World)
      → ((attempt out n prompt w).1.calls ≤ w.calls + n)
        × ((attempt out n prompt w).1 ≡ record w { calls = (attempt out n prompt w).1.calls })
  unfolding attempt ask
  attempt_calls zero prompt w = (omega arith, refl)
  attempt_calls (suc n) prompt w = ground (
    arith,
    attempt_calls n (record prompt { reminded = true }) (record w { calls = w.calls + 1 }),
  )

  attempt_accepted :
      (n : ℕ) (prompt : Prompt) (w : World) (cmd : ParsedCommand)
      → (attempt out n prompt w).0 ≡ ok cmd
      → (raw : Text) × (r : RawCommand) × (out.decode_json raw ≡ some r)
        × (model_validate r ≡ some cmd)
  unfolding attempt ask
  attempt_accepted zero prompt w cmd h = absurd (ground arith)
  attempt_accepted (suc n) prompt w cmd h =
      go
        (attempt_accepted n (record prompt { reminded = true }) (record w { calls = w.calls + 1 })
          cmd)
        (out.generate w.calls prompt) refl
    where
      Accepted : Type 0
      Accepted =
          (raw : Text) × (r : RawCommand) × (out.decode_json raw ≡ some r)
          × (model_validate r ≡ some cmd)

      go :
          ((attempt out n (record prompt { reminded = true }) (record w { calls = w.calls + 1 })).0
              ≡ ok cmd
            → Accepted)
          → (g : Result Error Text) → out.generate w.calls prompt ≡ g
          → Accepted
      go ih (raised e) eq = absurd (ground arith)
      go ih (ok raw) eq = elim (Option-cases (validated (out.decode_json raw))) [
        | inl e ↦ ih (ground arith)
        | inr (c, e) ↦
            let (r, decoded, valid) = validated-some (out.decode_json raw) c e in
            (raw, r, decoded, valid ∙ ap some (ground arith))
      ]

  -- Whatever the model answers, it is asked `max_retries + 1` times at most, and nothing but the
  -- number of questions changes.
  pub parse_email_calls :
      (max_retries max_chars : ℕ) (body : Text) (filenames : List Text) (hint : Option Text)
      (w : World)
      → let after = (parse_email out max_retries max_chars body filenames hint w).1 in
        (after.calls ≤ w.calls + (max_retries + 1)) × (after ≡ record w { calls = after.calls })
  unfolding parse_email
  parse_email_calls max_retries max_chars body filenames hint w =
      attempt_calls (max_retries + 1) _ w

  -- A command that is returned is one that the schema has accepted, from a text of JSON.
  pub parse_email_accepted :
      (max_retries max_chars : ℕ) (body : Text) (filenames : List Text) (hint : Option Text)
      (w : World) (cmd : ParsedCommand)
      → (parse_email out max_retries max_chars body filenames hint w).0 ≡ ok cmd
      → (raw : Text) × (r : RawCommand) × (out.decode_json raw ≡ some r)
        × (model_validate r ≡ some cmd)
  unfolding parse_email
  parse_email_accepted max_retries max_chars body filenames hint w cmd h =
      attempt_accepted (max_retries + 1) _ w cmd h
