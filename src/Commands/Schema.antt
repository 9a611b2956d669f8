-- ===== src/Commands/Schema.antt =====
-- What a command that the schema accepts is known to satisfy.
use group_assessment_agent.Base.{
  Text, not, ◌≡◌, refl, ◌∙◌, ap, sym, Bool, true, ◌||◌, ◌&&◌, none, some, is_some, List, [], ◌∷◌,
  arith, Option-cases, Bool-cases, inl, inr,
}
use group_assessment_agent.Jobs.{Operation}
use group_assessment_agent.Commands.{
  RawCommand, ParsedCommand, model_validate, parse_operation, fields_fit, convert, with_question,
  build, is_job_id, bare, no_extra,
}

-- A command that is accepted comes from an object without unknown keys, whose operation is one of
-- the six and whose attachment name has no path in it; its job id is absent or has the form of one,
-- and if it asks for a clarification it has a question.
pub record IsWellFormed (r : RawCommand) (c : ParsedCommand) : Type 0 where
  pub no_extra : r.extra ≡ []
  pub known : parse_operation r.operation ≡ some c.operation
  pub no_path : bare r.attachment ≡ true
  pub job_id : is_job_id c.job_id ≡ true
  pub question : (not c.requires_clarification || is_some c.clarification_question) ≡ true

-- The first, the fourth and the last test of `fields_fit`.
three_of_ten :
    (a b c d e f g h i j : Bool)
    → (a && b && c && d && e && f && g && h && i && j) ≡ true
    → (a ≡ true) × (d ≡ true) × (j ≡ true)
three_of_ten a b c d e f g h i j all = ground arith

fits :
    (r : RawCommand)
    → fields_fit r ≡ true
    → (no_extra r.extra ≡ true) × (is_job_id r.job_id ≡ true) × (bare r.attachment ≡ true)
unfolding fields_fit
fits r h = three_of_ten _ _ _ _ _ _ _ _ _ _ h

none_extra : (l : List Text) → no_extra l ≡ true → l ≡ []
none_extra [] h = refl
none_extra (x ∷ xs) h = absurd (ground arith)

checked :
    (r : RawCommand) (op : Operation) (c : ParsedCommand)
    → build r (some op) ≡ some c
    → (fields_fit r ≡ true) × (with_question (convert r op) ≡ some c)
checked r op c h = elim (Bool-cases (fields_fit r)) [
  | inl fit ↦ (fit, rw fit at h)
  | inr unfit ↦ let h' : none ≡ some c = rw unfit at h in absurd (ground arith)
]

questioned :
    (d c : ParsedCommand)
    → with_question d ≡ some c
    → (d ≡ c) × ((not c.requires_clarification || is_some c.clarification_question) ≡ true)
questioned d c h = ground arith

built :
    (r : RawCommand) (op : Operation) (c : ParsedCommand)
    → parse_operation r.operation ≡ some op
    → build r (some op) ≡ some c
    → IsWellFormed r c
unfolding convert
built r op c known h =
    let (fit, converted) = checked r op c h in
    let (extra, id, path) = fits r fit in
    let (same, question) = questioned (convert r op) c converted in
    record {
      no_extra = none_extra r.extra extra;
      known = known ∙ ap (λ (d : ParsedCommand). some d.operation) same;
      no_path = path;
      job_id = ap (λ (d : ParsedCommand). is_job_id d.job_id) (sym same) ∙ id;
      question = question;
    }

pub model_validate-IsWellFormed :
    (r : RawCommand) (c : ParsedCommand) → model_validate r ≡ some c → IsWellFormed r c
unfolding model_validate
model_validate-IsWellFormed r c h = elim (Option-cases (parse_operation r.operation)) [
  | inl e ↦ absurd (ground arith)
  | inr (op, e) ↦ built r op c e (rw e at h)
]
