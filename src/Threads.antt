-- ===== src/Threads.antt =====
-- `ThreadMatcher` of app/mail/thread_matcher.py: the job that a reply belongs to.
pub mod Ownership
use group_assessment_agent.Base.{
  Text, codes, strip, join, is_space, is_empty, nat_eq, ◌==◌, Option, none, some, List, [], ◌∷◌,
  ◌++◌, find_all, for_all, if◌then◌else◌,
}
use mathlib.Core.List.{reverse}
use group_assessment_agent.Exec.{pure, found_or, ◌>>=◌}
use group_assessment_agent.Jobs.{Job}
use group_assessment_agent.World.{Action}
use group_assessment_agent.Mailbox.{EmailMessage}
use group_assessment_agent.JobStore.{
  get_owned, get_by_response_message_id, get_by_last_response_message_id,
}
use group_assessment_agent.Commands.{job_id_pattern}

-- `<[^<>\s]+>`, from left to right. The first argument holds the characters since the last `<`,
-- the latest first, and is `none` outside of brackets.
tokens_from : Option Text → Text → List Text
tokens_from open_at [] = []
tokens_from none (c ∷ s) = tokens_from (if nat_eq c b'<' then some [] else none) s
tokens_from (some token) (c ∷ s) =
    let restart = tokens_from (some []) s in
    let none_open = tokens_from none s in
    let longer = tokens_from (some (c ∷ token)) s in
    if nat_eq c b'<'
    then restart
    else if nat_eq c b'>'
    then (if is_empty token
        then none_open
        else (codes "<" ++ (reverse token ++ codes ">")) ∷ none_open)
    else if is_space c
    then none_open
    else longer

-- `filter(None, values)`.
abbrev pub present : List (Option Text) → List Text
present [] = []
present (none ∷ vs) = present vs
present (some [] ∷ vs) = present vs
present (some (c ∷ cs) ∷ vs) = (c ∷ cs) ∷ present vs

abbrev pub or_raw : List Text → Text → List Text
or_raw [] [] = []
or_raw [] (c ∷ cs) = (c ∷ cs) ∷ []
or_raw (t ∷ ts) raw = t ∷ ts

unfoldable pub referenced_message_ids : Option Text → Option Text → List Text
unfolding tokens_from
referenced_message_ids in_reply_to references =
    let raw = join (codes " ") (present (in_reply_to ∷ references ∷ [])) in
    or_raw (tokens_from none raw) (strip raw)

unfoldable pub by_reference : Text → Text → Action (Option Job)
unfolding ◌>>=◌ found_or
by_reference sender ref = do
  job ← get_by_response_message_id ref sender
  found_or job (get_by_last_response_message_id ref sender)

unfoldable pub first_match : Text → List Text → Action (Option Job)
unfolding by_reference ◌>>=◌
first_match sender [] = pure none
first_match sender (ref ∷ refs) = do
  job ← by_reference sender ref
  found_or job (first_match sender refs)

-- The one element of the set of the found ids.
abbrev pub only_one : List Text → Option Text
only_one [] = none
only_one (t ∷ ts) = if for_all (λ u. u == t) ts then some t else none

abbrev pub by_mention : Text → Option Text → Action (Option Job)
by_mention sender none = pure none
by_mention sender (some job_id) = get_owned job_id sender

abbrev pub id_of : Option Job → Option Text
id_of none = none
id_of (some j) = some j.job_id

unfoldable pub match : EmailMessage → Text → Action (Option Text)
unfolding first_match ◌>>=◌
match msg sender = do
  replied ← first_match sender (referenced_message_ids msg.in_reply_to msg.references)
  job ← found_or replied (
      by_mention sender
        (only_one (find_all job_id_pattern msg.subject ++ find_all job_id_pattern msg.body_text)))
  pure (id_of job)
