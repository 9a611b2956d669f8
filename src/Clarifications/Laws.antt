-- ===== src/Clarifications/Laws.antt =====
-- The store of open questions as a map from job ids.
use group_assessment_agent.Base.{
  Text, ◌==◌, ==_iff, ◌≡◌, refl, not, Option, none, some, List, [], ◌∷◌, ◌++◌, find, select,
  update_where, if◌then◌else◌, arith, ℕ, Option-cases, inl, inr,
}
use group_assessment_agent.Messages.{Question}
use group_assessment_agent.World.{World, PendingClarification}
use group_assessment_agent.Clarifications.{has_job, put, delete}

-- The question that waits for an answer about a job.
abbrev pub waiting : Text → List PendingClarification → Option PendingClarification
waiting job_id rows = find (has_job job_id) rows

abbrev pub asked : Text → Question → List Text → ℕ → PendingClarification
asked job_id question options now = record {
  job_id = job_id;
  question = question;
  options = options;
  created_at = now;
}

abbrev re_asked : Question → List Text → ℕ → PendingClarification → PendingClarification
re_asked question options now c = record c {
  question = question;
  options = options;
  created_at = now;
}

find-snoc :
    (id j : Text) (rows : List PendingClarification) (c : PendingClarification)
    → c.job_id ≡ id
    → waiting id rows ≡ none
    → waiting j (rows ++ (c ∷ [])) ≡ (if id == j then some c else waiting j rows)
find-snoc id j [] c e h = ground arith
find-snoc id j (x ∷ xs) c e h =
    ground (arith, find-snoc id j xs c, ==_iff x.job_id id, ==_iff x.job_id j, ==_iff id j)

abbrev changed :
    (PendingClarification → PendingClarification)
    → Option PendingClarification
    → Option PendingClarification
changed f none = none
changed f (some c) = some (f c)

find-re_asked :
    (id j : Text) (q : Question) (o : List Text) (now : ℕ) (rows : List PendingClarification)
    → waiting j (update_where (has_job id) (re_asked q o now) rows)
      ≡ (if id == j then changed (re_asked q o now) (waiting j rows) else waiting j rows)
find-re_asked id j q o now [] = ground arith
find-re_asked id j q o now (x ∷ xs) =
    ground
      (arith, find-re_asked id j q o now xs, ==_iff x.job_id id, ==_iff x.job_id j, ==_iff id j)

find_key :
    (id : Text) (rows : List PendingClarification) (c : PendingClarification)
    → waiting id rows ≡ some c
    → c.job_id ≡ id
find_key id [] c h = absurd (ground arith)
find_key id (x ∷ xs) c h = ground (arith, find_key id xs c, ==_iff x.job_id id)

-- `put` is the update of a map at one key: the job's open question is the new one, whether or not
-- there was one before, and those of all other jobs are as before.
pub put-waiting :
    (id j : Text) (q : Question) (o : List Text) (w : World)
    → waiting j (put id q o w).1.clarifications
      ≡ (if id == j then some (asked id q o w.now) else waiting j w.clarifications)
unfolding put
put-waiting id j q o w = elim (Option-cases (waiting id w.clarifications)) [
  | inl e ↦ rw e (find-snoc id j w.clarifications (asked id q o w.now) refl e)
  | inr (c, e) ↦ rw e (
      ground (
        arith,
        find-re_asked id j q o w.now w.clarifications,
        find_key id w.clarifications c e,
        ==_iff id j,
      ))
]

-- `delete` removes the job's open question, and those of all other jobs are as before.
pub delete-waiting :
    (id j : Text) (w : World)
    → waiting j (delete id w).1.clarifications
      ≡ (if id == j then none else waiting j w.clarifications)
unfolding delete
delete-waiting id j w = go w.clarifications
  where
    go :
        (rows : List PendingClarification)
        → waiting j (select (λ c. not (has_job id c)) rows)
          ≡ (if id == j then none else waiting j rows)
    go [] = ground arith
    go (x ∷ xs) = ground (arith, go xs, ==_iff x.job_id id, ==_iff x.job_id j, ==_iff id j)
