-- ===== src/JobStore/Numbering.antt =====
-- The ids that `create_job` gives.
use group_assessment_agent.Base.{
  ℕ, zero, suc, ◌+◌, Text, ◌≡◌, refl, ap, ◌∙◌, none, List, [], ◌∷◌, ◌++◌, find, arith,
}
use group_assessment_agent.Exec.{Result, ok, raised}
use group_assessment_agent.Jobs.{Job, received, Operation, Field}
use group_assessment_agent.Jobs.Lifecycle.{assign_all_keeps}
use group_assessment_agent.Messages.{Error}
use group_assessment_agent.World.{World}
use group_assessment_agent.JobStore.{has_id, id_prefix, blank_job, new_job, allocate, create_job}
use group_assessment_agent.JobStore.Evolution.{find-snoc_fresh}

-- An id that is given was free, and the new row is the job made for it.
allocate_fresh :
    (rounds attempt : ℕ) (prefix : Text) (make : Text → ℕ → Job) (w : World) (job_id : Text)
    → (allocate rounds attempt prefix make w).0 ≡ ok job_id
    → (find (has_id job_id) w.jobs ≡ none)
      × ((allocate rounds attempt prefix make w).1.jobs ≡ w.jobs ++ (make job_id w.now ∷ []))
unfolding allocate
allocate_fresh zero attempt prefix make w job_id h = ground arith
allocate_fresh (suc rounds) attempt prefix make w job_id h =
    ground (arith, allocate_fresh rounds (attempt + 1) prefix make w job_id)

new_job_identity :
    (sender : Text) (user : ℕ) (message : Text) (operation : Operation) (fields : List Field)
    (job_id : Text) (now : ℕ)
    → let j = new_job sender user message operation fields job_id now in
      (j.job_id ≡ job_id)
      × (j.status ≡ received)
      × (j.sender_email ≡ sender)
      × (j.source_message_id ≡ message)
      × (j.operation ≡ operation)
unfolding new_job
new_job_identity sender user message operation fields job_id now =
    ground (arith, assign_all_keeps fields (blank_job sender user message operation job_id now))

-- A job that `create_job` returns is new: its id was free, its row is the last one, it is received,
-- it belongs to the sender and the message, and the other rows are as before.
pub create_job_fresh :
    (sender : Text) (user : ℕ) (message : Text) (operation : Operation) (fields : List Field)
    (w : World) (j : Job)
    → (create_job sender user message operation fields w).0 ≡ ok j
    → (find (has_id j.job_id) w.jobs ≡ none)
      × ((create_job sender user message operation fields w).1.jobs ≡ w.jobs ++ (j ∷ []))
      × (j.status ≡ received)
      × (j.sender_email ≡ sender)
      × (j.source_message_id ≡ message)
      × (j.operation ≡ operation)
unfolding create_job
create_job_fresh sender user message operation fields w j h =
    go (allocate 10 0 prefix make w).0 refl
  where
    prefix : Text
    prefix = id_prefix w.today

    make : Text → ℕ → Job
    make = new_job sender user message operation fields

    go :
        (r : Result Error Text)
        → (allocate 10 0 prefix make w).0 ≡ r
        → (find (has_id j.job_id) w.jobs ≡ none)
          × ((create_job sender user message operation fields w).1.jobs ≡ w.jobs ++ (j ∷ []))
          × (j.status ≡ received)
          × (j.sender_email ≡ sender)
          × (j.source_message_id ≡ message)
          × (j.operation ≡ operation)
    go (raised e) eq = absurd (ground arith)
    go (ok job_id) eq =
        let (free, rows) = allocate_fresh 10 0 prefix make w job_id eq in
        let facts = new_job_identity sender user message operation fields job_id w.now in
        let found = find-snoc_fresh job_id w.jobs (make job_id w.now) free facts.0 in
        let found' = rw (← rows) at found in
        let same : j ≡ make job_id w.now = ground (arith, found') in
        let id_of : j.job_id ≡ job_id = ap (λ (k : Job). k.job_id) same ∙ facts.0 in
        (
          rw id_of free,
          ground (arith, same),
          ground arith,
          ground arith,
          ground arith,
          ground arith,
        )
