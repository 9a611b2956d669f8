-- ===== src/Jobs/Lifecycle.antt =====
-- The life of a job as a relation: chains of the transitions that `may_become` accepts.
use group_assessment_agent.Base.{◌≡◌, refl, true, false, arith, List, [], ◌∷◌, ◌⊎◌, Bool}
use group_assessment_agent.Jobs.{
  JobState, received, validating, needs_clarification, queued, processing, completed, failed,
  cancelled, may_become, Field, Job, assign, assign_all,
}

infix 40 ◌⟶*◌
pub data ◌⟶*◌ : JobState → JobState → Type 0 where
  here : {s : JobState} → s ⟶* s
  next : {s t u : JobState} → s ⟶* t → may_become t u ≡ true → s ⟶* u

pub ⟶*_trans : {s t u : JobState} → s ⟶* t → t ⟶* u → s ⟶* u
⟶*_trans p here = p
⟶*_trans p (next q e) = next (⟶*_trans p q) e

abbrev pub is_terminal : JobState → Bool
is_terminal completed = true
is_terminal failed = true
is_terminal cancelled = true
is_terminal _ = false

may_become_terminal : (s t : JobState) → is_terminal s ≡ true → may_become s t ≡ true → t ≡ s
unfolding may_become
may_become_terminal s t h e = ground arith

-- A job that is completed, failed or cancelled stays so along every chain of transitions.
pub ⟶*_terminal : {s t : JobState} → is_terminal s ≡ true → s ⟶* t → t ≡ s
⟶*_terminal h here = refl
⟶*_terminal {s} h (next {t = m} {u = u} p e) =
    ground (arith, ⟶*_terminal h p, may_become_terminal m u)

-- From every state that is not terminal, a job can still reach one that is.
pub ⟶*_failed : (s : JobState) → is_terminal s ≡ false → s ⟶* failed
unfolding may_become
⟶*_failed received h = next here refl
⟶*_failed validating h = next here refl
⟶*_failed needs_clarification h = next here refl
⟶*_failed queued h = next {t = processing} (next here refl) refl
⟶*_failed processing h = next here refl
⟶*_failed completed h = ground arith
⟶*_failed failed h = ground arith
⟶*_failed cancelled h = ground arith

-- Only a job that has been processed becomes completed: the state before is `processing`.
pub may_become_completed :
    (s : JobState) → may_become s completed ≡ true → (s ≡ processing) ⊎ (s ≡ completed)
unfolding may_become
may_become_completed s h = ground arith

-- The columns that identify a job and its state are not those that a caller may set.
pub record SameIdentity (j k : Job) : Type 0 where
  pub job_id : k.job_id ≡ j.job_id
  pub sender_email : k.sender_email ≡ j.sender_email
  pub backend_user_id : k.backend_user_id ≡ j.backend_user_id
  pub source_message_id : k.source_message_id ≡ j.source_message_id
  pub operation : k.operation ≡ j.operation
  pub created_at : k.created_at ≡ j.created_at

assign_keeps :
    (f : Field) (j : Job) → SameIdentity j (assign f j) × ((assign f j).status ≡ j.status)
unfolding assign
assign_keeps f j = ground arith

pub assign_all_keeps :
    (fs : List Field) (j : Job)
    → SameIdentity j (assign_all fs j) × ((assign_all fs j).status ≡ j.status)
unfolding assign_all
assign_all_keeps [] j = ground arith
assign_all_keeps (f ∷ fs) j = ground (arith, assign_keeps f j, assign_all_keeps fs (assign f j))
