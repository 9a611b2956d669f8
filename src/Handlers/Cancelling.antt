-- ===== src/Handlers/Cancelling.antt =====
-- What a cancellation does, in every state of the job.
use group_assessment_agent.Base.{
  Text, lower, ◌==◌, ◌≡◌, refl, true, false, ◌⊎◌, Option, some, [], ◌∷◌, ◌++◌, find, arith, inl,
  inr, if◌then◌else◌,
}
use group_assessment_agent.Exec.{ok}
use group_assessment_agent.Jobs.{JobState, queued, needs_clarification, Job, cancelled, may_become}
use group_assessment_agent.Jobs.Lifecycle.{SameIdentity}
use group_assessment_agent.Messages
use group_assessment_agent.Messages.{Mail}
use group_assessment_agent.World.{World, OutboxMessage}
use group_assessment_agent.JobStore.{has_id, get_owned, enter}
use group_assessment_agent.JobStore.Queue.{get_owned_exact}
use group_assessment_agent.JobStore.Transitions.{set_status_writes, set_status_allowed}
use group_assessment_agent.Outbox.{enqueue}
use group_assessment_agent.Commands.Validation.{ValidatedCommand}
use group_assessment_agent.Handlers.{handle_cancel, cancellable}
use group_assessment_agent.Handlers.Outcome.{HandlerOutcome, outcome, was_cancelled, cannot_cancel}

-- The worker has not taken the job up.
abbrev pub Waiting : JobState → Type 0
Waiting s = (s ≡ queued) ⊎ (s ≡ needs_clarification)

-- One mail to `to`, behind those that were there.
pub record Answered (to : Text) (mail : Mail) (w v : World) : Type 0 where
  pub answer : OutboxMessage
  pub last : v.outbox ≡ w.outbox ++ (answer ∷ [])
  pub addressed : answer.to_email ≡ to
  pub text : answer.mail ≡ mail

-- What a cancellation of `j` by `sender` has done, also to the job under the id `other`.
pub data Cancels (sender other : Text) (j : Job) (w v : World) : HandlerOutcome → Type 0 where
  done :
      Waiting j.status
      → (k : Job) → k.status ≡ cancelled
      → SameIdentity j k
      → find (has_id other) v.jobs
        ≡ (if j.job_id == other then some k else find (has_id other) w.jobs)
      → Answered sender (Messages.cancelled j.job_id) w v
      → Cancels sender other j w v (outcome was_cancelled j.job_id)
  declined :
      ¬ Waiting j.status
      → v.jobs ≡ w.jobs
      → Answered sender (Messages.cannot_cancel j.job_id j.status) w v
      → Cancels sender other j w v (outcome cannot_cancel j.job_id)

waits_or_not :
    (sender : Text) (in_reply_to references : Option Text) (s : JobState)
    → (Waiting s
        × (cancellable sender in_reply_to references s ≡ true)
        × (may_become s cancelled ≡ true))
      ⊎ (¬ Waiting s × (cancellable sender in_reply_to references s ≡ false))
unfolding may_become
waits_or_not sender in_reply_to references queued = inl (inl refl, refl, refl)
waits_or_not sender in_reply_to references needs_clarification = inl (inr refl, refl, refl)
waits_or_not sender in_reply_to references _ = inr (ground arith)

module _ (sender : Text) (in_reply_to references : Option Text) (w : World) (j : Job)
    (cmd : ValidatedCommand) where
  looked_up :
      cmd.job_id ≡ some j.job_id
      → find (has_id j.job_id) w.jobs ≡ some j
      → lower j.sender_email ≡ lower sender
      → get_owned j.job_id sender w ≡ (ok (some j), w)
  looked_up named found owned = (get_owned_exact j.job_id sender w j).1 (found, owned)

  -- The request of a job's sender to cancel it is answered by one mail to the sender, behind those that
  -- were there. A job that is queued or needs a clarification is then `cancelled` and keeps its
  -- identity, and the other jobs are as before; in any other state no job is changed, and the mail
  -- names the state.
  pub handle_cancel-Cancels :
      (other : Text)
      → cmd.job_id ≡ some j.job_id
      → find (has_id j.job_id) w.jobs ≡ some j
      → lower j.sender_email ≡ lower sender
      → (o : HandlerOutcome) × ((handle_cancel sender in_reply_to references cmd w).0 ≡ ok o)
        × Cancels sender other j w (handle_cancel sender in_reply_to references cmd w).1 o
  unfolding handle_cancel enqueue
  handle_cancel-Cancels other named found owned =
      elim (waits_or_not sender in_reply_to references j.status) [
        | inl (waits, can, allowed) ↦
            let (_, state, same, at) =
              set_status_allowed j.job_id cancelled [] w j other found allowed in
            let writes = set_status_writes j.job_id cancelled [] w j found allowed in
            rw named (
              rw (looked_up named found owned) (
                rw can (
                  rw writes (
                    _,
                    refl,
                    done waits (enter cancelled [] w.now j) state same (rw writes at at)
                        (record { answer = _; last = refl; addressed = refl; text = refl }),
                  ))))
        | inr (over, cannot) ↦ rw named (
            rw (looked_up named found owned) (
              rw cannot (
                _,
                refl,
                declined over refl
                    (record { answer = _; last = refl; addressed = refl; text = refl }),
              )))
      ]
