-- ===== src/JobStore/Queue.antt =====
-- What the worker takes from the queue, and what a sender may see.
use group_assessment_agent.Base.{
  Text, lower, eq_of_==, ==_iff, ◌≡◌, refl, Option, none, some, List, select, find, order_by,
  order_by-perm, order_by-IsOrdered, IsOrdered, arith, ◌↔◌,
}
use mathlib.Core.List.{Perm}
use group_assessment_agent.Exec.{ok}
use group_assessment_agent.Jobs.{queued, same_state, Job}
use group_assessment_agent.World.{World}
use group_assessment_agent.JobStore.{has_id, list_queued, get_owned, owned_by}

-- The queue is the queued jobs, each as often as it is there, by time of creation; reading it changes
-- nothing.
pub list_queued_exact :
    (w : World)
    → (jobs : List Job) × (list_queued w ≡ (ok jobs, w))
      × Perm jobs (select (λ j. same_state j.status queued) w.jobs)
      × IsOrdered (λ j. j.created_at) jobs
unfolding list_queued
list_queued_exact w =
    let rows = select (λ (j : Job). same_state j.status queued) w.jobs in
    (
      order_by (λ j. j.created_at) rows,
      refl,
      order_by-perm (λ j. j.created_at) rows,
      order_by-IsOrdered (λ j. j.created_at) rows,
    )

owned_by-some :
    (sender : Text) (o : Option Job) (j : Job)
    → (owned_by sender o ≡ some j) ↔ ((o ≡ some j) × (lower j.sender_email ≡ lower sender))
unfolding owned_by
owned_by-some sender none j = (λ h. ground arith, λ h. ground arith)
owned_by-some sender (some k) j = (
  λ h. ground (arith, eq_of_== (lower k.sender_email) (lower sender)),
  λ h. ground (arith, ==_iff (lower k.sender_email) (lower sender)),
)

-- A look-up for a sender returns the job of that id when its sender is the same but for the case of
-- letters, and otherwise answers as it does for an id that no job has. It changes nothing.
pub get_owned_exact :
    (job_id sender : Text) (w : World) (j : Job)
    → (get_owned job_id sender w ≡ (ok (some j), w))
      ↔ ((find (has_id job_id) w.jobs ≡ some j) × (lower j.sender_email ≡ lower sender))
unfolding get_owned
get_owned_exact job_id sender w j = (
  λ h. (owned_by-some sender (find (has_id job_id) w.jobs) j).0 (ground arith),
  λ h. rw ((owned_by-some sender (find (has_id job_id) w.jobs) j).1 h),
)
