-- ===== src/JobStore/Transitions.antt =====
-- What an allowed `set_status` does to the job that it names and to the others.
use group_assessment_agent.Base.{
  Text, ◌==◌, ==_iff, ◌≡◌, refl, true, some, List, find, update_where, arith, if◌then◌else◌,
}
use group_assessment_agent.Exec.{ok}
use group_assessment_agent.Jobs.{JobState, Field, Job, may_become}
use group_assessment_agent.Jobs.Lifecycle.{SameIdentity}
use group_assessment_agent.World.{World}
use group_assessment_agent.JobStore.{has_id, set_status, enter}
use group_assessment_agent.JobStore.Evolution.{enter_keeps, find-update_where}

module _ (id : Text) (new : JobState) (fields : List Field) (w : World) (j : Job) where
  -- The statement that an allowed change comes down to.
  pub set_status_writes :
      find (has_id id) w.jobs ≡ some j
      → may_become j.status new ≡ true
      → set_status id new fields w
        ≡ (ok tt, record w { jobs = update_where (has_id id) (enter new fields w.now) w.jobs })
  unfolding set_status
  set_status_writes found allowed = rw (found, set_status, allowed) refl

  -- An allowed change of state succeeds: the job has the new state and the same identity, and a job
  -- under any other id is as before.
  pub set_status_allowed :
      (other : Text)
      → find (has_id id) w.jobs ≡ some j
      → may_become j.status new ≡ true
      → let k = enter new fields w.now j in
        ((set_status id new fields w).0 ≡ ok tt)
        × (k.status ≡ new)
        × SameIdentity j k
        × (find (has_id other) (set_status id new fields w).1.jobs
            ≡ (if id == other then some k else find (has_id other) w.jobs))
  unfolding set_status
  set_status_allowed other found allowed =
      let facts = enter_keeps new fields w.now j in
      (
        rw (found, set_status, allowed) refl,
        facts.1,
        facts.0,
        rw (found, set_status, allowed)
            (ground (
              arith,
              find-update_where id other (enter new fields w.now) w.jobs
                  (λ k. (enter_keeps new fields w.now k).0.job_id),
              ==_iff id other,
            )),
      )
