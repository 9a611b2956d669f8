-- ===== src/Worker.antt =====
-- `JobWorker` of app/jobs/worker.py: the queued jobs, one after the other.
pub mod Stranded
use group_assessment_agent.Base.{ℕ, List, length}
use group_assessment_agent.Exec.{pure, ◌>>=◌, ◌>>◌, catch, for_each}
use group_assessment_agent.Jobs.{Operation, submit_transcript, assess_query, Job}
use group_assessment_agent.World.{Action}
use group_assessment_agent.Outside.{Outside}
use group_assessment_agent.Notifier.{Notifier}
use group_assessment_agent.JobStore.{list_queued}
use group_assessment_agent.Handlers.Submit
use group_assessment_agent.Handlers.Assess

module _ (out : Outside) (n : Notifier) where
  -- An operation that makes no jobs is only logged.
  abbrev pub run : Operation → Job → Action (Unit {0})
  run submit_transcript job = Submit.execute out n job
  run assess_query job = Assess.execute out n job
  run _ job = pure tt

  -- An error that the handler lets through is logged.
  unfoldable pub process_job : Job → Action (Unit {0})
  unfolding ◌>>=◌
  process_job job = catch (run job.operation job) (λ _. pure tt)

  unfoldable pub run_once : Action ℕ
  unfolding ◌>>=◌ process_job for_each
  run_once = do jobs ← list_queued; for_each jobs process_job; pure (length jobs)
