-- ===== src/Safety/Reach.antt =====
-- The loops of app/main.py and the runs of app/weekly_update.py as a step relation: they take turns
-- on the shared state, one whole turn after the other, and time passes in between.
use group_assessment_agent.Base.{ℕ, Text, ◌≡◌, true, some, List, find}
use group_assessment_agent.World.{World}
use group_assessment_agent.Outside.{Outside}
use group_assessment_agent.Mailbox.{EmailMessage}
use group_assessment_agent.Jobs.{Job}
use group_assessment_agent.Jobs.Lifecycle.{◌⟶*◌, SameIdentity, is_terminal, ⟶*_terminal}
use group_assessment_agent.JobStore.{has_id}
use group_assessment_agent.JobStore.Evolution.{Evolves, Evolves-IsPreorder}
use group_assessment_agent.Pipeline.{Config}
use group_assessment_agent.Pipeline.Message.{poll_once, process_command}
use group_assessment_agent.Pipeline.Flush.{flush_outbox}
use group_assessment_agent.Worker.{run_once}
use group_assessment_agent.Weekly.Workflow.{Engine}
use group_assessment_agent.Weekly.Run
use group_assessment_agent.Weekly.Frame.{run_once-Steps}
use group_assessment_agent.Safety.Weekly.{jobs_frame}
use group_assessment_agent.Safety.Pipeline.{poll_once-Evolves, process_command-Evolves}
use group_assessment_agent.Safety.Flush.{flush_outbox-Evolves}
use group_assessment_agent.Safety.Worker.{run_once-Evolves}

abbrev at_time : ℕ → Text → World → World
at_time now today w = record w { now = now; today = today }

module _ (out : Outside) (config : Config) (w : World) (job_id : Text) (j : Job) where
  -- The handling of a message as a command, from the match of its thread on, whatever it says, however
  -- the model reads it and wherever it stops: a job that is there is still there under its id, with
  -- the same sender, user, message, operation and time of creation, and its state has moved along
  -- allowed transitions only.
  pub process_command_keeps :
      (msg : EmailMessage) (sender : Text) (user : ℕ)
      → find (has_id job_id) w.jobs ≡ some j
      → (k : Job) × (find (has_id job_id) (process_command out config msg sender user w).1.jobs
          ≡ some k)
        × SameIdentity j k
        × (j.status ⟶* k.status)
  process_command_keeps msg sender user found =
      let (k, found', later) =
        ((process_command-Evolves out config msg sender user).at w).at job_id j found in
      (k, found', later.identity, later.path)

  -- One round of the worker, whatever the services answer and wherever a handler stops: a job that
  -- is there is still there under its id, with the same sender, user, message, operation and time of
  -- creation, and its state has moved along allowed transitions only.
  pub run_once_keeps :
      find (has_id job_id) w.jobs ≡ some j
      → (k : Job) × (find (has_id job_id) (run_once out config.notifier w).1.jobs ≡ some k)
        × SameIdentity j k
        × (j.status ⟶* k.status)
  run_once_keeps found =
      let (k, found', later) = ((run_once-Evolves out config.notifier).at w).at job_id j found in
      (k, found', later.identity, later.path)

module _ (out : Outside) (config : Config) where
  pub data Reaches : World → World → Type 0 where
    start : {w : World} → Reaches w w
    polled : {w v : World} → Reaches w v → Reaches w (poll_once out config v).1
    flushed : {w v : World} → Reaches w v → Reaches w (flush_outbox out v).1
    worked : {w v : World} → Reaches w v → Reaches w (run_once out config.notifier v).1
    reported :
        {w v : World}
        → Reaches w v
        → (engine : Engine) (lookback_days : ℕ) (today : ℕ) (owners : List (Text × ℕ))
        → Reaches w (Run.run_once out engine config.notifier lookback_days today owners v).1
    waited :
        {w v : World} → Reaches w v → (now : ℕ) (today : Text) → Reaches w (at_time now today v)

  pub Reaches-Evolves : {w v : World} → Reaches w v → Evolves w v
  Reaches-Evolves {w} start = Evolves-IsPreorder.refl_at w
  Reaches-Evolves {w} (polled {v = v} r) =
      Evolves-IsPreorder.trans_at w v (poll_once out config v).1 (Reaches-Evolves r)
        ((poll_once-Evolves out config).at v)
  Reaches-Evolves {w} (flushed {v = v} r) =
      Evolves-IsPreorder.trans_at w v (flush_outbox out v).1 (Reaches-Evolves r)
        ((flush_outbox-Evolves out).at v)
  Reaches-Evolves {w} (worked {v = v} r) =
      Evolves-IsPreorder.trans_at w v (run_once out config.notifier v).1 (Reaches-Evolves r)
        ((run_once-Evolves out config.notifier).at v)
  Reaches-Evolves {w} (reported {v = v} r engine lookback_days today owners) =
      Evolves-IsPreorder.trans_at w v
        (Run.run_once out engine config.notifier lookback_days today owners v).1 (Reaches-Evolves r)
        ((run_once-Steps jobs_frame out engine config.notifier lookback_days today owners).at v)
  Reaches-Evolves {w} (waited {v = v} r now today) =
      Evolves-IsPreorder.trans_at w v (at_time now today v) (Reaches-Evolves r)
        (Evolves-IsPreorder.refl_at v)

  -- However the loops and the weekly runs take turns, a job that is completed, failed or cancelled keeps that state for
  -- good: it is still found under its id, with the same sender, user, message and operation. The loops take
  -- turns as a whole, so that no two statements of different turns are interleaved.
  pub terminal_for_good :
      {w v : World} (job_id : Text) (j : Job)
      → Reaches w v
      → find (has_id job_id) w.jobs ≡ some j
      → is_terminal j.status ≡ true
      → (k : Job) × (find (has_id job_id) v.jobs ≡ some k)
        × SameIdentity j k
        × (k.status ≡ j.status)
  terminal_for_good job_id j r found over =
      let (k, found', later) = (Reaches-Evolves r).at job_id j found in
      (k, found', later.identity, ⟶*_terminal over later.path)
