-- ===== src/Worker/Stranded.antt =====
-- A queued transcript whose stored file is gone.
use group_assessment_agent.Base.{◌≡◌, refl, none, some, [], find, update_where, ap, ◌∙◌}
use group_assessment_agent.Exec.{Result, ok, raised, catch, ◌>>=◌}
use group_assessment_agent.Messages.{Error, os_error}
use group_assessment_agent.Jobs.{Job, FilePath, queued, processing, submit_transcript, may_become}
use group_assessment_agent.World.{World}
use group_assessment_agent.Outside.{Outside}
use group_assessment_agent.Notifier.{Notifier}
use group_assessment_agent.JobStore.{has_id, set_status, enter}
use group_assessment_agent.FileStore.{at_path, move_to}
use group_assessment_agent.Handlers.Submit.{execute, stage}
use group_assessment_agent.Worker.{run, process_job}

taken :
    (w : World) (j : Job)
    → find (has_id j.job_id) w.jobs ≡ some j
    → j.status ≡ queued
    → set_status j.job_id processing [] w ≡ (
      ok tt,
      record w { jobs = update_where (has_id j.job_id) (enter processing [] w.now) w.jobs },
    )
unfolding set_status may_become
taken w j found state = rw (found, set_status, state) refl

not_staged :
    (out : Outside) (n : Notifier) (v : World) (j : Job) (path : FilePath)
    → find (at_path path) v.files ≡ none
    → stage out n j (some path) v ≡ (raised os_error, v)
unfolding move_to ◌>>=◌
not_staged out n v j path gone = rw (gone, move_to) refl

executed :
    (out : Outside) (n : Notifier) (w : World) (j : Job) (path : FilePath)
    → find (has_id j.job_id) w.jobs ≡ some j
    → j.status ≡ queued
    → j.attachment_storage_path ≡ some path
    → find (at_path path) w.files ≡ none
    → execute out n j w ≡ (raised os_error, (set_status j.job_id processing [] w).1)
unfolding execute move_to
executed out n w j path found state stored gone =
    let v' : World = record w {
      jobs = update_where (has_id j.job_id) (enter processing [] w.now) w.jobs;
    } in
    let staged : stage out n j j.attachment_storage_path v' ≡ (raised os_error, v') =
      ap (λ o. stage out n j o v') stored ∙ not_staged out n v' j path gone in
    rw (taken w j found state) (rw staged refl)

-- When the worker takes up a queued transcript whose stored file is gone, the job goes to
-- `processing`, and nothing else is done: it is not failed, no mail is queued, no alert is sent, and
-- no service is asked.
pub stranded :
    (out : Outside) (n : Notifier) (w : World) (j : Job) (path : FilePath)
    → find (has_id j.job_id) w.jobs ≡ some j
    → j.status ≡ queued
    → j.operation ≡ submit_transcript
    → j.attachment_storage_path ≡ some path
    → find (at_path path) w.files ≡ none
    → process_job out n j w ≡ (
      ok tt,
      record w { jobs = update_where (has_id j.job_id) (enter processing [] w.now) w.jobs },
    )
unfolding process_job catch
stranded out n w j path found state op stored gone =
    let v = (set_status j.job_id processing [] w).1 in
    let ran : run out n j.operation j w ≡ (raised os_error, v) =
      ap (λ o. run out n o j w) op ∙ executed out n w j path found state stored gone in
    rw (ran, catch)
      (ap (λ (r : Result Error (Unit {0}) × World). (ok tt, r.1)) (taken w j found state))
