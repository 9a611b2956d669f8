-- ===== src/Tests/Life.antt =====
-- The theorems on the life of a job and the loops, at concrete states.
use group_assessment_agent.Base.{
  lower, strip, after_last, ◌==◌, ◌≡◌, refl, some, [], ◌∷◌, find, update_where, codes,
}
use group_assessment_agent.Exec.{ok, raised}
use group_assessment_agent.Jobs.{queued, processing, completed, Job, may_become}
use group_assessment_agent.Jobs.Lifecycle.{◌⟶*◌, SameIdentity}
use group_assessment_agent.Messages.{attribute_error}
use group_assessment_agent.JobStore.{has_id, enter, set_status}
use group_assessment_agent.JobStore.Transitions.{set_status_allowed}
use group_assessment_agent.Pipeline.Message.{poll_once, process_message, process_command}
use group_assessment_agent.Pipeline.Outcomes.{begun, authorised_unhandled}
use group_assessment_agent.Worker.{run_once, process_job}
use group_assessment_agent.Mailbox.{EmailMessage}
use group_assessment_agent.Outside.{Outside}
use group_assessment_agent.Pipeline.Idle.{poll_once_jobs}
use group_assessment_agent.Pipeline.Strangers.{Replied, process_message-Replied}
use group_assessment_agent.Pipeline.Silence.{OnlyAlerts, is_rejection, turned_away}
use group_assessment_agent.Worker.Stranded.{stranded}
use group_assessment_agent.World.{World}
use group_assessment_agent.ProcessedStore.{begin, may_retry}
use group_assessment_agent.Auth.{in_domains, authorise, normalise_email, auth_pass, owner_id}
use group_assessment_agent.Safety.Reach.{
  Reaches, polled, worked, terminal_for_good, process_command_keeps, run_once_keeps,
}
use group_assessment_agent.Safety.Reach
use group_assessment_agent.Tests.{
  ann, job_id, job_in, start, world_with, passing, mail_from, config, outside, notifier, stored,
  status_command,
}

abbrev after_poll : World
after_poll = (poll_once outside config (world_with (job_in completed))).1

terminal_for_good_example :
    (k : Job) × (find (has_id job_id) after_poll.jobs ≡ some k)
    × SameIdentity (job_in completed) k
    × (k.status ≡ completed)
unfolding ◌==◌
terminal_for_good_example =
    terminal_for_good outside config job_id (job_in completed) (polled Reach.start) refl refl

-- The model reads a cancellation.
abbrev cancelling : Outside
cancelling = record outside {
  decode_json = λ s. some (record status_command { operation = codes "cancel" });
}

process_command_keeps_example :
    let w = world_with (job_in queued) in
    (k : Job) × (find
        (has_id job_id)
        (process_command cancelling config (mail_from ann passing) ann 7 w).1.jobs
      ≡ some k)
    × SameIdentity (job_in queued) k
    × (queued ⟶* k.status)
unfolding ◌==◌
process_command_keeps_example =
    process_command_keeps cancelling config (world_with (job_in queued)) job_id (job_in queued)
      (mail_from ann passing) ann 7 refl

run_once_keeps_example :
    (k : Job) × (find
        (has_id job_id)
        (run_once outside notifier (world_with (job_in queued))).1.jobs
      ≡ some k)
    × SameIdentity (job_in queued) k
    × (queued ⟶* k.status)
unfolding ◌==◌
run_once_keeps_example =
    run_once_keeps outside config (world_with (job_in queued)) job_id (job_in queued) refl

set_status_allowed_example :
    let k = enter processing [] 10 (job_in queued) in
    let w = world_with (job_in queued) in
    ((set_status job_id processing [] w).0 ≡ ok tt)
    × (k.status ≡ processing)
    × SameIdentity (job_in queued) k
    × (find (has_id job_id) (set_status job_id processing [] w).1.jobs ≡ some k)
unfolding may_become ◌==◌
set_status_allowed_example =
    set_status_allowed job_id processing [] (world_with (job_in queued)) (job_in queued) job_id refl
      refl

authorised_unhandled_example :
    process_message outside config (mail_from ann passing) start
    ≡ (raised attribute_error, (begun outside config (mail_from ann passing) start).1)
unfolding authorise begin normalise_email lower strip auth_pass ◌==◌ owner_id may_retry
authorised_unhandled_example =
    authorised_unhandled outside config (mail_from ann passing) start refl refl

stranded_example :
    let w = world_with (job_in queued) in
    process_job outside notifier (job_in queued) w
    ≡ (ok tt, record w { jobs = update_where (has_id job_id) (enter processing [] 10) w.jobs })
unfolding ◌==◌
stranded_example =
    stranded outside notifier (world_with (job_in queued)) (job_in queued) stored refl refl refl
      refl refl

abbrev eve : EmailMessage
eve = mail_from (codes "eve@elsewhere.net") passing

turned_away_example :
    OnlyAlerts notifier.admin_email start (process_message outside config eve start).1
unfolding authorise begin normalise_email lower strip auth_pass ◌==◌ owner_id in_domains may_retry
    is_rejection after_last
turned_away_example = turned_away outside config eve start refl refl

abbrev stranger : EmailMessage
stranger = mail_from (codes "Bob@Example.org") passing

process_message-Replied_example :
    Replied config stranger start (process_message outside config stranger start).1
unfolding authorise begin normalise_email lower strip auth_pass ◌==◌ owner_id in_domains may_retry
    after_last
process_message-Replied_example = process_message-Replied outside config stranger start refl refl

poll_once_jobs_example :
    (poll_once outside config (world_with (job_in queued))).1.jobs ≡ job_in queued ∷ []
poll_once_jobs_example = poll_once_jobs outside config (world_with (job_in queued))
