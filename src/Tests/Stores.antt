-- ===== src/Tests/Stores.antt =====
-- The theorems on the stores, at concrete tables.
use group_assessment_agent.Base.{
  arith, ◌+◌, ◌≤◌, Text, codes, ◌==◌, lower, pad4, starts_with, ◌≡◌, ◌↔◌, refl, true, false, none,
  some, List, [], ◌∷◌, ◌++◌, find, select, IsOrdered,
}
use mathlib.Core.List.{Perm}
use group_assessment_agent.Exec.{ok}
use group_assessment_agent.Jobs.{queued, received, status, same_state, Job, assign_all}
use group_assessment_agent.Messages.{
  rephrase, os_error, infrastructure, model_unreachable, unparsed_email,
}
use group_assessment_agent.World.{World, authorised, handled, OutboxMessage, failed}
use group_assessment_agent.JobStore.{
  has_id, id_prefix, count_today, new_job, allocate, create_job, list_queued, get_owned,
}
use group_assessment_agent.JobStore.Numbering.{create_job_fresh}
use group_assessment_agent.JobStore.Queue.{list_queued_exact, get_owned_exact}
use group_assessment_agent.ProcessedStore.{begin, finalize}
use group_assessment_agent.ProcessedStore.Attempts.{
  row, attempts_of, begin_times, begin_exact, begin_at_most_three, begin-finalize,
}
use group_assessment_agent.Outbox.Sending
use group_assessment_agent.Outbox.Sending.{fail_times, fail_times_exact}
use group_assessment_agent.Clarifications
use group_assessment_agent.Clarifications.Laws.{waiting, asked, put-waiting}
use group_assessment_agent.Notifier.{alert, should_send, record_sent}
use group_assessment_agent.Notifier.Cooldown.{alert_within_cooldown}
use group_assessment_agent.Outbox.{enqueue}
use group_assessment_agent.Tests.{ann, job_id, job_in, start, world_with, notifier, queued_mail}

abbrev m1 : Text
m1 = codes "<m1@x>"

-- The message has been begun once.
abbrev begun_once : World
begun_once = (begin m1 ann authorised start).1

begin_exact_example : (begin m1 ann authorised start).0 ≡ ok true
begin_exact_example = begin_exact m1 ann authorised start

begin_at_most_three_example :
    (begin_times 5 m1 ann authorised start).0 + attempts_of (row m1 start.processed) ≤ 3
begin_at_most_three_example = begin_at_most_three 5 m1 ann authorised start (omega arith)

begin-finalize_example :
    let w = (finalize m1 handled none none begun_once).1 in
    begin m1 ann authorised w ≡ (ok false, w)
unfolding begin ◌==◌
begin-finalize_example = begin-finalize m1 ann authorised handled none none begun_once refl refl

abbrev first_job : Job
first_job = new_job ann 7 m1 status [] job_id 10

create_job_fresh_example :
    (find (has_id job_id) start.jobs ≡ none)
    × ((create_job ann 7 m1 status [] start).1.jobs ≡ start.jobs ++ (first_job ∷ []))
    × (first_job.status ≡ received)
    × (first_job.sender_email ≡ ann)
    × (first_job.source_message_id ≡ m1)
    × (first_job.operation ≡ status)
unfolding create_job new_job assign_all allocate id_prefix count_today starts_with lower pad4 ◌==◌
create_job_fresh_example = create_job_fresh ann 7 m1 status [] start first_job refl

list_queued_exact_example :
    (jobs : List Job) × (list_queued (world_with (job_in queued))
      ≡ (ok jobs, world_with (job_in queued)))
    × Perm jobs (select (λ j. same_state j.status queued) (job_in queued ∷ []))
    × IsOrdered (λ j. j.created_at) jobs
list_queued_exact_example = list_queued_exact (world_with (job_in queued))

get_owned_exact_example :
    let w = world_with (job_in queued) in
    (get_owned job_id (codes "Ann@example.org") w ≡ (ok (some (job_in queued)), w)) ↔ (
      (find (has_id job_id) w.jobs ≡ some (job_in queued))
      × (lower ann ≡ lower (codes "Ann@example.org")))
get_owned_exact_example =
    get_owned_exact job_id (codes "Ann@example.org") (world_with (job_in queued)) (job_in queued)

abbrev one_mail : World
one_mail = record start { outbox = queued_mail ∷ [] }

fail_times_exact_example :
    (m : OutboxMessage) × (Sending.row 1 (fail_times 5 1 os_error one_mail).outbox ≡ some m)
    × (m.attempts ≡ 5)
    × (m.status ≡ failed)
fail_times_exact_example = fail_times_exact 5 1 os_error one_mail queued_mail refl refl

-- The provider's id is linked to an earlier mail.
abbrev linked : World
linked = record one_mail {
  links =
      record { outbox_id = 0; job_id = none; message_id = codes "<sent@x>"; created_at = 5 } ∷ [];
}

put-waiting_example :
    waiting job_id (Clarifications.put job_id rephrase [] start).1.clarifications
    ≡ some (asked job_id rephrase [] 10)
unfolding ◌==◌
put-waiting_example = put-waiting job_id job_id rephrase [] start

abbrev alerted : World
alerted = (alert notifier infrastructure model_unreachable start).1

alert_within_cooldown_example :
    let later = record alerted { now = 40 } in
    alert notifier infrastructure (unparsed_email ann) later ≡ (ok false, later)
unfolding alert should_send record_sent enqueue
alert_within_cooldown_example =
    alert_within_cooldown notifier infrastructure model_unreachable (unparsed_email ann) start
      (record alerted { now = 40 }) refl refl (omega arith)
