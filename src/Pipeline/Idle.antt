-- ===== src/Pipeline/Idle.antt =====
-- What a poll does to the jobs as `_match_report` stands.
use group_assessment_agent.Base.{Text, ◌≡◌, refl, ◌∙◌, Option, [], arith, List, ℕ}
use group_assessment_agent.Exec.{Result, ◌>>=◌}
use group_assessment_agent.Exec.Steps.{
  Steps, IsPreorder, Steps-pure, Steps-bind, Steps-if, Steps-catch, Steps-for_each,
}
use group_assessment_agent.Messages.{Error, Mail, AdminCategory, Summary}
use group_assessment_agent.World.{
  World, AuthReason, authorised, unrecognised_in_domain, Outcome, Handling,
}
use group_assessment_agent.Mailbox.{EmailMessage}
use group_assessment_agent.Outside.{Outside, ask}
use group_assessment_agent.Auth.{SenderAuthResult, authorise}
use group_assessment_agent.ProcessedStore.{begin, finalize}
use group_assessment_agent.Notifier.{Notifier, alert}
use group_assessment_agent.Outbox.{enqueue}
use group_assessment_agent.Pipeline.{Config, mark_processed, match_report}
use group_assessment_agent.Pipeline.Silence.{alert_to-OnlyAlerts}
use group_assessment_agent.Pipeline.Message
use group_assessment_agent.Pipeline.Message.{poll_once, process_message}

abbrev SameJobs : World → World → Type 0
SameJobs w v = v.jobs ≡ w.jobs

SameJobs-IsPreorder : IsPreorder SameJobs
SameJobs-IsPreorder = record { refl_at = λ w. refl; trans_at = λ w v u e f. f ∙ e }

enqueue-SameJobs :
    (to : Text) (mail : Mail) (job_id : Option Text) (r s : Option Text)
    → Steps SameJobs (enqueue to mail job_id [] r s)
unfolding enqueue
enqueue-SameJobs to mail job_id r s = record { at = λ w. refl }

alert-SameJobs : (n : Notifier) (c : AdminCategory) (s : Summary) → Steps SameJobs (alert n c s)
unfolding alert
alert-SameJobs n c s = record {
  at = λ w. let (b, v, e, only) = alert_to-OnlyAlerts n c s w n.admin_email in rw e only.jobs;
}

finalize-SameJobs :
    (id : Text) (o : Outcome) (job_id : Option Text) (h : Option Handling)
    → Steps SameJobs (finalize id o job_id h)
unfolding finalize
finalize-SameJobs id o job_id h = record { at = λ w. refl }

begin-SameJobs : (id sender : Text) (r : AuthReason) → Steps SameJobs (begin id sender r)
unfolding begin
begin-SameJobs id sender r = record { at = λ w. ground arith }

asked : {A : Type 0} (f : ℕ → Result Error A) → Steps SameJobs (ask f)
unfolding ask
asked f = record { at = λ w. refl }

module _ (out : Outside) (config : Config) where
  mark_processed-SameJobs : (ref : Text) → Steps SameJobs (mark_processed out ref)
  unfolding mark_processed ask ◌>>=◌
  mark_processed-SameJobs ref = record { at = λ w. ground arith }

  -- The report match raises at once.
  process_authorised-SameJobs :
      (msg : EmailMessage) (sender : Text) (user : ℕ)
      → Steps SameJobs (Message.process_authorised out config msg sender user)
  unfolding Message.process_authorised match_report
  process_authorised-SameJobs msg sender user = record { at = λ w. refl }

  ruleset rules = (
    SameJobs-IsPreorder, Steps-pure, Steps-bind, enqueue-SameJobs, alert-SameJobs,
    finalize-SameJobs, mark_processed-SameJobs,
  )

  by_reason-SameJobs :
      (msg : EmailMessage) (r : AuthReason) (auth : SenderAuthResult)
      → Steps SameJobs (Message.by_reason out config msg r auth)
  by_reason-SameJobs msg authorised auth = process_authorised-SameJobs msg auth.sender_email _
  by_reason-SameJobs msg unrecognised_in_domain auth = search rules depth 8
  by_reason-SameJobs msg _ auth = search rules depth 8

  process_message-SameJobs : (msg : EmailMessage) → Steps SameJobs (process_message out config msg)
  unfolding process_message
  process_message-SameJobs msg =
      let auth = authorise config.authoriser msg.from_address msg.auth_signals in
      Steps-bind SameJobs-IsPreorder _ _ (begin-SameJobs msg.message_id _ auth.reason) (λ fresh.
        Steps-if fresh _ _ (by_reason-SameJobs msg auth.reason auth)
          (mark_processed-SameJobs msg.provider_ref))

  process_batch-SameJobs :
      (messages : List EmailMessage) → Steps SameJobs (Message.process_batch out config messages)
  unfolding Message.process_batch
  process_batch-SameJobs messages =
      Steps-for_each SameJobs-IsPreorder messages (Message.guarded out config) (λ msg.
        Steps-catch SameJobs-IsPreorder _ _ (process_message-SameJobs msg)
          (λ e. Steps-pure SameJobs-IsPreorder tt))

  polls-SameJobs : Steps SameJobs (poll_once out config)
  unfolding poll_once
  polls-SameJobs = Steps-bind SameJobs-IsPreorder _ _ (asked out.fetch_new_messages) (λ messages.
      Steps-bind SameJobs-IsPreorder _ _ (process_batch-SameJobs messages)
        (λ _. Steps-pure SameJobs-IsPreorder _))

  -- A poll makes no job and changes none, whatever messages it takes and whoever sent them.
  pub poll_once_jobs : (w : World) → (poll_once out config w).1.jobs ≡ w.jobs
  poll_once_jobs w = polls-SameJobs.at w
