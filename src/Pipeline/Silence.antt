-- ===== src/Pipeline/Silence.antt =====
-- What a sender who is turned away can bring about.
use group_assessment_agent.Base.{
  Text, ◌≡◌, refl, ◌∙◌, Bool, true, false, ◌⊎◌, inl, inr, Option, none, some, [], ◌∷◌, ◌++◌, arith,
  find, Bool-cases,
}
use group_assessment_agent.Exec.{ok, ◌>>=◌}
use group_assessment_agent.Messages.{
  AdminCategory, Summary, admin_alert, rejected_sender, unauthorised_sender,
}
use group_assessment_agent.World.{
  World, OutboxMessage, AuthReason, authorised, unrecognised_in_domain, unauthorised_external,
  unauthenticated, malformed_sender, rejected_silently,
}
use group_assessment_agent.Mailbox.{EmailMessage}
use group_assessment_agent.Outside.{Outside, ask}
use group_assessment_agent.Auth.{SenderAuthResult}
use group_assessment_agent.ProcessedStore.{begin, finalize}
use group_assessment_agent.Notifier.{
  Notifier, alert, alert_to, should_send, cooled, record_sent, of_category,
}
use group_assessment_agent.Outbox.{enqueue}
use group_assessment_agent.Pipeline.{Config, mark_processed}
use group_assessment_agent.Pipeline.Message.{process_message, by_reason, drop_silently}
use group_assessment_agent.Pipeline.Outcomes.{verdict, begun}

-- The jobs are as before, and so is the outbox but for one mail to `to` at most.
pub record OnlyAlerts (to : Option Text) (w v : World) : Type 0 where
  pub jobs : v.jobs ≡ w.jobs
  pub mails :
      (v.outbox ≡ w.outbox)
      ⊎ ((m : OutboxMessage) × (some m.to_email ≡ to) × (v.outbox ≡ w.outbox ++ (m ∷ [])))

pub alert_to-OnlyAlerts :
    (n : Notifier) (c : AdminCategory) (s : Summary) (w : World) (to : Option Text)
    → (b : Bool) × (v : World) × (alert_to to n c s w ≡ (ok b, v)) × OnlyAlerts to w v
unfolding alert should_send record_sent enqueue
alert_to-OnlyAlerts n c s w none = (false, w, refl, record { jobs = refl; mails = inl refl })
alert_to-OnlyAlerts n c s w (some []) = (false, w, refl, record { jobs = refl; mails = inl refl })
alert_to-OnlyAlerts n c s w (some (x ∷ xs)) =
    elim (Bool-cases (cooled n.cooldown w.now (find (of_category c) w.alerts))) [
      | inl due ↦
          let u = (record_sent c (enqueue (x ∷ xs) (admin_alert c s) none [] none none w).1).1 in
          (true, u, rw due refl, record { jobs = refl; mails = inr (_, refl, refl) })
      | inr not_due ↦ (false, w, rw not_due refl, record { jobs = refl; mails = inl refl })
    ]

pub later-OnlyAlerts :
    {to : Option Text} {w v u : World}
    → OnlyAlerts to w v
    → (u.jobs ≡ v.jobs) × (u.outbox ≡ v.outbox)
    → OnlyAlerts to w u
later-OnlyAlerts o (j, m) = record { jobs = j ∙ o.jobs; mails = rw m o.mails }

earlier-OnlyAlerts :
    {to : Option Text} {w v u : World}
    → (v.jobs ≡ w.jobs) × (v.outbox ≡ w.outbox)
    → OnlyAlerts to v u
    → OnlyAlerts to w u
earlier-OnlyAlerts (j, m) o = record { jobs = o.jobs ∙ j; mails = rw m at o.mails }

-- A verdict that is answered by silence.
unfoldable pub is_rejection : AuthReason → Bool
is_rejection authorised = false
is_rejection unrecognised_in_domain = false
is_rejection unauthorised_external = true
is_rejection unauthenticated = true
is_rejection malformed_sender = true

module _ (out : Outside) (config : Config) (msg : EmailMessage) where
  rejection :
      (r : AuthReason) (auth : SenderAuthResult)
      → is_rejection r ≡ true
      → by_reason out config msg r auth ≡ drop_silently out config msg
  unfolding is_rejection
  rejection authorised auth h = absurd (ground arith)
  rejection unrecognised_in_domain auth h = absurd (ground arith)
  rejection unauthorised_external auth h = refl
  rejection unauthenticated auth h = refl
  rejection malformed_sender auth h = refl

  pub marked :
      (w : World)
      → ((mark_processed out msg.provider_ref w).1.jobs ≡ w.jobs)
        × ((mark_processed out msg.provider_ref w).1.outbox ≡ w.outbox)
  unfolding mark_processed ask ◌>>=◌
  marked w = ground arith

  pub begun_same :
      (w : World)
      → ((begun out config msg w).1.jobs ≡ w.jobs) × ((begun out config msg w).1.outbox ≡ w.outbox)
  unfolding begin
  begun_same w = ground arith

  dropped :
      (w : World) → OnlyAlerts config.notifier.admin_email w (drop_silently out config msg w).1
  unfolding ◌>>=◌ finalize alert
  dropped w =
      let (b, v, e, only) =
        alert_to-OnlyAlerts config.notifier unauthorised_sender (rejected_sender msg.from_address) w
          config.notifier.admin_email in
      let v' = (finalize msg.message_id rejected_silently none none v).1 in
      rw e (
        later-OnlyAlerts {w = w} {v = v} {u = (mark_processed out msg.provider_ref v').1} only
          (marked v'))

  -- A message whose sender is not authorised and gets no reply changes no job and queues no mail but
  -- one alert to the administrator at most.
  pub turned_away :
      (w : World)
      → is_rejection (verdict config msg).reason ≡ true
      → (begun out config msg w).0 ≡ ok true
      → OnlyAlerts config.notifier.admin_email w (process_message out config msg w).1
  unfolding process_message
  turned_away w h b = rw b (
      rw (rejection (verdict config msg).reason (verdict config msg) h) (
        earlier-OnlyAlerts {w = w} {v = (begun out config msg w).1}
          {u = (drop_silently out config msg (begun out config msg w).1).1} (begun_same w)
          (dropped (begun out config msg w).1)))
