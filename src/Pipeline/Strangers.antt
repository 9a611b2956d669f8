-- ===== src/Pipeline/Strangers.antt =====
-- The friendly reply to a sender of an authorised domain who is no owner.
use group_assessment_agent.Base.{
  Text, ◌≡◌, refl, ◌∙◌, true, not, ◌||◌, ◌⊎◌, Option, none, some, List, [], ◌∷◌, ◌++◌, after_last,
}
use group_assessment_agent.Exec.{ok, ◌>>=◌}
use group_assessment_agent.Messages
use group_assessment_agent.World.{
  World, OutboxMessage, AuthReason, unrecognised_in_domain, unrecognised_sender_replied,
}
use group_assessment_agent.Mailbox.{EmailMessage}
use group_assessment_agent.Outside.{Outside}
use group_assessment_agent.Auth.{SenderAuthResult, normalise_email, auth_pass, owner_id, in_domains}
use group_assessment_agent.Auth.Decisions.{unrecognised_needs}
use group_assessment_agent.ProcessedStore.{finalize}
use group_assessment_agent.Notifier.{alert}
use group_assessment_agent.Outbox.{enqueue}
use group_assessment_agent.Pipeline.{Config, mark_processed}
use group_assessment_agent.Pipeline.Message.{process_message, by_reason, reply_unrecognised}
use group_assessment_agent.Pipeline.{reply_references}
use group_assessment_agent.Pipeline.Outcomes.{verdict, begun}
use group_assessment_agent.Pipeline.Silence.{
  OnlyAlerts, alert_to-OnlyAlerts, later-OnlyAlerts, marked, begun_same,
}

-- The reply goes to the normalised address of the sender of `msg`, who is no owner but of an
-- authorised domain, and whom the provider vouches for where that is required.
pub record IsFriendlyReply (config : Config) (msg : EmailMessage) (m : OutboxMessage) : Type 0 where
  pub addressed : normalise_email msg.from_address ≡ some m.to_email
  pub vouched : (not config.authoriser.require_auth_pass || auth_pass msg.auth_signals) ≡ true
  pub stranger : owner_id config.authoriser.group_owners m.to_email ≡ none
  pub in_domain :
      in_domains config.authoriser.authorised_domains (after_last b'@' m.to_email) ≡ true
  pub text : m.mail ≡ Messages.unrecognised_sender config.notifier.admin_email
  pub answers : m.in_reply_to_message_id ≡ some msg.message_id

-- One friendly reply and at most one alert to the administrator have been queued, in this order.
pub record Replied (config : Config) (msg : EmailMessage) (w v : World) : Type 0 where
  pub reply : OutboxMessage
  pub friendly : IsFriendlyReply config msg reply
  pub jobs : v.jobs ≡ w.jobs
  pub mails :
      (v.outbox ≡ w.outbox ++ (reply ∷ []))
      ⊎ ((m : OutboxMessage) × (some m.to_email ≡ config.notifier.admin_email)
          × (v.outbox ≡ (w.outbox ++ (reply ∷ [])) ++ (m ∷ [])))

behind_same :
    (to : Option Text) (l l' vs : List OutboxMessage) (r : OutboxMessage)
    → l ≡ l'
    → (vs ≡ l ++ (r ∷ []))
      ⊎ ((m : OutboxMessage) × (some m.to_email ≡ to) × (vs ≡ (l ++ (r ∷ [])) ++ (m ∷ [])))
    → (vs ≡ l' ++ (r ∷ []))
      ⊎ ((m : OutboxMessage) × (some m.to_email ≡ to) × (vs ≡ (l' ++ (r ∷ [])) ++ (m ∷ [])))
behind_same to l l' vs r e h = rw e at h

module _ (out : Outside) (config : Config) (msg : EmailMessage) where
  -- `w` with the reply to `sender` in the outbox.
  abbrev queued_for : Text → World → World
  queued_for sender w =
      (enqueue sender (Messages.unrecognised_sender config.notifier.admin_email) none []
        (some msg.message_id) (some (reply_references msg)) w).1

  alerted :
      (u : World) (sender : Text)
      → OnlyAlerts config.notifier.admin_email
          (queued_for sender u)
          (reply_unrecognised out config msg sender u).1
  unfolding ◌>>=◌ finalize alert enqueue
  alerted u sender =
      let (b, v, e, only) =
        alert_to-OnlyAlerts config.notifier Messages.unauthorised_sender
          (Messages.unrecognised_in_domain_sender sender) (queued_for sender u)
          config.notifier.admin_email in
      let v' = (finalize msg.message_id unrecognised_sender_replied none none v).1 in
      rw e (
        later-OnlyAlerts {w = queued_for sender u} {v = v}
          {u = (mark_processed out msg.provider_ref v').1} only (marked out config msg v'))

  replying :
      (r : AuthReason) (auth : SenderAuthResult)
      → r ≡ unrecognised_in_domain
      → by_reason out config msg r auth ≡ reply_unrecognised out config msg auth.sender_email
  replying r auth h = rw h refl

  replied :
      (w u : World)
      → (u.jobs ≡ w.jobs) × (u.outbox ≡ w.outbox)
      → (verdict config msg).reason ≡ unrecognised_in_domain
      → Replied config msg w
          (reply_unrecognised out config msg (verdict config msg).sender_email u).1
  unfolding enqueue
  replied w u (j, m) h =
      let sender = (verdict config msg).sender_email in
      let (address, vouch, owner, domain) =
        unrecognised_needs config.authoriser msg.from_address msg.auth_signals h in
      let only = alerted u sender in
      record {
        reply = _;
        friendly = record {
          addressed = address;
          vouched = vouch;
          stranger = owner;
          in_domain = domain;
          text = refl;
          answers = refl;
        };
        jobs = only.jobs ∙ j;
        mails = behind_same _ u.outbox w.outbox _ _ m only.mails;
      }

  -- A message with the verdict `unrecognised_in_domain` that may be begun is answered by one mail to the
  -- sender's normalised address: the sender is no owner but of an authorised domain, and vouched for
  -- where that is required. Beside it at most one alert to the administrator is queued, and no job is
  -- changed.
  pub process_message-Replied :
      (w : World)
      → (verdict config msg).reason ≡ unrecognised_in_domain
      → (begun out config msg w).0 ≡ ok true
      → Replied config msg w (process_message out config msg w).1
  unfolding process_message
  process_message-Replied w h b = rw b (
      rw (replying (verdict config msg).reason (verdict config msg) h)
        (replied w (begun out config msg w).1 (begun_same out config msg w) h))
