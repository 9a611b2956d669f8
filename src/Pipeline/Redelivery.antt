-- ===== src/Pipeline/Redelivery.antt =====
-- What the sending of the outbox does with a mail whose message id the provider has used before.
use group_assessment_agent.Base.{◌+◌, ◌∷◌, update_where}
use group_assessment_agent.World.{World, OutboxMessage}
use group_assessment_agent.Outside.{Outside}
use group_assessment_agent.Outbox.{has_id, set_sent}

module _ (out : Outside) (m : OutboxMessage) (w : World) where
  -- The provider has taken the mail.
  abbrev pub taken : World
  taken = record w {
    calls = w.calls + 1;
    deliveries = record { outbox_id = m.id; to = m.to_email; mail = m.mail } ∷ w.deliveries;
  }

  abbrev pub taken_and_marked : World
  taken_and_marked = record taken { outbox = update_where (has_id m.id) (set_sent w.now) w.outbox }
