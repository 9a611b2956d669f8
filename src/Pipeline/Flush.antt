-- ===== src/Pipeline/Flush.antt =====
-- `flush_outbox` of app/pipeline.py.
use group_assessment_agent.Base.{ℕ, ◌+◌, Text, Option, none, some, List, [], ◌∷◌}
use group_assessment_agent.Exec.{ok, pure, ◌>>=◌, ◌>>◌, catch}
use group_assessment_agent.Jobs.{FilePath, Field}
use group_assessment_agent.World.{Action, OutboxMessage}
use group_assessment_agent.Outside.{Outside, ask}
use group_assessment_agent.JobStore.{update}
use group_assessment_agent.Outbox.{list_pending, mark_sent, mark_failed}
use group_assessment_agent.FileStore.{read_bytes}

-- The attachments are read before the mail is handed over.
unfoldable pub read_all : List FilePath → Action (Unit {0})
unfolding ◌>>=◌
read_all [] = pure tt
read_all (p ∷ ps) = read_bytes p >> read_all ps

abbrev pub record_response : Option Text → Text → Action (Unit {0})
record_response none provider_id = pure tt
record_response (some []) provider_id = pure tt
record_response (some (c ∷ cs)) provider_id =
    update (c ∷ cs) (Field.last_response_message_id provider_id ∷ [])

-- The provider has taken the mail.
unfoldable pub record_delivery : OutboxMessage → Action (Unit {0})
record_delivery m w = (
  ok tt,
  record w {
    deliveries = record { outbox_id = m.id; to = m.to_email; mail = m.mail } ∷ w.deliveries;
  },
)

module _ (out : Outside) where
  unfoldable pub hand_over : OutboxMessage → Action Text
  unfolding ◌>>=◌ record_delivery
  hand_over m = do provider_id ← ask (λ c. out.send_email c m); record_delivery m; pure provider_id

  unfoldable pub send : OutboxMessage → Action ℕ
  unfolding ◌>>=◌ read_all hand_over
  send m = do
    read_all m.attachments
    provider_id ← hand_over m
    mark_sent m.id provider_id
    record_response m.job_id provider_id
    pure 1

  unfoldable pub send_all : ℕ → List OutboxMessage → Action ℕ
  unfolding ◌>>=◌ send
  send_all sent [] = pure sent
  send_all sent (m ∷ ms) = do
    one ← catch (send m) (λ e. mark_failed m.id e >> pure 0)
    send_all (sent + one) ms

  unfoldable pub flush_outbox : Action ℕ
  unfolding ◌>>=◌ send_all
  flush_outbox = do messages ← list_pending; send_all 0 messages
