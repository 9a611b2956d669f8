-- ===== src/Safety/Flush.antt =====
-- The jobs under the sending of the outbox.
use group_assessment_agent.Base.{ℕ, ◌+◌, refl, Text, Option, none, some, List, [], ◌∷◌}
use group_assessment_agent.Exec.Steps.{Steps, Steps-bind, Steps-catch}
use group_assessment_agent.Jobs.{FilePath}
use group_assessment_agent.World.{OutboxMessage}
use group_assessment_agent.Outside.{Outside}
use group_assessment_agent.JobStore.Evolution.{Evolves, Evolves-IsPreorder, quiet}
use group_assessment_agent.Pipeline.Flush
use group_assessment_agent.Safety.Stores.{store_rules, read_bytes-Evolves, alert-Evolves}

ruleset rules = (store_rules, alert-Evolves)

module _ (out : Outside) where
  read_all-Evolves : (l : List FilePath) → Steps Evolves (Flush.read_all l)
  unfolding Flush.read_all
  read_all-Evolves [] = search rules
  read_all-Evolves (p ∷ l) =
      Steps-bind Evolves-IsPreorder _ _ (read_bytes-Evolves p) (λ _. read_all-Evolves l)

  record_response-Evolves :
      (job_id : Option Text) (id : Text) → Steps Evolves (Flush.record_response job_id id)
  record_response-Evolves none id = search rules
  record_response-Evolves (some []) id = search rules
  record_response-Evolves (some (c ∷ cs)) id = search rules

  record_delivery-Evolves : (m : OutboxMessage) → Steps Evolves (Flush.record_delivery m)
  unfolding Flush.record_delivery
  record_delivery-Evolves m = quiet (λ w. refl)

  hand_over-Evolves : (m : OutboxMessage) → Steps Evolves (Flush.hand_over out m)
  unfolding Flush.hand_over
  hand_over-Evolves m = search (rules, record_delivery-Evolves)

  send-Evolves : (m : OutboxMessage) → Steps Evolves (Flush.send out m)
  unfolding Flush.send
  send-Evolves m =
      search (rules, read_all-Evolves, hand_over-Evolves, record_response-Evolves) depth 8

  send_all-Evolves : (n : ℕ) (l : List OutboxMessage) → Steps Evolves (Flush.send_all out n l)
  unfolding Flush.send_all
  send_all-Evolves n [] = search rules
  send_all-Evolves n (m ∷ l) =
      Steps-bind Evolves-IsPreorder _ _
        (Steps-catch Evolves-IsPreorder _ _ (send-Evolves m) (λ e. search rules))
        (λ one. send_all-Evolves (n + one) l)

  pub flush_outbox-Evolves : Steps Evolves (Flush.flush_outbox out)
  unfolding Flush.flush_outbox
  flush_outbox-Evolves = search (rules, send_all-Evolves)
