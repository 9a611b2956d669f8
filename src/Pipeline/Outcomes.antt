-- ===== src/Pipeline/Outcomes.antt =====
-- What becomes of one inbound message, by the verdict on its sender.
use group_assessment_agent.Base.{◌≡◌, refl, Bool, true, false}
use group_assessment_agent.Exec.{Result, ok, raised}
use group_assessment_agent.Messages.{Error, attribute_error}
use group_assessment_agent.World.{World, authorised}
use group_assessment_agent.Mailbox.{EmailMessage}
use group_assessment_agent.Outside.{Outside}
use group_assessment_agent.Auth.{SenderAuthResult, authorise}
use group_assessment_agent.ProcessedStore.{begin}
use group_assessment_agent.Pipeline.{Config, mark_processed, match_report}
use group_assessment_agent.Pipeline.Message.{process_message, dedup_sender}

abbrev pub verdict : Config → EmailMessage → SenderAuthResult
verdict config msg = authorise config.authoriser msg.from_address msg.auth_signals

abbrev pub begun : Outside → Config → EmailMessage → World → Result Error Bool × World
begun out config msg w =
    let auth = verdict config msg in
    begin msg.message_id (dedup_sender out config msg auth) auth.reason w

module _ (out : Outside) (config : Config) (msg : EmailMessage) (w : World) where
  -- A message from an authorised sender that may be begun raises an `AttributeError`, and all that
  -- it changes is the note that it was begun: no job is made and no mail is queued.
  pub authorised_unhandled :
      (verdict config msg).reason ≡ authorised
      → (begun out config msg w).0 ≡ ok true
      → process_message out config msg w ≡ (raised attribute_error, (begun out config msg w).1)
  unfolding process_message match_report
  authorised_unhandled h b = rw b (rw h refl)

  -- A message that may not be begun is marked at the provider, and nothing else is done with it.
  pub refused_marked :
      (begun out config msg w).0 ≡ ok false
      → process_message out config msg w
        ≡ mark_processed out msg.provider_ref (begun out config msg w).1
  unfolding process_message
  refused_marked b = rw b refl
