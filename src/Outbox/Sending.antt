-- ===== src/Outbox/Sending.antt =====
-- The life of one outgoing mail: its number, its attempts, and what a repeated message id does.
use group_assessment_agent.Base.{
  ℕ, zero, suc, ◌+◌, Text, ◌≡◌, refl, ap, ◌∙◌, true, Option, some, List, [], ◌∷◌, find,
  update_where, arith, leb, if◌then◌else◌,
}
use group_assessment_agent.Exec.{raised}
use group_assessment_agent.Messages.{Error, integrity_error}
use group_assessment_agent.World.{World, OutboxMessage, SendStatus, pending, failed}
use group_assessment_agent.Outbox.{
  has_id, mark_sent, mark_failed, set_failed, set_sent, is_linked, max_attempts,
}

abbrev pub row : ℕ → List OutboxMessage → Option OutboxMessage
row id rows = find (has_id id) rows

pub row-update :
    (id : ℕ) (f : OutboxMessage → OutboxMessage) (rows : List OutboxMessage) (m : OutboxMessage)
    → ((x : OutboxMessage) → (f x).id ≡ x.id)
    → row id rows ≡ some m
    → row id (update_where (has_id id) f rows) ≡ some (f m)
row-update id f [] m keeps h = ground arith
row-update id f (x ∷ xs) m keeps h = ground (arith, keeps x, row-update id f xs m keeps)

-- Fails are recorded again and again.
pub fail_times : ℕ → ℕ → Error → World → World
fail_times zero id e w = w
fail_times (suc n) id e w = fail_times n id e (mark_failed id e w).1

abbrev pub status_after : ℕ → SendStatus
status_after n = if leb max_attempts n then failed else pending

pub fail_once :
    (id : ℕ) (e : Error) (w : World) (m : OutboxMessage)
    → row id w.outbox ≡ some m
    → row id (mark_failed id e w).1.outbox ≡ some (set_failed (m.attempts + 1) e m)
unfolding mark_failed
fail_once id e w m h =
    ground (arith, row-update id (set_failed (m.attempts + 1) e) w.outbox m (λ x. refl) h)

set_failed_fields :
    (n : ℕ) (e : Error) (m : OutboxMessage)
    → ((set_failed n e m).attempts ≡ n)
      × ((set_failed n e m).status ≡ status_after (set_failed n e m).attempts)
unfolding set_failed
set_failed_fields n e m = (refl, refl)

-- A mail that could not be sent `n` times in a row has used up that many attempts more. It stays
-- pending below five attempts, and is given up from the fifth on.
pub fail_times_exact :
    (n id : ℕ) (e : Error) (w : World) (m : OutboxMessage)
    → row id w.outbox ≡ some m
    → m.status ≡ status_after m.attempts
    → (m' : OutboxMessage) × (row id (fail_times n id e w).outbox ≡ some m')
      × (m'.attempts ≡ m.attempts + n)
      × (m'.status ≡ status_after (m.attempts + n))
unfolding fail_times
fail_times_exact zero id e w m h s = (m, h, omega arith, s ∙ ap status_after (omega arith))
fail_times_exact (suc n) id e w m h s =
    let (m', found, attempts, status) =
      fail_times_exact n id e (mark_failed id e w).1 (set_failed (m.attempts + 1) e m)
        (fail_once id e w m h) (set_failed_fields (m.attempts + 1) e m).1 in
    let used = (set_failed_fields (m.attempts + 1) e m).0 in
    (m', found, omega arith, status ∙ ap status_after (omega arith))

-- Where the message id is linked already, the mail is marked as sent and the call raises.
pub mark_sent_raises :
    (id c : ℕ) (message_id : Text) (w : World)
    → is_linked id (c ∷ message_id) w.links ≡ true
    → mark_sent id (c ∷ message_id) w ≡ (
      raised integrity_error,
      record w { outbox = update_where (has_id id) (set_sent w.now) w.outbox },
    )
unfolding mark_sent
mark_sent_raises id c message_id w linked = rw linked refl
