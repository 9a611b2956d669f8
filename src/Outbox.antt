-- ===== src/Outbox.antt =====
-- `Outbox` of app/jobs/store.py: the mails to send, and the links from sent mails to their jobs.
pub mod Sending
use group_assessment_agent.Base.{
  ℕ, ◌+◌, Text, ◌==◌, Bool, true, false, ◌||◌, Option, none, some, List, [], ◌∷◌, ◌++◌, find,
  select, exists, update_where, order_by, leb, nat_eq, nonempty, if◌then◌else◌,
}
use group_assessment_agent.Exec.{ok, raised, gets}
use group_assessment_agent.Jobs.{FilePath}
use group_assessment_agent.Messages.{Mail, Error, integrity_error}
use group_assessment_agent.World.{
  World, Action, OutboxMessage, SendStatus, pending, sent, failed, MessageLink,
}

abbrev pub has_id : ℕ → OutboxMessage → Bool
has_id id m = nat_eq m.id id

-- The mail, the recipient, the job, the attachments, and the two headers of the thread.
unfoldable pub enqueue :
    Text → Mail → Option Text → List FilePath → Option Text → Option Text → Action ℕ
enqueue to mail job_id attachments in_reply_to references w =
    let id = w.outbox_sequence + 1 in
    (
      ok id,
      record w {
        outbox_sequence = id;
        outbox =
            w.outbox
            ++ (record {
              id = id;
              job_id = job_id;
              to_email = to;
              mail = mail;
              attachments = attachments;
              in_reply_to_message_id = in_reply_to;
              references_header = references;
              status = pending;
              attempts = 0;
              last_error = none;
              created_at = w.now;
              sent_at = none;
            }
                ∷ []);
      },
    )

abbrev pub is_pending : SendStatus → Bool
is_pending pending = true
is_pending _ = false

-- `Outbox.pending`.
unfoldable pub list_pending : Action (List OutboxMessage)
unfolding gets
list_pending = gets (λ w. order_by (λ m. m.created_at) (select (λ m. is_pending m.status) w.outbox))

abbrev job_of : Option OutboxMessage → Option Text
job_of none = none
job_of (some m) = m.job_id

abbrev pub set_sent : ℕ → OutboxMessage → OutboxMessage
set_sent now m = record m { status = sent; sent_at = some now }

-- Both columns are UNIQUE.
unfoldable pub is_linked : ℕ → Text → List MessageLink → Bool
is_linked id message_id = exists (λ l. nat_eq l.outbox_id id || l.message_id == message_id)

-- The UPDATE is committed before the INSERT, which may raise.
unfoldable pub mark_sent : ℕ → Text → Action (Unit {0})
unfolding is_linked
mark_sent id provider_message_id w =
    let outbox = update_where (has_id id) (set_sent w.now) w.outbox in
    if nonempty (some provider_message_id)
    then (if is_linked id provider_message_id w.links
        then (raised integrity_error, record w { outbox = outbox })
        else (
          ok tt,
          record w {
            outbox = outbox;
            links =
                w.links
                ++ (record {
                  outbox_id = id;
                  job_id = job_of (find (has_id id) w.outbox);
                  message_id = provider_message_id;
                  created_at = w.now;
                }
                    ∷ []);
          },
        ))
    else (ok tt, record w { outbox = outbox })

abbrev attempts_of : Option OutboxMessage → ℕ
attempts_of none = 0
attempts_of (some m) = m.attempts

-- `max_attempts` of `mark_failed`, for which no caller gives another value.
abbrev pub max_attempts : ℕ
max_attempts = 5

unfoldable pub set_failed : ℕ → Error → OutboxMessage → OutboxMessage
set_failed attempts e m = record m {
  status = if leb max_attempts attempts then failed else pending;
  attempts = attempts;
  last_error = some e;
}

unfoldable pub mark_failed : ℕ → Error → Action (Unit {0})
unfolding set_failed
mark_failed id e w =
    let attempts = attempts_of (find (has_id id) w.outbox) + 1 in
    (ok tt, record w { outbox = update_where (has_id id) (set_failed attempts e) w.outbox })
