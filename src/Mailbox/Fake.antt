-- ===== src/Mailbox/Fake.antt =====
-- `FakeMailClient` of app/mail/fake_client.py, the provider `fake`.
use group_assessment_agent.Base.{
  ℕ, ◌+◌, Text, codes, digits, take, select, exists, not, ◌==◌, Bool, Option, List, [], ◌∷◌, ◌++◌,
}
use group_assessment_agent.Mailbox.{EmailMessage}

pub record SentMessage : Type 0 where
  pub id : Text
  pub to : Text
  pub subject : Text
  pub body_text : Text
  pub attachments : List (Text × List ℕ)
  pub in_reply_to : Option Text
  pub references : Option Text

-- The set of the processed references is a list.
pub record FakeMailClient : Type 0 where
  pub inbox : List EmailMessage
  pub processed_refs : List Text
  pub sent : List SentMessage
  pub sent_counter : ℕ

unfoldable pub add_message : EmailMessage → FakeMailClient → FakeMailClient
add_message m c = record c { inbox = c.inbox ++ (m ∷ []) }

abbrev pub is_processed : FakeMailClient → EmailMessage → Bool
is_processed c m = exists (λ ref. ref == m.provider_ref) c.processed_refs

unfoldable pub fetch_new_messages : ℕ → FakeMailClient → List EmailMessage
fetch_new_messages limit c = take limit (select (λ m. not (is_processed c m)) c.inbox)

unfoldable pub mark_processed : Text → FakeMailClient → FakeMailClient
mark_processed ref c = record c { processed_refs = ref ∷ c.processed_refs }

unfoldable pub send_email :
    Text
    → Text
    → Text
    → List (Text × List ℕ)
    → Option Text
    → Option Text
    → FakeMailClient
    → Text × FakeMailClient
send_email to subject body attachments in_reply_to references c =
    let n = c.sent_counter + 1 in
    let id = codes "<fake-sent-" ++ (digits n ++ codes "@fake.test>") in
    (
      id,
      record c {
        sent_counter = n;
        sent =
            c.sent
            ++ (record {
              id = id;
              to = to;
              subject = subject;
              body_text = body;
              attachments = attachments;
              in_reply_to = in_reply_to;
              references = references;
            }
                ∷ []);
      },
    )
