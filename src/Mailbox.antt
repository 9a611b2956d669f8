-- ===== src/Mailbox.antt =====
-- app/mail/base.py: an inbound message as the mail provider hands it over, with the verdicts of
-- `AuthSignals` of app/auth/authorisation.py.
pub mod Verdicts
pub mod Html
pub mod Addresses
pub mod Imap
pub mod Newest
pub mod Fake
pub mod Drafts
pub mod Graph
use group_assessment_agent.Base.{ℕ, Text, Option, List, length}

pub record AuthSignals : Type 0 where
  pub spf : Option Text
  pub dkim : Option Text
  pub dmarc : Option Text

pub record Attachment : Type 0 where
  pub filename : Text
  pub content_type : Text
  pub content : List ℕ

abbrev pub size_bytes : Attachment → ℕ
size_bytes a = length a.content

pub record EmailMessage : Type 0 where
  pub message_id : Text
  pub provider_ref : Text
  pub from_address : Text
  pub subject : Text
  pub body_text : Text
  pub received_at : ℕ
  pub attachments : List Attachment
  pub auth_signals : AuthSignals
  pub in_reply_to : Option Text
  pub references : Option Text
