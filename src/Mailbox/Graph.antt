-- ===== src/Mailbox/Graph.antt =====
-- The reading of messages by `GraphMailClient` of app/mail/graph_client.py. The items of Graph are
-- records, with `none` for a key that is absent or null.
use group_assessment_agent.Base.{
  ℕ, Text, codes, lower, nat_eq, ◌==◌, ◌++◌, Bool, false, Option, none, some, List, [], ◌∷◌,
  if◌then◌else◌,
}
use group_assessment_agent.Exec.{Result, ok, raised}
use group_assessment_agent.Messages.{Error}
use group_assessment_agent.Mailbox.{Attachment, EmailMessage}
use group_assessment_agent.Mailbox.Html.{strip_html}
use group_assessment_agent.Mailbox.Imap.{or_text}
use group_assessment_agent.Mailbox.Verdicts.{graph_signals}

pub record Header : Type 0 where
  pub name : Option Text
  pub value : Option Text

pub record MessageBody : Type 0 where
  pub content_type : Option Text
  pub content : Text

pub record GraphItem : Type 0 where
  pub id : Text
  pub internet_message_id : Option Text
  pub has_attachments : Bool
  pub headers : List Header
  pub from_address : Text
  pub subject : Option Text
  pub body : MessageBody
  pub received : Option Text

-- The first header of that name, with its value.
unfoldable pub header_value : List Header → Text → Option Text
unfolding lower
header_value [] name = none
header_value (h ∷ hs) name =
    let rest = header_value hs name in if lower (or_text h.name []) == name then h.value else rest

unfoldable pub extract_body_text : MessageBody → Text
unfolding strip_html lower
extract_body_text body =
    if lower (or_text body.content_type []) == codes "html"
    then strip_html body.content
    else body.content

pub record GraphAttachment : Type 0 where
  pub odata_type : Option Text
  pub name : Option Text
  pub content_type : Option Text
  pub content_bytes : Option Text

abbrev given_or : Option Text → Text → Text
given_or none default = default
given_or (some t) default = t

-- `value.replace("Z", "+00:00")`.
unfoldable pub utc_offset : Text → Text
utc_offset [] = []
utc_offset (c ∷ s) =
    let rest = utc_offset s in if nat_eq c b'Z' then codes "+00:00" ++ rest else c ∷ rest

module _ (b64decode : Text → List ℕ) where
  abbrev content_of : Option Text → List ℕ
  content_of none = []
  content_of (some []) = []
  content_of (some (c ∷ s)) = b64decode (c ∷ s)

  abbrev is_file : Option Text → Bool
  is_file none = false
  is_file (some t) = t == codes "#microsoft.graph.fileAttachment"

  -- The loop of `_fetch_attachments` over the attachments of a message.
  unfoldable pub file_attachments : List GraphAttachment → List Attachment
  file_attachments [] = []
  file_attachments (a ∷ later) =
      let rest = file_attachments later in
      if is_file a.odata_type
      then record {
        filename = given_or a.name (codes "attachment");
        content_type = given_or a.content_type (codes "application/octet-stream");
        content = content_of a.content_bytes;
      }
        ∷ rest
      else rest

  -- `fromisoformat` may raise; `now` is the clock.
  module _ (from_iso : Text → Result Error ℕ) (now : ℕ) where
    unfoldable pub parse_datetime : Option Text → Result Error ℕ
    unfolding utc_offset
    parse_datetime none = ok now
    parse_datetime (some []) = ok now
    parse_datetime (some (c ∷ s)) = from_iso (utc_offset (c ∷ s))

    abbrev at_time : GraphItem → List Attachment → Result Error ℕ → Result Error EmailMessage
    at_time item attachments (raised e) = raised e
    at_time item attachments (ok received) = ok (record {
      message_id = or_text item.internet_message_id item.id;
      provider_ref = item.id;
      from_address = item.from_address;
      subject = or_text item.subject [];
      body_text = extract_body_text item.body;
      received_at = received;
      attachments = attachments;
      auth_signals = graph_signals (header_value item.headers (codes "authentication-results"));
      in_reply_to = header_value item.headers (codes "in-reply-to");
      references = header_value item.headers (codes "references");
    })

    -- With the attachments that the request for them returns, where the item has any.
    unfoldable pub to_email_message :
        GraphItem → Result Error (List GraphAttachment) → Result Error EmailMessage
    unfolding parse_datetime file_attachments header_value extract_body_text graph_signals
    to_email_message item (raised e) =
        if item.has_attachments then raised e else at_time item [] (parse_datetime item.received)
    to_email_message item (ok listed) =
        at_time item (if item.has_attachments then file_attachments listed else [])
          (parse_datetime item.received)
