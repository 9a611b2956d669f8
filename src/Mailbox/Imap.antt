-- ===== src/Mailbox/Imap.antt =====
-- `ImapMailClient` of app/mail/imap_client.py; app/mail/gmail_client.py reads messages in the same way.
-- The server, the parser of messages and the decoders of the standard library are parameters.
use group_assessment_agent.Base.{
  ℕ, zero, suc, ◌-◌, Text, codes, strip, join, length, drop, Bool, true, false, ◌==◌, Option, none,
  some, List, [], ◌∷◌, if◌then◌else◌,
}
use mathlib.Core.List.{reverse}
use group_assessment_agent.Exec.{Result, ok, raised}
use group_assessment_agent.Messages.{Error}
use group_assessment_agent.Mailbox.{Attachment, EmailMessage}
use group_assessment_agent.Mailbox.Addresses.{extract_address}
use group_assessment_agent.Mailbox.Html.{strip_html}
use group_assessment_agent.Mailbox.Verdicts.{imap_signals}

-- A part of a message, with what the methods of `Message` say of it.
pub record Part : Type 0 where
  pub is_multipart : Bool
  pub content_disposition : Option Text
  pub content_type : Text
  pub content_charset : Option Text
  pub payload : Option (List ℕ)
  pub filename : Option Text

-- A message: its own part, the parts of `walk()`, and the headers that are read.
pub record Message : Type 0 where
  pub whole : Part
  pub walk : List Part
  pub message_id : Option Text
  pub sender : Option Text
  pub subject : Option Text
  pub date : Option Text
  pub authentication_results : Option Text
  pub received_spf : Option Text
  pub in_reply_to : Option Text
  pub references : Option Text

-- `make_header(decode_header(…))` may fail, `strptime` with either format may, and so may the
-- decoding, where the charset is not known.
pub record Library : Type 0 where
  pub decode : Text → List ℕ → Result Error Text
  pub decode_header : Text → Option Text
  pub parse_with_zone : Text → Option ℕ
  pub parse_without_zone : Text → Option ℕ
  pub now : ℕ

abbrev pub or_text : Option Text → Text → Text
or_text none default = default
or_text (some []) default = default
or_text (some (c ∷ s)) default = c ∷ s

abbrev pub is_disposition : Option Text → Bool
is_disposition none = false
is_disposition (some d) = d == codes "attachment"

abbrev payload_or_empty : Option (List ℕ) → List ℕ
payload_or_empty none = []
payload_or_empty (some b) = b

abbrev attachment_of : Part → Attachment
attachment_of p = record {
  filename = or_text p.filename (codes "attachment");
  content_type = or_text (some p.content_type) (codes "application/octet-stream");
  content = payload_or_empty p.payload;
}

unfoldable pub attachments_of : List Part → List Attachment
attachments_of [] = []
attachments_of (p ∷ ps) =
    let rest = attachments_of ps in
    if is_disposition p.content_disposition then attachment_of p ∷ rest else rest

unfoldable pub extract_attachments : Message → List Attachment
unfolding attachments_of
extract_attachments msg = if msg.whole.is_multipart then attachments_of msg.walk else []

abbrev cleaned : Bool → Result Error Text → Result Error Text
cleaned html (raised e) = raised e
cleaned html (ok t) = ok (if html then strip_html t else t)

abbrev present : Result Error Text → Result Error (Option Text)
present (raised e) = raised e
present (ok t) = ok (some t)

module _ (lib : Library) where
  abbrev pub decoded : Bool → Part → List ℕ → Result Error Text
  decoded html p payload =
      cleaned html (lib.decode (or_text p.content_charset (codes "utf-8")) payload)

  abbrev pub part_text : Bool → Part → Option (List ℕ) → Result Error (Option Text)
  part_text html p none = ok none
  part_text html p (some payload) = present (decoded html p payload)

  -- What a part adds to the text of the message.
  unfoldable pub text_of : Part → Result Error (Option Text)
  unfolding strip_html
  text_of p =
      if p.is_multipart
      then ok none
      else if is_disposition p.content_disposition
      then ok none
      else if p.content_type == codes "text/plain"
      then part_text false p p.payload
      else if p.content_type == codes "text/html"
      then part_text true p p.payload
      else ok none

  abbrev and_rest : Result Error (Option Text) → Result Error (List Text) → Result Error (List Text)
  and_rest (raised e) rest = raised e
  and_rest (ok t) (raised e) = raised e
  and_rest (ok none) (ok ts) = ok ts
  and_rest (ok (some t)) (ok ts) = ok (t ∷ ts)

  unfoldable pub text_parts : List Part → Result Error (List Text)
  unfolding text_of
  text_parts [] = ok []
  text_parts (p ∷ ps) = and_rest (text_of p) (text_parts ps)

  abbrev joined : Result Error (List Text) → Result Error Text
  joined (raised e) = raised e
  joined (ok ts) = ok (strip (join (codes "\n\n") ts))

  abbrev single : Part → Option (List ℕ) → Result Error Text
  single p none = ok []
  single p (some payload) = decoded (p.content_type == codes "text/html") p payload

  unfoldable pub extract_body_text : Message → Result Error Text
  unfolding text_parts
  extract_body_text msg =
      if msg.whole.is_multipart
      then joined (text_parts msg.walk)
      else single msg.whole msg.whole.payload

  abbrev or_raw : Option Text → Text → Text
  or_raw none raw = raw
  or_raw (some s) raw = s

  abbrev decode_subject : Option Text → Option Text
  decode_subject none = none
  decode_subject (some s) = some (or_raw (lib.decode_header s) s)

  abbrev first_date : Option ℕ → Option ℕ → ℕ
  first_date (some t) later = t
  first_date none (some t) = t
  first_date none none = lib.now

  unfoldable pub parse_datetime : Option Text → ℕ
  parse_datetime none = lib.now
  parse_datetime (some []) = lib.now
  parse_datetime (some (c ∷ s)) =
      first_date (lib.parse_with_zone (c ∷ s)) (lib.parse_without_zone (c ∷ s))

  abbrev with_body : Message → Text → Result Error Text → Result Error EmailMessage
  with_body msg ref (raised e) = raised e
  with_body msg ref (ok body) = ok (record {
    message_id = or_text msg.message_id ref;
    provider_ref = ref;
    from_address = or_text (extract_address msg.sender) [];
    subject = or_text (decode_subject msg.subject) [];
    body_text = body;
    received_at = parse_datetime msg.date;
    attachments = extract_attachments msg;
    auth_signals = imap_signals msg.authentication_results msg.received_spf;
    in_reply_to = msg.in_reply_to;
    references = msg.references;
  })

  unfoldable pub to_email_message : Message → Text → Result Error EmailMessage
  unfolding extract_body_text parse_datetime extract_address extract_attachments imap_signals
  to_email_message msg ref = with_body msg ref (extract_body_text msg)

  -- `reversed(ids[-limit:])`: the slice is the whole list where `limit` is 0.
  unfoldable pub chosen : ℕ → List Text → List Text
  chosen zero ids = reverse ids
  chosen (suc n) ids = reverse (drop (length ids - suc n) ids)

  -- A message that cannot be fetched is passed over; one that cannot be read ends the loop.
  abbrev pub and_messages :
      Option (Result Error EmailMessage)
      → Result Error (List EmailMessage)
      → Result Error (List EmailMessage)
  and_messages none rest = rest
  and_messages (some (raised e)) rest = raised e
  and_messages (some (ok m)) (raised e) = raised e
  and_messages (some (ok m)) (ok ms) = ok (m ∷ ms)

  abbrev pub read_fetched : Text → Option Message → Option (Result Error EmailMessage)
  read_fetched id none = none
  read_fetched id (some msg) = some (to_email_message msg id)

  unfoldable pub fetch_all : (Text → Option Message) → List Text → Result Error (List EmailMessage)
  unfolding to_email_message
  fetch_all fetch [] = ok []
  fetch_all fetch (id ∷ ids) = and_messages (read_fetched id (fetch id)) (fetch_all fetch ids)

  -- The ids of the unseen messages, in the order of the mailbox, where the search succeeds.
  unfoldable pub fetch_new_messages :
      Option (List Text) → (Text → Option Message) → ℕ → Result Error (List EmailMessage)
  unfolding chosen fetch_all
  fetch_new_messages none fetch limit = ok []
  fetch_new_messages (some ids) fetch limit = fetch_all fetch (chosen limit ids)
