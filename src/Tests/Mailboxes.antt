-- ===== src/Tests/Mailboxes.antt =====
-- The theorems on the mail clients at concrete inputs.
use group_assessment_agent.Base.{
  ℕ, ◌≡◌, refl, false, some, none, List, [], ◌∷◌, Text, codes, lower, strip,
}
use group_assessment_agent.Exec.{Result, ok}
use group_assessment_agent.Mailbox.Addresses.{extract_address, extract-formatted}
use group_assessment_agent.Mailbox.Imap.{Message, Library, fetch_all, fetch_new_messages}
use group_assessment_agent.Mailbox.Newest.{fetch_takes_newest}
use group_assessment_agent.Mailbox.Verdicts.{spf, dkim, signals}
use group_assessment_agent.Mailbox.Verdicts.Reading.{AllLetters}
use group_assessment_agent.Mailbox.Verdicts.Headers.{
  Statement, plain, glued, IsFair, header, last_stated, signals-header,
}
use group_assessment_agent.Exec.Ensures.{Ensures}
use group_assessment_agent.Exec.Raises.{Raises}
use group_assessment_agent.Messages.{Error}
use group_assessment_agent.Mailbox.Drafts.{
  GraphRequest, create_draft, patch_headers, send_draft, Draft, header_updates, message_id_of,
  send_email,
}
use group_assessment_agent.Mailbox.Drafts.Sending.{Refused, send_email_returns}
use group_assessment_agent.Tests.{ann}

extract-formatted_example :
    extract_address (some (codes "Ann <eve@x.net> trailer")) ≡ some (codes "eve@x.net")
unfolding extract_address lower strip
extract-formatted_example =
    extract-formatted (codes "Ann ") b'e' (codes "ve@x.net") (codes " trailer")
      (refl, (refl, (refl, (refl, tt))))
      (refl, (refl, (refl, (refl, (refl, (refl, (refl, (refl, (refl, tt)))))))))

abbrev statements : List Statement
statements =
    plain spf b'p' (codes "ass")
    ∷ plain dkim b'F' (codes "ail")
    ∷ glued b'x' dkim b'p' (codes "ass")
    ∷ []

letters-fail : AllLetters (codes "Fail")
letters-fail = (refl, (refl, (refl, (refl, tt))))

letters-pass : AllLetters (codes "pass")
letters-pass = (refl, (refl, (refl, (refl, tt))))

signals-header_example :
    signals (header statements)
    ≡ record { spf = some (codes "pass"); dkim = some (codes "fail"); dmarc = none }
unfolding lower last_stated IsFair
signals-header_example =
    signals-header statements (letters-pass, (letters-fail, ((refl, letters-pass), tt)))

abbrev library : Library
library = record {
  decode = λ charset bytes. ok bytes;
  decode_header = λ s. some s;
  parse_with_zone = λ s. some 1;
  parse_without_zone = λ s. none;
  now = 2;
}

abbrev message : Message
message = record {
  whole = record {
    is_multipart = false;
    content_disposition = none;
    content_type = codes "text/plain";
    content_charset = none;
    payload = some (codes "Hello");
    filename = none;
  };
  walk = [];
  message_id = none;
  sender = some ann;
  subject = none;
  date = none;
  authentication_results = none;
  received_spf = none;
  in_reply_to = none;
  references = none;
}

abbrev unseen : List Text
unseen = codes "1" ∷ codes "2" ∷ codes "3" ∷ []

fetch_takes_newest_example :
    fetch_new_messages library (some unseen) (λ id. some message) 2
    ≡ fetch_all library (λ id. some message) (codes "3" ∷ codes "2" ∷ [])
fetch_takes_newest_example = fetch_takes_newest library unseen (λ id. some message) 1

abbrev accepts : ℕ → GraphRequest → Result Error Draft
accepts n r = ok (record { id = codes "d1"; internet_message_id = some (codes "<m@x>") })

send_email_returns_example :
    Raises (Refused accepts (λ n. ok tt)) (
      send_email accepts
        (λ n. ok tt)
        ann
        (codes "Re: status")
        (codes "Done.")
        []
        (some (codes "<q@x>"))
        none)
    × Ensures
        (λ (s : List GraphRequest). s ≡ [])
        (send_email accepts
          (λ n. ok tt)
          ann
          (codes "Re: status")
          (codes "Done.")
          []
          (some (codes "<q@x>"))
          none)
        (λ id s.
          (d : Draft) × (accepts 0 (create_draft ann (codes "Re: status") (codes "Done.") [])
            ≡ ok d)
          × (id ≡ message_id_of d)
          × (s
              ≡ create_draft ann (codes "Re: status") (codes "Done.") []
                ∷ (patch_headers d.id ((codes "In-Reply-To", codes "<q@x>") ∷ [])
                    ∷ (send_draft d.id ∷ []))))
unfolding header_updates
send_email_returns_example =
    send_email_returns accepts (λ n. ok tt) ann (codes "Re: status") (codes "Done.") []
      (some (codes "<q@x>")) none []
