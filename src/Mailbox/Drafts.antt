-- ===== src/Mailbox/Drafts.antt =====
-- The requests that `GraphMailClient` of app/mail/graph_client.py makes to send a mail and to mark one:
-- a draft, a change of its headers where there are any, and the sending of the draft.
pub mod Sending
use group_assessment_agent.Base.{
  ℕ, Text, codes, length, nonempty, ◌==◌, ◌≡◌, refl, ap, ◌∙◌, ◌||◌, Bool, true, false, Bool-cases,
  Option, none, some, List, [], ◌∷◌, ◌++◌, arith, inl, inr, if◌then◌else◌,
}
use mathlib.Core.List.{append_assoc}
use group_assessment_agent.Exec.{Result, ok, raised, Exec, pure, ◌>>=◌, ◌>>◌}
use group_assessment_agent.Messages.{Error}

-- Each names the path with what it quotes; the bytes of the attachments are sent in base 64.
pub data GraphRequest : Type 0 where
  create_draft : Text → Text → Text → List (Text × List ℕ) → GraphRequest
  patch_headers : Text → List (Text × Text) → GraphRequest
  send_draft : Text → GraphRequest
  mark_read : Text → GraphRequest

-- What the reply to a new draft says; the other replies are not read.
pub record Draft : Type 0 where
  pub id : Text
  pub internet_message_id : Option Text

abbrev pub GraphCall : Type 0 → Type 0
GraphCall = Exec (List GraphRequest) Error

abbrev header_update : Text → Option Text → List (Text × Text)
header_update name none = []
header_update name (some []) = []
header_update name (some (c ∷ s)) = (name, c ∷ s) ∷ []

unfoldable pub header_updates : Option Text → Option Text → List (Text × Text)
header_updates in_reply_to references =
    header_update (codes "In-Reply-To") in_reply_to ++ header_update (codes "References") references

abbrev pub message_id_of : Draft → Text
message_id_of d = elim d.internet_message_id [ none ↦ d.id | some m ↦ m ]

-- `server` answers a request, after so many others, or httpx raises, as `raise_for_status` does; a
-- draft that is no JSON or has no id, where the code raises ValueError or KeyError, counts as such a
-- refusal. A token may fail to be acquired before the request is made.
module _ (server : ℕ → GraphRequest → Result Error Draft)
    (token : ℕ → Result Error (Unit {0})) where
  abbrev pub with_token :
      GraphRequest
      → List GraphRequest
      → Result Error (Unit {0})
      → Result Error Draft × List GraphRequest
  with_token r sent (raised e) = (raised e, sent)
  with_token r sent (ok _) = (server (length sent) r, sent ++ (r ∷ []))

  unfoldable pub call : GraphRequest → GraphCall Draft
  call r sent = with_token r sent (token (length sent))

  abbrev pub patch_if : Bool → Text → List (Text × Text) → GraphCall (Unit {0})
  patch_if false id updates = pure tt
  patch_if true id updates = call (patch_headers id updates) >> pure tt

  unfoldable pub send_email :
      Text → Text → Text → List (Text × List ℕ) → Option Text → Option Text → GraphCall Text
  unfolding ◌>>=◌ call header_updates
  send_email to subject body attachments in_reply_to references = do
    draft ← call (create_draft to subject body attachments)
    patch_if (nonempty in_reply_to || nonempty references) draft.id
        (header_updates in_reply_to references)
    call (send_draft draft.id)
    pure (message_id_of draft)

  unfoldable pub mark_processed : Text → GraphCall (Unit {0})
  unfolding ◌>>=◌ call
  mark_processed ref = do call (mark_read ref); pure tt
