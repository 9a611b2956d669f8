-- ===== src/Mailbox/Drafts/Sending.antt =====
-- Which requests have been made when a mail is sent.
use group_assessment_agent.Base.{
  ℕ, Text, length, nonempty, ◌≡◌, refl, ap, sym, ◌∙◌, ◌||◌, Bool, true, false, Option, List, [],
  ◌∷◌, ◌++◌,
}
use mathlib.Core.List.{append_assoc, append-nil}
use group_assessment_agent.Exec.{Result, ok, raised, pure, ◌>>◌}
use group_assessment_agent.Exec.Ensures.{Ensures, Outcome, Ensures-pure, Ensures-bind, Ensures-map}
use group_assessment_agent.Exec.Raises.{Raises, Allowed, Raises-pure, Raises-bind}
use group_assessment_agent.Messages.{Error}
use group_assessment_agent.Mailbox.Drafts.{
  GraphRequest, create_draft, patch_headers, send_draft, Draft, header_updates, message_id_of, call,
  patch_if, send_email, with_token,
}

abbrev patches : Bool → Text → List (Text × Text) → List GraphRequest
patches false id updates = []
patches true id updates = patch_headers id updates ∷ []

module _ (server : ℕ → GraphRequest → Result Error Draft)
    (token : ℕ → Result Error (Unit {0})) where
  -- The error of a token that could not be had, or of a request that the server refused.
  pub data Refused (e : Error) : Type 0 where
    no_token : (n : ℕ) → token n ≡ raised e → Refused e
    refused : (n : ℕ) (r : GraphRequest) → server n r ≡ raised e → Refused e

  call-Raises : (r : GraphRequest) → Raises Refused (call server token r)
  unfolding call
  call-Raises r = record { at = λ s. by_token s (token (length s)) refl }
    where
      answered :
          (s : List GraphRequest) (o : Result Error Draft)
          → server (length s) r ≡ o
          → Allowed Refused o
      answered s (ok d) h = tt
      answered s (raised x) h = refused (length s) r h

      by_token :
          (s : List GraphRequest) (t : Result Error (Unit {0}))
          → token (length s) ≡ t
          → Allowed Refused (with_token server token r s t).0
      by_token s (raised x) h = no_token (length s) h
      by_token s (ok _) h = answered s (server (length s) r) refl

  patch-Raises :
      (b : Bool) (id : Text) (updates : List (Text × Text))
      → Raises Refused (patch_if server token b id updates)
  patch-Raises false id updates = Raises-pure _ tt
  patch-Raises true id updates =
      Raises-bind _ _ (call-Raises (patch_headers id updates)) (λ d. Raises-pure _ tt)

  called :
      (r : GraphRequest) (sent : List GraphRequest)
      → Ensures
          (λ s. s ≡ sent)
          (call server token r)
          (λ d s. (server (length sent) r ≡ ok d) × (s ≡ sent ++ (r ∷ [])))
  unfolding call
  called r sent = record { at = λ s e. by_token s e (token (length s)) }
    where
      answered :
          (s : List GraphRequest) (o : Result Error Draft)
          → s ≡ sent
          → server (length s) r ≡ o
          → Outcome
              (λ d t. (server (length sent) r ≡ ok d) × (t ≡ sent ++ (r ∷ [])))
              o
              (s ++ (r ∷ []))
      answered s (ok d) e h = (rw e at h, ap (λ (l : List GraphRequest). l ++ (r ∷ [])) e)
      answered s (raised x) e h = tt

      by_token :
          (s : List GraphRequest)
          → s ≡ sent
          → (t : Result Error (Unit {0}))
          → Outcome
              (λ d u. (server (length sent) r ≡ ok d) × (u ≡ sent ++ (r ∷ [])))
              (with_token server token r s t).0
              (with_token server token r s t).1
      by_token s e (raised x) = tt
      by_token s e (ok _) = answered s (server (length s) r) e refl

  patched :
      (b : Bool) (id : Text) (updates : List (Text × Text)) (sent : List GraphRequest)
      → Ensures
          (λ s. s ≡ sent)
          (patch_if server token b id updates)
          (λ _ s. s ≡ sent ++ patches b id updates)
  patched false id updates sent = Ensures-pure tt (λ s e. e ∙ sym (append-nil sent))
  patched true id updates sent =
      Ensures-bind _ _ (called (patch_headers id updates) sent)
        (λ d. Ensures-pure tt (λ s (_, e). e))

  after_draft :
      (b : Bool) (d : Draft) (updates : List (Text × Text)) (sent : List GraphRequest)
      → Ensures
          (λ s. s ≡ sent)
          (patch_if server token b d.id updates
            >> (call server token (send_draft d.id) >> pure (message_id_of d)))
          (λ id s.
            (id ≡ message_id_of d)
            × (s ≡ (sent ++ patches b d.id updates) ++ (send_draft d.id ∷ [])))
  after_draft b d updates sent = Ensures-bind _ _ (patched b d.id updates sent) (λ _.
      Ensures-bind _ _ (called (send_draft d.id) (sent ++ patches b d.id updates))
        (λ _. Ensures-pure _ (λ s (_, e). (refl, e))))

  -- When the sending of a mail returns, these requests and no others have been made, in this order: a
  -- draft of the mail, which the server has accepted; a change of its headers, if the mail answers
  -- another one or has references; and the sending of this very draft. The id that is returned is the
  -- one the server gave the message, or else the id of the draft. When it raises, the error is one
  -- that the server answered a request with, or one of the token.
  pub send_email_returns :
      (to subject body : Text) (attachments : List (Text × List ℕ))
      (in_reply_to references : Option Text) (sent : List GraphRequest)
      → Raises Refused (send_email server token to subject body attachments in_reply_to references)
        × Ensures
            (λ s. s ≡ sent)
            (send_email server token to subject body attachments in_reply_to references)
            (λ id s.
              (d : Draft) × (server (length sent) (create_draft to subject body attachments) ≡ ok d)
              × (id ≡ message_id_of d)
              × (s
                  ≡ sent
                    ++ (create_draft to subject body attachments
                        ∷ (patches
                              (nonempty in_reply_to || nonempty references)
                              d.id
                              (header_updates in_reply_to references)
                            ++ (send_draft d.id ∷ [])))))
  unfolding send_email
  send_email_returns to subject body attachments in_reply_to references sent =
      let create = create_draft to subject body attachments in
      let answers = nonempty in_reply_to || nonempty references in
      let updates = header_updates in_reply_to references in
      (
        Raises-bind _ _ (call-Raises create) (λ d.
            Raises-bind _ _ (patch-Raises answers d.id updates) (λ _.
              Raises-bind _ _ (call-Raises (send_draft d.id))
                (λ _. Raises-pure _ (message_id_of d)))),
        Ensures-bind _ _ (called create sent) (λ d. record {
          at = λ s (accepted, first).
              (Ensures-map _
                  (λ id t (same, e). (
                    d,
                    accepted,
                    same,
                    e
                        ∙ (append_assoc (sent ++ (create ∷ [])) (patches answers d.id updates)
                              (send_draft d.id ∷ [])
                            ∙ append_assoc sent (create ∷ [])
                                (patches answers d.id updates ++ (send_draft d.id ∷ []))),
                  ))
                  (after_draft answers d updates (sent ++ (create ∷ [])))).at
                s first;
        }),
      )
