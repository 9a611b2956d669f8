-- ===== src/Auth/Decisions.antt =====
-- What each verdict of `authorise` says of the sender.
use group_assessment_agent.Base.{
  ℕ, Text, ◌≡◌, ◌↔◌, ◌⊎◌, true, false, not, ◌||◌, none, some, arith, Option-cases, inl, inr, lower,
  lower_idem, strip, after_last,
}
use group_assessment_agent.World.{
  authorised, unrecognised_in_domain, unauthenticated, malformed_sender,
}
use group_assessment_agent.Mailbox.{AuthSignals}
use group_assessment_agent.Auth.{
  Authoriser, authorise, normalise_email, auth_pass, owner_id, in_domains,
}

-- The sender may use the system as `user`: the address is well formed and registered, and the
-- provider's verdict vouches for it where that is required.
pub record IsEntitled (a : Authoriser) (from : Text) (signals : AuthSignals) (user : ℕ)
    : Type 0 where
  pub address : Text
  pub normalised : normalise_email from ≡ some address
  pub vouched : (not a.require_auth_pass || auth_pass signals) ≡ true
  pub registered : owner_id a.group_owners address ≡ some user

module _ (a : Authoriser) (from : Text) (signals : AuthSignals) where
  registered_of_authorised :
      (address : Text)
      → normalise_email from ≡ some address
      → (authorise a from signals).reason ≡ authorised
      → (user : ℕ) × ((authorise a from signals).user_id ≡ some user)
        × IsEntitled a from signals user
  unfolding authorise
  registered_of_authorised address e h = elim (Option-cases (owner_id a.group_owners address)) [
    | inl o ↦ absurd (ground arith)
    | inr (user, o) ↦ (
      user,
      ground arith,
      record { address = address; normalised = e; vouched = ground arith; registered = o },
    )
  ]

  -- Only an entitled sender is authorised, as the user that the address is registered for.
  pub authorised-IsEntitled :
      (authorise a from signals).reason ≡ authorised
      → (user : ℕ) × ((authorise a from signals).user_id ≡ some user)
        × IsEntitled a from signals user
  unfolding authorise
  authorised-IsEntitled h = elim (Option-cases (normalise_email from)) [
    | inl e ↦ absurd (ground arith)
    | inr (address, e) ↦ registered_of_authorised address e h
  ]

  -- Where verdicts are required, a message without a passing one is refused, whatever its address:
  -- as malformed or as unauthenticated, and with no user.
  pub unvouched_refused :
      a.require_auth_pass ≡ true
      → auth_pass signals ≡ false
      → ((authorise a from signals).ok ≡ false)
        × ((authorise a from signals).user_id ≡ none)
        × (((authorise a from signals).reason ≡ malformed_sender)
            ⊎ ((authorise a from signals).reason ≡ unauthenticated))
  unfolding authorise
  unvouched_refused r p = ground arith

  -- What the verdict `unrecognised_in_domain` says of the sender.
  pub unrecognised_needs :
      (authorise a from signals).reason ≡ unrecognised_in_domain
      → (normalise_email from ≡ some (authorise a from signals).sender_email)
        × ((not a.require_auth_pass || auth_pass signals) ≡ true)
        × (owner_id a.group_owners (authorise a from signals).sender_email ≡ none)
        × (in_domains a.authorised_domains (after_last b'@' (authorise a from signals).sender_email)
            ≡ true)
  unfolding authorise
  unrecognised_needs h = ground arith

  -- `ok`, a user and the reason `authorised` go together.
  pub ok-iff-authorised :
      ((authorise a from signals).ok ≡ true) ↔ ((authorise a from signals).reason ≡ authorised)
  unfolding authorise
  ok-iff-authorised = ground arith

-- An address that is normalised is in lower case.
pub normalise_email-lower :
    (from address : Text) → normalise_email from ≡ some address → lower address ≡ address
unfolding normalise_email
normalise_email-lower from address h = ground (arith, lower_idem (strip from))
