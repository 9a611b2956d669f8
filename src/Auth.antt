-- ===== src/Auth.antt =====
-- app/auth/authorisation.py: who may use the system, decided before the model sees anything.
pub mod Decisions
pub mod Owners
use group_assessment_agent.Base.{
  ℕ, Text, codes, lower, strip, after_last, is_space, is_empty, nat_eq, ◌==◌, Bool, true, false,
  not, ◌&&◌, ◌||◌, Option, none, some, List, [], ◌∷◌, exists, if◌then◌else◌,
}
use group_assessment_agent.World.{
  AuthReason, authorised, unrecognised_in_domain, unauthorised_external, unauthenticated,
  malformed_sender,
}
use group_assessment_agent.Mailbox.{AuthSignals}

pub record SenderAuthResult : Type 0 where
  pub ok : Bool
  pub user_id : Option ℕ
  pub sender_email : Text
  pub reason : AuthReason

-- The arguments of the constructor of `SenderAuthoriser`.
pub record Authoriser : Type 0 where
  pub group_owners : List (Text × ℕ)
  pub authorised_domains : List Text
  pub require_auth_pass : Bool

-- A dot with something behind it.
abbrev dot_inside : Text → Bool
dot_inside [] = false
dot_inside (c ∷ s) = (nat_eq c b'.' && not (is_empty s)) || dot_inside s

abbrev domain_fits : Text → Bool
domain_fits [] = false
domain_fits (c ∷ s) = not (exists (nat_eq b'@') (c ∷ s)) && dot_inside s

-- The part before the first `@` has a character, and the part behind it is a domain.
abbrev address_fits : Bool → Text → Bool
address_fits begun [] = false
address_fits begun (c ∷ s) =
    let rest = address_fits true s in if nat_eq c b'@' then begun && domain_fits s else rest

-- `^[^@\s]+@[^@\s]+\.[^@\s]+$`, for a text with no white space at its ends.
unfoldable pub is_email : Text → Bool
is_email s = not (exists is_space s) && address_fits false s

unfoldable pub normalise_email : Text → Option Text
unfolding is_email
normalise_email address =
    let candidate = lower (strip address) in
    if is_empty address then none else if is_email candidate then some candidate else none

abbrev is_pass : Option Text → Bool
is_pass none = false
is_pass (some v) = lower v == codes "pass"

unfoldable pub auth_pass : AuthSignals → Bool
auth_pass s = is_pass s.dmarc || (is_pass s.spf && is_pass s.dkim)

abbrev pub normal : Text → Text
normal s = lower (strip s)

abbrev prefer : Option ℕ → Option ℕ → Option ℕ
prefer (some v) w = some v
prefer none w = w

-- `self._group_owners[address]`: of two keys that are normalised alike, the later one's value.
unfoldable pub owner_id : List (Text × ℕ) → Text → Option ℕ
owner_id [] address = none
owner_id ((k, v) ∷ owners) address =
    prefer (owner_id owners address) (if normal k == address then some v else none)

unfoldable pub in_domains : List Text → Text → Bool
in_domains domains domain = exists (λ d. normal d == domain) domains

abbrev refuse : Text → AuthReason → SenderAuthResult
refuse sender reason = record { ok = false; user_id = none; sender_email = sender; reason = reason }

abbrev admit : Authoriser → Text → Option ℕ → SenderAuthResult
admit a address (some user) = record {
  ok = true;
  user_id = some user;
  sender_email = address;
  reason = authorised;
}
admit a address none =
    if in_domains a.authorised_domains (after_last b'@' address)
    then refuse address unrecognised_in_domain
    else refuse address unauthorised_external

abbrev decide : Authoriser → Text → AuthSignals → Option Text → SenderAuthResult
decide a from signals none = refuse from malformed_sender
decide a from signals (some address) =
    if a.require_auth_pass && not (auth_pass signals)
    then refuse address unauthenticated
    else admit a address (owner_id a.group_owners address)

unfoldable pub authorise : Authoriser → Text → AuthSignals → SenderAuthResult
authorise a from signals = decide a from signals (normalise_email from)
