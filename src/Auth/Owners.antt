-- ===== src/Auth/Owners.antt =====
-- What the table of the owners says after one more entry.
use group_assessment_agent.Base.{
  ℕ, Text, ◌==◌, ◌≡◌, true, not, ◌||◌, some, List, [], ◌∷◌, ◌++◌, arith, if◌then◌else◌,
}
use group_assessment_agent.World.{authorised}
use group_assessment_agent.Mailbox.{AuthSignals}
use group_assessment_agent.Auth.{
  Authoriser, authorise, normalise_email, auth_pass, owner_id, normal,
}

owner_id-snoc :
    (owners : List (Text × ℕ)) (key : Text) (user : ℕ) (address : Text)
    → owner_id (owners ++ ((key, user) ∷ [])) address
      ≡ (if normal key == address then some user else owner_id owners address)
unfolding owner_id
owner_id-snoc [] key user address = ground arith
owner_id-snoc ((k, v) ∷ owners) key user address =
    ground (arith, owner_id-snoc owners key user address)

abbrev pub with_owner : Text → ℕ → Authoriser → Authoriser
with_owner key user a = record a { group_owners = a.group_owners ++ ((key, user) ∷ []) }

-- One more owner, behind the others, whatever the case of the letters and the white space around the
-- address in the table and in the message: a vouched message from this address is authorised as the
-- new owner, also where the address was in the table before, and on any other well-formed sender the
-- decision is as before.
pub authorise-with_owner :
    (a : Authoriser) (key from : Text) (user : ℕ) (signals : AuthSignals) (address : Text)
    → normalise_email from ≡ some address
    → (not a.require_auth_pass || auth_pass signals) ≡ true
    → authorise (with_owner key user a) from signals ≡ (
        if normal key == address
        then record { ok = true; user_id = some user; sender_email = address; reason = authorised }
        else authorise a from signals)
unfolding authorise
authorise-with_owner a key from user signals address e vouched =
    ground (arith, owner_id-snoc a.group_owners key user address)
