-- ===== src/Mailbox/Addresses.antt =====
-- `_extract_address` of app/mail/imap_client.py and app/mail/gmail_client.py.
use group_assessment_agent.Base.{
  ℕ, Text, lower, strip, nat_eq, ◌≡◌, refl, false, Option, none, some, [], ◌∷◌, ◌++◌, All,
  if◌then◌else◌,
}

abbrev longer : ℕ → Option Text → Option Text
longer c none = none
longer c (some t) = some (c ∷ t)

-- What stands before the first `>`, where there is one.
unfoldable pub before_bracket : Text → Option Text
before_bracket [] = none
before_bracket (c ∷ s) =
    let rest = longer c (before_bracket s) in if nat_eq c b'>' then some [] else rest

abbrev or_later : Option Text → Option Text → Option Text
or_later (some (c ∷ t)) later = some (c ∷ t)
or_later _ later = later

-- `re.search(r"<([^>]+)>", value)`: the group of the first match.
unfoldable pub bracketed : Text → Option Text
unfolding before_bracket
bracketed [] = none
bracketed (c ∷ s) =
    let later = bracketed s in if nat_eq c b'<' then or_later (before_bracket s) later else later

abbrev or_whole : Option Text → Text → Text
or_whole none s = s
or_whole (some t) s = t

unfoldable pub extract_address : Option Text → Option Text
unfolding bracketed
extract_address none = none
extract_address (some []) = none
extract_address (some (c ∷ s)) = some (lower (strip (or_whole (bracketed (c ∷ s)) (c ∷ s))))

before_bracket-append :
    (t rest : Text)
    → All (λ c. nat_eq c b'>' ≡ false) t
    → before_bracket (t ++ (b'>' ∷ rest)) ≡ some t
unfolding before_bracket
before_bracket-append [] rest h = refl
before_bracket-append (c ∷ t) rest (h, hs) = rw (h, before_bracket-append t rest hs) refl

bracketed-append :
    (name : Text) (c : ℕ) (t rest : Text)
    → All (λ d. nat_eq d b'<' ≡ false) name
    → All (λ d. nat_eq d b'>' ≡ false) (c ∷ t)
    → bracketed (name ++ (b'<' ∷ ((c ∷ t) ++ (b'>' ∷ rest)))) ≡ some (c ∷ t)
unfolding bracketed
bracketed-append [] c t rest hn ht = rw (before_bracket-append (c ∷ t) rest ht) refl
bracketed-append (d ∷ name) c t rest (h, hn) ht = rw (h, bracketed-append name c t rest hn ht) refl

or_whole-some : (o : Option Text) (t s : Text) → o ≡ some t → or_whole o s ≡ t
or_whole-some o t s e = rw e refl

-- The address of a sender that is written as a name and an address in angle brackets is read back,
-- stripped and in lower case, whatever the name holds besides `<`: an address inside the name, such
-- as that of somebody else, is not taken for the sender's.
pub extract-formatted :
    (name : Text) (c : ℕ) (t rest : Text)
    → All (λ d. nat_eq d b'<' ≡ false) name
    → All (λ d. nat_eq d b'>' ≡ false) (c ∷ t)
    → extract_address (some (name ++ (b'<' ∷ ((c ∷ t) ++ (b'>' ∷ rest)))))
      ≡ some (lower (strip (c ∷ t)))
unfolding extract_address
extract-formatted [] c t rest hn ht = rw (bracketed-append [] c t rest hn ht) refl
extract-formatted (d ∷ name) c t rest hn ht = rw (bracketed-append (d ∷ name) c t rest hn ht) refl
