-- ===== src/Mailbox/Html.antt =====
-- `_strip_html`, which app/mail/imap_client.py, app/mail/gmail_client.py and app/mail/graph_client.py have
-- alike. Letters are the ASCII ones where case is ignored.
use group_assessment_agent.Base.{
  ℕ, zero, suc, ◌-◌, Text, codes, lower, strip, starts_with, length, drop, nat_eq, Option, none,
  some, [], ◌∷◌, ◌++◌, if◌then◌else◌,
}
use group_assessment_agent.Mailbox.Verdicts.{skip_spaces}

-- A pattern at the start of a text: what stands behind the match.
abbrev pub Matcher : Type 0
Matcher = Text → Option Text

abbrev skip_of : Text → Option Text → ℕ
skip_of s none = 0
skip_of s (some rest) = length s - length rest

abbrev emit : Text → ℕ → Option Text → Text → Text
emit replacement c none s = c ∷ s
emit replacement c (some rest) s = replacement ++ s

-- `re.sub`; the number tells how much of the last match is left.
unfoldable pub substitute : Matcher → Text → ℕ → Text → Text
substitute m replacement n [] = []
substitute m replacement (suc n) (c ∷ s) = substitute m replacement n s
substitute m replacement zero (c ∷ s) =
    let found = m (c ∷ s) in emit replacement c found (substitute m replacement (skip_of s found) s)

-- What follows the first `>`.
unfoldable pub after_bracket : Matcher
after_bracket [] = none
after_bracket (c ∷ s) = let rest = after_bracket s in if nat_eq c b'>' then some s else rest

-- A text at the start, whatever its case.
unfoldable pub literal : Text → Matcher
unfolding starts_with lower
literal t s = if starts_with (lower s) t then some (drop (length t) s) else none

abbrev or_match : Option Text → Option Text → Option Text
or_match none o = o
or_match (some r) o = some r

-- The first place where the pattern matches.
unfoldable pub search : Matcher → Matcher
search m [] = m []
search m (c ∷ s) = or_match (m (c ∷ s)) (search m s)

module _ {A B : Type 0} where
  abbrev then_with : Option A → (A → Option B) → Option B
  then_with none f = none
  then_with (some a) f = f a

-- `<name[^>]*>.*?</name>`.
unfoldable pub element : Text → Matcher
unfolding literal after_bracket search
element name s = then_with (literal (codes "<" ++ name) s) (λ r.
    then_with (after_bracket r)
      (λ content. search (literal (codes "</" ++ (name ++ codes ">"))) content))

unfoldable pub script_or_style : Matcher
unfolding element
script_or_style s = or_match (element (codes "script") s) (element (codes "style") s)

abbrev optional_slash : Text → Text
optional_slash [] = []
optional_slash (c ∷ s) = if nat_eq c b'/' then s else c ∷ s

-- `<br\s*/?>`.
unfoldable pub line_break : Matcher
unfolding literal skip_spaces
line_break s =
    then_with (literal (codes "<br") s) (λ r. literal (codes ">") (optional_slash (skip_spaces r)))

unfoldable pub paragraph_end : Matcher
unfolding literal
paragraph_end s = literal (codes "</p>") s

abbrev inside_tag : Text → Option Text
inside_tag [] = none
inside_tag (c ∷ s) = if nat_eq c b'>' then none else after_bracket s

-- `<[^>]+>`.
unfoldable pub tag : Matcher
unfolding after_bracket
tag [] = none
tag (c ∷ s) = if nat_eq c b'<' then inside_tag s else none

unfoldable pub strip_html : Text → Text
unfolding substitute script_or_style line_break paragraph_end tag
strip_html html =
    let no_scripts = substitute script_or_style [] 0 html in
    let broken = substitute line_break (codes "\n") 0 no_scripts in
    let spaced = substitute paragraph_end (codes "\n\n") 0 broken in
    strip (substitute tag [] 0 spaced)
