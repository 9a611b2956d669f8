-- ===== src/Mailbox/Verdicts.antt =====
-- `_VERDICT_RE` and `_parse_auth_signals`, which app/mail/imap_client.py, app/mail/gmail_client.py and
-- app/mail/graph_client.py have alike.
pub mod Reading
pub mod Headers
use group_assessment_agent.Base.{
  ℕ, zero, suc, ◌+◌, ◌-◌, Text, codes, is_space, is_digit, lower, starts_with, length, leb, nat_eq,
  Bool, true, false, ◌&&◌, ◌||◌, or_else, Option, none, some, List, [], ◌∷◌, drop, if◌then◌else◌,
}
use group_assessment_agent.Mailbox.{AuthSignals}

pub data Check : Type 0 where
  spf dkim dmarc : Check

abbrev pub check_name : Check → Text
check_name spf = codes "spf"
check_name dkim = codes "dkim"
check_name dmarc = codes "dmarc"

abbrev pub is_letter : ℕ → Bool
is_letter c = (leb b'a' c && leb c b'z') || (leb b'A' c && leb c b'Z')

abbrev pub is_word : ℕ → Bool
is_word c = is_letter c || is_digit c || nat_eq c b'_'

unfoldable pub skip_spaces : Text → Text
skip_spaces [] = []
skip_spaces (c ∷ s) = let rest = skip_spaces s in if is_space c then rest else c ∷ s

-- The run of letters at the start, and what follows it.
unfoldable pub letters : Text → Text × Text
letters [] = ([], [])
letters (c ∷ s) =
    let (run, rest) = letters s in if is_letter c then (c ∷ run, rest) else ([], c ∷ s)

-- A match: the check, its verdict, and the text behind it.
pub record Match : Type 0 where
  pub check : Check
  pub verdict : Text
  pub rest : Text

abbrev found_verdict : Check → Text × Text → Option Match
found_verdict k ([], rest) = none
found_verdict k (c ∷ v, rest) = some (record { check = k; verdict = c ∷ v; rest = rest })

abbrev pub after_equals : Check → Text → Option Match
after_equals k [] = none
after_equals k (c ∷ s) = if nat_eq c b'=' then found_verdict k (letters (skip_spaces s)) else none

abbrev pub try_check : Check → Text → Option Match
try_check k s =
    if starts_with s (check_name k)
    then after_equals k (skip_spaces (drop (length (check_name k)) s))
    else none

abbrev first_of : Option Match → Option Match → Option Match
first_of none o = o
first_of (some m) o = some m

-- A match at the start of a text. No name is the start of another.
unfoldable pub match_here : Text → Option Match
unfolding skip_spaces letters starts_with
match_here s = first_of (try_check spf s) (first_of (try_check dkim s) (try_check dmarc s))

abbrev skip_of : Text → Option Match → ℕ
skip_of s none = 0
skip_of s (some m) = length s - length m.rest

abbrev and_then : Option Match → List Match → List Match
and_then none ms = ms
and_then (some m) ms = m ∷ ms

-- `finditer`: whether a word character stands before, how much of the last match is left, the text.
unfoldable pub scan : Bool → ℕ → Text → List Match
unfolding match_here
scan inside n [] = []
scan inside (suc n) (c ∷ s) = scan (is_word c) n s
scan inside zero (c ∷ s) =
    let found = if inside then none else match_here (c ∷ s) in
    and_then found (scan (is_word c) (skip_of s found) s)

abbrev pub same_check : Check → Check → Bool
same_check spf spf = true
same_check dkim dkim = true
same_check dmarc dmarc = true
same_check _ _ = false

-- The dictionary of the verdicts: of several for one check the last one stays.
unfoldable pub last_verdict : Check → List Match → Option Text
unfolding lower
last_verdict k [] = none
last_verdict k (m ∷ ms) =
    or_else (last_verdict k ms) (if same_check m.check k then some (lower m.verdict) else none)

unfoldable pub signals : Text → AuthSignals
unfolding scan last_verdict
signals raw =
    let found = scan false 0 raw in
    record {
      spf = last_verdict spf found;
      dkim = last_verdict dkim found;
      dmarc = last_verdict dmarc found;
    }

abbrev pub no_signals : AuthSignals
no_signals = record { spf = none; dkim = none; dmarc = none }

-- `a or b or ""`.
abbrev pub either_header : Option Text → Option Text → Text
either_header (some (c ∷ s)) received_spf = c ∷ s
either_header _ none = []
either_header _ (some s) = s

abbrev parse_raw : Text → AuthSignals
parse_raw [] = no_signals
parse_raw (c ∷ s) = signals (c ∷ s)

-- The headers `Authentication-Results` and `Received-SPF` of a message that came over IMAP.
unfoldable pub imap_signals : Option Text → Option Text → AuthSignals
unfolding signals
imap_signals results received_spf = parse_raw (either_header results received_spf)

-- The header `authentication-results` of a message of Graph.
unfoldable pub graph_signals : Option Text → AuthSignals
unfolding signals
graph_signals none = no_signals
graph_signals (some raw) = signals raw
