-- ===== src/Mailbox/Verdicts/Headers.antt =====
-- What is read from a header that is a list of statements.
use group_assessment_agent.Base.{
  ℕ, ◌≡◌, refl, Text, codes, lower, length, true, false, starts_with, or_else, Option, none, some,
  List, [], ◌∷◌, ◌++◌, arith, All, drop, Bool-cases, inl, inr, if◌then◌else◌,
}
use group_assessment_agent.Mailbox.Verdicts.{
  Check, spf, dkim, dmarc, is_letter, is_word, skip_spaces, match_here, scan, last_verdict, signals,
  check_name, after_equals, try_check, same_check,
}
use group_assessment_agent.Mailbox.Verdicts.Reading.{
  AllLetters, Ends, letter_visible, stated, scan-stated,
}

-- What ends a statement: the end of the header or a semicolon.
abbrev Stops : Text → Type 0
Stops [] = Unit
Stops (c ∷ s) = c ≡ b';'

no_equals :
    (k : Check) (name v tail : Text)
    → AllLetters name
    → AllLetters v
    → Stops tail
    → starts_with (v ++ tail) name ≡ true
    → after_equals k (skip_spaces (drop (length name) (v ++ tail))) ≡ none
unfolding skip_spaces starts_with
no_equals k [] [] [] hn hv st h = refl
no_equals k [] [] (c ∷ s) hn hv st h = rw st refl
no_equals k [] (c ∷ v) tail hn (l, hv) st h = rw (letter_visible c (v ++ tail) l) (ground arith)
no_equals k (n ∷ name) [] [] hn hv st h = absurd (ground arith)
no_equals k (n ∷ name) [] (c ∷ s) (l, hn) hv st h = absurd (ground arith)
no_equals k (n ∷ name) (c ∷ v) tail (_, hn) (_, hv) st h =
    no_equals k name v tail hn hv st (ground arith)

no_check :
    (k : Check) (v tail : Text)
    → AllLetters (check_name k)
    → AllLetters v
    → Stops tail
    → try_check k (v ++ tail) ≡ none
no_check k v tail hk hv st = elim (Bool-cases (starts_with (v ++ tail) (check_name k))) [
  | inl named ↦ rw named (no_equals k (check_name k) v tail hk hv st named)
  | inr other ↦ rw other refl
]

-- A run of letters states nothing by itself.
no_match : (v tail : Text) → AllLetters v → Stops tail → match_here (v ++ tail) ≡ none
unfolding match_here
no_match v tail hv st =
    rw
      (
        no_check spf v tail (refl, (refl, (refl, tt))) hv st,
        no_check dkim v tail (refl, (refl, (refl, (refl, tt)))) hv st,
        no_check dmarc v tail (refl, (refl, (refl, (refl, (refl, tt))))) hv st,
      )
      refl

letter-IsWord : (c : ℕ) → is_letter c ≡ true → is_word c ≡ true
letter-IsWord c h = rw h refl

scan-inside : (v tail : Text) → AllLetters v → scan true 0 (v ++ tail) ≡ scan true 0 tail
unfolding scan
scan-inside [] tail hv = refl
scan-inside (c ∷ v) tail (l, hv) = rw (letter-IsWord c l) (scan-inside v tail hv)

scan-letters :
    (c : ℕ) (v tail : Text)
    → AllLetters (c ∷ v)
    → Stops tail
    → scan false 0 ((c ∷ v) ++ tail) ≡ scan true 0 tail
unfolding scan
scan-letters c v tail (l, hv) st =
    rw (no_match (c ∷ v) tail (l, hv) st, letter-IsWord c l) (scan-inside v tail hv)

glued-match : (d : ℕ) (k : Check) (s : Text) → match_here (d ∷ (check_name k ++ s)) ≡ none
unfolding match_here starts_with
glued-match d spf s = ground arith
glued-match d dkim s = ground arith
glued-match d dmarc s = ground arith

-- Behind a character of a word a name of a check is none.
scan-glued :
    (d : ℕ) (k : Check) (c : ℕ) (v tail : Text)
    → is_word d ≡ true
    → AllLetters (c ∷ v)
    → Stops tail
    → scan false 0 (d ∷ stated k (c ∷ v) tail) ≡ scan true 0 tail
unfolding scan
scan-glued d spf c v tail w hv st =
    rw (glued-match d spf (codes "=" ++ ((c ∷ v) ++ tail)), w) (scan-letters c v tail hv st)
scan-glued d dkim c v tail w hv st =
    rw (glued-match d dkim (codes "=" ++ ((c ∷ v) ++ tail)), w) (scan-letters c v tail hv st)
scan-glued d dmarc c v tail w hv st =
    rw (glued-match d dmarc (codes "=" ++ ((c ∷ v) ++ tail)), w) (scan-letters c v tail hv st)

-- `check=verdict`, or the same with a character in front of it, as in `xspf=pass`.
pub data Statement : Type 0 where
  plain : Check → ℕ → Text → Statement
  glued : ℕ → Check → ℕ → Text → Statement

-- The verdicts are words of letters, and what is glued in front is a character of a word.
unfoldable pub IsFair : Statement → Type 0
IsFair (plain k c v) = AllLetters (c ∷ v)
IsFair (glued d k c v) = (is_word d ≡ true) × AllLetters (c ∷ v)

abbrev written : Statement → Text → Text
written (plain k c v) tail = stated k (c ∷ v) tail
written (glued d k c v) tail = d ∷ stated k (c ∷ v) tail

abbrev separated : List Statement → Text → Text
separated [] tail = []
separated (_ ∷ _) tail = codes "; " ++ tail

-- The statements with `; ` between them.
unfoldable pub header : List Statement → Text
header [] = []
header (p ∷ ps) = written p (separated ps (header ps))

-- Of several statements on a check the last one counts, and one with a character glued in front does
-- not.
unfoldable pub last_stated : Check → List Statement → Option Text
unfolding lower
last_stated k [] = none
last_stated k (plain j c v ∷ ps) =
    or_else (last_stated k ps) (if same_check j k then some (lower (c ∷ v)) else none)
last_stated k (glued d j c v ∷ ps) = last_stated k ps

separated-Stops : (ps : List Statement) (tail : Text) → Stops (separated ps tail)
separated-Stops [] tail = tt
separated-Stops (_ ∷ _) tail = refl

separated-Ends : (ps : List Statement) (tail : Text) → Ends (separated ps tail)
separated-Ends [] tail = tt
separated-Ends (_ ∷ _) tail = refl

-- The search for the next name begins anew behind a separator.
scan-separated :
    (ps : List Statement) → scan true 0 (separated ps (header ps)) ≡ scan false 0 (header ps)
unfolding scan match_here starts_with header
scan-separated [] = refl
scan-separated (p ∷ ps) = refl

last_verdict-header :
    (k : Check) (ps : List Statement)
    → All IsFair ps
    → last_verdict k (scan false 0 (header ps)) ≡ last_stated k ps
unfolding IsFair header last_verdict last_stated scan
last_verdict-header k [] fair = refl
last_verdict-header k (plain j c v ∷ ps) (hv, fair) =
    rw
      (
        scan-stated j c v (separated ps (header ps)) hv (separated-Ends ps (header ps)),
        scan-separated ps,
        last_verdict-header k ps fair,
      )
      refl
last_verdict-header k (glued d j c v ∷ ps) ((w, hv), fair) =
    rw
      (
        scan-glued d j c v (separated ps (header ps)) w hv (separated-Stops ps (header ps)),
        scan-separated ps,
      )
      (last_verdict-header k ps fair)

-- A header of any number of statements on the three checks, in any order and also repeated, with `; `
-- between them and verdicts that are words of letters: for each check the last statement on it is read
-- back, in lower case, and none where there is none. A statement with a character of a word glued in
-- front, as in `xspf=pass`, states nothing.
pub signals-header :
    (ps : List Statement)
    → All IsFair ps
    → signals (header ps) ≡ record {
      spf = last_stated spf ps;
      dkim = last_stated dkim ps;
      dmarc = last_stated dmarc ps;
    }
unfolding signals
signals-header ps fair =
    rw
      (
        last_verdict-header spf ps fair,
        last_verdict-header dkim ps fair,
        last_verdict-header dmarc ps fair,
      )
      refl
