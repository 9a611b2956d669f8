-- ===== src/Mailbox/Verdicts/Reading.antt =====
-- How the search takes one statement of a verdict.
use group_assessment_agent.Base.{
  ℕ, ◌+◌, ◌-◌, ◌≡◌, refl, ap, Text, codes, length, Bool, true, false, starts_with, some, List, [],
  ◌∷◌, ◌++◌, arith, All,
}
use group_assessment_agent.Mailbox.Verdicts.{
  Check, spf, dkim, dmarc, is_letter, is_word, skip_spaces, letters, match_here, Match, scan,
  check_name,
}

abbrev pub AllLetters : Text → Type 0
AllLetters v = All (λ c. is_letter c ≡ true) v

-- What ends a run of letters: a character that is none.
abbrev pub Ends : Text → Type 0
Ends [] = Unit
Ends (c ∷ s) = is_letter c ≡ false

letters-append : (v tail : Text) → AllLetters v → Ends tail → letters (v ++ tail) ≡ (v, tail)
unfolding letters
letters-append [] [] h e = refl
letters-append [] (c ∷ s) h e = rw e refl
letters-append (c ∷ v) tail (h, hs) e = rw (letters-append v tail hs e, h) refl

pub letter_visible : (c : ℕ) (s : Text) → is_letter c ≡ true → skip_spaces (c ∷ s) ≡ c ∷ s
unfolding skip_spaces
letter_visible c s h = ground arith

abbrev pub stated : Check → Text → Text → Text
stated k v tail = check_name k ++ (codes "=" ++ (v ++ tail))

match-stated :
    (k : Check) (c : ℕ) (v tail : Text)
    → AllLetters (c ∷ v)
    → Ends tail
    → match_here (stated k (c ∷ v) tail) ≡ some (record { check = k; verdict = c ∷ v; rest = tail })
unfolding match_here skip_spaces starts_with
match-stated spf c v tail h e =
    rw (letter_visible c (v ++ tail) h.0, letters-append (c ∷ v) tail h e) refl
match-stated dkim c v tail h e =
    rw (letter_visible c (v ++ tail) h.0, letters-append (c ∷ v) tail h e) refl
match-stated dmarc c v tail h e =
    rw (letter_visible c (v ++ tail) h.0, letters-append (c ∷ v) tail h e) refl

abbrev inside_after : Bool → Text → Bool
inside_after inside [] = inside
inside_after inside (c ∷ s) = inside_after (is_word c) s

scan-skip :
    (l rest : Text) (inside : Bool)
    → scan inside (length l) (l ++ rest) ≡ scan (inside_after inside l) 0 rest
unfolding scan
scan-skip [] rest inside = refl
scan-skip (c ∷ l) rest inside = scan-skip l rest (is_word c)

length-append : (l rest : Text) → length (l ++ rest) ≡ length l + length rest
length-append [] rest = omega arith
length-append (c ∷ l) rest = omega (arith, length-append l rest)

length-difference : (l rest : Text) → length (l ++ rest) - length rest ≡ length l
length-difference l rest = omega (arith, length-append l rest)

letters_inside : (c : ℕ) (v : Text) (i : Bool) → AllLetters (c ∷ v) → inside_after i (c ∷ v) ≡ true
letters_inside c [] i (h, _) = rw h refl
letters_inside c (d ∷ v) i (_, hs) = letters_inside d v (is_word c) hs

-- The scan goes on behind a match.
scan-behind :
    (l : Text) (c : ℕ) (v tail : Text)
    → AllLetters (c ∷ v)
    → scan true (length ((l ++ (c ∷ v)) ++ tail) - length tail) ((l ++ (c ∷ v)) ++ tail)
      ≡ scan true 0 tail
scan-behind l c v tail h =
    rw (length-difference (l ++ (c ∷ v)) tail, scan-skip (l ++ (c ∷ v)) tail true)
      (ap (λ i. scan i 0 tail) (behind l true))
  where
    behind : (l : Text) (i : Bool) → inside_after i (l ++ (c ∷ v)) ≡ true
    behind [] i = letters_inside c v i h
    behind (d ∷ l) i = behind l (is_word d)

pub scan-stated :
    (k : Check) (c : ℕ) (v tail : Text)
    → AllLetters (c ∷ v)
    → Ends tail
    → scan false 0 (stated k (c ∷ v) tail)
      ≡ record { check = k; verdict = c ∷ v; rest = tail } ∷ scan true 0 tail
unfolding scan
scan-stated spf c v tail h e =
    rw (letter_visible c (v ++ tail) h.0, letters-append (c ∷ v) tail h e)
      (ap (λ (ms : List Match). record { check = spf; verdict = c ∷ v; rest = tail } ∷ ms)
        (scan-behind (codes "pf=") c v tail h))
scan-stated dkim c v tail h e =
    rw (letter_visible c (v ++ tail) h.0, letters-append (c ∷ v) tail h e)
      (ap (λ (ms : List Match). record { check = dkim; verdict = c ∷ v; rest = tail } ∷ ms)
        (scan-behind (codes "kim=") c v tail h))
scan-stated dmarc c v tail h e =
    rw (letter_visible c (v ++ tail) h.0, letters-append (c ∷ v) tail h e)
      (ap (λ (ms : List Match). record { check = dmarc; verdict = c ∷ v; rest = tail } ∷ ms)
        (scan-behind (codes "marc=") c v tail h))
