-- ===== src/Base/Patterns.antt =====
-- Fixed-length patterns of literal characters and digits, such as `DIAR-\d{4}-\d{4}-\d{4}`.
use Prim.Native.Nat.{ℕ, zero, suc, pred}
use mathlib.Core.Bool.{Bool, true, false, ◌&&◌}
use mathlib.Core.List.{List, [], ◌∷◌, map}
use group_assessment_agent.Base.Tests.{nat_eq, if◌then◌else◌}
use group_assessment_agent.Base.Lists.{length, take}
use group_assessment_agent.Base.Strings.{Text, is_digit}

pub data Atom : Type 0 where
  literal : ℕ → Atom
  digit : Atom

abbrev pub Pattern : Type 0
Pattern = List Atom

abbrev pub literals : Text → Pattern
literals = map literal

abbrev pub digits_of_length : ℕ → Pattern
digits_of_length zero = []
digits_of_length (suc n) = digit ∷ digits_of_length n

abbrev pub fits : Atom → ℕ → Bool
fits (literal x) c = nat_eq c x
fits digit c = is_digit c

-- The pattern matches at the start of the text.
unfoldable pub matches_at : Pattern → Text → Bool
matches_at [] s = true
matches_at (a ∷ p) [] = false
matches_at (a ∷ p) (c ∷ s) = fits a c && matches_at p s

-- `^pattern$`.
unfoldable pub matches_whole : Pattern → Text → Bool
unfolding matches_at
matches_whole p s = matches_at p s && nat_eq (length s) (length p)

-- `re.findall`: from left to right, going on behind each match.
scan : Pattern → ℕ → Text → List Text
scan p skip [] = []
scan p (suc skip) (c ∷ s) = scan p skip s
scan p zero (c ∷ s) =
    let hit = take (length p) (c ∷ s) ∷ scan p (pred (length p)) s in
    let miss = scan p zero s in if matches_at p (c ∷ s) then hit else miss

unfoldable pub find_all : Pattern → Text → List Text
unfolding scan matches_at
find_all p s = scan p zero s
