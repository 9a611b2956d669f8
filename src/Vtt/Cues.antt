-- ===== src/Vtt/Cues.antt =====
-- What a transcript that `parse_vtt` accepts looks like.
use group_assessment_agent.Base.{
  ℕ, Text, codes, Bool, false, not, ◌&&◌, Option, List, [], ◌∷◌, contains, starts_with, lower,
  strip, if◌then◌else◌,
}
use group_assessment_agent.Vtt.{without_identifier, lines_of, tail, split_blocks}

-- A time stamp with a line of text under it.
abbrev has_text : List Text → Bool
has_text [] = false
has_text (l ∷ []) = false
has_text (l ∷ t ∷ ts) = contains l (codes "-->")

abbrev is_note : List Text → Bool
is_note [] = false
is_note (l ∷ ls) = starts_with (lower (strip l)) (codes "note")

-- A block with a cue that has text, by its lines that are not blank; the number of the cue, if there
-- is one, is in front of the time stamp.
unfoldable pub is_spoken : Text → Bool
is_spoken b = not (is_note (lines_of b)) && has_text (without_identifier (lines_of b))

abbrev one_if : Bool → ℕ
one_if b = if b then 1 else 0

module _ (parse_date : Text → Option ℕ) where
  -- The blocks of a text, without the header.
  unfoldable pub blocks_of : Text → List Text
  blocks_of text = tail parse_date (split_blocks [] 0 (strip text))
