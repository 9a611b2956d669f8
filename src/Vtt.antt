-- ===== src/Vtt.antt =====
-- app/vtt/parser.py: speakers, meeting date and cues of a WEBVTT transcript.
pub mod Speakers
pub mod Cues
use mathlib.Core.List.{map, reverse}
use group_assessment_agent.Base.{
  ℕ, zero, suc, ◌+◌, ◌-◌, Text, codes, lower, strip, starts_with, contains, is_empty, is_digit,
  join, nat_eq, leb, ◌==◌, Bool, true, false, not, ◌&&◌, ◌||◌, Option, none, some, List, [], ◌∷◌,
  ◌++◌, length, select, exists, for_all, is_some, if◌then◌else◌,
}
use group_assessment_agent.Exec.{Result, ok, raised}
use group_assessment_agent.Jobs.{no_webvtt_header, no_cues_found}
use group_assessment_agent.Messages.{Error, vtt_parse_error}

pub data Warning : Type 0 where
  no_timestamp : Text → Warning
  no_text : Warning
  no_speaker : Text → Warning
  bad_date : Text → Warning

pub record ParsedVtt : Type 0 where
  pub speakers : List Text
  pub meeting_date : Option ℕ
  pub cue_count : ℕ
  pub warnings : List Warning

abbrev pub nothing_parsed : ParsedVtt
nothing_parsed = record { speakers = []; meeting_date = none; cue_count = 0; warnings = [] }

abbrev pub is_word : ℕ → Bool
is_word c = is_digit c || (leb b'A' c && leb c b'Z') || (leb b'a' c && leb c b'z') || nat_eq c b'_'

abbrev pub drop : ℕ → Text → Text
drop zero s = s
drop (suc n) [] = []
drop (suc n) (c ∷ s) = drop n s

abbrev at_boundary : Text → Bool
at_boundary [] = true
at_boundary (c ∷ s) = not (is_word c)

-- `^WEBVTT\b`.
unfoldable pub has_header : Text → Bool
has_header s = starts_with s (codes "WEBVTT") && at_boundary (drop 6 s)

-- How many newlines the text begins with.
newlines : Text → ℕ
newlines [] = 0
newlines (c ∷ s) = let n = newlines s in if nat_eq c 10 then suc n else 0

-- The length of the match of `\r?\n\r?\n+` at the start of the text, or 0.
abbrev second_break : ℕ → Text → ℕ
second_break so_far [] = 0
second_break so_far (c ∷ s) =
    let n = newlines s in
    if nat_eq c 10
    then so_far + suc n
    else if nat_eq c 13
    then (if nat_eq n 0 then 0 else so_far + suc n)
    else 0

abbrev newline_then : ℕ → Text → ℕ
newline_then so_far [] = 0
newline_then so_far (c ∷ s) = if nat_eq c 10 then second_break (suc so_far) s else 0

break_length : Text → ℕ
unfolding newlines
break_length [] = 0
break_length (c ∷ s) = if nat_eq c 13 then newline_then 1 s else newline_then 0 (c ∷ s)

-- `_BLOCK_SPLIT_RE.split`. The block read so far is held the latest character first, and `skip`
-- characters of a separator are still to be passed over.
pub split_blocks : Text → ℕ → Text → List Text
split_blocks block skip [] = reverse block ∷ []
split_blocks block (suc skip) (c ∷ s) = split_blocks block skip s
split_blocks block zero (c ∷ s) =
    let here = reverse block ∷ split_blocks [] (break_length (c ∷ s) - 1) s in
    let longer = split_blocks (c ∷ block) zero s in
    if nat_eq (break_length (c ∷ s)) 0 then longer else here

-- The line ends of `str.splitlines`, apart from `\r\n`.
abbrev is_line_end : ℕ → Bool
is_line_end c =
    (leb 10 c && leb c 13)
    || (leb 28 c && leb c 30)
    || nat_eq c 133
    || nat_eq c 8232
    || nat_eq c 8233

-- `str.splitlines`. The flag says that a `\r` has just ended a line, so that a `\n` belongs to it.
lines_from : Text → Bool → Text → List Text
lines_from line after_cr [] = if is_empty line then [] else reverse line ∷ []
lines_from line after_cr (c ∷ s) =
    let joined = lines_from [] false s in
    let ended = reverse line ∷ lines_from [] (nat_eq c 13) s in
    let longer = lines_from (c ∷ line) false s in
    if after_cr && nat_eq c 10 then joined else if is_line_end c then ended else longer

unfoldable pub split_lines : Text → List Text
unfolding lines_from
split_lines s = lines_from [] false s

-- The lines of a block that are not blank.
unfoldable pub lines_of : Text → List Text
unfolding split_lines
lines_of block = select (λ l. not (is_empty (strip l))) (split_lines block)

abbrev pub warn : Warning → ParsedVtt → ParsedVtt
warn x r = record r { warnings = r.warnings ++ (x ∷ []) }

abbrev pub is_number : Text → Bool
is_number [] = false
is_number (c ∷ s) = for_all is_digit (c ∷ s)

-- The optional numeric cue identifier is passed over.
abbrev pub without_identifier : List Text → List Text
without_identifier [] = []
without_identifier (l ∷ ls) = if is_number (strip l) then ls else l ∷ ls

-- What stands in front of the first colon, if there is one.
before_colon : Text → Option Text
before_colon [] = none
before_colon (c ∷ s) = elim (nat_eq c b':') [
  | true ↦ some []
  | false ↦ elim (before_colon s) [ none ↦ none | some t ↦ some (c ∷ t) ]
]

-- The speaker of `^(?P<speaker>[^:\n]{1,100}):\s?(?P<text>.*)$`, for a text without newlines.
unfoldable pub cue_speaker : Text → Option Text
unfolding before_colon
cue_speaker s = elim (before_colon s) [
  | none ↦ none
  | some t ↦ if leb 1 (length t) && leb (length t) 100 then some (strip t) else none
]

unfoldable pub add_speaker : Text → List Text → List Text
add_speaker speaker seen =
    if is_empty speaker || exists (λ t. t == speaker) seen then seen else seen ++ (speaker ∷ [])

-- A cue with text is counted, whether or not it names a speaker.
abbrev pub with_speaker : Text → Option Text → ParsedVtt → ParsedVtt
with_speaker text none r = warn (no_speaker text) r
with_speaker text (some speaker) r = record r { speakers = add_speaker speaker r.speakers }

abbrev pub cue_text : List Text → ParsedVtt → ParsedVtt
cue_text [] r = warn no_text r
cue_text (l ∷ ls) r =
    let text = strip (join (codes " ") (l ∷ ls)) in
    with_speaker text (cue_speaker text) (record r { cue_count = suc r.cue_count })

abbrev pub cue_lines : Text → List Text → ParsedVtt → ParsedVtt
cue_lines block [] r = warn (no_timestamp block) r
cue_lines block (l ∷ ls) r =
    if contains l (codes "-->") then cue_text ls r else warn (no_timestamp block) r

unfoldable pub handle_cue_block : Text → List Text → ParsedVtt → ParsedVtt
unfolding cue_speaker add_speaker
handle_cue_block block lines r = cue_lines block (without_identifier lines) r

-- The value of `^meeting-date:\s*(?P<value>.+)$`, in any case, stripped.
unfoldable pub note_date : Text → Option Text
note_date body =
    let value = strip (drop 13 body) in
    if starts_with (lower body) (codes "meeting-date:") && not (is_empty value)
    then some value
    else none

abbrev pub note_body : List Text → Text
note_body [] = []
note_body (l ∷ ls) =
    join (codes " ") (select (λ t. not (is_empty t)) (strip (drop 4 (strip l)) ∷ map strip ls))

module _ (parse_date : Text → Option ℕ) where
  abbrev pub dated : Text → Option ℕ → ParsedVtt → ParsedVtt
  dated value none r = warn (bad_date value) r
  dated value (some date) r = record r { meeting_date = some date }

  abbrev pub noted : Option Text → ParsedVtt → ParsedVtt
  noted none r = r
  noted (some value) r = dated value (parse_date value) r

  -- The first note with a date that can be read wins.
  unfoldable pub handle_note_block : List Text → ParsedVtt → ParsedVtt
  unfolding note_date
  handle_note_block lines r =
      if is_some r.meeting_date then r else noted (note_date (note_body lines)) r

  -- A block whose first line begins with NOTE, in any case, is a note.
  abbrev pub block_lines : Text → List Text → ParsedVtt → ParsedVtt
  block_lines block [] r = r
  block_lines block (l ∷ ls) r =
      if starts_with (lower (strip l)) (codes "note")
      then handle_note_block (l ∷ ls) r
      else handle_cue_block block (l ∷ ls) r

  unfoldable pub handle_block : Text → ParsedVtt → ParsedVtt
  unfolding handle_note_block handle_cue_block lines_of
  handle_block block r = block_lines block (lines_of block) r

  unfoldable pub handle_blocks : List Text → ParsedVtt → ParsedVtt
  unfolding handle_block
  handle_blocks [] r = r
  handle_blocks (b ∷ bs) r = handle_blocks bs (handle_block b r)

  abbrev pub tail : List Text → List Text
  tail [] = []
  tail (_ ∷ bs) = bs

  abbrev pub with_cues : ParsedVtt → Result Error ParsedVtt
  with_cues r = if nat_eq r.cue_count 0 then raised (vtt_parse_error no_cues_found) else ok r

  -- `parse_vtt`, on the decoded text of the file.
  unfoldable pub parse_vtt : Text → Result Error ParsedVtt
  unfolding has_header split_blocks handle_blocks break_length
  parse_vtt text =
      let stripped = strip text in
      if has_header stripped
      then with_cues (handle_blocks (tail (split_blocks [] 0 stripped)) nothing_parsed)
      else raised (vtt_parse_error no_webvtt_header)
