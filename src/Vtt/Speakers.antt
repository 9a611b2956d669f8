-- ===== src/Vtt/Speakers.antt =====
-- The speakers of a transcript.
use group_assessment_agent.Base.{
  ℕ, Text, ◌==◌, ==_iff, is_empty, ◌≡◌, refl, false, ◌||◌, Option, none, some, List, [], ◌∷◌, ◌++◌,
  exists, suc, contains, codes, starts_with, lower, strip, arith, Bool-cases, inl, inr,
}
use group_assessment_agent.Vtt.{
  ParsedVtt, add_speaker, cue_text, cue_lines, with_speaker, without_identifier, handle_cue_block,
  handle_note_block, handle_block, handle_blocks, block_lines, noted, dated, note_date, note_body,
  lines_of,
}

-- No name is empty, and none occurs twice.
unfoldable pub AreDistinct : List Text → Type 0
AreDistinct [] = Unit
AreDistinct (t ∷ ts) = (is_empty t ≡ false) × (exists (λ u. u == t) ts ≡ false) × AreDistinct ts

exists-snoc :
    (t s : Text) (ts : List Text)
    → exists (λ u. u == t) (ts ++ (s ∷ [])) ≡ (exists (λ u. u == t) ts || s == t)
exists-snoc t s [] = ground arith
exists-snoc t s (x ∷ xs) = ground (arith, exists-snoc t s xs)

snoc-AreDistinct :
    (s : Text) (l : List Text)
    → is_empty s ≡ false
    → exists (λ u. u == s) l ≡ false
    → AreDistinct l
    → AreDistinct (l ++ (s ∷ []))
unfolding AreDistinct
snoc-AreDistinct s [] e n d = (e, refl, tt)
snoc-AreDistinct s (t ∷ ts) e n (filled, fresh, rest) = (
  filled,
  ground (arith, exists-snoc t s ts, ==_iff s t, ==_iff t s),
  snoc-AreDistinct s ts e (ground arith) rest,
)

add_speaker-AreDistinct : (s : Text) (l : List Text) → AreDistinct l → AreDistinct (add_speaker s l)
unfolding add_speaker
add_speaker-AreDistinct s l d = elim (Bool-cases (is_empty s || exists (λ t. t == s) l)) [
  | inl known ↦ rw known d
  | inr new ↦ rw new (snoc-AreDistinct s l (ground arith) (ground arith) d)
]

with_speaker-AreDistinct :
    (text : Text) (o : Option Text) (r : ParsedVtt)
    → AreDistinct r.speakers
    → AreDistinct (with_speaker text o r).speakers
with_speaker-AreDistinct text none r d = d
with_speaker-AreDistinct text (some s) r d = add_speaker-AreDistinct s r.speakers d

cue_text-AreDistinct :
    (ls : List Text) (r : ParsedVtt) → AreDistinct r.speakers → AreDistinct (cue_text ls r).speakers
cue_text-AreDistinct [] r d = d
cue_text-AreDistinct (l ∷ ls) r d =
    with_speaker-AreDistinct _ _ (record r { cue_count = suc r.cue_count }) d

cue_lines-AreDistinct :
    (block : Text) (ls : List Text) (r : ParsedVtt)
    → AreDistinct r.speakers
    → AreDistinct (cue_lines block ls r).speakers
cue_lines-AreDistinct block [] r d = d
cue_lines-AreDistinct block (l ∷ ls) r d = elim (Bool-cases (contains l (codes "-->"))) [
  | inl cue ↦ rw cue (cue_text-AreDistinct ls r d)
  | inr other ↦ rw other d
]

module _ (parse_date : Text → Option ℕ) where
  dated_speakers :
      (value : Text) (o : Option ℕ) (r : ParsedVtt)
      → (dated parse_date value o r).speakers ≡ r.speakers
  dated_speakers value none r = refl
  dated_speakers value (some date) r = refl

  noted_speakers : (o : Option Text) (r : ParsedVtt) → (noted parse_date o r).speakers ≡ r.speakers
  noted_speakers none r = refl
  noted_speakers (some value) r = dated_speakers value (parse_date value) r

  note_speakers :
      (ls : List Text) (r : ParsedVtt) → (handle_note_block parse_date ls r).speakers ≡ r.speakers
  unfolding handle_note_block
  note_speakers ls r = ground (arith, noted_speakers (note_date (note_body ls)) r)

  block_lines-AreDistinct :
      (block : Text) (ls : List Text) (r : ParsedVtt)
      → AreDistinct r.speakers
      → AreDistinct (block_lines parse_date block ls r).speakers
  unfolding handle_cue_block
  block_lines-AreDistinct block [] r d = d
  block_lines-AreDistinct block (l ∷ ls) r d =
      elim (Bool-cases (starts_with (lower (strip l)) (codes "note"))) [
        | inl note ↦ rw note (rw (note_speakers (l ∷ ls) r) d)
        | inr cue ↦ rw cue (cue_lines-AreDistinct block (without_identifier (l ∷ ls)) r d)
      ]

  pub blocks-AreDistinct :
      (bs : List Text) (r : ParsedVtt)
      → AreDistinct r.speakers
      → AreDistinct (handle_blocks parse_date bs r).speakers
  unfolding handle_blocks handle_block
  blocks-AreDistinct [] r d = d
  blocks-AreDistinct (b ∷ bs) r d =
      blocks-AreDistinct bs (handle_block parse_date b r)
        (block_lines-AreDistinct b (lines_of b) r d)
