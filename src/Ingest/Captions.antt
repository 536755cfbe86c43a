-- ===== src/Ingest/Captions.antt =====
-- crates/pos-ingest/src/captions.rs: the cues of a caption file, and the loop that writes them as text
-- and segments. What the standard library does with Unicode text is a parameter; the reading of
-- blocks from the stream and of timestamps is not modelled: the blocks are a list, and any way to
-- read a timestamp will do.
pub mod Times
pub mod Laid
use projectos_core.Common.Splits.{strip_prefix, before}
use projectos_core.Ingest.Segments.{push, SegmentWriter, Segment}
use projectos_core.Common.Result.{◌>>=◌, ok, err, Result}
use projectos_core.Ingest.{time_range, limit_exceeded, caption_cues, IngestError}
use projectos_core.Common.{
  ◌∷◌, ◌==◌, ◌+◌, ◌++◌, some, saturating_add_u32, saturating_add, none, max, ltb, length, leb,
  is_some, if◌then◌else◌, bytes, [], Text, Option, List, ℕ,
}

abbrev pub caption_cue_count_max : ℕ
caption_cue_count_max = 36000

-- `str::trim`, `str::lines` and `str::split_whitespace`.
pub record TextOps : Type 0 where
  pub trim : Text → Text
  pub lines : Text → List Text
  pub split_whitespace : Text → List Text

pub record Cue : Type 0 where
  pub start_ms : ℕ
  pub end_ms : ℕ
  pub text : Text

-- `order`.
unfoldable pub order : Cue → (committed_to_ms : ℕ) → Option Cue
order cue committed_to_ms =
    if leb cue.end_ms committed_to_ms
    then none
    else some (record {
      start_ms = max cue.start_ms committed_to_ms;
      end_ms = cue.end_ms;
      text = cue.text;
    })

abbrev pub found_or : (t : Text) → Option Text → Option (Text × Text) → Option (Text × Text)
found_or t none later = later
found_or t (some rest) later = some ([], rest)

abbrev pub added_line : (text line : Text) → Text
added_line [] line = line
added_line text line = text ++ 32 ∷ line

-- Whether a text has another in it, and what stands around the first.
abbrev pub split_at : (pattern : Text) → Text → Option (Text × Text)
split_at pattern [] = none
split_at pattern (c ∷ t) =
    let later = before c (split_at pattern t) in
    found_or (c ∷ t) (strip_prefix pattern (c ∷ t)) later

abbrev pub head_of : List Text → Option Text
head_of [] = none
head_of (t ∷ ts) = some t

module _ (ops : TextOps) (parse_timestamp : Text → Option ℕ) where
  -- The lines of a block that are not blank.
  unfoldable pub full_lines : List Text → List Text
  full_lines [] = []
  full_lines (l ∷ ls) = if length (ops.trim l) == 0 then full_lines ls else l ∷ full_lines ls

  -- The spoken text: the lines that are left, with a space between.
  unfoldable pub spoken : (text : Text) → List Text → Text
  spoken text [] = text
  spoken text (l ∷ ls) = spoken (added_line text (ops.trim l)) ls

  unfoldable pub cue_of : (text : Text) → (start_ms end_ms : Option ℕ) → Option Cue
  cue_of text (some start_ms) (some end_ms) =
      if ltb end_ms start_ms
      then none
      else if length text == 0
      then none
      else some (record { start_ms = start_ms; end_ms = end_ms; text = text })
  cue_of text _ _ = none

  abbrev pub with_end : (start_text : Text) → Option Text → List Text → Option Cue
  with_end start_text none rest = none
  with_end start_text (some end_text) rest =
      cue_of (spoken [] rest) (parse_timestamp (ops.trim start_text))
        (parse_timestamp (ops.trim end_text))

  abbrev pub timed : Option (Text × Text) → List Text → Option Cue
  timed none rest = none
  timed (some (start_text, settings)) rest =
      with_end start_text (head_of (ops.split_whitespace settings)) rest

  abbrev pub second_timed : List Text → Option Cue
  second_timed [] = none
  second_timed (second ∷ rest) = timed (split_at (bytes "-->") second) rest

  -- The timing line is the first of the block or the second.
  unfoldable pub parse_lines : List Text → Option Cue
  parse_lines [] = none
  parse_lines (first ∷ rest) =
      if is_some (split_at (bytes "-->") first)
      then timed (split_at (bytes "-->") first) rest
      else second_timed rest

  unfoldable pub parse_block : Text → Option Cue
  parse_block block = parse_lines (full_lines (ops.lines block))

-- The loop's state, with the text that is written and the writer of the index.
pub record Captions (W : Type 0) : Type 0 where
  pub text : Text
  pub segments : SegmentWriter W
  pub byte_offset : ℕ
  pub cue_count : ℕ
  pub committed_to_ms : ℕ

module _ {W : Type 0} (append : W → Text → Result IngestError W) where
  abbrev pub segment_of : Cue → (byte_offset : ℕ) → Segment
  segment_of cue byte_offset = record {
    byte_start = byte_offset;
    byte_end = saturating_add byte_offset (length cue.text);
    locator = time_range cue.start_ms cue.end_ms;
    depth = 0;
  }

  -- `write_cue`, and what the loop sets around it.
  unfoldable pub write_cue : Cue → Captions W → Result IngestError (Captions W)
  write_cue cue c = do
    let segment = segment_of cue c.byte_offset
    segments ← push append c.segments segment
    ok (record {
      text = c.text ++ (cue.text ++ b'\n' ∷ []);
      segments = segments;
      byte_offset = saturating_add segment.byte_end 1;
      cue_count = saturating_add_u32 c.cue_count 1;
      committed_to_ms = cue.end_ms;
    })

  abbrev pub with_cue : Option Cue → Captions W → Result IngestError (Captions W)
  with_cue none c = ok c
  with_cue (some cue) c =
      if leb caption_cue_count_max c.cue_count
      then err (limit_exceeded caption_cues (c.cue_count + 1) caption_cue_count_max)
      else write_cue cue c

  abbrev pub with_parsed : Option Cue → Captions W → Result IngestError (Captions W)
  with_parsed none c = ok c
  with_parsed (some cue) c = with_cue (order cue c.committed_to_ms) c

  module _ (ops : TextOps) (parse_timestamp : Text → Option ℕ) where
    -- The loop of `normalize_captions`.
    unfoldable pub normalize_captions : List Text → Captions W → Result IngestError (Captions W)
    normalize_captions [] c = ok c
    normalize_captions (block ∷ blocks) c = do
      after ← with_parsed (parse_block ops parse_timestamp block) c
      normalize_captions blocks after
