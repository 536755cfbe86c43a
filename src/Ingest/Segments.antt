-- ===== src/Ingest/Segments.antt =====
-- crates/pos-ingest/src/segment.rs: the fixed-width records of the segment index, their writer and
-- their reader. The blob writer of the store is a parameter.
pub mod RoundTrip
pub mod Reading
use projectos_core.Common.Slices.{drop}
use projectos_core.Common.Result.{◌>>=◌, ok, err, Result}
use projectos_core.Ingest.{
  time_range, segment_record, segment_count, message_range, locator_bounds, line_range,
  limit_exceeded, Locator, IngestError,
}
use projectos_core.Ingest.Stream.{zeros, window, advance, Reader, BoundedStream}
use mathlib.Core.Option.{map}
use projectos_core.Common.{
  ◌∷◌, ◌==◌, ◌/◌, ◌-◌, ◌+◌, ◌++◌, ◌*◌, ◌%◌, zero, take, suc, some, saturating_add, none, ltb,
  length, leb, if◌then◌else◌, [], Text, Option, ℕ,
}

abbrev pub segment_record_bytes : ℕ
segment_record_bytes = 40

abbrev pub segment_count_max : ℕ
segment_count_max = 10000000

abbrev pub locator_tag_time : ℕ
locator_tag_time = 1

abbrev pub locator_tag_line : ℕ
locator_tag_line = 2

abbrev pub locator_tag_message : ℕ
locator_tag_message = 3

pub record Segment : Type 0 where
  pub byte_start : ℕ
  pub byte_end : ℕ
  pub locator : Locator
  pub depth : ℕ

unfoldable pub byte_len : Segment → ℕ
byte_len s = s.byte_end - s.byte_start

-- `to_le_bytes` and `from_le_bytes`, for a width in bytes.
abbrev pub le_bytes : (width value : ℕ) → Text
le_bytes zero value = []
le_bytes (suc width) value = (value % 256) ∷ le_bytes width (value / 256)

abbrev pub from_le_bytes : Text → ℕ
from_le_bytes [] = 0
from_le_bytes (b ∷ bs) = b + 256 * from_le_bytes bs

unfoldable pub locator_tag : Locator → ℕ
locator_tag (time_range a b) = locator_tag_time
locator_tag (line_range a b) = locator_tag_line
locator_tag (message_range a b) = locator_tag_message

unfoldable pub encode : Segment → Text
encode s =
    let (first, second) = locator_bounds s.locator in
    le_bytes 8 s.byte_start
    ++ (le_bytes 8 s.byte_end
        ++ (locator_tag s.locator ∷ s.depth ∷ (zeros 6 ++ (le_bytes 8 first ++ le_bytes 8 second))))

-- The bytes from `start` to `end`, half-open, as a number.
abbrev pub u64_at : (start : ℕ) → Text → ℕ
u64_at start bytes = from_le_bytes (take 8 (drop start bytes))

abbrev pub byte_at : ℕ → Text → ℕ
byte_at n [] = 0
byte_at zero (b ∷ bs) = b
byte_at (suc n) (b ∷ bs) = byte_at n bs

unfoldable pub locator_of : (tag first second : ℕ) → Option Locator
locator_of tag first second =
    if tag == locator_tag_time
    then some (time_range first second)
    else if tag == locator_tag_line
    then some (line_range first second)
    else if tag == locator_tag_message
    then some (message_range first second)
    else none

unfoldable pub decode : Text → Option Segment
decode record_bytes =
    if ltb (length record_bytes) segment_record_bytes
    then none
    else if ltb (u64_at 8 record_bytes) (u64_at 0 record_bytes)
    then none
    else map
        (λ locator. record {
          byte_start = u64_at 0 record_bytes;
          byte_end = u64_at 8 record_bytes;
          locator = locator;
          depth = byte_at 17 record_bytes;
        })
        (locator_of (byte_at 16 record_bytes) (u64_at 24 record_bytes) (u64_at 32 record_bytes))

pub record SegmentWriter (W : Type 0) : Type 0 where
  pub writer : W
  pub count : ℕ

module _ {W : Type 0} (append : W → Text → Result IngestError W) where
  unfoldable pub push : SegmentWriter W → Segment → Result IngestError (SegmentWriter W)
  push w segment =
      if leb segment_count_max w.count
      then err (limit_exceeded segment_count (saturating_add w.count 1) segment_count_max)
      else (append w.writer (encode segment) >>= λ writer.
          ok (record { writer = writer; count = w.count + 1 }))

pub record SegmentReader (R : Type 0) : Type 0 where
  pub stream : BoundedStream R
  pub read_count : ℕ

module _ {R : Type 0} where
  unfoldable pub reader_new : BoundedStream R → SegmentReader R
  reader_new stream = record { stream = stream; read_count = 0 }

  abbrev pub decoded :
      (visible : ℕ)
      → Option Segment
      → SegmentReader R
      → Result IngestError (Option Segment) × SegmentReader R
  decoded visible none r = (err (limit_exceeded segment_record visible segment_record_bytes), r)
  decoded visible (some segment) r = (
    ok (some segment),
    record { stream = advance segment_record_bytes r.stream; read_count = r.read_count + 1 },
  )

  abbrev pub next_of :
      (read_count : ℕ)
      → Result IngestError Text × BoundedStream R
      → Result IngestError (Option Segment) × SegmentReader R
  next_of read_count (err e, s) = (err e, record { stream = s; read_count = read_count })
  next_of read_count (ok [], s) = (ok none, record { stream = s; read_count = read_count })
  next_of read_count (ok (b ∷ window), s) =
      decoded (length (b ∷ window)) (decode (b ∷ window))
        (record { stream = s; read_count = read_count })

  unfoldable pub next_segment :
      Reader R → SegmentReader R → Result IngestError (Option Segment) × SegmentReader R
  next_segment io r = next_of r.read_count (window io segment_record_bytes r.stream)
