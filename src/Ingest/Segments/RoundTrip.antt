-- ===== src/Ingest/Segments/RoundTrip.antt =====
-- A segment of crates/pos-ingest/src/segment.rs survives its record.
use native.Mathlib.Nat.{pow-suc}
use projectos_core.Ingest.Segments.{
  u64_at, locator_tag, locator_of, le_bytes, from_le_bytes, encode, decode, Segment,
}
use projectos_core.Ingest.{time_range, message_range, locator_bounds, line_range, Locator}
use projectos_core.Common.{
  ◌≤◌, ◌≡◌, ◌^◌, ◌<◌, ◌/◌, zero, suc, some, refl, ltb, length, false, arith, ℕ,
}

-- A segment whose range is in order and whose numbers fit their fields.
pub record IsSegment (s : Segment) : Type 0 where
  pub in_order : s.byte_start ≤ s.byte_end
  pub start_fits : s.byte_start < 2 ^ 64
  pub end_fits : s.byte_end < 2 ^ 64
  pub first_fits : (locator_bounds s.locator).0 < 2 ^ 64
  pub second_fits : (locator_bounds s.locator).1 < 2 ^ 64

pub from_le_bytes-le_bytes :
    (width value : ℕ) → value < 256 ^ width → from_le_bytes (le_bytes width value) ≡ value
from_le_bytes-le_bytes zero value h = omega (arith, h)
from_le_bytes-le_bytes (suc width) value h =
    let rest = from_le_bytes-le_bytes width (value / 256) (omega (arith, h, pow-suc 256 width)) in
    omega (arith, rest)

pub length-encode : (s : Segment) → length (encode s) ≡ 40
unfolding encode
length-encode s = refl

locator_of-tag :
    (l : Locator) → locator_of (locator_tag l) (locator_bounds l).0 (locator_bounds l).1 ≡ some l
unfolding locator_of locator_tag locator_bounds
locator_of-tag (time_range a b) = refl
locator_of-tag (line_range a b) = refl
locator_of-tag (message_range a b) = refl

-- A segment in order whose numbers fit their fields is what its record decodes to.
pub decode-encode : (s : Segment) → IsSegment s → decode (encode s) ≡ some s
unfolding encode decode
decode-encode s h =
    let start : u64_at 0 (encode s) ≡ s.byte_start =
      from_le_bytes-le_bytes 8 s.byte_start h.start_fits in
    let end : u64_at 8 (encode s) ≡ s.byte_end = from_le_bytes-le_bytes 8 s.byte_end h.end_fits in
    let first : u64_at 24 (encode s) ≡ (locator_bounds s.locator).0 =
      from_le_bytes-le_bytes 8 (locator_bounds s.locator).0 h.first_fits in
    let second : u64_at 32 (encode s) ≡ (locator_bounds s.locator).1 =
      from_le_bytes-le_bytes 8 (locator_bounds s.locator).1 h.second_fits in
    let ordered : ltb s.byte_end s.byte_start ≡ false = ground (arith, h.in_order) in
    rw (start, end, first, second, ordered, locator_of-tag s.locator) refl
