-- ===== src/Ingest/Stream.antt =====
-- crates/pos-ingest/src/budget.rs: `BoundedStream`, the window over a reader that never holds more
-- than its budget. The reader is a parameter. The process-wide count of resident bytes, which reads
-- the capacity of a vector, is not modelled; the 64-bit counters do not wrap.
pub mod Windows
pub mod Advances
use projectos_core.Common.Slices.{drop}
use projectos_core.Common.Result.{ok, err, Result}
use projectos_core.Ingest.{io, buffer_budget_exceeded, IngestStage, IngestError}
use projectos_core.Common.{
  ◌∷◌, ◌||◌, ◌==◌, ◌-◌, ◌+◌, ◌++◌, ◌*◌, ◌&&◌, ℕ, zero, take, suc, some, not, none, min, max, ltb,
  length, if◌then◌else◌, false, [], Text, Option, Bool,
}

abbrev pub stage_read_bytes : ℕ
stage_read_bytes = 256 * 1024

-- `std::io::Read`: the bytes of one read with the reader after it, or an error.
pub record Reader (R : Type 0) : Type 0 where
  pub read : R → (len : ℕ) → Option (Text × R)

abbrev pub zeros : ℕ → Text
zeros zero = []
zeros (suc n) = 0 ∷ zeros n

pub record BoundedStream (R : Type 0) : Type 0 where
  pub reader : R
  pub stage : IngestStage
  pub buffer_bytes_max : ℕ
  pub buffer : Text
  pub start : ℕ
  pub read_total : ℕ
  pub consumed_total : ℕ
  pub peak_bytes : ℕ
  pub at_end : Bool

module _ {R : Type 0} where
  unfoldable pub stream_new : R → IngestStage → (buffer_bytes_max : ℕ) → BoundedStream R
  stream_new reader stage buffer_bytes_max = record {
    reader = reader;
    stage = stage;
    buffer_bytes_max = buffer_bytes_max;
    buffer = [];
    start = 0;
    read_total = 0;
    consumed_total = 0;
    peak_bytes = 0;
    at_end = false;
  }

  unfoldable pub available : BoundedStream R → ℕ
  available s = length s.buffer - s.start

  unfoldable pub compact : BoundedStream R → BoundedStream R
  compact s = if ltb 0 s.start then record s { buffer = drop s.start s.buffer; start = 0 } else s

  -- The rest of an iteration, after the read. A failed read leaves the buffer grown by zeros.
  unfoldable pub after_read :
      (read_len : ℕ)
      → BoundedStream R
      → Option (Text × R)
      → Result IngestError (Unit {0}) × BoundedStream R
  after_read read_len s none = (err io, record s { buffer = s.buffer ++ zeros read_len })
  after_read read_len s (some (bs, reader)) = (
    ok tt,
    record s {
      reader = reader;
      buffer = s.buffer ++ bs;
      at_end = s.at_end || (length bs == 0);
      read_total = s.read_total + length bs;
      peak_bytes = max s.peak_bytes (length s.buffer + length bs);
    },
  )

  abbrev pub go_on :
      Result IngestError (Unit {0}) × BoundedStream R
      → (BoundedStream R → Result IngestError (Unit {0}) × BoundedStream R)
      → Result IngestError (Unit {0}) × BoundedStream R
  go_on (ok _, s) k = k s
  go_on (err e, s) k = (err e, s)

  module _ (io : Reader R) where
    unfoldable pub read_more :
        (want : ℕ) → BoundedStream R → Result IngestError (Unit {0}) × BoundedStream R
    read_more want s =
        let read_len = min stage_read_bytes (s.buffer_bytes_max - length s.buffer) in
        if read_len == 0
        then (err (buffer_budget_exceeded s.stage want s.buffer_bytes_max), s)
        else after_read read_len s (io.read s.reader read_len)

    -- The loop of `fill`; the fuel bounds its reads.
    unfoldable pub fill_loop :
        (fuel want : ℕ) → BoundedStream R → Result IngestError (Unit {0}) × BoundedStream R
    fill_loop zero want s = (ok tt, s)
    fill_loop (suc fuel) want s =
        if ltb (available s) want && not s.at_end
        then go_on (read_more want (compact s)) (λ t. fill_loop fuel want t)
        else (ok tt, s)

    -- Every read but the last adds a byte, so `want` of them and one more are enough.
    unfoldable pub fill :
        (want : ℕ) → BoundedStream R → Result IngestError (Unit {0}) × BoundedStream R
    fill want s =
        if ltb s.buffer_bytes_max want
        then (err (buffer_budget_exceeded s.stage want s.buffer_bytes_max), s)
        else fill_loop (want + 1) want s

    abbrev pub seen :
        (want : ℕ)
        → Result IngestError (Unit {0}) × BoundedStream R
        → Result IngestError Text × BoundedStream R
    seen want (ok _, s) = (ok (take want (drop s.start s.buffer)), s)
    seen want (err e, s) = (err e, s)

    -- `window`: the bytes that it shows, with the stream after it.
    unfoldable pub window : (want : ℕ) → BoundedStream R → Result IngestError Text × BoundedStream R
    window want s = seen want (fill want s)

  abbrev pub cleared : BoundedStream R → BoundedStream R
  cleared s = if s.start == length s.buffer then record s { buffer = []; start = 0 } else s

  unfoldable pub advance : (count : ℕ) → BoundedStream R → BoundedStream R
  advance count s =
      let count = min count (available s) in
      cleared (record s { start = s.start + count; consumed_total = s.consumed_total + count })
