-- ===== src/Ingest/Chunks/Emit.antt =====
-- `ChunkEmitter` of crates/pos-ingest/src/chunk.rs, and `emit_chunks` of pipeline.rs: the bytes of a
-- closed window are read, hashed and committed as facts, in batches.
pub mod Facts
pub mod Pieces
pub mod Whole
use projectos_core.Ingest.Segments.{SegmentReader}
use projectos_core.Common.Result.{ok, err, Result}
use projectos_core.Ingest.{
  span_beyond_text, line_range, limit_exceeded, chunk_count, chunk_batch, Locator, IngestError,
}
use projectos_core.Ingest.Identity.{
  update, hasher_new, hasher_is_empty, derive_chunk_id, ContentHasher,
}
use projectos_core.Ingest.Chunks.Loop.{chunk_all, Chunking}
use projectos_core.Ingest.Chunks.{
  window_default, window_byte_len, token_bytes_estimate, params, chunk_count_max,
  chunk_batch_count_max, bytes_max, and_then, Window, EvidenceChunked, ChunkParams, ChunkFact,
}
use projectos_core.Ingest.Stream.{window, advance, Reader, BoundedStream}
use projectos_core.Ids.{OpaqueId}
use projectos_core.Common.{
  ◌∷◌, ◌==◌, ◌/◌, ◌-◌, ◌+◌, ◌++◌, zero, u32_max, take, suc, some, saturating_add_u32,
  saturating_add, none, min, ltb, length, leb, if◌then◌else◌, [], Text, Option, List, ℕ,
}

-- The emitter with the text stream and the log that it works on.
pub record Emitter (R L : Type 0) : Type 0 where
  pub text : BoundedStream R
  pub log : L
  pub batch : List ChunkFact
  pub batch_index : ℕ
  pub ordinal : ℕ
  pub total : ℕ
  pub text_offset : ℕ

abbrev pub emitter_new : {R L : Type 0} → BoundedStream R → L → Emitter R L
emitter_new text log = record {
  text = text;
  log = log;
  batch = [];
  batch_index = 0;
  ordinal = 0;
  total = 0;
  text_offset = 0;
}

abbrev pub locator_or : Option Locator → Locator
locator_or none = line_range 1 1
locator_or (some locator) = locator

-- The token estimate of a content: a quarter of its bytes, rounded up.
unfoldable pub token_estimate : ContentHasher → ℕ
token_estimate h = min ((h.content_byte_count + 3) / token_bytes_estimate) u32_max

module _ {R L : Type 0} (file : Reader R) (blake3 : Text → Text)
    (append : L → EvidenceChunked → Result IngestError (Unit {0}) × L) (evidence_id : OpaqueId)
    (pass : ℕ) (params : ChunkParams) where
  -- `emit_chunks`.
  unfoldable pub emit_chunks :
      (batch_index : ℕ) → List ChunkFact → Emitter R L → Result IngestError (Unit {0}) × Emitter R L
  emit_chunks batch_index chunks e =
      if ltb chunk_batch_count_max (length chunks)
      then (err (limit_exceeded chunk_batch (length chunks) chunk_batch_count_max), e)
      else if length chunks == 0
      then (ok tt, e)
      else let r = append e.log (record {
        evidence_id = evidence_id;
        pass = pass;
        batch_index = batch_index;
        chunks = chunks;
      }) in
        (r.0, record e { log = r.1 })

  unfoldable pub flush : Emitter R L → Result IngestError (Unit {0}) × Emitter R L
  flush e =
      if length e.batch == 0
      then (ok tt, e)
      else and_then (emit_chunks e.batch_index e.batch (record e { batch = [] }))
          (λ e. (ok tt, record e { batch_index = saturating_add_u32 e.batch_index 1 }))

  unfoldable pub fact_of : Window → (ordinal byte_start byte_end : ℕ) → ContentHasher → ChunkFact
  fact_of window ordinal byte_start byte_end hasher =
      let content_hash = blake3 hasher.fed in
      record {
        chunk_id = derive_chunk_id blake3 evidence_id params.kind byte_start content_hash;
        ordinal = ordinal;
        kind = params.kind;
        byte_start = byte_start;
        byte_end = byte_end;
        locator = locator_or window.locator;
        content_hash = content_hash;
        token_count_estimate = token_estimate hasher;
      }

  abbrev pub with_fact : ChunkFact → Emitter R L → Emitter R L
  with_fact fact e = record e {
    batch = e.batch ++ (fact ∷ []);
    ordinal = saturating_add_u32 e.ordinal 1;
    total = e.total + 1;
  }

  abbrev pub flush_full : Emitter R L → Result IngestError (Unit {0}) × Emitter R L
  flush_full e = if leb chunk_batch_count_max (length e.batch) then flush e else (ok tt, e)

  unfoldable pub push_fact :
      Window
      → (byte_start byte_end : ℕ) → ContentHasher
      → Emitter R L
      → Result IngestError (Unit {0}) × Emitter R L
  push_fact window byte_start byte_end hasher e =
      if hasher_is_empty hasher
      then (ok tt, e)
      else if leb chunk_count_max e.total
      then (err (limit_exceeded chunk_count (saturating_add e.total 1) chunk_count_max), e)
      else flush_full (with_fact (fact_of window e.ordinal byte_start byte_end hasher) e)

  -- `absorb`: the bytes that the hasher is fed, with the stream advanced over them.
  abbrev pub absorbed :
      (want : ℕ)
      → Result IngestError Text × BoundedStream R
      → Emitter R L
      → Result IngestError Text × Emitter R L
  absorbed want (err why, s) e = (err why, record e { text = s })
  absorbed want (ok bs, s) e = (
    ok (take want bs),
    record e {
      text = advance (min (length bs) want) s;
      text_offset = e.text_offset + min (length bs) want;
    },
  )

  unfoldable pub absorb : (want : ℕ) → Emitter R L → Result IngestError Text × Emitter R L
  absorb want e = absorbed want (window file want e.text) e

  abbrev pub piece_of :
      (ContentHasher → ℕ → Emitter R L → Result IngestError (Unit {0}) × Emitter R L)
      → Window
      → Result IngestError Text × Emitter R L
      → Result IngestError (Unit {0}) × Emitter R L
  piece_of next window (err why, e) = (err why, e)
  piece_of next window (ok [], e) =
      (err (limit_exceeded span_beyond_text window.byte_end e.text_offset), e)
  piece_of next window (ok (b ∷ bs), e) = next (update (b ∷ bs) hasher_new) (length (b ∷ bs)) e

  -- The loop of `emit`; each piece takes a byte at least, so the window's length is enough fuel.
  unfoldable pub pieces :
      (fuel : ℕ)
      → Window
      → (split_start remaining : ℕ) → Emitter R L
      → Result IngestError (Unit {0}) × Emitter R L
  pieces zero window split_start remaining e = (ok tt, e)
  pieces (suc fuel) window split_start remaining e =
      if remaining == 0
      then (ok tt, e)
      else piece_of
          (λ hasher consumed e.
            and_then (push_fact window split_start (split_start + consumed) hasher e)
              (pieces fuel window (split_start + consumed) (remaining - consumed)))
          window (absorb (min remaining (bytes_max params)) e)

  abbrev pub skipped :
      (Emitter R L → Result IngestError (Unit {0}) × Emitter R L)
      → Result IngestError Text × BoundedStream R
      → Emitter R L
      → Result IngestError (Unit {0}) × Emitter R L
  skipped next (err why, s) e = (err why, record e { text = s })
  skipped next (ok [], s) e = (ok tt, record e { text = s })
  skipped next (ok (b ∷ bs), s) e = next (record e {
    text = advance (length (b ∷ bs)) s;
    text_offset = e.text_offset + length (b ∷ bs);
  })

  -- `skip_to`; each window that is skipped has a byte at least, so the gap is enough fuel.
  unfoldable pub skip_to :
      (fuel offset : ℕ) → Emitter R L → Result IngestError (Unit {0}) × Emitter R L
  skip_to zero offset e = (ok tt, e)
  skip_to (suc fuel) offset e =
      if ltb e.text_offset offset
      then skipped (skip_to fuel offset)
          (window file (min (offset - e.text_offset) (bytes_max params)) e.text) e
      else (ok tt, e)

  -- `emit`, of a window that is not empty.
  unfoldable pub emit_window : Window → Emitter R L → Result IngestError (Unit {0}) × Emitter R L
  emit_window window e =
      and_then (skip_to (window.byte_start - e.text_offset) window.byte_start e)
        (pieces (window_byte_len window) window window.byte_start (window_byte_len window))

  -- `finish`, with the emitter after it.
  abbrev pub finished :
      Result IngestError (Unit {0}) × Emitter R L → Result IngestError ℕ × Emitter R L
  finished (ok _, e) = (ok e.total, e)
  finished (err why, e) = (err why, e)

  unfoldable pub finish : Emitter R L → Result IngestError ℕ × Emitter R L
  finish e = finished (flush e)

module _ {S R L : Type 0} (segment_file : Reader S) (text_file : Reader R) (blake3 : Text → Text)
    (append : L → EvidenceChunked → Result IngestError (Unit {0}) × L) (evidence_id : OpaqueId)
    (pass : ℕ) (params : ChunkParams) where
  abbrev pub begun :
      SegmentReader S
      → Emitter R L
      → Chunking segment_file params (emit_window text_file blake3 append evidence_id pass params)
  begun segments e = record { segments = segments; window = window_default; progress = e }

  abbrev pub closed_with :
      Result IngestError (Unit {0})
        × Chunking segment_file params (emit_window text_file blake3 append evidence_id pass params)
      → Result IngestError ℕ × Emitter R L
  closed_with (err why, c) = (err why, c.progress)
  closed_with (ok _, c) = finish text_file blake3 append evidence_id pass params c.progress

  -- `chunk_evidence`: the count of chunks, with the emitter after it.
  unfoldable pub chunk_evidence :
      (fuel : ℕ) → SegmentReader S → BoundedStream R → L → Result IngestError ℕ × Emitter R L
  chunk_evidence fuel segments text log = closed_with (
      chunk_all segment_file params (emit_window text_file blake3 append evidence_id pass params)
        fuel (begun segments (emitter_new text log)))
