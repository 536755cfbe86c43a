-- ===== src/Ingest/Chunks/Loop.antt =====
-- The loop of `chunk_evidence` in crates/pos-ingest/src/chunk.rs, over any way to emit a window.
pub mod Refines
use projectos_core.Ingest.Segments.{next_segment, SegmentReader, Segment}
use projectos_core.Common.Result.{ok, err, Result}
use projectos_core.Ingest.Stream.{Reader}
use projectos_core.Ingest.{IngestError}
use projectos_core.Ingest.Chunks.{
  and_then, would_close, window_push, window_is_empty, window_default, params, closes_after, Window,
  ChunkParams,
}
use projectos_core.Common.{zero, suc, some, none, if◌then◌else◌, Option, ℕ}

module _ {R P : Type 0} (file : Reader R) (params : ChunkParams)
    (emit_window : Window → P → Result IngestError (Unit {0}) × P) where
  pub record Chunking : Type 0 where
    pub segments : SegmentReader R
    pub window : Window
    pub progress : P

  -- `emit`: the window is taken, and the default one stands in its place.
  unfoldable pub emit : Chunking → Result IngestError (Unit {0}) × Chunking
  emit c =
      if window_is_empty c.window
      then (ok tt, c)
      else let r = emit_window c.window c.progress in
        (r.0, record c { window = window_default; progress = r.1 })

  unfoldable pub close_before : Segment → Chunking → Result IngestError (Unit {0}) × Chunking
  close_before segment c = if would_close c.window segment params then emit c else (ok tt, c)

  unfoldable pub close_after : Chunking → Result IngestError (Unit {0}) × Chunking
  close_after c = if closes_after c.window params then emit c else (ok tt, c)

  unfoldable pub join : Segment → Chunking → Result IngestError (Unit {0}) × Chunking
  join segment c =
      and_then (close_before segment c)
        (λ c. close_after (record c { window = window_push segment c.window }))

  abbrev pub after_segment :
      (Chunking → Result IngestError (Unit {0}) × Chunking)
      → Result IngestError (Option Segment) × SegmentReader R
      → Chunking
      → Result IngestError (Unit {0}) × Chunking
  after_segment next (err e, r) c = (err e, record c { segments = r })
  after_segment next (ok none, r) c = (ok tt, record c { segments = r })
  after_segment next (ok (some segment), r) c =
      and_then (join segment (record c { segments = r })) next

  -- The fuel bounds the segments that are read.
  unfoldable pub chunk_loop : (fuel : ℕ) → Chunking → Result IngestError (Unit {0}) × Chunking
  chunk_loop zero c = (ok tt, c)
  chunk_loop (suc fuel) c = after_segment (λ c. chunk_loop fuel c) (next_segment file c.segments) c

  -- The loop and the last emit.
  unfoldable pub chunk_all : (fuel : ℕ) → Chunking → Result IngestError (Unit {0}) × Chunking
  chunk_all fuel c = and_then (chunk_loop fuel c) emit
