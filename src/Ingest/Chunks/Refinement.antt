-- ===== src/Ingest/Chunks/Refinement.antt =====
-- `chunk_evidence` of crates/pos-ingest/src/chunk.rs, from the two blobs to the facts in the log.
use projectos_core.Ingest.Chunks.Spans.{Spans}
use projectos_core.Ingest.Segments.Reading.{Shows}
use projectos_core.Ingest.Segments.{SegmentReader, Segment}
use projectos_core.Common.Result.{Result}
use projectos_core.Ingest.Stream.Windows.{view, Fails, Reads, IsBounded}
use projectos_core.Ingest.{IngestError}
use projectos_core.Ingest.Chunks.Emit.Whole.{all_facts}
use projectos_core.Ingest.Chunks.Emit.{emitter_new, begun, emit_window, Emitter}
use projectos_core.Ingest.Chunks.Loop.{chunk_all}
use projectos_core.Ingest.Chunks.{
  window_default, bytes_max, EvidenceChunked, ChunkParams, ChunkFact,
}
use projectos_core.Ingest.Stream.{Reader, BoundedStream}
use projectos_core.Ingest.Chunks.Loop.Refines.{windows_from}
use projectos_core.Ids.{OpaqueId}
use projectos_core.Ingest.Chunks.Emit.Facts.{facts, IsFailure, IsEmitter, Commits}
use projectos_core.Common.{◌⊎◌, ◌≤◌, ◌≡◌, ◌<◌, ◌++◌, length, Text, List, ℕ}

module _ {S R L : Type 0} (segment_file : Reader S) (text_file : Reader R) (blake3 : Text → Text)
    (append : L → EvidenceChunked → Result IngestError (Unit {0}) × L) (evidence_id : OpaqueId)
    (pass : ℕ) (params : ChunkParams) (index : S → Text) (index_reads : Reads segment_file index)
    (content : R → Text) (text_reads : Reads text_file content) (committed : L → List ChunkFact)
    (commits : Commits append committed) (text : Text) where
  -- The facts of the windows of a sequence of segments.
  abbrev pub chunk_facts : List Segment → List ChunkFact
  chunk_facts segs =
      all_facts text_file blake3 append evidence_id pass params committed commits content text_reads
        text 0 (windows_from params segs window_default)

  -- The blobs, before the stage: an index of `segs`, which lie in the text one after another,
  -- and the text's stream at its start, with room for a piece.
  pub record IsChunkable (segs : List Segment) (segments : SegmentReader S)
      (stream : BoundedStream R) : Type 0 where
    pub indexed : Shows segment_file index index_reads segments segs
    pub in_text : Spans (length text) 0 segs
    pub whole_text : view content stream ≡ text
    pub stream_valid : IsBounded content stream
    pub room_for_piece : bytes_max params ≤ stream.buffer_bytes_max
    pub some_ceiling : 0 < bytes_max params

  -- The segments' stream, where the loop of the stage stopped.
  abbrev pub segments_after : (fuel : ℕ) → SegmentReader S → BoundedStream R → L → BoundedStream S
  segments_after fuel segments stream log =
      let c =
        (chunk_all segment_file params (emit_window text_file blake3 append evidence_id pass params)
          fuel
          (begun segment_file text_file blake3 append evidence_id pass params segments
            (emitter_new stream log))).1 in
      c.segments.stream

  -- Why the stage failed: the emitter has, or the file of the segments refuses a read.
  abbrev pub IsBroken : BoundedStream S → IngestError → Emitter R L → Type 0
  IsBroken s why t =
      IsFailure text_file append t why ⊎ ((why ≡ IngestError.io) × Fails segment_file s)

  -- Every window is emitted.
  record IsComplete (segs : List Segment) (log : L) (t : Emitter R L) : Type 0 where
    pub every_fact : facts committed t ≡ committed log ++ chunk_facts segs
    pub still_valid : IsEmitter committed t
    pub counted_facts : t.total ≡ length (chunk_facts segs)
