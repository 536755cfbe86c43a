-- ===== src/Ingest.antt =====
-- crates/pos-ingest: the stages' bounded streams, the segment index, the chunker and the content
-- identities, with the vocabulary of crates/pos-domain/src/ingest.rs that they use.
pub mod Identity
pub mod Stream
pub mod Segments
pub mod Chunks
pub mod Captions
use projectos_core.Common.{ℕ, Option, none, some, Text, bytes}

pub data IngestStage : Type 0 where
  raw normalize transcribe chunk embed extract index : IngestStage

pub data ChunkKind : Type 0 where
  transcript_turns thread_messages message_body document_section table_rows : ChunkKind

unfoldable pub kind_as_str : ChunkKind → Text
kind_as_str transcript_turns = bytes "transcript_turns"
kind_as_str thread_messages = bytes "thread_messages"
kind_as_str message_body = bytes "message_body"
kind_as_str document_section = bytes "document_section"
kind_as_str table_rows = bytes "table_rows"

pub data EvidenceShape : Type 0 where
  transcript thread message document table : EvidenceShape

pub data Locator : Type 0 where
  time_range : (start_ms end_ms : ℕ) → Locator
  line_range : (start end : ℕ) → Locator
  message_range : (start end : ℕ) → Locator

unfoldable pub locator_bounds : Locator → ℕ × ℕ
locator_bounds (time_range a b) = (a, b)
locator_bounds (line_range a b) = (a, b)
locator_bounds (message_range a b) = (a, b)

-- A limit that `LimitExceeded` names.
pub data Limit : Type 0 where
  segment_record segment_count chunk_count chunk_batch span_beyond_text caption_cues : Limit

-- The errors of `IngestError` that the modelled code returns.
pub data IngestError : Type 0 where
  buffer_budget_exceeded : (stage : IngestStage) (wanted_bytes budget_bytes : ℕ) → IngestError
  io : IngestError
  limit_exceeded : Limit → (value limit_value : ℕ) → IngestError
