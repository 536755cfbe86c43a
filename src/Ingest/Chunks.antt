-- ===== src/Ingest/Chunks.antt =====
-- crates/pos-ingest/src/chunk.rs: the windows that pack segments, and the emitter that turns closed
-- windows into chunk facts, with `emit_chunks` of crates/pos-ingest/src/pipeline.rs. BLAKE3, the
-- reader of the text and the log's append are parameters; the device, the actor and the clock of the
-- appended event are left out.
pub mod Loop
pub mod Emit
pub mod Windowing
pub mod Spans
pub mod Refinement
use projectos_core.Ids.{OpaqueId}
use projectos_core.Ingest.Segments.{byte_len, Segment}
use projectos_core.Common.Result.{ok, err, Result}
use projectos_core.Ingest.{
  time_range, message_range, line_range, Locator, IngestError, EvidenceShape, ChunkKind,
}
use projectos_core.Common.{
  ◌||◌, ◌==◌, ◌/◌, ◌-◌, ◌+◌, ◌*◌, true, some, saturating_add_u32, none, ltb, leb, if◌then◌else◌,
  false, Text, Option, List, Bool, ℕ,
}

abbrev pub token_bytes_estimate : ℕ
token_bytes_estimate = 4

abbrev pub chunk_count_max : ℕ
chunk_count_max = 4000000

-- `EVENT_REFS_COUNT_MAX - 1`, of the event envelope.
abbrev pub chunk_batch_count_max : ℕ
chunk_batch_count_max = 63

pub data BoundaryRule : Type 0 where
  any_segment per_segment heading_section : BoundaryRule

pub record ChunkParams : Type 0 where
  pub kind : ChunkKind
  pub boundary : BoundaryRule
  pub target_tokens : ℕ
  pub tokens_max : ℕ

unfoldable pub bytes_target : ChunkParams → ℕ
bytes_target p = p.target_tokens * token_bytes_estimate

unfoldable pub bytes_max : ChunkParams → ℕ
bytes_max p = p.tokens_max * token_bytes_estimate

abbrev pub params : ChunkKind → BoundaryRule → ChunkParams
params kind boundary = record {
  kind = kind;
  boundary = boundary;
  target_tokens = 300;
  tokens_max = 400;
}

unfoldable pub chunk_params_for : EvidenceShape → ChunkParams
chunk_params_for EvidenceShape.transcript = params ChunkKind.transcript_turns any_segment
chunk_params_for EvidenceShape.thread = params ChunkKind.thread_messages any_segment
chunk_params_for EvidenceShape.message = params ChunkKind.message_body per_segment
chunk_params_for EvidenceShape.document = params ChunkKind.document_section heading_section
chunk_params_for EvidenceShape.table = params ChunkKind.table_rows any_segment

-- `ChunkStage::params_for`, by the stage's `target_tokens`.
unfoldable pub params_for : Option ℕ → EvidenceShape → ChunkParams
params_for none shape = chunk_params_for shape
params_for (some target_tokens) shape = record (chunk_params_for shape) {
  target_tokens = target_tokens;
  tokens_max = saturating_add_u32 target_tokens (target_tokens / 3);
}

pub record Window : Type 0 where
  pub byte_start : ℕ
  pub byte_end : ℕ
  pub locator : Option Locator
  pub depth : ℕ
  pub segment_count : ℕ

abbrev pub window_default : Window
window_default = record {
  byte_start = 0;
  byte_end = 0;
  locator = none;
  depth = 0;
  segment_count = 0;
}

unfoldable pub window_is_empty : Window → Bool
window_is_empty w = w.segment_count == 0

unfoldable pub window_byte_len : Window → ℕ
window_byte_len w = w.byte_end - w.byte_start

abbrev pub closes : BoundaryRule → (depth byte_len target : ℕ) → Bool
closes per_segment depth byte_len target = true
closes heading_section depth byte_len target = ltb 0 depth || leb target byte_len
closes any_segment depth byte_len target = leb target byte_len

unfoldable pub would_close : Window → (next : Segment) → ChunkParams → Bool
would_close w next p =
    if window_is_empty w
    then false
    else closes p.boundary next.depth (window_byte_len w) (bytes_target p)

unfoldable pub exceeds_max : Window → ChunkParams → Bool
exceeds_max w p = leb (bytes_max p) (window_byte_len w)

-- `extend`.
unfoldable pub extend_both : Locator → Locator → Locator
extend_both (time_range a b) (time_range c d) = time_range a d
extend_both (line_range a b) (line_range c d) = line_range a d
extend_both (message_range a b) (message_range c d) = message_range a d
extend_both current next = current

unfoldable pub extend : Option Locator → Locator → Locator
extend none next = next
extend (some current) next = extend_both current next

-- `Window::push`.
unfoldable pub window_push : Segment → Window → Window
window_push segment w =
    if window_is_empty w
    then record {
      byte_start = segment.byte_start;
      byte_end = segment.byte_end;
      locator = some segment.locator;
      depth = segment.depth;
      segment_count = w.segment_count + 1;
    }
    else record w {
      locator = some (extend w.locator segment.locator);
      byte_end = segment.byte_end;
      segment_count = w.segment_count + 1;
    }

abbrev pub is_per_segment : BoundaryRule → Bool
is_per_segment per_segment = true
is_per_segment other = false

-- Whether the loop of `chunk_evidence` closes the window after a segment has joined it.
unfoldable pub closes_after : Window → ChunkParams → Bool
closes_after w p = is_per_segment p.boundary || exceeds_max w p

-- `?` on a step that gives nothing, the state kept.
abbrev pub and_then {ℓ} :
    {S : Type ℓ}
    → Result IngestError (Unit {0}) × S
    → (S → Result IngestError (Unit {0}) × S)
    → Result IngestError (Unit {0}) × S
and_then (ok _, s) k = k s
and_then (err e, s) k = (err e, s)

-- The facts of `ChunkFact`, and the bodies of `EvidenceChunked` events.
pub record ChunkFact : Type 0 where
  pub chunk_id : OpaqueId
  pub ordinal : ℕ
  pub kind : ChunkKind
  pub byte_start : ℕ
  pub byte_end : ℕ
  pub locator : Locator
  pub content_hash : Text
  pub token_count_estimate : ℕ

pub record EvidenceChunked : Type 0 where
  pub evidence_id : OpaqueId
  pub pass : ℕ
  pub batch_index : ℕ
  pub chunks : List ChunkFact
