-- ===== src/Tests/IngestRuns.antt =====
-- Ingest on a small item: a text of two segments, their index, readers over memory and a log that is
-- the list of its events.
use projectos_core.Ingest.Chunks.Spans.{Spans}
use projectos_core.Ingest.Captions.Laid.{normalize_captions-IsTranscript, empty, IsTranscript}
use projectos_core.Ingest.Captions.{
  write_cue, spoken, parse_lines, parse_block, order, normalize_captions, full_lines, cue_of,
  TextOps, Captions,
}
use projectos_core.Ingest.Chunks.Refinement.{chunk_facts}
use projectos_core.Ingest.Chunks.Loop.Refines.{emit_all, Agrees}
use projectos_core.Ingest.Chunks.Loop.{Chunking, chunk_all}
use projectos_core.Common.Splits.{pair_inj}
use projectos_core.Ingest.Identity.Words.{has_words, words, update-words, join_words}
use projectos_core.Ingest.Identity.{update, hasher_new, hasher_is_empty, chunk_content_domain}
use projectos_core.Common.Slices.{take-drop, drop, append_nil, append_assoc}
use projectos_core.Ingest.Segments.Reading.{
  push-IsIndex, IsIndex, next_segment-Shows, encode_all, Shows,
}
use projectos_core.Ingest.Segments.{
  push, SegmentWriter, reader_new, next_segment, encode, decode, SegmentReader, Segment,
}
use projectos_core.Common.Result.{ok_inj, ok, err, Result}
use projectos_core.Ingest.Segments.RoundTrip.{decode-encode, IsSegment}
use projectos_core.Ingest.Stream.Windows.{window_lem, Fails, Reads, IsWindow, IsBounded}
use projectos_core.Ingest.{time_range, table, locator_bounds, line_range, chunk, IngestError}
use projectos_core.Ingest.Chunks.Windowing.{chunk_all-Covers, Covers}
use projectos_core.Ingest.Chunks.Emit.Facts.{Commits}
use projectos_core.Ingest.Chunks.{
  Window, window_default, chunk_params_for, EvidenceChunked, ChunkParams, ChunkFact,
}
use projectos_core.Ingest.Stream.{window, stream_new, Reader, BoundedStream}
use projectos_core.Common.{
  ◌⊎◌, ◌≤◌, ◌≡◌, ◌∷◌, ◌∙◌, ◌<◌, ◌++◌, zero, take, sym, suc, subst, some, refl, not, length-take-le,
  length, bytes, arith, ap, [], Text, List, ℕ,
}

-- A reader over bytes in memory.
abbrev memory_reader : Reader Text
memory_reader = record { read = λ r len. some (take len r, drop len r) }

memory_end : (r : Text) (len : ℕ) → 0 < len → take len r ≡ [] → drop len r ≡ []
memory_end r zero h q = absurd (omega (arith, h))
memory_end [] (suc len) h q = refl
memory_end (c ∷ r) (suc len) h q = absurd cc

memory_reads : Reads memory_reader (λ t. t)
memory_reads = record {
  next_bytes = λ r len bs r' q.
      let (front, back) = pair_inj (take len r) (drop len r) bs r' q in
      (
        sym (take-drop len r) ∙ ap (λ k. k ++ drop len r) front ∙ ap (λ k. bs ++ k) back,
        subst (λ k. length k ≤ len) front (length-take-le len r),
      );
  end_only = λ r len r' h q.
      let (front, back) = pair_inj (take len r) (drop len r) [] r' q in
      sym back ∙ memory_end r len h front;
}

abbrev chunks_of : List EvidenceChunked → List ChunkFact
chunks_of [] = []
chunks_of (e ∷ es) = e.chunks ++ chunks_of es

abbrev append_to :
    List EvidenceChunked → EvidenceChunked → Result IngestError (Unit {0}) × List EvidenceChunked
append_to log body = (ok tt, log ++ (body ∷ []))

chunks_of-append :
    (log : List EvidenceChunked) (body : EvidenceChunked)
    → chunks_of (log ++ (body ∷ [])) ≡ chunks_of log ++ body.chunks
chunks_of-append [] body = append_nil body.chunks
chunks_of-append (e ∷ es) body =
    ap (λ k. e.chunks ++ k) (chunks_of-append es body)
    ∙ sym (append_assoc e.chunks (chunks_of es) body.chunks)

append_commits : Commits append_to chunks_of
append_commits log body q = chunks_of-append log body

abbrev example_text : Text
example_text = bytes "one two\nthree\n"

abbrev first_segment : Segment
first_segment = record { byte_start = 0; byte_end = 8; locator = line_range 1 1; depth = 0 }

abbrev second_segment : Segment
second_segment = record { byte_start = 8; byte_end = 14; locator = line_range 2 2; depth = 0 }

abbrev example_segments : List Segment
example_segments = first_segment ∷ second_segment ∷ []

abbrev text_stream : BoundedStream Text
text_stream = stream_new example_text chunk 4096

abbrev index_reader : SegmentReader Text
index_reader = reader_new (stream_new (encode_all example_segments) chunk 4096)

abbrev table_params : ChunkParams
table_params = chunk_params_for table

text_stream-IsBounded : IsBounded (λ t. t) text_stream
unfolding stream_new
text_stream-IsBounded = record {
  start_inside = omega arith;
  within_budget = omega arith;
  ended = λ q. absurd cc;
}

first_segment-IsSegment : IsSegment first_segment
unfolding locator_bounds
first_segment-IsSegment = record {
  in_order = omega arith;
  start_fits = omega arith;
  end_fits = omega arith;
  first_fits = omega arith;
  second_fits = omega arith;
}

second_segment-IsSegment : IsSegment second_segment
unfolding locator_bounds
second_segment-IsSegment = record {
  in_order = omega arith;
  start_fits = omega arith;
  end_fits = omega arith;
  first_fits = omega arith;
  second_fits = omega arith;
}

index_reader-Shows : Shows memory_reader (λ t. t) memory_reads index_reader example_segments
unfolding reader_new stream_new
index_reader-Shows = record {
  remaining = refl;
  all_fit = (first_segment-IsSegment, (second_segment-IsSegment, tt));
  inside = record {
    start_inside = omega arith;
    within_budget = omega arith;
    ended = λ q. absurd cc;
  };
  holds_a_record = omega arith;
}

decode-encode_example : decode (encode second_segment) ≡ some second_segment
decode-encode_example = decode-encode second_segment second_segment-IsSegment

window_lem_example :
    (((window memory_reader 5 text_stream).0 ≡ err IngestError.io)
      × Fails memory_reader (window memory_reader 5 text_stream).1)
    ⊎ IsWindow memory_reader
        (λ t. t)
        memory_reads
        5
        text_stream
        (window memory_reader 5 text_stream)
unfolding stream_new
window_lem_example =
    window_lem memory_reader (λ t. t) memory_reads 5 text_stream text_stream-IsBounded (omega arith)

next_segment-Shows_example :
    (((next_segment memory_reader index_reader).0 ≡ err IngestError.io)
      × Fails memory_reader (next_segment memory_reader index_reader).1.stream)
    ⊎ (((next_segment memory_reader index_reader).0 ≡ ok (some first_segment))
        × Shows memory_reader
            (λ t. t)
            memory_reads
            (next_segment memory_reader index_reader).1
            (second_segment ∷ []))
next_segment-Shows_example =
    next_segment-Shows memory_reader (λ t. t) memory_reads example_segments index_reader
      index_reader-Shows

-- Emitting a window is noting it down.
abbrev note_window : Window → List Window → Result IngestError (Unit {0}) × List Window
note_window w noted = (ok tt, noted ++ (w ∷ []))

abbrev noting : Chunking memory_reader table_params note_window
noting = record { segments = index_reader; window = window_default; progress = [] }

chunk_all-Covers_example :
    (ws : List Window) × Covers table_params example_segments ws
    × Agrees memory_reader table_params note_window
        (chunk_all memory_reader table_params note_window 3 noting)
        (emit_all note_window ws [])
chunk_all-Covers_example =
    chunk_all-Covers table_params memory_reader (λ t. t) memory_reads note_window example_segments 3
      noting index_reader-Shows refl (omega arith)

update-words_example :
    let h = update (bytes " a  b ") hasher_new in
    (h.fed ≡ chunk_content_domain ++ join_words (words (bytes " a  b ")))
    × (h.content_byte_count ≡ length (join_words (words (bytes " a  b "))))
    × (hasher_is_empty h ≡ not (has_words (words (bytes " a  b "))))
update-words_example = update-words (bytes " a  b ")

abbrev appended_to : Text → Text → Result IngestError Text
appended_to w t = ok (w ++ t)

abbrev one_segment : SegmentWriter Text
one_segment = record { writer = encode first_segment; count = 1 }

one_segment-IsIndex : IsIndex appended_to (λ w. w) one_segment (first_segment ∷ [])
one_segment-IsIndex = record {
  blob = sym (append_nil (encode first_segment));
  counted = refl;
  count_bound = omega arith;
}

push-IsIndex_example :
    IsIndex appended_to
      (λ w. w)
      (record { writer = encode first_segment ++ encode second_segment; count = 2 })
      example_segments
unfolding push
push-IsIndex_example =
    push-IsIndex appended_to (λ w. w) (λ w t w' q. sym (ok_inj q)) one_segment (first_segment ∷ [])
      second_segment (record { writer = encode first_segment ++ encode second_segment; count = 2 })
      one_segment-IsIndex refl

abbrev example_facts : List ChunkFact
example_facts =
    chunk_facts memory_reader memory_reader (λ t. t) append_to 7 1 table_params (λ t. t)
      memory_reads (λ t. t) memory_reads chunks_of append_commits example_text example_segments

-- Operations on ASCII texts, and a reader of timestamps that takes the number of their characters.
abbrev plain_ops : TextOps
plain_ops = record {
  trim = λ t. t;
  lines = λ t. t ∷ bytes "hello" ∷ [];
  split_whitespace = λ t. t ∷ [];
}

abbrev empty_captions : Captions Text
empty_captions = record {
  text = [];
  segments = record { writer = []; count = 0 };
  byte_offset = 0;
  cue_count = 0;
  committed_to_ms = 0;
}

abbrev one_cue : Captions Text
one_cue = record {
  text = bytes "hello\n";
  segments = record {
    writer = encode (record { byte_start = 0; byte_end = 5; locator = time_range 1 2; depth = 0 });
    count = 1;
  };
  byte_offset = 6;
  cue_count = 1;
  committed_to_ms = 2;
}

one_block :
    normalize_captions appended_to plain_ops
      (λ t. some (length t))
      (bytes "1-->22" ∷ [])
      empty_captions
    ≡ ok one_cue
unfolding normalize_captions parse_block full_lines parse_lines spoken cue_of order write_cue push
one_block = refl

empty-IsTranscript :
    IsTranscript appended_to (λ w. w) (λ w t w' q. sym (ok_inj q)) [] empty_captions
empty-IsTranscript = record {
  lies = empty;
  indexed = record { blob = refl; counted = refl; count_bound = omega arith };
  offset_is = refl;
}

normalize_captions-IsTranscript_example :
    (new : List Segment) × IsTranscript appended_to
      (λ w. w)
      (λ w t w' q. sym (ok_inj q))
      new
      one_cue
    × Spans 6 0 new
normalize_captions-IsTranscript_example =
    normalize_captions-IsTranscript appended_to (λ w. w) (λ w t w' q. sym (ok_inj q)) plain_ops
      (λ t. some (length t)) (bytes "1-->22" ∷ []) empty_captions one_cue [] empty-IsTranscript
      one_block (omega arith)
