-- ===== src/Ingest/Chunks/Emit/Facts.antt =====
-- The batches of the emitter of crates/pos-ingest/src/chunk.rs: a fact that is pushed is committed
-- once, in order, however the batches fall.
use projectos_core.Ingest.Identity.{hasher_is_empty, ContentHasher}
use projectos_core.Common.Slices.{nil_length, append_assoc, append_nil}
use projectos_core.Common.Result.{Result-cases, ok, err, Result}
use projectos_core.Ingest.Stream.{Reader}
use projectos_core.Ingest.Stream.Windows.{Fails}
use projectos_core.Ingest.Chunks.Emit.{
  finish, with_fact, push_fact, flush_full, fact_of, flush, emit_chunks, Emitter,
}
use projectos_core.Ingest.Chunks.{
  Window, and_then, chunk_count_max, chunk_batch_count_max, EvidenceChunked, ChunkParams, ChunkFact,
}
use projectos_core.Ids.{OpaqueId}
use projectos_core.Ingest.{limit_exceeded, chunk_count, IngestError, io}
use projectos_core.Common.{
  true, ap, ◌∷◌, sym, subst, length-append, leb, if◌then◌else◌, Bool-cases, ◌∙◌, ◌==◌,
  saturating_add_u32, refl, ltb, inr, inl, false, arith, [], ◌⊎◌, ◌≤◌, ◌≡◌, ◌<◌, ◌+◌, ◌++◌, length,
  Text, List, ℕ,
}

-- What made an emitter fail, seen from where it stopped: the text's file refuses a read, the log has
-- refused the last append, or there are too many chunks.
pub data IsFailure {R L : Type 0} (file : Reader R)
    (append : L → EvidenceChunked → Result IngestError (Unit {0}) × L) (e : Emitter R L)
    : IngestError → Type 0 where
  text_failed : Fails file e.text → IsFailure file append e io
  log_refused :
      {why : IngestError} (log : L) (body : EvidenceChunked)
      → append log body ≡ (err why, e.log)
      → IsFailure file append e why
  too_many_chunks :
      IsFailure file append e (limit_exceeded chunk_count (chunk_count_max + 1) chunk_count_max)

-- The result of a refused append, with the log after it.
refused {ℓ} :
    {L : Type ℓ} {why : IngestError} (r : Result IngestError (Unit {0}) × L)
    → r.0 ≡ err why
    → r ≡ (err why, r.1)
refused (a, l) q = ap (λ k. (k, l)) q

-- A log that has the chunks of an event when its append succeeds.
abbrev pub Commits :
    {L : Type 0}
    → (L → EvidenceChunked → Result IngestError (Unit {0}) × L)
    → (L → List ChunkFact)
    → Type 0
Commits {L} append committed =
    (log : L) (body : EvidenceChunked)
    → (append log body).0 ≡ ok tt
    → committed (append log body).1 ≡ committed log ++ body.chunks

module _ {R L : Type 0} (committed : L → List ChunkFact) where
  -- The facts that the log has, and those that wait in the batch.
  abbrev pub facts : Emitter R L → List ChunkFact
  facts e = committed e.log ++ e.batch

  -- The batch has room, and the next ordinal is the count so far.
  pub record IsEmitter (e : Emitter R L) : Type 0 where
    pub batch_room : length e.batch < chunk_batch_count_max
    pub counted : e.ordinal ≡ e.total
    pub below_max : e.total ≤ chunk_count_max

  -- The emitter after some facts more.
  pub record IsAfter (new : List ChunkFact) (e t : Emitter R L) : Type 0 where
    pub added : facts t ≡ facts e ++ new
    pub valid : IsEmitter t
    pub ordinal_next : t.ordinal ≡ e.ordinal + length new
    pub same_text : t.text ≡ e.text
    pub same_offset : t.text_offset ≡ e.text_offset

module _ {R L : Type 0} (file : Reader R) (blake3 : Text → Text)
    (append : L → EvidenceChunked → Result IngestError (Unit {0}) × L) (evidence_id : OpaqueId)
    (pass : ℕ) (params : ChunkParams) where
  -- The fact of a piece, unless the piece is only white space.
  abbrev pub fact_unless_blank :
      Window → (ordinal byte_start byte_end : ℕ) → ContentHasher → List ChunkFact
  fact_unless_blank window ordinal byte_start byte_end hasher =
      if hasher_is_empty hasher
      then []
      else fact_of file blake3 append evidence_id pass params window ordinal byte_start byte_end
          hasher
        ∷ []

module _ {R L : Type 0} (file : Reader R) (blake3 : Text → Text)
    (append : L → EvidenceChunked → Result IngestError (Unit {0}) × L) (evidence_id : OpaqueId)
    (pass : ℕ) (params : ChunkParams) (committed : L → List ChunkFact)
    (commits : Commits append committed) where
  abbrev pub After :
      (new : List ChunkFact) (e : Emitter R L)
      → Result IngestError (Unit {0}) × Emitter R L
      → Type 0
  After new e r =
      ((why : IngestError) × (r.0 ≡ err why) × IsFailure file append r.1 why)
      ⊎ ((r.0 ≡ ok tt) × IsAfter committed new e r.1)

  flush_nothing :
      (f : Emitter R L)
      → (length f.batch == 0) ≡ true
      → flush file blake3 append evidence_id pass params f ≡ (ok tt, f)
  unfolding flush
  flush_nothing f e = rw e refl

  flush_step :
      (f : Emitter R L)
      → length f.batch ≤ chunk_batch_count_max
      → 0 < length f.batch
      → let r = append f.log (record {
        evidence_id = evidence_id;
        pass = pass;
        batch_index = f.batch_index;
        chunks = f.batch;
      }) in
        flush file blake3 append evidence_id pass params f
        ≡ and_then
            (r.0, record f { batch = []; log = r.1 })
            (λ e. (ok tt, record e { batch_index = saturating_add_u32 e.batch_index 1 }))
  unfolding flush emit_chunks
  flush_step f room some_batch =
      let fits : ltb chunk_batch_count_max (length f.batch) ≡ false = ground (arith, room) in
      let filled : (length f.batch == 0) ≡ false = ground (arith, some_batch) in
      rw (filled, fits) refl

  -- An emitter whose batch is flushed after the last of `new`.
  flushed :
      (e : Emitter R L) (new : List ChunkFact) (f : Emitter R L)
      → length f.batch ≤ chunk_batch_count_max
      → 0 < length f.batch
      → f.ordinal ≡ f.total
      → f.total ≤ chunk_count_max
      → facts committed f ≡ facts committed e ++ new
      → f.ordinal ≡ e.ordinal + length new
      → f.text ≡ e.text
      → f.text_offset ≡ e.text_offset
      → After new e (flush file blake3 append evidence_id pass params f)
  flushed e new f room some_batch c m q o t x =
      let body : EvidenceChunked = record {
        evidence_id = evidence_id;
        pass = pass;
        batch_index = f.batch_index;
        chunks = f.batch;
      } in
      elim (Result-cases (append f.log body).0) [
        | inl (why, r) ↦
            rw (flush_step f room some_batch, r)
              (inl (why, refl, log_refused f.log body (refused (append f.log body) r)))
        | inr (_, r) ↦
            rw (flush_step f room some_batch, r)
              (inr (
                refl,
                record {
                  added = append_nil (committed (append f.log body).1) ∙ commits f.log body r ∙ q;
                  valid = record { batch_room = omega arith; counted = c; below_max = m };
                  ordinal_next = o;
                  same_text = t;
                  same_offset = x;
                },
              ))
      ]

  pushed :
      (e : Emitter R L) (fact : ChunkFact)
      → IsEmitter committed e
      → e.total < chunk_count_max
      → After (fact ∷ []) e (
          flush_full file blake3 append evidence_id pass params
            (with_fact file blake3 append evidence_id pass params fact e))
  pushed e fact v m =
      let next : saturating_add_u32 e.ordinal 1 ≡ e.ordinal + 1 = omega (arith, v.counted, m) in
      let long = length-append e.batch (fact ∷ []) in
      let f = with_fact file blake3 append evidence_id pass params fact e in
      let same : facts committed f ≡ facts committed e ++ (fact ∷ []) =
        sym (append_assoc (committed e.log) e.batch (fact ∷ [])) in
      elim (Bool-cases (leb chunk_batch_count_max (length f.batch))) [
        | inl full ↦ rw full (
            flushed e (fact ∷ []) f (omega (arith, long, v.batch_room)) (omega (arith, long))
              (omega (arith, next, v.counted)) (omega (arith, m)) same next refl refl)
        | inr free ↦ rw free (
            inr (
              refl,
              record {
                added = same;
                valid = record {
                  batch_room = ground (arith, free);
                  counted = omega (arith, next, v.counted);
                  below_max = omega (arith, m);
                };
                ordinal_next = next;
                same_text = refl;
                same_offset = refl;
              },
            ))
      ]

  -- A piece that is pushed adds its fact, and no more, unless the emitter fails.
  pub push_fact_lem :
      (window : Window) (byte_start byte_end : ℕ) (hasher : ContentHasher) (e : Emitter R L)
      → IsEmitter committed e
      → After
          (fact_unless_blank file blake3 append evidence_id pass params window e.ordinal byte_start
            byte_end hasher)
          e
          (push_fact file blake3 append evidence_id pass params window byte_start byte_end hasher e)
  unfolding push_fact
  push_fact_lem window byte_start byte_end hasher e v = elim (Bool-cases (hasher_is_empty hasher)) [
    | inl blank ↦ rw blank (
        inr (
          refl,
          record {
            added = sym (append_nil (facts committed e));
            valid = v;
            ordinal_next = omega arith;
            same_text = refl;
            same_offset = refl;
          },
        ))
    | inr some_text ↦ elim (Bool-cases (leb chunk_count_max e.total)) [
      | inl full ↦
          rw (some_text, full)
            (inl (
              _,
              refl,
              subst (λ k. IsFailure file append e (limit_exceeded chunk_count k chunk_count_max))
                  (ground (arith, full, v.below_max)) too_many_chunks,
            ))
      | inr free ↦
          rw (some_text, free)
            (pushed e
              (fact_of file blake3 append evidence_id pass params window e.ordinal byte_start
                byte_end hasher)
              v (ground (arith, free)))
    ]
  ]

  -- At the end nothing waits: the log has every fact, and the count is returned.
  pub finish_lem :
      (e : Emitter R L)
      → IsEmitter committed e
      → let r = finish file blake3 append evidence_id pass params e in
        ((why : IngestError) × (r.0 ≡ err why) × IsFailure file append r.1 why)
        ⊎ ((r.0 ≡ ok e.total) × (committed r.1.log ≡ facts committed e))
  unfolding finish
  finish_lem e v =
      let body : EvidenceChunked = record {
        evidence_id = evidence_id;
        pass = pass;
        batch_index = e.batch_index;
        chunks = e.batch;
      } in
      elim (Bool-cases (length e.batch == 0)) [
        | inl none_left ↦
            let nothing : e.batch ≡ [] = nil_length e.batch (ground (arith, none_left)) in
            rw (flush_nothing e none_left) (
              inr
                (refl, sym (ap (λ k. committed e.log ++ k) nothing ∙ append_nil (committed e.log))))
        | inr left ↦
            let step = flush_step e (omega (arith, v.batch_room)) (ground (arith, left)) in
            elim (Result-cases (append e.log body).0) [
              | inl (why, r) ↦
                  rw (step, r)
                    (inl (why, refl, log_refused e.log body (refused (append e.log body) r)))
              | inr (_, r) ↦ rw (step, r) (inr (refl, commits e.log body r))
            ]
      ]
