-- ===== src/Ingest/Chunks/Emit/Pieces.antt =====
-- What emitting a window of crates/pos-ingest/src/chunk.rs commits, against the whole text: the facts
-- of its consecutive pieces.
use projectos_core.Ingest.Identity.{ContentHasher, update, hasher_new}
use projectos_core.Ingest.Segments.Reading.{err_ok}
use projectos_core.Common.Slices.{
  length-drop, append_assoc, take_all, length-take, drop-drop, drop, append_nil,
}
use projectos_core.Ingest.Stream.Advances.{advance-IsAdvanced}
use projectos_core.Common.Result.{ok_inj, ok, err, Result}
use projectos_core.Ingest.Stream.Windows.{window_lem, Fails, view, Reads, IsWindow, IsBounded}
use projectos_core.Ingest.{IngestError}
use projectos_core.Ingest.Chunks.Emit.{
  push_fact, finish, pieces, piece_of, absorb, absorbed, Emitter,
}
use projectos_core.Ingest.Chunks.Emit.Facts.{
  push_fact_lem, IsAfter, facts, fact_unless_blank, IsFailure, IsEmitter, Commits,
}
use projectos_core.Ingest.Chunks.{
  bytes_max, and_then, Window, EvidenceChunked, ChunkParams, ChunkFact,
}
use projectos_core.Ingest.Stream.{advance, available, Reader, BoundedStream}
use projectos_core.Ids.{OpaqueId}
use projectos_core.Ingest.Chunks.Emit.Facts.{text_failed}
use projectos_core.Ingest.Stream
use projectos_core.Common.{
  subst, refl, length-append, ◌∷◌, ◌<◌, Bool-cases, ◌⊎◌, ◌≤◌, ◌≡◌, ◌∙◌, ◌==◌, ◌-◌, ◌+◌, ◌++◌, zero,
  take, sym, suc, min, length, inr, inl, if◌then◌else◌, arith, ap, [], Text, List, ℕ,
}

module _ {R L : Type 0} (file : Reader R) (blake3 : Text → Text)
    (append : L → EvidenceChunked → Result IngestError (Unit {0}) × L) (evidence_id : OpaqueId)
    (pass : ℕ) (params : ChunkParams) (text : Text) where
  abbrev pub piece_fact : Window → (start want ordinal : ℕ) → List ChunkFact
  piece_fact window start want ordinal =
      fact_unless_blank file blake3 append evidence_id pass params window ordinal start
        (start + want) (update (take want (drop start text)) hasher_new)

  -- The facts of the pieces from `start` on: each as long as the ceiling allows, with the fact of its
  -- bytes unless they are blank.
  unfoldable pub facts_of : (fuel : ℕ) → Window → (start remaining ordinal : ℕ) → List ChunkFact
  facts_of zero window start remaining ordinal = []
  facts_of (suc fuel) window start remaining ordinal =
      if remaining == 0
      then []
      else let piece = min remaining (bytes_max params) in
        let new = piece_fact window start piece ordinal in
        new ++ facts_of fuel window (start + piece) (remaining - piece) (ordinal + length new)

module _ {R L : Type 0} (file : Reader R) (blake3 : Text → Text)
    (append : L → EvidenceChunked → Result IngestError (Unit {0}) × L) (evidence_id : OpaqueId)
    (pass : ℕ) (params : ChunkParams) (committed : L → List ChunkFact)
    (commits : Commits append committed) (content : R → Text) (reads : Reads file content)
    (text : Text) where
  -- The emitter's stream shows the text from the emitter's offset on, with room for a piece.
  pub record IsAt (offset : ℕ) (e : Emitter R L) : Type 0 where
    pub here : e.text_offset ≡ offset
    pub ahead : view content e.text ≡ drop offset text
    pub inside : IsBounded content e.text
    pub piece_room : bytes_max params ≤ e.text.buffer_bytes_max

  -- The emitter after it has committed `new` and moved to `offset`.
  pub record IsMoved (new : List ChunkFact) (offset : ℕ) (e t : Emitter R L) : Type 0 where
    pub added : facts committed t ≡ facts committed e ++ new
    pub valid : IsEmitter committed t
    pub ordinal_next : t.ordinal ≡ e.ordinal + length new
    pub moved : IsAt offset t

  abbrev pub Either : (Emitter R L → Type 0) → Result IngestError (Unit {0}) × Emitter R L → Type 0
  Either good r =
      ((why : IngestError) × (r.0 ≡ err why) × IsFailure file append r.1 why)
      ⊎ ((r.0 ≡ ok tt) × good r.1)

  pub chain :
      (good best : Emitter R L → Type 0) (r : Result IngestError (Unit {0}) × Emitter R L)
      (k : Emitter R L → Result IngestError (Unit {0}) × Emitter R L)
      → Either good r
      → ((e : Emitter R L) → good e → Either best (k e))
      → Either best (and_then r k)
  chain good best (err why, e) k (inl (x, q, f)) h = inl (x, q, f)
  chain good best (err why, e) k (inr (q, g)) h = absurd cc
  chain good best (ok _, e) k (inl (x, q, f)) h = absurd cc
  chain good best (ok _, e) k (inr (q, g)) h = h e g

  pub step_by :
      (want offset : ℕ) (e : Emitter R L) (bs : Text) (s : BoundedStream R)
      → IsEmitter committed e
      → IsAt offset e
      → want ≤ length (drop offset text)
      → IsWindow file content reads want e.text (ok bs, s)
      → (bs ≡ take want (drop offset text))
        × (length bs ≡ want)
        × IsMoved []
            (offset + want)
            e
            (record e { text = advance want s; text_offset = e.text_offset + want })
  step_by want offset e bs s v at h w =
      let same : bs ≡ take want (drop offset text) = ok_inj w.shown ∙ ap (take want) at.ahead in
      let wide : want ≤ available s = elim w.resident [
        | inl k ↦ k
        | inr k ↦ omega (arith, h, k, ap length at.ahead)
      ] in
      let a = advance-IsAdvanced content want s w.kept_bounds wide in
      (
        same,
        ap length same ∙ length-take want (drop offset text) h,
        record {
          added = sym (append_nil (facts committed e));
          valid = record {
            batch_room = v.batch_room;
            counted = v.counted;
            below_max = v.below_max;
          };
          ordinal_next = omega arith;
          moved = record {
            here = omega (arith, at.here);
            ahead =
                a.dropped
                ∙ ap (drop want) (w.kept_view ∙ at.ahead)
                ∙ sym (drop-drop offset want text);
            inside = a.still_bounded;
            piece_room = omega (arith, at.piece_room, w.kept_budget, a.same_max);
          };
        },
      )

  absorbed_lem :
      (want offset : ℕ) (e : Emitter R L) (p : Result IngestError Text × BoundedStream R)
      → IsEmitter committed e
      → IsAt offset e
      → want ≤ length (drop offset text)
      → ((p.0 ≡ err IngestError.io) × Fails file p.1) ⊎ IsWindow file content reads want e.text p
      → let r = absorbed file blake3 append evidence_id pass params want p e in
        ((r.0 ≡ err IngestError.io) × Fails file r.1.text)
        ⊎ ((r.0 ≡ ok (take want (drop offset text))) × IsMoved [] (offset + want) e r.1)
  absorbed_lem want offset e (err why, s) v at h (inl (q, broken)) = inl (cc, broken)
  absorbed_lem want offset e (err why, s) v at h (inr w) = absurd (err_ok w.shown)
  absorbed_lem want offset e (ok bs, s) v at h (inl (q, broken)) = absurd cc
  absorbed_lem want offset e (ok bs, s) v at h (inr w) =
      let (same, long, moved) = step_by want offset e bs s v at h w in
      let all : min (length bs) want ≡ want = omega (arith, long) in
      inr (ap ok (take_all want bs (omega (arith, long)) ∙ same), rw all moved)

  piece_step :
      (next : ContentHasher → ℕ → Emitter R L → Result IngestError (Unit {0}) × Emitter R L)
      (window : Window) (p : Result IngestError Text × Emitter R L) (piece : Text)
      → p.0 ≡ ok piece
      → 0 < length piece
      → piece_of file blake3 append evidence_id pass params next window p
        ≡ next (update piece hasher_new) (length piece) p.1
  piece_step next window (err why, e) piece q h = absurd cc
  piece_step next window (ok [], e) piece q h = absurd (omega (arith, h, ap length (ok_inj q)))
  piece_step next window (ok (b ∷ bs), e) piece q h =
      ap (λ k. next (update k hasher_new) (length k) e) (ok_inj q)

  piece_failed :
      (next : ContentHasher → ℕ → Emitter R L → Result IngestError (Unit {0}) × Emitter R L)
      (window : Window) (p : Result IngestError Text × Emitter R L)
      → p.0 ≡ err IngestError.io
      → piece_of file blake3 append evidence_id pass params next window p
        ≡ (err IngestError.io, p.1)
  piece_failed next window (err why, e) q = ap (λ k. (k, e)) cc
  piece_failed next window (ok bs, e) q = absurd cc

  stay :
      (start remaining : ℕ) (e : Emitter R L)
      → IsEmitter committed e
      → IsAt start e
      → remaining ≤ 0
      → IsMoved [] (start + remaining) e e
  stay start remaining e v at f = record {
    added = sym (append_nil (facts committed e));
    valid = v;
    ordinal_next = omega arith;
    moved = subst (λ k. IsAt k e) (omega (arith, f)) at;
  }

  -- A piece is read, its fact pushed, and the rest follows.
  assemble :
      {new rest : List ChunkFact} {middle finish : ℕ} {e p f t : Emitter R L}
      → IsMoved [] middle e p
      → IsAfter committed new p f
      → IsMoved rest finish f t
      → IsMoved (new ++ rest) finish e t
  assemble {new} {rest} {e = e} a b c = record {
    added =
        c.added
        ∙ ap (λ k. k ++ rest)
            (b.added ∙ ap (λ k. k ++ new) (a.added ∙ append_nil (facts committed e)))
        ∙ append_assoc (facts committed e) new rest;
    valid = c.valid;
    ordinal_next =
        omega (arith, a.ordinal_next, b.ordinal_next, c.ordinal_next, length-append new rest);
    moved = c.moved;
  }

  at_after :
      {new : List ChunkFact} {offset : ℕ} {p f : Emitter R L}
      → IsAt offset p
      → IsAfter committed new p f
      → IsAt offset f
  at_after {p = p} {f = f} at a = record {
    here = a.same_offset ∙ at.here;
    ahead = ap (view content) a.same_text ∙ at.ahead;
    inside = subst (IsBounded content) (sym a.same_text) at.inside;
    piece_room = omega (arith, at.piece_room, ap (λ k. k.buffer_bytes_max) a.same_text);
  }

  pub better :
      (good best : Emitter R L → Type 0) (r : Result IngestError (Unit {0}) × Emitter R L)
      → Either good r
      → ((t : Emitter R L) → good t → best t)
      → Either best r
  better good best r (inl bad) h = inl bad
  better good best r (inr (q, g)) h = inr (q, h r.1 g)

  push_piece :
      (window : Window) (start want finish : ℕ) (rest : List ChunkFact) (e p : Emitter R L)
      (k : Emitter R L → Result IngestError (Unit {0}) × Emitter R L)
      → IsMoved [] (start + want) e p
      → let new =
          piece_fact file blake3 append evidence_id pass params text window start want e.ordinal in
        ((t : Emitter R L)
          → IsEmitter committed t
          → IsAt (start + want) t
          → t.ordinal ≡ e.ordinal + length new
          → Either (IsMoved rest finish t) (k t))
        → Either (IsMoved (new ++ rest) finish e) (
            and_then
              (push_fact file blake3 append evidence_id pass params window start
                (start + want)
                (update (take want (drop start text)) hasher_new)
                p)
              k)
  push_piece window start want finish rest e p k m later =
      let new =
        piece_fact file blake3 append evidence_id pass params text window start want e.ordinal in
      let hasher = update (take want (drop start text)) hasher_new in
      let r =
        push_fact file blake3 append evidence_id pass params window start (start + want) hasher p in
      let count : p.ordinal ≡ e.ordinal = omega (arith, m.ordinal_next) in
      let outcome : Either (IsAfter committed new p) r =
        subst
          (λ o.
            Either
              (IsAfter committed
                (piece_fact file blake3 append evidence_id pass params text window start want o) p)
              r)
          count
          (push_fact_lem file blake3 append evidence_id pass params committed commits window start
            (start + want) hasher p m.valid) in
      chain (IsAfter committed new p) (IsMoved (new ++ rest) finish e) r k outcome (λ t a.
        better (IsMoved rest finish t) (IsMoved (new ++ rest) finish e) (k t)
          (later t a.valid (at_after m.moved a) (a.ordinal_next ∙ ap (λ o. o + length new) count))
          (λ u d. assemble m a d))

  -- The pieces of a window that lies in the text: unless the emitter fails, all of them are
  -- committed, one after the other, and the stream stands behind the window.
  pub pieces_lem :
      (fuel : ℕ) (window : Window) (start remaining : ℕ) (e : Emitter R L)
      → IsEmitter committed e
      → IsAt start e
      → remaining ≤ fuel
      → start + remaining ≤ length text
      → 0 < bytes_max params
      → Either
          (IsMoved
            (facts_of file blake3 append evidence_id pass params text fuel window start remaining
              e.ordinal)
            (start + remaining)
            e)
          (pieces file blake3 append evidence_id pass params fuel window start remaining e)
  unfolding facts_of pieces absorb
  pieces_lem zero window start remaining e v at f h b = inr (refl, stay start remaining e v at f)
  pieces_lem (suc fuel) window start remaining e v at f h b =
      let want = min remaining (bytes_max params) in
      let piece = take want (drop start text) in
      let inside : want ≤ length (drop start text) = omega (arith, length-drop start text, h) in
      let p =
        absorbed file blake3 append evidence_id pass params want (Stream.window file want e.text)
          e in
      let new =
        piece_fact file blake3 append evidence_id pass params text window start want e.ordinal in
      let rest =
        facts_of file blake3 append evidence_id pass params text fuel window (start + want)
          (remaining - want) (e.ordinal + length new) in
      elim (Bool-cases (remaining == 0)) [
        | inl done ↦ rw done (inr (refl, stay start remaining e v at (ground (arith, done))))
        | inr going ↦
            elim (absorbed_lem want start e (Stream.window file want e.text) v at inside (
              window_lem file content reads want e.text at.inside (omega (arith, at.piece_room)))) [
                | inl (q, broken) ↦
                    rw (going, piece_failed _ window p q)
                      (inl (IngestError.io, refl, text_failed broken))
                | inr (got, m) ↦
                    let long : length piece ≡ want = length-take want (drop start text) inside in
                    rw
                      (
                        going,
                        piece_step _ window p piece got (ground (arith, going, b, long)),
                        long,
                      )
                      (push_piece window start want (start + remaining) rest e p.1 _ m (λ t v at o.
                        subst
                          (λ k. Either (IsMoved rest k t) (
                            pieces file blake3 append evidence_id pass params fuel window
                              (start + want) (remaining - want) t))
                          (omega arith)
                          (subst
                            (λ k.
                              Either
                                (IsMoved
                                  (facts_of file blake3 append evidence_id pass params text fuel
                                    window (start + want) (remaining - want) k)
                                  (start + want + (remaining - want)) t)
                                (pieces file blake3 append evidence_id pass params fuel window
                                  (start + want) (remaining - want) t))
                            o
                            (pieces_lem fuel window (start + want) (remaining - want) t v at
                              (ground (arith, going, b, f)) (omega (arith, h)) b))))
              ]
      ]
