-- ===== src/Ingest/Chunks/Emit/Whole.antt =====
-- Emitting the windows of an evidence item of crates/pos-ingest/src/chunk.rs in order: the gaps
-- between them are skipped, and every window's facts are committed.
use projectos_core.Ingest.Chunks.Spans.{Follow}
use projectos_core.Ingest.Chunks.Loop.Refines.{emit_all}
use projectos_core.Ingest.Segments.Reading.{err_ok}
use projectos_core.Common.Slices.{append_assoc, length-drop, drop, append_nil}
use projectos_core.Common.Result.{ok, err, Result}
use projectos_core.Ingest.Stream.Windows.{window_lem, Fails, IsWindow, Reads}
use projectos_core.Ingest.Stream.{advance, BoundedStream, Reader}
use projectos_core.Ingest.{IngestError}
use projectos_core.Ingest.Chunks.Emit.{pieces, emit_window, skipped, skip_to, Emitter}
use projectos_core.Ingest.Chunks.Emit.Pieces.{
  pieces_lem, facts_of, chain, step_by, better, IsMoved, IsAt, Either,
}
use projectos_core.Ingest.Chunks.Emit.Facts.{text_failed, facts, IsEmitter, Commits}
use projectos_core.Ingest.Chunks.{
  window_byte_len, Window, bytes_max, EvidenceChunked, ChunkParams, ChunkFact,
}
use projectos_core.Ids.{OpaqueId}
use projectos_core.Ingest.Stream
use projectos_core.Common.{
  length-append, sym, subst, ◌⊎◌, ◌≤◌, ◌≡◌, ◌∷◌, ◌∙◌, ◌<◌, ◌-◌, ◌+◌, ◌++◌, zero, suc, refl, min,
  ltb, length, inr, inl, arith, ap, [], Bool-cases, Text, List, ℕ,
}

module _ {R L : Type 0} (file : Reader R) (blake3 : Text → Text)
    (append : L → EvidenceChunked → Result IngestError (Unit {0}) × L) (evidence_id : OpaqueId)
    (pass : ℕ) (params : ChunkParams) (committed : L → List ChunkFact)
    (commits : Commits append committed) (content : R → Text) (reads : Reads file content)
    (text : Text) where
  abbrev pub At : ℕ → Emitter R L → Type 0
  At = IsAt file blake3 append evidence_id pass params committed commits content reads text

  abbrev pub Moved : List ChunkFact → ℕ → Emitter R L → Emitter R L → Type 0
  Moved = IsMoved file blake3 append evidence_id pass params committed commits content reads text

  abbrev pub Outcome : (Emitter R L → Type 0) → Result IngestError (Unit {0}) × Emitter R L → Type 0
  Outcome = Either file blake3 append evidence_id pass params committed commits content reads text

  skipped_lem :
      (next : Emitter R L → Result IngestError (Unit {0}) × Emitter R L) (want offset : ℕ)
      (e : Emitter R L) (p : Result IngestError Text × BoundedStream R)
      → IsEmitter committed e
      → At offset e
      → want ≤ length (drop offset text)
      → 0 < want
      → ((p.0 ≡ err IngestError.io) × Fails file p.1) ⊎ IsWindow file content reads want e.text p
      → let r = skipped file blake3 append evidence_id pass params next p e in
        ((r.0 ≡ err IngestError.io) × Fails file r.1.text)
        ⊎ ((t : Emitter R L) × Moved [] (offset + want) e t × (r ≡ next t))
  skipped_lem next want offset e (err why, s) v at h b (inl (q, broken)) = inl (cc, broken)
  skipped_lem next want offset e (err why, s) v at h b (inr w) = absurd (err_ok w.shown)
  skipped_lem next want offset e (ok bs, s) v at h b (inl (q, broken)) = absurd cc
  skipped_lem next want offset e (ok [], s) v at h b (inr w) =
      let (_, long, _) =
        step_by file blake3 append evidence_id pass params committed commits content reads text want
          offset e [] s v at h w in
      absurd (omega (arith, long, b))
  skipped_lem next want offset e (ok (c ∷ bs), s) v at h b (inr w) =
      let (_, long, moved) =
        step_by file blake3 append evidence_id pass params committed commits content reads text want
          offset e (c ∷ bs) s v at h w in
      inr (
        _,
        moved,
        ap (λ k. next (record e { text = advance k s; text_offset = e.text_offset + k })) long,
      )

  chained :
      {new rest : List ChunkFact} {middle finish : ℕ} {e p t : Emitter R L}
      → Moved new middle e p
      → Moved rest finish p t
      → Moved (new ++ rest) finish e t
  chained {new} {rest} {e = e} a c = record {
    added = c.added ∙ ap (λ k. k ++ rest) a.added ∙ append_assoc (facts committed e) new rest;
    valid = c.valid;
    ordinal_next = omega (arith, a.ordinal_next, c.ordinal_next, length-append new rest);
    moved = c.moved;
  }

  there_already :
      (here offset : ℕ) (e : Emitter R L)
      → IsEmitter committed e
      → At here e
      → here ≡ offset
      → Moved [] offset e e
  there_already here offset e v at q = record {
    added = sym (append_nil (facts committed e));
    valid = v;
    ordinal_next = omega arith;
    moved = subst (λ k. At k e) q at;
  }

  -- The gap before a window is skipped whole, however it is cut into reads.
  skip_to_lem :
      (fuel here offset : ℕ) (e : Emitter R L)
      → IsEmitter committed e
      → At here e
      → here ≤ offset
      → offset ≤ here + fuel
      → offset ≤ length text
      → 0 < bytes_max params
      → Outcome
          (Moved [] offset e)
          (skip_to file blake3 append evidence_id pass params fuel offset e)
  unfolding skip_to
  skip_to_lem zero here offset e v at l f h b =
      inr (refl, there_already here offset e v at (omega (arith, l, f)))
  skip_to_lem (suc fuel) here offset e v at l f h b =
      let want = min (offset - e.text_offset) (bytes_max params) in
      let inside : want ≤ length (drop here text) =
        omega (arith, length-drop here text, h, at.here) in
      elim (Bool-cases (ltb e.text_offset offset)) [
        | inr there ↦
            rw there
              (inr (refl, there_already here offset e v at (ground (arith, there, l, at.here))))
        | inl more ↦
            let some_gap : 0 < want = ground (arith, more, b) in
            elim (skipped_lem (skip_to file blake3 append evidence_id pass params fuel offset) want
              here e (Stream.window file want e.text) v at inside some_gap
              (window_lem file content reads want e.text at.inside
                (omega (arith, at.piece_room)))) [
                  | inl (q, broken) ↦ rw more (inl (IngestError.io, q, text_failed broken))
                  | inr (t, m, q) ↦
                      rw (more, q)
                        (better file blake3 append evidence_id pass params committed commits content
                          reads text (Moved [] offset t) (Moved [] offset e)
                          (skip_to file blake3 append evidence_id pass params fuel offset t)
                          (skip_to_lem fuel (here + want) offset t m.valid m.moved
                            (omega (arith, at.here, l)) (omega (arith, some_gap, f)) h b)
                          (λ u d. chained m d))
                ]
      ]

  -- The facts of all the windows, and where the last of them ends.
  abbrev pub all_facts : (ordinal : ℕ) → List Window → List ChunkFact
  all_facts ordinal [] = []
  all_facts ordinal (w ∷ ws) =
      let new =
        facts_of file blake3 append evidence_id pass params text (window_byte_len w) w w.byte_start
          (window_byte_len w) ordinal in
      new ++ all_facts (ordinal + length new) ws

  abbrev pub end_of : ℕ → List Window → ℕ
  end_of here [] = here
  end_of here (w ∷ ws) = end_of w.byte_end ws

  window_facts : ℕ → Window → List ChunkFact
  window_facts ordinal w =
      facts_of file blake3 append evidence_id pass params text (window_byte_len w) w w.byte_start
        (window_byte_len w) ordinal

  window_pieces :
      (w : Window) (ordinal : ℕ) (t : Emitter R L)
      → IsEmitter committed t
      → At w.byte_start t
      → w.byte_start ≤ w.byte_end
      → w.byte_end ≤ length text
      → 0 < bytes_max params
      → t.ordinal ≡ ordinal
      → Outcome (Moved (window_facts ordinal w) w.byte_end t) (
          pieces file blake3 append evidence_id pass params
            (window_byte_len w)
            w
            w.byte_start
            (window_byte_len w)
            t)
  unfolding window_facts window_byte_len
  window_pieces w ordinal t v at m h b o =
      let len = w.byte_end - w.byte_start in
      let r = pieces file blake3 append evidence_id pass params len w w.byte_start len t in
      let end : w.byte_start + len ≡ w.byte_end = omega (arith, m) in
      subst (λ k. Outcome (Moved (window_facts ordinal w) k t) r) end
        (subst (λ k. Outcome (Moved (window_facts k w) (w.byte_start + len) t) r) o
          (pieces_lem file blake3 append evidence_id pass params committed commits content reads
            text len w w.byte_start len t v at (omega arith) (omega (arith, h, end)) b))

  emit_window_lem :
      (here : ℕ) (w : Window) (e : Emitter R L)
      → IsEmitter committed e
      → At here e
      → here ≤ w.byte_start
      → w.byte_start ≤ w.byte_end
      → w.byte_end ≤ length text
      → 0 < bytes_max params
      → Outcome
          (Moved (window_facts e.ordinal w) w.byte_end e)
          (emit_window file blake3 append evidence_id pass params w e)
  unfolding emit_window
  emit_window_lem here w e v at l m h b =
      chain file blake3 append evidence_id pass params committed commits content reads text
        (Moved [] w.byte_start e) (Moved (window_facts e.ordinal w) w.byte_end e) _ _
        (skip_to_lem (w.byte_start - e.text_offset) here w.byte_start e v at l
          (omega (arith, at.here)) (omega (arith, m, h)) b)
        (λ t g.
          better file blake3 append evidence_id pass params committed commits content reads text
            (Moved (window_facts e.ordinal w) w.byte_end t) _ _
            (window_pieces w e.ordinal t g.valid g.moved m h b (omega (arith, g.ordinal_next)))
            (λ u d. chained g d))

  pub emit_all_lem :
      (here : ℕ) (ws : List Window) (e : Emitter R L)
      → IsEmitter committed e
      → At here e
      → Follow (length text) here ws
      → 0 < bytes_max params
      → Outcome
          (Moved (all_facts e.ordinal ws) (end_of here ws) e)
          (emit_all (emit_window file blake3 append evidence_id pass params) ws e)
  unfolding emit_all window_facts
  emit_all_lem here [] e v at f b = inr (refl, there_already here here e v at refl)
  emit_all_lem here (w ∷ ws) e v at (l, m, h, f) b =
      chain file blake3 append evidence_id pass params committed commits content reads text
        (Moved (window_facts e.ordinal w) w.byte_end e)
        (Moved (all_facts e.ordinal (w ∷ ws)) (end_of w.byte_end ws) e) _ _
        (emit_window_lem here w e v at l m h b)
        (λ t g.
          let o : t.ordinal ≡ e.ordinal + length (window_facts e.ordinal w) = g.ordinal_next in
          better file blake3 append evidence_id pass params committed commits content reads text
            (Moved (all_facts (e.ordinal + length (window_facts e.ordinal w)) ws)
              (end_of w.byte_end ws) t)
            _ _
            (subst
              (λ k.
                Outcome (Moved (all_facts k ws) (end_of w.byte_end ws) t)
                  (emit_all (emit_window file blake3 append evidence_id pass params) ws t))
              o (emit_all_lem w.byte_end ws t g.valid g.moved f b))
            (λ u d. chained g d))
