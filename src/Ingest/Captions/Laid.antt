-- ===== src/Ingest/Captions/Laid.antt =====
-- How the transcript of crates/pos-ingest/src/captions.rs lies in its text and in time.
use projectos_core.Ingest.Captions.Times.{order_lem, parse_lines_lem}
use projectos_core.Ingest.Chunks.Spans.{Spans}
use projectos_core.Common.Slices.{append_assoc, append_nil}
use projectos_core.Ingest.Segments.Reading.{push-IsIndex, IsIndex}
use projectos_core.Common.Result.{err, ok_inj, ok, Result, >>=-eq-ok}
use projectos_core.Ingest.{limit_exceeded, caption_cues, IngestError, time_range}
use projectos_core.Ingest.Captions.{
  full_lines, parse_block, normalize_captions, caption_cue_count_max, with_parsed, write_cue,
  segment_of, Captions, order, TextOps, Cue,
}
use projectos_core.Ingest.Segments.{push, Segment}
use projectos_core.Common.{
  saturating_add, Option-cases, u64_max, length-append, ap, ◌≤◌, ◌≡◌, ◌∷◌, ◌∙◌, ◌<◌, ◌+◌, ◌++◌, sym,
  subst, some, refl, none, length, leb, inr, inl, arith, [], Text, Option, List, Bool-cases, ℕ,
}

-- A text with the segments of its cues: each cue's text follows the last one's newline, and each cue
-- starts no earlier than the last one ended, and ends after that.
pub data IsLaid : Text → List Segment → (committed_to_ms : ℕ) → Type 0 where
  empty : IsLaid [] [] 0
  followed_by :
      {text : Text} {segs : List Segment} {committed_to_ms : ℕ} (cue : Cue)
      → IsLaid text segs committed_to_ms
      → committed_to_ms ≤ cue.start_ms
      → cue.start_ms ≤ cue.end_ms
      → committed_to_ms < cue.end_ms
      → IsLaid
          (text ++ (cue.text ++ b'\n' ∷ []))
          (segs
            ++ (record {
              byte_start = length text;
              byte_end = length text + length cue.text;
              locator = time_range cue.start_ms cue.end_ms;
              depth = 0;
            }
                ∷ []))
          cue.end_ms

Spans-snoc :
    (limit more here : ℕ) (segs : List Segment) (s : Segment)
    → Spans limit here segs
    → here ≤ limit
    → limit ≤ s.byte_start
    → s.byte_start ≤ s.byte_end
    → s.byte_end ≤ more
    → Spans more here (segs ++ (s ∷ []))
Spans-snoc limit more here [] s spans a b c d = (omega (arith, a, b), c, d, tt)
Spans-snoc limit more here (p ∷ segs) s (l, m, h, spans) a b c d =
    (l, m, omega (arith, h, b, c, d), Spans-snoc limit more p.byte_end segs s spans h b c d)

laid-Spans :
    {text : Text} {segs : List Segment} {committed_to_ms : ℕ}
    → IsLaid text segs committed_to_ms
    → Spans (length text) 0 segs
laid-Spans empty = tt
laid-Spans (followed_by {text = text} {segs = segs} cue lies _ _ _) =
    let long = length-append text (cue.text ++ b'\n' ∷ []) in
    Spans-snoc (length text) (length (text ++ (cue.text ++ b'\n' ∷ []))) 0 segs _ (laid-Spans lies)
      (omega arith) (omega arith) (omega arith)
      (omega (arith, long, length-append cue.text (b'\n' ∷ [])))

module _ {W : Type 0} (append : W → Text → Result IngestError W) (written : W → Text)
    (appends : (w : W) (t : Text) (w' : W) → append w t ≡ ok w' → written w' ≡ written w ++ t) where
  -- The text and the segments are laid, and the writer's blob is the index of the segments.
  pub record IsTranscript (segs : List Segment) (c : Captions W) : Type 0 where
    pub lies : IsLaid c.text segs c.committed_to_ms
    pub indexed : IsIndex append written c.segments segs
    pub offset_is : c.byte_offset ≡ length c.text

  write_cue_lem :
      (cue : Cue) (c c' : Captions W) (segs : List Segment)
      → IsTranscript segs c
      → (c.committed_to_ms ≤ cue.start_ms)
        × (cue.start_ms ≤ cue.end_ms)
        × (c.committed_to_ms < cue.end_ms)
      → write_cue append cue c ≡ ok c'
      → (length c.text ≤ length c'.text)
        × ((length c'.text ≤ u64_max) → (s : Segment) × IsTranscript (segs ++ (s ∷ [])) c')
  unfolding write_cue
  write_cue_lem cue c c' segs h (late, ordered, grows) q =
      let (w, a, b) =
        >>=-eq-ok (push append c.segments (segment_of append cue c.byte_offset)) _ q in
      let k = ok_inj b in
      let long = length-append c.text (cue.text ++ b'\n' ∷ []) in
      let tail = length-append cue.text (b'\n' ∷ []) in
      let same = ap (λ m. length m.text) k in
      (
        omega (arith, same, long),
        λ fits.
            let room : length c.text + length cue.text + 1 ≤ u64_max =
              omega (arith, fits, same, long, tail) in
            let exact : Segment = record {
              byte_start = length c.text;
              byte_end = length c.text + length cue.text;
              locator = time_range cue.start_ms cue.end_ms;
              depth = 0;
            } in
            let end : saturating_add c.byte_offset (length cue.text)
                ≡ length c.text + length cue.text =
              omega (arith, h.offset_is, room) in
            let spelled : segment_of append cue c.byte_offset ≡ exact =
              ap
                (λ n. record exact {
                  byte_start = n;
                  byte_end = saturating_add c.byte_offset (length cue.text);
                })
                h.offset_is
              ∙ ap (λ n. record exact { byte_end = n }) end in
            let index : IsIndex append written w (segs ++ (exact ∷ [])) =
              subst (λ x. IsIndex append written w (segs ++ (x ∷ []))) spelled
                (push-IsIndex append written appends c.segments segs _ w h.indexed a) in
            (
              exact,
              subst (IsTranscript (segs ++ (exact ∷ []))) k (record {
                lies = followed_by cue h.lies late ordered grows;
                indexed = index;
                offset_is = omega (arith, h.offset_is, room, end, long, tail);
              }),
            ),
      )

  -- A block adds a segment or nothing.
  abbrev Adds : List Segment → Captions W → Type 0
  Adds segs c = (new : List Segment) × IsTranscript (segs ++ new) c

  unchanged :
      (c c' : Captions W) (segs : List Segment)
      → IsTranscript segs c
      → ◌≡◌ {A = Result IngestError (Captions W)} (ok c) (ok c')
      → (length c.text ≤ length c'.text) × ((length c'.text ≤ u64_max) → Adds segs c')
  unchanged c c' segs h q =
      let same = ok_inj q in
      (
        omega (arith, ap (λ m. length m.text) same),
        λ _. (
          [],
          subst (λ m. IsTranscript (segs ++ []) m) same
              (subst (λ l. IsTranscript l c) (sym (append_nil segs)) h),
        ),
      )

  block_lem :
      (parsed : Option Cue) (c c' : Captions W) (segs : List Segment)
      → IsTranscript segs c
      → ((cue : Cue) → parsed ≡ some cue → cue.start_ms ≤ cue.end_ms)
      → with_parsed append parsed c ≡ ok c'
      → (length c.text ≤ length c'.text) × ((length c'.text ≤ u64_max) → Adds segs c')
  block_lem none c c' segs h times q = unchanged c c' segs h q
  block_lem (some cue) c c' segs h times q = elim (Option-cases (order cue c.committed_to_ms)) [
    | inl e ↦ unchanged c c' segs h (sym (rw e refl) ∙ q)
    | inr (made, e) ↦ elim (Bool-cases (leb caption_cue_count_max c.cue_count)) [
      | inl f ↦
          let never : ◌≡◌ {A = Result IngestError (Captions W)}
              (err (limit_exceeded caption_cues (c.cue_count + 1) caption_cue_count_max)) (ok c') =
            sym (rw (e, f) refl) ∙ q in
          absurd cc
      | inr f ↦
          let (grown, more) =
            write_cue_lem made c c' segs h (order_lem cue made c.committed_to_ms (times cue refl) e)
              (sym (rw (e, f) refl) ∙ q) in
          (grown, λ fits. let (s, t) = more fits in (s ∷ [], t))
    ]
  ]

  write_grows :
      (cue : Cue) (c c' : Captions W)
      → write_cue append cue c ≡ ok c'
      → length c.text ≤ length c'.text
  unfolding write_cue
  write_grows cue c c' q =
      let (w, a, b) =
        >>=-eq-ok (push append c.segments (segment_of append cue c.byte_offset)) _ q in
      omega
        (arith, ap (λ m. length m.text) (ok_inj b), length-append c.text (cue.text ++ b'\n' ∷ []))

  block_grows :
      (parsed : Option Cue) (c c' : Captions W)
      → with_parsed append parsed c ≡ ok c'
      → length c.text ≤ length c'.text
  block_grows none c c' q = omega (arith, ap (λ m. length m.text) (ok_inj q))
  block_grows (some cue) c c' q = elim (Option-cases (order cue c.committed_to_ms)) [
    | inl e ↦
        let k : ◌≡◌ {A = Result IngestError (Captions W)} (ok c) (ok c') = sym (rw e refl) ∙ q in
        omega (arith, ap (λ m. length m.text) (ok_inj k))
    | inr (made, e) ↦ elim (Bool-cases (leb caption_cue_count_max c.cue_count)) [
      | inl f ↦
          let never : ◌≡◌ {A = Result IngestError (Captions W)}
              (err (limit_exceeded caption_cues (c.cue_count + 1) caption_cue_count_max)) (ok c') =
            sym (rw (e, f) refl) ∙ q in
          absurd cc
      | inr f ↦ write_grows made c c' (sym (rw (e, f) refl) ∙ q)
    ]
  ]

  module _ (ops : TextOps) (parse_timestamp : Text → Option ℕ) where
    all_grow :
        (blocks : List Text) (c c' : Captions W)
        → normalize_captions append ops parse_timestamp blocks c ≡ ok c'
        → length c.text ≤ length c'.text
    unfolding normalize_captions
    all_grow [] c c' q = omega (arith, ap (λ m. length m.text) (ok_inj q))
    all_grow (block ∷ blocks) c c' q =
        let (after, a, b) =
          >>=-eq-ok (with_parsed append (parse_block ops parse_timestamp block) c) _ q in
        omega (
          arith,
          block_grows (parse_block ops parse_timestamp block) c after a,
          all_grow blocks after c' b,
        )

    laid_over :
        (blocks : List Text) (c c' : Captions W) (segs : List Segment)
        → IsTranscript segs c
        → normalize_captions append ops parse_timestamp blocks c ≡ ok c'
        → length c'.text ≤ u64_max
        → (new : List Segment) × IsTranscript (segs ++ new) c'
    unfolding normalize_captions parse_block
    laid_over [] c c' segs h q fits = (unchanged c c' segs h q).1 fits
    laid_over (block ∷ blocks) c c' segs h q fits =
        let (after, a, b) =
          >>=-eq-ok (with_parsed append (parse_block ops parse_timestamp block) c) _ q in
        let times =
          parse_lines_lem ops parse_timestamp (full_lines ops parse_timestamp (ops.lines block)) in
        let (_, more) = block_lem (parse_block ops parse_timestamp block) c after segs h times a in
        let (new, t) = more (omega (arith, all_grow blocks after c' b, fits)) in
        let (rest, done) = laid_over blocks after c' (segs ++ new) t b fits in
        (new ++ rest, subst (λ l. IsTranscript l c') (append_assoc segs new rest) done)

    -- What the loop writes is laid: each cue's text has its own segment in the text, one after the
    -- other, as the chunk stage needs them, the times of the cues neither overlap nor go back, and the
    -- blob of the index has the records of these segments; if it was so before, the loop succeeds, and
    -- the text is no longer than a u64 counts.
    pub normalize_captions-IsTranscript :
        (blocks : List Text) (c c' : Captions W) (segs : List Segment)
        → IsTranscript segs c
        → normalize_captions append ops parse_timestamp blocks c ≡ ok c'
        → length c'.text ≤ u64_max
        → (new : List Segment) × IsTranscript (segs ++ new) c'
          × Spans (length c'.text) 0 (segs ++ new)
    normalize_captions-IsTranscript blocks c c' segs h q fits =
        let (new, t) = laid_over blocks c c' segs h q fits in (new, t, laid-Spans t.lies)
