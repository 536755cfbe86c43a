-- ===== src/Ingest/Segments/Reading.antt =====
-- The index as a sequence: what the writer of crates/pos-ingest/src/segment.rs puts into the blob is
-- what the reader takes from it, segment by segment.
use projectos_core.Ingest.Stream.Advances.{advance-IsAdvanced, IsAdvanced}
use projectos_core.Common.Slices.{
  take_all, take-append, drop-length, drop-append, drop, append_nil, append_assoc,
}
use projectos_core.Ingest.Segments.{
  decode, next_of, segment_record_bytes, segment_count_max, push, next_segment, encode,
  SegmentWriter, SegmentReader, Segment,
}
use projectos_core.Ingest.Stream.{available, window, advance, BoundedStream, Reader}
use projectos_core.Ingest.Segments.RoundTrip.{decode-encode, length-encode, IsSegment}
use projectos_core.Ingest.Stream.Windows.{window_lem, Fails, IsWindow, view, Reads, IsBounded}
use projectos_core.Ingest.{segment_count, limit_exceeded, IngestError}
use projectos_core.Common.Result.{◌>>=◌, ok_inj, ok, err, Result, >>=-eq-ok}
use projectos_core.Common.{
  ◌+◌, true, saturating_add, false, ◌≢◌, take, refl, length-append, arith, ◌⊎◌, ◌≤◌, ◌≡◌, ◌∷◌, ◌∙◌,
  ◌++◌, sym, some, none, length, leb, inr, inl, ap, [], Text, Option, List, Bool-cases, All, ℕ,
}

abbrev pub encode_all : List Segment → Text
encode_all [] = []
encode_all (s ∷ segs) = encode s ++ encode_all segs

abbrev pub first_of : List Segment → Option Segment
first_of [] = none
first_of (s ∷ segs) = some s

abbrev pub rest_of : List Segment → List Segment
rest_of [] = []
rest_of (s ∷ segs) = segs

encode_all-snoc :
    (segs : List Segment) (s : Segment)
    → (encode_all segs ++ encode s) ≡ encode_all (segs ++ (s ∷ []))
encode_all-snoc [] s = sym (append_nil (encode s))
encode_all-snoc (p ∷ segs) s =
    append_assoc (encode p) (encode_all segs) (encode s)
    ∙ ap (λ k. encode p ++ k) (encode_all-snoc segs s)

cons_nil : {b : ℕ} {bs : Text} → (b ∷ bs) ≢ []
cons_nil q = absurd (omega (arith, ap length q))

pub err_ok {ℓ} :
    {A : Type ℓ} {e : IngestError} {a : A} → ◌≢◌ {A = Result IngestError A} (err e) (ok a)
err_ok q = cc

module _ {W : Type 0} (append : W → Text → Result IngestError W) (written : W → Text) where
  -- The blob holds the records of `segs`, counted, in the order in which they were pushed.
  pub record IsIndex (w : SegmentWriter W) (segs : List Segment) : Type 0 where
    pub blob : written w.writer ≡ encode_all segs
    pub counted : w.count ≡ length segs
    pub count_bound : w.count ≤ segment_count_max

  push_full :
      (w : SegmentWriter W) (s : Segment)
      → leb segment_count_max w.count ≡ true
      → push append w s
        ≡ err (limit_exceeded segment_count (saturating_add w.count 1) segment_count_max)
  unfolding push
  push_full w s e = rw e refl

  push_free :
      (w : SegmentWriter W) (s : Segment)
      → leb segment_count_max w.count ≡ false
      → push append w s ≡ (
          append w.writer (encode s) >>= λ writer.
          ok (record { writer = writer; count = w.count + 1 }))
  unfolding push
  push_free w s e = rw e refl

  -- A push that succeeds adds the segment's record at the end, and the count stays within its limit,
  -- for a blob writer whose successful appends append.
  pub push-IsIndex :
      ((w : W) (t : Text) (w' : W) → append w t ≡ ok w' → written w' ≡ written w ++ t)
      → (w : SegmentWriter W) (segs : List Segment) (s : Segment) (w' : SegmentWriter W)
      → IsIndex w segs
      → push append w s ≡ ok w'
      → IsIndex w' (segs ++ (s ∷ []))
  unfolding push
  push-IsIndex appends w segs s w' h q = elim (Bool-cases (leb segment_count_max w.count)) [
    | inl e ↦ absurd (err_ok (sym (push_full w s e) ∙ q))
    | inr e ↦
        let (writer, a, b) = >>=-eq-ok (append w.writer (encode s)) _ (sym (push_free w s e) ∙ q) in
        let o = ok_inj b in
        record {
          blob =
              ap (λ k. written k.writer) (sym o)
              ∙ appends w.writer (encode s) writer a
              ∙ ap (λ k. k ++ encode s) h.blob
              ∙ encode_all-snoc segs s;
          counted = omega (arith, ap (λ k. k.count) o, h.counted, length-append segs (s ∷ []));
          count_bound = ground (arith, ap (λ k. k.count) o, e);
        }
  ]

module _ {R : Type 0} (file : Reader R) (content : R → Text) (reads : Reads file content) where
  -- The reader has the records of `segs` before it.
  pub record Shows (r : SegmentReader R) (segs : List Segment) : Type 0 where
    pub remaining : view content r.stream ≡ encode_all segs
    pub all_fit : All IsSegment segs
    pub inside : IsBounded content r.stream
    pub holds_a_record : segment_record_bytes ≤ r.stream.buffer_bytes_max

  length-view :
      (s : Segment) (segs : List Segment) (t : BoundedStream R)
      → view content t ≡ encode s ++ encode_all segs
      → segment_record_bytes ≤ length (view content t)
  length-view s segs t q =
      omega (arith, ap length q, length-append (encode s) (encode_all segs), length-encode s)

  -- The stream after a record is consumed has the other records before it.
  past_record :
      (n : ℕ) (s : Segment) (segs : List Segment) (t : BoundedStream R)
      → view content t ≡ encode s ++ encode_all segs
      → All IsSegment segs
      → IsAdvanced content segment_record_bytes t (advance segment_record_bytes t)
      → segment_record_bytes ≤ t.buffer_bytes_max
      → Shows (record { stream = advance segment_record_bytes t; read_count = n }) segs
  past_record n s segs t q fit a m = record {
    remaining =
        a.dropped
        ∙ ap (drop segment_record_bytes) q
        ∙ drop-append segment_record_bytes (encode s) (encode_all segs)
            (omega (arith, length-encode s))
        ∙ ap (λ k. k ++ encode_all segs)
            (ap (λ k. drop k (encode s)) (sym (length-encode s)) ∙ drop-length (encode s));
    all_fit = fit;
    inside = a.still_bounded;
    holds_a_record = omega (arith, m, a.same_max);
  }

  shown_record :
      (s : Segment) (segs : List Segment) (r : SegmentReader R) (bs : Text)
      → Shows r (s ∷ segs)
      → ◌≡◌ {A = Result IngestError Text}
          (ok bs)
          (ok (take segment_record_bytes (view content r.stream)))
      → bs ≡ encode s
  shown_record s segs r bs h q =
      ok_inj q
      ∙ ap (take segment_record_bytes) h.remaining
      ∙ take-append segment_record_bytes (encode s) (encode_all segs)
          (omega (arith, length-encode s))
      ∙ take_all segment_record_bytes (encode s) (omega (arith, length-encode s))

  next_of_lem :
      (n : ℕ) (segs : List Segment) (r : SegmentReader R)
      (p : Result IngestError Text × BoundedStream R)
      → Shows r segs
      → ((p.0 ≡ err IngestError.io) × Fails file p.1)
        ⊎ IsWindow file content reads segment_record_bytes r.stream p
      → (((next_of n p).0 ≡ err IngestError.io) × Fails file (next_of n p).1.stream)
        ⊎ (((next_of n p).0 ≡ ok (first_of segs)) × Shows (next_of n p).1 (rest_of segs))
  next_of_lem n segs r (err e, t) h (inl (q, broken)) = inl (cc, broken)
  next_of_lem n segs r (err e, t) h (inr w) = absurd (err_ok w.shown)
  next_of_lem n segs r (ok w, t) h (inl (q, broken)) = absurd cc
  next_of_lem n [] r (ok [], t) h (inr w) = inr (
    refl,
    record {
      remaining = w.kept_view ∙ h.remaining;
      all_fit = tt;
      inside = w.kept_bounds;
      holds_a_record = omega (arith, h.holds_a_record, w.kept_budget);
    },
  )
  next_of_lem n [] r (ok (b ∷ bs), t) h (inr w) =
      absurd (cons_nil (ok_inj w.shown ∙ ap (take segment_record_bytes) h.remaining))
  next_of_lem n (s ∷ segs) r (ok [], t) h (inr w) =
      absurd (omega (arith, ap length (shown_record s segs r [] h w.shown), length-encode s))
  next_of_lem n (s ∷ segs) r (ok (b ∷ bs), t) h (inr w) =
      let same : decode (b ∷ bs) ≡ some s =
        ap decode (shown_record s segs r (b ∷ bs) h w.shown) ∙ decode-encode s h.all_fit.0 in
      let q : view content t ≡ encode s ++ encode_all segs = w.kept_view ∙ h.remaining in
      let long = length-view s segs t q in
      let wide : segment_record_bytes ≤ available t = elim w.resident [
        | inl k ↦ k
        | inr k ↦ omega (arith, long, k, ap length w.kept_view)
      ] in
      rw same (
        inr (
          refl,
          past_record (n + 1) s segs t q h.all_fit.1
              (advance-IsAdvanced content segment_record_bytes t w.kept_bounds wide)
              (omega (arith, h.holds_a_record, w.kept_budget)),
        ))

  -- A reader of the index fails only with `io`, and then the file at which it stopped refuses a read
  -- of some bytes; else it gives the next segment that was
  -- written, none after the last, and then has the others before it.
  pub next_segment-Shows :
      (segs : List Segment) (r : SegmentReader R)
      → Shows r segs
      → (((next_segment file r).0 ≡ err IngestError.io) × Fails file (next_segment file r).1.stream)
        ⊎ (((next_segment file r).0 ≡ ok (first_of segs))
            × Shows (next_segment file r).1 (rest_of segs))
  unfolding next_segment
  next_segment-Shows segs r h =
      next_of_lem r.read_count segs r (window file segment_record_bytes r.stream) h
        (window_lem file content reads segment_record_bytes r.stream h.inside h.holds_a_record)
