-- ===== src/Ingest/Stream/Windows.antt =====
-- A bounded stream of crates/pos-ingest/src/budget.rs shows its reader's content, in order and
-- complete, whatever the sizes of the reads are, and never holds more than its budget.
use projectos_core.Common.Slices.{
  take-append, append_nil, nil_right, nil_length, length-drop, drop, append_assoc,
}
use projectos_core.Common.Result.{ok, err, Result}
use projectos_core.Ingest.{IngestError}
use projectos_core.Ingest.Stream.{
  window, fill, seen, stage_read_bytes, read_more, fill_loop, compact, available, after_read,
  Reader, BoundedStream,
}
use projectos_core.Common.{
  none, subst, length-append, ◌⊎◌, ◌∙◌, ◌||◌, ◌==◌, ◌&&◌, not, min, max, ltb, inr, inl, false,
  Option-cases, Bool-cases, ◌≤◌, ◌≡◌, ◌∷◌, ◌<◌, ◌-◌, ◌+◌, ◌++◌, ℕ, zero, true, take, suc, some,
  refl, length, arith, ap, [], Text, sym,
}

-- What the documentation of `Read` promises: a read returns at most as many bytes as there is room,
-- the next ones of the content, and none at all only at the end.
pub record Reads {R : Type 0} (io : Reader R) (content : R → Text) : Type 0 where
  pub next_bytes :
      (r : R) (len : ℕ) (bs : Text) (r' : R)
      → io.read r len ≡ some (bs, r')
      → (content r ≡ bs ++ content r') × (length bs ≤ len)
  pub end_only :
      (r : R) (len : ℕ) (r' : R) → 0 < len → io.read r len ≡ some ([], r') → content r' ≡ []

-- The next read of the stream's reader fails, for some room.
abbrev pub Fails : {R : Type 0} → Reader R → BoundedStream R → Type 0
Fails io s = (len : ℕ) × (0 < len) × (io.read s.reader len ≡ none)

module _ {R : Type 0} (content : R → Text) where
  -- What the stream has still to show.
  abbrev pub view : BoundedStream R → Text
  view s = drop s.start s.buffer ++ content s.reader

  -- The stream holds no more than its budget, and has reached the end only if the content has.
  pub record IsBounded (s : BoundedStream R) : Type 0 where
    pub start_inside : s.start ≤ length s.buffer
    pub within_budget : length s.buffer ≤ s.buffer_bytes_max
    pub ended : s.at_end ≡ true → content s.reader ≡ []

module _ {R : Type 0} (io : Reader R) (content : R → Text) (reads : Reads io content) where
  compacted : BoundedStream R → BoundedStream R
  compacted s = record s { buffer = drop s.start s.buffer; start = 0 }

  compact_lem : (s : BoundedStream R) → compact s ≡ compacted s
  unfolding compact compacted
  compact_lem s = elim (Bool-cases (ltb 0 s.start)) [
    | inl e ↦ rw e refl
    | inr e ↦
        let q : s.start ≡ 0 = ground (arith, e) in
        rw e (
          ap (λ k. record s { buffer = s.buffer; start = k }) q
          ∙ ap (λ k. record s { buffer = drop k s.buffer; start = 0 }) (sym q))
  ]

  -- The stream after filling: as bounded as before, with the same content to show, and either wide
  -- enough or at the end.
  pub record IsFilled (want : ℕ) (s t : BoundedStream R) : Type 0 where
    pub bounded : IsBounded content t
    pub same_view : view content t ≡ view content s
    pub wide : (want ≤ available t) ⊎ (t.at_end ≡ true)
    pub same_budget : t.buffer_bytes_max ≡ s.buffer_bytes_max
    pub same_offset : t.consumed_total ≡ s.consumed_total

  abbrev Filling :
      (want : ℕ) → BoundedStream R → Result IngestError (Unit {0}) × BoundedStream R → Type 0
  Filling want s r =
      ((r.0 ≡ err IngestError.io) × Fails io r.1) ⊎ ((r.0 ≡ ok tt) × IsFilled want s r.1)

  -- A stop of the loop, without another read.
  stop :
      (fuel want : ℕ) (s : BoundedStream R)
      → (ltb (available s) want && not s.at_end) ≡ false
      → IsBounded content s
      → Filling want s (fill_loop io fuel want s)
  unfolding fill_loop
  stop zero want s e b = inr (
    refl,
    record {
      bounded = b;
      same_view = refl;
      wide = ground (arith, e);
      same_budget = refl;
      same_offset = refl;
    },
  )
  stop (suc fuel) want s e b = rw e (
      inr (
        refl,
        record {
          bounded = b;
          same_view = refl;
          wide = ground (arith, e);
          same_budget = refl;
          same_offset = refl;
        },
      ))

  -- The stream after a read that gave some bytes.
  grown : BoundedStream R → Text → R → BoundedStream R
  grown s bs reader = record (compacted s) {
    reader = reader;
    buffer = drop s.start s.buffer ++ bs;
    at_end = s.at_end || (length bs == 0);
    read_total = s.read_total + length bs;
    peak_bytes = max s.peak_bytes (length (drop s.start s.buffer) + length bs);
  }

  room : BoundedStream R → ℕ
  room s = min stage_read_bytes (s.buffer_bytes_max - length (drop s.start s.buffer))

  next_read :
      (fuel want : ℕ) (s : BoundedStream R)
      → (ltb (available s) want && not s.at_end) ≡ true
      → IsBounded content s
      → want ≤ s.buffer_bytes_max
      → (((fill_loop io (suc fuel) want s).0 ≡ err IngestError.io)
          × Fails io (fill_loop io (suc fuel) want s).1)
        ⊎ ((bs : Text) × (r : R) × (io.read s.reader (room s) ≡ some (bs, r))
            × (0 < room s)
            × (fill_loop io (suc fuel) want s ≡ fill_loop io fuel want (grown s bs r)))
  unfolding fill_loop read_more after_read compacted grown room available
  next_read fuel want s e b h =
      let space : 0 < room s = ground (arith, e, length-drop s.start s.buffer, h) in
      let some_room : (room s == 0) ≡ false = ground (arith, space) in
      elim (Option-cases (io.read s.reader (room s))) [
        | inl q ↦ inl (rw (e, compact_lem s, some_room, q) (refl, (room s, space, q)))
        | inr ((bs, r), q) ↦ inr (bs, r, q, space, rw (e, compact_lem s, some_room, q) refl)
      ]

  grown-IsBounded :
      (s : BoundedStream R) (bs : Text) (r : R)
      → IsBounded content s
      → 0 < room s
      → io.read s.reader (room s) ≡ some (bs, r)
      → IsBounded content (grown s bs r)
  unfolding grown compacted room
  grown-IsBounded s bs r b h q =
      let (same, fits) = reads.next_bytes s.reader (room s) bs r q in
      record {
        start_inside = omega arith;
        within_budget = omega (
          arith,
          fits,
          length-append (drop s.start s.buffer) bs,
          length-drop s.start s.buffer,
          b.within_budget,
          h,
        );
        ended = λ e. elim (Bool-cases s.at_end) [
          | inl at_end ↦ nil_right bs (content r) (sym same ∙ b.ended at_end)
          | inr e2 ↦
              reads.end_only s.reader (room s) r h
                (q ∙ ap (λ k. some (k, r)) (nil_length bs (ground (arith, e, e2))))
        ];
      }

  view-grown :
      (s : BoundedStream R) (bs : Text) (r : R)
      → IsBounded content s
      → io.read s.reader (room s) ≡ some (bs, r)
      → view content (grown s bs r) ≡ view content s
  unfolding grown compacted
  view-grown s bs r b q =
      let (same, _) = reads.next_bytes s.reader (room s) bs r q in
      append_assoc (drop s.start s.buffer) bs (content r)
      ∙ ap (λ k. drop s.start s.buffer ++ k) (sym same)

  -- What holds of the stream after a read holds of it before the read.
  through :
      (want : ℕ) (s t : BoundedStream R) (r : Result IngestError (Unit {0}) × BoundedStream R)
      → view content t ≡ view content s
      → t.buffer_bytes_max ≡ s.buffer_bytes_max
      → t.consumed_total ≡ s.consumed_total
      → Filling want t r
      → Filling want s r
  through want s t r v m c (inl e) = inl e
  through want s t r v m c (inr (e, f)) = inr (
    e,
    record {
      bounded = f.bounded;
      same_view = f.same_view ∙ v;
      wide = f.wide;
      same_budget = f.same_budget ∙ m;
      same_offset = f.same_offset ∙ c;
    },
  )

  enough-grown :
      (fuel want : ℕ) (s : BoundedStream R) (bs : Text) (r : R)
      → (want ≤ suc fuel + available s) ⊎ (s.at_end ≡ true)
      → (want ≤ fuel + available (grown s bs r)) ⊎ ((grown s bs r).at_end ≡ true)
  unfolding grown compacted available
  enough-grown fuel want s [] r h = inr (ground arith)
  enough-grown fuel want s (c ∷ bs) r (inl h) = inl (
      omega
        (arith, h, length-append (drop s.start s.buffer) (c ∷ bs), length-drop s.start s.buffer))
  enough-grown fuel want s (c ∷ bs) r (inr e) = inr (rw e refl)

  -- Each iteration adds a byte or reaches the end, so the loop ends within its fuel.
  pub fill_loop_lem :
      (fuel want : ℕ) (s : BoundedStream R)
      → (want ≤ fuel + available s) ⊎ (s.at_end ≡ true)
      → want ≤ s.buffer_bytes_max
      → IsBounded content s
      → Filling want s (fill_loop io fuel want s)
  unfolding grown compacted
  fill_loop_lem zero want s h m b = stop zero want s (ground (arith, h)) b
  fill_loop_lem (suc fuel) want s h m b =
      elim (Bool-cases (ltb (available s) want && not s.at_end)) [
        | inr e ↦ stop (suc fuel) want s e b
        | inl e ↦ elim (next_read fuel want s e b m) [
          | inl q ↦ inl q
          | inr (bs, r, q, space, same) ↦
              subst (λ k. Filling want s k) (sym same)
                (through want s (grown s bs r) (fill_loop io fuel want (grown s bs r))
                  (view-grown s bs r b q) refl refl
                  (fill_loop_lem fuel want (grown s bs r) (enough-grown fuel want s bs r h) m
                    (grown-IsBounded s bs r b space q)))
        ]
      ]

  -- A window shows the next bytes of the view and leaves the view as it was.
  pub record IsWindow (want : ℕ) (s : BoundedStream R)
      (r : Result IngestError Text × BoundedStream R) : Type 0 where
    pub shown : r.0 ≡ ok (take want (view content s))
    pub kept_view : view content r.1 ≡ view content s
    pub kept_bounds : IsBounded content r.1
    pub kept_offset : r.1.consumed_total ≡ s.consumed_total
    pub kept_budget : r.1.buffer_bytes_max ≡ s.buffer_bytes_max
    pub resident : (want ≤ available r.1) ⊎ (length (view content s) ≡ available r.1)

  take-view :
      (want : ℕ) (t : BoundedStream R)
      → IsBounded content t
      → (want ≤ available t) ⊎ (t.at_end ≡ true)
      → (take want (drop t.start t.buffer) ≡ take want (view content t))
        × ((want ≤ available t) ⊎ (length (view content t) ≡ available t))
  unfolding available
  take-view want t b (inl h) = (
    sym (
        take-append want (drop t.start t.buffer) (content t.reader)
          (omega (arith, h, length-drop t.start t.buffer))),
    inl h,
  )
  take-view want t b (inr e) =
      let q = b.ended e in
      (
        ap (take want)
            (sym (ap (λ k. drop t.start t.buffer ++ k) q ∙ append_nil (drop t.start t.buffer))),
        inr (
            omega (
              arith,
              length-append (drop t.start t.buffer) (content t.reader),
              length-drop t.start t.buffer,
              ap length q,
            )),
      )

  seen-IsWindow :
      (want : ℕ) (s : BoundedStream R) (r : Result IngestError (Unit {0}) × BoundedStream R)
      → Filling want s r
      → (((seen io want r).0 ≡ err IngestError.io) × Fails io (seen io want r).1)
        ⊎ IsWindow want s (seen io want r)
  seen-IsWindow want s (err e, t) (inl (h, broken)) = inl (cc, broken)
  seen-IsWindow want s (err e, t) (inr (h, f)) = absurd cc
  seen-IsWindow want s (ok u, t) (inl (h, broken)) = absurd cc
  seen-IsWindow want s (ok u, t) (inr (h, f)) =
      let (shown, resident) = take-view want t f.bounded f.wide in
      inr (record {
        shown = ap ok (shown ∙ ap (take want) f.same_view);
        kept_view = f.same_view;
        kept_bounds = f.bounded;
        kept_offset = f.same_offset;
        kept_budget = f.same_budget;
        resident = elim resident [ inl h ↦ inl h | inr h ↦ inr (ap length (sym f.same_view) ∙ h) ];
      })

  -- A window within the stream's budget fails only with `io`, and then the reader at which it
  -- stopped refuses a read of some bytes; else it shows the next bytes of the content, as many as
  -- are wanted unless fewer are left, and nothing of what is still to show is lost or consumed,
  -- whatever the sizes of the reads are: the error for the budget inside the loop is not reached,
  -- and the loop has done its work when its fuel of `want + 1` ends.
  pub window_lem :
      (want : ℕ) (s : BoundedStream R)
      → IsBounded content s
      → want ≤ s.buffer_bytes_max
      → (((window io want s).0 ≡ err IngestError.io) × Fails io (window io want s).1)
        ⊎ IsWindow want s (window io want s)
  unfolding window fill
  window_lem want s b m =
      let inside : ltb s.buffer_bytes_max want ≡ false = ground (arith, m) in
      rw inside (
        seen-IsWindow want s (fill_loop io (want + 1) want s)
          (fill_loop_lem (want + 1) want s (inl (omega arith)) m b))
