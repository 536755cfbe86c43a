-- ===== src/Ingest/Stream/Advances.antt =====
-- Consuming what a bounded stream of crates/pos-ingest/src/budget.rs shows.
use projectos_core.Common.Slices.{length-drop, drop-length, drop-drop, drop-append, drop}
use projectos_core.Ingest.Stream.Windows.{view, IsBounded}
use projectos_core.Ingest.Stream.{cleared, available, advance, BoundedStream}
use projectos_core.Common.{
  ◌≤◌, ◌≡◌, ◌∙◌, ◌==◌, ◌+◌, ◌++◌, sym, subst, refl, min, length, inr, inl, arith, ap, Text,
  Bool-cases, ==_iff, ℕ,
}

-- The stream after it has dropped `count` bytes of what it has still to show.
pub record IsAdvanced {R : Type 0} (content : R → Text) (count : ℕ) (s t : BoundedStream R)
    : Type 0 where
  pub dropped : view content t ≡ drop count (view content s)
  pub still_bounded : IsBounded content t
  pub offset : t.consumed_total ≡ s.consumed_total + count
  pub same_max : t.buffer_bytes_max ≡ s.buffer_bytes_max

module _ {R : Type 0} (content : R → Text) where
  cleared_lem :
      (t : BoundedStream R)
      → IsBounded content t
      → (view content (cleared t) ≡ view content t)
        × IsBounded content (cleared t)
        × ((cleared t).consumed_total ≡ t.consumed_total)
        × ((cleared t).buffer_bytes_max ≡ t.buffer_bytes_max)
  cleared_lem t b = elim (Bool-cases (t.start == length t.buffer)) [
    | inl e ↦
        let q : t.start ≡ length t.buffer = (==_iff t.start (length t.buffer)).0 e in
        rw e (
          ap (λ k. k ++ content t.reader)
              (sym (ap (λ k. drop k t.buffer) q ∙ drop-length t.buffer)),
          record { start_inside = omega arith; within_budget = omega arith; ended = b.ended },
          refl,
          refl,
        )
    | inr e ↦ rw e (refl, b, refl, refl)
  ]

  moved : ℕ → BoundedStream R → BoundedStream R
  moved count s = record s { start = s.start + count; consumed_total = s.consumed_total + count }

  advance_moved :
      (count : ℕ) (s : BoundedStream R)
      → count ≤ available s
      → advance count s ≡ cleared (moved count s)
  unfolding advance moved
  advance_moved count s h =
      let e : min count (available s) ≡ count = omega (arith, h) in
      ap (λ k. cleared (record s { start = s.start + k; consumed_total = s.consumed_total + k })) e

  -- Advancing over visible bytes drops exactly them from what the stream has still to show, and adds
  -- them to its offset.
  pub advance-IsAdvanced :
      (count : ℕ) (s : BoundedStream R)
      → IsBounded content s
      → count ≤ available s
      → IsAdvanced content count s (advance count s)
  unfolding moved available
  advance-IsAdvanced count s b h =
      let inside : IsBounded content (moved count s) = record {
        start_inside = omega (arith, h, b.start_inside);
        within_budget = b.within_budget;
        ended = b.ended;
      } in
      let (v, kept, c, m) = cleared_lem (moved count s) inside in
      subst (IsAdvanced content count s) (sym (advance_moved count s h)) (record {
        dropped =
            v
            ∙ ap (λ k. k ++ content s.reader) (drop-drop s.start count s.buffer)
            ∙ sym (
                drop-append count (drop s.start s.buffer) (content s.reader)
                  (omega (arith, h, length-drop s.start s.buffer)));
        still_bounded = kept;
        offset = c;
        same_max = m;
      })
