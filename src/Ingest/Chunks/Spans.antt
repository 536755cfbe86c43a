-- ===== src/Ingest/Chunks/Spans.antt =====
-- Segments that lie in a text one after another make windows that do: crates/pos-ingest/src/chunk.rs.
use projectos_core.Ingest.Chunks.Loop.Refines.{windows_from, closing, closes_filled}
use projectos_core.Ingest.Chunks.{
  would_close, window_push, window_is_empty, window_default, closes_after, Window, ChunkParams,
}
use mathlib.Core.Bool.{true≢false}
use projectos_core.Ingest.Segments.{Segment}
use projectos_core.Common.{
  ◌⊎◌, ◌≤◌, ◌≡◌, ◌∷◌, ◌∙◌, ◌==◌, true, sym, refl, inr, inl, false, arith, [], List, Bool-cases, ℕ,
}

-- Segments, and windows, that follow one another from an offset on, inside a text of `limit` bytes.
abbrev pub Spans : (limit here : ℕ) → List Segment → Type 0
Spans limit here [] = Unit
Spans limit here (s ∷ segs) =
    (here ≤ s.byte_start)
    × (s.byte_start ≤ s.byte_end)
    × (s.byte_end ≤ limit)
    × Spans limit s.byte_end segs

abbrev pub Follow : (limit here : ℕ) → List Window → Type 0
Follow limit here [] = Unit
Follow limit here (w ∷ ws) =
    (here ≤ w.byte_start)
    × (w.byte_start ≤ w.byte_end)
    × (w.byte_end ≤ limit)
    × Follow limit w.byte_end ws

-- The window so far lies between two offsets, if it has a segment.
abbrev pub Between : (here position : ℕ) → Window → Type 0
Between here position w =
    (window_is_empty w ≡ true)
    ⊎ ((here ≤ w.byte_start) × (w.byte_start ≤ w.byte_end) × (w.byte_end ≤ position))

push-Between :
    (here position : ℕ) (w : Window) (s : Segment)
    → here ≤ position
    → Between here position w
    → position ≤ s.byte_start
    → s.byte_start ≤ s.byte_end
    → (here ≤ (window_push s w).byte_start)
      × ((window_push s w).byte_start ≤ s.byte_end)
      × ((window_push s w).byte_end ≡ s.byte_end)
unfolding window_push
push-Between here position w s a b c d = elim (Bool-cases (window_is_empty w)) [
  | inl e ↦ rw e (omega (arith, a, c), d, refl)
  | inr e ↦ elim b [
    | inl f ↦ absurd (true≢false (sym f ∙ e))
    | inr (l, m, h) ↦ rw e (l, omega (arith, m, h, c, d), refl)
  ]
]

filled-Between :
    (here position : ℕ) (w : Window)
    → window_is_empty w ≡ false
    → Between here position w
    → (here ≤ w.byte_start) × (w.byte_start ≤ w.byte_end) × (w.byte_end ≤ position)
filled-Between here position w e (inl f) = absurd (true≢false (sym f ∙ e))
filled-Between here position w e (inr b) = b

module _ (params : ChunkParams) (limit : ℕ) where
  close_after_push :
      (segs : List Segment) (here : ℕ) (v : Window) (s : Segment)
      → (here ≤ v.byte_start) × (v.byte_start ≤ s.byte_end) × (v.byte_end ≡ s.byte_end)
      → s.byte_end ≤ limit
      → ((here position : ℕ) (w : Window)
          → here ≤ position
          → position ≤ limit
          → Between here position w
          → Spans limit position segs
          → Follow limit here (windows_from params segs w))
      → Spans limit s.byte_end segs
      → Follow limit here (closing (closes_after v params) v (windows_from params segs))
  unfolding window_is_empty
  close_after_push segs here v s (l, m, q) h later spans =
      elim (Bool-cases (closes_after v params)) [
        | inl e ↦ rw e (
          l,
          omega (arith, m, q),
          omega (arith, q, h),
          later v.byte_end s.byte_end window_default (omega (arith, q)) h (inl refl) spans,
        )
        | inr e ↦ rw e (
            later here s.byte_end v (omega (arith, l, m)) h
              (inr (l, omega (arith, m, q), omega (arith, q))) spans)
      ]

  -- The windows of segments that follow one another follow one another.
  pub windows-Follow :
      (segs : List Segment) (here position : ℕ) (w : Window)
      → here ≤ position
      → position ≤ limit
      → Between here position w
      → Spans limit position segs
      → Follow limit here (windows_from params segs w)
  unfolding windows_from window_is_empty
  windows-Follow [] here position w a p b spans = elim (Bool-cases (w.segment_count == 0)) [
    | inl e ↦ rw e tt
    | inr e ↦
        let (l, m, h) = filled-Between here position w e b in rw e (l, m, omega (arith, h, p), tt)
  ]
  windows-Follow (s ∷ segs) here position w a p b (c, d, h, spans) =
      elim (Bool-cases (would_close w s params)) [
        | inl e ↦
            let (l, m, k) = filled-Between here position w (closes_filled params w s e) b in
            rw e (
              l,
              m,
              omega (arith, k, p),
              close_after_push segs w.byte_end (window_push s window_default) s
                  (push-Between w.byte_end position window_default s k (inl refl) c d) h
                  (windows-Follow segs) spans,
            )
        | inr e ↦ rw e (
            close_after_push segs here (window_push s w) s (push-Between here position w s a b c d)
              h (windows-Follow segs) spans)
      ]
