-- ===== src/Ingest/Chunks/Windowing/Rules.antt =====
-- When a run of segments of crates/pos-ingest/src/chunk.rs ends, said of the segments themselves, and
-- that the tests of the code on the window are these rules.
use projectos_core.Ingest.Segments.{Segment}
use projectos_core.Ingest.Chunks.{
  params, would_close, window_byte_len, window_is_empty, per_segment, is_per_segment,
  heading_section, any_segment, exceeds_max, closes_after, closes, bytes_target, bytes_max, Window,
  ChunkParams, BoundaryRule,
}
use projectos_core.Common.{
  Bool-cases, ◌⊎◌, ◌≡◌, ◌≤◌, ◌<◌, ◌∷◌, ◌++◌, ◌-◌, ◌*◌, ◌∙◌, ◌||◌, ltb, sym, subst, refl, inr, inl,
  true, false, leb, arith, ap, [], List, ℕ,
}

abbrev pub run_start : List Segment → ℕ
run_start [] = 0
run_start (s ∷ segs) = s.byte_start

abbrev pub run_end : List Segment → ℕ
run_end [] = 0
run_end (s ∷ []) = s.byte_end
run_end (s ∷ (r ∷ segs)) = run_end (r ∷ segs)

abbrev pub run_len : List Segment → ℕ
run_len run = run_end run - run_start run

-- A run takes no more: segments stay alone, or it has the most bytes a chunk may have.
abbrev pub IsFull : ChunkParams → List Segment → Type 0
IsFull params run = (params.boundary ≡ per_segment) ⊎ (params.tokens_max * 4 ≤ run_len run)

-- A segment starts a new run: segments stay alone, or it is under a heading and these are sections,
-- or the run before it has the bytes that are aimed at.
abbrev pub MustStart : ChunkParams → List Segment → Segment → Type 0
MustStart params run s =
    (params.boundary ≡ per_segment)
    ⊎ ((params.boundary ≡ heading_section) × (0 < s.depth))
    ⊎ (params.target_tokens * 4 ≤ run_len run)

pub run_end-snoc : (run : List Segment) (s : Segment) → run_end (run ++ (s ∷ [])) ≡ s.byte_end
run_end-snoc [] s = refl
run_end-snoc (r ∷ []) s = refl
run_end-snoc (r ∷ (q ∷ run)) s = run_end-snoc (q ∷ run) s

full_test :
    (b : BoundaryRule) (most len : ℕ)
    → (is_per_segment b || leb most len) ≡ true
    → (b ≡ per_segment) ⊎ (most ≤ len)
full_test per_segment most len h = inl refl
full_test any_segment most len h = inr (ground arith)
full_test heading_section most len h = inr (ground arith)

not_full_test :
    (b : BoundaryRule) (most len : ℕ)
    → (is_per_segment b || leb most len) ≡ false
    → (b ≡ per_segment) ⊎ (most ≤ len)
    → ⊥
not_full_test per_segment most len h f = cc
not_full_test any_segment most len h (inl e) = cc
not_full_test any_segment most len h (inr f) = ground arith
not_full_test heading_section most len h (inl e) = cc
not_full_test heading_section most len h (inr f) = ground arith

start_test :
    (b : BoundaryRule) (depth len target : ℕ)
    → closes b depth len target ≡ true
    → (b ≡ per_segment) ⊎ ((b ≡ heading_section) × (0 < depth)) ⊎ (target ≤ len)
start_test per_segment depth len target h = inl refl
start_test any_segment depth len target h = inr (inr (ground arith))
start_test heading_section depth len target h = elim (Bool-cases (ltb 0 depth)) [
  | inl e ↦ inr (inl (refl, ground arith))
  | inr e ↦ inr (inr (ground (arith, h, e)))
]

not_start_test :
    (b : BoundaryRule) (depth len target : ℕ)
    → closes b depth len target ≡ false
    → (b ≡ per_segment) ⊎ ((b ≡ heading_section) × (0 < depth)) ⊎ (target ≤ len)
    → ⊥
not_start_test per_segment depth len target h f = cc
not_start_test any_segment depth len target h (inl e) = cc
not_start_test any_segment depth len target h (inr (inl (e, _))) = cc
not_start_test any_segment depth len target h (inr (inr f)) = ground arith
not_start_test heading_section depth len target h (inl e) = cc
not_start_test heading_section depth len target h (inr (inl (_, f))) = ground arith
not_start_test heading_section depth len target h (inr (inr f)) = ground arith

module _ (params : ChunkParams) (run : List Segment) (w : Window) where
  module _ (start : w.byte_start ≡ run_start run) (end : w.byte_end ≡ run_end run) where
    same_len : window_byte_len w ≡ run_len run
    unfolding window_byte_len
    same_len = omega (arith, start, end)

    pub after_sound : closes_after w params ≡ true → IsFull params run
    unfolding closes_after exceeds_max bytes_max
    after_sound h = full_test params.boundary (params.tokens_max * 4) (run_len run) (
        subst (λ n. (is_per_segment params.boundary || leb (params.tokens_max * 4) n) ≡ true)
          same_len h)

    pub after_complete : closes_after w params ≡ false → IsFull params run → ⊥
    unfolding closes_after exceeds_max bytes_max
    after_complete h = not_full_test params.boundary (params.tokens_max * 4) (run_len run) (
        subst (λ n. (is_per_segment params.boundary || leb (params.tokens_max * 4) n) ≡ false)
          same_len h)

    module _ (s : Segment) (filled : window_is_empty w ≡ false) where
      tested :
          would_close w s params
          ≡ closes params.boundary s.depth (run_len run) (params.target_tokens * 4)
      unfolding would_close bytes_target
      tested =
          rw filled (ap (λ n. closes params.boundary s.depth n (params.target_tokens * 4)) same_len)

      pub start_sound : would_close w s params ≡ true → MustStart params run s
      start_sound h =
          start_test params.boundary s.depth (run_len run) (params.target_tokens * 4)
            (sym tested ∙ h)

      pub start_complete : would_close w s params ≡ false → MustStart params run s → ⊥
      start_complete h =
          not_start_test params.boundary s.depth (run_len run) (params.target_tokens * 4)
            (sym tested ∙ h)
