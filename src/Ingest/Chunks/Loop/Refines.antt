-- ===== src/Ingest/Chunks/Loop/Refines.antt =====
-- The loop of `chunk_evidence` in crates/pos-ingest/src/chunk.rs emits the windows of a fold over the
-- segments, in order, and stops at the first error.
use projectos_core.Ingest.Chunks.Emit.{emit_window}
use projectos_core.Ingest.Segments.Reading.{next_segment-Shows, Shows}
use projectos_core.Ingest.Stream.Windows.{Reads, Fails}
use projectos_core.Ingest.Segments.{next_segment, SegmentReader, Segment}
use projectos_core.Common.Result.{ok, err, Result}
use projectos_core.Ingest.Stream.{Reader}
use projectos_core.Ingest.{IngestError}
use projectos_core.Ingest.Chunks.Loop.{
  chunk_loop, chunk_all, after_segment, join, emit, close_before, close_after, Chunking,
}
use projectos_core.Ingest.Chunks.{
  and_then, would_close, window_push, window_is_empty, window_default, params, closes_after, Window,
  ChunkParams,
}
use mathlib.Core.Bool.{true≢false}
use projectos_core.Common.{
  ◌<◌, zero, suc, length, Text, some, none, ap, Option, ◌⊎◌, ◌≡◌, ◌∷◌, ◌∙◌, ◌==◌, true, sym, subst,
  refl, inr, inl, if◌then◌else◌, false, arith, [], List, Bool-cases, Bool, ℕ,
}

-- What remains after a window is closed or kept.
abbrev pub closing : Bool → Window → (Window → List Window) → List Window
closing true w rest = w ∷ rest window_default
closing false w rest = rest w

-- The windows of the segments, from the window so far.
unfoldable pub windows_from : ChunkParams → List Segment → Window → List Window
windows_from params [] w = if window_is_empty w then [] else w ∷ []
windows_from params (s ∷ segs) w = closing (would_close w s params) w (λ v.
    closing (closes_after (window_push s v) params) (window_push s v) (windows_from params segs))

unfoldable pub emit_all :
    {P : Type 0}
    → (Window → P → Result IngestError (Unit {0}) × P)
    → List Window
    → P
    → Result IngestError (Unit {0}) × P
emit_all emit_window [] p = (ok tt, p)
emit_all emit_window (w ∷ ws) p = and_then (emit_window w p) (emit_all emit_window ws)

and_then_assoc {ℓ} :
    {S : Type ℓ} (a : Result IngestError (Unit {0}) × S)
    (b c : S → Result IngestError (Unit {0}) × S)
    → and_then (and_then a b) c ≡ and_then a (λ s. and_then (b s) c)
and_then_assoc (ok _, s) b c = refl
and_then_assoc (err e, s) b c = refl

pub push_filled : (w : Window) (s : Segment) → window_is_empty (window_push s w) ≡ false
unfolding window_push window_is_empty
push_filled w s = elim (Bool-cases (w.segment_count == 0)) [
  | inl e ↦ rw e (ground arith)
  | inr e ↦ rw e (ground arith)
]

pub closes_filled :
    (params : ChunkParams) (w : Window) (s : Segment)
    → would_close w s params ≡ true
    → window_is_empty w ≡ false
unfolding would_close
closes_filled params w s e = elim (Bool-cases (window_is_empty w)) [
  | inl none_yet ↦ absurd (true≢false (sym e ∙ rw none_yet refl))
  | inr filled ↦ filled
]

module _ {R P : Type 0} (file : Reader R) (params : ChunkParams)
    (emit_window : Window → P → Result IngestError (Unit {0}) × P) where
  -- The loop's result is the fold's, unless the file of the segments refuses a read.
  abbrev pub Agrees :
      Result IngestError (Unit {0}) × Chunking file params emit_window
      → Result IngestError (Unit {0}) × P
      → Type 0
  Agrees x r =
      ((x.0 ≡ err IngestError.io) × Fails file x.1.segments.stream)
      ⊎ ((x.0 ≡ r.0) × (x.1.progress ≡ r.1))

  emit_nonempty :
      (c : Chunking file params emit_window)
      → window_is_empty c.window ≡ false
      → let r = emit_window c.window c.progress in
        emit file params emit_window c ≡ (r.0, record c { window = window_default; progress = r.1 })
  unfolding emit
  emit_nonempty c e = rw e refl

  nothing_left :
      (c : Chunking file params emit_window)
      → window_is_empty c.window ≡ true
      → emit file params emit_window c ≡ (ok tt, c)
  unfolding emit
  nothing_left c e = rw e refl

  ended :
      (c : Chunking file params emit_window) (r : Result IngestError (Unit {0}) × P)
      → Agrees
          (r.0, record c { window = window_default; progress = r.1 })
          (and_then r (λ p. (ok tt, p)))
  ended c (ok _, p) = inr (refl, refl)
  ended c (err e, p) = inr (refl, refl)

  after_emit :
      (c : Chunking file params emit_window) (w : Window) (r : Result IngestError (Unit {0}) × P)
      (k : Chunking file params emit_window
        → Result IngestError (Unit {0}) × Chunking file params emit_window)
      (rest : P → Result IngestError (Unit {0}) × P)
      → ((p : P) → Agrees (k (record c { window = w; progress = p })) (rest p))
      → Agrees (and_then (r.0, record c { window = w; progress = r.1 }) k) (and_then r rest)
  after_emit c w (ok _, p) k rest h = h p
  after_emit c w (err e, p) k rest h = inr (refl, refl)

  closing_lem :
      (close : Bool) (c : Chunking file params emit_window)
      (k : Chunking file params emit_window
        → Result IngestError (Unit {0}) × Chunking file params emit_window)
      (rest : Window → List Window)
      → (close ≡ true → window_is_empty c.window ≡ false)
      → ((w : Window) (p : P)
          → Agrees (k (record c { window = w; progress = p })) (emit_all emit_window (rest w) p))
      → Agrees
          (and_then (if close then emit file params emit_window c else (ok tt, c)) k)
          (emit_all emit_window (closing close c.window rest) c.progress)
  unfolding emit_all
  closing_lem true c k rest filled h = rw (emit_nonempty c (filled refl)) (
      after_emit c window_default (emit_window c.window c.progress) k
        (emit_all emit_window (rest window_default)) (λ p. h window_default p))
  closing_lem false c k rest filled h = h c.window c.progress

  join_lem :
      (s : Segment) (segs : List Segment) (c : Chunking file params emit_window)
      (next : Chunking file params emit_window
        → Result IngestError (Unit {0}) × Chunking file params emit_window)
      → ((w : Window) (p : P)
          → Agrees
              (next (record c { window = w; progress = p }))
              (emit_all emit_window (windows_from params segs w) p))
      → Agrees
          (and_then (join file params emit_window s c) next)
          (emit_all emit_window (windows_from params (s ∷ segs) c.window) c.progress)
  unfolding join close_before close_after windows_from
  join_lem s segs c next h =
      subst
        (λ x. Agrees x (emit_all emit_window (windows_from params (s ∷ segs) c.window) c.progress))
        (sym (and_then_assoc (close_before file params emit_window s c) _ next))
        (closing_lem (would_close c.window s params) c _ _ (closes_filled params c.window s) (λ w p.
          closing_lem (closes_after (window_push s w) params)
            (record c { window = window_push s w; progress = p }) next (windows_from params segs)
            (λ _. push_filled w s) h))

  last_emit :
      (c : Chunking file params emit_window)
      → Agrees
          (emit file params emit_window c)
          (emit_all emit_window (windows_from params [] c.window) c.progress)
  unfolding windows_from emit_all
  last_emit c = elim (Bool-cases (window_is_empty c.window)) [
    | inl e ↦ rw (nothing_left c e, e) (inr (refl, refl))
    | inr e ↦ rw (emit_nonempty c e, e) (ended c (emit_window c.window c.progress))
  ]

  step_failed :
      (fuel : ℕ) (c : Chunking file params emit_window)
      (p : Result IngestError (Option Segment) × SegmentReader R)
      (r : Result IngestError (Unit {0}) × P)
      → p.0 ≡ err IngestError.io
      → Fails file p.1.stream
      → Agrees
          (and_then
            (after_segment file params emit_window (chunk_loop file params emit_window fuel) p c)
            (emit file params emit_window))
          r
  step_failed fuel c (err e, s) r q broken = inl (cc, broken)
  step_failed fuel c (ok none, s) r q broken = absurd cc
  step_failed fuel c (ok (some x), s) r q broken = absurd cc

  step_ended :
      (fuel : ℕ) (c : Chunking file params emit_window)
      (p : Result IngestError (Option Segment) × SegmentReader R)
      → p.0 ≡ ok none
      → Agrees
          (and_then
            (after_segment file params emit_window (chunk_loop file params emit_window fuel) p c)
            (emit file params emit_window))
          (emit_all emit_window (windows_from params [] c.window) c.progress)
  unfolding windows_from emit_all
  step_ended fuel c (err e, s) q = absurd cc
  step_ended fuel c (ok (some x), s) q = absurd cc
  step_ended fuel c (ok none, s) q = last_emit (record c { segments = s })

  step_joined :
      (fuel : ℕ) (c : Chunking file params emit_window)
      (p : Result IngestError (Option Segment) × SegmentReader R) (s : Segment)
      → p.0 ≡ ok (some s)
      → and_then
          (after_segment file params emit_window (chunk_loop file params emit_window fuel) p c)
          (emit file params emit_window)
        ≡ and_then
            (join file params emit_window s (record c { segments = p.1 }))
            (chunk_all file params emit_window fuel)
  unfolding chunk_all
  step_joined fuel c (err e, r) s q = absurd cc
  step_joined fuel c (ok none, r) s q = absurd cc
  step_joined fuel c (ok (some x), r) s q =
      and_then_assoc (join file params emit_window x (record c { segments = r })) _ _
      ∙ ap
          (λ k.
            and_then (join file params emit_window k (record c { segments = r }))
              (chunk_all file params emit_window fuel))
          cc

  -- Over an index that holds the records of `segs`, and with fuel for each of them, the loop with its
  -- last emit either fails by the file, or gives what emitting the windows of the fold gives, one
  -- after the other up to the first that fails.
  pub chunk_all_lem :
      (content : R → Text) (reads : Reads file content) (segs : List Segment) (fuel : ℕ)
      (c : Chunking file params emit_window)
      → Shows file content reads c.segments segs
      → length segs < fuel
      → Agrees
          (chunk_all file params emit_window fuel c)
          (emit_all emit_window (windows_from params segs c.window) c.progress)
  unfolding chunk_all chunk_loop
  chunk_all_lem content reads segs zero c h m = absurd (omega (arith, m))
  chunk_all_lem content reads [] (suc fuel) c h m =
      elim (next_segment-Shows file content reads [] c.segments h) [
        | inl (q, broken) ↦ step_failed fuel c (next_segment file c.segments) _ q broken
        | inr (q, _) ↦ step_ended fuel c (next_segment file c.segments) q
      ]
  chunk_all_lem content reads (s ∷ segs) (suc fuel) c h m =
      elim (next_segment-Shows file content reads (s ∷ segs) c.segments h) [
        | inl (q, broken) ↦ step_failed fuel c (next_segment file c.segments) _ q broken
        | inr (q, shows) ↦ rw (step_joined fuel c (next_segment file c.segments) s q) (
            join_lem s segs (record c { segments = (next_segment file c.segments).1 })
              (chunk_all file params emit_window fuel)
              (λ w p.
                chunk_all_lem content reads segs fuel
                  (record c {
                    segments = (next_segment file c.segments).1;
                    window = w;
                    progress = p;
                  })
                  shows (omega (arith, m))))
      ]
