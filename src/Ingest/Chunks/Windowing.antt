-- ===== src/Ingest/Chunks/Windowing.antt =====
-- The windows of crates/pos-ingest/src/chunk.rs partition the segments: each one covers a run of
-- segments that packs until the rules close it.
pub mod Rules
use projectos_core.Ingest.Chunks.Emit.{emit_window}
use projectos_core.Ingest.Chunks.Windowing.Rules.{
  IsFull, MustStart, run_start, run_end, run_end-snoc, after_sound, after_complete, start_sound,
  start_complete,
}
use projectos_core.Ingest.Chunks.Loop.Refines.{
  push_filled, windows_from, closing, chunk_all_lem, emit_all, Agrees,
}
use projectos_core.Ingest.Chunks.Loop.{Chunking, chunk_all}
use projectos_core.Ingest.Segments.Reading.{Shows}
use projectos_core.Ingest.Stream.{Reader}
use projectos_core.Ingest.Stream.Windows.{Reads}
use projectos_core.Ingest.{IngestError}
use projectos_core.Common.Result.{Result}
use projectos_core.Common.Slices.{append_assoc, append_nil}
use projectos_core.Ingest.Segments.{Segment}
use projectos_core.Ingest.Chunks.{
  would_close, window_push, window_is_empty, window_default, params, closes_after, Window,
  ChunkParams,
}
use projectos_core.Common.{
  ◌<◌, ℕ, length, Text, ◌∙◌, sym, ◌⊎◌, ◌≡◌, ◌∷◌, ◌++◌, subst, refl, inr, inl, false, ap, [], List,
  Bool-cases,
}

-- A run of segments and its window: every segment after the first joined a run that was not full,
-- and did not have to start one.
pub data IsPacked (params : ChunkParams) : List Segment → Window → Type 0 where
  alone : (s : Segment) → IsPacked params (s ∷ []) (window_push s window_default)
  joined :
      {run : List Segment} {w : Window} (s : Segment)
      → IsPacked params run w
      → (IsFull params run → ⊥)
      → (MustStart params run s → ⊥)
      → IsPacked params (run ++ (s ∷ [])) (window_push s w)

abbrev pub concat : List (List Segment) → List Segment
concat [] = []
concat (run ∷ runs) = run ++ concat runs

-- A run ends only because it is full, or the next segment must start one, or no segment is left.
abbrev pub EndsRightly : ChunkParams → (run rest : List Segment) → Type 0
EndsRightly params run [] = Unit
EndsRightly params run (s ∷ segs) = IsFull params run ⊎ MustStart params run s

abbrev pub AllPacked : ChunkParams → List (List Segment) → List Window → Type 0
AllPacked params [] [] = Unit
AllPacked params (run ∷ runs) (w ∷ ws) =
    IsPacked params run w × EndsRightly params run (concat runs) × AllPacked params runs ws
AllPacked params [] (w ∷ ws) = ⊥
AllPacked params (run ∷ runs) [] = ⊥

-- The windows cover the segments, run by run and in order.
abbrev pub Covers : ChunkParams → List Segment → List Window → Type 0
Covers params segs ws =
    (runs : List (List Segment)) × (concat runs ≡ segs) × AllPacked params runs ws

-- The window so far, with the run that it covers.
abbrev pub IsPending : ChunkParams → List Segment → Window → Type 0
IsPending params run w =
    ((run ≡ []) × (w ≡ window_default)) ⊎ (IsPacked params run w × (IsFull params run → ⊥))

cover_more :
    {params : ChunkParams} {run segs : List Segment} {w : Window} {ws : List Window}
    → IsPacked params run w
    → EndsRightly params run segs
    → Covers params segs ws
    → Covers params (run ++ segs) (w ∷ ws)
cover_more {params} {run = run} packed ends (runs, same, all) = (
  run ∷ runs,
  ap (λ k. run ++ k) same,
  (packed, subst (EndsRightly params run) (sym same) ends, all),
)

ends_full :
    (params : ChunkParams) (run segs : List Segment)
    → IsFull params run
    → EndsRightly params run segs
ends_full params run [] f = tt
ends_full params run (s ∷ segs) f = inl f

module _ (params : ChunkParams) where
  packed_filled :
      {run : List Segment} {w : Window} → IsPacked params run w → window_is_empty w ≡ false
  packed_filled (alone s) = push_filled window_default s
  packed_filled (joined {w = w} s p _ _) = push_filled w s

  pushed_range :
      (s : Segment) (w : Window)
      → window_is_empty w ≡ false
      → ((window_push s w).byte_start ≡ w.byte_start) × ((window_push s w).byte_end ≡ s.byte_end)
  unfolding window_push
  pushed_range s w filled = rw filled (refl, refl)

  fresh_range :
      (s : Segment)
      → ((window_push s window_default).byte_start ≡ s.byte_start)
        × ((window_push s window_default).byte_end ≡ s.byte_end)
  unfolding window_push window_is_empty
  fresh_range s = (refl, refl)

  packed_start :
      {run : List Segment} {w : Window}
      → IsPacked params run w
      → (rest : List Segment) → w.byte_start ≡ run_start (run ++ rest)
  packed_start (alone s) rest = (fresh_range s).0
  packed_start (joined {run = run} {w = w} s p _ _) rest =
      (pushed_range s w (packed_filled p)).0
      ∙ packed_start p (s ∷ rest)
      ∙ ap run_start (sym (append_assoc run (s ∷ []) rest))

  packed_end : {run : List Segment} {w : Window} → IsPacked params run w → w.byte_end ≡ run_end run
  packed_end (alone s) = (fresh_range s).1
  packed_end (joined {run = run} {w = w} s p _ _) =
      (pushed_range s w (packed_filled p)).1 ∙ sym (run_end-snoc run s)

  -- A run's window goes from the run's start to its end.
  packed_range :
      {run : List Segment} {w : Window}
      → IsPacked params run w
      → (w.byte_start ≡ run_start run) × (w.byte_end ≡ run_end run)
  packed_range {run} packed =
      (packed_start packed [] ∙ ap run_start (append_nil run), packed_end packed)

  closed_after :
      (run segs : List Segment) (w : Window)
      → IsPacked params run w
      → ((run' : List Segment) (w' : Window)
          → IsPending params run' w'
          → Covers params (run' ++ segs) (windows_from params segs w'))
      → Covers params (run ++ segs) (closing (closes_after w params) w (windows_from params segs))
  closed_after run segs w packed later =
      let (start, end) = packed_range packed in
      elim (Bool-cases (closes_after w params)) [
        | inl e ↦ rw e (
            cover_more packed (ends_full params run segs (after_sound params run w start end e))
              (later [] window_default (inl (refl, refl))))
        | inr e ↦ rw e (later run w (inr (packed, after_complete params run w start end e)))
      ]

  partition_from :
      (segs run : List Segment) (w : Window)
      → IsPending params run w
      → Covers params (run ++ segs) (windows_from params segs w)
  unfolding windows_from would_close window_is_empty
  partition_from [] run w (inl (e, q)) =
      subst (λ k. Covers params (k ++ []) (windows_from params [] w)) (sym e)
        (subst (λ v. Covers params [] (windows_from params [] v)) (sym q) ([], refl, tt))
  partition_from [] run w (inr (packed, _)) =
      rw (packed_filled packed) (cover_more packed tt ([], refl, tt))
  partition_from (s ∷ segs) run w (inl (e, q)) =
      subst (λ k. Covers params (k ++ (s ∷ segs)) (windows_from params (s ∷ segs) w)) (sym e)
        (subst (λ v. Covers params (s ∷ segs) (windows_from params (s ∷ segs) v)) (sym q)
          (closed_after (s ∷ []) segs (window_push s window_default) (alone s)
            (partition_from segs)))
  partition_from (s ∷ segs) run w (inr (packed, still)) =
      let (start, end) = packed_range packed in
      let filled = packed_filled packed in
      elim (Bool-cases (would_close w s params)) [
        | inl e ↦ rw e (
            cover_more packed (inr (start_sound params run w start end s filled e)) (
              closed_after (s ∷ []) segs (window_push s window_default) (alone s)
                (partition_from segs)))
        | inr e ↦ rw e (
            subst
              (λ k. Covers params k (
                closing (closes_after (window_push s w) params) (window_push s w)
                  (windows_from params segs)))
              (append_assoc run (s ∷ []) segs)
              (closed_after (run ++ (s ∷ [])) segs (window_push s w)
                (joined s packed still (start_complete params run w start end s filled e))
                (partition_from segs)))
      ]

  -- The loop over an index that shows a sequence of segments, with its last emit, from an empty
  -- window and with fuel for each segment: unless the index's file refuses a read, it emits windows, one
  -- after the other up to the first that fails, that cover the segments. These fall into consecutive
  -- runs, one to a window, and each run packs as far as the rules allow: no segment joins a run that
  -- is full or that it must not join, and a run ends only because it is full, the next segment must
  -- start one, or none is left.
  pub chunk_all-Covers :
      {R P : Type 0} (file : Reader R) (content : R → Text) (reads : Reads file content)
      (emit_window : Window → P → Result IngestError (Unit {0}) × P) (segs : List Segment)
      (fuel : ℕ) (c : Chunking file params emit_window)
      → Shows file content reads c.segments segs
      → c.window ≡ window_default
      → length segs < fuel
      → (ws : List Window) × Covers params segs ws
        × Agrees file params emit_window
            (chunk_all file params emit_window fuel c)
            (emit_all emit_window ws c.progress)
  chunk_all-Covers file content reads emit_window segs fuel c shown fresh enough = (
    windows_from params segs c.window,
    partition_from segs [] c.window (inl (refl, fresh)),
    chunk_all_lem file params emit_window content reads segs fuel c shown enough,
  )
