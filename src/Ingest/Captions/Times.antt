-- ===== src/Ingest/Captions/Times.antt =====
-- The times of a cue in crates/pos-ingest/src/captions.rs: as parsed, and after `order`.
use mathlib.Core.Option.{some_inj}
use projectos_core.Ingest.Captions.{
  with_end, timed, split_at, second_timed, parse_lines, order, cue_of, TextOps, Cue,
}
use projectos_core.Common.{
  is_some, bytes, ◌≤◌, ◌≡◌, ◌∷◌, ◌∙◌, ◌==◌, ◌<◌, sym, subst, some, refl, none, max, ltb, length,
  leb, inr, inl, arith, [], Text, Option, List, Bool-cases, ℕ,
}

pub order_lem :
    (cue made : Cue) (committed : ℕ)
    → cue.start_ms ≤ cue.end_ms
    → order cue committed ≡ some made
    → (committed ≤ made.start_ms) × (made.start_ms ≤ made.end_ms) × (committed < made.end_ms)
unfolding order
order_lem cue made committed h q = elim (Bool-cases (leb cue.end_ms committed)) [
  | inl e ↦ let never : ◌≡◌ {A = Option Cue} none (some made) = sym (rw e refl) ∙ q in absurd cc
  | inr e ↦
      let late : committed < cue.end_ms = ground (arith, e) in
      let clamped : Cue = record {
        start_ms = max cue.start_ms committed;
        end_ms = cue.end_ms;
        text = cue.text;
      } in
      let k : ◌≡◌ {A = Option Cue} (some clamped) (some made) = sym (rw e refl) ∙ q in
      subst (λ m. (committed ≤ m.start_ms) × (m.start_ms ≤ m.end_ms) × (committed < m.end_ms))
        (some_inj.0 k) (omega arith, omega (arith, late, h), late)
]

cue_of_lem :
    (ops : TextOps) (parse_timestamp : Text → Option ℕ) (text : Text) (a b : Option ℕ) (cue : Cue)
    → cue_of ops parse_timestamp text a b ≡ some cue
    → cue.start_ms ≤ cue.end_ms
unfolding cue_of
cue_of_lem ops parse_timestamp text none b cue q = absurd cc
cue_of_lem ops parse_timestamp text (some a) none cue q = absurd cc
cue_of_lem ops parse_timestamp text (some a) (some b) cue q = elim (Bool-cases (ltb b a)) [
  | inl e ↦ let never : ◌≡◌ {A = Option Cue} none (some cue) = sym (rw e refl) ∙ q in absurd cc
  | inr e ↦ elim (Bool-cases (length text == 0)) [
    | inl f ↦
        let never : ◌≡◌ {A = Option Cue} none (some cue) = sym (rw (e, f) refl) ∙ q in absurd cc
    | inr f ↦
        let made : Cue = record { start_ms = a; end_ms = b; text = text } in
        let k : ◌≡◌ {A = Option Cue} (some made) (some cue) = sym (rw (e, f) refl) ∙ q in
        subst (λ m. m.start_ms ≤ m.end_ms) (some_inj.0 k) (ground (arith, e))
  ]
]

with_end_lem :
    (ops : TextOps) (parse_timestamp : Text → Option ℕ) (start_text : Text) (end_text : Option Text)
    (rest : List Text) (cue : Cue)
    → with_end ops parse_timestamp start_text end_text rest ≡ some cue
    → cue.start_ms ≤ cue.end_ms
with_end_lem ops parse_timestamp start_text none rest cue q = absurd cc
with_end_lem ops parse_timestamp start_text (some end_text) rest cue q =
    cue_of_lem ops parse_timestamp _ _ _ cue q

timed_lem :
    (ops : TextOps) (parse_timestamp : Text → Option ℕ) (parts : Option (Text × Text))
    (rest : List Text) (cue : Cue)
    → timed ops parse_timestamp parts rest ≡ some cue
    → cue.start_ms ≤ cue.end_ms
timed_lem ops parse_timestamp none rest cue q = absurd cc
timed_lem ops parse_timestamp (some (start_text, settings)) rest cue q =
    with_end_lem ops parse_timestamp start_text _ rest cue q

second_lem :
    (ops : TextOps) (parse_timestamp : Text → Option ℕ) (rest : List Text) (cue : Cue)
    → second_timed ops parse_timestamp rest ≡ some cue
    → cue.start_ms ≤ cue.end_ms
second_lem ops parse_timestamp [] cue q = absurd cc
second_lem ops parse_timestamp (second ∷ rest) cue q = timed_lem ops parse_timestamp _ rest cue q

pub parse_lines_lem :
    (ops : TextOps) (parse_timestamp : Text → Option ℕ) (lines : List Text) (cue : Cue)
    → parse_lines ops parse_timestamp lines ≡ some cue
    → cue.start_ms ≤ cue.end_ms
unfolding parse_lines
parse_lines_lem ops parse_timestamp [] cue q = absurd cc
parse_lines_lem ops parse_timestamp (first ∷ rest) cue q =
    elim (Bool-cases (is_some (split_at (bytes "-->") first))) [
      | inl e ↦
          timed_lem ops parse_timestamp (split_at (bytes "-->") first) rest cue
            (sym (rw e refl) ∙ q)
      | inr e ↦ second_lem ops parse_timestamp rest cue (sym (rw e refl) ∙ q)
    ]
