-- ===== src/Common/Splits.antt =====
-- The string operations of the standard library that take a text apart, over its bytes.
use Prim.Native.Nat.{ℕ}
use mathlib.Core.Path.{◌≡◌, refl, sym, ap, ◌∙◌, subst}
use mathlib.Core.Logic.{inl, inr}
use mathlib.Core.Bool.{Bool, true, false, not, ◌&&◌}
use mathlib.Core.Option.{Option, none, some, map}
use mathlib.Core.List.{List, [], ◌∷◌, ◌++◌}
use native.Mathlib.Omega.{arith}
use projectos_core.Common.Tests.{◌==◌, if◌then◌else◌, ==_iff, ==_self, Bool-cases, Option-cases}

abbrev pub strip_prefix : (prefix t : List ℕ) → Option (List ℕ)
strip_prefix [] t = some t
strip_prefix (p ∷ prefix) [] = none
strip_prefix (p ∷ prefix) (c ∷ t) = if c == p then strip_prefix prefix t else none

abbrev pub before : ℕ → Option (List ℕ × List ℕ) → Option (List ℕ × List ℕ)
before c none = none
before c (some (a, b)) = some (c ∷ a, b)

abbrev pub split_once : (separator : ℕ) → List ℕ → Option (List ℕ × List ℕ)
split_once separator [] = none
split_once separator (c ∷ t) =
    let rest = split_once separator t in if c == separator then some ([], t) else before c rest

abbrev pub last_split :
    (separator c : ℕ) → List ℕ → Option (List ℕ × List ℕ) → Option (List ℕ × List ℕ)
last_split separator c t (some (a, b)) = some (c ∷ a, b)
last_split separator c t none = if c == separator then some ([], t) else none

abbrev pub rsplit_once : (separator : ℕ) → List ℕ → Option (List ℕ × List ℕ)
rsplit_once separator [] = none
rsplit_once separator (c ∷ t) = last_split separator c t (rsplit_once separator t)

abbrev pub all_are : (ℕ → Bool) → List ℕ → Bool
all_are test [] = true
all_are test (c ∷ t) = test c && all_are test t

pub strip_prefix_sound : (prefix t r : List ℕ) → strip_prefix prefix t ≡ some r → t ≡ prefix ++ r
strip_prefix_sound [] t r q = cc
strip_prefix_sound (p ∷ prefix) [] r q = absurd cc
strip_prefix_sound (p ∷ prefix) (c ∷ t) r q = elim (Bool-cases (c == p)) [
  | inl e ↦
      let same : c ≡ p = (==_iff c p).0 e in
      let rest = strip_prefix_sound prefix t r (sym (rw e refl) ∙ q) in cc
  | inr e ↦ let never : none ≡ some r = sym (rw e refl) ∙ q in absurd cc
]

pub strip_prefix_append : (prefix r : List ℕ) → strip_prefix prefix (prefix ++ r) ≡ some r
strip_prefix_append [] r = refl
strip_prefix_append (p ∷ prefix) r = rw (==_self p) (strip_prefix_append prefix r)

abbrev same_text : List ℕ → List ℕ → Bool
same_text [] [] = true
same_text (a ∷ s) (b ∷ t) = (a == b) && same_text s t
same_text _ _ = false

abbrev text_or : List ℕ → Option (List ℕ) → List ℕ
text_or d none = d
text_or d (some t) = t

abbrev some_or : List ℕ × List ℕ → Option (List ℕ × List ℕ) → List ℕ × List ℕ
some_or d none = d
some_or d (some p) = p

pub pair_inj :
    (x y a b : List ℕ)
    → ◌≡◌ {A = Option (List ℕ × List ℕ)} (some (x, y)) (some (a, b))
    → (x ≡ a) × (y ≡ b)
pair_inj x y a b q = (ap (λ o. (some_or (x, y) o).0) q, ap (λ o. (some_or (x, y) o).1) q)

pub split_once_sound :
    (separator : ℕ) (t a b : List ℕ)
    → split_once separator t ≡ some (a, b)
    → (t ≡ a ++ separator ∷ b) × (all_are (λ c. not (c == separator)) a ≡ true)
split_once_sound separator [] a b q = absurd cc
split_once_sound separator (c ∷ t) a b q = elim (Bool-cases (c == separator)) [
  | inl e ↦
      let same : c ≡ separator = (==_iff c separator).0 e in
      let k : some ([], t) ≡ some (a, b) = sym (rw e refl) ∙ q in
      let (front, back) = pair_inj [] t a b k in
      subst (λ a. (c ∷ t ≡ a ++ separator ∷ b) × (all_are (λ c. not (c == separator)) a ≡ true))
        front (ap (λ r. r ∷ t) same ∙ ap (λ r. separator ∷ r) back, refl)
  | inr e ↦ elim (Option-cases (split_once separator t)) [
    | inl n ↦
        let never : ◌≡◌ {A = Option (List ℕ × List ℕ)} none (some (a, b)) =
          sym (rw (e, n) refl) ∙ q in
        absurd cc
    | inr ((x, y), s) ↦
        let (same, clean) = split_once_sound separator t x y s in
        let k : some (c ∷ x, y) ≡ some (a, b) = sym (rw (e, s) refl) ∙ q in
        let (front, back) = pair_inj (c ∷ x) y a b k in
        subst (λ a. (c ∷ t ≡ a ++ separator ∷ b) × (all_are (λ c. not (c == separator)) a ≡ true))
          front (ap (λ r. c ∷ r) (same ∙ ap (λ r. x ++ separator ∷ r) back), rw e clean)
  ]
]

pub split_once_append :
    (separator : ℕ) (a b : List ℕ)
    → all_are (λ c. not (c == separator)) a ≡ true
    → split_once separator (a ++ separator ∷ b) ≡ some (a, b)
split_once_append separator [] b h = rw (==_self separator) refl
split_once_append separator (c ∷ a) b h =
    let other : (c == separator) ≡ false = ground (arith, h) in
    rw other (rw (split_once_append separator a b (ground (arith, h, other))) refl)

abbrev pub strip_suffix : (suffix t : List ℕ) → Option (List ℕ)
strip_suffix suffix [] = if same_text [] suffix then some [] else none
strip_suffix suffix (c ∷ t) =
    let rest = strip_suffix suffix t in
    if same_text (c ∷ t) suffix then some [] else map (λ r. c ∷ r) rest

same_text_sound : (s t : List ℕ) → same_text s t ≡ true → s ≡ t
same_text_sound [] [] h = refl
same_text_sound (a ∷ s) (b ∷ t) h = ground (arith, same_text_sound s t)
same_text_sound [] (b ∷ t) h = cc
same_text_sound (a ∷ s) [] h = cc

pub strip_suffix_sound : (suffix t r : List ℕ) → strip_suffix suffix t ≡ some r → t ≡ r ++ suffix
strip_suffix_sound suffix [] r q = elim (Bool-cases (same_text [] suffix)) [
  | inl e ↦
      let k : some [] ≡ some r = sym (rw e refl) ∙ q in
      let empty : [] ≡ r = ap (λ o. text_or [] o) k in
      same_text_sound [] suffix e ∙ ap (λ a. a ++ suffix) empty
  | inr e ↦ let never : none ≡ some r = sym (rw e refl) ∙ q in absurd cc
]
strip_suffix_sound suffix (c ∷ t) r q = elim (Bool-cases (same_text (c ∷ t) suffix)) [
  | inl e ↦
      let k : some [] ≡ some r = sym (rw e refl) ∙ q in
      let empty : [] ≡ r = ap (λ o. text_or [] o) k in
      same_text_sound (c ∷ t) suffix e ∙ ap (λ a. a ++ suffix) empty
  | inr e ↦ elim (Option-cases (strip_suffix suffix t)) [
    | inl n ↦ let never : none ≡ some r = sym (rw (e, n) refl) ∙ q in absurd cc
    | inr (x, s) ↦
        let k : some (c ∷ x) ≡ some r = sym (rw (e, s) refl) ∙ q in
        let front : c ∷ x ≡ r = ap (λ o. text_or [] o) k in
        ap (λ a. c ∷ a) (strip_suffix_sound suffix t x s) ∙ ap (λ a. a ++ suffix) front
  ]
]
