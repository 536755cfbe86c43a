-- ===== src/Common/Slices.antt =====
-- Slices of lists by native numbers: `drop` beside `take`, and how both meet `++`.
use Prim.Native.Nat.{ℕ, zero, suc, ◌+◌, ◌-◌, ◌≤◌}
use mathlib.Core.Path.{◌≡◌, refl, sym, ap, ◌∙◌}
use mathlib.Core.List.{List, [], ◌∷◌, ◌++◌}
use native.Mathlib.Omega.{arith}
use projectos_core.Common.Lists.{length, take}

module _ {ℓ} {A : Type ℓ} where
  abbrev pub drop : ℕ → List A → List A
  drop zero t = t
  drop (suc n) [] = []
  drop (suc n) (c ∷ t) = drop n t

  pub length-drop : (n : ℕ) (t : List A) → length (drop n t) ≡ length t - n
  length-drop zero t = omega arith
  length-drop (suc n) [] = omega arith
  length-drop (suc n) (c ∷ t) = omega (arith, length-drop n t)

  pub drop-append : (n : ℕ) (s t : List A) → n ≤ length s → drop n (s ++ t) ≡ (drop n s ++ t)
  drop-append zero s t h = refl
  drop-append (suc n) [] t h = absurd (omega (arith, h))
  drop-append (suc n) (c ∷ s) t h = drop-append n s t (omega (arith, h))

  pub drop_nil : (n : ℕ) → drop n [] ≡ []
  drop_nil zero = refl
  drop_nil (suc n) = refl

  pub drop-drop : (m n : ℕ) (t : List A) → drop (m + n) t ≡ drop n (drop m t)
  drop-drop zero n t = ap (λ k. drop k t) (omega arith)
  drop-drop (suc m) n [] = drop_nil (suc m + n) ∙ sym (drop_nil n)
  drop-drop (suc m) n (c ∷ t) =
      let e : suc m + n ≡ suc (m + n) = omega arith in ap (λ k. drop k (c ∷ t)) e ∙ drop-drop m n t

  pub drop-length : (t : List A) → drop (length t) t ≡ []
  drop-length [] = refl
  drop-length (c ∷ t) = drop-length t

  pub take-append : (n : ℕ) (s t : List A) → n ≤ length s → take n (s ++ t) ≡ take n s
  take-append zero s t h = refl
  take-append (suc n) [] t h = absurd (omega (arith, h))
  take-append (suc n) (c ∷ s) t h = ap (λ r. c ∷ r) (take-append n s t (omega (arith, h)))

  pub take_all : (n : ℕ) (t : List A) → length t ≤ n → take n t ≡ t
  take_all zero [] h = refl
  take_all zero (c ∷ t) h = absurd (omega (arith, h))
  take_all (suc n) [] h = refl
  take_all (suc n) (c ∷ t) h = ap (λ r. c ∷ r) (take_all n t (omega (arith, h)))

  pub take-drop : (n : ℕ) (t : List A) → (take n t ++ drop n t) ≡ t
  take-drop zero t = refl
  take-drop (suc n) [] = refl
  take-drop (suc n) (c ∷ t) = ap (λ r. c ∷ r) (take-drop n t)

  pub length-take : (n : ℕ) (t : List A) → n ≤ length t → length (take n t) ≡ n
  length-take zero t h = refl
  length-take (suc n) [] h = absurd (omega (arith, h))
  length-take (suc n) (c ∷ t) h = omega (arith, length-take n t (omega (arith, h)))

  pub append_assoc : (a b c : List A) → ((a ++ b) ++ c) ≡ (a ++ (b ++ c))
  append_assoc [] b c = refl
  append_assoc (x ∷ a) b c = ap (λ t. x ∷ t) (append_assoc a b c)

  pub append_nil : (s : List A) → (s ++ []) ≡ s
  append_nil [] = refl
  append_nil (x ∷ s) = ap (λ t. x ∷ t) (append_nil s)

  pub nil_right : (s t : List A) → (s ++ t) ≡ [] → t ≡ []
  nil_right [] t h = h
  nil_right (x ∷ s) t h = cc

  pub nil_length : (s : List A) → length s ≤ 0 → s ≡ []
  nil_length [] h = refl
  nil_length (x ∷ s) h = absurd (omega (arith, h))
