-- ===== src/Common/Result.antt =====
-- Rust's `Result`, with the error type first, and `?` as the bind of a do block.
use mathlib.Core.Path.{◌≡◌, refl, ap}
use mathlib.Core.Logic.{◌⊎◌, inl, inr}

pub data Result {ℓ κ} (E : Type κ) (A : Type ℓ) : Type (ℓ ⊔ κ) where
  ok : A → Result E A
  err : E → Result E A

infixl 5 ◌>>=◌ ◌>>◌
abbrev pub ◌>>=◌ {κ ℓ μ} :
    {E : Type κ} {A : Type ℓ} {B : Type μ} → Result E A → (A → Result E B) → Result E B
err why >>= next = err why
ok got >>= next = next got

abbrev pub ◌>>◌ {κ ℓ} : {E : Type κ} {B : Type ℓ} → Result E (Unit {0}) → Result E B → Result E B
first >> second = first >>= λ _. second

-- A chain that succeeds succeeded at its first step, and from there.
pub >>=-eq-ok {κ ℓ μ} :
    {E : Type κ} {A : Type ℓ} {B : Type μ} (first : Result E A) (next : A → Result E B) {done : B}
    → (first >>= next) ≡ ok done
    → (got : A) × (first ≡ ok got) × (next got ≡ ok done)
>>=-eq-ok (err why) next q = cc
>>=-eq-ok (ok got) next q = (got, refl, q)

get_ok {ℓ κ} : {E : Type κ} {A : Type ℓ} → A → Result E A → A
get_ok d (ok a) = a
get_ok d (err e) = d

pub ok_inj {ℓ κ} : {E : Type κ} {A : Type ℓ} {a b : A} → ◌≡◌ {A = Result E A} (ok a) (ok b) → a ≡ b
unfolding get_ok
ok_inj {E} {A} {a} p = ap (λ (r : Result E A). get_ok a r) p

pub Result-cases {ℓ κ} :
    {E : Type κ} {A : Type ℓ} (r : Result E A) → ((e : E) × (r ≡ err e)) ⊎ ((a : A) × (r ≡ ok a))
Result-cases (ok a) = inr (a, refl)
Result-cases (err e) = inl (e, refl)
