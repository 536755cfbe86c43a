-- ===== src/Ids/Hex.antt =====
-- The textual encoding of an id in crates/pos-foundation/src/lib.rs reads back.
use native.Mathlib.Nat.{pow-suc}
use projectos_core.Common.{
  ℕ, zero, suc, ◌+◌, ◌*◌, ◌/◌, ◌%◌, ◌^◌, ◌<◌, ◌≡◌, refl, ◌∙◌, ap, true, some, [], ◌∷◌, ◌++◌, Text,
  All, length, length-append, arith, ltb,
}
use projectos_core.Ids.{
  OpaqueId, be_bytes, from_be_bytes, into_bytes, hex_digit, hex_of, to_hex, hex_nibble, is_ascii,
  hex_pairs, from_hex,
}

from_be_bytes-snoc :
    (acc : ℕ) (xs : Text) (b : ℕ)
    → from_be_bytes acc (xs ++ b ∷ []) ≡ from_be_bytes acc xs * 256 + b
unfolding from_be_bytes
from_be_bytes-snoc acc [] b = refl
from_be_bytes-snoc acc (x ∷ xs) b = from_be_bytes-snoc (acc * 256 + x) xs b

pub from_be_bytes-be_bytes : (k n : ℕ) → n < 256 ^ k → from_be_bytes 0 (be_bytes k n) ≡ n
unfolding be_bytes from_be_bytes
from_be_bytes-be_bytes zero n h = omega arith
from_be_bytes-be_bytes (suc k) n h = omega (
  arith,
  from_be_bytes-snoc 0 (be_bytes k (n / 256)) (n % 256),
  from_be_bytes-be_bytes k (n / 256) (omega (arith, pow-suc 256 k)),
)

pub length-be_bytes : (k n : ℕ) → length (be_bytes k n) ≡ k
unfolding be_bytes
length-be_bytes zero n = refl
length-be_bytes (suc k) n =
    omega (arith, length-append (be_bytes k (n / 256)) (n % 256 ∷ []), length-be_bytes k (n / 256))

abbrev IsByte : ℕ → Type 0
IsByte b = b < 256

All-snoc : (P : ℕ → Type 0) (xs : Text) (b : ℕ) → All P xs → P b → All P (xs ++ b ∷ [])
All-snoc P [] b h p = (p, tt)
All-snoc P (x ∷ xs) b h p = (h.0, All-snoc P xs b h.1 p)

be_bytes-IsByte : (k n : ℕ) → All IsByte (be_bytes k n)
unfolding be_bytes
be_bytes-IsByte zero n = tt
be_bytes-IsByte (suc k) n =
    All-snoc IsByte (be_bytes k (n / 256)) (n % 256) (be_bytes-IsByte k (n / 256)) (omega arith)

hex_nibble-hex_digit : (d : ℕ) → d < 16 → hex_nibble (hex_digit d) ≡ some d
unfolding hex_nibble hex_digit
hex_nibble-hex_digit d h = ground arith

hex_digit-ascii : (d : ℕ) → d < 16 → ltb (hex_digit d) 128 ≡ true
unfolding hex_digit
hex_digit-ascii d h = ground arith

hex_pairs-hex_of : (bs : Text) → All IsByte bs → hex_pairs (hex_of bs) ≡ some bs
unfolding hex_pairs hex_of
hex_pairs-hex_of [] h = refl
hex_pairs-hex_of (b ∷ bs) h =
    rw
      (
        hex_nibble-hex_digit (b / 16) (omega (arith, h.0)),
        hex_nibble-hex_digit (b % 16) (omega arith),
        hex_pairs-hex_of bs h.1,
      )
      (ap (λ c. some (c ∷ bs)) (omega arith))

hex_of-ascii : (bs : Text) → All IsByte bs → is_ascii (hex_of bs) ≡ true
unfolding hex_of
hex_of-ascii [] h = refl
hex_of-ascii (b ∷ bs) h =
    rw (hex_digit-ascii (b / 16) (omega (arith, h.0)), hex_digit-ascii (b % 16) (omega arith))
      (hex_of-ascii bs h.1)

length-hex_of : (bs : Text) → length (hex_of bs) ≡ 2 * length bs
unfolding hex_of
length-hex_of [] = refl
length-hex_of (b ∷ bs) = omega (arith, length-hex_of bs)

from_hex-hex_of :
    (bs : Text) → All IsByte bs → length bs ≡ 16 → from_hex (hex_of bs) ≡ some (from_be_bytes 0 bs)
unfolding from_hex
from_hex-hex_of bs h e = rw (length-hex_of bs, e, hex_of-ascii bs h, hex_pairs-hex_of bs h)

-- Every 128-bit id parses back from its hexadecimal rendering, which has 32 characters.
pub from_hex-to_hex :
    (id : OpaqueId) → id < 2 ^ 128 → (from_hex (to_hex id) ≡ some id) × (length (to_hex id) ≡ 32)
unfolding to_hex into_bytes
from_hex-to_hex id h = (
  from_hex-hex_of (be_bytes 16 id) (be_bytes-IsByte 16 id) (length-be_bytes 16 id)
      ∙ ap some (from_be_bytes-be_bytes 16 id h),
  length-hex_of (be_bytes 16 id) ∙ ap (λ n. 2 * n) (length-be_bytes 16 id),
)
