-- ===== src/Ids.antt =====
-- crates/pos-foundation/src/lib.rs: the 128-bit ids. An id is the number that its sixteen bytes
-- spell, most significant first; the id types of the source (JobId, ProjectId, CronId) share it.
pub mod Hex
use projectos_core.Common.{
  ℕ, zero, suc, ◌+◌, ◌-◌, ◌*◌, ◌/◌, ◌%◌, ◌≤◌, ◌<◌, Bool, ◌&&◌, Option, none, some, List, [], ◌∷◌,
  ◌++◌, Text, length, leb, ltb, ◌==◌, if◌then◌else◌,
}

abbrev pub OpaqueId : Type 0
OpaqueId = ℕ

-- The `k` lowest bytes of a number, most significant first.
unfoldable pub be_bytes : ℕ → ℕ → Text
be_bytes zero n = []
be_bytes (suc k) n = be_bytes k (n / 256) ++ (n % 256) ∷ []

unfoldable pub from_be_bytes : ℕ → Text → ℕ
from_be_bytes acc [] = acc
from_be_bytes acc (b ∷ bs) = from_be_bytes (acc * 256 + b) bs

unfoldable pub into_bytes : OpaqueId → Text
into_bytes id = be_bytes 16 id

unfoldable pub from_bytes : Text → OpaqueId
from_bytes bs = from_be_bytes 0 bs

-- A lowercase hexadecimal digit, as `{byte:02x}` writes it.
unfoldable pub hex_digit : ℕ → ℕ
hex_digit n = if ltb n 10 then b'0' + n else b'a' + (n - 10)

unfoldable pub hex_of : Text → Text
hex_of [] = []
hex_of (b ∷ bs) = hex_digit (b / 16) ∷ hex_digit (b % 16) ∷ hex_of bs

unfoldable pub to_hex : OpaqueId → Text
to_hex id = hex_of (into_bytes id)

unfoldable pub hex_nibble : ℕ → Option ℕ
hex_nibble digit =
    if leb b'0' digit && leb digit b'9'
    then some (digit - b'0')
    else (if leb b'a' digit && leb digit b'f' then some (digit - b'a' + 10) else none)

abbrev is_ascii : Text → Bool
is_ascii [] = Bool.true
is_ascii (c ∷ cs) = ltb c 128 && is_ascii cs

-- One turn of the loop of `from_hex` for each pair of digits; the low nibble is below 16, so
-- `(high << 4) | low` is a sum.
abbrev byte_of : Option ℕ → Option ℕ → Option Text → Option Text
byte_of (some high) (some low) (some rest) = some ((high * 16 + low) ∷ rest)
byte_of _ _ _ = none

unfoldable pub hex_pairs : Text → Option Text
hex_pairs (h ∷ l ∷ rest) = byte_of (hex_nibble h) (hex_nibble l) (hex_pairs rest)
hex_pairs _ = some []

abbrev id_of : Option Text → Option OpaqueId
id_of none = none
id_of (some bs) = some (from_be_bytes 0 bs)

unfoldable pub from_hex : Text → Option OpaqueId
from_hex text = if (length text == 32) && is_ascii text then id_of (hex_pairs text) else none
