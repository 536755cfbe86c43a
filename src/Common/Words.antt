-- ===== src/Common/Words.antt =====
-- The fixed-width arithmetic of the source: `u32`, `u64` and the `i64` of SQLite as plain numbers,
-- with the saturating and checked operations of the standard library.
use Prim.Native.Nat.{ℕ, ◌+◌, ◌*◌, ◌^◌, min}
use mathlib.Core.Option.{Option, none, some}
use projectos_core.Common.Tests.{leb, if◌then◌else◌}

abbrev pub u32_max : ℕ
u32_max = 4294967295

abbrev pub u64_max : ℕ
u64_max = 18446744073709551615

abbrev pub i64_max : ℕ
i64_max = 9223372036854775807

abbrev pub saturating_add : ℕ → ℕ → ℕ
saturating_add a b = min (a + b) u64_max

abbrev pub saturating_mul : ℕ → ℕ → ℕ
saturating_mul a b = min (a * b) u64_max

abbrev pub saturating_add_u32 : ℕ → ℕ → ℕ
saturating_add_u32 a b = min (a + b) u32_max

abbrev pub checked_add : ℕ → ℕ → Option ℕ
checked_add a b = if leb (a + b) u64_max then some (a + b) else none

abbrev pub checked_pow : ℕ → ℕ → Option ℕ
checked_pow a e = if leb (a ^ e) u64_max then some (a ^ e) else none
