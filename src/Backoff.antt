-- ===== src/Backoff.antt =====
-- crates/pos-sched/src/backoff.rs: the retry window and the jitter sources. The atomic counter of
-- `SplitMixJitter` is passed explicitly, and a trait object is a value of `JitterSource`.
pub mod Window
use projectos_core.Common.{
  ℕ, ◌+◌, ◌-◌, ◌*◌, ◌/◌, ◌%◌, ◌^◌, min, bit_xor, Option, none, some, ◌==◌, if◌then◌else◌, u64_max,
  saturating_add, saturating_mul, checked_pow,
}

abbrev pub job_backoff_base_ms_default : ℕ
job_backoff_base_ms_default = 2000

abbrev pub job_backoff_factor_default : ℕ
job_backoff_factor_default = 2

abbrev pub job_backoff_cap_ms_default : ℕ
job_backoff_cap_ms_default = 15 * 60 * 1000

abbrev pub backoff_exponent_max : ℕ
backoff_exponent_max = 32

pub record BackoffPolicy : Type 0 where
  pub base_ms : ℕ  -- u64
  pub factor : ℕ  -- u32
  pub cap_ms : ℕ  -- u64

abbrev pub default_policy : BackoffPolicy
default_policy = record {
  base_ms = job_backoff_base_ms_default;
  factor = job_backoff_factor_default;
  cap_ms = job_backoff_cap_ms_default;
}

abbrev pub unwrap_or_max : Option ℕ → ℕ
unwrap_or_max none = u64_max
unwrap_or_max (some n) = n

unfoldable pub window_ms : BackoffPolicy → ℕ → ℕ
window_ms p attempt_index =
    let exponent = min (attempt_index - 1) backoff_exponent_max in
    let growth = unwrap_or_max (checked_pow p.factor exponent) in
    min (saturating_mul p.base_ms growth) p.cap_ms

abbrev u64_mod : ℕ
u64_mod = 18446744073709551616

abbrev pub wrapping_add : ℕ → ℕ → ℕ
wrapping_add a b = (a + b) % u64_mod

abbrev pub wrapping_mul : ℕ → ℕ → ℕ
wrapping_mul a b = a * b % u64_mod

abbrev shr : ℕ → ℕ → ℕ
shr z k = z / 2 ^ k

abbrev golden_gamma : ℕ
golden_gamma = 0x9E37_79B9_7F4A_7C15

-- The draw and the counter's next value: `fetch_add` returns the old value and wraps.
unfoldable pub next_u64 : ℕ → ℕ × ℕ
next_u64 state =
    let z = wrapping_add state golden_gamma in
    let z₁ = wrapping_mul (bit_xor z (shr z 30)) 0xBF58_476D_1CE4_E5B9 in
    let z₂ = wrapping_mul (bit_xor z₁ (shr z₁ 27)) 0x94D0_49BB_1331_11EB in
    (bit_xor z₂ (shr z₂ 31), z)

-- The implementations of the trait; `split_mix` holds the counter.
pub data JitterSource : Type 0 where
  split_mix : ℕ → JitterSource
  no_jitter : JitterSource

-- The draw, and the source with its counter moved on.
unfoldable pub sample_below : JitterSource → ℕ → ℕ × JitterSource
unfolding next_u64
sample_below (split_mix state) bound_exclusive =
    if bound_exclusive == 0
    then (0, split_mix state)
    else (let (z, next) = next_u64 state in (z % bound_exclusive, split_mix next))
sample_below no_jitter bound_exclusive = (bound_exclusive - 1, no_jitter)

unfoldable pub delay_ms : BackoffPolicy → ℕ → JitterSource → ℕ × JitterSource
unfolding window_ms sample_below
delay_ms p attempt_index jitter = sample_below jitter (saturating_add (window_ms p attempt_index) 1)
