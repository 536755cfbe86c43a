-- ===== src/Backoff/Window.antt =====
-- What the window and the draws of crates/pos-sched/src/backoff.rs amount to.
use native.Mathlib.Nat.{mul-le-mul_left, pow-le-pow_right}
use projectos_core.Common.{
  ℕ, zero, suc, ◌-◌, ◌*◌, ◌^◌, ◌≤◌, ◌<◌, ◌≡◌, inl, inr, min, arith, leb, false, some, none,
  saturating_add, saturating_mul, Bool-cases, u64_max, if◌then◌else◌,
}
use projectos_core.Backoff.{
  unwrap_or_max, BackoffPolicy, JitterSource, split_mix, no_jitter, backoff_exponent_max, window_ms,
  sample_below, delay_ms,
}

leb-false : (a b : ℕ) → leb a b ≡ false → b < a
leb-false a b h = ground arith

min_mono : (a b c : ℕ) → a ≤ b → min a c ≤ min b c
min_mono a b c h = omega arith

-- The saturating product of a base and a growth that was itself cut off at the largest u64.
saturated :
    (b g c : ℕ)
    → c ≤ u64_max
    → min (saturating_mul b (unwrap_or_max (if leb g u64_max then some g else none))) c
      ≡ min (b * g) c
saturated zero g c h = ground arith
saturated (suc b) g c h = elim (Bool-cases (leb g u64_max)) [
  | inl fits ↦ rw fits (omega arith)
  | inr over ↦ rw over (omega (arith, leb-false g u64_max over))
]

-- The saturations never show: with a cap that fits in a u64, the window of an attempt is the
-- smaller of the cap and the base times the factor to the power of the attempts before it, at
-- most 32 of them.
pub window_ms_exact :
    (p : BackoffPolicy) (a : ℕ)
    → p.cap_ms ≤ u64_max
    → window_ms p a ≡ min (p.base_ms * p.factor ^ min (a - 1) backoff_exponent_max) p.cap_ms
unfolding window_ms
window_ms_exact p a h = saturated p.base_ms (p.factor ^ min (a - 1) 32) p.cap_ms h

-- A later attempt never has a smaller window, if the factor is not zero and the cap fits in a u64.
pub window_ms_mono :
    (p : BackoffPolicy) (a b : ℕ)
    → p.cap_ms ≤ u64_max
    → 0 < p.factor
    → a ≤ b
    → window_ms p a ≤ window_ms p b
window_ms_mono p a b h f le =
    rw (window_ms_exact p a h, window_ms_exact p b h)
      (min_mono _ _ p.cap_ms (mul-le-mul_left p.base_ms (pow-le-pow_right f (omega arith))))

window_ms-le-cap : (p : BackoffPolicy) (a : ℕ) → window_ms p a ≤ p.cap_ms
unfolding window_ms
window_ms-le-cap p a = omega arith

-- A draw below a positive bound is below it.
pub sample_below-lt : (j : JitterSource) (n : ℕ) → 0 < n → (sample_below j n).0 < n
unfolding sample_below
sample_below-lt (split_mix state) zero h = elim h [ ]
sample_below-lt (split_mix state) (suc n) h = ground arith
sample_below-lt no_jitter n h = omega arith

-- No delay exceeds its window, and no window the cap: whatever the jitter source has drawn before.
pub delay_ms_bounds :
    (p : BackoffPolicy) (a : ℕ) (j : JitterSource)
    → p.cap_ms ≤ u64_max
    → ((delay_ms p a j).0 ≤ window_ms p a) × (window_ms p a ≤ p.cap_ms)
unfolding delay_ms
delay_ms_bounds p a j h = (
  omega (arith, sample_below-lt j (saturating_add (window_ms p a) 1) (omega arith)),
  window_ms-le-cap p a,
)

-- Without jitter the delay is the whole window, if the cap is below the largest u64.
pub delay_ms-no_jitter :
    (p : BackoffPolicy) (a : ℕ) → p.cap_ms < u64_max → (delay_ms p a no_jitter).0 ≡ window_ms p a
unfolding delay_ms
delay_ms-no_jitter p a h = omega (arith, window_ms-le-cap p a)
