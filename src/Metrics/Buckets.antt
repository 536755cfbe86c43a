-- ===== src/Metrics/Buckets.antt =====
-- The histograms of crates/pos-sched/src/metrics.rs count every observation in one bucket.
use projectos_core.Common.{
  ◌^◌, ℕ, zero, suc, ◌+◌, ◌%◌, ◌≤◌, ◌<◌, ◌≡◌, refl, ap, ◌∙◌, List, [], ◌∷◌, length, arith,
}
use projectos_core.Metrics.{
  Histogram, empty_histogram, bucket_bounds_ms, bucket_of, bump_at, observe,
}

-- The observations that the buckets hold together, as the counter counts them.
abbrev pub total : List ℕ → ℕ
total [] = 0
total (n ∷ ns) = n + total ns

bucket_of-le : (bs : List ℕ) (v : ℕ) → bucket_of bs v ≤ length bs
unfolding bucket_of
bucket_of-le [] v = omega arith
bucket_of-le (b ∷ bs) v = ground (arith, bucket_of-le bs v)

total-bump :
    (i : ℕ) (ns : List ℕ) → i < length ns → total (bump_at i ns) % 2 ^ 64 ≡ (total ns + 1) % 2 ^ 64
unfolding bump_at
total-bump i [] h = absurd (omega (arith, h))
total-bump zero (n ∷ ns) h = omega arith
total-bump (suc i) (n ∷ ns) h = omega (arith, total-bump i ns (omega (arith, h)))

length-bump : (i : ℕ) (ns : List ℕ) → length (bump_at i ns) ≡ length ns
unfolding bump_at
length-bump i [] = refl
length-bump zero (n ∷ ns) = refl
length-bump (suc i) (n ∷ ns) = ap suc (length-bump i ns)

-- What holds of every histogram that the scheduler keeps: a bucket for each bound and one for the
-- rest, and buckets that together count what the counter counts, modulo its wrap-around.
pub record IsTally (h : Histogram) : Type 0 where
  pub all_there : length h.buckets ≡ suc (length bucket_bounds_ms)
  pub agrees : total h.buckets % 2 ^ 64 ≡ h.count % 2 ^ 64

pub empty-IsTally : IsTally empty_histogram
empty-IsTally = record { all_there = refl; agrees = refl }

-- An observation keeps a histogram a tally: all its buckets, which together count what its counter
-- counts, modulo the wrap-around.
pub observe-IsTally : (v : ℕ) (h : Histogram) → IsTally h → IsTally (observe v h)
unfolding observe
observe-IsTally v h t = record {
  all_there = length-bump (bucket_of bucket_bounds_ms v) h.buckets ∙ t.all_there;
  agrees = omega (
    arith,
    t.agrees,
    total-bump (bucket_of bucket_bounds_ms v) h.buckets
        (omega (arith, t.all_there, bucket_of-le bucket_bounds_ms v)),
  );
}
