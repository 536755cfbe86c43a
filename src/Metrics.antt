-- ===== src/Metrics.antt =====
-- crates/pos-sched/src/metrics.rs: the scheduler's counters and fixed-bucket histograms. Every
-- atomic add wraps at 64 bits. The lock of the per-kind map is never poisoned here, and quantiles,
-- which the source computes in floating point, are not modelled.
pub mod Buckets
use projectos_core.Common.{
  ℕ, zero, suc, ◌+◌, ◌%◌, Option, none, some, List, [], ◌∷◌, ◌++◌, Text, length, text_eq, leb,
  if◌then◌else◌,
}

abbrev pub metric_kind_count_max : ℕ
metric_kind_count_max = 64

abbrev pub bucket_bounds_ms : List ℕ
bucket_bounds_ms =
    1 ∷ 2 ∷ 5 ∷ 10 ∷ 25 ∷ 50 ∷ 100 ∷ 250 ∷ 500 ∷ 1000 ∷ 2500 ∷ 5000 ∷ 10000 ∷ 30000 ∷ 60000 ∷ []

-- `fetch_add` on an `AtomicU64`.
abbrev pub fetch_add : ℕ → ℕ → ℕ
fetch_add a b = (a + b) % 18446744073709551616

pub record Histogram : Type 0 where
  pub buckets : List ℕ
  pub sum_ms : ℕ
  pub count : ℕ

abbrev pub empty_histogram : Histogram
empty_histogram = record {
  buckets = 0 ∷ 0 ∷ 0 ∷ 0 ∷ 0 ∷ 0 ∷ 0 ∷ 0 ∷ 0 ∷ 0 ∷ 0 ∷ 0 ∷ 0 ∷ 0 ∷ 0 ∷ 0 ∷ [];
  sum_ms = 0;
  count = 0;
}

-- The position of the first bound that the value does not pass, or the number of bounds.
unfoldable pub bucket_of : List ℕ → ℕ → ℕ
bucket_of [] value = 0
bucket_of (b ∷ bs) value = if leb value b then 0 else suc (bucket_of bs value)

unfoldable pub bump_at : ℕ → List ℕ → List ℕ
bump_at i [] = []
bump_at zero (n ∷ ns) = fetch_add n 1 ∷ ns
bump_at (suc i) (n ∷ ns) = n ∷ bump_at i ns

unfoldable pub observe : ℕ → Histogram → Histogram
unfolding bucket_of bump_at
observe value_ms h = record {
  buckets = bump_at (bucket_of bucket_bounds_ms value_ms) h.buckets;
  sum_ms = fetch_add h.sum_ms value_ms;
  count = fetch_add h.count 1;
}

pub record SchedulerMetrics : Type 0 where
  pub enqueued_total : ℕ
  pub duplicate_enqueue_total : ℕ
  pub claimed_total : ℕ
  pub completed_total : ℕ
  pub attempt_failed_total : ℕ
  pub dead_total : ℕ
  pub lease_reaped_total : ℕ
  pub cron_fired_total : ℕ
  pub cron_skipped_overlap_total : ℕ
  pub cron_missed_tick_total : ℕ
  pub kind_overflow_count : ℕ
  pub queue_error_total : ℕ
  pub claim_latency : Histogram
  pub run_duration_by_kind : List (Text × Histogram)
  pub run_duration_other : Histogram

abbrev pub no_metrics : SchedulerMetrics
no_metrics = record {
  enqueued_total = 0;
  duplicate_enqueue_total = 0;
  claimed_total = 0;
  completed_total = 0;
  attempt_failed_total = 0;
  dead_total = 0;
  lease_reaped_total = 0;
  cron_fired_total = 0;
  cron_skipped_overlap_total = 0;
  cron_missed_tick_total = 0;
  kind_overflow_count = 0;
  queue_error_total = 0;
  claim_latency = empty_histogram;
  run_duration_by_kind = [];
  run_duration_other = empty_histogram;
}

unfoldable pub record_enqueued : SchedulerMetrics → SchedulerMetrics
record_enqueued m = record m { enqueued_total = fetch_add m.enqueued_total 1 }

unfoldable pub record_duplicate_enqueue : SchedulerMetrics → SchedulerMetrics
record_duplicate_enqueue m = record m {
  duplicate_enqueue_total = fetch_add m.duplicate_enqueue_total 1;
}

unfoldable pub record_claim : ℕ → SchedulerMetrics → SchedulerMetrics
record_claim latency_ms m = record m {
  claimed_total = fetch_add m.claimed_total 1;
  claim_latency = observe latency_ms m.claim_latency;
}

unfoldable pub get_kind : Text → List (Text × Histogram) → Option Histogram
get_kind kind [] = none
get_kind kind ((k, h) ∷ rest) = if text_eq k kind then some h else get_kind kind rest

unfoldable pub observe_kind : Text → ℕ → List (Text × Histogram) → List (Text × Histogram)
observe_kind kind wall_ms [] = (kind, observe wall_ms empty_histogram) ∷ []
observe_kind kind wall_ms ((k, h) ∷ rest) =
    if text_eq k kind
    then (k, observe wall_ms h) ∷ rest
    else (k, h) ∷ observe_kind kind wall_ms rest

abbrev observe_run_as : Option Histogram → Text → ℕ → SchedulerMetrics → SchedulerMetrics
observe_run_as (some _) kind wall_ms m = record m {
  run_duration_by_kind = observe_kind kind wall_ms m.run_duration_by_kind;
}
observe_run_as none kind wall_ms m =
    if leb metric_kind_count_max (length m.run_duration_by_kind)
    then record m {
      kind_overflow_count = fetch_add m.kind_overflow_count 1;
      run_duration_other = observe wall_ms m.run_duration_other;
    }
    else record m { run_duration_by_kind = observe_kind kind wall_ms m.run_duration_by_kind }

unfoldable pub observe_run : Text → ℕ → SchedulerMetrics → SchedulerMetrics
observe_run kind wall_ms m = observe_run_as (get_kind kind m.run_duration_by_kind) kind wall_ms m

unfoldable pub record_completed : Text → ℕ → SchedulerMetrics → SchedulerMetrics
record_completed kind wall_ms m =
    observe_run kind wall_ms (record m { completed_total = fetch_add m.completed_total 1 })

unfoldable pub record_attempt_failed : Text → ℕ → SchedulerMetrics → SchedulerMetrics
record_attempt_failed kind wall_ms m =
    observe_run kind wall_ms
      (record m { attempt_failed_total = fetch_add m.attempt_failed_total 1 })

unfoldable pub record_dead : SchedulerMetrics → SchedulerMetrics
record_dead m = record m { dead_total = fetch_add m.dead_total 1 }

unfoldable pub record_queue_error : SchedulerMetrics → SchedulerMetrics
record_queue_error m = record m { queue_error_total = fetch_add m.queue_error_total 1 }

unfoldable pub record_lease_reaped : ℕ → SchedulerMetrics → SchedulerMetrics
record_lease_reaped count m = record m { lease_reaped_total = fetch_add m.lease_reaped_total count }

unfoldable pub record_cron_tick : (fired skipped missed : ℕ) → SchedulerMetrics → SchedulerMetrics
record_cron_tick fired skipped missed m = record m {
  cron_fired_total = fetch_add m.cron_fired_total fired;
  cron_skipped_overlap_total = fetch_add m.cron_skipped_overlap_total skipped;
  cron_missed_tick_total = fetch_add m.cron_missed_tick_total missed;
}
