-- ===== src/Tests/Values.antt =====
-- Examples of the budgets, the backoff, the ids, the names and the histograms.
use projectos_core.Job.Identity.{job_id_input_inj}
use projectos_core.Budget.Admission.{Fits}
use projectos_core.Metrics.Buckets.{empty-IsTally, observe-IsTally, IsTally}
use projectos_core.Backoff.{delay_ms, default_policy, window_ms, split_mix}
use projectos_core.Ids.Hex.{from_hex-to_hex}
use projectos_core.Common.Result.{ok, err}
use projectos_core.Budget.Admission.{
  limit_of, used, admit_decides, admitted_step_within_budget, FirstMiss, dimensions,
}
use projectos_core.Backoff.Window.{delay_ms_bounds}
use projectos_core.Metrics.{empty_histogram, observe}
use projectos_core.Ids.{to_hex, from_hex}
use projectos_core.Budget.{
  admit, BudgetExceeded, saturating_usage_add, check_u64, usage_within_reservation, zero_usage,
  RunBudgetDimension, RunUsage, RunBudget,
}
use projectos_core.Common.{All, u64_max, some, true, length, ℕ, ◌≤◌, ◌≡◌, ◌⊎◌, refl, bytes, arith}

abbrev small_budget : RunBudget
small_budget = record {
  tokens = 100;
  usd_micros = 100;
  wall_ms = 100;
  storage_bytes = 100;
  tool_calls = 5;
  retries = 2;
  steps = 3;
}

abbrev one_step : RunUsage
one_step = record {
  tokens = 10;
  usd_micros = 10;
  wall_ms = 10;
  storage_bytes = 10;
  tool_calls = 1;
  retries = 0;
  steps = 1;
}

small_limits : (d : RunBudgetDimension) → limit_of small_budget d ≤ u64_max
small_limits RunBudgetDimension.tokens = omega arith
small_limits RunBudgetDimension.usd_micros = omega arith
small_limits RunBudgetDimension.wall_ms = omega arith
small_limits RunBudgetDimension.storage_bytes = omega arith
small_limits RunBudgetDimension.tool_calls = omega arith
small_limits RunBudgetDimension.retries = omega arith
small_limits RunBudgetDimension.steps = omega arith

one_admitted : admit small_budget one_step zero_usage one_step ≡ ok tt
unfolding admit check_u64
one_admitted = refl

one_within : usage_within_reservation one_step one_step ≡ true
unfolding usage_within_reservation
one_within = refl

admit_decides_example :
    ((admit small_budget one_step zero_usage one_step ≡ ok tt)
      × All (Fits small_budget one_step zero_usage one_step) dimensions)
    ⊎ ((e : BudgetExceeded) × (admit small_budget one_step zero_usage one_step ≡ err e)
        × FirstMiss small_budget one_step zero_usage one_step dimensions e)
admit_decides_example = admit_decides small_budget one_step zero_usage one_step small_limits

admitted_step_within_budget_example :
    used (saturating_usage_add one_step one_step) RunBudgetDimension.tokens ≤ 100
admitted_step_within_budget_example =
    admitted_step_within_budget small_budget one_step one_step one_step one_admitted one_within
      RunBudgetDimension.tokens

delay_ms_bounds_example :
    ((delay_ms default_policy 2 (split_mix 42)).0 ≤ window_ms default_policy 2)
    × (window_ms default_policy 2 ≤ default_policy.cap_ms)
delay_ms_bounds_example = delay_ms_bounds default_policy 2 (split_mix 42) (omega arith)

job_id_input_inj_example : (◌≡◌ {A = ℕ} 7 7) × (bytes "a" ≡ bytes "a") × (bytes "bc" ≡ bytes "bc")
job_id_input_inj_example =
    job_id_input_inj 7 7 (bytes "a") (bytes "a") (bytes "bc") (bytes "bc") (omega arith)
      (omega arith) (omega arith) (omega arith) (omega arith) (omega arith) refl

from_hex-to_hex_example : (from_hex (to_hex 48879) ≡ some 48879) × (length (to_hex 48879) ≡ 32)
from_hex-to_hex_example = from_hex-to_hex 48879 (omega arith)

observe-IsTally_example : IsTally (observe 70000 empty_histogram)
observe-IsTally_example = observe-IsTally 70000 empty_histogram empty-IsTally
