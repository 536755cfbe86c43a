-- ===== src/Budget.antt =====
-- crates/pos-agents/src/budget.rs, with the types of crates/pos-domain/src/events.rs that it
-- compares: the admission of a planned step against a Run's budget.
pub mod Admission
use projectos_core.Common.{
  ℕ, ◌+◌, Bool, ◌&&◌, Option, none, some, ltb, leb, if◌then◌else◌, saturating_add,
  saturating_add_u32, checked_add,
}
use projectos_core.Common.Result.{Result, ok, err, ◌>>◌}

abbrev pub run_step_count_max : ℕ
run_step_count_max = 10000

abbrev pub run_tool_call_count_max : ℕ
run_tool_call_count_max = run_step_count_max

abbrev pub run_retry_count_max : ℕ
run_retry_count_max = 1000

pub record RunBudget : Type 0 where
  pub tokens : ℕ
  pub usd_micros : ℕ
  pub wall_ms : ℕ
  pub storage_bytes : ℕ
  pub tool_calls : ℕ
  pub retries : ℕ
  pub steps : ℕ

pub record RunUsage : Type 0 where
  pub tokens : ℕ
  pub usd_micros : ℕ
  pub wall_ms : ℕ
  pub storage_bytes : ℕ
  pub tool_calls : ℕ
  pub retries : ℕ
  pub steps : ℕ

abbrev pub zero_usage : RunUsage
zero_usage = record {
  tokens = 0;
  usd_micros = 0;
  wall_ms = 0;
  storage_bytes = 0;
  tool_calls = 0;
  retries = 0;
  steps = 0;
}

pub data RunBudgetDimension : Type 0 where
  tokens usd_micros wall_ms storage_bytes tool_calls retries steps : RunBudgetDimension

pub record BudgetExceeded : Type 0 where
  pub dimension : RunBudgetDimension
  pub limit : ℕ
  pub spent : ℕ
  pub pending : ℕ
  pub requested : ℕ

pub data BudgetConfigError : Type 0 where
  step_limit_too_large : (configured maximum : ℕ) → BudgetConfigError
  tool_call_limit_too_large : (configured maximum : ℕ) → BudgetConfigError
  retry_limit_too_large : (configured maximum : ℕ) → BudgetConfigError

unfoldable pub validate_budget : RunBudget → Result BudgetConfigError (Unit {0})
validate_budget b =
    if ltb run_step_count_max b.steps
    then err (step_limit_too_large b.steps run_step_count_max)
    else (if ltb run_tool_call_count_max b.tool_calls
        then err (tool_call_limit_too_large b.tool_calls run_tool_call_count_max)
        else (if ltb run_retry_count_max b.retries
            then err (retry_limit_too_large b.retries run_retry_count_max)
            else ok tt))

-- `spent.checked_add(pending).and_then(|value| value.checked_add(requested))`, and the test that
-- there is a sum and that it is within the limit.
abbrev within_limit : ℕ → Option ℕ → Bool
within_limit limit none = Bool.false
within_limit limit (some value) = leb value limit

abbrev and_then : Option ℕ → (ℕ → Option ℕ) → Option ℕ
and_then none f = none
and_then (some a) f = f a

unfoldable pub check_u64 :
    RunBudgetDimension → (limit spent pending requested : ℕ) → Result BudgetExceeded (Unit {0})
check_u64 d limit spent pending requested =
    let admitted = and_then (checked_add spent pending) (λ value. checked_add value requested) in
    if within_limit limit admitted
    then ok tt
    else err (record {
      dimension = d;
      limit = limit;
      spent = spent;
      pending = pending;
      requested = requested;
    })

unfoldable pub admit :
    RunBudget → (spent pending requested : RunUsage) → Result BudgetExceeded (Unit {0})
admit b s p r = do
  check_u64 tokens b.tokens s.tokens p.tokens r.tokens
  check_u64 usd_micros b.usd_micros s.usd_micros p.usd_micros r.usd_micros
  check_u64 wall_ms b.wall_ms s.wall_ms p.wall_ms r.wall_ms
  check_u64 storage_bytes b.storage_bytes s.storage_bytes p.storage_bytes r.storage_bytes
  check_u64 tool_calls b.tool_calls s.tool_calls p.tool_calls r.tool_calls
  check_u64 retries b.retries s.retries p.retries r.retries
  check_u64 steps b.steps s.steps p.steps r.steps

unfoldable pub usage_within_reservation : (actual reserved : RunUsage) → Bool
usage_within_reservation a r =
    leb a.tokens r.tokens
    && (leb a.usd_micros r.usd_micros
        && (leb a.wall_ms r.wall_ms
            && (leb a.storage_bytes r.storage_bytes
                && (leb a.tool_calls r.tool_calls
                    && (leb a.retries r.retries && leb a.steps r.steps)))))

unfoldable pub reservation_exceeded_dimension :
    (actual reserved : RunUsage) → Option RunBudgetDimension
reservation_exceeded_dimension a r =
    if ltb r.tokens a.tokens
    then some tokens
    else (if ltb r.usd_micros a.usd_micros
        then some usd_micros
        else (if ltb r.wall_ms a.wall_ms
            then some wall_ms
            else (if ltb r.storage_bytes a.storage_bytes
                then some storage_bytes
                else (if ltb r.tool_calls a.tool_calls
                    then some tool_calls
                    else (if ltb r.retries a.retries
                        then some retries
                        else (if ltb r.steps a.steps then some steps else none))))))

-- `saturating_usage_add` of crates/pos-agents/src/harness.rs: what a recorded effect adds to the
-- durable usage. The last three dimensions are u32.
unfoldable pub saturating_usage_add : (left right : RunUsage) → RunUsage
saturating_usage_add l r = record {
  tokens = saturating_add l.tokens r.tokens;
  usd_micros = saturating_add l.usd_micros r.usd_micros;
  wall_ms = saturating_add l.wall_ms r.wall_ms;
  storage_bytes = saturating_add l.storage_bytes r.storage_bytes;
  tool_calls = saturating_add_u32 l.tool_calls r.tool_calls;
  retries = saturating_add_u32 l.retries r.retries;
  steps = saturating_add_u32 l.steps r.steps;
}
