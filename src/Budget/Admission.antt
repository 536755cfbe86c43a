-- ===== src/Budget/Admission.antt =====
-- What the admission of crates/pos-agents/src/budget.rs decides, dimension by dimension.
use projectos_core.Common.{
  ℕ, ◌+◌, ◌≤◌, ◌≡◌, refl, ◌⊎◌, inl, inr, true, false, none, some, List, [], ◌∷◌, All, arith, ◌<◌,
  Option-cases, u64_max,
}
use native.Mathlib.Decide.{dec_le}
use projectos_core.Common.Result.{Result, ok, err, ◌>>◌, >>=-eq-ok}
use projectos_core.Budget.{
  RunBudget, RunUsage, RunBudgetDimension, BudgetExceeded, zero_usage, check_u64, admit,
  usage_within_reservation, reservation_exceeded_dimension, saturating_usage_add,
}
use projectos_core.Budget.RunBudgetDimension.{
  tokens, usd_micros, wall_ms, storage_bytes, tool_calls, retries, steps,
}

-- The stable order in which the dimensions are compared.
abbrev pub dimensions : List RunBudgetDimension
dimensions = tokens ∷ usd_micros ∷ wall_ms ∷ storage_bytes ∷ tool_calls ∷ retries ∷ steps ∷ []

abbrev pub limit_of : RunBudget → RunBudgetDimension → ℕ
limit_of b tokens = b.tokens
limit_of b usd_micros = b.usd_micros
limit_of b wall_ms = b.wall_ms
limit_of b storage_bytes = b.storage_bytes
limit_of b tool_calls = b.tool_calls
limit_of b retries = b.retries
limit_of b steps = b.steps

abbrev pub used : RunUsage → RunBudgetDimension → ℕ
used u tokens = u.tokens
used u usd_micros = u.usd_micros
used u wall_ms = u.wall_ms
used u storage_bytes = u.storage_bytes
used u tool_calls = u.tool_calls
used u retries = u.retries
used u steps = u.steps

-- The mathematical sum, with no overflow, is within the limit.
abbrev pub Fits : RunBudget → (spent pending requested : RunUsage) → RunBudgetDimension → Type 0
Fits b s p r d = used s d + used p d + used r d ≤ limit_of b d

abbrev pub exceeded_at :
    RunBudget → (spent pending requested : RunUsage) → RunBudgetDimension → BudgetExceeded
exceeded_at b s p r d = record {
  dimension = d;
  limit = limit_of b d;
  spent = used s d;
  pending = used p d;
  requested = used r d;
}

-- `e` reports the first of the dimensions that does not fit; those before it do.
abbrev pub FirstMiss :
    RunBudget
    → (spent pending requested : RunUsage) → List RunBudgetDimension
    → BudgetExceeded
    → Type 0
FirstMiss b s p r [] e = ⊥
FirstMiss b s p r (d ∷ ds) e =
    ((¬ Fits b s p r d) × (e ≡ exceeded_at b s p r d)) ⊎ (Fits b s p r d × FirstMiss b s p r ds e)

check_u64_decides :
    (d : RunBudgetDimension) (limit s p r : ℕ)
    → limit ≤ u64_max
    → ((check_u64 d limit s p r ≡ ok tt) × (s + p + r ≤ limit))
      ⊎ ((check_u64 d limit s p r
            ≡ err (record { dimension = d; limit = limit; spent = s; pending = p; requested = r }))
          × (¬ (s + p + r ≤ limit)))
unfolding check_u64
check_u64_decides d limit s p r h = elim (dec_le (s + p + r) limit) [
  | yes fits ↦ inl (ground arith, fits)
  | no over ↦ inr (ground arith, over)
]

check_all :
    RunBudget
    → (spent pending requested : RunUsage) → List RunBudgetDimension
    → Result BudgetExceeded (Unit {0})
check_all b s p r [] = ok tt
check_all b s p r (d ∷ []) = check_u64 d (limit_of b d) (used s d) (used p d) (used r d)
check_all b s p r (d ∷ d' ∷ ds) =
    check_u64 d (limit_of b d) (used s d) (used p d) (used r d) >> check_all b s p r (d' ∷ ds)

check_all_decides :
    (b : RunBudget) (s p r : RunUsage) (ds : List RunBudgetDimension)
    → ((d : RunBudgetDimension) → limit_of b d ≤ u64_max)
    → ((check_all b s p r ds ≡ ok tt) × All (Fits b s p r) ds)
      ⊎ ((e : BudgetExceeded) × (check_all b s p r ds ≡ err e) × FirstMiss b s p r ds e)
unfolding check_all
check_all_decides b s p r [] h = inl (refl, tt)
check_all_decides b s p r (d ∷ []) h =
    elim (check_u64_decides d (limit_of b d) (used s d) (used p d) (used r d) (h d)) [
      | inl (e, fits) ↦ inl (e, (fits, tt))
      | inr (e, over) ↦ inr (exceeded_at b s p r d, e, inl (over, refl))
    ]
check_all_decides b s p r (d ∷ d' ∷ ds) h =
    elim (check_u64_decides d (limit_of b d) (used s d) (used p d) (used r d) (h d)) [
      | inl (e, fits) ↦
          rw (e, ◌>>◌)
            (elim (check_all_decides b s p r (d' ∷ ds) h) [
              | inl (q, all) ↦ inl (q, (fits, all))
              | inr (x, q, miss) ↦ inr (x, q, inr (fits, miss))
            ])
      | inr (e, over) ↦ rw (e, ◌>>◌) (inr (exceeded_at b s p r d, refl, inl (over, refl)))
    ]

-- Admission succeeds exactly when spent, pending and requested usage together fit the budget in
-- all seven dimensions, and otherwise reports the first dimension, in the stable order, that does
-- not fit, with its four numbers; the limits are u64 values.
pub admit_decides :
    (b : RunBudget) (s p r : RunUsage)
    → ((d : RunBudgetDimension) → limit_of b d ≤ u64_max)
    → ((admit b s p r ≡ ok tt) × All (Fits b s p r) dimensions)
      ⊎ ((e : BudgetExceeded) × (admit b s p r ≡ err e) × FirstMiss b s p r dimensions e)
unfolding admit check_all
admit_decides b s p r h = check_all_decides b s p r dimensions h

within_at :
    (a r : RunUsage) (d : RunBudgetDimension)
    → usage_within_reservation a r ≡ true
    → used a d ≤ used r d
unfolding usage_within_reservation
within_at a r tokens h = ground arith
within_at a r _ h = ground arith

check_u64-ok :
    (d : RunBudgetDimension) (limit s p r : ℕ) → check_u64 d limit s p r ≡ ok tt → s + p + r ≤ limit
unfolding check_u64
check_u64-ok d limit s p r h = ground arith

check_all-ok :
    (b : RunBudget) (s p r : RunUsage) (ds : List RunBudgetDimension)
    → check_all b s p r ds ≡ ok tt
    → All (Fits b s p r) ds
unfolding check_all
check_all-ok b s p r [] h = tt
check_all-ok b s p r (d ∷ []) h = (check_u64-ok d _ _ _ _ h, tt)
check_all-ok b s p r (d ∷ d' ∷ ds) h =
    let (u, e, rest) = >>=-eq-ok _ _ h in
    (check_u64-ok d _ _ _ _ e, check_all-ok b s p r (d' ∷ ds) rest)

All-dimensions :
    (P : RunBudgetDimension → Type 0) → All P dimensions → (d : RunBudgetDimension) → P d
All-dimensions P h tokens = h.0
All-dimensions P h usd_micros = h.1.0
All-dimensions P h wall_ms = h.1.1.0
All-dimensions P h storage_bytes = h.1.1.1.0
All-dimensions P h tool_calls = h.1.1.1.1.0
All-dimensions P h retries = h.1.1.1.1.1.0
All-dimensions P h steps = h.1.1.1.1.1.1.0

used-add-le :
    (s a : RunUsage) (d : RunBudgetDimension)
    → used (saturating_usage_add s a) d ≤ used s d + used a d
unfolding saturating_usage_add
used-add-le s a tokens = omega arith
used-add-le s a _ = omega arith

used-zero : (d : RunBudgetDimension) → used zero_usage d ≡ 0
used-zero tokens = refl
used-zero _ = refl

reported-exceeds :
    (a r : RunUsage) (d : RunBudgetDimension)
    → reservation_exceeded_dimension a r ≡ some d
    → used r d < used a d
unfolding reservation_exceeded_dimension
reported-exceeds a r tokens h = ground arith
reported-exceeds a r _ h = ground arith

-- A step that was admitted with nothing pending, and whose actual usage stayed within its
-- reservation, leaves the recorded usage within the budget in every dimension.
pub admitted_step_within_budget :
    (b : RunBudget) (s reserved actual : RunUsage)
    → admit b s zero_usage reserved ≡ ok tt
    → usage_within_reservation actual reserved ≡ true
    → (d : RunBudgetDimension) → used (saturating_usage_add s actual) d ≤ limit_of b d
unfolding admit check_all
admitted_step_within_budget b s reserved actual h w d = omega (
  arith,
  used-add-le s actual d,
  within_at actual reserved d w,
  used-zero d,
  All-dimensions (Fits b s zero_usage reserved) (check_all-ok b s zero_usage reserved dimensions h)
      d,
)

-- The two comparisons with a reservation agree, and a dimension that is reported is one that the
-- actual usage exceeds.
pub reservation_exceeded_agrees :
    (actual reserved : RunUsage)
    → ((usage_within_reservation actual reserved ≡ true)
        × (reservation_exceeded_dimension actual reserved ≡ none))
      ⊎ ((usage_within_reservation actual reserved ≡ false)
          × ((d : RunBudgetDimension) × (reservation_exceeded_dimension actual reserved ≡ some d)
              × (used reserved d < used actual d)))
unfolding usage_within_reservation reservation_exceeded_dimension
reservation_exceeded_agrees a r = elim (Option-cases (reservation_exceeded_dimension a r)) [
  | inl e ↦ inl (ground arith, e)
  | inr (d, e) ↦ inr (ground arith, (d, e, reported-exceeds a r d e))
]
