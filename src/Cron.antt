-- ===== src/Cron.antt =====
-- crates/pos-sched/src/cron.rs: the search for the next firing of a parsed expression, the preview,
-- and the firing that a tick owes. The time-zone library is a parameter: its civil date and time
-- type, the conversions between that and instants, and its arithmetic. Instants are milliseconds
-- that are not before 1970. The parser and the tick itself are not modelled.
pub mod Firings
use projectos_core.Common.{
  ℕ, zero, suc, ◌+◌, ◌-◌, ◌*◌, ◌/◌, ◌%◌, ◌^◌, Bool, true, false, ◌&&◌, ◌||◌, Option, none, some,
  List, [], ◌∷◌, min, ltb, leb, ◌==◌, if◌then◌else◌, i64_max,
}

abbrev pub cron_preview_count_max : ℕ
cron_preview_count_max = 32

abbrev pub cron_search_step_count_max : ℕ
cron_search_step_count_max = 4 * 366 + 24 + 60 + 64

abbrev pub cron_catchup_scan_count_max : ℕ
cron_catchup_scan_count_max = 512

-- The parts of the time-zone library that the search uses, in one zone, over its civil type. An
-- operation that can leave the library's range is an option. `at_time` is the same date at a time of
-- day, `next_midnight` the start of the day after, `resolve` the compatible disambiguation.
pub record CivilTime {ℓ} (D : Type ℓ) : Type ℓ where
  pub of_instant : ℕ → Option D
  pub month : D → ℕ
  pub day : D → ℕ
  pub weekday : D → ℕ
  pub hour : D → ℕ
  pub minute : D → ℕ
  pub at_time : D → (hour minute : ℕ) → Option D
  pub add_minute : D → Option D
  pub next_midnight : D → Option D
  pub resolve : D → Option ℕ

-- `CronExpr`, its bitsets as numbers.
pub record CronExpr : Type 0 where
  pub minutes : ℕ
  pub hours : ℕ
  pub days_of_month : ℕ
  pub months : ℕ
  pub days_of_week : ℕ
  pub day_of_month_restricted : Bool
  pub day_of_week_restricted : Bool

unfoldable pub bit_set : (mask value : ℕ) → Bool
bit_set mask value = ltb value 64 && (mask / 2 ^ value % 2 == 1)

abbrev pub days_match :
    (month_day_restricted week_day_restricted day_of_month day_of_week : Bool) → Bool
days_match true true m w = m || w
days_match _ _ m w = m && w

module _ {ℓ} {D : Type ℓ} (civil : CivilTime D) where
  unfoldable pub matches_date : CronExpr → D → Bool
  matches_date e d =
      bit_set e.months (civil.month d)
      && days_match e.day_of_month_restricted e.day_of_week_restricted
          (bit_set e.days_of_month (civil.day d)) (bit_set e.days_of_week (civil.weekday d))

  unfoldable pub start_of_minute : D → Option D
  start_of_minute d = civil.at_time d (civil.hour d) (civil.minute d)

  unfoldable pub start_of_next_day : D → Option D
  start_of_next_day d = civil.next_midnight d

  unfoldable pub start_of_next_hour : D → Option D
  start_of_next_hour d =
      if leb 23 (civil.hour d) then start_of_next_day d else civil.at_time d (civil.hour d + 1) 0

  -- The instant of a candidate that matches, if it is one and lies after the search's start.
  abbrev pub fires_after : (after : ℕ) → Option ℕ → Option ℕ
  fires_after after none = none
  fires_after after (some at) = if ltb after at then some at else none

  abbrev pub go_on : Option D → (D → Option ℕ) → Option ℕ
  go_on none k = none
  go_on (some d) k = k d

  abbrev pub first_or : Option ℕ → Option ℕ → Option ℕ
  first_or (some at) rest = some at
  first_or none rest = rest

  -- The steps of the search: `steps` are those that are left.
  unfoldable pub search : CronExpr → (after steps : ℕ) → D → Option ℕ
  search e after zero d = none
  search e after (suc steps) d =
      let rest : (D → Option ℕ) = λ d'. search e after steps d' in
      if matches_date e d
      then (if bit_set e.hours (civil.hour d)
          then (if bit_set e.minutes (civil.minute d)
              then first_or (fires_after after (civil.resolve d)) (go_on (civil.add_minute d) rest)
              else go_on (civil.add_minute d) rest)
          else go_on (start_of_next_hour d) rest)
      else go_on (start_of_next_day d) rest

  unfoldable pub next_fire_after : CronExpr → (after : ℕ) → Option ℕ
  next_fire_after e after = go_on (civil.of_instant after) λ now.
      go_on (start_of_minute now)
        λ minute. go_on (civil.add_minute minute) (search e after cron_search_step_count_max)

-- The preview and the firing owed, over the search of one schedule.
module _ (next : ℕ → Option ℕ) where
  abbrev pub run_then : (ℕ → List ℕ) → Option ℕ → List ℕ
  run_then rest none = []
  run_then rest (some at) = at ∷ rest at

  unfoldable pub runs_from : (count cursor : ℕ) → List ℕ
  runs_from zero cursor = []
  runs_from (suc count) cursor = run_then (λ at. runs_from count at) (next cursor)

  unfoldable pub preview : (after count : ℕ) → List ℕ
  preview after count = runs_from (min count cron_preview_count_max) after

  -- The scan of `due_firing`: the latest firing that has passed, and how many have.
  abbrev pub go_past :
      (now : ℕ) (stop : Option ℕ × ℕ) (on : ℕ → Option ℕ × ℕ) → Option ℕ → Option ℕ × ℕ
  go_past now stop on none = stop
  go_past now stop on (some at) = if ltb now at then stop else on at

  unfoldable pub scan : (steps now cursor : ℕ) → (latest : Option ℕ) → (count : ℕ) → Option ℕ × ℕ
  scan zero now cursor latest count = (latest, count)
  scan (suc steps) now cursor latest count =
      go_past now (latest, count) (λ at. scan steps now at (some at) (count + 1)) (next cursor)

  abbrev pub due_of : Option ℕ × ℕ → Option (ℕ × ℕ)
  due_of (none, count) = none
  due_of (some at, count) = some (at, count - 1)

  -- The scheduled instant with the number of missed firings.
  unfoldable pub due_firing : (watermark now : ℕ) → Option (ℕ × ℕ)
  due_firing watermark now =
      due_of (scan cron_catchup_scan_count_max (min now i64_max) (min watermark i64_max) none 0)
