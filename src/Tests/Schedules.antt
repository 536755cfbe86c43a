-- ===== src/Tests/Schedules.antt =====
-- Examples of the schedules: their rows, the search and the due firing.
use projectos_core.Common.Result.{ok}
use projectos_core.Log.{empty_tables}
use projectos_core.Projections.Crons.{registered_restarts, fired_advances}
use projectos_core.Cron.Firings.{
  IsLast, IsFiring, preview-IsAscending, IsAscending, due_firing_sound, due_firing_once,
  next_fire_after_sound,
}
use projectos_core.Ids.{OpaqueId}
use projectos_core.Cron.{
  start_of_minute, preview, due_firing, CronExpr, search, matches_date, next_fire_after, scan,
  CivilTime, bit_set,
}
use projectos_core.Common.Table.{update_row, find_row, insert_row, update_all}
use projectos_core.Projections.{
  jobs_apply, Tables, cron_key, watermark_ts_ms, registered_row, crons_apply, advance_cron,
  CronRecord, integer_u64, fired_row, apply_event, Event, enqueued_row,
}
use projectos_core.Job.{
  JobCronOrigin, CronRegisteredBody, maintenance, JobPriority, JobEnqueuedV2, job_enqueued, v2,
  cron_registered, CronOverlapPolicy,
}
use projectos_core.Common.{
  Option, Bool, length, ℕ, ◌+◌, ◌*◌, ◌/◌, ◌%◌, ◌<◌, ◌≤◌, ◌≡◌, ◌≢◌, refl, [], ◌∷◌, bytes, arith,
  some, none, false,
}

-- A zone whose civil time is the minutes since the start of 1970, each month taken as the first.
abbrev plain_time : CivilTime ℕ
plain_time = record {
  of_instant = λ ts. some (ts / 60000);
  month = λ d. 1;
  day = λ d. 1;
  weekday = λ d. (d / 1440 + 4) % 7;
  hour = λ d. d / 60 % 24;
  minute = λ d. d % 60;
  at_time = λ d h m. some (d / 1440 * 1440 + h * 60 + m);
  add_minute = λ d. some (d + 1);
  next_midnight = λ d. some ((d / 1440 + 1) * 1440);
  resolve = λ d. some (d * 60000);
}

abbrev every_minute : CronExpr
every_minute = record {
  minutes = 1152921504606846975;
  hours = 16777215;
  days_of_month = 4294967294;
  months = 8190;
  days_of_week = 127;
  day_of_month_restricted = false;
  day_of_week_restricted = false;
}

abbrev next_minute : ℕ → Option ℕ
next_minute c = next_fire_after plain_time every_minute c

next_minute_later : (c at : ℕ) → next_minute c ≡ some at → c < at
next_minute_later c at h = (next_fire_after_sound plain_time every_minute c h).later

next_found : next_fire_after plain_time every_minute 61000 ≡ some 120000
unfolding next_fire_after start_of_minute search matches_date bit_set
next_found = refl

next_fire_after_sound_example : IsFiring plain_time every_minute 61000 120000
next_fire_after_sound_example = next_fire_after_sound plain_time every_minute 61000 next_found

two_due : due_firing next_minute 60000 200000 ≡ some (180000, 1)
unfolding due_firing scan next_fire_after start_of_minute search matches_date bit_set
two_due = refl

due_firing_sound_example :
    (60000 < 180000)
    × (180000 ≤ 200000)
    × (1 < 512)
    × (2 < 512 → IsLast next_minute next_minute_later 200000 180000)
due_firing_sound_example =
    due_firing_sound next_minute next_minute_later 60000 200000 180000 1 two_due

due_firing_once_example : due_firing next_minute 180000 200000 ≡ none
due_firing_once_example =
    due_firing_once next_minute next_minute_later 60000 200000 180000 1 two_due (omega arith)

preview-IsAscending_example :
    IsAscending next_minute next_minute_later 5 (preview next_minute 5 40)
    × (length (preview next_minute 5 40) ≤ 40)
    × (length (preview next_minute 5 40) ≤ 32)
preview-IsAscending_example = preview-IsAscending next_minute next_minute_later 5 40

abbrev digest : CronRegisteredBody
digest = record {
  cron_id = 3;
  project_id = 7;
  job_kind = bytes "digest";
  expr = bytes "* * * * *";
  tz = bytes "UTC";
  overlap_policy = CronOverlapPolicy.skip;
  enabled = Bool.true;
  priority = JobPriority.normal;
  class = maintenance;
  payload = [];
}

abbrev registration : Event
registration = record { seq = 1; ts_ms = 60000; body = cron_registered digest }

registered_restarts_example :
    (t' : Tables) × (apply_event empty_tables registration ≡ ok t')
    × (t'.jobs ≡ [])
    × ((r : CronRecord) × (find_row cron_key 3 t'.crons ≡ some r)
        × (r.last_fired_ts_ms ≡ none)
        × (r.last_job_id ≡ none)
        × (watermark_ts_ms r ≡ integer_u64 60000))
    × ((k : OpaqueId) → k ≢ 3 → find_row cron_key k t'.crons ≡ find_row cron_key k [])
registered_restarts_example = registered_restarts empty_tables registration digest refl

abbrev digest_row : CronRecord
digest_row = registered_row registration digest

abbrev digest_job : JobEnqueuedV2
digest_job = record {
  job_id = 9;
  project_id = 7;
  job_kind = bytes "digest";
  idempotency_key = bytes "cron:3:120000";
  priority = JobPriority.normal;
  class = maintenance;
  payload = [];
  run_at_ts_ms = 120000;
  attempt_count_max = 3;
  cron = some (record { cron_id = 3; scheduled_ts_ms = 120000 });
}

abbrev firing : Event
firing = record { seq = 2; ts_ms = 120500; body = job_enqueued (v2 digest_job) }

abbrev origin : JobCronOrigin
origin = record { cron_id = 3; scheduled_ts_ms = 120000 }

abbrev before_firing : Tables
before_firing = record { jobs = []; crons = digest_row ∷ [] }

abbrev after_firing : Tables
after_firing = record {
  jobs = enqueued_row firing (v2 digest_job) ∷ [];
  crons = fired_row 9 origin digest_row ∷ [];
}

firing_accepted : apply_event before_firing firing ≡ ok after_firing
unfolding apply_event jobs_apply crons_apply advance_cron insert_row find_row update_row update_all
    registered_row
firing_accepted = refl

fired_advances_example :
    (after_firing.jobs ≡ enqueued_row firing (v2 digest_job) ∷ [])
    × ((enqueued_row firing (v2 digest_job)).cron_id ≡ some 3)
    × ((r : CronRecord) × (find_row cron_key 3 before_firing.crons ≡ some r)
        × (let after = record r {
          last_fired_ts_ms = some (integer_u64 120000);
          last_job_id = some 9;
        } in
            (find_row cron_key 3 after_firing.crons ≡ some after)
            × (watermark_ts_ms after ≡ integer_u64 120000)))
    × ((k : OpaqueId)
        → k ≢ 3
        → find_row cron_key k after_firing.crons ≡ find_row cron_key k before_firing.crons)
fired_advances_example =
    fired_advances before_firing after_firing firing digest_job origin refl refl firing_accepted
