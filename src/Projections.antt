-- ===== src/Projections.antt =====
-- The projections of jobs and crons in crates/pos-domain/src/projections.rs, and the rows that
-- crates/pos-domain/src/job_state.rs reads back from them. A row is the typed record that the
-- reader decodes: a column of SQL integers holds what `integer_u64` stores, and the text columns
-- of states, classes and priorities hold their values. Unknown columns, arities and undecodable
-- rows, which no event of these kinds produces, are not modelled.
pub mod Rows
pub mod Kept
pub mod Crons
use projectos_core.Common.{
  ℕ, ◌<◌, Bool, Option, none, some, List, [], ◌∷◌, Text, min, ltb, i64_max, bytes,
}
use projectos_core.Common.Result.{Result, ok, err, ◌>>=◌}
use projectos_core.Common.Table.{map_some, insert_row, update_row, upsert_row}
use projectos_core.Ids.{OpaqueId, to_hex}
use projectos_core.Job.{
  JobPriority, normal, JobClass, maintenance, CronOverlapPolicy, JobCronOrigin, JobDeadReason,
  retries_exhausted, refused, superseded_by_cron, reason_code, JobEnqueuedV2, JobEnqueuedBody, v1,
  v2, JobAttemptFailedBody, JobCompletedBody, JobDeadBody, CronRegisteredBody,
  CronEnablementSetBody, DomainEvent, job_enqueued, job_attempt_failed, job_completed, job_dead,
  cron_registered, cron_enablement_set, other,
}

pub data JobDurableState : Type 0 where
  queued done dead : JobDurableState

unfoldable pub is_terminal : JobDurableState → Bool
is_terminal queued = Bool.false
is_terminal done = Bool.true
is_terminal dead = Bool.true

pub record JobRecord : Type 0 where
  pub job_id : OpaqueId
  pub project_id : Option OpaqueId
  pub job_kind : Text
  pub idempotency_key : Text
  pub state : JobDurableState
  pub priority : JobPriority
  pub class : JobClass
  pub payload : Text
  pub enqueued_seq : ℕ
  pub run_at_ts_ms : ℕ
  pub attempt_count : ℕ
  pub attempt_count_max : ℕ
  pub last_error_code : Option Text
  pub last_error_detail : Option Text
  pub terminal_seq : Option ℕ
  pub wall_ms : Option ℕ
  pub dead_reason_code : Option Text
  pub dead_reason_detail : Option Text
  pub cron_id : Option OpaqueId

-- `JobRecord::attempts_remain`.
unfoldable pub attempts_remain : JobRecord → Bool
attempts_remain r = ltb r.attempt_count r.attempt_count_max

pub record CronRecord : Type 0 where
  pub cron_id : OpaqueId
  pub project_id : OpaqueId
  pub job_kind : Text
  pub expr : Text
  pub tz : Text
  pub overlap_policy : CronOverlapPolicy
  pub enabled : Bool
  pub priority : JobPriority
  pub class : JobClass
  pub payload : Text
  pub registered_seq : ℕ
  pub registered_ts_ms : ℕ
  pub last_fired_ts_ms : Option ℕ
  pub last_job_id : Option OpaqueId

abbrev or_registered : Option ℕ → ℕ → ℕ
or_registered none registered = registered
or_registered (some fired) registered = fired

-- `CronRecord::watermark_ts_ms`.
unfoldable pub watermark_ts_ms : CronRecord → ℕ
watermark_ts_ms r = or_registered r.last_fired_ts_ms r.registered_ts_ms

-- The envelope's `device`, `lamport`, `actor` and `refs` are not read by these projections.
pub record Event : Type 0 where
  pub seq : ℕ
  pub ts_ms : ℕ
  pub body : DomainEvent

pub record Tables : Type 0 where
  pub jobs : List JobRecord
  pub crons : List CronRecord

-- Why a write was refused: the key of an insert is taken, or a strict update found no row.
pub data ApplyError : Type 0 where
  key_taken no_row : ApplyError

abbrev pub or_err : Option (List JobRecord) → ApplyError → Result ApplyError (List JobRecord)
or_err none e = err e
or_err (some rows) e = ok rows

abbrev pub crons_or_err :
    Option (List CronRecord) → ApplyError → Result ApplyError (List CronRecord)
crons_or_err none e = err e
crons_or_err (some rows) e = ok rows

-- `i64::try_from(value).unwrap_or(i64::MAX)`.
abbrev pub integer_u64 : ℕ → ℕ
integer_u64 value = min value i64_max

abbrev job_attempt_count_max_default : ℕ
job_attempt_count_max_default = 5

unfoldable pub enqueued_row : Event → JobEnqueuedBody → JobRecord
enqueued_row event (v1 job_id job_kind) = record {
  job_id = job_id;
  project_id = none;
  job_kind = job_kind;
  idempotency_key = to_hex job_id;
  state = queued;
  priority = normal;
  class = maintenance;
  payload = [];
  enqueued_seq = integer_u64 event.seq;
  run_at_ts_ms = integer_u64 event.ts_ms;
  attempt_count = 0;
  attempt_count_max = job_attempt_count_max_default;
  last_error_code = none;
  last_error_detail = none;
  terminal_seq = none;
  wall_ms = none;
  dead_reason_code = none;
  dead_reason_detail = none;
  cron_id = none;
}
enqueued_row event (v2 b) = record {
  job_id = b.job_id;
  project_id = some b.project_id;
  job_kind = b.job_kind;
  idempotency_key = b.idempotency_key;
  state = queued;
  priority = b.priority;
  class = b.class;
  payload = b.payload;
  enqueued_seq = integer_u64 event.seq;
  run_at_ts_ms = integer_u64 b.run_at_ts_ms;
  attempt_count = 0;
  attempt_count_max = b.attempt_count_max;
  last_error_code = none;
  last_error_detail = none;
  terminal_seq = none;
  wall_ms = none;
  dead_reason_code = none;
  dead_reason_detail = none;
  cron_id = map_some (λ (c : JobCronOrigin). c.cron_id) b.cron;
}

unfoldable pub reason_detail : JobDeadReason → Text
reason_detail (retries_exhausted error_code) = error_code
reason_detail (refused error_code) = error_code
reason_detail (superseded_by_cron cron_id) = to_hex cron_id

-- The assignments of the strict updates, one for each kind of event.
unfoldable pub failed_row : JobAttemptFailedBody → JobRecord → JobRecord
failed_row b r = record r {
  attempt_count = b.attempt_index;
  last_error_code = some b.error_code;
  last_error_detail = some b.error_detail;
  run_at_ts_ms = integer_u64 b.retry_at_ts_ms;
}

unfoldable pub completed_row : Event → JobCompletedBody → JobRecord → JobRecord
completed_row event (JobCompletedBody.v1 _ attempts) r = record r {
  state = done;
  terminal_seq = some (integer_u64 event.seq);
  attempt_count = attempts;
}
completed_row event (JobCompletedBody.v2 _ attempt_count wall_ms) r = record r {
  state = done;
  terminal_seq = some (integer_u64 event.seq);
  attempt_count = attempt_count;
  wall_ms = some (integer_u64 wall_ms);
}

unfoldable pub dead_row : Event → JobDeadBody → JobRecord → JobRecord
dead_row event b r = record r {
  state = dead;
  terminal_seq = some (integer_u64 event.seq);
  attempt_count = b.attempt_count;
  dead_reason_code = some (reason_code b.reason);
  dead_reason_detail = some (reason_detail b.reason);
}

abbrev pub completed_id : JobCompletedBody → OpaqueId
completed_id (JobCompletedBody.v1 job_id _) = job_id
completed_id (JobCompletedBody.v2 job_id _ _) = job_id

abbrev pub job_key : JobRecord → ℕ
job_key r = r.job_id

abbrev pub cron_key : CronRecord → ℕ
cron_key r = r.cron_id

-- `JobsProjection::apply` and the write that it asks for.
unfoldable pub jobs_apply :
    Event → DomainEvent → List JobRecord → Result ApplyError (List JobRecord)
jobs_apply event (job_enqueued body) rows =
    or_err (insert_row job_key (enqueued_row event body) rows) key_taken
jobs_apply event (job_attempt_failed body) rows =
    or_err (update_row job_key body.job_id (failed_row body) rows) no_row
jobs_apply event (job_completed body) rows =
    or_err (update_row job_key (completed_id body) (completed_row event body) rows) no_row
jobs_apply event (job_dead body) rows =
    or_err (update_row job_key body.job_id (dead_row event body) rows) no_row
jobs_apply event _ rows = ok rows

-- Registering an id again replaces the whole row, the watermark with it.
unfoldable pub registered_row : Event → CronRegisteredBody → CronRecord
registered_row event b = record {
  cron_id = b.cron_id;
  project_id = b.project_id;
  job_kind = b.job_kind;
  expr = b.expr;
  tz = b.tz;
  overlap_policy = b.overlap_policy;
  enabled = b.enabled;
  priority = b.priority;
  class = b.class;
  payload = b.payload;
  registered_seq = integer_u64 event.seq;
  registered_ts_ms = integer_u64 event.ts_ms;
  last_fired_ts_ms = none;
  last_job_id = none;
}

unfoldable pub fired_row : OpaqueId → JobCronOrigin → CronRecord → CronRecord
fired_row job_id c r = record r {
  last_fired_ts_ms = some (integer_u64 c.scheduled_ts_ms);
  last_job_id = some job_id;
}

unfoldable pub enabled_row : Bool → CronRecord → CronRecord
enabled_row on r = record r { enabled = on }

-- A job with a cron origin advances its schedule's watermark; any other leaves the crons alone.
unfoldable pub advance_cron :
    OpaqueId → Option JobCronOrigin → List CronRecord → Result ApplyError (List CronRecord)
advance_cron job_id none rows = ok rows
advance_cron job_id (some c) rows =
    crons_or_err (update_row cron_key c.cron_id (fired_row job_id c) rows) no_row

-- `CronsProjection::apply` and the write that it asks for.
unfoldable pub crons_apply :
    Event → DomainEvent → List CronRecord → Result ApplyError (List CronRecord)
crons_apply event (cron_registered body) rows =
    ok (upsert_row cron_key (registered_row event body) rows)
crons_apply event (cron_enablement_set body) rows =
    crons_or_err (update_row cron_key body.cron_id (enabled_row body.enabled) rows) no_row
crons_apply event (job_enqueued (v2 body)) rows = advance_cron body.job_id body.cron rows
crons_apply event _ rows = ok rows

-- `apply_event`: the projections in the order of their table names, proj_crons before proj_jobs.
unfoldable pub apply_event : Tables → Event → Result ApplyError Tables
apply_event t event = do
  crons ← crons_apply event event.body t.crons
  jobs ← jobs_apply event event.body t.jobs
  ok (record { jobs = jobs; crons = crons })
