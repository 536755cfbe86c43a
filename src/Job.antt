-- ===== src/Job.antt =====
-- The scheduler's vocabulary in crates/pos-domain/src/events.rs: priorities, classes, overlap
-- policies, dead reasons and the event bodies of jobs and crons. The CBOR codec is not modelled:
-- an event carries its body as a value.
pub mod Spec
pub mod Identity
pub mod Names
use projectos_core.Common.{ℕ, Bool, Option, none, some, Text, bytes, text_eq, if◌then◌else◌, ◌==◌}
use projectos_core.Ids.{OpaqueId}

pub data JobPriority : Type 0 where
  high normal low : JobPriority

unfoldable pub rank : JobPriority → ℕ
rank high = 0
rank normal = 1
rank low = 2

unfoldable pub from_rank : ℕ → Option JobPriority
from_rank n =
    if n == 0
    then some high
    else (if n == 1 then some normal else (if n == 2 then some low else none))

pub data JobClass : Type 0 where
  foreground ingest maintenance : JobClass

unfoldable pub class_as_str : JobClass → Text
class_as_str foreground = bytes "foreground"
class_as_str ingest = bytes "ingest"
class_as_str maintenance = bytes "maintenance"

unfoldable pub class_parse : Text → Option JobClass
class_parse value =
    if text_eq value (bytes "foreground")
    then some foreground
    else (if text_eq value (bytes "ingest")
        then some ingest
        else (if text_eq value (bytes "maintenance") then some maintenance else none))

pub data CronOverlapPolicy : Type 0 where
  skip queue cancel_previous : CronOverlapPolicy

unfoldable pub policy_as_str : CronOverlapPolicy → Text
policy_as_str skip = bytes "skip"
policy_as_str queue = bytes "queue"
policy_as_str cancel_previous = bytes "cancel_previous"

unfoldable pub policy_parse : Text → Option CronOverlapPolicy
policy_parse value =
    if text_eq value (bytes "skip")
    then some skip
    else (if text_eq value (bytes "queue")
        then some queue
        else (if text_eq value (bytes "cancel_previous") then some cancel_previous else none))

pub record JobCronOrigin : Type 0 where
  pub cron_id : OpaqueId
  pub scheduled_ts_ms : ℕ

pub data JobDeadReason : Type 0 where
  retries_exhausted : (error_code : Text) → JobDeadReason
  refused : (error_code : Text) → JobDeadReason
  superseded_by_cron : (cron_id : OpaqueId) → JobDeadReason

unfoldable pub reason_code : JobDeadReason → Text
reason_code (retries_exhausted _) = bytes "retries_exhausted"
reason_code (refused _) = bytes "refused"
reason_code (superseded_by_cron _) = bytes "superseded_by_cron"

-- The bodies are data types with a constructor for each version of the source's enum.
pub record JobEnqueuedV2 : Type 0 where
  pub job_id : OpaqueId
  pub project_id : OpaqueId
  pub job_kind : Text
  pub idempotency_key : Text
  pub priority : JobPriority
  pub class : JobClass
  pub payload : Text
  pub run_at_ts_ms : ℕ
  pub attempt_count_max : ℕ
  pub cron : Option JobCronOrigin

pub data JobEnqueuedBody : Type 0 where
  v1 : (job_id : OpaqueId) (job_kind : Text) → JobEnqueuedBody
  v2 : JobEnqueuedV2 → JobEnqueuedBody

pub record JobAttemptFailedBody : Type 0 where
  pub job_id : OpaqueId
  pub attempt_index : ℕ
  pub error_code : Text
  pub error_detail : Text
  pub retry_at_ts_ms : ℕ

pub data JobCompletedBody : Type 0 where
  v1 : (job_id : OpaqueId) (attempts : ℕ) → JobCompletedBody
  v2 : (job_id : OpaqueId) (attempt_count wall_ms : ℕ) → JobCompletedBody

pub record JobDeadBody : Type 0 where
  pub job_id : OpaqueId
  pub attempt_count : ℕ
  pub reason : JobDeadReason

pub record CronRegisteredBody : Type 0 where
  pub cron_id : OpaqueId
  pub project_id : OpaqueId
  pub job_kind : Text
  pub expr : Text
  pub tz : Text
  pub overlap_policy : CronOverlapPolicy
  pub enabled : Bool
  pub priority : JobPriority
  pub class : JobClass
  pub payload : Text

pub record CronEnablementSetBody : Type 0 where
  pub cron_id : OpaqueId
  pub enabled : Bool

-- The events that the projections of jobs and crons read. Every other event of the log is `other`:
-- those projections ignore it.
pub data DomainEvent : Type 0 where
  job_enqueued : JobEnqueuedBody → DomainEvent
  job_attempt_failed : JobAttemptFailedBody → DomainEvent
  job_completed : JobCompletedBody → DomainEvent
  job_dead : JobDeadBody → DomainEvent
  cron_registered : CronRegisteredBody → DomainEvent
  cron_enablement_set : CronEnablementSetBody → DomainEvent
  other : DomainEvent
