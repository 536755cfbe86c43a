-- ===== src/Queue.antt =====
-- crates/pos-sched/src/queue.rs: enqueue, claim with lease, heartbeat, the terminal transitions and
-- the reaping of expired leases. An operation takes one reading of the clock and the state of the
-- scheduler, and returns its result with the next state; an error keeps the transactions that were
-- committed before it. The SQL statements are functions on the rows; BLAKE3 and the length of an
-- encoded event are parameters. A failing disk is not modelled: an operation that stops between two
-- transactions is one that is not finished (see Queue/Steps).
pub mod Claims
pub mod Steps
pub mod History
pub mod Failures
pub mod Enqueues
pub mod Forever
pub mod Reaper
pub mod Passes
pub mod Leases
pub mod LiveStates
pub mod Supersedes
use projectos_core.Common.{
  ℕ, zero, suc, ◌+◌, ◌-◌, ◌/◌, ◌%◌, ◌<◌, Bool, true, false, ◌&&◌, ◌||◌, not, Option, none, some,
  List, [], ◌∷◌, ◌++◌, map, Text, bytes, text_eq, length, take, is_some, ltb, leb, ◌==◌,
  if◌then◌else◌, min, i64_max, saturating_add, saturating_add_u32,
}
use projectos_core.Common.Result.{Result, ok, err}
use projectos_core.Common.Table.{find_row, insert_row, delete_row}
use projectos_core.Ids.{OpaqueId}
use projectos_core.Job.{
  JobPriority, rank, JobClass, foreground, ingest, maintenance, JobDeadReason, retries_exhausted,
  refused, superseded_by_cron, JobEnqueuedV2, JobEnqueuedBody, v2, JobAttemptFailedBody,
  JobCompletedBody, JobDeadBody, DomainEvent, job_enqueued, job_attempt_failed, job_completed,
  job_dead,
}
use projectos_core.Job.Spec.{
  SpecField, job_kind, JobSpec, validate, derive_job_id, kind_new, ClaimedJob, JobFailure,
  JobLiveState,
}
use projectos_core.Projections.{JobDurableState, JobRecord, is_terminal, job_key, integer_u64}
use projectos_core.Log.{Lease, lease_key, Db, LogError, apply_failed, append}
use projectos_core.Backoff.{BackoffPolicy, JitterSource, default_policy, delay_ms}
use projectos_core.Metrics.{
  SchedulerMetrics, record_enqueued, record_duplicate_enqueue, record_claim, record_completed,
  record_attempt_failed, record_dead, record_lease_reaped,
}

abbrev pub sched_lease_ttl_ms_default : ℕ
sched_lease_ttl_ms_default = 30000

abbrev pub lease_reap_batch_count_max : ℕ
lease_reap_batch_count_max = 64

abbrev pub live_lease_count_max : ℕ
live_lease_count_max = 1024

-- Code that is not in the repository: the hash, and the CBOR encoder's length.
pub record Externals : Type 0 where
  pub blake3 : Text → Text
  pub encoded_len : DomainEvent → ℕ

pub record QueueConfig : Type 0 where
  pub backoff : BackoffPolicy
  pub lease_ttl_ms : ℕ

abbrev pub default_config : QueueConfig
default_config = record { backoff = default_policy; lease_ttl_ms = sched_lease_ttl_ms_default }

-- The database of one project with the queue's jitter counter and metrics.
pub record Sched : Type 0 where
  pub db : Db
  pub jitter : JitterSource
  pub metrics : SchedulerMetrics

pub data SchedError : Type 0 where
  lease_conflict : SchedError
  log : LogError → SchedError
  invalid_spec : SpecField → SchedError
  invalid_schedule : SchedError
  unknown_job : OpaqueId → SchedError

pub data EnqueueOutcome : Type 0 where
  enqueued : OpaqueId → EnqueueOutcome
  duplicate : OpaqueId → EnqueueOutcome

pub data FailureOutcome : Type 0 where
  retrying : (retry_at_ts_ms : ℕ) → FailureOutcome
  now_dead : FailureOutcome

abbrev pub Ran : Type 0 → Type 0
Ran A = Result SchedError A × Sched

-- Goes on with a result, or stops at an error in the state that it left.
unfoldable pub and_then {ℓ} :
    {A : Type 0} {B : Type ℓ}
    → Ran A
    → (A → Sched → Result SchedError B × Sched)
    → Result SchedError B × Sched
and_then (ok a, s) f = f a s
and_then (err e, s) f = (err e, s)

-- `signed`: what SQLite is handed for an unsigned value.
abbrev pub signed : ℕ → ℕ
signed value = min value i64_max

abbrev pub read_job : OpaqueId → Sched → Option JobRecord
read_job id s = find_row job_key id s.db.tables.jobs

-- `append_job_fact`.
unfoldable pub logged : Sched → Result LogError ℕ × Db → Ran (Unit {0})
logged s (ok _, db) = (ok tt, record s { db = db })
logged s (err e, db) = (err (log e), record s { db = db })

unfoldable pub append_job_fact : Externals → DomainEvent → (now : ℕ) → Sched → Ran (Unit {0})
append_job_fact x event now s = logged s (append x.encoded_len event now s.db)

-- `release_lease`.
unfoldable pub release_lease : OpaqueId → Sched → Sched
release_lease id s = record s {
  db = record (s.db) { leases = delete_row lease_key id s.db.leases };
}

unfoldable pub count_metric : (SchedulerMetrics → SchedulerMetrics) → Sched → Sched
count_metric f s = record s { metrics = f s.metrics }

unfoldable pub enqueued_event : OpaqueId → OpaqueId → JobSpec → DomainEvent
enqueued_event job_id project_id spec = job_enqueued (
    v2 (record {
      job_id = job_id;
      project_id = project_id;
      job_kind = spec.kind;
      idempotency_key = spec.idempotency_key;
      priority = spec.priority;
      class = spec.class;
      payload = spec.payload;
      run_at_ts_ms = spec.run_at_ts_ms;
      attempt_count_max = spec.retry_count_max;
      cron = spec.cron;
    }))

-- The append of an enqueue has answered: an insert that was refused is a duplicate if the job is
-- there by now.
unfoldable pub enqueue_appended : OpaqueId → Sched → Result LogError ℕ × Db → Ran EnqueueOutcome
enqueue_appended id s (ok _, db) =
    (ok (enqueued id), count_metric record_enqueued (record s { db = db }))
enqueue_appended id s (err (apply_failed seq e), db) =
    if is_some (find_row job_key id db.tables.jobs)
    then (ok (duplicate id), count_metric record_duplicate_enqueue (record s { db = db }))
    else (err (log (apply_failed seq e)), record s { db = db })
enqueue_appended id s (err e, db) = (err (log e), record s { db = db })

unfoldable pub enqueue_valid :
    Externals
    → OpaqueId
    → JobSpec
    → (now : ℕ) → Result SpecField (Unit {0})
    → Sched
    → Ran EnqueueOutcome
enqueue_valid x project_id spec now (err field) s = (err (invalid_spec field), s)
enqueue_valid x project_id spec now (ok _) s =
    let id = derive_job_id x.blake3 project_id spec.kind spec.idempotency_key in
    if is_some (read_job id s)
    then (ok (duplicate id), count_metric record_duplicate_enqueue s)
    else enqueue_appended id s (append x.encoded_len (enqueued_event id project_id spec) now s.db)

unfoldable pub enqueue : Externals → OpaqueId → JobSpec → (now : ℕ) → Sched → Ran EnqueueOutcome
enqueue x project_id spec now s = enqueue_valid x project_id spec now (validate spec) s

abbrev pub class_eq : JobClass → JobClass → Bool
class_eq foreground foreground = true
class_eq ingest ingest = true
class_eq maintenance maintenance = true
class_eq _ _ = false

abbrev pub is_queued : JobDurableState → Bool
is_queued JobDurableState.queued = true
is_queued _ = false

-- The WHERE clause of `select_claimable`.
unfoldable pub claimable : JobClass → (now : ℕ) → List Lease → JobRecord → Bool
claimable class now leases r =
    is_queued r.state
    && (class_eq r.class class
        && (leb r.run_at_ts_ms (signed now) && not (is_some (find_row lease_key r.job_id leases))))

-- Its ORDER BY: priority rank, then enqueue order.
unfoldable pub precedes : JobRecord → JobRecord → Bool
precedes r s =
    ltb (rank r.priority) (rank s.priority)
    || ((rank r.priority == rank s.priority) && ltb r.enqueued_seq s.enqueued_seq)

abbrev first_of_two : JobRecord → Option JobRecord → JobRecord
first_of_two r none = r
first_of_two r (some s) = if precedes s r then s else r

-- The first row in that order of those that a test accepts: its LIMIT 1.
unfoldable pub select_first : (JobRecord → Bool) → List JobRecord → Option JobRecord
select_first p [] = none
select_first p (r ∷ rs) =
    let rest = select_first p rs in if p r then some (first_of_two r rest) else rest

unfoldable pub select_claimable : JobClass → (now : ℕ) → Db → Option JobRecord
select_claimable class now db = select_first (claimable class now db.leases) db.tables.jobs

unfoldable pub lease_of : QueueConfig → JobRecord → (worker : Text) → (now : ℕ) → Lease
lease_of cfg r worker now = record {
  job_id = r.job_id;
  worker = worker;
  attempt_index = saturating_add_u32 r.attempt_count 1;
  claimed_ts_ms = signed now;
  heartbeat_ts_ms = signed now;
  lease_expires_ts_ms = signed (saturating_add now cfg.lease_ttl_ms);
}

unfoldable pub claimed_of :
    (project_id : OpaqueId) → JobRecord → (worker : Text) → (now : ℕ) → ClaimedJob
claimed_of project_id r worker now = record {
  job_id = r.job_id;
  project_id = project_id;
  kind = r.job_kind;
  payload = r.payload;
  attempt_index = saturating_add_u32 r.attempt_count 1;
  retry_count_max = r.attempt_count_max;
  enqueued_seq = r.enqueued_seq;
  worker = worker;
  claimed_ts_ms = now;
  claim_latency_ms = now - r.run_at_ts_ms;
}

-- The rest of the claim's transaction: a lease that conflicts, or a kind that does not validate,
-- rolls it back.
unfoldable pub claim_commit :
    ClaimedJob → Option (List Lease) → Result Text Text → Sched → Ran (Option ClaimedJob)
claim_commit job none kind s = (err lease_conflict, s)
claim_commit job (some leases) (err _) s = (err (invalid_spec job_kind), s)
claim_commit job (some leases) (ok _) s = (
  ok (some job),
  count_metric (record_claim job.claim_latency_ms)
      (record s { db = record (s.db) { leases = leases } }),
)

unfoldable pub claim_selected :
    QueueConfig
    → (project_id : OpaqueId) → (worker : Text) → (now : ℕ) → Option JobRecord
    → Sched
    → Ran (Option ClaimedJob)
claim_selected cfg project_id worker now none s = (ok none, s)
claim_selected cfg project_id worker now (some r) s =
    claim_commit (claimed_of project_id r worker now)
      (insert_row lease_key (lease_of cfg r worker now) s.db.leases) (kind_new r.job_kind) s

unfoldable pub claim :
    QueueConfig
    → (project_id : OpaqueId) → JobClass
    → (worker : Text) → (now : ℕ) → Sched
    → Ran (Option ClaimedJob)
claim cfg project_id class worker now s =
    claim_selected cfg project_id worker now (select_claimable class now s.db) s

-- The WHERE clause of `heartbeat`: a worker extends only the lease of its own attempt.
unfoldable pub holds : ClaimedJob → Lease → Bool
holds job l =
    (l.job_id == job.job_id)
    && (text_eq l.worker job.worker && (l.attempt_index == job.attempt_index))

abbrev pub beat : QueueConfig → (now : ℕ) → Lease → Lease
beat cfg now l = record l {
  heartbeat_ts_ms = signed now;
  lease_expires_ts_ms = signed (saturating_add now cfg.lease_ttl_ms);
}

unfoldable pub beat_all : QueueConfig → (now : ℕ) → ClaimedJob → List Lease → List Lease
beat_all cfg now job [] = []
beat_all cfg now job (l ∷ ls) =
    (if holds job l then beat cfg now l else l) ∷ beat_all cfg now job ls

unfoldable pub count_held : ClaimedJob → List Lease → ℕ
count_held job [] = 0
count_held job (l ∷ ls) = let n = count_held job ls in if holds job l then suc n else n

unfoldable pub heartbeat : QueueConfig → ClaimedJob → (now : ℕ) → Sched → Ran Bool
heartbeat cfg job now s = (
  ok (count_held job s.db.leases == 1),
  record s { db = record (s.db) { leases = beat_all cfg now job s.db.leases } },
)

-- The fact lands first, then the lease goes.
unfoldable pub complete : Externals → ClaimedJob → (wall_ms now : ℕ) → Sched → Ran (Unit {0})
complete x job wall_ms now s =
    and_then
      (append_job_fact x (job_completed (JobCompletedBody.v2 job.job_id job.attempt_index wall_ms))
        now s)
      λ _ t. (ok tt, count_metric (record_completed job.kind wall_ms) (release_lease job.job_id t))

pub record FailedAttempt : Type 0 where
  pub job_id : OpaqueId
  pub attempt_index : ℕ
  pub retry_count_max : ℕ
  pub now_ms : ℕ

unfoldable pub dead_reason : JobFailure → JobDeadReason
dead_reason f = if f.permanent then refused f.code else retries_exhausted f.code

unfoldable pub append_retry :
    Externals → FailedAttempt → JobFailure → ℕ × JitterSource → Sched → Ran FailureOutcome
append_retry x a f (delay, jitter) s =
    let retry_at = saturating_add a.now_ms delay in
    and_then
      (append_job_fact x
        (job_attempt_failed (record {
          job_id = a.job_id;
          attempt_index = a.attempt_index;
          error_code = f.code;
          error_detail = f.detail;
          retry_at_ts_ms = retry_at;
        }))
        a.now_ms (record s { jitter = jitter }))
      λ _ t. (ok (retrying retry_at), t)

-- Another retry with backoff, or the dead letter queue with a reason.
unfoldable pub append_failure :
    Externals → QueueConfig → FailedAttempt → JobFailure → Sched → Ran FailureOutcome
append_failure x cfg a f s =
    if f.permanent || ltb a.retry_count_max a.attempt_index
    then and_then
        (append_job_fact x
          (job_dead
            (record { job_id = a.job_id; attempt_count = a.attempt_index; reason = dead_reason f }))
          a.now_ms s)
        (λ _ t. (ok now_dead, t))
    else append_retry x a f (delay_ms cfg.backoff a.attempt_index s.jitter) s

unfoldable pub count_dead : FailureOutcome → Sched → Sched
count_dead now_dead s = count_metric record_dead s
count_dead (retrying _) s = s

unfoldable pub attempt_of : ClaimedJob → (now : ℕ) → FailedAttempt
attempt_of job now = record {
  job_id = job.job_id;
  attempt_index = job.attempt_index;
  retry_count_max = job.retry_count_max;
  now_ms = now;
}

unfoldable pub fail :
    Externals
    → QueueConfig
    → ClaimedJob
    → JobFailure
    → (wall_ms now : ℕ) → Sched
    → Ran FailureOutcome
fail x cfg job f wall_ms now s =
    and_then (append_failure x cfg (attempt_of job now) f s) λ outcome t. (
      ok outcome,
      count_dead outcome
          (count_metric (record_attempt_failed job.kind wall_ms) (release_lease job.job_id t)),
    )

unfoldable pub supersede_found :
    Externals
    → OpaqueId
    → (cron_id : OpaqueId) → (now : ℕ) → Option JobRecord
    → Sched
    → Ran (Unit {0})
supersede_found x job_id cron_id now none s = (err (unknown_job job_id), s)
supersede_found x job_id cron_id now (some r) s =
    if is_terminal r.state
    then (ok tt, s)
    else (and_then
        (append_job_fact x
          (job_dead (record {
            job_id = job_id;
            attempt_count = r.attempt_count;
            reason = superseded_by_cron cron_id;
          }))
          now s)
        (λ _ t. (ok tt, count_metric record_dead (release_lease job_id t))))

unfoldable pub supersede :
    Externals → OpaqueId → (cron_id : OpaqueId) → (now : ℕ) → Sched → Ran (Unit {0})
supersede x job_id cron_id now s = supersede_found x job_id cron_id now (read_job job_id s) s

-- A `u32` in decimal; ten digits are enough for one.
unfoldable pub decimal : (fuel : ℕ) → ℕ → Text
decimal zero n = []
decimal (suc fuel) n =
    let more = decimal fuel (n / 10) in
    if ltb n 10 then (b'0' + n) ∷ [] else more ++ (b'0' + n % 10) ∷ []

unfoldable pub expiry : Lease → JobFailure
expiry l = record {
  code = bytes "lease_expired";
  detail =
      bytes "worker "
      ++ (l.worker ++ (bytes " stopped heartbeating attempt " ++ decimal 10 l.attempt_index));
  permanent = false;
}

-- `read_expired_leases`: those at or before now, soonest expiry first, at most a batch of them.
unfoldable pub insert_by_expiry : Lease → List Lease → List Lease
insert_by_expiry l [] = l ∷ []
insert_by_expiry l (m ∷ ms) =
    if leb l.lease_expires_ts_ms m.lease_expires_ts_ms
    then l ∷ m ∷ ms
    else m ∷ insert_by_expiry l ms

unfoldable pub expired_by : (now : ℕ) → List Lease → List Lease
expired_by now [] = []
expired_by now (l ∷ ls) =
    let rest = expired_by now ls in
    if leb l.lease_expires_ts_ms (signed now) then insert_by_expiry l rest else rest

unfoldable pub read_expired_leases : (now : ℕ) → Db → List Lease
read_expired_leases now db = take lease_reap_batch_count_max (expired_by now db.leases)

-- The guard of the reaper: the attempt is still to be counted.
unfoldable pub owes_attempt : Lease → JobRecord → Bool
owes_attempt l r = not (is_terminal r.state) && ltb r.attempt_count l.attempt_index

unfoldable pub expired_attempt : Lease → JobRecord → (now : ℕ) → FailedAttempt
expired_attempt l r now = record {
  job_id = l.job_id;
  attempt_index = l.attempt_index;
  retry_count_max = r.attempt_count_max;
  now_ms = now;
}

unfoldable pub reap_found :
    Externals → QueueConfig → (now : ℕ) → Lease → Option JobRecord → Sched → Ran (Unit {0})
reap_found x cfg now l none s = (ok tt, release_lease l.job_id s)
reap_found x cfg now l (some r) s =
    if owes_attempt l r
    then (and_then (append_failure x cfg (expired_attempt l r now) (expiry l) s)
        λ outcome t. (ok tt, release_lease l.job_id (count_dead outcome t)))
    else (ok tt, release_lease l.job_id s)

unfoldable pub reap_each :
    Externals → QueueConfig → (now : ℕ) → List Lease → (reaped : ℕ) → Sched → Ran ℕ
reap_each x cfg now [] reaped s = (ok reaped, s)
reap_each x cfg now (l ∷ ls) reaped s =
    and_then (reap_found x cfg now l (read_job l.job_id s) s)
      λ _ t. reap_each x cfg now ls (reaped + 1) t

unfoldable pub reap_expired_leases : Externals → QueueConfig → (now : ℕ) → Sched → Ran ℕ
reap_expired_leases x cfg now s =
    and_then (reap_each x cfg now (read_expired_leases now s.db) 0 s)
      λ reaped t. (ok reaped, count_metric (record_lease_reaped reaped) t)

abbrev pub expires_after : (now : ℕ) → Option Lease → Bool
expires_after now none = false
expires_after now (some l) = ltb now l.lease_expires_ts_ms

unfoldable pub lease_is_live : OpaqueId → (now : ℕ) → Db → Bool
lease_is_live id now db = expires_after now (find_row lease_key id db.leases)

abbrev pub queued_state : (attempt_count : ℕ) → (lease_live : Bool) → JobLiveState
queued_state attempt_count true = JobLiveState.running
queued_state attempt_count false =
    if ltb 0 attempt_count then JobLiveState.failed else JobLiveState.queued

abbrev pub live_state_in :
    JobDurableState → (attempt_count : ℕ) → (lease_live : Bool) → JobLiveState
live_state_in JobDurableState.done n live = JobLiveState.done
live_state_in JobDurableState.dead n live = JobLiveState.dead
live_state_in JobDurableState.queued n live = queued_state n live

unfoldable pub live_state_of : JobRecord → (lease_live : Bool) → JobLiveState
live_state_of r lease_live = live_state_in r.state r.attempt_count lease_live

unfoldable pub live_state_read : Option JobRecord → Bool → Option JobLiveState
live_state_read none live = none
live_state_read (some r) live = some (live_state_of r live)

unfoldable pub live_state : OpaqueId → (now : ℕ) → Sched → Option JobLiveState
live_state id now s = live_state_read (read_job id s) (lease_is_live id now s.db)
