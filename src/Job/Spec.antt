-- ===== src/Job/Spec.antt =====
-- crates/pos-sched/src/job.rs: validated names, the enqueue spec and its bounds, the derived job
-- id, and what a claim hands out. BLAKE3 is a parameter. The prose of an error is left out; its
-- field name is kept.
use projectos_core.Common.{
  ℕ, ◌*◌, Bool, ◌&&◌, ◌||◌, Option, none, [], ◌∷◌, ◌++◌, Text, bytes, length, take, leb, ltb, ◌==◌,
  if◌then◌else◌, min, u32_max, false, true,
}
use projectos_core.Common.Result.{Result, ok, err}
use projectos_core.Ids.{OpaqueId, be_bytes, into_bytes, from_bytes}
use projectos_core.Job.{JobPriority, normal, JobClass, maintenance, JobCronOrigin}

abbrev pub job_kind_len_max : ℕ
job_kind_len_max = 64

abbrev pub job_idempotency_key_len_max : ℕ
job_idempotency_key_len_max = 128

abbrev pub job_payload_len_max : ℕ
job_payload_len_max = 16 * 1024

abbrev pub job_retry_count_max : ℕ
job_retry_count_max = 16

abbrev pub worker_name_len_max : ℕ
worker_name_len_max = 64

-- A field that `SchedError::InvalidSpec` names.
pub data SpecField : Type 0 where
  idempotency_key payload retry_count_max worker job_kind project : SpecField

pub is_ascii_alphanumeric : ℕ → Bool
is_ascii_alphanumeric c =
    (leb b'0' c && leb c b'9') || ((leb b'A' c && leb c b'Z') || (leb b'a' c && leb c b'z'))

pub kind_byte : ℕ → Bool
unfolding is_ascii_alphanumeric
kind_byte c = is_ascii_alphanumeric c || ((c == b'.') || ((c == b'-') || (c == b'_')))

pub all_bytes : (ℕ → Bool) → Text → Bool
all_bytes p [] = true
all_bytes p (c ∷ cs) = p c && all_bytes p cs

abbrev pub is_empty : Text → Bool
is_empty [] = true
is_empty (_ ∷ _) = false

abbrev negate : Bool → Bool
negate true = false
negate false = true

-- `JobKind::new`: the kind, or the name that is no kind.
unfoldable pub kind_new : Text → Result Text Text
unfolding kind_byte all_bytes
kind_new name =
    if negate (is_empty name) && (leb (length name) job_kind_len_max && all_bytes kind_byte name)
    then ok name
    else err name

-- `WorkerName::new`.
unfoldable pub worker_name_new : Text → Result SpecField Text
worker_name_new name =
    if is_empty name || ltb worker_name_len_max (length name) then err worker else ok name

pub record JobSpec : Type 0 where
  pub kind : Text
  pub idempotency_key : Text
  pub priority : JobPriority
  pub class : JobClass
  pub payload : Text
  pub run_at_ts_ms : ℕ
  pub retry_count_max : ℕ
  pub cron : Option JobCronOrigin

-- `JobSpec::new`: normal priority, maintenance class, runnable now, three retries.
unfoldable pub spec_new : Text → Text → JobSpec
spec_new kind key = record {
  kind = kind;
  idempotency_key = key;
  priority = normal;
  class = maintenance;
  payload = [];
  run_at_ts_ms = 0;
  retry_count_max = 3;
  cron = none;
}

unfoldable pub validate : JobSpec → Result SpecField (Unit {0})
validate s =
    if is_empty s.idempotency_key || ltb job_idempotency_key_len_max (length s.idempotency_key)
    then err idempotency_key
    else (if ltb job_payload_len_max (length s.payload)
        then err payload
        else (if ltb job_retry_count_max s.retry_count_max then err retry_count_max else ok tt))

abbrev pub job_id_domain : Text
job_id_domain = bytes "projectos/job-id/v1"

-- `u32::try_from(len).unwrap_or(u32::MAX).to_be_bytes()`.
unfoldable pub len_prefix : Text → Text
len_prefix t = be_bytes 4 (min (length t) u32_max)

-- What the hasher is fed, in order.
unfoldable pub job_id_input : OpaqueId → Text → Text → Text
job_id_input project_id kind key =
    job_id_domain
    ++ (into_bytes project_id ++ (len_prefix kind ++ (kind ++ (len_prefix key ++ key))))

unfoldable pub derive_job_id : (blake3 : Text → Text) → OpaqueId → Text → Text → OpaqueId
derive_job_id blake3 project_id kind key =
    from_bytes (take 16 (blake3 (job_id_input project_id kind key)))

pub record ClaimedJob : Type 0 where
  pub job_id : OpaqueId
  pub project_id : OpaqueId
  pub kind : Text
  pub payload : Text
  pub attempt_index : ℕ
  pub retry_count_max : ℕ
  pub enqueued_seq : ℕ
  pub worker : Text
  pub claimed_ts_ms : ℕ
  pub claim_latency_ms : ℕ

pub record JobFailure : Type 0 where
  pub code : Text
  pub detail : Text
  pub permanent : Bool

pub data JobLiveState : Type 0 where
  queued running failed done dead : JobLiveState
