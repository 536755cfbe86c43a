-- ===== src/Tests.antt =====
-- The store that the examples start from, and the examples, by component.
mod QueueCalls
mod QueueStates
mod Stores
mod Schedules
mod Values
mod IngestRuns
mod Gates
use projectos_core.Common.Result.{ok}
use projectos_core.Common.Table.{find_row, insert_row}
use projectos_core.Log.Consistency.{empty-IsConsistent, IsConsistent}
use projectos_core.Queue.History.{claims, enqueues, history-IsConsistent, call, history}
use projectos_core.Queue.Enqueues.{id_of}
use mathlib.Core.Path.{◌≡◌, refl}
use projectos_core.Common.{false, ℕ, ◌%◌, ◌+◌, none, some, List, [], ◌∷◌, Text, bytes, length}
use projectos_core.Ids.{from_be_bytes, be_bytes, from_bytes, into_bytes, OpaqueId}
use projectos_core.Job.{rank, high, normal, foreground}
use projectos_core.Job.Spec.{
  len_prefix, job_id_input, derive_job_id, kind_new, validate, JobSpec, ClaimedJob, JobFailure,
}
use projectos_core.Projections.{
  enqueued_row, advance_cron, jobs_apply, crons_apply, apply_event, JobDurableState, JobRecord,
  Event,
}
use projectos_core.Backoff.{no_jitter}
use projectos_core.Metrics.{no_metrics}
use projectos_core.Log.{next_event, read_head, commit, append, Lease, Db, empty_db}
use projectos_core.Queue.{
  read_job, count_metric, lease_of, claim_commit, claimed_of, claim_selected, precedes, claimable,
  select_first, select_claimable, enqueued_event, enqueue_appended, enqueue_valid, claim, enqueue,
  Externals, QueueConfig, Sched, default_config,
}

abbrev sum : Text → ℕ
sum [] = 0
sum (b ∷ bs) = b + sum bs

-- A checksum in place of the hash, and a fixed length for every event.
abbrev pub example_externals : Externals
example_externals = record {
  blake3 = λ t.
      0 ∷ 0 ∷ 0 ∷ 0 ∷ 0 ∷ 0 ∷ 0 ∷ 0 ∷ 0 ∷ 0 ∷ 0 ∷ 0 ∷ 0 ∷ 0 ∷ length t % 256 ∷ sum t % 256 ∷ [];
  encoded_len = λ e. 200;
}

abbrev pub example_spec : JobSpec
example_spec = record {
  kind = bytes "ingest.file";
  idempotency_key = bytes "a.txt";
  priority = normal;
  class = foreground;
  payload = 1 ∷ 2 ∷ [];
  run_at_ts_ms = 50;
  retry_count_max = 3;
  cron = none;
}

abbrev pub fresh : Sched
fresh = record { db = empty_db; jitter = no_jitter; metrics = no_metrics }

abbrev pub other_spec : JobSpec
other_spec = record example_spec { idempotency_key = bytes "b.txt" }

-- Two jobs queued, then one of them claimed, then both.
abbrev pub queued_once : Sched
queued_once = (enqueue example_externals 7 example_spec 100 fresh).1

abbrev pub queued_both : Sched
queued_both = (enqueue example_externals 7 other_spec 110 queued_once).1

abbrev pub claimed_once : Sched
claimed_once = (claim default_config 7 foreground (bytes "w1") 200 queued_both).1

abbrev pub claimed_both : Sched
claimed_both = (claim default_config 7 foreground (bytes "w2") 300 claimed_once).1

abbrev pub first_id : OpaqueId
first_id = id_of example_externals 7 example_spec

abbrev pub second_id : OpaqueId
second_id = id_of example_externals 7 other_spec

abbrev pub first_row : JobRecord
first_row = record {
  job_id = first_id;
  project_id = some 7;
  job_kind = bytes "ingest.file";
  idempotency_key = bytes "a.txt";
  state = JobDurableState.queued;
  priority = normal;
  class = foreground;
  payload = 1 ∷ 2 ∷ [];
  enqueued_seq = 1;
  run_at_ts_ms = 50;
  attempt_count = 0;
  attempt_count_max = 3;
  last_error_code = none;
  last_error_detail = none;
  terminal_seq = none;
  wall_ms = none;
  dead_reason_code = none;
  dead_reason_detail = none;
  cron_id = none;
}

abbrev pub first_job : ClaimedJob
first_job = record {
  job_id = first_id;
  project_id = 7;
  kind = bytes "ingest.file";
  payload = 1 ∷ 2 ∷ [];
  attempt_index = 1;
  retry_count_max = 3;
  enqueued_seq = 1;
  worker = bytes "w1";
  claimed_ts_ms = 200;
  claim_latency_ms = 150;
}

abbrev pub second_job : ClaimedJob
second_job = record first_job {
  job_id = second_id;
  enqueued_seq = 2;
  worker = bytes "w2";
  claimed_ts_ms = 300;
  claim_latency_ms = 250;
}

abbrev pub failure : JobFailure
failure = record { code = bytes "io"; detail = bytes "disk"; permanent = false }

pub queued_both-IsConsistent : IsConsistent queued_both.db
unfolding history call
queued_both-IsConsistent =
    (history-IsConsistent example_externals default_config
      ((100, enqueues 7 example_spec) ∷ (110, enqueues 7 other_spec) ∷ []) fresh
      empty-IsConsistent).0

pub claimed_once-IsConsistent : IsConsistent claimed_once.db
unfolding history call
claimed_once-IsConsistent =
    (history-IsConsistent example_externals default_config
      ((200, claims 7 foreground (bytes "w1")) ∷ []) queued_both queued_both-IsConsistent).0

pub first_claimed :
    claim default_config 7 foreground (bytes "w1") 200 queued_both
    ≡ (ok (some first_job), claimed_once)
unfolding enqueue enqueue_valid enqueue_appended validate append commit apply_event crons_apply
    jobs_apply advance_cron insert_row find_row read_head next_event enqueued_event claim
    select_claimable select_first claimable precedes rank claim_selected claimed_of claim_commit
    kind_new lease_of enqueued_row derive_job_id job_id_input len_prefix into_bytes from_bytes
    be_bytes from_be_bytes count_metric
first_claimed = refl

pub second_claimed :
    claim default_config 7 foreground (bytes "w2") 300 claimed_once
    ≡ (ok (some second_job), claimed_both)
unfolding enqueue enqueue_valid enqueue_appended validate append commit apply_event crons_apply
    jobs_apply advance_cron insert_row find_row read_head next_event enqueued_event claim
    select_claimable select_first claimable precedes rank claim_selected claimed_of claim_commit
    kind_new lease_of enqueued_row derive_job_id job_id_input len_prefix into_bytes from_bytes
    be_bytes from_be_bytes count_metric
second_claimed = refl

pub first_found : read_job first_id claimed_once ≡ some first_row
unfolding enqueue enqueue_valid enqueue_appended validate append commit apply_event crons_apply
    jobs_apply advance_cron insert_row find_row read_head next_event enqueued_event claim
    select_claimable select_first claimable precedes rank claim_selected claimed_of claim_commit
    kind_new lease_of enqueued_row derive_job_id job_id_input len_prefix into_bytes from_bytes
    be_bytes from_be_bytes count_metric
first_found = refl
