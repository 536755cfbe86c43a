-- ===== src/Queue/Failures/Landing.antt =====
-- How the facts that end or retry an attempt in crates/pos-sched/src/queue.rs land: the one row that
-- their event rewrites, and what stays.
use projectos_core.Common.{
  ◌<◌, bytes, ==_ne, ℕ, ◌≤◌, ◌≡◌, refl, ◌≢◌, ◌⊎◌, inl, inr, ◌∙◌, true, false, ◌||◌, none, some,
  arith, ltb, Bool-cases, if◌then◌else◌, ==_self,
}
use projectos_core.Common.Result.{ok}
use projectos_core.Common.Table.{find_row, update_all, update_row, delete_row}
use projectos_core.Common.TableLaws.{find-update, find-delete}
use projectos_core.Ids.{OpaqueId}
use projectos_core.Job.{
  reason_code, JobAttemptFailedBody, JobCompletedBody, JobDeadBody, DomainEvent, job_attempt_failed,
  job_completed, job_dead,
}
use projectos_core.Job.Spec.{ClaimedJob, JobFailure}
use projectos_core.Projections.{
  Event, JobDurableState, JobRecord, Tables, job_key, failed_row, completed_row, dead_row,
  jobs_apply, crons_apply, apply_event, integer_u64, reason_detail,
}
use projectos_core.Log.{lease_key, Db, event_body_len_max, next_event}
use projectos_core.Log.Consistency.{IsConsistent, appended, append_accepted}
use projectos_core.Queue.{Externals, Sched, read_job, logged, append_job_fact, dead_reason}

-- The store after an event that only rewrites one job row.
abbrev pub rewritten : Db → DomainEvent → (ts : ℕ) → OpaqueId → (JobRecord → JobRecord) → Db
rewritten db b ts id f =
    appended db (next_event db b ts)
      (record (db.tables) { jobs = update_all job_key id f db.tables.jobs })

-- What a report on a job does to the store: the rows and the leases of other jobs are as before, and
-- its own lease is gone.
pub record OnlyTouches (id : OpaqueId) (a b : Db) : Type 0 where
  pub other_rows :
      (k : OpaqueId) → k ≢ id → find_row job_key k b.tables.jobs ≡ find_row job_key k a.tables.jobs
  pub other_leases :
      (k : OpaqueId) → k ≢ id → find_row lease_key k b.leases ≡ find_row lease_key k a.leases
  pub own_lease : find_row lease_key id b.leases ≡ none
  pub crons_kept : b.tables.crons ≡ a.tables.crons

-- The store after such an event and the release of the job's lease.
abbrev pub settled : Db → DomainEvent → (ts : ℕ) → OpaqueId → (JobRecord → JobRecord) → Db
settled db b ts id f = record (rewritten db b ts id f) {
  leases = delete_row lease_key id db.leases;
}

dead_reason-code :
    (f : JobFailure)
    → reason_code (dead_reason f)
      ≡ (if f.permanent then bytes "refused" else bytes "retries_exhausted")
unfolding dead_reason reason_code
dead_reason-code f = elim (Bool-cases f.permanent) [ inl e ↦ rw e refl | inr e ↦ rw e refl ]

dead_reason-detail : (f : JobFailure) → reason_detail (dead_reason f) ≡ f.code
unfolding dead_reason reason_detail
dead_reason-detail f = elim (Bool-cases f.permanent) [ inl e ↦ rw e refl | inr e ↦ rw e refl ]

-- The row of a job that a failure ends.
pub dead_row-failure :
    (event : Event) (job : ClaimedJob) (f : JobFailure) (r : JobRecord)
    → dead_row event
        (record { job_id = job.job_id; attempt_count = job.attempt_index; reason = dead_reason f })
        r
      ≡ record r {
        state = JobDurableState.dead;
        terminal_seq = some (integer_u64 event.seq);
        attempt_count = job.attempt_index;
        dead_reason_code =
            some (if f.permanent then bytes "refused" else bytes "retries_exhausted");
        dead_reason_detail = some f.code;
      }
unfolding dead_row
dead_row-failure event job f r = rw (dead_reason-code f, dead_reason-detail f) refl

pub gives_up :
    (f : JobFailure) (job : ClaimedJob)
    → (f.permanent ≡ true) ⊎ (job.retry_count_max < job.attempt_index)
    → (f.permanent || ltb job.retry_count_max job.attempt_index) ≡ true
gives_up f job h = ground arith

pub goes_on :
    (f : JobFailure) (job : ClaimedJob)
    → f.permanent ≡ false
    → job.attempt_index ≤ job.retry_count_max
    → (f.permanent || ltb job.retry_count_max job.attempt_index) ≡ false
goes_on f job h k = ground arith

module _ (b : DomainEvent) (ts : ℕ) (id : OpaqueId) (f : JobRecord → JobRecord)
    (keeps : (r : JobRecord) → job_key (f r) ≡ job_key r) (db : Db) where
  pub settled-OnlyTouches : OnlyTouches id db (settled db b ts id f)
  settled-OnlyTouches = record {
    other_rows = λ k ne. find-update job_key f keeps k id db.tables.jobs ∙ rw (==_ne id k ne) refl;
    other_leases = λ k ne. find-delete lease_key k id db.leases ∙ rw (==_ne id k ne) refl;
    own_lease = find-delete lease_key id id db.leases ∙ rw (==_self id) refl;
    crons_kept = refl;
  }

  pub settled-row :
      (r : JobRecord)
      → find_row job_key id db.tables.jobs ≡ some r
      → find_row job_key id (settled db b ts id f).tables.jobs ≡ some (f r)
  settled-row r h = find-update job_key f keeps id id db.tables.jobs ∙ rw (==_self id, h) refl

-- The event is no longer than the log's limit.
abbrev pub Fits : Externals → DomainEvent → Type 0
Fits x e = x.encoded_len e ≤ event_body_len_max

-- What a failure that ends the job, or is retried at an instant, records.
abbrev pub dead_body : ClaimedJob → JobFailure → JobDeadBody
dead_body job f = record {
  job_id = job.job_id;
  attempt_count = job.attempt_index;
  reason = dead_reason f;
}

abbrev pub retry_body : ClaimedJob → JobFailure → (at : ℕ) → JobAttemptFailedBody
retry_body job f at = record {
  job_id = job.job_id;
  attempt_index = job.attempt_index;
  error_code = f.code;
  error_detail = f.detail;
  retry_at_ts_ms = at;
}

module _ (x : Externals) where
  module _ (now : ℕ) (s : Sched) (c : IsConsistent s.db) where
    fact_lands :
        (b : DomainEvent) (t : Tables)
        → Fits x b
        → apply_event s.db.tables (next_event s.db b now) ≡ ok t
        → append_job_fact x b now s
          ≡ (ok tt, record s { db = appended s.db (next_event s.db b now) t })
    unfolding append_job_fact logged
    fact_lands b t fits h = rw (append_accepted x.encoded_len b now s.db t c fits h) refl

    pub dead_lands :
        (b : JobDeadBody) (r : JobRecord)
        → Fits x (job_dead b)
        → read_job b.job_id s ≡ some r
        → append_job_fact x (job_dead b) now s ≡ (
          ok tt,
          record s {
            db =
                rewritten s.db
                  (job_dead b)
                  now
                  b.job_id
                  (dead_row (next_event s.db (job_dead b) now) b);
          },
        )
    dead_lands b r fits h =
        fact_lands (job_dead b) _ fits
          (unfold apply_event next_event crons_apply jobs_apply update_row in rw h refl)

    pub failed_lands :
        (b : JobAttemptFailedBody) (r : JobRecord)
        → Fits x (job_attempt_failed b)
        → read_job b.job_id s ≡ some r
        → append_job_fact x (job_attempt_failed b) now s ≡ (
          ok tt,
          record s { db = rewritten s.db (job_attempt_failed b) now b.job_id (failed_row b) },
        )
    failed_lands b r fits h =
        fact_lands (job_attempt_failed b) _ fits
          (unfold apply_event next_event crons_apply jobs_apply update_row in rw h refl)

    pub completed_lands :
        (id n wall : ℕ) (r : JobRecord)
        → Fits x (job_completed (JobCompletedBody.v2 id n wall))
        → read_job id s ≡ some r
        → append_job_fact x (job_completed (JobCompletedBody.v2 id n wall)) now s ≡ (
          ok tt,
          record s {
            db = rewritten s.db (job_completed (JobCompletedBody.v2 id n wall)) now id (
                completed_row
                  (next_event s.db (job_completed (JobCompletedBody.v2 id n wall)) now)
                  (JobCompletedBody.v2 id n wall));
          },
        )
    completed_lands id n wall r fits h =
        fact_lands (job_completed (JobCompletedBody.v2 id n wall)) _ fits
          (unfold apply_event next_event crons_apply jobs_apply update_row in rw h refl)
