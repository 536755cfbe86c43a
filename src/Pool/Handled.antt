-- ===== src/Pool/Handled.antt =====
-- What a run of a claimed job leaves in the queue when its kind has no handler, or the handler panics:
-- crates/pos-sched/src/pool.rs over crates/pos-sched/src/queue.rs.
use projectos_core.Log.{read_head, next_event}
use projectos_core.Queue.{Ran, FailureOutcome, and_then, now_dead, fail}
use projectos_core.Job.{job_dead}
use projectos_core.Common.Result.{err, ok}
use projectos_core.Pool.{run_job, no_handler, handler_get, finish_job, HandlerRegistry}
use projectos_core.Queue.{Sched, Externals, QueueConfig, read_job}
use projectos_core.Job.Spec.{ClaimedJob}
use projectos_core.Projections.{integer_u64, JobRecord, JobDurableState}
use projectos_core.Log.Consistency.{IsConsistent}
use projectos_core.Queue.Failures.Landing.{Fits, dead_body, OnlyTouches}
use projectos_core.Queue.Failures.{fail_dead}
use projectos_core.Common.{◌∷◌, saturating_add, ◌≡◌, some, refl, none, inl, bytes, ℕ}

after_fail :
    (r : Ran FailureOutcome) (outcome : FailureOutcome)
    → r.0 ≡ ok outcome
    → ◌≡◌ {A = Ran (Unit {0})} (and_then r (λ _ t. (ok tt, t))) (ok tt, r.1)
unfolding and_then
after_fail (ok o, t) outcome q = refl
after_fail (err e, t) outcome q = absurd cc

module _ (x : Externals) where
  -- A job whose kind has no handler, on a consistent store that knows the job, is not retried: the
  -- log has one event more, the job is dead with that event's number and this attempt's count, refused
  -- for want of a handler, and its other columns are as before; its lease is gone, and the rows and
  -- leases of other jobs, the schedules and the jitter are as before. The event is to be within the
  -- log's limit.
  pub run_job-unregistered :
      (cfg : QueueConfig) (handlers : HandlerRegistry) (job : ClaimedJob) (started ended now : ℕ)
      (s : Sched) (r : JobRecord)
      → handler_get job.kind handlers ≡ none
      → IsConsistent s.db
      → read_job job.job_id s ≡ some r
      → Fits x (job_dead (dead_body job (no_handler job)))
      → let (res, t) = run_job x cfg handlers job started ended now s in
        (res ≡ ok tt)
        × OnlyTouches job.job_id s.db t.db
        × (t.jitter ≡ s.jitter)
        × (t.db.events
            ≡ next_event s.db (job_dead (dead_body job (no_handler job))) now ∷ s.db.events)
        × (read_job job.job_id t
            ≡ some (record r {
              state = JobDurableState.dead;
              terminal_seq = some (integer_u64 (saturating_add (read_head s.db.events) 1));
              attempt_count = job.attempt_index;
              dead_reason_code = some (bytes "refused");
              dead_reason_detail = some (bytes "no_handler");
            }))
  unfolding run_job finish_job
  run_job-unregistered cfg handlers job started ended now s r missing c h fits =
      let (res, touched, jitter, log, row) =
        fail_dead x cfg job (no_handler job) 0 now s r c h (inl refl) fits in
      rw (missing, after_fail (fail x cfg job (no_handler job) 0 now s) now_dead res)
        (refl, touched, jitter, log, row)
