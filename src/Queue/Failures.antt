-- ===== src/Queue/Failures.antt =====
-- How an attempt ends in crates/pos-sched/src/queue.rs: completion, retry or the dead letter queue.
pub mod Landing
use projectos_core.Queue.Failures.Landing.{
  OnlyTouches, settled, dead_row-failure, gives_up, settled-OnlyTouches, settled-row, Fits,
  dead_body, dead_lands, completed_lands,
}
use projectos_core.Common.{
  ◌∷◌, saturating_add, ◌<◌, bytes, ==_ne, ℕ, ◌≡◌, refl, ap, ◌≢◌, ◌⊎◌, inl, inr, ◌∙◌, true, ◌||◌,
  none, some, ltb, Bool-cases, if◌then◌else◌, ==_self,
}
use projectos_core.Common.Result.{ok}
use projectos_core.Common.Table.{find_row, update_all, update_row, delete_row}
use projectos_core.Common.TableLaws.{find-update, find-delete}
use projectos_core.Ids.{OpaqueId}
use projectos_core.Job.{
  reason_code, JobAttemptFailedBody, JobCompletedBody, JobDeadBody, DomainEvent, job_completed,
  job_dead,
}
use projectos_core.Job.Spec.{ClaimedJob, JobFailure}
use projectos_core.Projections.{
  Event, JobDurableState, JobRecord, Tables, job_key, completed_row, dead_row, jobs_apply,
  crons_apply, apply_event, integer_u64, reason_detail,
}
use projectos_core.Log.{read_head, lease_key, Db, event_body_len_max, next_event}
use projectos_core.Log.Consistency.{IsConsistent, appended, append_accepted}
use projectos_core.Queue.{
  Externals, QueueConfig, Sched, and_then, read_job, logged, append_job_fact, release_lease,
  count_metric, complete, now_dead, dead_reason, append_failure, attempt_of, count_dead, fail,
}

module _ (x : Externals) where
  -- A report of success, on a consistent store, on a job that the log knows: the log has one event
  -- more, the job is done with that event's number, this attempt's count and its time, and its other
  -- columns are as before; its lease is gone, and the rows and leases of other jobs and the schedules
  -- are as before. The event is to be within the log's limit.
  pub complete_done :
      (job : ClaimedJob) (wall now : ℕ) (s : Sched) (r : JobRecord)
      → IsConsistent s.db
      → read_job job.job_id s ≡ some r
      → Fits x (job_completed (JobCompletedBody.v2 job.job_id job.attempt_index wall))
      → let (res, t) = complete x job wall now s in
        (res ≡ ok tt)
        × OnlyTouches job.job_id s.db t.db
        × (t.db.events
            ≡ next_event s.db
                (job_completed (JobCompletedBody.v2 job.job_id job.attempt_index wall))
                now
              ∷ s.db.events)
        × (read_job job.job_id t
            ≡ some (record r {
              state = JobDurableState.done;
              terminal_seq = some (integer_u64 (saturating_add (read_head s.db.events) 1));
              attempt_count = job.attempt_index;
              wall_ms = some (integer_u64 wall);
            }))
  unfolding complete and_then count_metric release_lease completed_row next_event
  complete_done job wall now s r c h fits =
      let body = JobCompletedBody.v2 job.job_id job.attempt_index wall in
      let event = next_event s.db (job_completed body) now in
      let keeps : (r : JobRecord) → job_key (completed_row event body r) ≡ job_key r = λ r. refl in
      rw (completed_lands x now s c job.job_id job.attempt_index wall r fits h) (
        refl,
        settled-OnlyTouches (job_completed body) now job.job_id (completed_row event body) keeps
            s.db,
        refl,
        settled-row (job_completed body) now job.job_id (completed_row event body) keeps s.db r h,
      )

  -- A report of failure, on a consistent store and a known job, that is permanent, or whose attempt is
  -- past the last retry: the log has one event more, the job is dead with that event's number, this
  -- attempt's count, the reason that applies and the failure's code, and its other columns are as
  -- before; its lease is gone, and the rows and leases of other jobs, the schedules and the jitter are
  -- as before. The event is to be within the log's limit.
  pub fail_dead :
      (cfg : QueueConfig) (job : ClaimedJob) (f : JobFailure) (wall now : ℕ) (s : Sched)
      (r : JobRecord)
      → IsConsistent s.db
      → read_job job.job_id s ≡ some r
      → (f.permanent ≡ true) ⊎ (job.retry_count_max < job.attempt_index)
      → Fits x (job_dead (dead_body job f))
      → let (res, t) = fail x cfg job f wall now s in
        (res ≡ ok now_dead)
        × OnlyTouches job.job_id s.db t.db
        × (t.jitter ≡ s.jitter)
        × (t.db.events ≡ next_event s.db (job_dead (dead_body job f)) now ∷ s.db.events)
        × (read_job job.job_id t
            ≡ some (record r {
              state = JobDurableState.dead;
              terminal_seq = some (integer_u64 (saturating_add (read_head s.db.events) 1));
              attempt_count = job.attempt_index;
              dead_reason_code =
                  some (if f.permanent then bytes "refused" else bytes "retries_exhausted");
              dead_reason_detail = some f.code;
            }))
  unfolding fail append_failure and_then count_metric release_lease dead_row attempt_of count_dead
      next_event
  fail_dead cfg job f wall now s r c h why fits =
      let body = dead_body job f in
      let event = next_event s.db (job_dead body) now in
      let keeps : (r : JobRecord) → job_key (dead_row event body r) ≡ job_key r = λ r. refl in
      rw (gives_up f job why, dead_lands x now s c body r fits h)
        (
          refl,
          settled-OnlyTouches (job_dead body) now job.job_id (dead_row event body) keeps s.db,
          refl,
          refl,
          settled-row (job_dead body) now job.job_id (dead_row event body) keeps s.db r h
              ∙ ap some (dead_row-failure event job f r),
        )
