-- ===== src/Queue/Supersedes.antt =====
-- How crates/pos-sched/src/queue.rs ends the previous job of a schedule.
use projectos_core.Log.{read_head, next_event}
use projectos_core.Job.{reason_code, JobDeadBody, job_dead, superseded_by_cron}
use projectos_core.Log.Consistency.{IsConsistent}
use projectos_core.Common.Result.{err, ok}
use projectos_core.Queue.Failures.Landing.{
  settled-OnlyTouches, OnlyTouches, Fits, settled-row, dead_lands,
}
use projectos_core.Projections.{
  integer_u64, JobRecord, job_key, JobDurableState, is_terminal, dead_row, reason_detail,
}
use projectos_core.Queue.{
  read_job, count_metric, supersede_found, unknown_job, and_then, release_lease, Sched, supersede,
  Externals,
}
use projectos_core.Ids.{to_hex, OpaqueId}
use projectos_core.Common.{
  ◌∷◌, saturating_add, Option-cases, Bool-cases, ℕ, ◌≡◌, refl, inl, inr, ◌⊎◌, none, some, true,
  false, bytes,
}

abbrev pub superseded_body : OpaqueId → JobRecord → (cron_id : OpaqueId) → JobDeadBody
superseded_body id r cron_id = record {
  job_id = id;
  attempt_count = r.attempt_count;
  reason = superseded_by_cron cron_id;
}

-- On a consistent store, superseding a job does one of three things. An unknown job is an error
-- that names it, and a finished one is left alone; in both cases nothing changes. A job that is not
-- finished is
-- dead after it, leased or not, with the number of the one event that the log has more, and the
-- schedule as its reason; its other columns are as before, also its count of attempts, its lease is
-- gone, and the rows and leases of other jobs and the schedules are as before. The event is to be
-- within the log's limit.
pub supersede_decides :
    (x : Externals) (id cron_id : OpaqueId) (now : ℕ) (s : Sched)
    → IsConsistent s.db
    → ((r : JobRecord) → Fits x (job_dead (superseded_body id r cron_id)))
    → let (res, t) = supersede x id cron_id now s in
      ((read_job id s ≡ none) × (res ≡ err (unknown_job id)) × (t ≡ s))
      ⊎ ((r : JobRecord) × (read_job id s ≡ some r)
          × (((is_terminal r.state ≡ true) × (res ≡ ok tt) × (t ≡ s))
              ⊎ ((is_terminal r.state ≡ false)
                  × (res ≡ ok tt)
                  × OnlyTouches id s.db t.db
                  × (t.db.events
                      ≡ next_event s.db (job_dead (superseded_body id r cron_id)) now ∷ s.db.events)
                  × (read_job id t
                      ≡ some (record r {
                        state = JobDurableState.dead;
                        terminal_seq =
                            some (integer_u64 (saturating_add (read_head s.db.events) 1));
                        dead_reason_code = some (bytes "superseded_by_cron");
                        dead_reason_detail = some (to_hex cron_id);
                      })))))
unfolding supersede supersede_found and_then count_metric release_lease dead_row reason_code
    reason_detail next_event
supersede_decides x id cron_id now s c fits = elim (Option-cases (read_job id s)) [
  | inl e ↦ inl (e, rw e refl, rw e refl)
  | inr (r, e) ↦ inr (
    r,
    e,
    elim (Bool-cases (is_terminal r.state)) [
      | inl ended ↦ inl (ended, rw (e, ended) refl, rw (e, ended) refl)
      | inr live ↦
          let body = superseded_body id r cron_id in
          let event = next_event s.db (job_dead body) now in
          let keeps : (r : JobRecord) → job_key (dead_row event body r) ≡ job_key r = λ r. refl in
          inr (
            rw (e, live, dead_lands x now s c body r (fits r) e)
              (
                refl,
                refl,
                settled-OnlyTouches (job_dead body) now id (dead_row event body) keeps s.db,
                refl,
                settled-row (job_dead body) now id (dead_row event body) keeps s.db r e,
              ))
    ],
  )
]
