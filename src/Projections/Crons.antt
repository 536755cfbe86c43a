-- ===== src/Projections/Crons.antt =====
-- The schedules' rows in crates/pos-domain/src/projections.rs: a firing and the job that it makes
-- are one fact, and a registration replaces the row.
use projectos_core.Projections.Rows.{crons_or_err-ok, or_err-ok}
use projectos_core.Common.Result.{ok_inj, ok, >>=-eq-ok}
use projectos_core.Common.Table.{map_some, upsert_row, find_row}
use projectos_core.Job.{
  cron_registered, job_enqueued, JobCronOrigin, JobEnqueuedV2, v2, CronRegisteredBody,
}
use projectos_core.Common.TableLaws.{update_row-some, find-update, find-upsert, insert_row-some}
use projectos_core.Ids.{OpaqueId}
use projectos_core.Projections.{
  registered_row, fired_row, Tables, cron_key, watermark_ts_ms, crons_apply, jobs_apply,
  advance_cron, enqueued_row, job_key, CronRecord, Event, apply_event, integer_u64,
}
use projectos_core.Common.{
  if◌then◌else◌, ◌≡◌, ◌≢◌, refl, sym, ap, ◌∙◌, none, some, ◌∷◌, ==_self, ==_ne, ◌==◌,
}

-- An enqueue event of a schedule that the projections accept does two things at once: the job has a
-- new row in front, with the schedule's id, and the schedule's row, which was there, carries the
-- nominal instant as its watermark and the job as its last, in a row that is otherwise as before. Other schedules stay
-- as they are.
pub fired_advances :
    (t t' : Tables) (e : Event) (b : JobEnqueuedV2) (c : JobCronOrigin)
    → e.body ≡ job_enqueued (v2 b)
    → b.cron ≡ some c
    → apply_event t e ≡ ok t'
    → (t'.jobs ≡ enqueued_row e (v2 b) ∷ t.jobs)
      × ((enqueued_row e (v2 b)).cron_id ≡ some c.cron_id)
      × ((r : CronRecord) × (find_row cron_key c.cron_id t.crons ≡ some r)
          × (let after = record r {
            last_fired_ts_ms = some (integer_u64 c.scheduled_ts_ms);
            last_job_id = some b.job_id;
          } in
              (find_row cron_key c.cron_id t'.crons ≡ some after)
              × (watermark_ts_ms after ≡ integer_u64 c.scheduled_ts_ms)))
      × ((k : OpaqueId)
          → k ≢ c.cron_id
          → find_row cron_key k t'.crons ≡ find_row cron_key k t.crons)
unfolding apply_event jobs_apply crons_apply advance_cron enqueued_row fired_row watermark_ts_ms
fired_advances t t' e b c body cron h =
    let (crons, hc, rest) =
      >>=-eq-ok (crons_apply e (job_enqueued (v2 b)) t.crons) _ (rw body at h) in
    let (jobs, hj, last) = >>=-eq-ok (jobs_apply e (job_enqueued (v2 b)) t.jobs) _ rest in
    let (crons_done, (r, found)) =
      update_row-some cron_key c.cron_id (fired_row b.job_id c) t.crons
        (crons_or_err-ok _ _ (rw cron at hc)) in
    let at_key : (k : OpaqueId)
        → find_row cron_key k t'.crons ≡ (
            if c.cron_id == k
            then map_some (fired_row b.job_id c) (find_row cron_key k t.crons)
            else find_row cron_key k t.crons) =
      λ k.
        ap (λ (t : Tables). find_row cron_key k t.crons) (sym (ok_inj last))
        ∙ ap (find_row cron_key k) crons_done
        ∙ find-update cron_key (fired_row b.job_id c) (λ r. refl) k c.cron_id t.crons in
    (
      ap (λ (t : Tables). t.jobs) (sym (ok_inj last))
          ∙ (insert_row-some job_key (enqueued_row e (v2 b)) t.jobs (or_err-ok _ _ hj)).0,
      rw cron refl,
      (r, found, (at_key c.cron_id ∙ rw (==_self c.cron_id, found) refl, refl)),
      λ k ne. at_key k ∙ rw (==_ne c.cron_id k ne) refl,
    )

-- A registration event always leaves a row for its schedule whose watermark is the instant of the
-- registration, also when the schedule was registered before and had fired since: the earlier
-- watermark and last job are gone. Other schedules and all jobs stay as they are.
pub registered_restarts :
    (t : Tables) (e : Event) (b : CronRegisteredBody)
    → e.body ≡ cron_registered b
    → (t' : Tables) × (apply_event t e ≡ ok t')
      × (t'.jobs ≡ t.jobs)
      × ((r : CronRecord) × (find_row cron_key b.cron_id t'.crons ≡ some r)
          × (r.last_fired_ts_ms ≡ none)
          × (r.last_job_id ≡ none)
          × (watermark_ts_ms r ≡ integer_u64 e.ts_ms))
      × ((k : OpaqueId)
          → k ≢ b.cron_id
          → find_row cron_key k t'.crons ≡ find_row cron_key k t.crons)
unfolding apply_event jobs_apply crons_apply registered_row watermark_ts_ms
registered_restarts t e b body = (
  record { jobs = t.jobs; crons = upsert_row cron_key (registered_row e b) t.crons },
  rw body refl,
  refl,
  (
    registered_row e b,
    find-upsert cron_key b.cron_id (registered_row e b) t.crons ∙ rw (==_self b.cron_id) refl,
    refl,
    refl,
    refl,
  ),
  λ k ne. find-upsert cron_key k (registered_row e b) t.crons ∙ rw (==_ne b.cron_id k ne) refl,
)
