-- ===== src/Projections/Rows.antt =====
-- What every event does to the rows of jobs and crons: keys stay unique, and a row keeps a shape
-- that its state explains.
use projectos_core.Common.{
  ◌≡◌, refl, sym, subst, ◌⊎◌, true, Option, none, some, List, All, arith, is_some,
}
use projectos_core.Common.Result.{ok, ok_inj, >>=-eq-ok}
use projectos_core.Common.Table.{insert_row, update_row, Unique}
use projectos_core.Common.TableLaws.{
  insert_row-some, insert-Unique, update_row-some, update-Unique, upsert-Unique, update-All,
}
use projectos_core.Ids.{OpaqueId}
use projectos_core.Job.{
  JobDeadReason, reason_code, JobAttemptFailedBody, JobDeadBody, JobCronOrigin, JobEnqueuedBody, v1,
  v2, JobCompletedBody, DomainEvent, job_enqueued, job_attempt_failed, job_completed, job_dead,
  cron_registered, cron_enablement_set, other,
}
use projectos_core.Projections.{
  JobDurableState, JobRecord, CronRecord, Event, Tables, ApplyError, key_taken, no_row, or_err,
  crons_or_err, completed_id, enqueued_row, failed_row, completed_row, dead_row, registered_row,
  fired_row, enabled_row, job_key, cron_key, jobs_apply, advance_cron, crons_apply, apply_event,
}

-- A queued job has no terminal event, a terminal one has; a dead job has a typed reason and its
-- detail.
pub record IsExplained (r : JobRecord) : Type 0 where
  pub open_when_queued : r.state ≡ JobDurableState.queued → r.terminal_seq ≡ none
  pub closed_when_terminal :
      (r.state ≡ JobDurableState.done) ⊎ (r.state ≡ JobDurableState.dead)
      → is_some r.terminal_seq ≡ true
  pub reason_when_dead :
      r.state ≡ JobDurableState.dead
      → (reason : JobDeadReason) × (r.dead_reason_code ≡ some (reason_code reason))
        × (is_some r.dead_reason_detail ≡ true)

queued-IsExplained :
    (r : JobRecord) → r.state ≡ JobDurableState.queued → r.terminal_seq ≡ none → IsExplained r
queued-IsExplained r q t = record {
  open_when_queued = λ _. t;
  closed_when_terminal = λ h. ground arith;
  reason_when_dead = λ h. cc;
}

enqueued-IsExplained : (e : Event) (b : JobEnqueuedBody) → IsExplained (enqueued_row e b)
unfolding enqueued_row
enqueued-IsExplained e (v1 i k) = queued-IsExplained _ refl refl
enqueued-IsExplained e (v2 b) = queued-IsExplained _ refl refl

failed-IsExplained :
    (b : JobAttemptFailedBody) (r : JobRecord) → IsExplained r → IsExplained (failed_row b r)
unfolding failed_row
failed-IsExplained b r h = record {
  open_when_queued = h.open_when_queued;
  closed_when_terminal = h.closed_when_terminal;
  reason_when_dead = h.reason_when_dead;
}

completed-IsExplained :
    (e : Event) (b : JobCompletedBody) (r : JobRecord) → IsExplained (completed_row e b r)
unfolding completed_row
completed-IsExplained e (JobCompletedBody.v1 i n) r = record {
  open_when_queued = λ h. cc;
  closed_when_terminal = λ _. refl;
  reason_when_dead = λ h. cc;
}
completed-IsExplained e (JobCompletedBody.v2 i n w) r = record {
  open_when_queued = λ h. cc;
  closed_when_terminal = λ _. refl;
  reason_when_dead = λ h. cc;
}

dead-IsExplained : (e : Event) (b : JobDeadBody) (r : JobRecord) → IsExplained (dead_row e b r)
unfolding dead_row
dead-IsExplained e b r = record {
  open_when_queued = λ h. cc;
  closed_when_terminal = λ _. refl;
  reason_when_dead = λ _. (b.reason, refl, refl);
}

-- The rows of `proj_jobs` are well formed: one for each id, each with a shape that its state
-- explains.
pub record AreJobs (rows : List JobRecord) : Type 0 where
  pub one_each : Unique job_key rows
  pub explained : All IsExplained rows

pub or_err-ok :
    (o : Option (List JobRecord)) (x : ApplyError) {rows : List JobRecord}
    → or_err o x ≡ ok rows
    → o ≡ some rows
or_err-ok none x h = cc
or_err-ok (some rows) x h = ground arith

pub crons_or_err-ok :
    (o : Option (List CronRecord)) (x : ApplyError) {rows : List CronRecord}
    → crons_or_err o x ≡ ok rows
    → o ≡ some rows
crons_or_err-ok none x h = cc
crons_or_err-ok (some rows) x h = ground arith

insert-AreJobs :
    (r : JobRecord) (rows : List JobRecord) {rows' : List JobRecord}
    → IsExplained r
    → or_err (insert_row job_key r rows) key_taken ≡ ok rows'
    → AreJobs rows
    → AreJobs rows'
insert-AreJobs r rows x h w =
    let done = or_err-ok _ _ h in
    let (e, free) = insert_row-some job_key r rows done in
    record {
      one_each = insert-Unique job_key r rows done w.one_each;
      explained = subst (All IsExplained) (sym e) (x, w.explained);
    }

update-AreJobs :
    (id : OpaqueId) (f : JobRecord → JobRecord) (rows : List JobRecord) {rows' : List JobRecord}
    → ((r : JobRecord) → job_key (f r) ≡ job_key r)
    → ((r : JobRecord) → IsExplained r → IsExplained (f r))
    → or_err (update_row job_key id f rows) no_row ≡ ok rows'
    → AreJobs rows
    → AreJobs rows'
update-AreJobs id f rows keeps x h w =
    let (e, found) = update_row-some job_key id f rows (or_err-ok _ _ h) in
    subst AreJobs (sym e) (record {
      one_each = update-Unique job_key f keeps id rows w.one_each;
      explained = update-All job_key IsExplained f id rows x w.explained;
    })

pub completed_row-key :
    (e : Event) (b : JobCompletedBody) (r : JobRecord) → job_key (completed_row e b r) ≡ job_key r
unfolding completed_row
completed_row-key e (JobCompletedBody.v1 i n) r = refl
completed_row-key e (JobCompletedBody.v2 i n w) r = refl

pub jobs_apply-AreJobs :
    (e : Event) (b : DomainEvent) (rows : List JobRecord) {rows' : List JobRecord}
    → jobs_apply e b rows ≡ ok rows'
    → AreJobs rows
    → AreJobs rows'
unfolding jobs_apply
jobs_apply-AreJobs e (job_enqueued b) rows h w =
    insert-AreJobs (enqueued_row e b) rows (enqueued-IsExplained e b) h w
jobs_apply-AreJobs e (job_attempt_failed b) rows h w =
    update-AreJobs b.job_id (failed_row b) rows (λ r. unfold failed_row in refl)
      (failed-IsExplained b) h w
jobs_apply-AreJobs e (job_completed b) rows h w =
    update-AreJobs (completed_id b) (completed_row e b) rows (completed_row-key e b)
      (λ r _. completed-IsExplained e b r) h w
jobs_apply-AreJobs e (job_dead b) rows h w =
    update-AreJobs b.job_id (dead_row e b) rows (λ r. unfold dead_row in refl)
      (λ r _. dead-IsExplained e b r) h w
jobs_apply-AreJobs e (cron_registered b) rows h w = subst AreJobs (ok_inj h) w
jobs_apply-AreJobs e (cron_enablement_set b) rows h w = subst AreJobs (ok_inj h) w
jobs_apply-AreJobs e other rows h w = subst AreJobs (ok_inj h) w

advance_cron-Unique :
    (id : OpaqueId) (c : Option JobCronOrigin) (rows : List CronRecord) {rows' : List CronRecord}
    → advance_cron id c rows ≡ ok rows'
    → Unique cron_key rows
    → Unique cron_key rows'
unfolding advance_cron
advance_cron-Unique id none rows h u = subst (Unique cron_key) (ok_inj h) u
advance_cron-Unique id (some c) rows h u =
    let (e, found) =
      update_row-some cron_key c.cron_id (fired_row id c) rows (crons_or_err-ok _ _ h) in
    subst (Unique cron_key) (sym e)
      (update-Unique cron_key (fired_row id c) (λ r. unfold fired_row in refl) c.cron_id rows u)

pub crons_apply-Unique :
    (e : Event) (b : DomainEvent) (rows : List CronRecord) {rows' : List CronRecord}
    → crons_apply e b rows ≡ ok rows'
    → Unique cron_key rows
    → Unique cron_key rows'
unfolding crons_apply
crons_apply-Unique e (job_enqueued (v2 b)) rows h u = advance_cron-Unique b.job_id b.cron rows h u
crons_apply-Unique e (cron_registered b) rows h u =
    subst (Unique cron_key) (ok_inj h) (upsert-Unique cron_key (registered_row e b) rows u)
crons_apply-Unique e (cron_enablement_set b) rows h u =
    let (q, found) =
      update_row-some cron_key b.cron_id (enabled_row b.enabled) rows (crons_or_err-ok _ _ h) in
    subst (Unique cron_key) (sym q) (
      update-Unique cron_key (enabled_row b.enabled) (λ r. unfold enabled_row in refl) b.cron_id
        rows u)
crons_apply-Unique e (job_enqueued (v1 i k)) rows h u = subst (Unique cron_key) (ok_inj h) u
crons_apply-Unique e (job_attempt_failed b) rows h u = subst (Unique cron_key) (ok_inj h) u
crons_apply-Unique e (job_completed b) rows h u = subst (Unique cron_key) (ok_inj h) u
crons_apply-Unique e (job_dead b) rows h u = subst (Unique cron_key) (ok_inj h) u
crons_apply-Unique e other rows h u = subst (Unique cron_key) (ok_inj h) u

-- The projected tables are well formed.
pub record AreTables (t : Tables) : Type 0 where
  pub jobs_formed : AreJobs t.jobs
  pub crons_one_each : Unique cron_key t.crons

-- An event that the projections accept keeps the tables well formed: one row for each job id and
-- each cron id, and every job row in a shape that its state explains.
pub apply_event-AreTables :
    (t : Tables) (e : Event) {t' : Tables} → apply_event t e ≡ ok t' → AreTables t → AreTables t'
unfolding apply_event
apply_event-AreTables t e h w =
    let (crons, hc, rest) = >>=-eq-ok _ _ h in
    let (jobs, hj, last) = >>=-eq-ok _ _ rest in
    subst AreTables (ok_inj last) (record {
      jobs_formed = jobs_apply-AreJobs e e.body t.jobs hj w.jobs_formed;
      crons_one_each = crons_apply-Unique e e.body t.crons hc w.crons_one_each;
    })
