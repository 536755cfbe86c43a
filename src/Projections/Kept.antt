-- ===== src/Projections/Kept.antt =====
-- What stays true of a job's row whatever events follow.
use projectos_core.Common.{
  Text, ◌≡◌, refl, sym, ap, subst, ◌∙◌, inl, inr, List, some, arith, true, ℕ, Option, Bool-cases,
  ◌==◌, ==_iff,
}
use projectos_core.Common.Result.{ok, ok_inj, >>=-eq-ok}
use projectos_core.Common.Table.{find_row, insert_row, update_all}
use projectos_core.Common.TableLaws.{insert_row-some, update_row-some, find-update}
use projectos_core.Ids.{OpaqueId}
use projectos_core.Job.{
  JobPriority, JobClass, JobAttemptFailedBody, JobDeadBody, JobCompletedBody, DomainEvent,
  job_enqueued, job_attempt_failed, job_completed, job_dead, cron_registered, cron_enablement_set,
  other,
}
use projectos_core.Projections.{
  is_terminal, JobRecord, Event, Tables, completed_id, enqueued_row, failed_row, completed_row,
  dead_row, job_key, jobs_apply, crons_apply, apply_event,
}
use projectos_core.Projections.Rows.{or_err-ok, completed_row-key}

-- The three updates of a job's row keep a property of it.
pub record IsKept (P : JobRecord → Type 0) : Type 0 where
  pub failed : (b : JobAttemptFailedBody) (r : JobRecord) → P r → P (failed_row b r)
  pub completed : (e : Event) (b : JobCompletedBody) (r : JobRecord) → P r → P (completed_row e b r)
  pub dead : (e : Event) (b : JobDeadBody) (r : JobRecord) → P r → P (dead_row e b r)

-- There is a row for the job, and it has the property.
abbrev pub HasRow : (JobRecord → Type 0) → OpaqueId → List JobRecord → Type 0
HasRow P k rows = (r : JobRecord) × (find_row job_key k rows ≡ some r) × P r

module _ (P : JobRecord → Type 0) (kept : IsKept P) (k : OpaqueId) where
  update-HasRow :
      (id : OpaqueId) (f : JobRecord → JobRecord) (rows : List JobRecord)
      → ((r : JobRecord) → job_key (f r) ≡ job_key r)
      → ((r : JobRecord) → P r → P (f r))
      → HasRow P k rows
      → HasRow P k (update_all job_key id f rows)
  update-HasRow id f rows keeps keep (r, h, p) = elim (Bool-cases (id == k)) [
    | inl e ↦ (f r, find-update job_key f keeps k id rows ∙ rw (e, h) refl, keep r p)
    | inr e ↦ (r, find-update job_key f keeps k id rows ∙ rw (e, h) refl, p)
  ]

  insert-HasRow :
      (new : JobRecord) (rows : List JobRecord) {rows' : List JobRecord}
      → insert_row job_key new rows ≡ some rows'
      → HasRow P k rows
      → HasRow P k rows'
  insert-HasRow new rows h (r, found, p) =
      let (e, free) = insert_row-some job_key new rows h in
      subst (HasRow P k) (sym e) (elim (Bool-cases (job_key new == k)) [
        | inl same ↦ absurd (
            ground (
              arith,
              free,
              found,
              ap (λ n. find_row job_key n rows) ((==_iff (job_key new) k).0 same),
            ))
        | inr differ ↦ (r, unfold find_row in rw differ found, p)
      ])

  jobs_apply-HasRow :
      (e : Event) (b : DomainEvent) (rows : List JobRecord) {rows' : List JobRecord}
      → jobs_apply e b rows ≡ ok rows'
      → HasRow P k rows
      → HasRow P k rows'
  unfolding jobs_apply
  jobs_apply-HasRow e (job_enqueued b) rows h w =
      insert-HasRow (enqueued_row e b) rows (or_err-ok _ _ h) w
  jobs_apply-HasRow e (job_attempt_failed b) rows h w =
      subst (HasRow P k)
        (sym (update_row-some job_key b.job_id (failed_row b) rows (or_err-ok _ _ h)).0)
        (update-HasRow b.job_id (failed_row b) rows (λ r. unfold failed_row in refl) (kept.failed b)
          w)
  jobs_apply-HasRow e (job_completed b) rows h w =
      subst (HasRow P k)
        (sym
          (update_row-some job_key (completed_id b) (completed_row e b) rows (or_err-ok _ _ h)).0)
        (update-HasRow (completed_id b) (completed_row e b) rows (completed_row-key e b)
          (kept.completed e b) w)
  jobs_apply-HasRow e (job_dead b) rows h w =
      subst (HasRow P k)
        (sym (update_row-some job_key b.job_id (dead_row e b) rows (or_err-ok _ _ h)).0)
        (update-HasRow b.job_id (dead_row e b) rows (λ r. unfold dead_row in refl) (kept.dead e b)
          w)
  jobs_apply-HasRow e (cron_registered b) rows h w = subst (HasRow P k) (ok_inj h) w
  jobs_apply-HasRow e (cron_enablement_set b) rows h w = subst (HasRow P k) (ok_inj h) w
  jobs_apply-HasRow e other rows h w = subst (HasRow P k) (ok_inj h) w

  -- An event that the projections accept keeps the row, and the property of it.
  pub apply_event-HasRow :
      (t : Tables) (e : Event) {t' : Tables}
      → apply_event t e ≡ ok t'
      → HasRow P k t.jobs
      → HasRow P k t'.jobs
  unfolding apply_event
  apply_event-HasRow t e h w =
      let (crons, hc, rest) = >>=-eq-ok (crons_apply e e.body t.crons) _ h in
      let (jobs, hj, last) = >>=-eq-ok (jobs_apply e e.body t.jobs) _ rest in
      subst (λ (t : Tables). HasRow P k t.jobs) (ok_inj last)
        (jobs_apply-HasRow e e.body t.jobs hj w)

pub present-IsKept : IsKept (λ _. Unit)
present-IsKept = record { failed = λ b r p. tt; completed = λ e b r p. tt; dead = λ e b r p. tt }

completed_row-terminal :
    (e : Event) (b : JobCompletedBody) (r : JobRecord)
    → is_terminal (completed_row e b r).state ≡ true
unfolding is_terminal completed_row
completed_row-terminal e (JobCompletedBody.v1 i n) r = refl
completed_row-terminal e (JobCompletedBody.v2 i n w) r = refl

-- A terminal row is never queued again.
pub terminal-IsKept : IsKept (λ r. is_terminal r.state ≡ true)
terminal-IsKept = record {
  failed = λ b r p. unfold failed_row in p;
  completed = λ e b r p. completed_row-terminal e b r;
  dead = λ e b r p. unfold is_terminal dead_row in refl;
}

-- What an enqueue fixes for the whole life of the job.
abbrev pub Fixed : Type 0
Fixed = Option OpaqueId × Text × Text × JobPriority × JobClass × Text × ℕ × ℕ × Option OpaqueId

abbrev pub fixed : JobRecord → Fixed
fixed r = (
  r.project_id, r.job_kind, r.idempotency_key, r.priority, r.class, r.payload, r.enqueued_seq,
  r.attempt_count_max, r.cron_id,
)

completed_row-fixed :
    (e : Event) (b : JobCompletedBody) (r : JobRecord) → fixed (completed_row e b r) ≡ fixed r
unfolding completed_row
completed_row-fixed e (JobCompletedBody.v1 i n) r = refl
completed_row-fixed e (JobCompletedBody.v2 i n w) r = refl

pub fixed-IsKept : (f : Fixed) → IsKept (λ r. fixed r ≡ f)
fixed-IsKept f = record {
  failed = λ b r p. unfold failed_row in p;
  completed = λ e b r p. completed_row-fixed e b r ∙ p;
  dead = λ e b r p. unfold dead_row in p;
}
