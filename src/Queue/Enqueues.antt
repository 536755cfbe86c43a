-- ===== src/Queue/Enqueues.antt =====
-- What an enqueue in crates/pos-sched/src/queue.rs fixes for whatever the queue does later.
use projectos_core.Common.{ℕ, ◌≡◌, refl, sym, ap, ◌∙◌, inl, inr, ◌⊎◌, true, none, ◌∷◌, is_some}
use projectos_core.Common.Result.{ok, err, ok_inj, >>=-eq-ok}
use projectos_core.Common.TableLaws.{insert_row-some}
use projectos_core.Ids.{OpaqueId}
use projectos_core.Job.{DomainEvent, JobEnqueuedBody, v2, job_enqueued}
use projectos_core.Job.Spec.{JobSpec, validate, derive_job_id}
use projectos_core.Projections.{
  JobRecord, Event, Tables, job_key, enqueued_row, jobs_apply, crons_apply, apply_event,
}
use projectos_core.Projections.Rows.{or_err-ok}
use projectos_core.Projections.Kept.{IsKept, HasRow, apply_event-HasRow}
use projectos_core.Metrics.{record_enqueued, record_duplicate_enqueue}
use projectos_core.Log.{Db, LogError, oversize_body, apply_failed, out_of_step, append, next_event}
use projectos_core.Log.Consistency.{IsConsistent, append_cases, appended}
use projectos_core.Queue.{
  log, Externals, Sched, enqueued, duplicate, read_job, enqueue, enqueue_valid, enqueue_appended,
  enqueued_event, count_metric,
}
use projectos_core.Queue.Steps.{
  Step, fact, lease, extend, release, Steps, here, more, Steps-IsConsistent,
}

module _ (len : DomainEvent → ℕ) (P : JobRecord → Type 0) (kept : IsKept P) (k : OpaqueId) where
  append-HasRow :
      (b : DomainEvent) (ts : ℕ) (db : Db)
      → IsConsistent db
      → HasRow P k db.tables.jobs
      → HasRow P k (append len b ts db).1.tables.jobs
  append-HasRow b ts db c h = elim (append_cases len b ts db c) [
    | inl (e, q, _) ↦ rw q h
    | inr (t, applied, q) ↦
        rw q (apply_event-HasRow P kept k db.tables (next_event db b ts) applied h)
  ]

  Step-HasRow :
      {a b : Db}
      → Step len a b
      → IsConsistent a
      → HasRow P k a.tables.jobs
      → HasRow P k b.tables.jobs
  Step-HasRow (fact b ts db) c h = append-HasRow b ts db c h
  Step-HasRow (lease l db ls _) c h = h
  Step-HasRow (extend cfg now job db) c h = h
  Step-HasRow (release id db) c h = h

  -- A row stays through any steps, with whatever the row updates keep.
  pub Steps-HasRow :
      {a b : Db}
      → IsConsistent a
      → Steps len a b
      → HasRow P k a.tables.jobs
      → HasRow P k b.tables.jobs
  Steps-HasRow c here h = h
  Steps-HasRow c (more p st) h = Step-HasRow st (Steps-IsConsistent len c p) (Steps-HasRow c p h)

-- The job's id is that of the spec.
abbrev pub id_of : Externals → OpaqueId → JobSpec → OpaqueId
id_of x project_id spec = derive_job_id x.blake3 project_id spec.kind spec.idempotency_key

module _ (x : Externals) where
  -- An enqueue of a valid spec whose job is there already: a duplicate, and nothing is stored.
  pub enqueue-duplicate :
      (project_id : OpaqueId) (spec : JobSpec) (now : ℕ) (s : Sched)
      → validate spec ≡ ok tt
      → is_some (read_job (id_of x project_id spec) s) ≡ true
      → enqueue x project_id spec now s
        ≡ (ok (duplicate (id_of x project_id spec)), count_metric record_duplicate_enqueue s)
  unfolding enqueue enqueue_valid
  enqueue-duplicate project_id spec now s valid h = rw (valid, h) refl

-- What the projections make of an accepted enqueue: its row in front of the others.
enqueued-jobs :
    (t : Tables) (e : Event) (b : JobEnqueuedBody) {t' : Tables}
    → apply_event t (record e { body = job_enqueued b }) ≡ ok t'
    → t'.jobs ≡ enqueued_row (record e { body = job_enqueued b }) b ∷ t.jobs
unfolding apply_event jobs_apply
enqueued-jobs t e b h =
    let event : Event = record e { body = job_enqueued b } in
    let (crons, hc, rest) = >>=-eq-ok (crons_apply event event.body t.crons) _ h in
    let (jobs, hj, last) = >>=-eq-ok (jobs_apply event event.body t.jobs) _ rest in
    ap (λ (t : Tables). t.jobs) (sym (ok_inj last))
    ∙ (insert_row-some job_key (enqueued_row event b) t.jobs (or_err-ok _ _ hj)).0

abbrev pub body_of : Externals → OpaqueId → JobSpec → JobEnqueuedBody
body_of x project_id spec = v2 (record {
  job_id = id_of x project_id spec;
  project_id = project_id;
  job_kind = spec.kind;
  idempotency_key = spec.idempotency_key;
  priority = spec.priority;
  class = spec.class;
  payload = spec.payload;
  run_at_ts_ms = spec.run_at_ts_ms;
  attempt_count_max = spec.retry_count_max;
  cron = spec.cron;
})

-- On a consistent store, an enqueue of a new valid spec either lands its event, its row in front of the others, or is
-- refused with an error of the log and changes nothing.
pub enqueue_lands :
    (x : Externals) (project_id : OpaqueId) (spec : JobSpec) (now : ℕ) (s : Sched)
    → IsConsistent s.db
    → validate spec ≡ ok tt
    → read_job (id_of x project_id spec) s ≡ none
    → ((e : LogError) × (enqueue x project_id spec now s ≡ (err (log e), s)))
      ⊎ ((t : Tables) × (t.jobs
            ≡ enqueued_row
                (next_event s.db (job_enqueued (body_of x project_id spec)) now)
                (body_of x project_id spec)
              ∷ s.db.tables.jobs)
          × (enqueue x project_id spec now s ≡ (
            ok (enqueued (id_of x project_id spec)),
            count_metric record_enqueued (record s {
              db = appended s.db (next_event s.db (job_enqueued (body_of x project_id spec)) now) t;
            }),
          )))
unfolding enqueue enqueue_valid enqueue_appended enqueued_event next_event
enqueue_lands x project_id spec now s c valid absent =
    elim (append_cases x.encoded_len (job_enqueued (body_of x project_id spec)) now s.db c) [
      | inl (oversize_body n, q, _) ↦ inl (oversize_body n, rw (valid, absent, q) refl)
      | inl (apply_failed n e, q, _) ↦ inl (apply_failed n e, rw (valid, absent, q, absent) refl)
      | inl (out_of_step, q, _) ↦ inl (out_of_step, rw (valid, absent, q) refl)
      | inr (t, applied, q) ↦ inr (
        t,
        enqueued-jobs s.db.tables (next_event s.db (job_enqueued (body_of x project_id spec)) now)
            (body_of x project_id spec) applied,
        rw (valid, absent, q) refl,
      )
    ]
