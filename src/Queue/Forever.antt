-- ===== src/Queue/Forever.antt =====
-- What stays true through any later calls of the queue in crates/pos-sched/src/queue.rs.
use projectos_core.Common.{
  ℕ, ◌≡◌, refl, sym, ap, subst, ◌∙◌, ◌≢◌, inl, inr, true, some, List, Text, arith, is_some,
  Option-cases, ==_self,
}
use projectos_core.Common.Result.{ok}
use projectos_core.Common.Table.{find_row}
use projectos_core.Common.TableLaws.{find-Mem}
use projectos_core.Ids.{OpaqueId}
use projectos_core.Job.{JobClass, job_enqueued}
use projectos_core.Job.Spec.{JobSpec, ClaimedJob, validate}
use projectos_core.Projections.{JobRecord, is_terminal, job_key, enqueued_row}
use projectos_core.Projections.Kept.{HasRow, present-IsKept, terminal-IsKept, fixed, fixed-IsKept}
use projectos_core.Metrics.{record_duplicate_enqueue}
use projectos_core.Log.{next_event}
use projectos_core.Log.Consistency.{IsConsistent, IsConsistent-AreTables}
use projectos_core.Queue.{
  Externals, QueueConfig, Sched, EnqueueOutcome, duplicate, read_job, enqueue, claim, count_metric,
}
use projectos_core.Queue.Steps.{Steps-IsConsistent, enqueue-Steps}
use projectos_core.Queue.History.{Call, history, history-Steps}
use projectos_core.Queue.Enqueues.{Steps-HasRow, id_of, body_of, enqueue-duplicate, enqueue_lands}
use projectos_core.Queue.Claims.{claim-some}

-- An enqueue that succeeds, as a new job or as a duplicate, leaves a row for the job.
enqueue-HasRow :
    (x : Externals) (project_id : OpaqueId) (spec : JobSpec) (now : ℕ) (s t : Sched)
    (outcome : EnqueueOutcome)
    → IsConsistent s.db
    → validate spec ≡ ok tt
    → enqueue x project_id spec now s ≡ (ok outcome, t)
    → HasRow (λ _. Unit {0}) (id_of x project_id spec) t.db.tables.jobs
unfolding count_metric find_row
enqueue-HasRow x project_id spec now s t outcome c valid h =
    elim (Option-cases (read_job (id_of x project_id spec) s)) [
      | inr (r, found) ↦
          let q = enqueue-duplicate x project_id spec now s valid (ap is_some found) in
          (
            r,
            ap (λ (u : Sched). read_job (id_of x project_id spec) u)
                  (sym (ap (λ p. p.1) (sym q ∙ h)))
                ∙ found,
            tt,
          )
      | inl absent ↦ elim (enqueue_lands x project_id spec now s c valid absent) [
        | inl (e, q) ↦ absurd (ground (arith, sym q ∙ h))
        | inr (tables, jobs, q) ↦ (
          enqueued_row (next_event s.db (job_enqueued (body_of x project_id spec)) now)
              (body_of x project_id spec),
          ap (λ (u : Sched). read_job (id_of x project_id spec) u) (sym (ap (λ p. p.1) (sym q ∙ h)))
              ∙ ap (find_row job_key (id_of x project_id spec)) jobs
              ∙ (unfold enqueued_row in rw (==_self (id_of x project_id spec)) refl),
          tt,
        )
      ]
    ]

module _ (x : Externals) (cfg : QueueConfig) where
  -- Exactly once (I1): when an enqueue of a valid spec on a consistent store has succeeded, then after any calls a second one in the same
  -- project with the same kind and idempotency key, if its spec is valid, is a duplicate of that
  -- job and stores nothing.
  pub enqueue_once :
      (project_id : OpaqueId) (spec again : JobSpec) (now later : ℕ) (s t : Sched)
      (outcome : EnqueueOutcome) (cs : List (ℕ × Call))
      → IsConsistent s.db
      → validate spec ≡ ok tt
      → validate again ≡ ok tt
      → again.kind ≡ spec.kind
      → again.idempotency_key ≡ spec.idempotency_key
      → enqueue x project_id spec now s ≡ (ok outcome, t)
      → enqueue x project_id again later (history x cfg cs t) ≡ (
        ok (duplicate (id_of x project_id spec)),
        count_metric record_duplicate_enqueue (history x cfg cs t),
      )
  enqueue_once project_id spec again now later s t outcome cs c valid valid' kind key h =
      let c' : IsConsistent t.db =
        subst IsConsistent (ap (λ p. p.1.db) h)
          (Steps-IsConsistent x.encoded_len c (enqueue-Steps x project_id spec now s)) in
      let (r, found, _) =
        Steps-HasRow x.encoded_len (λ _. Unit {0}) present-IsKept (id_of x project_id spec) c'
          (history-Steps x cfg cs t) (enqueue-HasRow x project_id spec now s t outcome c valid h) in
      let same : id_of x project_id again ≡ id_of x project_id spec = rw (kind, key) refl in
      subst
        (λ i.
          enqueue x project_id again later (history x cfg cs t)
          ≡ (ok (duplicate i), count_metric record_duplicate_enqueue (history x cfg cs t)))
        same
        (enqueue-duplicate x project_id again later (history x cfg cs t) valid'
          (rw same (ap is_some found)))

  -- What the enqueue fixed for a job, its project, kind, key, priority, class, payload, place in the
  -- order, retry limit and schedule, is the same after any calls on a consistent store.
  pub history-fixed :
      (id : OpaqueId) (r : JobRecord) (s : Sched) (cs : List (ℕ × Call))
      → IsConsistent s.db
      → read_job id s ≡ some r
      → (r' : JobRecord) × (read_job id (history x cfg cs s) ≡ some r') × (fixed r' ≡ fixed r)
  history-fixed id r s cs c h =
      Steps-HasRow x.encoded_len (λ r'. fixed r' ≡ fixed r) (fixed-IsKept (fixed r)) id c
        (history-Steps x cfg cs s) (r, h, refl)

  -- No claim gives out a job that was done or dead before any calls on a consistent store, whatever
  -- those calls were.
  pub terminal_forever :
      (id : OpaqueId) (r : JobRecord) (s t : Sched) (cs : List (ℕ × Call)) (project_id : OpaqueId)
      (class : JobClass) (worker : Text) (now : ℕ) (job : ClaimedJob)
      → IsConsistent s.db
      → read_job id s ≡ some r
      → is_terminal r.state ≡ true
      → claim cfg project_id class worker now (history x cfg cs s) ≡ (ok (some job), t)
      → job.job_id ≢ id
  terminal_forever id r s t cs project_id class worker now job c h terminal k same =
      let u = history x cfg cs s in
      let (r', found, ended) =
        Steps-HasRow x.encoded_len (λ r. is_terminal r.state ≡ true) terminal-IsKept id c
          (history-Steps x cfg cs s) (r, h, terminal) in
      let (next_row, next, of_row, _) = claim-some cfg project_id class worker now u t job k in
      let tables =
        IsConsistent-AreTables u.db
          (Steps-IsConsistent x.encoded_len c (history-Steps x cfg cs s)) in
      let at_key = find-Mem job_key u.db.tables.jobs tables.jobs_formed.one_each next.present in
      unfold is_terminal in
      ground (
        arith,
        next.open_now.is_queued,
        at_key,
        found,
        ended,
        ap (λ k. find_row job_key k u.db.tables.jobs) (sym of_row ∙ same),
      )
