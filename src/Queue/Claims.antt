-- ===== src/Queue/Claims.antt =====
-- What `claim` in crates/pos-sched/src/queue.rs hands out.
pub mod Order
use projectos_core.Queue.Claims.Order.{
  IsNext, IsOpen, claimable-IsOpen, select_first-none, select_first-some, Firstly-first, none_free,
}
use mathlib.Core.List.{Memᴰ}
use mathlib.Core.Option.{some_inj}
use projectos_core.Common.{
  ◌||◌, ◌==◌, ◌&&◌, saturating_add_u32, saturating_add, min, ltb, i64_max, ◌∙◌, sym, ◌≢◌, ap, ℕ,
  ◌-◌, ◌≤◌, ◌≡◌, refl, subst, ◌⊎◌, inl, inr, Bool, true, false, none, some, List, [], ◌∷◌, Text,
  All, arith, Bool-cases, Option-cases,
}
use projectos_core.Common.Result.{ok, err}
use projectos_core.Common.Table.{find_row, insert_row}
use projectos_core.Ids.{OpaqueId}
use projectos_core.Job.{
  JobClass, foreground, ingest, maintenance, JobPriority, high, normal, low, rank,
}
use projectos_core.Job.Spec.{job_kind, kind_new, ClaimedJob}
use projectos_core.Projections.{JobDurableState, JobRecord}
use projectos_core.Metrics.{record_claim}
use projectos_core.Log.{Lease, lease_key, Db}
use projectos_core.Queue.{
  QueueConfig, Sched, class_eq, claimable, precedes, select_first, select_claimable, lease_of,
  claimed_of, claim_commit, claim_selected, claim, count_metric, invalid_spec,
}

kind_new_cases : (k : Text) → (kind_new k ≡ ok k) ⊎ (kind_new k ≡ err k)
unfolding kind_new
kind_new_cases k = ground arith

-- A claim without a row of the class that is queued, due and unleased changes nothing and gives
-- nothing. Otherwise it takes the most urgent such row, of these the one enqueued first: it leases it
-- to the worker from now for the lease's time and hands out its fields with the next attempt's number,
-- or, if the row's kind is no valid kind name, refuses and changes nothing.
pub claim_decides :
    (cfg : QueueConfig) (project_id : OpaqueId) (class : JobClass) (worker : Text) (now : ℕ)
    (s : Sched)
    → ((claim cfg project_id class worker now s ≡ (ok none, s))
        × All (λ r. IsOpen class now s.db.leases r → ⊥) s.db.tables.jobs)
      ⊎ ((r : JobRecord) × IsNext class now s.db r
          × (((kind_new r.job_kind ≡ ok r.job_kind)
                × (claim cfg project_id class worker now s ≡ (
                  ok (
                      some (record {
                        job_id = r.job_id;
                        project_id = project_id;
                        kind = r.job_kind;
                        payload = r.payload;
                        attempt_index = saturating_add_u32 r.attempt_count 1;
                        retry_count_max = r.attempt_count_max;
                        enqueued_seq = r.enqueued_seq;
                        worker = worker;
                        claimed_ts_ms = now;
                        claim_latency_ms = now - r.run_at_ts_ms;
                      })),
                  count_metric (record_claim (now - r.run_at_ts_ms)) (record s {
                    db = record (s.db) {
                      leases =
                          record {
                            job_id = r.job_id;
                            worker = worker;
                            attempt_index = saturating_add_u32 r.attempt_count 1;
                            claimed_ts_ms = min now i64_max;
                            heartbeat_ts_ms = min now i64_max;
                            lease_expires_ts_ms = min (saturating_add now cfg.lease_ttl_ms) i64_max;
                          }
                          ∷ s.db.leases;
                    };
                  }),
                )))
              ⊎ ((kind_new r.job_kind ≡ err r.job_kind)
                  × (claim cfg project_id class worker now s ≡ (err (invalid_spec job_kind), s)))))
unfolding claim select_claimable claim_selected insert_row claim_commit claimed_of lease_of
claim_decides cfg project_id class worker now s =
    elim (Option-cases (select_first (claimable class now s.db.leases) s.db.tables.jobs)) [
      | inl e ↦
          inl
            (rw e refl, none_free class now s.db.leases s.db.tables.jobs (select_first-none _ _ e))
      | inr (r, e) ↦
          let (m, q, f) = select_first-some _ _ e in
          let o = claimable-IsOpen class now s.db.leases r q in
          let unleased = o.unleased in
          inr (
            r,
            record {
              present = m;
              open_now = o;
              first = Firstly-first class now s.db.leases s.db.tables.jobs r f;
            },
            elim (kind_new_cases r.job_kind) [
              | inl valid ↦ inl (valid, rw (e, unleased, valid) refl)
              | inr invalid ↦ inr (invalid, rw (e, unleased, invalid) refl)
            ],
          )
    ]

-- What a claim gave out is the next row, and the store has its lease in front.
pub claim-some :
    (cfg : QueueConfig) (project_id : OpaqueId) (class : JobClass) (worker : Text) (now : ℕ)
    (s t : Sched) (job : ClaimedJob)
    → claim cfg project_id class worker now s ≡ (ok (some job), t)
    → (r : JobRecord) × IsNext class now s.db r
      × (job.job_id ≡ r.job_id)
      × (t.db.leases ≡ lease_of cfg r worker now ∷ s.db.leases)
claim-some cfg project_id class worker now s t job h =
    elim (claim_decides cfg project_id class worker now s) [
      | inl (e, _) ↦ ground (arith, sym e ∙ h)
      | inr (r, next, inl (valid, e)) ↦
          unfold count_metric lease_of in
          (r, next, ground (arith, sym e ∙ h), ground (arith, sym e ∙ h))
      | inr (r, next, inr (invalid, e)) ↦ ground (arith, sym e ∙ h)
    ]

-- After a claim that gave out a job, the next claim, of whatever class and worker and at whatever
-- time, does not give out the same job (I2).
pub claims_exclusive :
    (cfg : QueueConfig) (p q : OpaqueId) (c d : JobClass) (v w : Text) (now later : ℕ)
    (s t u : Sched) (job again : ClaimedJob)
    → claim cfg p c v now s ≡ (ok (some job), t)
    → claim cfg q d w later t ≡ (ok (some again), u)
    → again.job_id ≢ job.job_id
claims_exclusive cfg p q c d v w now later s t u job again h k same =
    let (r, next, id, leased) = claim-some cfg p c v now s t job h in
    let (r', next', id', _) = claim-some cfg q d w later t u again k in
    unfold find_row lease_of in
    ground (arith, next'.open_now.unleased, ap (find_row lease_key r'.job_id) leased)
