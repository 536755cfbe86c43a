-- ===== src/Tests/QueueCalls.antt =====
-- Examples of the calls of the queue.
use projectos_core.Ids.{to_hex}
use projectos_core.Queue.Supersedes.{supersede_decides, superseded_body}
use projectos_core.Queue.Leases.{heartbeat_decides, IsOwn}
use projectos_core.Projections.Rows.{AreTables}
use projectos_core.Common.Table.{insert_row, find_row}
use projectos_core.Queue.Forever.{enqueue_once}
use projectos_core.Queue.Enqueues.{id_of}
use projectos_core.Metrics.{record_duplicate_enqueue, record_claim}
use projectos_core.Job.{foreground, job_dead, job_completed, JobCompletedBody}
use projectos_core.Log.{read_head, lease_key, Lease, commit, next_event, append}
use projectos_core.Projections.{
  is_terminal, crons_apply, advance_cron, apply_event, JobDurableState, jobs_apply, JobRecord,
  integer_u64,
}
use projectos_core.Log.Consistency.{empty-IsConsistent, IsConsistent}
use projectos_core.Queue.Claims.{claims_exclusive, claim_decides}
use projectos_core.Queue.Claims.Order.{IsNext, IsOpen}
use projectos_core.Common.Result.{ok, err}
use projectos_core.Queue.{
  unknown_job, supersede, read_job, enqueue_appended, duplicate, complete, enqueued, enqueued_event,
  enqueue_valid, fail, count_metric, claim, heartbeat, now_dead, invalid_spec, enqueue,
  default_config,
}
use projectos_core.Queue.History.{reaps, fails, claims, history, history-IsConsistent}
use projectos_core.Job.Spec.{job_kind, kind_new, validate, JobFailure}
use projectos_core.Tests.{
  claimed_once-IsConsistent, queued_once, second_id, second_claimed, failure, queued_both,
  first_found, example_externals, first_id, first_claimed, claimed_once, claimed_both, fresh,
  second_job, example_spec, first_job, first_row,
}
use projectos_core.Queue.Failures.Landing.{dead_body, OnlyTouches}
use projectos_core.Queue.Failures.{fail_dead, complete_done}
use projectos_core.Common.{
  saturating_add_u32, saturating_add, min, i64_max, inl, some, false, All, true, none, ◌-◌, ◌⊎◌, ℕ,
  ◌≡◌, ◌≢◌, refl, [], ◌∷◌, bytes, arith,
}

all_validate : validate example_spec ≡ ok tt
unfolding validate
all_validate = refl

enqueue-fresh :
    enqueue example_externals 7 example_spec 100 fresh
    ≡ (ok (enqueued (id_of example_externals 7 example_spec)), queued_once)
unfolding enqueue enqueue_valid enqueue_appended validate append commit apply_event crons_apply
    jobs_apply advance_cron insert_row find_row read_head next_event enqueued_event
enqueue-fresh = refl

enqueue_once_example :
    enqueue example_externals 7 example_spec 900 (
      history example_externals default_config
        ((200, claims 7 foreground (bytes "w1")) ∷ (60000, reaps) ∷ [])
        queued_once)
    ≡ (
      ok (duplicate (id_of example_externals 7 example_spec)),
      count_metric record_duplicate_enqueue (
          history example_externals default_config
            ((200, claims 7 foreground (bytes "w1")) ∷ (60000, reaps) ∷ [])
            queued_once),
    )
enqueue_once_example =
    enqueue_once example_externals default_config 7 example_spec example_spec 100 900 fresh
      queued_once (enqueued (id_of example_externals 7 example_spec))
      ((200, claims 7 foreground (bytes "w1")) ∷ (60000, reaps) ∷ []) empty-IsConsistent
      all_validate all_validate refl refl enqueue-fresh

claims_exclusive_example : second_id ≢ first_id
claims_exclusive_example =
    claims_exclusive default_config 7 7 foreground foreground (bytes "w1") (bytes "w2") 200 300
      queued_both claimed_once claimed_both first_job second_job first_claimed second_claimed

history-IsConsistent_example :
    IsConsistent
      (history example_externals default_config
        ((400, fails first_job failure 12) ∷ (60000, reaps) ∷ [])
        claimed_once).db
    × AreTables
        (history example_externals default_config
          ((400, fails first_job failure 12) ∷ (60000, reaps) ∷ [])
          claimed_once).db.tables
history-IsConsistent_example =
    history-IsConsistent example_externals default_config
      ((400, fails first_job failure 12) ∷ (60000, reaps) ∷ []) claimed_once
      claimed_once-IsConsistent

claim_decides_example :
    ((claim default_config 7 foreground (bytes "w1") 200 queued_both ≡ (ok none, queued_both))
      × All (λ r. IsOpen foreground 200 queued_both.db.leases r → ⊥) queued_both.db.tables.jobs)
    ⊎ ((r : JobRecord) × IsNext foreground 200 queued_both.db r
        × (((kind_new r.job_kind ≡ ok r.job_kind)
              × (claim default_config 7 foreground (bytes "w1") 200 queued_both ≡ (
                ok (
                    some (record {
                      job_id = r.job_id;
                      project_id = 7;
                      kind = r.job_kind;
                      payload = r.payload;
                      attempt_index = saturating_add_u32 r.attempt_count 1;
                      retry_count_max = r.attempt_count_max;
                      enqueued_seq = r.enqueued_seq;
                      worker = bytes "w1";
                      claimed_ts_ms = 200;
                      claim_latency_ms = 200 - r.run_at_ts_ms;
                    })),
                count_metric (record_claim (200 - r.run_at_ts_ms)) (record queued_both {
                  db = record (queued_both.db) {
                    leases =
                        record {
                          job_id = r.job_id;
                          worker = bytes "w1";
                          attempt_index = saturating_add_u32 r.attempt_count 1;
                          claimed_ts_ms = 200;
                          heartbeat_ts_ms = 200;
                          lease_expires_ts_ms =
                              min (saturating_add 200 default_config.lease_ttl_ms) i64_max;
                        }
                        ∷ queued_both.db.leases;
                  };
                }),
              )))
            ⊎ ((kind_new r.job_kind ≡ err r.job_kind)
                × (claim default_config 7 foreground (bytes "w1") 200 queued_both
                    ≡ (err (invalid_spec job_kind), queued_both)))))
claim_decides_example = claim_decides default_config 7 foreground (bytes "w1") 200 queued_both

fail_dead_example :
    let refused : JobFailure = record failure { permanent = true } in
    let (res, t) = fail example_externals default_config first_job refused 12 400 claimed_once in
    (res ≡ ok now_dead)
    × OnlyTouches first_id claimed_once.db t.db
    × (t.jitter ≡ claimed_once.jitter)
    × (t.db.events
        ≡ next_event claimed_once.db (job_dead (dead_body first_job refused)) 400
          ∷ claimed_once.db.events)
    × (read_job first_id t
        ≡ some (record first_row {
          state = JobDurableState.dead;
          terminal_seq = some (integer_u64 (saturating_add (read_head claimed_once.db.events) 1));
          attempt_count = 1;
          dead_reason_code = some (bytes "refused");
          dead_reason_detail = some (bytes "io");
        }))
fail_dead_example =
    fail_dead example_externals default_config first_job (record failure { permanent = true }) 12
      400 claimed_once first_row claimed_once-IsConsistent first_found (inl refl) (omega arith)

complete_done_example :
    let (res, t) = complete example_externals first_job 12 400 claimed_once in
    (res ≡ ok tt)
    × OnlyTouches first_id claimed_once.db t.db
    × (t.db.events
        ≡ next_event claimed_once.db (job_completed (JobCompletedBody.v2 first_id 1 12)) 400
          ∷ claimed_once.db.events)
    × (read_job first_id t
        ≡ some (record first_row {
          state = JobDurableState.done;
          terminal_seq = some (integer_u64 (saturating_add (read_head claimed_once.db.events) 1));
          attempt_count = 1;
          wall_ms = some 12;
        }))
complete_done_example =
    complete_done example_externals first_job 12 400 claimed_once first_row
      claimed_once-IsConsistent first_found (omega arith)

heartbeat_decides_example :
    let (res, t) = heartbeat default_config first_job 250 claimed_once in
    (((l : Lease) × (find_row lease_key first_id claimed_once.db.leases ≡ some l)
      × IsOwn first_job l
      × (res ≡ ok true)
      × (find_row lease_key first_id t.db.leases
          ≡ some (record l {
            heartbeat_ts_ms = 250;
            lease_expires_ts_ms = min (saturating_add 250 default_config.lease_ttl_ms) i64_max;
          }))
      × ((k : ℕ)
          → k ≢ first_id
          → find_row lease_key k t.db.leases ≡ find_row lease_key k claimed_once.db.leases)))
    ⊎ (((l : Lease)
          → find_row lease_key first_id claimed_once.db.leases ≡ some l
          → IsOwn first_job l
          → ⊥)
        × (res ≡ ok false)
        × (t ≡ claimed_once))
heartbeat_decides_example =
    heartbeat_decides default_config first_job 250 claimed_once claimed_once-IsConsistent

supersede_decides_example :
    let (res, t) = supersede example_externals first_id 3 400 claimed_once in
    ((read_job first_id claimed_once ≡ none)
      × (res ≡ err (unknown_job first_id))
      × (t ≡ claimed_once))
    ⊎ ((r : JobRecord) × (read_job first_id claimed_once ≡ some r)
        × (((is_terminal r.state ≡ true) × (res ≡ ok tt) × (t ≡ claimed_once))
            ⊎ ((is_terminal r.state ≡ false)
                × (res ≡ ok tt)
                × OnlyTouches first_id claimed_once.db t.db
                × (t.db.events
                    ≡ next_event claimed_once.db (job_dead (superseded_body first_id r 3)) 400
                      ∷ claimed_once.db.events)
                × (read_job first_id t
                    ≡ some (record r {
                      state = JobDurableState.dead;
                      terminal_seq =
                          some (integer_u64 (saturating_add (read_head claimed_once.db.events) 1));
                      dead_reason_code = some (bytes "superseded_by_cron");
                      dead_reason_detail = some (to_hex 3);
                    })))))
supersede_decides_example =
    supersede_decides example_externals first_id 3 400 claimed_once claimed_once-IsConsistent
      (λ r. omega arith)
