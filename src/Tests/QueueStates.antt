-- ===== src/Tests/QueueStates.antt =====
-- Examples of the queue's states through later calls, the reaper and the live states.
use projectos_core.Projections.Kept.{fixed}
use projectos_core.Queue.Passes.{live_lease_kept, pass_reaps}
use projectos_core.Log.Consistency.{IsConsistent}
use projectos_core.Job.Spec.{derive_job_id, len_prefix, job_id_input, validate, kind_new}
use projectos_core.Queue.Forever.{history-fixed, terminal_forever}
use projectos_core.Common.Result.{ok}
use projectos_core.Queue.Reaper.{ExpiryFits}
use projectos_core.Common.Table.{update_row, update_all, find_row, delete_row, insert_row}
use projectos_core.Job.{foreground, rank}
use projectos_core.Metrics.{
  observe_kind, bump_at, record_completed, record_enqueued, record_claim, bucket_of, observe,
  get_kind, observe_run,
}
use projectos_core.Queue.History.{call, completes, fails, reaps, history-IsConsistent, history}
use projectos_core.Projections.{
  enqueued_row, apply_event, advance_cron, completed_row, is_terminal, JobDurableState, JobRecord,
  crons_apply, jobs_apply,
}
use projectos_core.Ids.{be_bytes, from_be_bytes, from_bytes, into_bytes}
use projectos_core.Tests.{
  fresh, second_id, second_job, first_job, example_spec, claimed_once, claimed_once-IsConsistent,
  first_id, first_row, first_found, failure, example_externals,
}
use projectos_core.Log.{commit, next_event, read_head, lease_key, append, Lease}
use projectos_core.Queue.{
  release_lease, insert_by_expiry, complete, claimable, read_job, default_config, enqueued_event,
  enqueue_appended, enqueue, and_then, reap_expired_leases, Sched, claim_selected, expired_by,
  enqueue_valid, logged, append_job_fact, claim, select_claimable, select_first, lease_of,
  count_metric, precedes, read_expired_leases, claimed_of, claim_commit,
}
use projectos_core.Common.{some, All, none, length, ◌≡◌, ◌≢◌, ◌≤◌, refl, [], ◌∷◌, arith, bytes}

abbrev completed : Sched
completed = (complete example_externals first_job 12 400 claimed_once).1

abbrev after_completed : Sched
after_completed = (claim default_config 7 foreground (bytes "w2") 500 completed).1

abbrev done_row : JobRecord
done_row = record first_row {
  state = JobDurableState.done;
  attempt_count = 1;
  terminal_seq = some 3;
  wall_ms = some 12;
}

completed-IsConsistent : IsConsistent completed.db
unfolding history call
completed-IsConsistent =
    (history-IsConsistent example_externals default_config ((400, completes first_job 12) ∷ [])
      claimed_once claimed_once-IsConsistent).0

done_found : read_job first_id completed ≡ some done_row
unfolding enqueue enqueue_valid enqueue_appended validate append commit apply_event crons_apply
    jobs_apply advance_cron insert_row find_row read_head next_event enqueued_event claim
    select_claimable select_first claimable precedes rank claim_selected claimed_of claim_commit
    kind_new lease_of enqueued_row derive_job_id job_id_input len_prefix into_bytes from_bytes
    be_bytes from_be_bytes count_metric complete and_then append_job_fact logged release_lease
    update_row update_all completed_row delete_row record_completed observe_run get_kind
    observe_kind observe bucket_of bump_at record_claim record_enqueued
done_found = refl

second_given :
    claim default_config 7 foreground
      (bytes "w2")
      500
      (history example_externals default_config [] completed)
    ≡ (
      ok (some (record second_job { claimed_ts_ms = 500; claim_latency_ms = 450 })),
      after_completed,
    )
unfolding enqueue enqueue_valid enqueue_appended validate append commit apply_event crons_apply
    jobs_apply advance_cron insert_row find_row read_head next_event enqueued_event claim
    select_claimable select_first claimable precedes rank claim_selected claimed_of claim_commit
    kind_new lease_of enqueued_row derive_job_id job_id_input len_prefix into_bytes from_bytes
    be_bytes from_be_bytes count_metric complete and_then append_job_fact logged release_lease
    update_row update_all completed_row delete_row record_completed observe_run get_kind
    observe_kind observe bucket_of bump_at record_claim record_enqueued history
second_given = refl

terminal_forever_example : second_id ≢ first_id
unfolding is_terminal
terminal_forever_example =
    terminal_forever example_externals default_config first_id done_row completed after_completed []
      7 foreground (bytes "w2") 500
      (record second_job { claimed_ts_ms = 500; claim_latency_ms = 450 }) completed-IsConsistent
      done_found refl second_given

history-fixed_example :
    (r' : JobRecord) × (read_job first_id (
        history example_externals default_config
          ((400, fails first_job failure 12) ∷ (60000, reaps) ∷ [])
          claimed_once)
      ≡ some r')
    × (fixed r' ≡ fixed first_row)
history-fixed_example =
    history-fixed example_externals default_config first_id first_row claimed_once
      ((400, fails first_job failure 12) ∷ (60000, reaps) ∷ []) claimed_once-IsConsistent
      first_found

abbrev first_lease : Lease
first_lease = lease_of default_config first_row (bytes "w1") 200

first_leased : find_row lease_key first_id claimed_once.db.leases ≡ some first_lease
unfolding enqueue enqueue_valid enqueue_appended validate append commit apply_event crons_apply
    jobs_apply advance_cron insert_row find_row read_head next_event enqueued_event claim
    select_claimable select_first claimable precedes rank claim_selected claimed_of claim_commit
    kind_new lease_of enqueued_row derive_job_id job_id_input len_prefix into_bytes from_bytes
    be_bytes from_be_bytes count_metric
first_leased = refl

lease_events_fit : All (ExpiryFits example_externals) (read_expired_leases 40000 claimed_once.db)
unfolding enqueue enqueue_valid enqueue_appended validate append commit apply_event crons_apply
    jobs_apply advance_cron insert_row find_row read_head next_event enqueued_event claim
    select_claimable select_first claimable precedes rank claim_selected claimed_of claim_commit
    kind_new lease_of enqueued_row derive_job_id job_id_input len_prefix into_bytes from_bytes
    be_bytes from_be_bytes count_metric read_expired_leases expired_by insert_by_expiry
lease_events_fit = ((omega arith, λ at. omega arith), tt)

none_expired : All (ExpiryFits example_externals) (read_expired_leases 1000 claimed_once.db)
unfolding enqueue enqueue_valid enqueue_appended validate append commit apply_event crons_apply
    jobs_apply advance_cron insert_row find_row read_head next_event enqueued_event claim
    select_claimable select_first claimable precedes rank claim_selected claimed_of claim_commit
    kind_new lease_of enqueued_row derive_job_id job_id_input len_prefix into_bytes from_bytes
    be_bytes from_be_bytes count_metric read_expired_leases expired_by insert_by_expiry
none_expired = tt

live_lease_kept_example :
    let (_, t) = reap_expired_leases example_externals default_config 1000 claimed_once in
    (find_row lease_key first_id t.db.leases ≡ some first_lease)
    × (read_job first_id t ≡ read_job first_id claimed_once)
unfolding lease_of
live_lease_kept_example =
    live_lease_kept example_externals default_config 1000 claimed_once first_id first_lease
      claimed_once-IsConsistent first_leased (omega arith) none_expired

pass_reaps_example :
    let (res, t) = reap_expired_leases example_externals default_config 40000 claimed_once in
    let batch = read_expired_leases 40000 claimed_once.db in
    (res ≡ ok (length batch))
    × (length batch ≤ 64)
    × All (λ l. find_row lease_key l.job_id t.db.leases ≡ none) batch
pass_reaps_example =
    pass_reaps example_externals default_config 40000 claimed_once claimed_once-IsConsistent
      lease_events_fit

nothing_there : read_job first_id fresh ≡ none
unfolding find_row
nothing_there = refl

example_valid : validate example_spec ≡ ok tt
unfolding validate
example_valid = refl
