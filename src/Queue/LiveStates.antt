-- ===== src/Queue/LiveStates.antt =====
-- The five live states of crates/pos-sched/src/queue.rs, from the row and the lease.
use mathlib.Core.Option.{some_inj}
use projectos_core.Common.{
  ltb→lt, lt→ltb, refl, Bool, ℕ, ◌<◌, ◌≡◌, ◌↔◌, inl, inr, true, false, some, none, Option, ltb,
  Bool-cases, Option-cases,
}
use projectos_core.Common.Table.{find_row}
use projectos_core.Ids.{OpaqueId}
use projectos_core.Job.Spec.{JobLiveState}
use projectos_core.Projections.{JobDurableState, JobRecord}
use projectos_core.Log.{Lease, lease_key}
use projectos_core.Queue.{
  Sched, read_job, expires_after, lease_is_live, live_state_in, live_state_of, live_state_read,
  live_state,
}

running_in :
    (d : JobDurableState) (n : ℕ) (live : Bool)
    → live_state_in d n live ≡ JobLiveState.running
    → (d ≡ JobDurableState.queued) × (live ≡ true)
running_in JobDurableState.done n live h = cc
running_in JobDurableState.dead n live h = cc
running_in JobDurableState.queued n true h = (refl, refl)
running_in JobDurableState.queued n false h = elim (Bool-cases (ltb 0 n)) [
  | inl e ↦ cc (rw e at h)
  | inr e ↦ cc (rw e at h)
]

failed_in :
    (d : JobDurableState) (n : ℕ) (live : Bool)
    → live_state_in d n live ≡ JobLiveState.failed
    → (d ≡ JobDurableState.queued) × (live ≡ false) × (0 < n)
failed_in JobDurableState.done n live h = cc
failed_in JobDurableState.dead n live h = cc
failed_in JobDurableState.queued n true h = cc
failed_in JobDurableState.queued n false h = elim (Bool-cases (ltb 0 n)) [
  | inl e ↦ (refl, refl, ltb→lt 0 n e)
  | inr e ↦ cc (rw e at h)
]

unexpired :
    (now : ℕ) (l : Option Lease)
    → expires_after now l ≡ true
    → (m : Lease) × (l ≡ some m) × (now < m.lease_expires_ts_ms)
unexpired now none h = cc
unexpired now (some l) h = (l, refl, ltb→lt now l.lease_expires_ts_ms h)

-- A job is reported as running exactly if its row is queued and it has a lease that has not expired.
pub running_iff :
    (id : OpaqueId) (now : ℕ) (s : Sched)
    → (live_state id now s ≡ some JobLiveState.running) ↔ (
        ((r : JobRecord) × (read_job id s ≡ some r) × (r.state ≡ JobDurableState.queued))
        × ((l : Lease) × (find_row lease_key id s.db.leases ≡ some l)
            × (now < l.lease_expires_ts_ms)))
unfolding live_state live_state_read live_state_of lease_is_live
running_iff id now s = (
  (λ h. elim (Option-cases (read_job id s)) [
    | inl e ↦ cc (rw e at h)
    | inr (r, e) ↦
        let (q, live) = running_in r.state r.attempt_count _ (some_inj.0 (rw e at h)) in
        ((r, e, q), unexpired now _ live)
  ]),
  (λ h.
      let ((r, e, q), (l, found, live)) = h in
      rw (e, q, found, lt→ltb now l.lease_expires_ts_ms live) refl),
)

-- A job is reported as failed exactly if its row is queued, it has an attempt behind it, and no
-- lease of it is live.
pub failed_iff :
    (id : OpaqueId) (now : ℕ) (s : Sched)
    → (live_state id now s ≡ some JobLiveState.failed) ↔ (
        (lease_is_live id now s.db ≡ false)
        × ((r : JobRecord) × (read_job id s ≡ some r)
            × (r.state ≡ JobDurableState.queued)
            × (0 < r.attempt_count)))
unfolding live_state live_state_read live_state_of
failed_iff id now s = (
  (λ h. elim (Option-cases (read_job id s)) [
    | inl e ↦ cc (rw e at h)
    | inr (r, e) ↦
        let (q, live, tried) = failed_in r.state r.attempt_count _ (some_inj.0 (rw e at h)) in
        (live, (r, e, q, tried))
  ]),
  (λ h. let (live, (r, e, q, tried)) = h in rw (e, q, live, lt→ltb 0 r.attempt_count tried) refl),
)
