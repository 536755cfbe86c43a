-- ===== src/Queue/Passes.antt =====
-- A whole pass of `reap_expired_leases` in crates/pos-sched/src/queue.rs over its batch.
use mathlib.Core.Option.{some_inj}
use projectos_core.Common.{
  ℕ, ◌+◌, ◌≤◌, ◌<◌, ◌≡◌, ◌≢◌, refl, sym, ap, ◌∙◌, inl, inr, some, none, List, [], ◌∷◌, All, arith,
  leb, leb→le, Bool-cases, length, length-take-le, All-take, All-map, All-Mem, min, i64_max, ◌==◌,
  ==_iff,
}
use projectos_core.Common.Result.{ok}
use projectos_core.Common.Table.{find_row}
use projectos_core.Common.TableLaws.{find-Mem}
use projectos_core.Ids.{OpaqueId}
use projectos_core.Projections.{job_key}
use projectos_core.Log.{Lease, lease_key, Db}
use projectos_core.Log.Consistency.{IsConsistent}
use projectos_core.Queue.{
  Externals, QueueConfig, Sched, and_then, read_job, count_metric, reap_found, reap_each,
  insert_by_expiry, expired_by, read_expired_leases, reap_expired_leases,
  lease_reap_batch_count_max,
}
use projectos_core.Queue.Steps.{here, reap_found-Steps, Steps-IsConsistent}
use projectos_core.Queue.Reaper.{IsReaped, ExpiryFits, found-IsReaped}

-- What a pass over the leases of `ls` leads to: those leases are gone, and a job without one of them
-- keeps its row and its lease.
pub record ArePassed (ls : List Lease) (a b : Db) : Type 0 where
  pub gone : All (λ l. find_row lease_key l.job_id b.leases ≡ none) ls
  pub none_new :
      (k : OpaqueId) → find_row lease_key k a.leases ≡ none → find_row lease_key k b.leases ≡ none
  pub others_kept :
      (k : OpaqueId)
      → All (λ l. k ≢ l.job_id) ls
      → (find_row job_key k b.tables.jobs ≡ find_row job_key k a.tables.jobs)
        × (find_row lease_key k b.leases ≡ find_row lease_key k a.leases)

pass_one :
    (l : Lease) (ls : List Lease) (a b d : Db)
    → IsReaped l a b
    → ArePassed ls b d
    → ArePassed (l ∷ ls) a d
pass_one l ls a b d one rest = record {
  gone = (rest.none_new l.job_id one.touches.own_lease, rest.gone);
  none_new = λ k h. rest.none_new k (elim (Bool-cases (k == l.job_id)) [
    | inl same ↦ rw ((==_iff k l.job_id).0 same) one.touches.own_lease
    | inr differ ↦
        one.touches.other_leases k (λ e. ground (arith, differ, (==_iff k l.job_id).1 e)) ∙ h
  ]);
  others_kept = λ k h. (
    (rest.others_kept k h.1).0 ∙ one.touches.other_rows k h.0,
    (rest.others_kept k h.1).1 ∙ one.touches.other_leases k h.0,
  );
}

insert_by_expiry-All {κ} :
    (P : Lease → Type κ) (l : Lease) (ls : List Lease)
    → P l
    → All P ls
    → All P (insert_by_expiry l ls)
unfolding insert_by_expiry
insert_by_expiry-All P l [] p h = (p, tt)
insert_by_expiry-All P l (m ∷ ms) p h =
    elim (Bool-cases (leb l.lease_expires_ts_ms m.lease_expires_ts_ms)) [
      | inl e ↦ rw e (p, h)
      | inr e ↦ rw e (h.0, insert_by_expiry-All P l ms p h.1)
    ]

expired_by-All {κ} :
    (P : Lease → Type κ) (now : ℕ) (ls : List Lease)
    → All P ls
    → All (λ l. P l × (l.lease_expires_ts_ms ≤ now)) (expired_by now ls)
unfolding expired_by
expired_by-All P now [] h = tt
expired_by-All P now (l ∷ ls) h = elim (Bool-cases (leb l.lease_expires_ts_ms (min now i64_max))) [
  | inl e ↦
      rw e (
        insert_by_expiry-All _ l _ (h.0, omega (arith, leb→le _ _ e)) (expired_by-All P now ls h.1))
  | inr e ↦ rw e (expired_by-All P now ls h.1)
]

-- The batch holds leases of the table that have expired.
batch-expired :
    (now : ℕ) (db : Db)
    → IsConsistent db
    → All
        (λ l. (find_row lease_key l.job_id db.leases ≡ some l) × (l.lease_expires_ts_ms ≤ now))
        (read_expired_leases now db)
unfolding read_expired_leases
batch-expired now db c = All-take _ lease_reap_batch_count_max _ (
    expired_by-All _ now db.leases
      (All-Mem db.leases λ l m. find-Mem lease_key db.leases c.one_lease_each m))

module _ (x : Externals) (cfg : QueueConfig) (now : ℕ) where
  each_reaped :
      (ls : List Lease) (n : ℕ) (s : Sched)
      → IsConsistent s.db
      → All (ExpiryFits x) ls
      → let (res, t) = reap_each x cfg now ls n s in
        (res ≡ ok (n + length ls)) × ArePassed ls s.db t.db
  unfolding reap_each and_then
  each_reaped [] n s c fits = (
    ap ok (omega arith),
    record { gone = tt; none_new = λ k h. h; others_kept = λ k h. (refl, refl) },
  )
  each_reaped (l ∷ ls) n s c fits =
      let (res, t) = reap_found x cfg now l (read_job l.job_id s) s in
      let (done, reaped) = found-IsReaped x cfg now l (read_job l.job_id s) s c refl fits.0 in
      let c' : IsConsistent t.db =
        Steps-IsConsistent x.encoded_len c
          (reap_found-Steps x cfg now l (read_job l.job_id s) s.db s here) in
      let (count, passed) = each_reaped ls (n + 1) t c' fits.1 in
      rw done (count ∙ ap ok (omega arith), pass_one l ls s.db t.db _ reaped passed)

  -- On a consistent store, a pass of the reaper whose events are within the log's limit succeeds. It counts the leases of its batch, at most sixty-four, and all of
  -- those are gone after it.
  pub pass_reaps :
      (s : Sched)
      → IsConsistent s.db
      → All (ExpiryFits x) (read_expired_leases now s.db)
      → let (res, t) = reap_expired_leases x cfg now s in
        let batch = read_expired_leases now s.db in
        (res ≡ ok (length batch))
        × (length batch ≤ lease_reap_batch_count_max)
        × All (λ l. find_row lease_key l.job_id t.db.leases ≡ none) batch
  unfolding reap_expired_leases and_then count_metric read_expired_leases
  pass_reaps s c fits =
      let (count, passed) = each_reaped (read_expired_leases now s.db) 0 s c fits in
      rw count (
        ap ok (omega arith),
        length-take-le lease_reap_batch_count_max (expired_by now s.db.leases),
        passed.gone,
      )

  -- On a consistent store, a pass of the reaper whose events are within the log's limit never touches a job whose lease has not expired: its row and its lease are
  -- as before.
  pub live_lease_kept :
      (s : Sched) (k : OpaqueId) (l : Lease)
      → IsConsistent s.db
      → find_row lease_key k s.db.leases ≡ some l
      → now < l.lease_expires_ts_ms
      → All (ExpiryFits x) (read_expired_leases now s.db)
      → let (_, t) = reap_expired_leases x cfg now s in
        (find_row lease_key k t.db.leases ≡ some l) × (read_job k t ≡ read_job k s)
  unfolding reap_expired_leases and_then count_metric
  live_lease_kept s k l c h live fits =
      let (count, passed) = each_reaped (read_expired_leases now s.db) 0 s c fits in
      let differ : All (λ m. k ≢ m.job_id) (read_expired_leases now s.db) =
        All-map (read_expired_leases now s.db) (λ m e same. not_expired m e.0 e.1 same)
          (batch-expired now s.db c) in
      let (row, lease) = passed.others_kept k differ in rw count (lease ∙ h, row)
    where
      not_expired :
          (m : Lease)
          → find_row lease_key m.job_id s.db.leases ≡ some m
          → m.lease_expires_ts_ms ≤ now
          → k ≢ m.job_id
      not_expired m found expired same =
          let q : l ≡ m =
            some_inj.0 (sym h ∙ ap (λ i. find_row lease_key i s.db.leases) same ∙ found) in
          omega (arith, live, expired, ap (λ (l : Lease). l.lease_expires_ts_ms) q)
