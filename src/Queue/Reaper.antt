-- ===== src/Queue/Reaper.antt =====
-- The reaper of crates/pos-sched/src/queue.rs: what a pass over the expired leases does.
use mathlib.Core.Option.{some_inj}
use projectos_core.Common.{
  ℕ, ◌≡◌, refl, sym, subst, ◌∙◌, inl, inr, true, false, some, none, Option, arith, ltb, Bool-cases,
  ==_self, ==_ne, saturating_add,
}
use projectos_core.Common.Result.{ok}
use projectos_core.Common.Table.{find_row, delete_row}
use projectos_core.Common.TableLaws.{find-delete}
use projectos_core.Ids.{OpaqueId}
use projectos_core.Job.{JobDeadBody, JobAttemptFailedBody, job_dead, job_attempt_failed}
use projectos_core.Projections.{is_terminal, JobRecord, job_key, dead_row, failed_row}
use projectos_core.Backoff.{delay_ms}
use projectos_core.Log.{Lease, lease_key, Db, next_event}
use projectos_core.Log.Consistency.{IsConsistent}
use projectos_core.Queue.{
  Externals, QueueConfig, Sched, and_then, read_job, release_lease, count_metric, count_dead,
  dead_reason, append_retry, append_failure, owes_attempt, expiry, expired_attempt, reap_found,
}
use projectos_core.Queue.Failures.Landing.{
  Fits, OnlyTouches, settled, settled-OnlyTouches, settled-row, dead_lands, failed_lands,
}

-- What reaping a lease leads to: its lease is gone, at most its job's row has changed, and if there
-- is a row, the attempt of the lease is not owed any more.
pub record IsReaped (l : Lease) (a b : Db) : Type 0 where
  pub touches : OnlyTouches l.job_id a b
  pub counted :
      (r : JobRecord) → find_row job_key l.job_id b.tables.jobs ≡ some r → owes_attempt l r ≡ false

released-OnlyTouches :
    (id : OpaqueId) (db : Db)
    → OnlyTouches id db (record db { leases = delete_row lease_key id db.leases })
released-OnlyTouches id db = record {
  other_rows = λ k ne. refl;
  other_leases = λ k ne. find-delete lease_key k id db.leases ∙ rw (==_ne id k ne) refl;
  own_lease = find-delete lease_key id id db.leases ∙ rw (==_self id) refl;
  crons_kept = refl;
}

-- A dead row owes nothing, nor does one that has counted the lease's attempt.
dead_row-owes :
    (e : _) (b : JobDeadBody) (l : Lease) (r : JobRecord) → owes_attempt l (dead_row e b r) ≡ false
unfolding owes_attempt dead_row is_terminal
dead_row-owes e b l r = refl

failed_row-owes :
    (b : JobAttemptFailedBody) (l : Lease) (r : JobRecord)
    → b.attempt_index ≡ l.attempt_index
    → owes_attempt l (failed_row b r) ≡ false
unfolding owes_attempt failed_row
failed_row-owes b l r h = ground arith

-- What an expired lease that owes its attempt records.
abbrev expired_dead : Lease → JobDeadBody
expired_dead l = record {
  job_id = l.job_id;
  attempt_count = l.attempt_index;
  reason = dead_reason (expiry l);
}

abbrev expired_retry : Lease → (at : ℕ) → JobAttemptFailedBody
expired_retry l at = record {
  job_id = l.job_id;
  attempt_index = l.attempt_index;
  error_code = (expiry l).code;
  error_detail = (expiry l).detail;
  retry_at_ts_ms = at;
}

-- The events that reaping the lease can record are within the log's limit, as they are for a worker
-- with a name of at most sixty-four bytes.
abbrev pub ExpiryFits : Externals → Lease → Type 0
ExpiryFits x l =
    Fits x (job_dead (expired_dead l))
    × ((at : ℕ) → Fits x (job_attempt_failed (expired_retry l at)))

module _ (x : Externals) (cfg : QueueConfig) (now : ℕ) where
  -- Reaping a lease whose attempt is owed: it is counted, or the job is dead.
  owed-IsReaped :
      (l : Lease) (r : JobRecord) (s : Sched)
      → IsConsistent s.db
      → read_job l.job_id s ≡ some r
      → owes_attempt l r ≡ true
      → ExpiryFits x l
      → let (res, t) = reap_found x cfg now l (some r) s in (res ≡ ok tt) × IsReaped l s.db t.db
  unfolding reap_found append_failure append_retry and_then count_dead count_metric release_lease
      expired_attempt expiry
  owed-IsReaped l r s c h owes fits = elim (Bool-cases (ltb r.attempt_count_max l.attempt_index)) [
    | inl over ↦
        let body = expired_dead l in
        let event = next_event s.db (job_dead body) now in
        let keeps : (r : JobRecord) → job_key (dead_row event body r) ≡ job_key r =
          λ r. unfold dead_row in refl in
        rw (owes, over, dead_lands x now s c body r fits.0 h)
          (
            refl,
            record {
              touches =
                  settled-OnlyTouches (job_dead body) now l.job_id (dead_row event body) keeps s.db;
              counted = λ r' h'.
                  subst (λ q. owes_attempt l q ≡ false)
                    (some_inj.0 (
                      sym (
                        settled-row (job_dead body) now l.job_id (dead_row event body) keeps s.db r
                          h)
                      ∙ h'))
                    (dead_row-owes event body l r);
            },
          )
    | inr left ↦
        let (delay, jitter) = delay_ms cfg.backoff l.attempt_index s.jitter in
        let body = expired_retry l (saturating_add now delay) in
        let keeps : (r : JobRecord) → job_key (failed_row body r) ≡ job_key r =
          λ r. unfold failed_row in refl in
        rw
          (
            owes,
            left,
            failed_lands x now (record s { jitter = jitter }) c body r
                (fits.1 (saturating_add now delay)) h,
          )
          (
            refl,
            record {
              touches =
                  settled-OnlyTouches (job_attempt_failed body) now l.job_id (failed_row body) keeps
                    s.db;
              counted = λ r' h'.
                  subst (λ q. owes_attempt l q ≡ false)
                    (some_inj.0 (
                      sym (
                        settled-row (job_attempt_failed body) now l.job_id (failed_row body) keeps
                          s.db r h)
                      ∙ h'))
                    (failed_row-owes body l r refl);
            },
          )
  ]

  -- On a consistent store, reaping a lease whose events are within the log's limit succeeds, and its attempt is then not owed any more.
  pub found-IsReaped :
      (l : Lease) (r : Option JobRecord) (s : Sched)
      → IsConsistent s.db
      → read_job l.job_id s ≡ r
      → ExpiryFits x l
      → let (res, t) = reap_found x cfg now l r s in (res ≡ ok tt) × IsReaped l s.db t.db
  unfolding reap_found release_lease
  found-IsReaped l none s c h fits = (
    refl,
    record {
      touches = released-OnlyTouches l.job_id s.db;
      counted = λ r h'. ground (arith, h, h');
    },
  )
  found-IsReaped l (some r) s c h fits = elim (Bool-cases (owes_attempt l r)) [
    | inl owes ↦ owed-IsReaped l r s c h owes fits
    | inr settled ↦ rw settled (
      refl,
      record {
        touches = released-OnlyTouches l.job_id s.db;
        counted = λ r' h'. subst (λ q. owes_attempt l q ≡ false) (some_inj.0 (sym h ∙ h')) settled;
      },
    )
  ]
