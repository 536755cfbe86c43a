-- ===== src/Queue/Steps.antt =====
-- The transactions of crates/pos-sched/src/queue.rs as steps of the store. Every operation is a
-- sequence of them, so what holds after any interleaving of steps holds for several workers, and for
-- operations that a crash cut short between two transactions.
use projectos_core.Metrics.{SchedulerMetrics}
use projectos_core.Common.{
  inl, inr, ◌+◌, ℕ, ◌≡◌, refl, Option, none, some, List, [], ◌∷◌, Text, arith, is_some, ◌||◌, ltb,
  Bool-cases,
}
use projectos_core.Common.Result.{Result, ok, err}
use projectos_core.Common.Table.{find_row, insert_row, delete_row, Unique}
use projectos_core.Common.TableLaws.{insert-Unique, delete-Unique}
use projectos_core.Ids.{OpaqueId}
use projectos_core.Job.{JobClass, DomainEvent}
use projectos_core.Job.Spec.{SpecField, JobSpec, validate, derive_job_id, ClaimedJob, JobFailure}
use projectos_core.Projections.{JobRecord, is_terminal, job_key}
use projectos_core.Log.{
  Lease, lease_key, Db, LogError, oversize_body, apply_failed, out_of_step, append,
}
use projectos_core.Log.Consistency.{IsConsistent, append-IsConsistent}
use projectos_core.Backoff.{JitterSource}
use projectos_core.Queue.{
  Externals, QueueConfig, Sched, FailureOutcome, retrying, now_dead, Ran, and_then, read_job,
  logged, append_job_fact, release_lease, count_metric, enqueue_appended, enqueue_valid, enqueue,
  select_claimable, lease_of, claim_commit, claim_selected, claim, beat_all, heartbeat, complete,
  FailedAttempt, append_retry, append_failure, count_dead, attempt_of, fail, supersede_found,
  supersede, owes_attempt, expiry, reap_found, reap_each, reap_expired_leases,
}

module _ (len : DomainEvent → ℕ) where
  -- One committed, or refused, transaction.
  pub data Step : Db → Db → Type 0 where
    fact : (b : DomainEvent) (ts : ℕ) (db : Db) → Step db (append len b ts db).1
    lease :
        (l : Lease) (db : Db) (ls : List Lease)
        → insert_row lease_key l db.leases ≡ some ls
        → Step db (record db { leases = ls })
    extend :
        (cfg : QueueConfig) (now : ℕ) (job : ClaimedJob) (db : Db)
        → Step db (record db { leases = beat_all cfg now job db.leases })
    release :
        (id : OpaqueId) (db : Db)
        → Step db (record db { leases = delete_row lease_key id db.leases })

  pub data Steps (a : Db) : Db → Type 0 where
    here : Steps a a
    more : {b c : Db} → Steps a b → Step b c → Steps a c

  pub Steps-trans : {a b c : Db} → Steps a b → Steps b c → Steps a c
  Steps-trans p here = p
  Steps-trans p (more q st) = more (Steps-trans p q) st

beat_all-find :
    (cfg : QueueConfig) (now k : ℕ) (job : ClaimedJob) (ls : List Lease)
    → find_row lease_key k ls ≡ none
    → find_row lease_key k (beat_all cfg now job ls) ≡ none
unfolding beat_all find_row
beat_all-find cfg now k job [] h = refl
beat_all-find cfg now k job (l ∷ ls) h = ground (arith, beat_all-find cfg now k job ls)

beat_all-Unique :
    (cfg : QueueConfig) (now : ℕ) (job : ClaimedJob) (ls : List Lease)
    → Unique lease_key ls
    → Unique lease_key (beat_all cfg now job ls)
unfolding beat_all
beat_all-Unique cfg now job [] u = tt
beat_all-Unique cfg now job (l ∷ ls) u =
    ground (arith, beat_all-find cfg now l.job_id job ls u.0, beat_all-Unique cfg now job ls u.1)

pub Step-IsConsistent :
    (len : DomainEvent → ℕ) {a b : Db} → Step len a b → IsConsistent a → IsConsistent b
Step-IsConsistent len (fact b ts db) c = append-IsConsistent len b ts db c
Step-IsConsistent len (lease l db ls h) c = record {
  current = c.current;
  bounded = c.bounded;
  replayed = c.replayed;
  one_lease_each = insert-Unique lease_key l db.leases h c.one_lease_each;
}
Step-IsConsistent len (extend cfg now job db) c = record {
  current = c.current;
  bounded = c.bounded;
  replayed = c.replayed;
  one_lease_each = beat_all-Unique cfg now job db.leases c.one_lease_each;
}
Step-IsConsistent len (release id db) c = record {
  current = c.current;
  bounded = c.bounded;
  replayed = c.replayed;
  one_lease_each = delete-Unique lease_key id db.leases c.one_lease_each;
}

-- Every interleaving of the queue's transactions keeps the store consistent: the projected tables
-- are the replay of the log, and no job has two leases.
pub Steps-IsConsistent :
    (len : DomainEvent → ℕ) {a b : Db} → IsConsistent a → Steps len a b → IsConsistent b
Steps-IsConsistent len c here = c
Steps-IsConsistent len c (more p st) = Step-IsConsistent len st (Steps-IsConsistent len c p)

module _ (x : Externals) where
  -- The store can get from `a` to where a run ended.
  abbrev Goes : {A : Type 0} → Db → Ran A → Type 0
  Goes a r = Steps x.encoded_len a r.1.db

  logged-Steps :
      (a : Db) (s : Sched) (r : Result LogError ℕ × Db)
      → Steps x.encoded_len a r.1
      → Goes a (logged s r)
  unfolding logged
  logged-Steps a s (ok n, db) p = p
  logged-Steps a s (err e, db) p = p

  count_metric-Steps :
      (f : SchedulerMetrics → SchedulerMetrics) (a : Db) (s : Sched)
      → Steps x.encoded_len a s.db
      → Steps x.encoded_len a (count_metric f s).db
  unfolding count_metric
  count_metric-Steps f a s p = p

  append_job_fact-Steps :
      (b : DomainEvent) (now : ℕ) (a : Db) (s : Sched)
      → Steps x.encoded_len a s.db
      → Goes a (append_job_fact x b now s)
  unfolding append_job_fact
  append_job_fact-Steps b now a s p =
      logged-Steps a s (append x.encoded_len b now s.db) (more p (fact b now s.db))

  and_then-Steps :
      {A B : Type 0} (a : Db) (r : Ran A) (f : A → Sched → Ran B)
      → Goes a r
      → ((v : A) (t : Sched) → Steps x.encoded_len a t.db → Goes a (f v t))
      → Goes a (and_then r f)
  unfolding and_then
  and_then-Steps a (ok v, t) f p k = k v t p
  and_then-Steps a (err e, t) f p k = p

  release-Steps :
      (id : OpaqueId) (a : Db) (s : Sched)
      → Steps x.encoded_len a s.db
      → Steps x.encoded_len a (release_lease id s).db
  unfolding release_lease
  release-Steps id a s p = more p (release id s.db)

  enqueue_appended-Steps :
      (id : OpaqueId) (s : Sched) (r : Result LogError ℕ × Db)
      → Steps x.encoded_len s.db r.1
      → Goes s.db (enqueue_appended id s r)
  unfolding enqueue_appended
  enqueue_appended-Steps id s (ok n, db) p = count_metric-Steps _ s.db _ p
  enqueue_appended-Steps id s (err (apply_failed n e), db) p =
      elim (Bool-cases (is_some (find_row job_key id db.tables.jobs))) [
        | inl q ↦ rw q (count_metric-Steps _ s.db _ p)
        | inr q ↦ rw q p
      ]
  enqueue_appended-Steps id s (err (oversize_body n), db) p = p
  enqueue_appended-Steps id s (err out_of_step, db) p = p

  enqueue_valid-Steps :
      (project_id : OpaqueId) (spec : JobSpec) (now : ℕ) (v : Result SpecField (Unit {0}))
      (s : Sched)
      → Goes s.db (enqueue_valid x project_id spec now v s)
  unfolding enqueue_valid
  enqueue_valid-Steps project_id spec now (err f) s = here
  enqueue_valid-Steps project_id spec now (ok u) s =
      let id = derive_job_id x.blake3 project_id spec.kind spec.idempotency_key in
      elim (Bool-cases (is_some (read_job id s))) [
        | inl q ↦ rw q (count_metric-Steps _ s.db s here)
        | inr q ↦ rw q (enqueue_appended-Steps id s _ (more here (fact _ now s.db)))
      ]

  claim_commit-Steps :
      (job : ClaimedJob) (l : Lease) (k : Result Text Text) (s : Sched) (ls : Option (List Lease))
      → insert_row lease_key l s.db.leases ≡ ls
      → Goes s.db (claim_commit job ls k s)
  unfolding claim_commit
  claim_commit-Steps job l k s none h = here
  claim_commit-Steps job l (err e) s (some ls) h = here
  claim_commit-Steps job l (ok n) s (some ls) h =
      count_metric-Steps _ s.db _ (more here (lease l s.db ls h))

  claim_selected-Steps :
      (cfg : QueueConfig) (project_id : OpaqueId) (worker : Text) (now : ℕ) (r : Option JobRecord)
      (s : Sched)
      → Goes s.db (claim_selected cfg project_id worker now r s)
  unfolding claim_selected
  claim_selected-Steps cfg project_id worker now none s = here
  claim_selected-Steps cfg project_id worker now (some r) s =
      claim_commit-Steps _ (lease_of cfg r worker now) _ s _ refl

  pub enqueue-Steps :
      (project_id : OpaqueId) (spec : JobSpec) (now : ℕ) (s : Sched)
      → Goes s.db (enqueue x project_id spec now s)
  unfolding enqueue
  enqueue-Steps project_id spec now s = enqueue_valid-Steps project_id spec now (validate spec) s

  pub claim-Steps :
      (cfg : QueueConfig) (project_id : OpaqueId) (class : JobClass) (worker : Text) (now : ℕ)
      (s : Sched)
      → Goes s.db (claim cfg project_id class worker now s)
  unfolding claim
  claim-Steps cfg project_id class worker now s =
      claim_selected-Steps cfg project_id worker now (select_claimable class now s.db) s

  pub heartbeat-Steps :
      (cfg : QueueConfig) (job : ClaimedJob) (now : ℕ) (s : Sched)
      → Goes s.db (heartbeat cfg job now s)
  unfolding heartbeat
  heartbeat-Steps cfg job now s = more here (extend cfg now job s.db)

  pub complete-Steps :
      (job : ClaimedJob) (wall_ms now : ℕ) (s : Sched) → Goes s.db (complete x job wall_ms now s)
  unfolding complete
  complete-Steps job wall_ms now s =
      and_then-Steps s.db _ _ (append_job_fact-Steps _ now s.db s here)
        (λ _ t p. count_metric-Steps _ s.db _ (release-Steps job.job_id s.db t p))

  append_retry-Steps :
      (att : FailedAttempt) (f : JobFailure) (d : ℕ × JitterSource) (a : Db) (s : Sched)
      → Steps x.encoded_len a s.db
      → Goes a (append_retry x att f d s)
  unfolding append_retry
  append_retry-Steps att f (delay, jitter) a s p =
      and_then-Steps a _ _ (append_job_fact-Steps _ att.now_ms a (record s { jitter = jitter }) p)
        (λ _ t q. q)

  append_failure-Steps :
      (cfg : QueueConfig) (att : FailedAttempt) (f : JobFailure) (a : Db) (s : Sched)
      → Steps x.encoded_len a s.db
      → Goes a (append_failure x cfg att f s)
  unfolding append_failure
  append_failure-Steps cfg att f a s p =
      elim (Bool-cases (f.permanent || ltb att.retry_count_max att.attempt_index)) [
        | inl e ↦
            rw e (and_then-Steps a _ _ (append_job_fact-Steps _ att.now_ms a s p) (λ _ t q. q))
        | inr e ↦ rw e (append_retry-Steps att f _ a s p)
      ]

  count_dead-Steps :
      (o : FailureOutcome) (a : Db) (s : Sched)
      → Steps x.encoded_len a s.db
      → Steps x.encoded_len a (count_dead o s).db
  unfolding count_dead
  count_dead-Steps now_dead a s p = count_metric-Steps _ a s p
  count_dead-Steps (retrying t) a s p = p

  pub fail-Steps :
      (cfg : QueueConfig) (job : ClaimedJob) (f : JobFailure) (wall_ms now : ℕ) (s : Sched)
      → Goes s.db (fail x cfg job f wall_ms now s)
  unfolding fail
  fail-Steps cfg job f wall_ms now s =
      and_then-Steps s.db _ _ (append_failure-Steps cfg (attempt_of job now) f s.db s here)
        (λ o t p.
          count_dead-Steps o s.db _
            (count_metric-Steps _ s.db _ (release-Steps job.job_id s.db t p)))

  supersede_found-Steps :
      (id cron : OpaqueId) (now : ℕ) (r : Option JobRecord) (s : Sched)
      → Goes s.db (supersede_found x id cron now r s)
  unfolding supersede_found
  supersede_found-Steps id cron now none s = here
  supersede_found-Steps id cron now (some r) s = elim (Bool-cases (is_terminal r.state)) [
    | inl e ↦ rw e here
    | inr e ↦ rw e (
        and_then-Steps s.db _ _ (append_job_fact-Steps _ now s.db s here)
          (λ _ t p. count_metric-Steps _ s.db _ (release-Steps id s.db t p)))
  ]

  pub supersede-Steps :
      (id cron : OpaqueId) (now : ℕ) (s : Sched) → Goes s.db (supersede x id cron now s)
  unfolding supersede
  supersede-Steps id cron now s = supersede_found-Steps id cron now (read_job id s) s

  pub reap_found-Steps :
      (cfg : QueueConfig) (now : ℕ) (l : Lease) (r : Option JobRecord) (a : Db) (s : Sched)
      → Steps x.encoded_len a s.db
      → Goes a (reap_found x cfg now l r s)
  unfolding reap_found
  reap_found-Steps cfg now l none a s p = release-Steps l.job_id a s p
  reap_found-Steps cfg now l (some r) a s p = elim (Bool-cases (owes_attempt l r)) [
    | inl e ↦ rw e (
        and_then-Steps a _ _ (append_failure-Steps cfg _ (expiry l) a s p)
          (λ o t q. release-Steps l.job_id a _ (count_dead-Steps o a t q)))
    | inr e ↦ rw e (release-Steps l.job_id a s p)
  ]

  reap_each-Steps :
      (cfg : QueueConfig) (now : ℕ) (ls : List Lease) (n : ℕ) (a : Db) (s : Sched)
      → Steps x.encoded_len a s.db
      → Goes a (reap_each x cfg now ls n s)
  unfolding reap_each
  reap_each-Steps cfg now [] n a s p = p
  reap_each-Steps cfg now (l ∷ ls) n a s p =
      and_then-Steps a _ _ (reap_found-Steps cfg now l (read_job l.job_id s) a s p)
        (λ _ t q. reap_each-Steps cfg now ls (n + 1) a t q)

  pub reap-Steps :
      (cfg : QueueConfig) (now : ℕ) (s : Sched) → Goes s.db (reap_expired_leases x cfg now s)
  unfolding reap_expired_leases
  reap-Steps cfg now s =
      and_then-Steps s.db _ _ (reap_each-Steps cfg now _ 0 s.db s here)
        (λ _ t p. count_metric-Steps _ s.db t p)
