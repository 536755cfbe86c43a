-- ===== src/Queue/History.antt =====
-- Whole histories of calls to the queue of crates/pos-sched/src/queue.rs.
use projectos_core.Common.{ℕ, List, [], ◌∷◌, Text}
use projectos_core.Ids.{OpaqueId}
use projectos_core.Job.{JobClass}
use projectos_core.Job.Spec.{JobSpec, ClaimedJob, JobFailure}
use projectos_core.Projections.Rows.{AreTables}
use projectos_core.Log.Consistency.{IsConsistent, IsConsistent-AreTables}
use projectos_core.Queue.{
  Externals, QueueConfig, Sched, enqueue, claim, heartbeat, complete, fail, supersede,
  reap_expired_leases,
}
use projectos_core.Queue.Steps.{
  Steps, here, Steps-trans, Steps-IsConsistent, enqueue-Steps, claim-Steps, heartbeat-Steps,
  complete-Steps, fail-Steps, supersede-Steps, reap-Steps,
}

-- A call, with the arguments that it was made with. The claimed jobs are arbitrary: a worker may
-- report on a job whose lease it has lost long ago.
pub data Call : Type 0 where
  enqueues : (project_id : OpaqueId) (spec : JobSpec) → Call
  claims : (project_id : OpaqueId) (class : JobClass) (worker : Text) → Call
  heartbeats : ClaimedJob → Call
  completes : (job : ClaimedJob) (wall_ms : ℕ) → Call
  fails : (job : ClaimedJob) (failure : JobFailure) (wall_ms : ℕ) → Call
  supersedes : (job_id cron_id : OpaqueId) → Call
  reaps : Call

module _ (x : Externals) (cfg : QueueConfig) where
  unfoldable pub call : (now : ℕ) → Call → Sched → Sched
  call now (enqueues project_id spec) s = (enqueue x project_id spec now s).1
  call now (claims project_id class worker) s = (claim cfg project_id class worker now s).1
  call now (heartbeats job) s = (heartbeat cfg job now s).1
  call now (completes job wall_ms) s = (complete x job wall_ms now s).1
  call now (fails job failure wall_ms) s = (fail x cfg job failure wall_ms now s).1
  call now (supersedes job_id cron_id) s = (supersede x job_id cron_id now s).1
  call now reaps s = (reap_expired_leases x cfg now s).1

  unfoldable pub history : List (ℕ × Call) → Sched → Sched
  history [] s = s
  history ((now, c) ∷ cs) s = history cs (call now c s)

  -- Every call is a sequence of the queue's transactions.
  pub call-Steps : (now : ℕ) (c : Call) (s : Sched) → Steps x.encoded_len s.db (call now c s).db
  unfolding call
  call-Steps now (enqueues project_id spec) s = enqueue-Steps x project_id spec now s
  call-Steps now (claims project_id class worker) s =
      claim-Steps x cfg project_id class worker now s
  call-Steps now (heartbeats job) s = heartbeat-Steps x cfg job now s
  call-Steps now (completes job wall_ms) s = complete-Steps x job wall_ms now s
  call-Steps now (fails job failure wall_ms) s = fail-Steps x cfg job failure wall_ms now s
  call-Steps now (supersedes job_id cron_id) s = supersede-Steps x job_id cron_id now s
  call-Steps now reaps s = reap-Steps x cfg now s

  pub history-Steps :
      (cs : List (ℕ × Call)) (s : Sched) → Steps x.encoded_len s.db (history cs s).db
  unfolding history
  history-Steps [] s = here
  history-Steps ((now, c) ∷ cs) s =
      Steps-trans x.encoded_len (call-Steps now c s) (history-Steps cs (call now c s))

  -- After any calls at all on a consistent store, also after those of workers that have lost their leases, the tables are
  -- the replay of the log and no job has two leases (I2); there is one row for each job id (I1),
  -- and every dead row has a typed reason (I5).
  pub history-IsConsistent :
      (cs : List (ℕ × Call)) (s : Sched)
      → IsConsistent s.db
      → IsConsistent (history cs s).db × AreTables (history cs s).db.tables
  history-IsConsistent cs s c =
      let after = Steps-IsConsistent x.encoded_len c (history-Steps cs s) in
      (after, IsConsistent-AreTables (history cs s).db after)
