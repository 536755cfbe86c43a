-- ===== src/Pool.antt =====
-- crates/pos-sched/src/pool.rs: the registries of the worker pool, the round-robin claim, and what
-- becomes of a claimed job. The tasks, their timers, the heartbeat and the trace spans are not
-- modelled; a handler is a parameter: it returns, or panics, which is nothing.
pub mod Registered
pub mod Handled
use projectos_core.Common.Result.{ok, err, Result}
use projectos_core.Ids.{OpaqueId}
use projectos_core.Queue.{
  invalid_spec, fail, complete, and_then, SchedError, Sched, QueueConfig, Externals, Ran,
}
use projectos_core.Job.Spec.{project, ClaimedJob, JobFailure}
use projectos_core.Common.{
  ◌∷◌, ◌^◌, ◌==◌, ◌-◌, ◌+◌, ◌++◌, ◌&&◌, ◌%◌, zero, true, text_eq, suc, some, not, none, ltb, length,
  leb, is_some, if◌then◌else◌, false, bytes, [], Text, Option, List, ℕ,
}

abbrev pub handler_registry_count_max : ℕ
handler_registry_count_max = 64

abbrev pub project_registry_count_max : ℕ
project_registry_count_max = 64

pub record JobHandler : Type 0 where
  pub kind : Text
  pub run : ClaimedJob → Option (Result JobFailure (Unit {0}))

pub data HandlerRegistryError : Type 0 where
  duplicate : (kind : Text) → HandlerRegistryError
  full : (count_max : ℕ) → HandlerRegistryError

-- `HandlerRegistry`, as the handlers in any order.
abbrev pub HandlerRegistry : Type 0
HandlerRegistry = List JobHandler

unfoldable pub handler_get : Text → HandlerRegistry → Option JobHandler
handler_get kind [] = none
handler_get kind (h ∷ hs) = if text_eq h.kind kind then some h else handler_get kind hs

unfoldable pub handler_register :
    JobHandler → HandlerRegistry → Result HandlerRegistryError HandlerRegistry
handler_register h hs =
    if is_some (handler_get h.kind hs)
    then err (duplicate h.kind)
    else if leb handler_registry_count_max (length hs)
    then err (full handler_registry_count_max)
    else ok (h ∷ hs)

-- `ProjectRegistry`, ordered by the ids.
abbrev pub ProjectRegistry : Type 0 → Type 0
ProjectRegistry Log = List (OpaqueId × Log)

module _ {Log : Type 0} where
  unfoldable pub project_get : OpaqueId → ProjectRegistry Log → Option Log
  project_get id [] = none
  project_get id ((key, log) ∷ rows) = if key == id then some log else project_get id rows

  unfoldable pub project_insert : OpaqueId → Log → ProjectRegistry Log → ProjectRegistry Log
  project_insert id log [] = (id, log) ∷ []
  project_insert id log ((key, old) ∷ rows) =
      let later = project_insert id log rows in
      if key == id
      then (id, log) ∷ rows
      else if ltb id key
      then (id, log) ∷ (key, old) ∷ rows
      else (key, old) ∷ later

  -- `register`, by what `ensure_schema` gave.
  unfoldable pub project_register :
      Result SchedError (Unit {0})
      → OpaqueId
      → Log
      → ProjectRegistry Log
      → Result SchedError (ProjectRegistry Log)
  project_register (err e) id log rows = err e
  project_register (ok _) id log rows =
      if leb project_registry_count_max (length rows) && not (is_some (project_get id rows))
      then err (invalid_spec project)
      else ok (project_insert id log rows)

  unfoldable pub unregister : OpaqueId → ProjectRegistry Log → ProjectRegistry Log
  unregister id [] = []
  unregister id ((key, log) ∷ rows) =
      let later = unregister id rows in if key == id then later else (key, log) ∷ later

  -- The loop of `claim_round_robin` over a snapshot, from an offset on, with its errors noted.
  module _ {S J : Type 0} (claim_in : OpaqueId × Log → S → Result SchedError (Option J) × S)
      (note_error : SchedError → S → S) where
    abbrev pub row_at : ℕ → List (OpaqueId × Log) → Option (OpaqueId × Log)
    row_at n [] = none
    row_at zero (row ∷ rows) = some row
    row_at (suc n) (row ∷ rows) = row_at n rows

    abbrev pub claimed :
        (S → Option (Log × J) × S) → Log → Result SchedError (Option J) × S → Option (Log × J) × S
    claimed later log (ok (some job), s) = (some (log, job), s)
    claimed later log (ok none, s) = later s
    claimed later log (err e, s) = later (note_error e s)

    abbrev pub claim_row :
        (S → Option (Log × J) × S) → Option (OpaqueId × Log) → S → Option (Log × J) × S
    claim_row later none s = later s
    claim_row later (some row) s = claimed later row.1 (claim_in row s)

    unfoldable pub claim_offsets :
        (projects : List (OpaqueId × Log)) (start left offset : ℕ) → S → Option (Log × J) × S
    claim_offsets projects start zero offset s = (none, s)
    claim_offsets projects start (suc left) offset s =
        claim_row (claim_offsets projects start left (offset + 1))
          (row_at ((start + offset) % 2 ^ 64 % length projects) projects) s

    -- The claim, with the cursor after it.
    unfoldable pub claim_round_robin :
        (projects : List (OpaqueId × Log)) (cursor : ℕ) → S → (Option (Log × J) × S) × ℕ
    claim_round_robin projects cursor s =
        if length projects == 0
        then ((none, s), cursor)
        else (claim_offsets projects cursor (length projects) 0 s, (cursor + 1) % 2 ^ 64)

abbrev pub no_handler : ClaimedJob → JobFailure
no_handler job = record {
  code = bytes "no_handler";
  detail = bytes "no handler is registered for job kind " ++ job.kind;
  permanent = true;
}

abbrev pub handler_panicked : JobFailure
handler_panicked = record {
  code = bytes "handler_panicked";
  detail = bytes "the handler panicked; the attempt was recorded and will retry";
  permanent = false;
}

module _ (x : Externals) (cfg : QueueConfig) where
  -- `finish_job`: the outcome's fact is appended; what fails is noted by the caller.
  unfoldable pub finish_job :
      ClaimedJob → Result JobFailure (Unit {0}) → (wall_ms now : ℕ) → Sched → Ran (Unit {0})
  finish_job job (ok _) wall_ms now s = complete x job wall_ms now s
  finish_job job (err failure) wall_ms now s =
      and_then (fail x cfg job failure wall_ms now s) (λ _ t. (ok tt, t))

  abbrev pub outcome_of : Option (Result JobFailure (Unit {0})) → Result JobFailure (Unit {0})
  outcome_of none = err handler_panicked
  outcome_of (some outcome) = outcome

  abbrev pub run_with :
      Option JobHandler → ClaimedJob → (started ended now : ℕ) → Sched → Ran (Unit {0})
  run_with none job started ended now s = finish_job job (err (no_handler job)) 0 now s
  run_with (some handler) job started ended now s =
      finish_job job (outcome_of (handler.run job)) (ended - started) now s

  -- `run_job`, at the times that its clock gives.
  unfoldable pub run_job :
      HandlerRegistry → ClaimedJob → (started ended now : ℕ) → Sched → Ran (Unit {0})
  run_job handlers job started ended now s =
      run_with (handler_get job.kind handlers) job started ended now s
