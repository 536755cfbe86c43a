-- ===== src/Log.antt =====
-- crates/pos-log/src/lib.rs: the append of one event, in one transaction with its projections, and
-- the replay of crates/pos-log/src/apply/replay.rs. The store is the log itself, the projected
-- tables, `applied_seq`, and the lease table that crates/pos-sched keeps beside them. Snapshots, and
-- the batches in which a replay reads the log, are not modelled; neither is a failing disk.
pub mod Consistency
use projectos_core.Common.{
  ℕ, ◌+◌, ◌<◌, Bool, Option, none, some, List, [], ◌∷◌, Text, max, ltb, ◌==◌, if◌then◌else◌,
  saturating_add,
}
use projectos_core.Common.Result.{Result, ok, err, ◌>>=◌}
use projectos_core.Ids.{OpaqueId}
use projectos_core.Job.{DomainEvent}
use projectos_core.Projections.{Event, Tables, ApplyError, apply_event}

-- A row of `sched_leases`, the node-local claim ledger.
pub record Lease : Type 0 where
  pub job_id : OpaqueId
  pub worker : Text
  pub attempt_index : ℕ
  pub claimed_ts_ms : ℕ
  pub heartbeat_ts_ms : ℕ
  pub lease_expires_ts_ms : ℕ

abbrev pub lease_key : Lease → ℕ
lease_key l = l.job_id

-- The events are newest first.
pub record Db : Type 0 where
  pub events : List Event
  pub tables : Tables
  pub applied_seq : ℕ
  pub leases : List Lease

abbrev pub empty_tables : Tables
empty_tables = record { jobs = []; crons = [] }

abbrev pub empty_db : Db
empty_db = record { events = []; tables = empty_tables; applied_seq = 0; leases = [] }

abbrev pub event_body_len_max : ℕ
event_body_len_max = 1048576

-- The errors of an append that the scheduler's events can meet. `out_of_step` is the panic of the
-- assertion that the projections are at the head.
pub data LogError : Type 0 where
  oversize_body : (len : ℕ) → LogError
  apply_failed : (seq : ℕ) (source : ApplyError) → LogError
  out_of_step : LogError

-- `SELECT COALESCE(MAX(seq), 0) FROM events`.
unfoldable pub read_head : List Event → ℕ
read_head [] = 0
read_head (e ∷ es) = max e.seq (read_head es)

-- Commits what the projections made of the event, or rolls the transaction back.
unfoldable pub commit : Db → Event → Result ApplyError Tables → Result LogError ℕ × Db
commit db event (err e) = (err (apply_failed event.seq e), db)
commit db event (ok tables) = (
  ok event.seq,
  record db { events = event ∷ db.events; tables = tables; applied_seq = event.seq },
)

unfoldable pub next_event : Db → DomainEvent → ℕ → Event
next_event db body ts_ms = record {
  seq = saturating_add (read_head db.events) 1;
  ts_ms = ts_ms;
  body = body;
}

-- `append`: `encoded_len` is the length of the event's CBOR body.
unfoldable pub append :
    (encoded_len : DomainEvent → ℕ) → DomainEvent → (ts_ms : ℕ) → Db → Result LogError ℕ × Db
append encoded_len body ts_ms db =
    if ltb event_body_len_max (encoded_len body)
    then (err (oversize_body (encoded_len body)), db)
    else (if read_head db.events == db.applied_seq
        then (let event = next_event db body ts_ms in commit db event (apply_event db.tables event))
        else (err out_of_step, db))

-- The projections re-derived from the log alone, oldest event first.
unfoldable pub replay : List Event → Result ApplyError Tables
replay [] = ok empty_tables
replay (e ∷ es) = replay es >>= λ t. apply_event t e

-- `rebuild_full`: the tables from the log, and `applied_seq` at its head.
unfoldable pub rebuild : Db → Result ApplyError Db
rebuild db =
    replay db.events >>= λ t. ok (record db { tables = t; applied_seq = read_head db.events })
