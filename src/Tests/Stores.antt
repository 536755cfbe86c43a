-- ===== src/Tests/Stores.antt =====
-- Examples of the log, the projections and the steps of the store.
use projectos_core.Job.{other, job_enqueued, JobEnqueuedBody}
use projectos_core.Projections.Rows.{apply_event-AreTables, AreTables}
use projectos_core.Log.Consistency.{empty-IsConsistent, append_cases, appended}
use projectos_core.Log.{LogError, out_of_step, next_event, append, empty_db, empty_tables}
use projectos_core.Common.Result.{ok, err}
use projectos_core.Projections.{enqueued_row, crons_apply, jobs_apply, apply_event, Tables, Event}
use projectos_core.Common.Table.{insert_row, find_row}
use projectos_core.Common.{◌≡◌, ◌≢◌, ◌⊎◌, refl, [], ◌∷◌, bytes}

append_cases_example :
    ((e : LogError) × (append (λ b. 200) other 5 empty_db ≡ (err e, empty_db)) × (e ≢ out_of_step))
    ⊎ ((t : Tables) × (apply_event empty_db.tables (next_event empty_db other 5) ≡ ok t)
        × (append (λ b. 200) other 5 empty_db ≡ (
          ok (next_event empty_db other 5).seq,
          appended empty_db (next_event empty_db other 5) t,
        )))
append_cases_example = append_cases (λ b. 200) other 5 empty_db empty-IsConsistent

abbrev legacy_event : Event
legacy_event = record {
  seq = 4;
  ts_ms = 90;
  body = job_enqueued (JobEnqueuedBody.v1 12 (bytes "old.kind"));
}

accepted :
    apply_event empty_tables legacy_event
    ≡ ok (record {
      jobs = enqueued_row legacy_event (JobEnqueuedBody.v1 12 (bytes "old.kind")) ∷ [];
      crons = [];
    })
unfolding apply_event crons_apply jobs_apply insert_row find_row enqueued_row
accepted = refl

apply_event-AreTables_example : AreTables (record {
  jobs = enqueued_row legacy_event (JobEnqueuedBody.v1 12 (bytes "old.kind")) ∷ [];
  crons = [];
})
apply_event-AreTables_example =
    apply_event-AreTables empty_tables legacy_event accepted
      (record { jobs_formed = record { one_each = tt; explained = tt }; crons_one_each = tt })
