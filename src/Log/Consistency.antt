-- ===== src/Log/Consistency.antt =====
-- The store of crates/pos-log: the projected tables are a function of the log, and an append keeps
-- them so or changes nothing.
use projectos_core.Common.{
  ℕ, ◌≤◌, ◌≡◌, refl, sym, ◌⊎◌, inl, inr, ◌≢◌, true, List, [], ◌∷◌, arith, max, ltb, ltb→lt, ◌==◌,
  ==_iff, Bool-cases, u64_max, ap, subst,
}
use projectos_core.Common.Result.{ok, err, >>=-eq-ok, Result-cases, ok_inj}
use projectos_core.Common.Table.{Unique}
use projectos_core.Job.{DomainEvent}
use projectos_core.Projections.{Event, Tables, apply_event}
use projectos_core.Projections.Rows.{AreTables, apply_event-AreTables}
use projectos_core.Log.{
  lease_key, Db, empty_db, LogError, oversize_body, apply_failed, out_of_step, event_body_len_max,
  read_head, commit, next_event, append, replay, rebuild,
}

-- What holds of a store between two transactions.
pub record IsConsistent (db : Db) : Type 0 where
  pub current : db.applied_seq ≡ read_head db.events
  pub bounded : read_head db.events ≤ u64_max
  pub replayed : replay db.events ≡ ok db.tables
  pub one_lease_each : Unique lease_key db.leases

pub empty-IsConsistent : IsConsistent empty_db
unfolding read_head replay
empty-IsConsistent = record {
  current = refl;
  bounded = omega arith;
  replayed = refl;
  one_lease_each = tt;
}

-- An event with the tables that it leads to.
abbrev pub appended : Db → Event → Tables → Db
appended db event t = record db { events = event ∷ db.events; tables = t; applied_seq = event.seq }

in_step : (db : Db) → IsConsistent db → (read_head db.events == db.applied_seq) ≡ true
in_step db c = (==_iff _ _).1 (sym c.current)

-- What an append can do to a consistent store: refuse, and change nothing, or add the event with
-- its projections. The refusal is never the panic.
pub append_cases :
    (len : DomainEvent → ℕ) (b : DomainEvent) (ts : ℕ) (db : Db)
    → IsConsistent db
    → ((e : LogError) × (append len b ts db ≡ (err e, db)) × (e ≢ out_of_step))
      ⊎ ((t : Tables) × (apply_event db.tables (next_event db b ts) ≡ ok t)
          × (append len b ts db
              ≡ (ok (next_event db b ts).seq, appended db (next_event db b ts) t)))
unfolding append commit
append_cases len b ts db c = elim (Bool-cases (ltb event_body_len_max (len b))) [
  | inl big ↦ inl (oversize_body (len b), rw big refl, λ e. cc)
  | inr fits ↦ elim (Result-cases (apply_event db.tables (next_event db b ts))) [
    | inl (e, h) ↦
        inl (
          apply_failed (next_event db b ts).seq e,
          rw (fits, in_step db c, h, commit) refl,
          λ q. cc,
        )
    | inr (t, h) ↦ inr (t, h, rw (fits, in_step db c, h, commit) refl)
  ]
]

next_event-head :
    (b : DomainEvent) (ts : ℕ) (db : Db)
    → IsConsistent db
    → (max (next_event db b ts).seq (read_head db.events) ≡ (next_event db b ts).seq)
      × ((next_event db b ts).seq ≤ u64_max)
unfolding next_event
next_event-head b ts db c = omega (arith, c.bounded)

pub appended-IsConsistent :
    (b : DomainEvent) (ts : ℕ) (db : Db) (t : Tables)
    → IsConsistent db
    → apply_event db.tables (next_event db b ts) ≡ ok t
    → IsConsistent (appended db (next_event db b ts) t)
appended-IsConsistent b ts db t c h = record {
  current = unfold read_head in sym (next_event-head b ts db c).0;
  bounded = unfold read_head in omega (arith, next_event-head b ts db c);
  replayed = unfold replay in rw c.replayed h;
  one_lease_each = c.one_lease_each;
}

-- An append keeps the store consistent, also when it is refused.
pub append-IsConsistent :
    (len : DomainEvent → ℕ) (b : DomainEvent) (ts : ℕ) (db : Db)
    → IsConsistent db
    → IsConsistent (append len b ts db).1
append-IsConsistent len b ts db c = elim (append_cases len b ts db c) [
  | inl (e, q, _) ↦ subst IsConsistent (ap (λ r. r.1) (sym q)) c
  | inr (t, h, q) ↦ subst IsConsistent (ap (λ r. r.1) (sym q)) (appended-IsConsistent b ts db t c h)
]

replay-AreTables : (es : List Event) {t : Tables} → replay es ≡ ok t → AreTables t
unfolding replay
replay-AreTables [] h =
    subst AreTables (ok_inj h)
      (record { jobs_formed = record { one_each = tt; explained = tt }; crons_one_each = tt })
replay-AreTables (e ∷ es) h =
    let (t, before, last) = >>=-eq-ok _ _ h in
    apply_event-AreTables t e last (replay-AreTables es before)

-- The tables of a consistent store are well formed: one job row and one cron row for each id, and
-- every job row explained by its state.
pub IsConsistent-AreTables : (db : Db) → IsConsistent db → AreTables db.tables
IsConsistent-AreTables db c = replay-AreTables db.events c.replayed

-- Rebuilding the projections from the log of a consistent store gives the store itself.
pub rebuild_idle : (db : Db) → IsConsistent db → rebuild db ≡ ok db
unfolding rebuild
rebuild_idle db c = rw (c.replayed, ← c.current) refl

-- An event that is not oversize and that the projections accept is appended.
pub append_accepted :
    (len : DomainEvent → ℕ) (b : DomainEvent) (ts : ℕ) (db : Db) (t : Tables)
    → IsConsistent db
    → len b ≤ event_body_len_max
    → apply_event db.tables (next_event db b ts) ≡ ok t
    → append len b ts db ≡ (ok (next_event db b ts).seq, appended db (next_event db b ts) t)
append_accepted len b ts db t c fits h = elim (Bool-cases (ltb event_body_len_max (len b))) [
  | inl big ↦ absurd (omega (arith, ltb→lt event_body_len_max (len b) big))
  | inr ok_len ↦ unfold append commit in rw (ok_len, in_step db c, h) refl
]
