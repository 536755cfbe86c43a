-- ===== src/Queue/Leases.antt =====
-- The heartbeat of crates/pos-sched/src/queue.rs.
use projectos_core.Common.{
  text_eq_sound, text_eq_self, text_eq, subst, saturating_add, min, i64_max, ℕ, ◌≡◌, ◌≢◌, refl, sym,
  ap, ◌∙◌, inl, inr, ◌⊎◌, true, false, some, none, List, [], ◌∷◌, arith, Bool-cases, Option-cases,
  ◌==◌, ==_iff, ==_ne,
}
use mathlib.Core.Option.{some_inj}
use projectos_core.Common.Result.{ok}
use projectos_core.Common.Table.{find_row, Unique}
use projectos_core.Job.Spec.{ClaimedJob}
use projectos_core.Log.{Lease, lease_key}
use projectos_core.Log.Consistency.{IsConsistent}
use projectos_core.Queue.{QueueConfig, Sched, holds, beat, beat_all, count_held, heartbeat}

holds-id : (job : ClaimedJob) (l : Lease) → holds job l ≡ true → (l.job_id == job.job_id) ≡ true
unfolding holds
holds-id job l h = ground arith

-- The lease is of the worker and the attempt of the claimed job.
abbrev pub IsOwn : ClaimedJob → Lease → Type 0
IsOwn job l = (l.worker ≡ job.worker) × (l.attempt_index ≡ job.attempt_index)

holds-IsOwn : (job : ClaimedJob) (l : Lease) → holds job l ≡ true → IsOwn job l
unfolding holds
holds-IsOwn job l h = (
  text_eq_sound l.worker job.worker (ground arith),
  (==_iff l.attempt_index job.attempt_index).0 (ground arith),
)

not_held-own :
    (job : ClaimedJob) (l : Lease) → holds job l ≡ false → l.job_id ≡ job.job_id → IsOwn job l → ⊥
unfolding holds
not_held-own job l h id (worker, attempt) =
    let same_worker : text_eq l.worker job.worker ≡ true =
      subst (λ w. text_eq l.worker w ≡ true) worker (text_eq_self l.worker) in
    ground (
      arith,
      h,
      (==_iff l.job_id job.job_id).1 id,
      same_worker,
      (==_iff l.attempt_index job.attempt_index).1 attempt,
    )

lease_id :
    (id : ℕ) (ls : List Lease) (l : Lease) → find_row lease_key id ls ≡ some l → l.job_id ≡ id
unfolding find_row
lease_id id [] l h = cc
lease_id id (m ∷ ls) l h = elim (Bool-cases (m.job_id == id)) [
  | inl hit ↦ subst (λ l. l.job_id ≡ id) (some_inj.0 (rw hit at h)) ((==_iff m.job_id id).0 hit)
  | inr miss ↦ lease_id id ls l (rw miss at h)
]

-- Without a lease that the caller holds, nothing is counted and nothing changes.
none_held :
    (cfg : QueueConfig) (now : ℕ) (job : ClaimedJob) (ls : List Lease)
    → find_row lease_key job.job_id ls ≡ none
    → (count_held job ls ≡ 0) × (beat_all cfg now job ls ≡ ls)
unfolding count_held beat_all find_row
none_held cfg now job [] h = (refl, refl)
none_held cfg now job (l ∷ ls) h = ground (arith, holds-id job l, none_held cfg now job ls)

found_held :
    (cfg : QueueConfig) (now : ℕ) (job : ClaimedJob) (ls : List Lease) (l : Lease)
    → Unique lease_key ls
    → find_row lease_key job.job_id ls ≡ some l
    → ((holds job l ≡ true)
        × (count_held job ls ≡ 1)
        × (find_row lease_key job.job_id (beat_all cfg now job ls) ≡ some (beat cfg now l)))
      ⊎ ((holds job l ≡ false) × (count_held job ls ≡ 0) × (beat_all cfg now job ls ≡ ls))
unfolding count_held beat_all find_row
found_held cfg now job [] l u h = cc
found_held cfg now job (m ∷ ls) l u h = elim (Bool-cases (m.job_id == job.job_id)) [
  | inl hit ↦
      let same : m ≡ l = some_inj.0 (rw hit at h) in
      let free =
        ap (λ k. find_row lease_key k ls) (sym ((==_iff m.job_id job.job_id).0 hit)) ∙ u.0 in
      let (none_counted, kept) = none_held cfg now job ls free in
      elim (Bool-cases (holds job m)) [
        | inl e ↦ inl (
          rw (← same) e,
          rw (e, none_counted) refl,
          rw (e, hit) (ap (λ l. some (beat cfg now l)) same),
        )
        | inr e ↦ inr (rw (← same) e, rw (e, none_counted) refl, rw (e, kept) refl)
      ]
  | inr miss ↦
      let not_held : holds job m ≡ false = elim (Bool-cases (holds job m)) [
        | inl e ↦ absurd (ground (arith, miss, holds-id job m e))
        | inr e ↦ e
      ] in
      elim (found_held cfg now job ls l u.1 (rw miss at h)) [
        | inl (held, n, found) ↦ inl (held, rw (not_held, n) refl, rw (not_held, miss) found)
        | inr (held, n, kept) ↦ inr (held, rw (not_held, n) refl, rw (not_held, kept) refl)
      ]
]

other_held :
    (cfg : QueueConfig) (now k : ℕ) (job : ClaimedJob) (ls : List Lease)
    → k ≢ job.job_id
    → find_row lease_key k (beat_all cfg now job ls) ≡ find_row lease_key k ls
unfolding beat_all find_row
other_held cfg now k job [] ne = refl
other_held cfg now k job (l ∷ ls) ne =
    ground (arith, holds-id job l, other_held cfg now k job ls ne, ==_ne job.job_id k ne)

-- On a consistent store a heartbeat says that it extended a lease exactly if the lease of its job is
-- the caller's own: of its worker and its attempt. Then that lease carries this instant as its last
-- sign of life and runs out a lease's time later, with its other fields as before, and no other lease
-- changes; otherwise, for a job whose lease is gone or is by now another's, nothing changes.
pub heartbeat_decides :
    (cfg : QueueConfig) (job : ClaimedJob) (now : ℕ) (s : Sched)
    → IsConsistent s.db
    → let (res, t) = heartbeat cfg job now s in
      (((l : Lease) × (find_row lease_key job.job_id s.db.leases ≡ some l)
        × IsOwn job l
        × (res ≡ ok true)
        × (find_row lease_key job.job_id t.db.leases
            ≡ some (record l {
              heartbeat_ts_ms = min now i64_max;
              lease_expires_ts_ms = min (saturating_add now cfg.lease_ttl_ms) i64_max;
            }))
        × ((k : ℕ)
            → k ≢ job.job_id
            → find_row lease_key k t.db.leases ≡ find_row lease_key k s.db.leases)))
      ⊎ (((l : Lease) → find_row lease_key job.job_id s.db.leases ≡ some l → IsOwn job l → ⊥)
          × (res ≡ ok false)
          × (t ≡ s))
unfolding heartbeat
heartbeat_decides cfg job now s c =
    elim (Option-cases (find_row lease_key job.job_id s.db.leases)) [
      | inl e ↦
          let (n, kept) = none_held cfg now job s.db.leases e in
          inr ((λ l h _. ground (arith, sym e ∙ h)), rw n refl, rw kept refl)
      | inr (l, e) ↦ elim (found_held cfg now job s.db.leases l c.one_lease_each e) [
        | inl (held, n, found) ↦ inl (
          l,
          e,
          holds-IsOwn job l held,
          rw n refl,
          found,
          λ k ne. other_held cfg now k job s.db.leases ne,
        )
        | inr (held, n, kept) ↦ inr (
          (λ m h own.
              not_held-own job m (rw (← some_inj.0 (sym e ∙ h)) held)
                (lease_id job.job_id s.db.leases m h) own),
          rw n refl,
          rw kept refl,
        )
      ]
    ]
