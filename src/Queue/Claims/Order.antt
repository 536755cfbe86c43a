-- ===== src/Queue/Claims/Order.antt =====
-- The row that a claim of crates/pos-sched/src/queue.rs takes, said without its SQL, and that the
-- WHERE clause, the ORDER BY and the LIMIT of the code pick it.
use mathlib.Core.List.{Memᴰ}
use mathlib.Core.Option.{some_inj}
use projectos_core.Common.{
  ◌||◌, ◌==◌, ◌&&◌, min, ltb, i64_max, ℕ, ◌≤◌, ◌≡◌, refl, subst, ◌⊎◌, inl, inr, Bool, true, false,
  none, some, List, [], ◌∷◌, All, arith, Bool-cases, Option-cases,
}
use projectos_core.Common.Table.{find_row}
use projectos_core.Job.{
  JobClass, foreground, ingest, maintenance, JobPriority, high, normal, low, rank,
}
use projectos_core.Projections.{JobDurableState, JobRecord}
use projectos_core.Log.{Lease, lease_key, Db}
use projectos_core.Queue.{class_eq, claimable, precedes, select_first}

-- A row that a claim of this class may take now: queued, of the class, due and without a lease. The
-- clock's reading is stored in 63 bits.
pub record IsOpen (class : JobClass) (now : ℕ) (leases : List Lease) (r : JobRecord) : Type 0 where
  pub is_queued : r.state ≡ JobDurableState.queued
  pub of_class : r.class ≡ class
  pub due : r.run_at_ts_ms ≤ min now i64_max
  pub unleased : find_row lease_key r.job_id leases ≡ none

-- The first priority is more urgent than the second.
abbrev pub Outranks : JobPriority → JobPriority → Type 0
Outranks high normal = Unit {0}
Outranks high low = Unit {0}
Outranks normal low = Unit {0}
Outranks _ _ = ⊥

-- `r` goes before `s`, or they are level: it is more urgent, or as urgent and enqueued no later.
abbrev pub GoesFirst : JobRecord → JobRecord → Type 0
GoesFirst r s =
    Outranks r.priority s.priority ⊎ ((r.priority ≡ s.priority) × (r.enqueued_seq ≤ s.enqueued_seq))

-- `r` is the row that a claim of this class takes now: of the open rows, the most urgent one that was
-- enqueued first.
pub record IsNext (class : JobClass) (now : ℕ) (db : Db) (r : JobRecord) : Type 0 where
  pub present : Memᴰ r db.tables.jobs
  pub open_now : IsOpen class now db.leases r
  pub first : All (λ s. IsOpen class now db.leases s → GoesFirst r s) db.tables.jobs

class_eq_sound : (a b : JobClass) → class_eq a b ≡ true → a ≡ b
class_eq_sound foreground b h = ground arith
class_eq_sound _ b h = ground arith

class_eq_self : (a : JobClass) → class_eq a a ≡ true
class_eq_self foreground = refl
class_eq_self ingest = refl
class_eq_self maintenance = refl

pub claimable-IsOpen :
    (class : JobClass) (now : ℕ) (ls : List Lease) (r : JobRecord)
    → claimable class now ls r ≡ true
    → IsOpen class now ls r
unfolding claimable
claimable-IsOpen class now ls r h = record {
  is_queued = ground arith;
  of_class = ground (arith, class_eq_sound r.class class);
  due = ground arith;
  unleased = ground arith;
}

IsOpen-claimable :
    (class : JobClass) (now : ℕ) (ls : List Lease) (r : JobRecord)
    → IsOpen class now ls r
    → claimable class now ls r ≡ true
unfolding claimable
IsOpen-claimable class now ls r o =
    let same : class_eq r.class class ≡ true =
      subst (λ c. class_eq r.class c ≡ true) o.of_class (class_eq_self r.class) in
    rw (o.is_queued, same, o.unleased) (ground (arith, o.due))

ranked_order :
    (p q : JobPriority) (m n : ℕ)
    → (ltb (rank q) (rank p) || ((rank q == rank p) && ltb n m)) ≡ false
    → Outranks p q ⊎ ((p ≡ q) × (m ≤ n))
unfolding rank
ranked_order high high m n h = inr (refl, ground arith)
ranked_order high normal m n h = inl tt
ranked_order high low m n h = inl tt
ranked_order normal high m n h = cc
ranked_order normal normal m n h = inr (refl, ground arith)
ranked_order normal low m n h = inl tt
ranked_order low high m n h = cc
ranked_order low normal m n h = cc
ranked_order low low m n h = inr (refl, ground arith)

precedes-GoesFirst : (s r : JobRecord) → precedes s r ≡ false → GoesFirst r s
unfolding precedes
precedes-GoesFirst s r h = ranked_order r.priority s.priority r.enqueued_seq s.enqueued_seq h

precedes_trans :
    (a b c : JobRecord) → precedes a b ≡ false → precedes b c ≡ false → precedes a c ≡ false
unfolding precedes
precedes_trans a b c h k = ground arith

precedes_asym : (a b : JobRecord) → precedes a b ≡ true → precedes b a ≡ false
unfolding precedes
precedes_asym a b h = ground arith

precedes_irrefl : (a : JobRecord) → precedes a a ≡ false
unfolding precedes
precedes_irrefl a = ground arith

module _ (p : JobRecord → Bool) where
  abbrev Firstly : List JobRecord → JobRecord → Type 0
  Firstly rows r = All (λ s. p s ≡ true → precedes s r ≡ false) rows

  pub select_first-none :
      (rows : List JobRecord) → select_first p rows ≡ none → All (λ s. p s ≡ false) rows
  unfolding select_first
  select_first-none [] h = tt
  select_first-none (r ∷ rows) h = elim (Bool-cases (p r)) [
    | inl e ↦ cc (rw e at h)
    | inr e ↦ (e, select_first-none rows (rw e at h))
  ]

  Firstly-weaken :
      (rows : List JobRecord) (a b : JobRecord)
      → precedes a b ≡ false
      → Firstly rows a
      → Firstly rows b
  Firstly-weaken [] a b h f = tt
  Firstly-weaken (r ∷ rows) a b h f =
      ((λ q. precedes_trans r a b (f.0 q) h), Firstly-weaken rows a b h f.1)

  Firstly-none :
      (rows : List JobRecord) (a : JobRecord) → All (λ s. p s ≡ false) rows → Firstly rows a
  Firstly-none [] a h = tt
  Firstly-none (r ∷ rows) a h = ((λ q. cc), Firstly-none rows a h.1)

  pub select_first-some :
      (rows : List JobRecord) {r : JobRecord}
      → select_first p rows ≡ some r
      → Memᴰ r rows × (p r ≡ true) × Firstly rows r
  unfolding select_first
  select_first-some [] h = cc
  select_first-some (r ∷ rows) h = elim (Bool-cases (p r)) [
    | inr e ↦ let (m, q, f) = select_first-some rows (rw e at h) in (Memᴰ.tail m, q, ((λ w. cc), f))
    | inl e ↦ elim (Option-cases (select_first p rows)) [
      | inl none_left ↦
          let q = some_inj.0 (rw (e, none_left) at h) in
          subst Best q (
            Memᴰ.head refl,
            e,
            ((λ _. precedes_irrefl r), Firstly-none rows r (select_first-none rows none_left)),
          )
      | inr (b, best) ↦
          let (m, q, f) = select_first-some rows best in
          elim (Bool-cases (precedes b r)) [
            | inl sooner ↦
                subst Best (some_inj.0 (rw (e, best, sooner) at h))
                  (Memᴰ.tail m, q, ((λ _. precedes_asym b r sooner), f))
            | inr later ↦
                subst Best (some_inj.0 (rw (e, best, later) at h))
                  (Memᴰ.head refl, e, ((λ _. precedes_irrefl r), Firstly-weaken rows b r later f))
          ]
    ]
  ]
    where
      Best : JobRecord → Type 0
      Best s = Memᴰ s (r ∷ rows) × (p s ≡ true) × Firstly (r ∷ rows) s

pub Firstly-first :
    (class : JobClass) (now : ℕ) (ls : List Lease) (rows : List JobRecord) (r : JobRecord)
    → Firstly (claimable class now ls) rows r
    → All (λ s. IsOpen class now ls s → GoesFirst r s) rows
Firstly-first class now ls [] r f = tt
Firstly-first class now ls (s ∷ rows) r f = (
  (λ o. precedes-GoesFirst s r (f.0 (IsOpen-claimable class now ls s o))),
  Firstly-first class now ls rows r f.1,
)

pub none_free :
    (class : JobClass) (now : ℕ) (ls : List Lease) (rows : List JobRecord)
    → All (λ s. claimable class now ls s ≡ false) rows
    → All (λ s. IsOpen class now ls s → ⊥) rows
none_free class now ls [] h = tt
none_free class now ls (s ∷ rows) h = (
  (λ o. absurd (ground (arith, h.0, IsOpen-claimable class now ls s o))),
  none_free class now ls rows h.1,
)
