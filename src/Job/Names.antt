-- ===== src/Job/Names.antt =====
-- The stored names of crates/pos-domain/src/events.rs read back, and nothing else does.
use mathlib.Core.Option.{some_inj}
use projectos_core.Common.{
  Option, ◌⊎◌, if◌then◌else◌, ℕ, ◌≡◌, refl, ap, ◌∙◌, inl, inr, ◌↔◌, some, Text, bytes, text_eq,
  text_eq_sound, Bool-cases, arith,
}
use projectos_core.Job.{
  JobPriority, high, normal, low, rank, from_rank, JobClass, foreground, ingest, maintenance,
  class_as_str, class_parse, CronOverlapPolicy, skip, queue, cancel_previous, policy_as_str,
  policy_parse,
}

-- A number is the rank of a priority exactly if it reads back as that priority.
pub from_rank_iff : (n : ℕ) (p : JobPriority) → (from_rank n ≡ some p) ↔ (n ≡ rank p)
unfolding from_rank rank
from_rank_iff n high = ground arith
from_rank_iff n normal = ground arith
from_rank_iff n low = ground arith

-- One test of a parser that compares with the names in turn.
named {ℓ} :
    {A : Type ℓ} (v name : Text) (a c : A) (rest : Option A)
    → (if text_eq v name then some a else rest) ≡ some c
    → ((v ≡ name) × (a ≡ c)) ⊎ (rest ≡ some c)
named v name a c rest h = elim (Bool-cases (text_eq v name)) [
  | inl e ↦ inl (text_eq_sound v name e, some_inj.0 (rw e at h))
  | inr e ↦ inr (rw e at h)
]

class_parse-as_str : (c : JobClass) → class_parse (class_as_str c) ≡ some c
unfolding class_parse class_as_str
class_parse-as_str foreground = refl
class_parse-as_str ingest = refl
class_parse-as_str maintenance = refl

class_parse_sound : (v : Text) (c : JobClass) → class_parse v ≡ some c → v ≡ class_as_str c
unfolding class_parse class_as_str
class_parse_sound v c h = elim (named v (bytes "foreground") _ c _ h) [
  | inl (e, q) ↦ e ∙ ap class_as_str q
  | inr h ↦ elim (named v (bytes "ingest") _ c _ h) [
    | inl (e, q) ↦ e ∙ ap class_as_str q
    | inr h ↦ elim (named v (bytes "maintenance") _ c _ h) [
      | inl (e, q) ↦ e ∙ ap class_as_str q
      | inr h ↦ cc
    ]
  ]
]

-- A text is the stored name of a class exactly if it reads back as that class.
pub class_parse_iff : (v : Text) (c : JobClass) → (class_parse v ≡ some c) ↔ (v ≡ class_as_str c)
class_parse_iff v c = (class_parse_sound v c, λ e. ap class_parse e ∙ class_parse-as_str c)

policy_parse-as_str : (p : CronOverlapPolicy) → policy_parse (policy_as_str p) ≡ some p
unfolding policy_parse policy_as_str
policy_parse-as_str skip = refl
policy_parse-as_str queue = refl
policy_parse-as_str cancel_previous = refl

policy_parse_sound :
    (v : Text) (p : CronOverlapPolicy) → policy_parse v ≡ some p → v ≡ policy_as_str p
unfolding policy_parse policy_as_str
policy_parse_sound v p h = elim (named v (bytes "skip") _ p _ h) [
  | inl (e, q) ↦ e ∙ ap policy_as_str q
  | inr h ↦ elim (named v (bytes "queue") _ p _ h) [
    | inl (e, q) ↦ e ∙ ap policy_as_str q
    | inr h ↦ elim (named v (bytes "cancel_previous") _ p _ h) [
      | inl (e, q) ↦ e ∙ ap policy_as_str q
      | inr h ↦ cc
    ]
  ]
]

-- A text is the stored name of an overlap policy exactly if it reads back as that policy.
pub policy_parse_iff :
    (v : Text) (p : CronOverlapPolicy) → (policy_parse v ≡ some p) ↔ (v ≡ policy_as_str p)
policy_parse_iff v p = (policy_parse_sound v p, λ e. ap policy_parse e ∙ policy_parse-as_str p)
