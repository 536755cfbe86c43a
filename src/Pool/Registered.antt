-- ===== src/Pool/Registered.antt =====
-- The registry of handlers in crates/pos-sched/src/pool.rs: one handler for a kind, up to its bound.
use projectos_core.Common.Result.{ok_inj, ok, err, Result}
use projectos_core.Pool.{
  handler_registry_count_max, handler_register, handler_get, full, duplicate, JobHandler,
  HandlerRegistryError, HandlerRegistry,
}
use projectos_core.Common.{
  ◌⊎◌, ◌≤◌, ◌≡◌, ◌∷◌, ◌∙◌, text_eq_sound, text_eq_self, text_eq, sym, subst, some, refl, none,
  length, leb, inr, inl, arith, Text, Option-cases, Bool-cases,
}

others :
    (h : JobHandler) (hs : HandlerRegistry) (kind : Text)
    → (kind ≡ h.kind) ⊎ (handler_get kind (h ∷ hs) ≡ handler_get kind hs)
unfolding handler_get
others h hs kind = elim (Bool-cases (text_eq h.kind kind)) [
  | inl e ↦ inl (sym (text_eq_sound h.kind kind e))
  | inr e ↦ inr (rw e refl)
]

-- A registration that succeeds makes the handler the one of its kind, which had none before, leaves
-- the other kinds as they were, and keeps the registry within its bound.
pub handler_register_lem :
    (h : JobHandler) (hs hs' : HandlerRegistry) (kind : Text)
    → handler_register h hs ≡ ok hs'
    → (handler_get h.kind hs ≡ none)
      × (handler_get h.kind hs' ≡ some h)
      × ((kind ≡ h.kind) ⊎ (handler_get kind hs' ≡ handler_get kind hs))
      × (length hs' ≤ handler_registry_count_max)
unfolding handler_register handler_get
handler_register_lem h hs hs' kind q = elim (Option-cases (handler_get h.kind hs)) [
  | inr (old, s) ↦
      let never : ◌≡◌ {A = Result HandlerRegistryError HandlerRegistry} (err (duplicate h.kind))
          (ok hs') =
        sym (rw s refl) ∙ q in
      absurd cc
  | inl fresh ↦ elim (Bool-cases (leb handler_registry_count_max (length hs))) [
    | inl e ↦
        let never : ◌≡◌ {A = Result HandlerRegistryError HandlerRegistry}
            (err (full handler_registry_count_max)) (ok hs') =
          sym (rw (fresh, e) refl) ∙ q in
        absurd cc
    | inr e ↦
        let k : ◌≡◌ {A = Result HandlerRegistryError HandlerRegistry} (ok (h ∷ hs)) (ok hs') =
          sym (rw (fresh, e) refl) ∙ q in
        let bound : length (h ∷ hs) ≤ handler_registry_count_max = ground (arith, e) in
        subst
          (λ r.
            (handler_get h.kind hs ≡ none)
            × (handler_get h.kind r ≡ some h)
            × ((kind ≡ h.kind) ⊎ (handler_get kind r ≡ handler_get kind hs))
            × (length r ≤ handler_registry_count_max))
          (ok_inj k) (fresh, rw (text_eq_self h.kind) refl, others h hs kind, bound)
  ]
]
