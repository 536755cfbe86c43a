-- ===== src/Gateway/Policy/Gate.antt =====
-- What the gate of crates/pos-gateway/src/policy.rs lets pass.
use projectos_core.Common.Result.{ok_inj, Result, ok, err}
use projectos_core.Gateway.Policy.{
  custom_gate, unlisted_remote, label, not_loopback, labelled, EndpointConfigError, url_host,
  remote, locality_eq, in_process, endpoint_new, device_local, EndpointLocality, EndpointConfig,
  leaves_device, is_loopback_host, authorize, PolicyViolation, local_only, custom_endpoints,
  cloud_allowed, any_is, ModelPolicy, ModelChoice,
}
use mathlib.Core.List.{Memᴰ}
use projectos_core.Common.{
  ◌&&◌, not, none, Option, ◌≢◌, some, ap, ◌∙◌, ◌↔◌, ◌||◌, text_eq_self, sym, subst, refl,
  if◌then◌else◌, false, Bool, bytes, ◌⊎◌, ◌≡◌, ◌∷◌, true, text_eq_sound, text_eq, inr, inl, arith,
  [], Text, List, Bool-cases,
}

-- The hosts that the source takes for this device.
abbrev pub IsLoopback : Text → Type 0
IsLoopback host =
    (host ≡ bytes "localhost")
    ⊎ (host ≡ bytes "127.0.0.1")
    ⊎ (host ≡ bytes "[::1]")
    ⊎ (host ≡ bytes "::1")

-- Endpoints whose requests never leave the device.
abbrev pub OnDevice : EndpointLocality → Type 0
OnDevice locality = (locality ≡ in_process) ⊎ (locality ≡ device_local)

-- What each policy allows of the others, apart from the code.
abbrev pub Allows : ModelPolicy → ModelChoice → Type 0
Allows local_only choice = ⊥
Allows cloud_allowed choice = choice.is_pinned_family_base ≡ true
Allows (custom_endpoints allowed) choice =
    (choice.is_pinned_family_base ≡ true) ⊎ Memᴰ choice.endpoint.base_url allowed

any_is_sound : (t : Text) (us : List Text) → any_is t us ≡ true → Memᴰ t us
any_is_sound t [] h = absurd cc
any_is_sound t (u ∷ us) h = elim (Bool-cases (text_eq u t)) [
  | inl e ↦ Memᴰ.head (sym (text_eq_sound u t e))
  | inr e ↦ Memᴰ.tail (any_is_sound t us (ground (arith, h, e)))
]

any_is_Mem : (t : Text) (us : List Text) → Memᴰ t us → any_is t us ≡ true
any_is_Mem t [] m = elim m [ ]
any_is_Mem t (u ∷ us) (Memᴰ.head e) =
    rw (subst (λ k. text_eq u k ≡ true) (sym e) (text_eq_self u)) refl
any_is_Mem t (u ∷ us) (Memᴰ.tail m) = ground (arith, any_is_Mem t us m)

err_not_ok {ℓ κ} : {E : Type ℓ} {A : Type κ} {e : E} {a : A} → ◌≢◌ {A = Result E A} (err e) (ok a)
err_not_ok q = cc

ok_cases :
    (b : Bool) (v : PolicyViolation)
    → (◌≡◌ {A = Result PolicyViolation (Unit {0})} (if b then ok tt else err v) (ok tt))
      ↔ (b ≡ true)
ok_cases true v = ((λ q. refl), (λ h. refl))
ok_cases false v = ((λ q. absurd (err_not_ok q)), (λ h. absurd cc))

-- On the device, every arm passes.
stays_here :
    (policy : ModelPolicy) (choice : ModelChoice)
    → OnDevice choice.endpoint.locality
    → authorize policy choice ≡ ok tt
unfolding authorize
stays_here local_only choice (inl e) = rw e refl
stays_here local_only choice (inr e) = rw e refl
stays_here cloud_allowed choice (inl e) = rw e refl
stays_here cloud_allowed choice (inr e) = rw e refl
stays_here (custom_endpoints allowed) choice (inl e) = rw e refl
stays_here (custom_endpoints allowed) choice (inr e) = rw e refl

locality_cases : (locality : EndpointLocality) → OnDevice locality ⊎ (locality ≡ remote)
locality_cases in_process = inl (inl refl)
locality_cases device_local = inl (inr refl)
locality_cases remote = inr refl

remote_apart : OnDevice remote → ⊥
remote_apart (inl e) = cc
remote_apart (inr e) = cc

custom_iff :
    (allowed : List Text) (choice : ModelChoice)
    → (custom_gate allowed choice remote ≡ ok tt) ↔ Allows (custom_endpoints allowed) choice
custom_iff allowed choice =
    let pinned = choice.is_pinned_family_base in
    let url = choice.endpoint.base_url in
    let (sound, complete) =
      ok_cases (pinned || any_is url allowed)
        (record { policy = label (custom_endpoints allowed); requested = unlisted_remote url }) in
    (
      (λ q. elim (Bool-cases pinned) [
        | inl e ↦ inl e
        | inr e ↦ inr (any_is_sound url allowed (ground (arith, sound q, e)))
      ]),
      (λ h.
          complete
            (elim h [ inl e ↦ rw e refl | inr m ↦ ground (arith, any_is_Mem url allowed m) ])),
    )

remote_iff :
    (policy : ModelPolicy) (choice : ModelChoice)
    → choice.endpoint.locality ≡ remote
    → (authorize policy choice ≡ ok tt) ↔ Allows policy choice
unfolding authorize
remote_iff local_only choice e = rw e (err_not_ok, (λ h. absurd h))
remote_iff cloud_allowed choice e = rw e (ok_cases choice.is_pinned_family_base _)
remote_iff (custom_endpoints allowed) choice e = rw e (custom_iff allowed choice)

-- A dispatch passes the gate exactly if its endpoint is in this process or on this device, or the policy allows its
-- endpoint: none under local_only, the pinned bases under cloud_allowed, and those or a listed base
-- URL under custom_endpoints.
pub authorize_iff :
    (policy : ModelPolicy) (choice : ModelChoice)
    → (authorize policy choice ≡ ok tt) ↔ (OnDevice choice.endpoint.locality ⊎ Allows policy choice)
authorize_iff policy choice = elim (locality_cases choice.endpoint.locality) [
  | inl here ↦ ((λ q. inl here), (λ h. stays_here policy choice here))
  | inr e ↦
      let (sound, complete) = remote_iff policy choice e in
      (
        (λ q. inr (sound q)),
        (λ h. elim h [
          | inl here ↦ absurd (remote_apart (subst OnDevice e here))
          | inr a ↦ complete a
        ]),
      )
]

-- `leaves_device` is false of those endpoints only.
leaves_device-OnDevice :
    (locality : EndpointLocality) → leaves_device locality ≡ false → OnDevice locality
unfolding leaves_device
leaves_device-OnDevice in_process h = inl refl
leaves_device-OnDevice device_local h = inr refl
leaves_device-OnDevice remote h = absurd cc

host_known : (host : Text) → is_loopback_host host ≡ true → IsLoopback host
unfolding is_loopback_host
host_known host h = elim (Bool-cases (text_eq host (bytes "localhost"))) [
  | inl e ↦ inl (text_eq_sound host (bytes "localhost") e)
  | inr a ↦ elim (Bool-cases (text_eq host (bytes "127.0.0.1"))) [
    | inl e ↦ inr (inl (text_eq_sound host (bytes "127.0.0.1") e))
    | inr b ↦ elim (Bool-cases (text_eq host (bytes "[::1]"))) [
      | inl e ↦ inr (inr (inl (text_eq_sound host (bytes "[::1]") e)))
      | inr c ↦ inr (inr (inr (text_eq_sound host (bytes "::1") (sym (rw (a, b, c) refl) ∙ h))))
    ]
  ]
]

labelled_ok :
    (host : Option Text) (url : Text) (locality : EndpointLocality) (c : EndpointConfig)
    → labelled host url locality ≡ ok c
    → (c.base_url ≡ url)
      × (c.locality ≡ locality)
      × (h : Text) × (host ≡ some h)
      × ((locality ≡ device_local) → IsLoopback h)
unfolding locality_eq
labelled_ok none url locality c q = absurd (err_not_ok q)
labelled_ok (some host) url locality c q =
    elim (Bool-cases (locality_eq locality device_local && not (is_loopback_host host))) [
      | inl e ↦
          let never : ◌≡◌ {A = Result EndpointConfigError EndpointConfig} (err (not_loopback host))
              (ok c) =
            sym (rw e refl) ∙ q in
          absurd (err_not_ok never)
      | inr e ↦
          let made : EndpointConfig = record { base_url = url; locality = locality } in
          let k : ◌≡◌ {A = Result EndpointConfigError EndpointConfig} (ok made) (ok c) =
            sym (rw e refl) ∙ q in
          let same = sym (ok_inj k) in
          (
            ap (λ c. c.base_url) same,
            ap (λ c. c.locality) same,
            host,
            refl,
            λ d.
                let here =
                  subst (λ l. (locality_eq l device_local && not (is_loopback_host host)) ≡ false) d
                    e in
                host_known host (ground (arith, here)),
          )
    ]

made_from_url :
    (url : Text) (locality : EndpointLocality) (c : EndpointConfig)
    → endpoint_new url locality ≡ ok c
    → ((locality ≡ in_process) → ⊥) × (labelled (url_host url) url locality ≡ ok c)
unfolding endpoint_new locality_eq
made_from_url url in_process c q = absurd (err_not_ok q)
made_from_url url device_local c q = ((λ d. absurd cc), q)
made_from_url url remote c q = ((λ d. absurd cc), q)

-- Under local_only, what passes the gate with an endpoint made from a URL is labelled device_local,
-- and the host that the source reads from its URL is one of this device.
pub local_only-IsLoopback :
    (url : Text) (locality : EndpointLocality) (c : EndpointConfig) (choice : ModelChoice)
    → endpoint_new url locality ≡ ok c
    → authorize local_only (record choice { endpoint = c }) ≡ ok tt
    → (c.base_url ≡ url)
      × (c.locality ≡ device_local)
      × (host : Text) × (url_host url ≡ some host)
      × IsLoopback host
local_only-IsLoopback url locality c choice q h =
    let (not_inside, labels) = made_from_url url locality c q in
    let (same_url, same_locality, host, named, loopback) =
      labelled_ok (url_host url) url locality c labels in
    let kept : OnDevice c.locality =
      elim ((authorize_iff local_only (record choice { endpoint = c })).0 h) [
        | inl k ↦ k
        | inr never ↦ absurd never
      ] in
    let local : locality ≡ device_local = elim (subst OnDevice same_locality kept) [
      | inl d ↦ absurd (not_inside d)
      | inr d ↦ d
    ] in
    (same_url, same_locality ∙ local, host, named, loopback local)
