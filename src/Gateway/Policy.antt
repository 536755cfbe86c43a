-- ===== src/Gateway/Policy.antt =====
-- crates/pos-gateway/src/policy.rs: endpoint configurations, whose locality label is checked against
-- the URL, and the dispatch gate of the model policies. The errors' texts are constructors.
pub mod Gate
use projectos_core.Common.Splits.{strip_prefix, split_once, rsplit_once}
use projectos_core.Common.Result.{ok, err, Result}
use mathlib.Core.Option.{map}
use projectos_core.Common.{
  bytes, ◌∷◌, ◌||◌, ◌++◌, ◌&&◌, true, text_eq, some, not, none, if◌then◌else◌, false, [], Text,
  Option, List, Bool, ℕ,
}

pub data EndpointLocality : Type 0 where
  in_process device_local remote : EndpointLocality

unfoldable pub leaves_device : EndpointLocality → Bool
leaves_device in_process = false
leaves_device device_local = false
leaves_device remote = true

unfoldable pub locality_eq : EndpointLocality → EndpointLocality → Bool
locality_eq in_process in_process = true
locality_eq device_local device_local = true
locality_eq remote remote = true
locality_eq _ _ = false

pub record EndpointConfig : Type 0 where
  pub base_url : Text
  pub locality : EndpointLocality

pub data EndpointConfigError : Type 0 where
  no_url : EndpointConfigError
  did_not_parse : (base_url : Text) → EndpointConfigError
  not_loopback : (host : Text) → EndpointConfigError

abbrev first_part : Option (Text × Text) → Text → Text
first_part none whole = whole
first_part (some (a, b)) whole = a

unfoldable pub authority_of : Text → Text
authority_of rest = first_part (split_once b'/' rest) rest

unfoldable pub host_of : Text → Text
host_of authority = first_part (rsplit_once b':' authority) authority

abbrev pub or_else : Option Text → Option Text → Option Text
or_else none other = other
or_else (some t) other = some t

unfoldable pub url_host : Text → Option Text
url_host base_url =
    map (λ rest. host_of (authority_of rest))
      (or_else (strip_prefix (bytes "http://") base_url) (strip_prefix (bytes "https://") base_url))

unfoldable pub is_loopback_host : Text → Bool
is_loopback_host host =
    text_eq host (bytes "localhost")
    || (text_eq host (bytes "127.0.0.1")
        || (text_eq host (bytes "[::1]") || text_eq host (bytes "::1")))

abbrev pub labelled :
    Option Text → Text → EndpointLocality → Result EndpointConfigError EndpointConfig
labelled none base_url locality = err (did_not_parse base_url)
labelled (some host) base_url locality =
    if locality_eq locality device_local && not (is_loopback_host host)
    then err (not_loopback host)
    else ok (record { base_url = base_url; locality = locality })

-- `EndpointConfig::new`.
unfoldable pub endpoint_new : Text → EndpointLocality → Result EndpointConfigError EndpointConfig
endpoint_new base_url locality =
    if locality_eq locality in_process
    then err no_url
    else labelled (url_host base_url) base_url locality

-- `EndpointConfig::in_process`.
unfoldable pub endpoint_in_process : Text → EndpointConfig
endpoint_in_process component = record {
  base_url = bytes "in-process:" ++ component;
  locality = in_process;
}

pub data ModelPolicy : Type 0 where
  local_only : ModelPolicy
  cloud_allowed : ModelPolicy
  custom_endpoints : (allowed_base_urls : List Text) → ModelPolicy

unfoldable pub label : ModelPolicy → Text
label local_only = bytes "local_only"
label cloud_allowed = bytes "cloud_allowed"
label (custom_endpoints _) = bytes "custom_endpoints"

-- `ModelChoice`, with the fields that the gate reads.
pub record ModelChoice : Type 0 where
  pub family : Text
  pub endpoint : EndpointConfig
  pub is_pinned_family_base : Bool

pub data Requested : Type 0 where
  remote_family : (family : Text) → Requested
  custom_remote : (base_url : Text) → Requested
  unlisted_remote : (base_url : Text) → Requested

-- `Weather::PolicyViolation`.
pub record PolicyViolation : Type 0 where
  pub policy : Text
  pub requested : Requested

abbrev pub any_is : Text → List Text → Bool
any_is t [] = false
any_is t (u ∷ us) = text_eq u t || any_is t us

-- The arm of `local_only`.
abbrev pub local_only_gate : ModelChoice → EndpointLocality → Result PolicyViolation (Unit {0})
local_only_gate choice in_process = ok tt
local_only_gate choice device_local = ok tt
local_only_gate choice remote =
    err (record { policy = label local_only; requested = remote_family choice.family })

-- The arm of `cloud_allowed`.
abbrev pub cloud_gate : ModelChoice → EndpointLocality → Result PolicyViolation (Unit {0})
cloud_gate choice in_process = ok tt
cloud_gate choice device_local = ok tt
cloud_gate choice remote =
    if choice.is_pinned_family_base
    then ok tt
    else err (record {
      policy = label cloud_allowed;
      requested = custom_remote choice.endpoint.base_url;
    })

-- The arm of `custom_endpoints`.
abbrev pub custom_gate :
    List Text → ModelChoice → EndpointLocality → Result PolicyViolation (Unit {0})
custom_gate allowed choice in_process = ok tt
custom_gate allowed choice device_local = ok tt
custom_gate allowed choice remote =
    if choice.is_pinned_family_base || any_is choice.endpoint.base_url allowed
    then ok tt
    else err (record {
      policy = label (custom_endpoints allowed);
      requested = unlisted_remote choice.endpoint.base_url;
    })

-- `authorize`: the endpoint's locality is matched inside each policy.
unfoldable pub authorize : ModelPolicy → ModelChoice → Result PolicyViolation (Unit {0})
authorize local_only choice = local_only_gate choice choice.endpoint.locality
authorize cloud_allowed choice = cloud_gate choice choice.endpoint.locality
authorize (custom_endpoints allowed) choice = custom_gate allowed choice choice.endpoint.locality
