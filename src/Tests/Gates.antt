-- ===== src/Tests/Gates.antt =====
-- The gates in front of the program: the policy of the gateway, the access control of the server, and
-- the registries of the worker pool.
use projectos_core.Log.{read_head, next_event}
use projectos_core.Job.{job_dead}
use projectos_core.Pool.Handled.{run_job-unregistered}
use projectos_core.Queue.Failures.Landing.{dead_body, OnlyTouches}
use projectos_core.Projections.{integer_u64, JobDurableState}
use projectos_core.Queue.{read_job, default_config}
use projectos_core.Tests.{
  claimed_once, claimed_once-IsConsistent, first_found, first_row, first_job, first_id,
  example_externals,
}
use projectos_core.Common.Result.{ok}
use projectos_core.Pool.{no_handler, run_job, handler_register, handler_get, JobHandler}
use projectos_core.Server.Acl.Placement.{parse_placement-IsPlacement, IsPlacement}
use projectos_core.Server.Acl.Roles.{paths_of, authorize_command-IsAllowed, IsAllowed}
use projectos_core.Gateway.Policy.{
  url_host, remote, locality_eq, local_only, is_loopback_host, host_of, endpoint_new, device_local,
  custom_endpoints, authorize, authority_of, ModelChoice, EndpointConfig,
}
use projectos_core.Gateway.Policy.Gate.{
  OnDevice, local_only-IsLoopback, authorize_iff, IsLoopback, Allows,
}
use projectos_core.Server.Acl.{
  required_role, radix_digit, project_export, pos_foundation_hex, parse_placement, name_ok, member,
  is_name_char, is_ascii_uppercase, hex_bytes, from_str_radix, authorize_path, authorize_command,
  Inputs, Control, Access,
}
use projectos_core.Common.{
  saturating_add, arith, ◌⊎◌, ◌≡◌, ◌∷◌, ◌↔◌, ◌+◌, some, refl, none, false, bytes, [], Text, List,
  All, ℕ,
}

abbrev ollama : Text
ollama = bytes "http://localhost:11434/v1"

abbrev local_endpoint : EndpointConfig
local_endpoint = record { base_url = ollama; locality = device_local }

abbrev local_choice : ModelChoice
local_choice = record {
  family = bytes "custom";
  endpoint = local_endpoint;
  is_pinned_family_base = false;
}

abbrev cloud_choice : ModelChoice
cloud_choice = record local_choice {
  endpoint = record { base_url = bytes "https://models.example/v1"; locality = remote };
}

authorize_iff_example :
    (authorize (custom_endpoints (bytes "https://models.example/v1" ∷ [])) cloud_choice ≡ ok tt) ↔ (
      OnDevice remote
      ⊎ Allows (custom_endpoints (bytes "https://models.example/v1" ∷ [])) cloud_choice)
authorize_iff_example =
    authorize_iff (custom_endpoints (bytes "https://models.example/v1" ∷ [])) cloud_choice

endpoint_made : endpoint_new ollama device_local ≡ ok local_endpoint
unfolding endpoint_new locality_eq url_host host_of authority_of is_loopback_host
endpoint_made = refl

local_passes : authorize local_only local_choice ≡ ok tt
unfolding authorize
local_passes = refl

local_only-IsLoopback_example :
    (ollama ≡ ollama)
    × (device_local ≡ device_local)
    × (host : Text) × (url_host ollama ≡ some host)
    × IsLoopback host
local_only-IsLoopback_example =
    local_only-IsLoopback ollama device_local local_endpoint local_choice endpoint_made local_passes

abbrev root : Text
root = bytes "/srv/workspaces"

abbrev alpha_path : Text
alpha_path = bytes "/srv/workspaces/000102030405060708090a0b0c0d0e0f/alpha_1.pos"

abbrev workspace : Text
workspace = 0 ∷ 1 ∷ 2 ∷ 3 ∷ 4 ∷ 5 ∷ 6 ∷ 7 ∷ 8 ∷ 9 ∷ 10 ∷ 11 ∷ 12 ∷ 13 ∷ 14 ∷ 15 ∷ []

placed : parse_placement root alpha_path ≡ ok workspace
unfolding parse_placement pos_foundation_hex hex_bytes from_str_radix radix_digit is_ascii_uppercase
    name_ok is_name_char
placed = refl

parse_placement-IsPlacement_example : IsPlacement root alpha_path workspace
parse_placement-IsPlacement_example = parse_placement-IsPlacement root alpha_path workspace placed

-- Every account is a member of every workspace, and directories are only counted.
abbrev open_control : Control ℕ
open_control = record {
  role_in_workspace = λ id account. ok (some member);
  create_dir_all = λ id made. (ok tt, made + 1);
}

abbrev plain_inputs : Inputs
plain_inputs = record {
  project_create_path = λ json. ok json;
  project_seed_path = λ json. ok json;
  project_export_paths = λ json. ok (json, json);
  project_path = λ json. ok json;
  run_start_path = λ json. ok json;
  run_control_path = λ json. ok json;
  run_resume_path = λ json. ok json;
  cost_rollup_path = λ json. ok none;
  run_steps_path = λ json. ok json;
}

export_passes :
    (authorize_command open_control plain_inputs root (7 ∷ []) project_export alpha_path 0).0
    ≡ ok tt
unfolding authorize_command authorize_path required_role
export_passes = rw (placed, placed) refl

authorize_command-IsAllowed_example :
    (paths : List (Access × Text)) × (paths_of plain_inputs project_export alpha_path ≡ ok paths)
    × All (λ p. IsAllowed open_control plain_inputs root (7 ∷ []) p.0 p.1) paths
authorize_command-IsAllowed_example =
    authorize_command-IsAllowed open_control plain_inputs root (7 ∷ []) project_export alpha_path 0
      export_passes

abbrev chunker : JobHandler
chunker = record { kind = bytes "ingest.chunk"; run = λ job. some (ok tt) }

abbrev embedder : JobHandler
embedder = record { kind = bytes "ingest.embed"; run = λ job. none }

registered : handler_register embedder (chunker ∷ []) ≡ ok (embedder ∷ chunker ∷ [])
unfolding handler_register handler_get
registered = refl

nobody : handler_get first_job.kind [] ≡ none
unfolding handler_get
nobody = refl

run_job-unregistered_example :
    let (res, t) = run_job example_externals default_config [] first_job 300 400 400 claimed_once in
    (res ≡ ok tt)
    × OnlyTouches first_id claimed_once.db t.db
    × (t.jitter ≡ claimed_once.jitter)
    × (t.db.events
        ≡ next_event claimed_once.db (job_dead (dead_body first_job (no_handler first_job))) 400
          ∷ claimed_once.db.events)
    × (read_job first_id t
        ≡ some (record first_row {
          state = JobDurableState.dead;
          terminal_seq = some (integer_u64 (saturating_add (read_head claimed_once.db.events) 1));
          attempt_count = first_job.attempt_index;
          dead_reason_code = some (bytes "refused");
          dead_reason_detail = some (bytes "no_handler");
        }))
run_job-unregistered_example =
    run_job-unregistered example_externals default_config [] first_job 300 400 400 claimed_once
      first_row nobody claimed_once-IsConsistent first_found (omega arith)
