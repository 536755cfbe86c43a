-- ===== src/Server/Acl.antt =====
-- bins/pos-server/src/acl.rs, with the roles of control.rs and the names of
-- crates/pos-api/src/lib.rs: which account may dispatch what, on which path. The parsing of the JSON
-- inputs, the membership query and the making of a directory are parameters.
pub mod Placement
pub mod Roles
use projectos_core.Common.Splits.{strip_suffix, strip_prefix, split_once, all_are}
use projectos_core.Common.Result.{◌>>=◌, ok, err, Result}
use projectos_core.Common.{
  ◌∷◌, ◌||◌, ◌==◌, ◌-◌, ◌+◌, ◌*◌, ◌&&◌, text_eq, some, none, ltb, length, leb, if◌then◌else◌, bytes,
  [], Text, Option, Bool, ℕ,
}

pub data Role : Type 0 where
  viewer member admin owner : Role

abbrev pub role_rank : Role → ℕ
role_rank viewer = 0
role_rank member = 1
role_rank admin = 2
role_rank owner = 3

unfoldable pub role_parse : Text → Option Role
role_parse text =
    if text_eq text (bytes "viewer")
    then some viewer
    else if text_eq text (bytes "member")
    then some member
    else if text_eq text (bytes "admin")
    then some admin
    else if text_eq text (bytes "owner")
    then some owner
    else none

unfoldable pub role_as_str : Role → Text
role_as_str viewer = bytes "viewer"
role_as_str member = bytes "member"
role_as_str admin = bytes "admin"
role_as_str owner = bytes "owner"

pub data Access : Type 0 where
  read mutate : Access

-- `ApiError`: its code.
pub data ApiError : Type 0 where
  forbidden invalid_input control_failure : ApiError

pub data CommandName : Type 0 where
  project_create project_export project_seed_synthetic project_open project_close : CommandName
  run_start run_cancel run_pause run_resume models_pull ingest_submit ingest_reprocess : CommandName
  transcript_correct transcript_speaker_name transcript_speaker_assign : CommandName

pub data QueryName : Type 0 where
  capability_snapshot project_inspect project_verify project_list job_list cron_preview : QueryName
  cost_rollup health evidence_list source_health transcript_get : QueryName

unfoldable pub audited_action : CommandName → Option Text
audited_action project_create = some (bytes "project.create")
audited_action project_open = some (bytes "project.open")
audited_action project_close = some (bytes "project.close")
audited_action run_start = some (bytes "run.start")
audited_action run_cancel = some (bytes "run.cancel")
audited_action _ = none

abbrev pub project_name_len_max : ℕ
project_name_len_max = 64

unfoldable pub is_name_char : ℕ → Bool
is_name_char c =
    (leb b'0' c && leb c b'9')
    || ((leb b'A' c && leb c b'Z') || ((leb b'a' c && leb c b'z') || ((c == b'-') || (c == b'_'))))

-- A digit of `from_str_radix` in base 16, either case.
unfoldable pub radix_digit : ℕ → Option ℕ
radix_digit c =
    if leb b'0' c && leb c b'9'
    then some (c - b'0')
    else if leb b'a' c && leb c b'f'
    then some (c - b'a' + 10)
    else if leb b'A' c && leb c b'F'
    then some (c - b'A' + 10)
    else none

abbrev pub two_digits : Option ℕ → Option ℕ → Option ℕ
two_digits (some h) (some l) = some (h * 16 + l)
two_digits _ _ = none

-- `u8::from_str_radix` in base 16 on two characters: a plus sign may stand before the digits.
unfoldable pub from_str_radix : (first second : ℕ) → Option ℕ
from_str_radix first second =
    if first == b'+'
    then radix_digit second
    else two_digits (radix_digit first) (radix_digit second)

unfoldable pub is_ascii_uppercase : ℕ → Bool
is_ascii_uppercase c = leb b'A' c && leb c b'Z'

abbrev pub cons_byte : Option ℕ → Option Text → Option Text
cons_byte (some b) (some bs) = some (b ∷ bs)
cons_byte _ _ = none

-- The loop of `pos_foundation_hex`.
unfoldable pub hex_bytes : Text → Option Text
hex_bytes (h ∷ l ∷ rest) =
    let later = hex_bytes rest in
    if is_ascii_uppercase h || is_ascii_uppercase l
    then none
    else cons_byte (from_str_radix h l) later
hex_bytes _ = some []

unfoldable pub pos_foundation_hex : Text → Option Text
pos_foundation_hex text = if length text == 32 then hex_bytes text else none

unfoldable pub name_ok : Text → Bool
name_ok name =
    ltb 0 (length name) && (leb (length name) project_name_len_max && all_are is_name_char name)

abbrev pub or_invalid {ℓ} : {A : Type ℓ} → Option A → Result ApiError A
or_invalid none = err invalid_input
or_invalid (some a) = ok a

-- `parse_placement`, by the text of `<data_root>/workspaces`.
unfoldable pub parse_placement : (root_text path_text : Text) → Result ApiError Text
parse_placement root_text path_text = do
  rest ← or_invalid (strip_prefix root_text path_text)
  remainder ← or_invalid (strip_prefix (b'/' ∷ []) rest)
  parts ← or_invalid (split_once b'/' remainder)
  workspace_id ← or_invalid (pos_foundation_hex parts.0)
  name ← or_invalid (strip_suffix (bytes ".pos") parts.1)
  if name_ok name then ok workspace_id else err invalid_input

-- `control.role_in_workspace` and `create_dir_all`, with the effects of the latter on `D`.
pub record Control (D : Type 0) : Type 0 where
  pub role_in_workspace : (workspace_id : Text) → (account : Text) → Result ApiError (Option Role)
  pub create_dir_all : (workspace_id : Text) → D → Result ApiError (Unit {0}) × D

-- The inputs that serde reads from the JSON text, with the fields that the control reads.
pub record Inputs : Type 0 where
  pub project_create_path : Text → Result ApiError Text
  pub project_seed_path : Text → Result ApiError Text
  pub project_export_paths : Text → Result ApiError (Text × Text)
  pub project_path : Text → Result ApiError Text
  pub run_start_path : Text → Result ApiError Text
  pub run_control_path : Text → Result ApiError Text
  pub run_resume_path : Text → Result ApiError Text
  pub cost_rollup_path : Text → Result ApiError (Option Text)
  pub run_steps_path : Text → Result ApiError Text

unfoldable pub required_role : Access → Role
required_role read = viewer
required_role mutate = member

module _ {D : Type 0} (control : Control D) (inputs : Inputs) (root_text : Text)
    (account : Text) where
  abbrev pub with_role :
      Access → (workspace_id : Text) → Option Role → D → Result ApiError (Unit {0}) × D
  with_role access workspace_id none d = (err forbidden, d)
  with_role access workspace_id (some held) d =
      if ltb (role_rank held) (role_rank (required_role access))
      then (err forbidden, d)
      else control.create_dir_all workspace_id d

  abbrev pub with_answer :
      Access
      → (workspace_id : Text) → Result ApiError (Option Role)
      → D
      → Result ApiError (Unit {0}) × D
  with_answer access workspace_id (err why) d = (err why, d)
  with_answer access workspace_id (ok role) d = with_role access workspace_id role d

  abbrev pub with_placement : Access → Result ApiError Text → D → Result ApiError (Unit {0}) × D
  with_placement access (err why) d = (err why, d)
  with_placement access (ok workspace_id) d =
      with_answer access workspace_id (control.role_in_workspace workspace_id account) d

  unfoldable pub authorize_path : (path_text : Text) → Access → D → Result ApiError (Unit {0}) × D
  authorize_path path_text access d = with_placement access (parse_placement root_text path_text) d

  abbrev pub on_input {ℓ} :
      {A : Type ℓ}
      → Result ApiError A
      → (A → D → Result ApiError (Unit {0}) × D)
      → D
      → Result ApiError (Unit {0}) × D
  on_input (err why) next d = (err why, d)
  on_input (ok input) next d = next input d

  abbrev pub both_paths :
      Access
      → (first : Result ApiError (Unit {0}) × D) → (out : Text) → Result ApiError (Unit {0}) × D
  both_paths access (err why, d) out = (err why, d)
  both_paths access (ok _, d) out = authorize_path out access d

  unfoldable pub authorize_command :
      CommandName → (input_json : Text) → D → Result ApiError (Unit {0}) × D
  authorize_command project_create json d =
      on_input (inputs.project_create_path json) (λ path. authorize_path path mutate) d
  authorize_command project_seed_synthetic json d =
      on_input (inputs.project_seed_path json) (λ path. authorize_path path mutate) d
  authorize_command project_export json d =
      on_input (inputs.project_export_paths json)
        (λ paths d. both_paths mutate (authorize_path paths.0 mutate d) paths.1) d
  authorize_command project_open json d =
      on_input (inputs.project_path json) (λ path. authorize_path path read) d
  authorize_command project_close json d =
      on_input (inputs.project_path json) (λ path. authorize_path path read) d
  authorize_command run_start json d =
      on_input (inputs.run_start_path json) (λ path. authorize_path path mutate) d
  authorize_command run_cancel json d =
      on_input (inputs.run_control_path json) (λ path. authorize_path path mutate) d
  authorize_command run_pause json d =
      on_input (inputs.run_control_path json) (λ path. authorize_path path mutate) d
  authorize_command run_resume json d =
      on_input (inputs.run_resume_path json) (λ path. authorize_path path mutate) d
  authorize_command _ json d = (err forbidden, d)

  abbrev pub on_path : Option Text → D → Result ApiError (Unit {0}) × D
  on_path none d = (ok tt, d)
  on_path (some path) d = authorize_path path read d

  unfoldable pub authorize_query :
      QueryName → (input_json : Text) → D → Result ApiError (Unit {0}) × D
  authorize_query project_inspect json d =
      on_input (inputs.project_path json) (λ path. authorize_path path read) d
  authorize_query project_verify json d =
      on_input (inputs.project_path json) (λ path. authorize_path path read) d
  authorize_query cost_rollup json d = on_input (inputs.cost_rollup_path json) on_path d
  authorize_query capability_snapshot json d = (ok tt, d)
  authorize_query project_list json d = (ok tt, d)
  authorize_query job_list json d = (ok tt, d)
  authorize_query health json d = (ok tt, d)
  authorize_query _ json d = (err forbidden, d)

  -- `authorize_stream`, of the one stream, `run.steps`.
  unfoldable pub authorize_stream : (input_json : Text) → D → Result ApiError (Unit {0}) × D
  authorize_stream json d =
      on_input (inputs.run_steps_path json) (λ path. authorize_path path read) d
