-- ===== src/Server/Acl/Roles.antt =====
-- What the authorization of bins/pos-server/src/acl.rs requires of the caller.
use projectos_core.Common.Result.{ok, err, Result}
use projectos_core.Server.Acl.{
  read, with_placement, with_answer, transcript_speaker_name, transcript_speaker_assign,
  transcript_correct, run_start, run_resume, run_pause, run_cancel, required_role, role_rank,
  project_seed_synthetic, project_open, project_export, project_create, project_close,
  parse_placement, on_input, mutate, models_pull, ingest_submit, ingest_reprocess, forbidden,
  both_paths, authorize_path, authorize_command, Role, Inputs, Control, CommandName, ApiError,
  Access,
}
use projectos_core.Common.{
  ◌≤◌, ◌≢◌, ◌≡◌, ◌∷◌, ◌∙◌, sym, some, refl, none, ltb, inr, inl, arith, [], Text, Option, List,
  Bool-cases, All,
}

abbrev pub for_one : Access → Result ApiError Text → Result ApiError (List (Access × Text))
for_one access (err why) = err why
for_one access (ok path) = ok ((access, path) ∷ [])

abbrev pub for_both : Result ApiError (Text × Text) → Result ApiError (List (Access × Text))
for_both (err why) = err why
for_both (ok (path, out)) = ok ((mutate, path) ∷ (mutate, out) ∷ [])

refused : {e : ApiError} → ◌≢◌ {A = Result ApiError (Unit {0})} (err e) (ok tt)
refused q = cc

-- What a command needs, apart from the code: which paths its input names, and what it does there.
abbrev pub paths_of :
    Inputs → CommandName → (input_json : Text) → Result ApiError (List (Access × Text))
paths_of inputs project_create json = for_one mutate (inputs.project_create_path json)
paths_of inputs project_seed_synthetic json = for_one mutate (inputs.project_seed_path json)
paths_of inputs project_export json = for_both (inputs.project_export_paths json)
paths_of inputs project_open json = for_one read (inputs.project_path json)
paths_of inputs project_close json = for_one read (inputs.project_path json)
paths_of inputs run_start json = for_one mutate (inputs.run_start_path json)
paths_of inputs run_cancel json = for_one mutate (inputs.run_control_path json)
paths_of inputs run_pause json = for_one mutate (inputs.run_control_path json)
paths_of inputs run_resume json = for_one mutate (inputs.run_resume_path json)
paths_of inputs _ json = err forbidden

module _ {D : Type 0} (control : Control D) (inputs : Inputs) (root_text : Text)
    (account : Text) where
  -- The account is a member of the workspace that the path names, in a role that is enough.
  pub record IsAllowed (access : Access) (path_text : Text) : Type 0 where
    pub workspace_id : Text
    pub held : Role
    pub placed : parse_placement root_text path_text ≡ ok workspace_id
    pub is_member : control.role_in_workspace workspace_id account ≡ ok (some held)
    pub enough : role_rank (required_role access) ≤ role_rank held

  with_role_ok :
      (access : Access) (path id : Text) (r : Result ApiError (Option Role)) (d : D)
      → parse_placement root_text path ≡ ok id
      → control.role_in_workspace id account ≡ r
      → (with_answer control inputs root_text account access id r d).0 ≡ ok tt
      → IsAllowed access path
  with_role_ok access path id (err why) d p s q = absurd cc
  with_role_ok access path id (ok none) d p s q = absurd cc
  with_role_ok access path id (ok (some held)) d p s q =
      elim (Bool-cases (ltb (role_rank held) (role_rank (required_role access)))) [
        | inl e ↦
            let never : ◌≡◌ {A = Result ApiError (Unit {0})} (err forbidden) (ok tt) =
              sym (rw e refl) ∙ q in
            absurd (refused never)
        | inr e ↦ record {
          workspace_id = id;
          held = held;
          placed = p;
          is_member = s;
          enough = ground (arith, e);
        }
      ]

  with_placement_ok :
      (access : Access) (path : Text) (r : Result ApiError Text) (d : D)
      → parse_placement root_text path ≡ r
      → (with_placement control inputs root_text account access r d).0 ≡ ok tt
      → IsAllowed access path
  with_placement_ok access path (err why) d p q = absurd cc
  with_placement_ok access path (ok id) d p q =
      with_role_ok access path id (control.role_in_workspace id account) d p refl q

  -- A path is authorized only for a member of its workspace whose role is enough.
  pub authorize_path-IsAllowed :
      (path : Text) (access : Access) (d : D)
      → (authorize_path control inputs root_text account path access d).0 ≡ ok tt
      → IsAllowed access path
  unfolding authorize_path
  authorize_path-IsAllowed path access d q =
      with_placement_ok access path (parse_placement root_text path) d refl q

  one_ok :
      (access : Access) (r : Result ApiError Text) (d : D)
      → (on_input control inputs root_text account r
          (λ path. authorize_path control inputs root_text account path access)
          d).0
        ≡ ok tt
      → (paths : List (Access × Text)) × (for_one access r ≡ ok paths)
        × All (λ p. IsAllowed p.0 p.1) paths
  one_ok access (err why) d q = absurd cc
  one_ok access (ok path) d q =
      ((access, path) ∷ [], refl, (authorize_path-IsAllowed path access d q, tt))

  out_ok :
      (out : Text) (r : Result ApiError (Unit {0}) × D)
      → (both_paths control inputs root_text account mutate r out).0 ≡ ok tt
      → (r.0 ≡ ok tt) × IsAllowed mutate out
  out_ok out (err why, d) q = absurd cc
  out_ok out (ok _, d) q = (refl, authorize_path-IsAllowed out mutate d q)

  both_ok :
      (r : Result ApiError (Text × Text)) (d : D)
      → (on_input control inputs root_text account r
          (λ paths d.
            both_paths control inputs root_text account mutate
              (authorize_path control inputs root_text account paths.0 mutate d)
              paths.1)
          d).0
        ≡ ok tt
      → (paths : List (Access × Text)) × (for_both r ≡ ok paths)
        × All (λ p. IsAllowed p.0 p.1) paths
  both_ok (err why) d q = absurd cc
  both_ok (ok (path, out)) d q =
      let (first, second) =
        out_ok out (authorize_path control inputs root_text account path mutate d) q in
      (
        (mutate, path) ∷ (mutate, out) ∷ [],
        refl,
        (authorize_path-IsAllowed path mutate d first, (second, tt)),
      )

  -- A command is authorized only if its input parses, every path that it names is in the placement
  -- grammar, and the account holds, in the workspace of each of them, a role that is enough for what
  -- the command does there; a command without a rule never is.
  pub authorize_command-IsAllowed :
      (command : CommandName) (json : Text) (d : D)
      → (authorize_command control inputs root_text account command json d).0 ≡ ok tt
      → (paths : List (Access × Text)) × (paths_of inputs command json ≡ ok paths)
        × All (λ p. IsAllowed p.0 p.1) paths
  unfolding authorize_command
  authorize_command-IsAllowed project_create json d q =
      one_ok mutate (inputs.project_create_path json) d q
  authorize_command-IsAllowed project_seed_synthetic json d q =
      one_ok mutate (inputs.project_seed_path json) d q
  authorize_command-IsAllowed project_export json d q =
      both_ok (inputs.project_export_paths json) d q
  authorize_command-IsAllowed project_open json d q = one_ok read (inputs.project_path json) d q
  authorize_command-IsAllowed project_close json d q = one_ok read (inputs.project_path json) d q
  authorize_command-IsAllowed run_start json d q = one_ok mutate (inputs.run_start_path json) d q
  authorize_command-IsAllowed run_cancel json d q = one_ok mutate (inputs.run_control_path json) d q
  authorize_command-IsAllowed run_pause json d q = one_ok mutate (inputs.run_control_path json) d q
  authorize_command-IsAllowed run_resume json d q = one_ok mutate (inputs.run_resume_path json) d q
  authorize_command-IsAllowed models_pull json d q = absurd cc
  authorize_command-IsAllowed ingest_submit json d q = absurd cc
  authorize_command-IsAllowed ingest_reprocess json d q = absurd cc
  authorize_command-IsAllowed transcript_correct json d q = absurd cc
  authorize_command-IsAllowed transcript_speaker_name json d q = absurd cc
  authorize_command-IsAllowed transcript_speaker_assign json d q = absurd cc
