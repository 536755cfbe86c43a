-- ===== src/Server/Acl/Placement.antt =====
-- The paths that `parse_placement` of bins/pos-server/src/acl.rs accepts.
use projectos_core.Common.Result.{err, Result, >>=-eq-ok, ok_inj, ok}
use projectos_core.Server.Acl.{
  parse_placement, name_ok, invalid_input, ApiError, project_name_len_max, pos_foundation_hex,
  or_invalid, is_name_char,
}
use projectos_core.Common.Splits.{
  strip_suffix_sound, strip_suffix, strip_prefix_sound, strip_prefix, split_once_sound, split_once,
  all_are,
}
use projectos_core.Common.{
  if◌then◌else◌, ◌≤◌, ◌≢◌, ◌≡◌, ◌∷◌, ◌∙◌, ◌==◌, ◌<◌, ◌++◌, true, sym, some, refl, none, length, inr,
  inl, bytes, arith, ap, [], Text, Option, Bool-cases, All, ==_iff, ℕ,
}

-- A path of the placement grammar: a workspace and a project directory under the root.
pub record IsPlacement (root_text path_text workspace_id : Text) : Type 0 where
  pub segment : Text
  pub name : Text
  pub spelled : path_text ≡ root_text ++ b'/' ∷ (segment ++ b'/' ∷ (name ++ bytes ".pos"))
  pub segment_names : pos_foundation_hex segment ≡ some workspace_id
  pub segment_length : length segment ≡ 32
  pub name_some : 0 < length name
  pub name_short : length name ≤ project_name_len_max
  pub name_plain : All (λ c. (c ≢ b'/') × (c ≢ b'.') × (c < 128)) name

or_invalid_ok {ℓ} : {A : Type ℓ} (o : Option A) (a : A) → or_invalid o ≡ ok a → o ≡ some a
or_invalid_ok none a q = absurd cc
or_invalid_ok (some b) a q = ap some (ok_inj q)

char_plain : (c : ℕ) → is_name_char c ≡ true → (c ≢ b'/') × (c ≢ b'.') × (c < 128)
unfolding is_name_char
char_plain c h = ((λ e. ground (arith, h, e)), (λ e. ground (arith, h, e)), ground (arith, h))

name_plain :
    (name : Text)
    → all_are is_name_char name ≡ true
    → All (λ c. (c ≢ b'/') × (c ≢ b'.') × (c < 128)) name
name_plain [] h = tt
name_plain (c ∷ name) h = (char_plain c (ground (arith, h)), name_plain name (ground (arith, h)))

hex_length :
    (text workspace_id : Text) → pos_foundation_hex text ≡ some workspace_id → length text ≡ 32
unfolding pos_foundation_hex
hex_length text workspace_id q = elim (Bool-cases (length text == 32)) [
  | inl e ↦ (==_iff (length text) 32).0 e
  | inr e ↦
      let never : ◌≡◌ {A = Option Text} none (some workspace_id) = sym (rw e refl) ∙ q in absurd cc
]

name_checked :
    (name id workspace_id : Text)
    → ◌≡◌ {A = Result ApiError Text}
        (if name_ok name then ok id else err invalid_input)
        (ok workspace_id)
    → (name_ok name ≡ true) × (id ≡ workspace_id)
name_checked name id workspace_id q = elim (Bool-cases (name_ok name)) [
  | inl e ↦
      let k : ◌≡◌ {A = Result ApiError Text} (ok id) (ok workspace_id) = sym (rw e refl) ∙ q in
      (e, ok_inj k)
  | inr e ↦
      let never : ◌≡◌ {A = Result ApiError Text} (err invalid_input) (ok workspace_id) =
        sym (rw e refl) ∙ q in
      absurd cc
]

accepted :
    (root_text path_text workspace_id rest remainder : Text) (parts : Text × Text) (id name : Text)
    → strip_prefix root_text path_text ≡ some rest
    → strip_prefix (b'/' ∷ []) rest ≡ some remainder
    → split_once b'/' remainder ≡ some parts
    → pos_foundation_hex parts.0 ≡ some id
    → strip_suffix (bytes ".pos") parts.1 ≡ some name
    → ◌≡◌ {A = Result ApiError Text}
        (if name_ok name then ok id else err invalid_input)
        (ok workspace_id)
    → IsPlacement root_text path_text workspace_id
unfolding name_ok
accepted root_text path_text workspace_id rest remainder (segment, file) id name a b c d e q =
    let (good, same) = name_checked name id workspace_id q in
    let (split, _) = split_once_sound b'/' remainder segment file c in
    let named = strip_suffix_sound (bytes ".pos") file name e in
    let under = strip_prefix_sound (b'/' ∷ []) rest remainder b in
    record {
      segment = segment;
      name = name;
      spelled =
          strip_prefix_sound root_text path_text rest a
          ∙ ap (λ r. root_text ++ r)
              (under ∙ ap (λ r. b'/' ∷ r) (split ∙ ap (λ f. segment ++ b'/' ∷ f) named));
      segment_names = d ∙ ap some same;
      segment_length = hex_length segment id d;
      name_some = ground (arith, good);
      name_short = ground (arith, good);
      name_plain = name_plain name (ground (arith, good));
    }

-- What `parse_placement` accepts is a path of the grammar: the root, a segment of 32 characters that
-- reads as the workspace's id, and a name of 1 to 64 plain characters before `.pos`, so that neither
-- a separator nor a dot can lead out of the segment.
pub parse_placement-IsPlacement :
    (root_text path_text workspace_id : Text)
    → parse_placement root_text path_text ≡ ok workspace_id
    → IsPlacement root_text path_text workspace_id
unfolding parse_placement
parse_placement-IsPlacement root_text path_text workspace_id q =
    let (rest, a, q1) = >>=-eq-ok (or_invalid (strip_prefix root_text path_text)) _ q in
    let (remainder, b, q2) = >>=-eq-ok (or_invalid (strip_prefix (b'/' ∷ []) rest)) _ q1 in
    let (parts, c, q3) = >>=-eq-ok (or_invalid (split_once b'/' remainder)) _ q2 in
    let (id, d, q4) = >>=-eq-ok (or_invalid (pos_foundation_hex parts.0)) _ q3 in
    let (name, e, q5) = >>=-eq-ok (or_invalid (strip_suffix (bytes ".pos") parts.1)) _ q4 in
    accepted root_text path_text workspace_id rest remainder parts id name (or_invalid_ok _ _ a)
      (or_invalid_ok _ _ b) (or_invalid_ok _ _ c) (or_invalid_ok _ _ d) (or_invalid_ok _ _ e) q5
