-- ===== src/Ingest/Identity.antt =====
-- crates/pos-ingest/src/identity.rs: the content hash that ignores how text is laid out, and the
-- ids that are derived from it. A hasher is the bytes that it was fed; BLAKE3 is a parameter.
pub mod Words
use projectos_core.Job.Spec.{len_prefix}
use projectos_core.Ids.{into_bytes, from_bytes, be_bytes, OpaqueId}
use projectos_core.Ingest.{kind_as_str, ChunkKind}
use projectos_core.Common.{
  ◌∷◌, ◌||◌, ◌==◌, ◌+◌, ◌++◌, ℕ, true, take, not, if◌then◌else◌, false, bytes, [], Text, Bool,
}

abbrev pub source_id_domain : Text
source_id_domain = bytes "projectos/source-id/v1"

abbrev pub evidence_id_domain : Text
evidence_id_domain = bytes "projectos/evidence-id/v1"

abbrev pub chunk_id_domain : Text
chunk_id_domain = bytes "projectos/chunk-id/v1"

abbrev pub chunk_content_domain : Text
chunk_content_domain = bytes "projectos/chunk-content/v1"

-- `update_framed`: what it feeds.
unfoldable pub framed : Text → Text
framed t = len_prefix t ++ t

unfoldable pub truncate_to_id : Text → OpaqueId
truncate_to_id digest = from_bytes (take 16 digest)

module _ (blake3 : Text → Text) where
  unfoldable pub derive_source_id : (source_kind scope : Text) → OpaqueId
  derive_source_id source_kind scope =
      truncate_to_id (blake3 (source_id_domain ++ (framed source_kind ++ framed scope)))

  unfoldable pub derive_evidence_id : OpaqueId → (external_id : Text) → OpaqueId
  derive_evidence_id source_id external_id =
      truncate_to_id (blake3 (evidence_id_domain ++ (into_bytes source_id ++ framed external_id)))

  unfoldable pub derive_chunk_id :
      OpaqueId → ChunkKind → (byte_start : ℕ) → (content_hash : Text) → OpaqueId
  derive_chunk_id evidence_id kind byte_start content_hash = truncate_to_id (
      blake3 (
        chunk_id_domain
        ++ (into_bytes evidence_id
            ++ (framed (kind_as_str kind) ++ (be_bytes 8 byte_start ++ content_hash)))))

unfoldable pub is_ascii_whitespace : ℕ → Bool
is_ascii_whitespace c = (c == 32) || ((c == 9) || ((c == 10) || ((c == 12) || (c == 13))))

pub record ContentHasher : Type 0 where
  pub fed : Text
  pub pending_space : Bool
  pub started : Bool
  pub content_byte_count : ℕ

abbrev pub hasher_new : ContentHasher
hasher_new = record {
  fed = chunk_content_domain;
  pending_space = false;
  started = false;
  content_byte_count = 0;
}

-- One byte of the loop of `update`.
abbrev pub put_space : ContentHasher → ContentHasher
put_space h =
    if h.pending_space
    then record h {
      fed = h.fed ++ 32 ∷ [];
      content_byte_count = h.content_byte_count + 1;
      pending_space = false;
    }
    else h

abbrev pub put_byte : ℕ → ContentHasher → ContentHasher
put_byte c h = record h {
  fed = h.fed ++ c ∷ [];
  content_byte_count = h.content_byte_count + 1;
  started = true;
}

unfoldable pub update_byte : ℕ → ContentHasher → ContentHasher
update_byte c h =
    if is_ascii_whitespace c
    then record h { pending_space = h.started }
    else put_byte c (put_space h)

unfoldable pub update : Text → ContentHasher → ContentHasher
update [] h = h
update (c ∷ cs) h = update cs (update_byte c h)

abbrev pub hasher_is_empty : ContentHasher → Bool
hasher_is_empty h = not h.started
