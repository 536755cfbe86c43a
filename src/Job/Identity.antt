-- ===== src/Job/Identity.antt =====
-- The input of the job id's hash in crates/pos-sched/src/job.rs tells jobs apart.
use projectos_core.Common.{
  ℕ, ◌≤◌, ◌<◌, ◌^◌, ◌≡◌, refl, sym, ap, ◌∙◌, [], ◌∷◌, ◌++◌, Text, length, arith, min, u32_max,
}
use projectos_core.Ids.{OpaqueId, be_bytes, from_be_bytes, into_bytes}
use projectos_core.Ids.Hex.{from_be_bytes-be_bytes, length-be_bytes}
use projectos_core.Job.Spec.{len_prefix, job_id_input, job_id_domain}

-- Two concatenations with first parts of one length have equal parts if they are equal.
parts_equal : (a b c d : Text) → length a ≡ length b → (a ++ c) ≡ (b ++ d) → (a ≡ b) × (c ≡ d)
parts_equal [] [] c d n h = (refl, h)
parts_equal [] (y ∷ b) c d n h = absurd (omega (arith, n))
parts_equal (x ∷ a) [] c d n h = absurd (omega (arith, n))
parts_equal (x ∷ a) (y ∷ b) c d n h =
    let (p, q) = parts_equal a b c d (omega (arith, n)) (cc) in ((cc), q)

be_bytes-inj : (k m n : ℕ) → m < 256 ^ k → n < 256 ^ k → be_bytes k m ≡ be_bytes k n → m ≡ n
be_bytes-inj k m n hm hn e =
    sym (from_be_bytes-be_bytes k m hm) ∙ ap (from_be_bytes 0) e ∙ from_be_bytes-be_bytes k n hn

-- A length prefix tells the length, and ends after four bytes.
prefixes :
    (s t a b : Text)
    → length s ≤ u32_max
    → length t ≤ u32_max
    → (len_prefix s ++ a) ≡ (len_prefix t ++ b)
    → (length s ≡ length t) × (a ≡ b)
unfolding len_prefix
prefixes s t a b hs ht e =
    let (lens, rest) =
      parts_equal (be_bytes 4 (min (length s) u32_max)) (be_bytes 4 (min (length t) u32_max)) a b
        (length-be_bytes 4 _ ∙ sym (length-be_bytes 4 _)) e in
    let same =
      be_bytes-inj 4 (min (length s) u32_max) (min (length t) u32_max) (omega arith) (omega arith)
        lens in
    (omega (arith, same, hs, ht), rest)

-- The hash that a job's id is taken from reads different bytes for different jobs: two inputs are
-- equal only for one project, one kind and one idempotency key, whatever bytes kinds and keys
-- contain, if both are shorter than the prefix can say.
pub job_id_input_inj :
    (p q : OpaqueId) (kind kind' key key' : Text)
    → p < 2 ^ 128
    → q < 2 ^ 128
    → length kind ≤ u32_max
    → length kind' ≤ u32_max
    → length key ≤ u32_max
    → length key' ≤ u32_max
    → job_id_input p kind key ≡ job_id_input q kind' key'
    → (p ≡ q) × (kind ≡ kind') × (key ≡ key')
unfolding job_id_input into_bytes
job_id_input_inj p q kind kind' key key' hp hq hk hk' hi hi' e =
    let (_, body) = parts_equal job_id_domain job_id_domain _ _ refl e in
    let (ids, rest) =
      parts_equal (be_bytes 16 p) (be_bytes 16 q) _ _
        (length-be_bytes 16 p ∙ sym (length-be_bytes 16 q)) body in
    let (kind_lens, rest) = prefixes kind kind' _ _ hk hk' rest in
    let (kinds, rest) = parts_equal kind kind' _ _ kind_lens rest in
    (be_bytes-inj 16 p q hp hq ids, kinds, (prefixes key key' _ _ hi hi' rest).1)
