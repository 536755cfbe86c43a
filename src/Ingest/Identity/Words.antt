-- ===== src/Ingest/Identity/Words.antt =====
-- What the content hash of crates/pos-ingest/src/identity.rs is taken of: the words of the text, with
-- one space between.
use projectos_core.Common.Slices.{append_assoc}
use projectos_core.Ingest.Identity.{
  hasher_new, hasher_is_empty, chunk_content_domain, update_byte, update, is_ascii_whitespace,
  ContentHasher,
}
use projectos_core.Common.{
  subst, length, ◌∙◌, ◌||◌, refl, inr, inl, arith, ap, Bool-cases, ◌≡◌, ◌∷◌, ◌+◌, ◌++◌, ℕ, true,
  not, length, if◌then◌else◌, false, [], Text, List, Bool, sym,
}

-- Puts a byte in front of the first word, or of a new one if a space or the end follows.
abbrev push_front : ℕ → List Text → List Text
push_front c [] = (c ∷ []) ∷ []
push_front c (w ∷ ws) = (c ∷ w) ∷ ws

abbrev starts_word : Text → Bool
starts_word [] = false
starts_word (c ∷ cs) = not (is_ascii_whitespace c)

-- The maximal runs of bytes that are no white space.
pub words : Text → List Text
words [] = []
words (c ∷ cs) =
    let rest = words cs in
    if is_ascii_whitespace c
    then rest
    else (if starts_word cs then push_front c rest else (c ∷ []) ∷ rest)

abbrev pub join_words : List Text → Text
join_words [] = []
join_words (w ∷ []) = w
join_words (w ∷ v ∷ ws) = w ++ 32 ∷ join_words (v ∷ ws)

-- What a hasher in a given mode adds for the rest of the text.
added : (started pending : Bool) → Text → Text
added s p [] = []
added s p (c ∷ cs) =
    if is_ascii_whitespace c
    then added s s cs
    else (if p then 32 ∷ c ∷ added true false cs else c ∷ added true false cs)

append_nil : (a : Text) → (a ++ []) ≡ a
append_nil [] = refl
append_nil (x ∷ a) = ap (λ t. x ∷ t) (append_nil a)

abbrev pub has_words : List Text → Bool
has_words [] = false
has_words (w ∷ ws) = true

has_words-push : (c : ℕ) (ws : List Text) → has_words (push_front c ws) ≡ true
has_words-push c [] = refl
has_words-push c (w ∷ ws) = refl

byte_space :
    (c : ℕ) (h : ContentHasher)
    → is_ascii_whitespace c ≡ true
    → update_byte c h ≡ record h { pending_space = h.started }
unfolding update_byte
byte_space c h e = rw e refl

byte_gap :
    (c : ℕ) (h : ContentHasher)
    → is_ascii_whitespace c ≡ false
    → h.pending_space ≡ true
    → update_byte c h ≡ record {
      fed = (h.fed ++ 32 ∷ []) ++ c ∷ [];
      pending_space = false;
      started = true;
      content_byte_count = h.content_byte_count + 1 + 1;
    }
unfolding update_byte
byte_gap c h e p = rw (e, p) refl

byte_word :
    (c : ℕ) (h : ContentHasher)
    → is_ascii_whitespace c ≡ false
    → h.pending_space ≡ false
    → update_byte c h ≡ record {
      fed = h.fed ++ c ∷ [];
      pending_space = false;
      started = true;
      content_byte_count = h.content_byte_count + 1;
    }
unfolding update_byte
byte_word c h e p = rw (e, p) (rw (← p) refl)

-- What a run leads to from a hasher.
abbrev Outcome : Text → ContentHasher → ContentHasher → Type 0
Outcome t h k =
    (k.fed ≡ h.fed ++ added h.started h.pending_space t)
    × (k.content_byte_count ≡ h.content_byte_count + length (added h.started h.pending_space t))
    × (k.started ≡ (h.started || has_words (words t)))

after_byte :
    (c : ℕ) (cs : Text) (h : ContentHasher) {k : ContentHasher}
    → update_byte c h ≡ k
    → Outcome (c ∷ cs) h (update cs k)
    → Outcome (c ∷ cs) h (update (c ∷ cs) h)
unfolding update
after_byte c cs h e = subst (λ k. Outcome (c ∷ cs) h (update cs k)) (sym e)

update-added : (t : Text) (h : ContentHasher) → Outcome t h (update t h)
unfolding update added words
update-added [] h = (sym (append_nil h.fed), omega arith, ground arith)
update-added (c ∷ cs) h = elim (Bool-cases (is_ascii_whitespace c)) [
  | inl space ↦
      after_byte c cs h (byte_space c h space)
        (rw space (update-added cs (record h { pending_space = h.started })))
  | inr solid ↦
      let begun : (h.started || has_words (words (c ∷ cs))) ≡ true =
        unfold words in rw solid (ground (arith, has_words-push c (words cs))) in
      elim (Bool-cases h.pending_space) [
        | inl gap ↦
            let (fed, count, start) = update-added cs (record {
              fed = (h.fed ++ 32 ∷ []) ++ c ∷ [];
              pending_space = false;
              started = true;
              content_byte_count = h.content_byte_count + 1 + 1;
            }) in
            after_byte c cs h (byte_gap c h solid gap) (
              rw (solid, gap)
                (
                  fed ∙ append_assoc (h.fed ++ 32 ∷ []) (c ∷ []) _ ∙ append_assoc h.fed (32 ∷ []) _,
                  count ∙ omega arith,
                  start ∙ sym (rw solid at begun),
                ))
        | inr no_gap ↦
            let (fed, count, start) = update-added cs (record {
              fed = h.fed ++ c ∷ [];
              pending_space = false;
              started = true;
              content_byte_count = h.content_byte_count + 1;
            }) in
            after_byte c cs h (byte_word c h solid no_gap) (
              rw (solid, no_gap)
                (
                  fed ∙ append_assoc h.fed (c ∷ []) _,
                  count ∙ omega arith,
                  start ∙ sym (rw solid at begun),
                ))
      ]
]

join-push_front : (c : ℕ) (ws : List Text) → join_words (push_front c ws) ≡ c ∷ join_words ws
join-push_front c [] = refl
join-push_front c (w ∷ []) = refl
join-push_front c (w ∷ v ∷ ws) = refl

-- The words of the rest, joined behind a word's byte: the word goes on or a space comes first.
abbrev spaced : List Text → Text
spaced [] = []
spaced (w ∷ ws) = 32 ∷ join_words (w ∷ ws)

abbrev resumed : Text → Text
resumed cs = if starts_word cs then join_words (words cs) else spaced (words cs)

join-cons : (c : ℕ) (ws : List Text) → join_words ((c ∷ []) ∷ ws) ≡ c ∷ spaced ws
join-cons c [] = refl
join-cons c (w ∷ ws) = refl

-- The words behind a byte of a word.
join-word :
    (c : ℕ) (cs : Text)
    → is_ascii_whitespace c ≡ false
    → join_words (words (c ∷ cs)) ≡ c ∷ resumed cs
unfolding words
join-word c cs solid = elim (Bool-cases (starts_word cs)) [
  | inl e ↦ rw (solid, e) (join-push_front c (words cs))
  | inr e ↦ rw (solid, e) (join-cons c (words cs))
]

spaced-has : (ws : List Text) → has_words ws ≡ true → spaced ws ≡ 32 ∷ join_words ws
spaced-has [] h = cc
spaced-has (w ∷ ws) h = refl

has_words-word :
    (c : ℕ) (cs : Text) → is_ascii_whitespace c ≡ false → has_words (words (c ∷ cs)) ≡ true
unfolding words
has_words-word c cs solid = rw solid (ground (arith, has_words-push c (words cs)))

words_space : (c : ℕ) (cs : Text) → is_ascii_whitespace c ≡ true → words (c ∷ cs) ≡ words cs
unfolding words
words_space c cs space = rw space refl

resumed_space :
    (c : ℕ) (cs : Text) → is_ascii_whitespace c ≡ true → resumed (c ∷ cs) ≡ spaced (words (c ∷ cs))
resumed_space c cs space = rw space refl

resumed_word :
    (c : ℕ) (cs : Text)
    → is_ascii_whitespace c ≡ false
    → resumed (c ∷ cs) ≡ join_words (words (c ∷ cs))
resumed_word c cs solid = rw solid refl

-- The three modes of the hasher, against the words.
added_nothing :
    (added false false [] ≡ join_words (words []))
    × (added true true [] ≡ spaced (words []))
    × (added true false [] ≡ resumed [])
unfolding added words
added_nothing = (refl, refl, refl)

added-words :
    (t : Text)
    → (added false false t ≡ join_words (words t))
      × (added true true t ≡ spaced (words t))
      × (added true false t ≡ resumed t)
unfolding added
added-words [] = added_nothing
added-words (c ∷ cs) =
    let (start, gap, inside) = added-words cs in
    elim (Bool-cases (is_ascii_whitespace c)) [
      | inl space ↦
          let same = words_space c cs space in
          (
            rw space start ∙ ap join_words (sym same),
            rw space gap ∙ ap spaced (sym same),
            rw space gap ∙ ap spaced (sym same) ∙ sym (resumed_space c cs space),
          )
      | inr solid ↦
          let word = join-word c cs solid in
          (
            rw solid (ap (λ t. c ∷ t) inside) ∙ sym word,
            rw solid (ap (λ t. 32 ∷ c ∷ t) inside)
                ∙ sym (
                    spaced-has (words (c ∷ cs)) (has_words-word c cs solid)
                    ∙ ap (λ t. 32 ∷ t) word),
            rw solid (ap (λ t. c ∷ t) inside) ∙ sym (resumed_word c cs solid ∙ word),
          )
    ]

-- Whatever the layout of a text, the hasher is fed its domain and the words of the text with one
-- space between, counts the bytes of those, and is empty exactly if there is no word.
pub update-words :
    (t : Text)
    → let h = update t hasher_new in
      (h.fed ≡ chunk_content_domain ++ join_words (words t))
      × (h.content_byte_count ≡ length (join_words (words t)))
      × (hasher_is_empty h ≡ not (has_words (words t)))
update-words t =
    let (fed, count, start) = update-added t hasher_new in
    let (same, _, _) = added-words t in
    (
      fed ∙ ap (λ a. chunk_content_domain ++ a) same,
      count ∙ omega (arith, ap length same),
      ap not start,
    )

-- A text fed in two pieces is fed as one.
pub update-append : (s t : Text) (h : ContentHasher) → update (s ++ t) h ≡ update t (update s h)
unfolding update
update-append [] t h = refl
update-append (c ∷ s) t h = update-append s t (update_byte c h)
