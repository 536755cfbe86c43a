-- ===== src/Common/TableLaws.antt =====
-- How the statements on a table act on its look-ups, on the uniqueness of its keys, and on a
-- property of all rows.
use projectos_core.Common.{
  ==_self, ℕ, ◌≡◌, refl, none, some, List, [], ◌∷◌, All, arith, ◌==◌, if◌then◌else◌, inl, inr, sym,
  subst, Option-cases, Bool-cases, ==_iff, ap, ◌∙◌,
}
use mathlib.Core.List.{Memᴰ}
use mathlib.Core.Option.{some_inj}
use projectos_core.Common.Table.{
  map_some, find_row, insert_row, update_all, update_row, upsert_row, delete_row, Unique,
}

module _ {ℓ} {A : Type ℓ} (key : A → ℕ) where
  -- An insertion that succeeds puts the row in front, and its key was free.
  pub insert_row-some :
      (r : A) (rows : List A) {rows' : List A}
      → insert_row key r rows ≡ some rows'
      → (rows' ≡ r ∷ rows) × (find_row key (key r) rows ≡ none)
  unfolding insert_row
  insert_row-some r rows h = ground arith

  pub insert-Unique :
      (r : A) (rows : List A) {rows' : List A}
      → insert_row key r rows ≡ some rows'
      → Unique key rows
      → Unique key rows'
  insert-Unique r rows h u =
      let (e, free) = insert_row-some r rows h in subst (Unique key) (sym e) (free, u)

  -- A strict update that succeeds is the plain one, and found a row.
  pub update_row-some :
      (id : ℕ) (f : A → A) (rows : List A) {rows' : List A}
      → update_row key id f rows ≡ some rows'
      → (rows' ≡ update_all key id f rows) × ((r : A) × (find_row key id rows ≡ some r))
  unfolding update_row
  update_row-some id f rows h = elim (Option-cases (find_row key id rows)) [
    | inl e ↦ ground arith
    | inr (r, e) ↦ (ground arith, (r, e))
  ]

  module _ (f : A → A) (keeps : (r : A) → key (f r) ≡ key r) where
    pub find-update :
        (k id : ℕ) (rows : List A)
        → find_row key k (update_all key id f rows)
          ≡ (if id == k then map_some f (find_row key k rows) else find_row key k rows)
    unfolding update_all find_row
    find-update k id [] = ground arith
    find-update k id (r ∷ rows) = ground (arith, find-update k id rows, keeps r)

    pub update-Unique :
        (id : ℕ) (rows : List A) → Unique key rows → Unique key (update_all key id f rows)
    unfolding update_all
    update-Unique id [] u = tt
    update-Unique id (r ∷ rows) u =
        ground (arith, find-update (key r) id rows, keeps r, update-Unique id rows u.1)

  pub find-upsert :
      (k : ℕ) (r : A) (rows : List A)
      → find_row key k (upsert_row key r rows)
        ≡ (if key r == k then some r else find_row key k rows)
  unfolding upsert_row find_row
  find-upsert k r [] = refl
  find-upsert k r (s ∷ rows) = ground (arith, find-upsert k r rows)

  pub upsert-Unique : (r : A) (rows : List A) → Unique key rows → Unique key (upsert_row key r rows)
  unfolding upsert_row find_row
  upsert-Unique r [] u = (refl, tt)
  upsert-Unique r (s ∷ rows) u =
      ground (arith, find-upsert (key s) r rows, upsert-Unique r rows u.1)

  pub find-delete :
      (k id : ℕ) (rows : List A)
      → find_row key k (delete_row key id rows) ≡ (if id == k then none else find_row key k rows)
  unfolding delete_row find_row
  find-delete k id [] = ground arith
  find-delete k id (r ∷ rows) = ground (arith, find-delete k id rows)

  pub delete-Unique :
      (id : ℕ) (rows : List A) → Unique key rows → Unique key (delete_row key id rows)
  unfolding delete_row
  delete-Unique id [] u = tt
  delete-Unique id (r ∷ rows) u =
      ground (arith, find-delete (key r) id rows, delete-Unique id rows u.1)

  pub find-All {κ} :
      (P : A → Type κ) (k : ℕ) (rows : List A) {r : A}
      → All P rows
      → find_row key k rows ≡ some r
      → P r × (key r ≡ k)
  unfolding find_row
  find-All P k [] h e = cc
  find-All P k (s ∷ rows) h e = elim (Bool-cases (key s == k)) [
    | inl hit ↦
        let q = some_inj.0 (rw hit at e) in
        (subst P q h.0, ap key (sym q) ∙ (==_iff (key s) k).0 hit)
    | inr miss ↦ find-All P k rows h.1 (rw miss at e)
  ]

  pub update-All {κ} :
      (P : A → Type κ) (f : A → A) (id : ℕ) (rows : List A)
      → ((r : A) → P r → P (f r))
      → All P rows
      → All P (update_all key id f rows)
  unfolding update_all
  update-All P f id [] keep h = tt
  update-All P f id (r ∷ rows) keep h = elim (Bool-cases (key r == id)) [
    | inl e ↦ rw e (keep r h.0, update-All P f id rows keep h.1)
    | inr e ↦ rw e (h.0, update-All P f id rows keep h.1)
  ]

  pub delete-All {κ} :
      (P : A → Type κ) (id : ℕ) (rows : List A) → All P rows → All P (delete_row key id rows)
  unfolding delete_row
  delete-All P id [] h = tt
  delete-All P id (r ∷ rows) h = elim (Bool-cases (key r == id)) [
    | inl e ↦ rw e (delete-All P id rows h.1)
    | inr e ↦ rw e (h.0, delete-All P id rows h.1)
  ]

  -- With unique keys a row of the table is what its key finds.
  pub find-Mem :
      (rows : List A) {r : A} → Unique key rows → Memᴰ r rows → find_row key (key r) rows ≡ some r
  unfolding find_row
  find-Mem [] u m = elim m [ ]
  find-Mem (s ∷ rows) u (Memᴰ.head e) = rw (e, ==_self (key s)) refl
  find-Mem (s ∷ rows) {r} u (Memᴰ.tail m) =
      let rest = find-Mem rows u.1 m in
      elim (Bool-cases (key s == key r)) [
        | inl hit ↦ absurd (
            ground
              (arith, rest, u.0, ap (λ k. find_row key k rows) ((==_iff (key s) (key r)).0 hit)))
        | inr miss ↦ rw miss rest
      ]
