-- ===== src/Common/Table.antt =====
-- A table with an integer primary key, as the list of its rows: what the SQL statements of the
-- source do to one, by key.
use mathlib.Core.Path.{◌≡◌}
use mathlib.Core.Option.{Option, none, some}
use mathlib.Core.List.{List, [], ◌∷◌}
use Prim.Native.Nat.{ℕ}
use projectos_core.Common.Tests.{◌==◌, if◌then◌else◌}

abbrev pub map_some {ℓ κ} : {A : Type ℓ} {B : Type κ} → (A → B) → Option A → Option B
map_some f none = none
map_some f (some a) = some (f a)

module _ {ℓ} {A : Type ℓ} (key : A → ℕ) where
  -- `SELECT … WHERE key = id`.
  unfoldable pub find_row : ℕ → List A → Option A
  find_row id [] = none
  find_row id (r ∷ rs) = if key r == id then some r else find_row id rs

  abbrev insert_into : Option A → A → List A → Option (List A)
  insert_into none r rs = some (r ∷ rs)
  insert_into (some _) r rs = none

  -- `INSERT`: nothing if the key is taken.
  unfoldable pub insert_row : A → List A → Option (List A)
  unfolding find_row
  insert_row r rs = insert_into (find_row (key r) rs) r rs

  -- `UPDATE … WHERE key = id`, on however many rows that matches.
  unfoldable pub update_all : ℕ → (A → A) → List A → List A
  update_all id f [] = []
  update_all id f (r ∷ rs) =
      let rest = update_all id f rs in if key r == id then f r ∷ rest else r ∷ rest

  abbrev update_found : Option A → List A → Option (List A)
  update_found none rs = none
  update_found (some _) rs = some rs

  -- The same where it must change exactly one row: nothing if no row has the key.
  unfoldable pub update_row : ℕ → (A → A) → List A → Option (List A)
  unfolding find_row update_all
  update_row id f rs = update_found (find_row id rs) (update_all id f rs)

  -- `INSERT … ON CONFLICT DO UPDATE` of the whole row.
  unfoldable pub upsert_row : A → List A → List A
  upsert_row r [] = r ∷ []
  upsert_row r (s ∷ rs) = if key s == key r then r ∷ rs else s ∷ upsert_row r rs

  -- `DELETE … WHERE key = id`.
  unfoldable pub delete_row : ℕ → List A → List A
  delete_row id [] = []
  delete_row id (r ∷ rs) = if key r == id then delete_row id rs else r ∷ delete_row id rs

  -- No two rows have one key.
  abbrev pub Unique : List A → Type ℓ
  Unique [] = Unit
  Unique (r ∷ rs) = (find_row (key r) rs ≡ none) × Unique rs
