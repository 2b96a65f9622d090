-- ===== src/Sql.antt =====
-- The SQL statements of the program as functions on the list of a table's rows.
pub mod Laws
use autentico.Prelude.{Bool, Option, none, some, List, [], ◌∷◌, map, if◌then◌else◌}

module _ {ℓ} {A : Type ℓ} where
  -- `SELECT ... WHERE p`, read by `QueryRow`: the first row, if there is one.
  unfoldable pub find_row : (A → Bool) → List A → Option A
  find_row p [] = none
  find_row p (x ∷ xs) = if p x then some x else find_row p xs

  -- What `UPDATE ... SET f WHERE p` does to one row.
  abbrev pub modify : (A → Bool) → (A → A) → A → A
  modify p f x = if p x then f x else x

  -- `UPDATE ... SET f WHERE p`.
  unfoldable pub update_rows : (A → Bool) → (A → A) → List A → List A
  update_rows p f xs = map (modify p f) xs

  -- The rows that an `UPDATE` changed: `RowsAffected() != 0`.
  unfoldable pub any_row : (A → Bool) → List A → Bool
  any_row p [] = Bool.false
  any_row p (x ∷ xs) = if p x then Bool.true else any_row p xs
