-- ===== src/Api/Table.antt =====
-- A table of SQLite with an `INTEGER PRIMARY KEY`, as the list of its rows by their keys: the statements
-- that the routers run on it.
pub mod Laws
use xianyu_manager.Prelude.{
  ℕ, suc, max, Bool, true, false, not, Option, none, some, List, [], ◌∷◌, if◌then◌else◌, ◌==ℕ◌,
}

module _ {ℓ} {A : Type ℓ} (key : A → ℕ) where
  -- `SELECT * FROM table WHERE id = ? LIMIT 1`
  unfoldable pub find : ℕ → List A → Option A
  find n [] = none
  find n (x ∷ xs) = if key x ==ℕ n then some x else find n xs

  -- The largest key, and 0 without one.
  unfoldable pub top : List A → ℕ
  top [] = 0
  top (x ∷ xs) = max (key x) (top xs)

  -- The key that `INSERT` gives.
  abbrev pub next_id : List A → ℕ
  next_id xs = suc (top xs)

  -- `UPDATE table SET ... WHERE id = ?`
  unfoldable pub update : ℕ → (A → A) → List A → List A
  update n f [] = []
  update n f (x ∷ xs) = (if key x ==ℕ n then f x else x) ∷ update n f xs

  -- `DELETE FROM table WHERE key = ?`
  unfoldable pub delete : ℕ → List A → List A
  delete n [] = []
  delete n (x ∷ xs) = let rest = delete n xs in if key x ==ℕ n then rest else x ∷ rest
