-- ===== src/Prelude/Table.antt =====
-- Tables as lists of rows, and the statements that the services run on them. A row that a query
-- found is updated in place through the query's own condition.
use Prim.Native.Nat.{ℕ, ◌+◌}
use mathlib.Core.Bool.{Bool, true, false, ◌&&◌, ◌||◌}
use mathlib.Core.Option.{Option, none, some}
use mathlib.Core.List.{List, [], ◌∷◌}
use rover_tools_orange_copy.Prelude.Tests.{if◌then◌else◌}

module _ {ℓ} {A : Type ℓ} (p : A → Bool) where
  -- `SELECT ... WHERE p`
  abbrev pub rows_where : List A → List A
  rows_where [] = []
  rows_where (x ∷ xs) = let rest = rows_where xs in if p x then x ∷ rest else rest

  -- `db.scalar(select ... where p)`
  abbrev pub first_where : List A → Option A
  first_where [] = none
  first_where (x ∷ xs) = if p x then some x else first_where xs

  abbrev pub any_where : List A → Bool
  any_where [] = false
  any_where (x ∷ xs) = p x || any_where xs

  abbrev pub all_where : List A → Bool
  all_where [] = true
  all_where (x ∷ xs) = p x && all_where xs

  -- `SELECT count(*) WHERE p`
  abbrev pub count_where : List A → ℕ
  count_where [] = 0
  count_where (x ∷ xs) = (if p x then 1 else 0) + count_where xs

  -- `SELECT coalesce(sum(f), 0) WHERE p`
  abbrev pub sum_where : (A → ℕ) → List A → ℕ
  sum_where f [] = 0
  sum_where f (x ∷ xs) = (if p x then f x else 0) + sum_where f xs

  -- Every row that satisfies `p` is changed.
  abbrev pub update_where : (A → A) → List A → List A
  update_where f [] = []
  update_where f (x ∷ xs) = (if p x then f x else x) ∷ update_where f xs

  -- The row that `first_where` finds is changed.
  abbrev pub update_first : (A → A) → List A → List A
  update_first f [] = []
  update_first f (x ∷ xs) = let rest = update_first f xs in if p x then f x ∷ xs else x ∷ rest

  -- `DELETE ... WHERE p`
  abbrev pub delete_where : List A → List A
  delete_where [] = []
  delete_where (x ∷ xs) = let rest = delete_where xs in if p x then rest else x ∷ rest
