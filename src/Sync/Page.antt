-- ===== src/Sync/Page.antt =====
-- `_page` of src/sync/service.py: one page of a query, and the cursor to resume from. The model is
-- generic in the rows, as the source is, over their `server_ts` and `id`.
pub mod Sorted
pub mod Complete
use rover_tools_orange_copy.Prelude.{
  rows_where, get_elem?, not, none, some, length, suc, ◌&&◌, [], if◌then◌else◌, last?, take, ◌==◌,
  Option, ◌||◌, ◌∷◌, List, leb, ltb, Bool, ℕ,
}

module _ {A : Type 0} where
  unfoldable pub insert_by : (A → A → Bool) → A → List A → List A
  insert_by le x [] = x ∷ []
  insert_by le x (y ∷ ys) = let rest = insert_by le x ys in if le x y then x ∷ y ∷ ys else y ∷ rest

  -- `ORDER BY`
  unfoldable pub sort_by : (A → A → Bool) → List A → List A
  unfolding insert_by
  sort_by le [] = []
  sort_by le (x ∷ xs) = insert_by le x (sort_by le xs)

module _ {A : Type 0} (ts id : A → ℕ) where
  -- `server_ts ASC, id ASC`
  abbrev pub by_time : A → A → Bool
  by_time x y = ltb (ts x) (ts y) || (ts x == ts y && leb (id x) (id y))

  abbrev pub by_id : A → A → Bool
  by_id x y = leb (id x) (id y)

  -- A page that ends before the boundary's run of equal times, or else that whole run. `none` is
  -- the IndexError of `page[-1]`.
  unfoldable pub cut : List A → ℕ → List A → Option (List A × Option ℕ)
  cut q boundary first = elim (last? first) [
    | none ↦ none
    | some l ↦
        if not (ts l == boundary)
        then some (first, some (ts l))
        else elim (last? (rows_where (λ r. ltb (ts r) boundary) first)) [
          | some m ↦ some (rows_where (λ r. ltb (ts r) boundary) first, some (ts m))
          | none ↦ some (sort_by by_id (rows_where (λ r. ts r == boundary) q), some boundary)
        ]
  ]

  -- `_page`
  unfoldable pub page : ℕ → List A → Option (List A × Option ℕ)
  unfolding cut sort_by
  page limit q =
      let rows = take (suc limit) (sort_by by_time q) in
      if leb (length rows) limit
      then some (rows, none)
      else elim (get_elem? rows limit) [ none ↦ none | some b ↦ cut q (ts b) (take limit rows) ]
