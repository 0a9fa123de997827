-- ===== src/Sync/Page/Sorted.antt =====
-- Sorting keeps the rows and puts them in order of time.
use rover_tools_orange_copy.Prelude.{
  In-append_right, In-append_left, false, refl, ◌+◌, In-rows_where, arith, bit, inr, some, true,
  ◌⊎◌, Bool-cases, [], inl, ◌≡◌, ◌≤◌, In, count_where, last?, rows_where, ◌++◌, ◌∷◌, List, Bool, ℕ,
}
use rover_tools_orange_copy.Sync.Page.{by_time, insert_by, sort_by}

module _ {A : Type 0} where
  count-insert_by :
      (le : A → A → Bool) (p : A → Bool) (x : A) (ys : List A)
      → count_where p (insert_by le x ys) ≡ bit (p x) + count_where p ys
  unfolding insert_by
  count-insert_by le p x [] = refl
  count-insert_by le p x (y ∷ ys) = ground (arith, count-insert_by le p x ys)

  pub count-sort_by :
      (le : A → A → Bool) (p : A → Bool) (xs : List A)
      → count_where p (sort_by le xs) ≡ count_where p xs
  unfolding sort_by
  count-sort_by le p [] = refl
  count-sort_by le p (x ∷ xs) =
      omega (arith, count-insert_by le p x (sort_by le xs), count-sort_by le p xs)

  In-insert_by :
      (le : A → A → Bool) (x a : A) (ys : List A) → In a (insert_by le x ys) → (x ≡ a) ⊎ In a ys
  unfolding insert_by
  In-insert_by le x a [] (inl e) = inl e
  In-insert_by le x a [] (inr m) = elim m [ ]
  In-insert_by le x a (y ∷ ys) m = elim (Bool-cases (le x y)) [
    | inl e ↦ (rw e at m)
    | inr e ↦ elim (split (rw e at m)) [
      | inl s ↦ inr (inl s)
      | inr n ↦ elim (In-insert_by le x a ys n) [ inl s ↦ inl s | inr k ↦ inr (inr k) ]
    ]
  ]
    where
      split : (y ≡ a) ⊎ In a (insert_by le x ys) → (y ≡ a) ⊎ In a (insert_by le x ys)
      split h = h

  pub In-sort_by : (le : A → A → Bool) (a : A) (xs : List A) → In a (sort_by le xs) → In a xs
  unfolding sort_by
  In-sort_by le a [] m = elim m [ ]
  In-sort_by le a (x ∷ xs) m = elim (In-insert_by le x a (sort_by le xs) m) [
    | inl e ↦ inl e
    | inr n ↦ inr (In-sort_by le a xs n)
  ]

module _ {A : Type 0} (ts id : A → ℕ) where
  -- Times do not fall along the list.
  abbrev pub IsSorted : List A → Type 0
  IsSorted [] = Unit
  IsSorted (x ∷ xs) = ((y : A) → In y xs → ts x ≤ ts y) × IsSorted xs

  insert-IsSorted : (x : A) (ys : List A) → IsSorted ys → IsSorted (insert_by (by_time ts id) x ys)
  unfolding insert_by
  insert-IsSorted x [] s = ((λ y m. elim m [ ]), tt)
  insert-IsSorted x (y ∷ ys) s = elim (Bool-cases (by_time ts id x y)) [
    | inl e ↦ rw e ((λ z m. below z e m), s)
    | inr e ↦
        rw e ((λ z m. above z e (In-insert_by (by_time ts id) x z ys m)), insert-IsSorted x ys s.1)
  ]
    where
      below : (z : A) → by_time ts id x y ≡ true → In z (y ∷ ys) → ts x ≤ ts z
      below z e (inl q) = rw (← q) (ground arith)
      below z e (inr m) = ground (arith, s.0 z m)

      above : (z : A) → by_time ts id x y ≡ false → (x ≡ z) ⊎ In z ys → ts y ≤ ts z
      above z e (inl q) = rw (← q) (ground arith)
      above z e (inr m) = s.0 z m

  pub sort-IsSorted : (xs : List A) → IsSorted (sort_by (by_time ts id) xs)
  unfolding sort_by
  sort-IsSorted [] = tt
  sort-IsSorted (x ∷ xs) = insert-IsSorted x (sort_by (by_time ts id) xs) (sort-IsSorted xs)

  pub rows-IsSorted : (p : A → Bool) (xs : List A) → IsSorted xs → IsSorted (rows_where p xs)
  rows-IsSorted p [] s = tt
  rows-IsSorted p (x ∷ xs) s = elim (Bool-cases (p x)) [
    | inl e ↦ rw e ((λ y m. s.0 y (In-rows_where p y xs m).0), rows-IsSorted p xs s.1)
    | inr e ↦ rw e (rows-IsSorted p xs s.1)
  ]

  -- The parts of a sorted list, around a row of it.
  pub append-IsSorted :
      (xs : List A) (b : A) (ys : List A)
      → IsSorted (xs ++ b ∷ ys)
      → IsSorted xs × ((r : A) → In r xs → ts r ≤ ts b) × ((r : A) → In r (b ∷ ys) → ts b ≤ ts r)
  append-IsSorted [] b ys s =
      (tt, (λ r m. elim m [ ]), λ r m. elim m [ inl e ↦ rw e (omega arith) | inr n ↦ s.0 r n ])
  append-IsSorted (x ∷ xs) b ys s =
      let (sorted, low, high) = append-IsSorted xs b ys s.1 in
      (
        ((λ y m. s.0 y (In-append_left y xs (b ∷ ys) m)), sorted),
        (λ r m. elim m [
          | inl e ↦ rw (← e) (s.0 b (In-append_right b xs (b ∷ ys) (inl refl)))
          | inr n ↦ low r n
        ]),
        high,
      )

  pub last?-IsSorted :
      (xs : List A) (l : A)
      → IsSorted xs
      → last? xs ≡ some l
      → In l xs × ((r : A) → In r xs → ts r ≤ ts l)
  last?-IsSorted [] l s e = cc
  last?-IsSorted (x ∷ []) l s e =
      let same : x ≡ l = cc e in
      (inl same, λ r m. elim m [ inl q ↦ rw (← q, same) (omega arith) | inr n ↦ elim n [ ] ])
  last?-IsSorted (x ∷ y ∷ xs) l s e =
      let (m, top) = last?-IsSorted (y ∷ xs) l s.1 e in
      (inr m, λ r n. elim n [ inl q ↦ rw (← q) (s.0 l m) | inr k ↦ top r k ])
