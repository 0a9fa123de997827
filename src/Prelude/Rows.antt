-- ===== src/Prelude/Rows.antt =====
-- Lemmas on the table statements: which rows a changed table holds, and how a count moves.
use Prim.Native.Nat.{ℕ, ◌+◌}
use mathlib.Core.Path.{◌≡◌, refl, sym}
use mathlib.Core.Logic.{◌⊎◌, inl, inr}
use mathlib.Core.Bool.{Bool, true, false, ◌&&◌}
use mathlib.Core.Option
use mathlib.Core.Option.{none, some}
use mathlib.Core.List.{List, [], ◌∷◌, ◌++◌}
use native.Mathlib.Omega.{arith}
use rover_tools_orange_copy.Prelude.Tests.{if◌then◌else◌, Bool-cases}
use rover_tools_orange_copy.Prelude.Lists.{In}
use rover_tools_orange_copy.Prelude.Table.{
  update_where, rows_where, first_where, any_where, count_where, update_first, delete_where,
}

-- 1 for a test that holds.
abbrev pub bit : Bool → ℕ
bit b = if b then 1 else 0

module _ {A : Type 0} (p : A → Bool) where
  pub first_where-In : (xs : List A) (x : A) → first_where p xs ≡ some x → In x xs × (p x ≡ true)
  first_where-In [] x e = cc
  first_where-In (y ∷ xs) x e = elim (Bool-cases (p y)) [
    | inl h ↦ (inl (ground arith), ground arith)
    | inr h ↦ let rest = first_where-In xs x (ground arith) in (inr rest.0, rest.1)
  ]

  pub any_where-In : (xs : List A) (x : A) → In x xs → any_where p xs ≡ false → p x ≡ false
  any_where-In [] x m e = elim m [ ]
  any_where-In (y ∷ xs) x (inl same) e = ground arith
  any_where-In (y ∷ xs) x (inr m) e = any_where-In xs x m (ground arith)

  pub first_where-none : (xs : List A) → first_where p xs ≡ none → count_where p xs ≡ 0
  first_where-none [] e = refl
  first_where-none (x ∷ xs) e = ground (arith, first_where-none xs)

  pub first_where-update_first :
      (f : A → A) (xs : List A) (x : A)
      → first_where p xs ≡ some x
      → p (f x) ≡ true
      → first_where p (update_first p f xs) ≡ some (f x)
  first_where-update_first f [] x e h = cc
  first_where-update_first f (y ∷ xs) x e h = ground (arith, first_where-update_first f xs x)

  -- The first row of another test stays when the changed row never meets it.
  pub first_where-update_other :
      (q : A → Bool) (f : A → A) (xs : List A)
      → ((x : A) → p x ≡ true → (q x ≡ false) × (q (f x) ≡ false))
      → first_where q (update_first p f xs) ≡ first_where q xs
  first_where-update_other q f [] h = refl
  first_where-update_other q f (x ∷ xs) h = ground (arith, h x, first_where-update_other q f xs h)

  changed_here :
      (f : A → A) (x : A) (xs : List A) (y : A)
      → p x ≡ true
      → (f x ≡ y) ⊎ In y xs
      → In y (x ∷ xs) ⊎ ((z : A) × (first_where p (x ∷ xs) ≡ some z) × (y ≡ f z))
  changed_here f x xs y e (inl s) = inr (x, rw e, sym s)
  changed_here f x xs y e (inr m) = inl (inr m)

  changed_later :
      (f : A → A) (x : A) (xs : List A) (y : A)
      → p x ≡ false
      → (In y (update_first p f xs) → In y xs ⊎ ((z : A) × (first_where p xs ≡ some z) × (y ≡ f z)))
      → (x ≡ y) ⊎ In y (update_first p f xs)
      → In y (x ∷ xs) ⊎ ((z : A) × (first_where p (x ∷ xs) ≡ some z) × (y ≡ f z))
  changed_later f x xs y e ih (inl s) = inl (inl s)
  changed_later f x xs y e ih (inr m) = elim (ih m) [
    | inl old ↦ inl (inr old)
    | inr (z, found, s) ↦ inr (z, rw e found, s)
  ]

  pub In-update_first :
      (f : A → A) (xs : List A) (y : A)
      → In y (update_first p f xs)
      → In y xs ⊎ ((x : A) × (first_where p xs ≡ some x) × (y ≡ f x))
  In-update_first f [] y m = elim m [ ]
  In-update_first f (x ∷ xs) y m = elim (Bool-cases (p x)) [
    | inl e ↦ changed_here f x xs y e (rw e at m)
    | inr e ↦ changed_later f x xs y e (In-update_first f xs y) (rw e at m)
  ]

  pub count-update_first :
      (q : A → Bool) (f : A → A) (xs : List A) (x : A)
      → first_where p xs ≡ some x
      → count_where q (update_first p f xs) + bit (q x) ≡ count_where q xs + bit (q (f x))
  count-update_first q f [] x e = cc
  count-update_first q f (y ∷ xs) x e = ground (arith, count-update_first q f xs x)

  -- Rows that the other test singles out are not touched.
  pub rows-update_first :
      (q : A → Bool) (f : A → A) (xs : List A)
      → ((x : A) → p x ≡ true → (q x ≡ false) × (q (f x) ≡ false))
      → rows_where q (update_first p f xs) ≡ rows_where q xs
  rows-update_first q f [] h = refl
  rows-update_first q f (x ∷ xs) h = ground (arith, h x, rows-update_first q f xs h)

  pub count-none : (xs : List A) → ((x : A) → In x xs → p x ≡ false) → count_where p xs ≡ 0
  count-none [] h = refl
  count-none (x ∷ xs) h = ground (arith, h x (inl refl), count-none xs (λ a m. h a (inr m)))

  pub count-rows_where :
      (q : A → Bool) (xs : List A)
      → count_where p (rows_where q xs) ≡ count_where (λ x. q x && p x) xs
  count-rows_where q [] = refl
  count-rows_where q (x ∷ xs) = ground (arith, count-rows_where q xs)

  pub count-append :
      (xs ys : List A) → count_where p (xs ++ ys) ≡ count_where p xs + count_where p ys
  count-append [] ys = omega arith
  count-append (x ∷ xs) ys = omega (arith, count-append xs ys)

  pub In-rows_where : (x : A) (xs : List A) → In x (rows_where p xs) → In x xs × (p x ≡ true)
  In-rows_where x [] m = elim m [ ]
  In-rows_where x (y ∷ xs) m = elim (Bool-cases (p y)) [
    | inl e ↦ kept x y xs e (In-rows_where x xs) (rw e at m)
    | inr e ↦ let rest = In-rows_where x xs (rw e at m) in (inr rest.0, rest.1)
  ]
    where
      kept :
          (x y : A) (xs : List A)
          → p y ≡ true
          → (In x (rows_where p xs) → In x xs × (p x ≡ true))
          → (y ≡ x) ⊎ In x (rows_where p xs)
          → In x (y ∷ xs) × (p x ≡ true)
      kept x y xs e ih (inl s) = (inl s, rw (← s) e)
      kept x y xs e ih (inr m) = (inr (ih m).0, (ih m).1)

  pub rows_where-In : (x : A) (xs : List A) → In x xs → p x ≡ true → In x (rows_where p xs)
  rows_where-In x [] m h = elim m [ ]
  rows_where-In x (y ∷ xs) (inl s) h = rw (s, h) (inl refl)
  rows_where-In x (y ∷ xs) (inr m) h = elim (Bool-cases (p y)) [
    | inl e ↦ rw e (inr (rows_where-In x xs m h))
    | inr e ↦ rw e (rows_where-In x xs m h)
  ]

-- Two tests that agree on the rows of a table count the same.
pub count-congr :
    {A : Type 0} (p q : A → Bool) (xs : List A)
    → ((x : A) → In x xs → p x ≡ q x)
    → count_where p xs ≡ count_where q xs
count-congr p q [] h = refl
count-congr p q (x ∷ xs) h = ground (arith, h x (inl refl), count-congr p q xs (λ a m. h a (inr m)))

module _ {A : Type 0} where
  pub In-append_left : (a : A) (xs ys : List A) → In a xs → In a (xs ++ ys)
  In-append_left a [] ys m = elim m [ ]
  In-append_left a (x ∷ xs) ys (inl e) = inl e
  In-append_left a (x ∷ xs) ys (inr m) = inr (In-append_left a xs ys m)

  pub In-append_right : (a : A) (xs ys : List A) → In a ys → In a (xs ++ ys)
  In-append_right a [] ys m = m
  In-append_right a (x ∷ xs) ys m = inr (In-append_right a xs ys m)

pub first_where-any :
    {A : Type 0} (p : A → Bool) (xs : List A)
    → any_where p xs ≡ true
    → (x : A) × (first_where p xs ≡ some x)
first_where-any p [] h = cc
first_where-any p (x ∷ xs) h = elim (Bool-cases (p x)) [
  | inl e ↦ (x, rw e)
  | inr e ↦ let (y, q) = first_where-any p xs (ground arith) in (y, rw e q)
]

pub any_where-none :
    {A : Type 0} (p : A → Bool) (xs : List A) → any_where p xs ≡ false → first_where p xs ≡ none
any_where-none p [] h = refl
any_where-none p (x ∷ xs) h = ground (arith, h, any_where-none p xs)

pub first-update_where :
    {A : Type 0} (p q : A → Bool) (f : A → A) (xs : List A)
    → ((x : A) → q (f x) ≡ q x)
    → first_where q (update_where p f xs)
      ≡ Option.map (λ x. if p x then f x else x) (first_where q xs)
first-update_where p q f [] h = refl
first-update_where p q f (x ∷ xs) h = ground (arith, h x, first-update_where p q f xs h)

pub In-any_where :
    {A : Type 0} (p : A → Bool) (x : A) (xs : List A) → In x xs → p x ≡ true → any_where p xs ≡ true
In-any_where p x xs i h = elim (Bool-cases (any_where p xs)) [
  | inl e ↦ e
  | inr e ↦ cc (any_where-In p xs x i e)
]

pub any-rows_where :
    {A : Type 0} (p q : A → Bool) (xs : List A)
    → any_where q (rows_where p xs) ≡ any_where (λ x. p x && q x) xs
any-rows_where p q [] = refl
any-rows_where p q (x ∷ xs) = ground (arith, any-rows_where p q xs)

pub first-delete_where_same :
    {A : Type 0} (p q : A → Bool) (xs : List A)
    → ((x : A) → q x ≡ true → p x ≡ true)
    → first_where q (delete_where p xs) ≡ none
first-delete_where_same p q [] h = refl
first-delete_where_same p q (x ∷ xs) h = ground (arith, h x, first-delete_where_same p q xs h)

pub first-delete_where_other :
    {A : Type 0} (p q : A → Bool) (xs : List A)
    → ((x : A) → q x ≡ true → p x ≡ false)
    → first_where q (delete_where p xs) ≡ first_where q xs
first-delete_where_other p q [] h = refl
first-delete_where_other p q (x ∷ xs) h = ground (arith, h x, first-delete_where_other p q xs h)

pub any-delete_where :
    {A : Type 0} (p : A → Bool) (xs : List A) → any_where p (delete_where p xs) ≡ false
any-delete_where p [] = refl
any-delete_where p (x ∷ xs) = ground (arith, any-delete_where p xs)
