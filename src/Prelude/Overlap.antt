-- ===== src/Prelude/Overlap.antt =====
-- Whether two lists of ids meet, as `ARRAY.overlap` tests it, and what an update adds to it.
use Prim.Native.Nat.{ℕ}
use mathlib.Core.Path.{◌≡◌, sym, ◌∙◌}
use mathlib.Core.Logic.{inl, inr}
use mathlib.Core.Bool.{Bool, true, false, not, false≢true}
use mathlib.Core.List.{List, [], ◌∷◌}
use native.Mathlib.Omega.{arith}
use rover_tools_orange_copy.Prelude.Tests.{Bool-cases, ◌==◌}
use rover_tools_orange_copy.Prelude.Lists.{elem}
use rover_tools_orange_copy.Prelude.Table.{any_where, rows_where}

-- `ARRAY.overlap`
abbrev pub overlap : List ℕ → List ℕ → Bool
overlap xs ys = any_where (λ x. elem x ys) xs

pub elem-overlap :
    (x : ℕ) (xs ys : List ℕ) → elem x xs ≡ true → elem x ys ≡ true → overlap xs ys ≡ true
elem-overlap x [] ys p q = cc
elem-overlap x (y ∷ xs) ys p q = elim (Bool-cases (y == x)) [
  | inl same ↦ ground arith
  | inr other ↦ ground (arith, elem-overlap x xs ys)
]

pub overlap_witness :
    (xs ys : List ℕ) → overlap xs ys ≡ true → (x : ℕ) × (elem x xs ≡ true) × (elem x ys ≡ true)
overlap_witness [] ys h = cc
overlap_witness (x ∷ xs) ys h = elim (Bool-cases (elem x ys)) [
  | inl e ↦ (x, ground arith, e)
  | inr e ↦ let (y, p, q) = overlap_witness xs ys (ground arith) in (y, ground arith, q)
]

pub overlap_comm : (xs ys : List ℕ) → overlap xs ys ≡ overlap ys xs
overlap_comm xs ys = elim (Bool-cases (overlap xs ys)) [
  | inl e ↦ let (x, p, q) = overlap_witness xs ys e in e ∙ sym (elem-overlap x ys xs q p)
  | inr e ↦ elim (Bool-cases (overlap ys xs)) [
    | inl f ↦
        let (x, p, q) = overlap_witness ys xs f in
        absurd (false≢true (sym e ∙ elem-overlap x xs ys q p))
    | inr f ↦ e ∙ sym f
  ]
]

pub elem-added :
    (x : ℕ) (already new : List ℕ)
    → elem x new ≡ true
    → elem x already ≡ false
    → elem x (rows_where (λ s. not (elem s already)) new) ≡ true
elem-added x already [] h n = cc
elem-added x already (y ∷ new) h n = elim (Bool-cases (y == x)) [
  | inl same ↦ ground (arith, elem-added x already new)
  | inr other ↦ ground (arith, elem-added x already new)
]

-- The spaces of an update are the row's own and those that it adds.
pub overlap-update :
    (xs already new : List ℕ)
    → overlap xs already ≡ false
    → overlap xs (rows_where (λ s. not (elem s already)) new) ≡ false
    → overlap xs new ≡ false
overlap-update xs already new p q = elim (Bool-cases (overlap xs new)) [
  | inl e ↦
      let (x, a, b) = overlap_witness xs new e in
      elim (Bool-cases (elem x already)) [
        | inl c ↦ absurd (false≢true (sym p ∙ elem-overlap x xs already a c))
        | inr c ↦ absurd (false≢true (sym q ∙ elem-overlap x xs _ a (elem-added x already new b c)))
      ]
  | inr e ↦ e
]
