-- ===== src/Blobs/Sums.antt =====
-- What a change of one row does to the bytes that an account is charged for.
use rover_tools_orange_copy.Prelude.{
  inr, ◌==◌, if◌then◌else◌, inl, ◌+◌, Bool-cases, update_first, update_where, arith, delete_where,
  ◌≤◌, sum_where, List, first_where, ◌≡◌, Bool, ℕ, some, true, false, [], ◌∷◌,
}
use rover_tools_orange_copy.Store.{Blob}
use rover_tools_orange_copy.Blobs.{set_confirmed, blob_size, is_charged}

pub sum-delete_where :
    {A : Type 0} (p q : A → Bool) (f : A → ℕ) (xs : List A)
    → sum_where p f (delete_where q xs) ≤ sum_where p f xs
sum-delete_where p q f [] = omega arith
sum-delete_where p q f (x ∷ xs) = ground (arith, sum-delete_where p q f xs)

module _ (uid : ℕ) where
  pub sum-unconfirm_where :
      (q : Blob → Bool) (xs : List Blob)
      → sum_where (is_charged uid) blob_size (update_where q (set_confirmed false) xs)
        ≤ sum_where (is_charged uid) blob_size xs
  sum-unconfirm_where q [] = omega arith
  sum-unconfirm_where q (x ∷ xs) = ground (arith, sum-unconfirm_where q xs)

  pub sum-unconfirm_first :
      (q : Blob → Bool) (xs : List Blob)
      → sum_where (is_charged uid) blob_size (update_first q (set_confirmed false) xs)
        ≤ sum_where (is_charged uid) blob_size xs
  sum-unconfirm_first q [] = omega arith
  sum-unconfirm_first q (x ∷ xs) = ground (arith, sum-unconfirm_first q xs)

  pub sum-confirm :
      (q : Blob → Bool) (xs : List Blob) (b : Blob)
      → first_where q xs ≡ some b
      → sum_where (is_charged uid) blob_size (update_first q (set_confirmed true) xs)
        ≤ sum_where (is_charged uid) blob_size xs + (if b.user_id == uid then b.size_bytes else 0)
  sum-confirm q [] b e = cc
  sum-confirm q (x ∷ xs) b e = elim (Bool-cases (q x)) [
    | inl h ↦ ground (arith, h, e)
    | inr h ↦ ground (arith, h, e, sum-confirm q xs b)
  ]
