-- ===== src/Sync/Recorded.antt =====
-- What `record_space_removals` leaves behind: the record of each space that it was called for,
-- and the old records of all else.
use rover_tools_orange_copy.Store.{same_type, EntryType, SpaceEntryRemoval}
use rover_tools_orange_copy.Prelude.{
  first_where-any, ok-injective, ◌∙◌, ==_iff, if-cases, elem, ok, subst, [], first_where-In, refl,
  arith, first_where-update_first, inr, ◌==◌, inl, some, suc, update_first, Bool-cases, any_where,
  false, first_where, true, ◌∷◌, List, ◌≡◌, Bool, ℕ,
}
use rover_tools_orange_copy.Sync.Removals.{
  has_duplicates, is_removal, upsert_removal, upsert_removals, record_space_removals,
}

-- The table holds a removal of the entry from the space, made by these people at this time.
abbrev pub IsRecorded : SpaceEntryRemoval → ℕ → List SpaceEntryRemoval → Type 0
IsRecorded new s rows =
    (rec : SpaceEntryRemoval) × (first_where (is_removal s new.client_id new.entry_type) rows
      ≡ some rec)
    × (rec.author_id ≡ new.author_id)
    × (rec.removed_by ≡ new.removed_by)
    × (rec.server_ts ≡ new.server_ts)

pub same_type-eq : (a b : EntryType) → same_type a b ≡ true → a ≡ b
same_type-eq EntryType.clipboard EntryType.clipboard h = refl
same_type-eq EntryType.clipboard EntryType.note h = cc
same_type-eq EntryType.note EntryType.clipboard h = cc
same_type-eq EntryType.note EntryType.note h = refl

pub same_type_refl : (a : EntryType) → same_type a a ≡ true
same_type_refl EntryType.clipboard = refl
same_type_refl EntryType.note = refl

upsert-IsRecorded :
    (new : SpaceEntryRemoval) (rows : List SpaceEntryRemoval)
    → IsRecorded new new.space_id (upsert_removal new rows)
unfolding upsert_removal
upsert-IsRecorded new rows = elim (Bool-cases (any_where key rows)) [
  | inl e ↦
      let (x, found) = first_where-any key rows e in
      rw e (
        change x,
        first_where-update_first key change rows x found (first_where-In key rows x found).1,
        refl,
        refl,
        refl,
      )
  | inr e ↦ rw e (new, ground (arith, same_type_refl new.entry_type), refl, refl, refl)
]
  where
    key : SpaceEntryRemoval → Bool
    key = is_removal new.space_id new.client_id new.entry_type

    change : SpaceEntryRemoval → SpaceEntryRemoval
    change r = record r {
      author_id = new.author_id;
      removed_by = new.removed_by;
      server_ts = new.server_ts;
    }

first-update_other :
    {A : Type 0} (q p : A → Bool) (f : A → A) (xs : List A)
    → ((x : A) → p x ≡ true → (q x ≡ false) × (q (f x) ≡ false))
    → first_where q (update_first p f xs) ≡ first_where q xs
first-update_other q p f [] h = refl
first-update_other q p f (x ∷ xs) h = ground (arith, h x, first-update_other q p f xs h)

-- Another key's record is not touched.
upsert-others :
    (new : SpaceEntryRemoval) (rows : List SpaceEntryRemoval) (s c : ℕ) (t : EntryType)
    → is_removal s c t new ≡ false
    → first_where (is_removal s c t) (upsert_removal new rows) ≡ first_where (is_removal s c t) rows
unfolding upsert_removal
upsert-others new rows s c t h =
    elim (Bool-cases (any_where (is_removal new.space_id new.client_id new.entry_type) rows)) [
      | inl e ↦ rw e (first-update_other _ _ _ rows λ x key. ground arith)
      | inr e ↦ rw (e, h) refl
    ]

module _ (new : SpaceEntryRemoval) (ids : ℕ → ℕ) where
  later-IsRecorded :
      (ss : List ℕ) (i s : ℕ) (rows : List SpaceEntryRemoval)
      → IsRecorded new s rows
      → IsRecorded new s (upsert_removals new ids ss i rows)
  unfolding upsert_removals
  later-IsRecorded [] i s rows h = h
  later-IsRecorded (x ∷ ss) i s rows h =
      later-IsRecorded ss (suc i) s (upsert_removal put rows) (elim (Bool-cases (x == s)) [
        | inl e ↦
            subst (λ z. IsRecorded new z (upsert_removal put rows)) ((==_iff x s).0 e)
              (upsert-IsRecorded put rows)
        | inr e ↦ (
          h.0,
          upsert-others put rows s new.client_id new.entry_type (ground arith) ∙ h.1,
          h.2,
          h.3,
          h.4,
        )
      ])
    where
      put : SpaceEntryRemoval
      put = record new { id = ids i; space_id = x }

  each-IsRecorded :
      (ss : List ℕ) (i s : ℕ) (rows : List SpaceEntryRemoval)
      → elem s ss ≡ true
      → IsRecorded new s (upsert_removals new ids ss i rows)
  unfolding upsert_removals
  each-IsRecorded [] i s rows h = cc
  each-IsRecorded (x ∷ ss) i s rows h = elim (Bool-cases (x == s)) [
    | inl e ↦ later-IsRecorded ss (suc i) s _ (
        subst (λ z. IsRecorded new z (upsert_removal put rows)) ((==_iff x s).0 e)
          (upsert-IsRecorded put rows))
    | inr e ↦ each-IsRecorded ss (suc i) s _ (ground arith)
  ]
    where
      put : SpaceEntryRemoval
      put = record new { id = ids i; space_id = x }

  -- Every space of an accepted call has its record.
  pub record-IsRecorded :
      (ss : List ℕ) (s : ℕ) (rows rows' : List SpaceEntryRemoval)
      → record_space_removals new ids ss rows ≡ ok rows'
      → elem s ss ≡ true
      → IsRecorded new s rows'
  unfolding record_space_removals
  record-IsRecorded ss s rows rows' h m = elim (if-cases (has_duplicates ss) _ _ h) [
    | inl (_, k) ↦ cc
    | inr (_, k) ↦ subst (IsRecorded new s) (ok-injective k) (each-IsRecorded ss 0 s rows m)
  ]
