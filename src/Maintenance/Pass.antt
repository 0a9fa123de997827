-- ===== src/Maintenance/Pass.antt =====
-- What an hourly pass keeps, and what it clears.
use rover_tools_orange_copy.Blobs.{set_confirmed, is_reference, Storage}
use rover_tools_orange_copy.Prelude.{
  not, ◌≤◌, ◌&&◌, arith, Bool-cases, refl, inr, sym, if◌then◌else◌, ◌∙◌, ap, subst, inl, any_where,
  delete_where, update_where, ◌≡◌, In, List, Bool, ℕ, true, false, [], ◌∷◌,
}
use rover_tools_orange_copy.Store.{SpaceEntryRemoval, Blob, Db}
use rover_tools_orange_copy.Maintenance.{
  unreferenced_grace_ms, is_orphan, is_unreferenced, unless, removal_retention_ms, is_older, Faults,
  prune_space_entry_removals, cleanup_orphan_blobs, release_unreferenced_blobs, hourly_pass,
}

-- The blob is confirmed and a live entry points at it.
abbrev pub IsInUse : Blob → Db → Type 0
IsInUse b db =
    In b db.blobs × (b.confirmed ≡ true) × (any_where (is_reference b.key) db.entries ≡ true)

In-update_where_skip :
    {A : Type 0} (p : A → Bool) (f : A → A) (x : A) (xs : List A)
    → In x xs
    → p x ≡ false
    → In x (update_where p f xs)
In-update_where_skip p f x [] i h = elim i [ ]
In-update_where_skip p f x (y ∷ xs) (inl same) h =
    inl (subst (λ z. (if p z then f z else z) ≡ x) (sym same) (rw h refl))
In-update_where_skip p f x (y ∷ xs) (inr i) h = inr (In-update_where_skip p f x xs i h)

In-delete_where_skip :
    {A : Type 0} (p : A → Bool) (x : A) (xs : List A)
    → In x xs
    → p x ≡ false
    → In x (delete_where p xs)
In-delete_where_skip p x [] i h = elim i [ ]
In-delete_where_skip p x (y ∷ xs) (inl same) h = rw (ap p same ∙ h) (inl same)
In-delete_where_skip p x (y ∷ xs) (inr i) h = elim (Bool-cases (p y)) [
  | inl e ↦ rw e (In-delete_where_skip p x xs i h)
  | inr e ↦ rw e (inr (In-delete_where_skip p x xs i h))
]

-- Whatever jobs fail and whatever the store does, an hourly pass leaves every confirmed blob that a
-- live entry points at, every removal record of the last 90 days and every entry as they were.
pub hourly_pass_keeps :
    (store : Storage) (faults : Faults) (now1 now2 now3 : ℕ) (db : Db) (b : Blob)
    (r : SpaceEntryRemoval)
    → IsInUse b db
    → In r db.removals
    → is_older removal_retention_ms now3 r.server_ts ≡ false
    → IsInUse b (hourly_pass store faults now1 now2 now3 db)
      × In r (hourly_pass store faults now1 now2 now3 db).removals
      × ((hourly_pass store faults now1 now2 now3 db).entries ≡ db.entries)
unfolding hourly_pass release_unreferenced_blobs cleanup_orphan_blobs prune_space_entry_removals
hourly_pass_keeps store faults now1 now2 now3 db b r use_b i young =
    pruned faults.prune _ (cleaned faults.cleanup _ (swept faults.release))
  where
    Kept : Db → Type 0
    Kept d = IsInUse b d × In r d.removals × (d.entries ≡ db.entries)

    swept : (raises : Bool) → Kept (unless raises (release_unreferenced_blobs now1) db)
    swept true = (use_b, i, refl)
    swept false = (
      (
        In-update_where_skip (is_unreferenced now1 db) (set_confirmed false) b db.blobs use_b.0
            (ground (arith, use_b.2)),
        use_b.1,
        use_b.2,
      ),
      i,
      refl,
    )

    cleaned :
        (raises : Bool) (d : Db) → Kept d → Kept (unless raises (cleanup_orphan_blobs store now2) d)
    cleaned true d k = k
    cleaned false d ((a, c, e), j, same) = (
      (
        In-delete_where_skip (λ (x : Blob). is_orphan now2 x && store.deletes x.key) b d.blobs a
            (rw c refl),
        c,
        e,
      ),
      j,
      same,
    )

    pruned :
        (raises : Bool) (d : Db) → Kept d → Kept (unless raises (prune_space_entry_removals now3) d)
    pruned true d k = k
    pruned false d (a, j, same) = (
      a,
      In-delete_where_skip
          (λ (x : SpaceEntryRemoval). is_older removal_retention_ms now3 x.server_ts) r d.removals j
          young,
      same,
    )

-- A blob past the grace that no live entry points at, and that the store would delete.
abbrev pub is_stale : Storage → ℕ → Db → Blob → Bool
is_stale store now db b =
    is_older unreferenced_grace_ms now b.created_at
    && not (any_where (is_reference b.key) db.entries)
    && store.deletes b.key

none_stale :
    (store : Storage) (now1 now2 : ℕ) (db : Db) (xs : List Blob)
    → now1 ≤ now2
    → any_where (is_stale store now1 db) (
        delete_where
          (λ (b : Blob). is_orphan now2 b && store.deletes b.key)
          (update_where (is_unreferenced now1 db) (set_confirmed false) xs))
      ≡ false
none_stale store now1 now2 db [] h = refl
none_stale store now1 now2 db (x ∷ xs) h = ground (arith, none_stale store now1 now2 db xs)

-- A pass whose first two jobs do not fail, the second not before the first by the clock, leaves no
-- blob that is more than seven days old by the first and that no live entry points at, confirmed or
-- not, but for those that the store failed to delete.
pub hourly_pass_clears :
    (store : Storage) (faults : Faults) (now1 now2 now3 : ℕ) (db : Db)
    → faults.release ≡ false
    → faults.cleanup ≡ false
    → now1 ≤ now2
    → any_where (is_stale store now1 db) (hourly_pass store faults now1 now2 now3 db).blobs ≡ false
unfolding hourly_pass release_unreferenced_blobs cleanup_orphan_blobs prune_space_entry_removals
hourly_pass_clears store faults now1 now2 now3 db r c h =
    cleared faults.release faults.cleanup faults.prune r c
  where
    cleared :
        (release cleanup prune : Bool)
        → release ≡ false
        → cleanup ≡ false
        → any_where
            (is_stale store now1 db)
            (unless prune (prune_space_entry_removals now3) (
              unless cleanup
                (cleanup_orphan_blobs store now2)
                (unless release (release_unreferenced_blobs now1) db))).blobs
          ≡ false
    cleared true cleanup prune r c = cc
    cleared false true prune r c = cc
    cleared false false true r c = none_stale store now1 now2 db db.blobs h
    cleared false false false r c = none_stale store now1 now2 db db.blobs h
