-- ===== src/Sync/Push/Cases.antt =====
-- How one entry of a push can end: refused with nothing written, written over the row of its key,
-- or inserted, each with the tests of `_upsert_entry` that it passed.
use rover_tools_orange_copy.Prelude.Int.{pos, leb_ℤ}
use rover_tools_orange_copy.Prelude.{
  >>=-returned, Bool-cases, ℕ, ◌≡◌, refl, inl, inr, true, false, ◌&&◌, not, Option, none, some,
  List, [], ok, leb, is_none, first_where, ok-injective, guard-cases, guard, ◌>>◌, sym,
}
use rover_tools_orange_copy.Sync.Removals.{record_space_removals}
use rover_tools_orange_copy.Store.{SpaceEntryRemoval, SyncEntry, Env}
use rover_tools_orange_copy.Sync.Entry.{
  accepted, dropped_from, too_large, Limits, PushEntry, Outcome, conflict, Reason, entry_too_large,
  stale_update, not_your_entry, account_full, Work, is_key, holds_memberships,
  belongs_to_someone_else, is_tombstone, blob_key_of, added_to,
}
use rover_tools_orange_copy.Sync.Upsert.{
  updated_work, withdrawal_record, write_update, update_entry, write_insert, insert_entry,
  upsert_entry, spaces_of, new_blob_ok, is_stale, revive_refused, budget_for,
}

module _ (cfg : Limits) (uid did : ℕ) (e : PushEntry) (env : Env) (w : Work) where
  pub data Ends (r : Outcome × List ℕ × Work) : Type 0 where
    refused :
        (reason : Reason)
        → r ≡ (conflict (record { client_id = e.client_id; reason = reason }), [], w)
        → Ends r
    updated :
        (row : SyncEntry)
        → first_where (is_key uid e.client_id e.entry_type) w.db.entries ≡ some row
        → holds_memberships w.db uid (added_to row.space_ids e) ≡ true
        → new_blob_ok w.db uid (blob_key_of e) (some row) ≡ true
        → (not (is_tombstone e && is_none row.deleted_at) && leb e.updated_at row.updated_at)
          ≡ false
        → belongs_to_someone_else w.db uid e (added_to row.space_ids e) ≡ false
        → revive_refused e row w ≡ false
        → write_update uid did e env row w ≡ ok r
        → Ends r
    inserted :
        first_where (is_key uid e.client_id e.entry_type) w.db.entries ≡ none
        → holds_memberships w.db uid (added_to [] e) ≡ true
        → new_blob_ok w.db uid (blob_key_of e) none ≡ true
        → belongs_to_someone_else w.db uid e e.space_ids ≡ false
        → leb_ℤ (budget_for e w) (pos 0) ≡ false
        → write_insert uid did e env w ≡ ok r
        → Ends r

  update-Ends :
      (row : SyncEntry) (r : Outcome × List ℕ × Work)
      → first_where (is_key uid e.client_id e.entry_type) w.db.entries ≡ some row
      → holds_memberships w.db uid (added_to row.space_ids e) ≡ true
      → new_blob_ok w.db uid (blob_key_of e) (some row) ≡ true
      → update_entry uid did e env row w ≡ ok r
      → Ends r
  unfolding update_entry
  update-Ends row r found members blob h = elim (Bool-cases (is_stale e row)) [
    | inl t1 ↦ refused stale_update (sym (ok-injective (rw t1 at h)))
    | inr t1 ↦ elim (Bool-cases (belongs_to_someone_else w.db uid e (added_to row.space_ids e))) [
      | inl t2 ↦ refused not_your_entry (sym (ok-injective (rw (t1, t2) at h)))
      | inr t2 ↦ elim (Bool-cases (revive_refused e row w)) [
        | inl t3 ↦ refused account_full (sym (ok-injective (rw (t1, t2, t3) at h)))
        | inr t3 ↦ updated row found members blob t1 t2 t3 (rw (t1, t2, t3) at h)
      ]
    ]
  ]

  insert-Ends :
      (r : Outcome × List ℕ × Work)
      → first_where (is_key uid e.client_id e.entry_type) w.db.entries ≡ none
      → holds_memberships w.db uid (added_to [] e) ≡ true
      → new_blob_ok w.db uid (blob_key_of e) none ≡ true
      → insert_entry uid did e env w ≡ ok r
      → Ends r
  unfolding insert_entry
  insert-Ends r found members blob h =
      elim (Bool-cases (belongs_to_someone_else w.db uid e e.space_ids)) [
        | inl t1 ↦ refused not_your_entry (sym (ok-injective (rw t1 at h)))
        | inr t1 ↦ elim (Bool-cases (leb_ℤ (budget_for e w) (pos 0))) [
          | inl t2 ↦ refused account_full (sym (ok-injective (rw (t1, t2) at h)))
          | inr t2 ↦ inserted found members blob t1 t2 (rw (t1, t2) at h)
        ]
      ]

  pub upsert-Ends : (r : Outcome × List ℕ × Work) → upsert_entry cfg uid did e env w ≡ ok r → Ends r
  unfolding upsert_entry
  upsert-Ends r h = elim (Bool-cases (too_large cfg e)) [
    | inl t ↦ refused entry_too_large (sym (ok-injective (rw t at h)))
    | inr t ↦
        looked_up (first_where (is_key uid e.client_id e.entry_type) w.db.entries) refl (rw t at h)
  ]
    where
      looked_up :
          (existing : Option SyncEntry)
          → first_where (is_key uid e.client_id e.entry_type) w.db.entries ≡ existing
          → (guard (holds_memberships w.db uid (added_to (spaces_of existing) e)) 422 "not_a_member"
              >> (guard (new_blob_ok w.db uid (blob_key_of e) existing) 422 "invalid_blob"
                  >> elim existing [
                    | none ↦ insert_entry uid did e env w
                    | some row ↦ update_entry uid did e env row w
                  ]))
            ≡ ok r
          → Ends r
      looked_up none found h2 =
          let g = guard-cases _ _ _ _ h2 in
          let g' = guard-cases _ _ _ _ g.1 in insert-Ends r found g.0 g'.0 g'.1
      looked_up (some row) found h2 =
          let g = guard-cases _ _ _ _ h2 in
          let g' = guard-cases _ _ _ _ g.1 in update-Ends row r found g.0 g'.0 g'.1

-- An accepted update recorded the removals and wrote the row.
pub write_update-ok :
    (uid did : ℕ) (e : PushEntry) (env : Env) (row : SyncEntry) (w : Work)
    (r : Outcome × List ℕ × Work)
    → write_update uid did e env row w ≡ ok r
    → (removals : List SpaceEntryRemoval) × (record_space_removals
          (withdrawal_record uid e env.now)
          env.removal_id
          (dropped_from row e)
          w.db.removals
        ≡ ok removals)
      × (r ≡ (
        accepted (record { client_id = e.client_id; server_id = row.id; server_ts = env.now }),
        dropped_from row e,
        updated_work uid did e env row removals w,
      ))
unfolding write_update
write_update-ok uid did e env row w r h =
    let (removals, recorded, same) = >>=-returned _ _ h in
    (removals, recorded, sym (ok-injective same))
