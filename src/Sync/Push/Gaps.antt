-- ===== src/Sync/Push/Gaps.antt =====
-- Where the push does not do what its comments say.
use rover_tools_orange_copy.Store.{Db, Env, SyncEntry}
use rover_tools_orange_copy.Prelude.{
  count-update_first, first_where-In, refl, arith, ◌+◌, count_where, ok, err, some, ◌∷◌,
  first_where, none, true, false, ◌≡◌, List, ℕ,
}
use rover_tools_orange_copy.Sync.Entry.{
  belongs_to_someone_else, blob_key_of, is_buried, Outcome, added_to, holds_memberships,
  AcceptedEntry, is_key, is_tombstone, dropped_from, too_large, Work, PushEntry, Limits,
  updated_row,
}
use rover_tools_orange_copy.Sync.Push.{initial_room, push_entries, push_loop}
use rover_tools_orange_copy.Sync.Upsert.{
  revive_refused, withdrawal_record, is_stale, new_blob_ok, updated_work, write_update,
  upsert_entry, update_entry,
}
use rover_tools_orange_copy.Sync.Removals.{record_space_removals, has_duplicates, upsert_removals}

-- The stored row, and an entry that passes every check of an update over it.
pub record IsUpdate (cfg : Limits) (uid : ℕ) (e : PushEntry) (row : SyncEntry) (w : Work)
    : Type 0 where
  pub fits : too_large cfg e ≡ false
  pub found : first_where (is_key uid e.client_id e.entry_type) w.db.entries ≡ some row
  pub members : holds_memberships w.db uid (added_to row.space_ids e) ≡ true
  pub blob : new_blob_ok w.db uid (blob_key_of e) (some row) ≡ true
  pub newer : is_stale e row ≡ false
  pub alone : belongs_to_someone_else w.db uid e (added_to row.space_ids e) ≡ false
  pub room : revive_refused e row w ≡ false

update-eq-write :
    (cfg : Limits) (uid did : ℕ) (e : PushEntry) (env : Env) (row : SyncEntry) (w : Work)
    → IsUpdate cfg uid e row w
    → upsert_entry cfg uid did e env w ≡ write_update uid did e env row w
unfolding upsert_entry update_entry
update-eq-write cfg uid did e env row w h =
    rw (h.fits, h.found, h.members, h.blob, h.newer, h.alone, h.room) refl

-- An update that passes every check, but drops a space that the row lists twice, is refused with
-- a 500, and the whole push leaves the database as it was.
pub push_duplicates :
    (cfg : Limits) (uid did : ℕ) (e : PushEntry) (env : ℕ → Env) (row : SyncEntry)
    (es : List PushEntry) (db : Db)
    → IsUpdate cfg uid e row (record { db = db; room = initial_room cfg uid db })
    → has_duplicates (dropped_from row e) ≡ true
    → push_entries cfg uid did env (e ∷ es) db ≡ (err 500 "Internal Server Error", db)
unfolding push_entries push_loop write_update record_space_removals
push_duplicates cfg uid did e env row es db h twice =
    rw (update-eq-write cfg uid did e (env 0) row _ h, twice) refl

-- Deleting a live row adds a tombstone whatever the tombstone budget says, and takes nothing
-- from either budget.
pub upsert_unmetered :
    (cfg : Limits) (uid did : ℕ) (e : PushEntry) (env : Env) (row : SyncEntry) (w : Work)
    → IsUpdate cfg uid e row w
    → has_duplicates (dropped_from row e) ≡ false
    → row.deleted_at ≡ none
    → is_tombstone e ≡ true
    → (a : AcceptedEntry) × (w' : Work) × (upsert_entry cfg uid did e env w
        ≡ ok (Outcome.accepted a, dropped_from row e, w'))
      × (w'.room ≡ w.room)
      × (count_where (is_buried uid) w'.db.entries ≡ count_where (is_buried uid) w.db.entries + 1)
unfolding write_update record_space_removals updated_work updated_row
upsert_unmetered cfg uid did e env row w h once live dead = (
  record { client_id = e.client_id; server_id = row.id; server_ts = env.now },
  updated_work uid did e env row
      (upsert_removals (withdrawal_record uid e env.now) env.removal_id (dropped_from row e) 0
        w.db.removals)
      w,
  rw (update-eq-write cfg uid did e env row w h, once) refl,
  rw live refl,
  ground (
    arith,
    live,
    first_where-In (is_key uid e.client_id e.entry_type) w.db.entries row h.found,
    count-update_first (is_key uid e.client_id e.entry_type) (is_buried uid)
        (updated_row did e env.now) w.db.entries row h.found,
  ),
)
