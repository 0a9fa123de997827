-- ===== src/Sync/Upsert.antt =====
-- `_upsert_entry` of src/sync/service.py, branch by branch.
use rover_tools_orange_copy.Prelude.Int.{ℤ, pos, ◌+ℤ◌, ◌-ℤ◌, leb_ℤ}
use rover_tools_orange_copy.Prelude.{
  ℕ, Bool, true, ◌&&◌, ◌||◌, not, Option, none, some, List, [], ◌∷◌, Reply, ok, ◌>>=◌, ◌>>◌, guard,
  leb, if◌then◌else◌, is_none, is_some, eq_option, first_where, update_first,
}
use rover_tools_orange_copy.Store.{SyncEntry, SpaceEntryRemoval, Db, Env}
use rover_tools_orange_copy.Sync.Removals.{record_space_removals}
use rover_tools_orange_copy.Sync.Entry.{
  Limits, PushEntry, Reason, Outcome, Work, is_key, too_large, holds_memberships, owns_blob,
  belongs_to_someone_else, release_if, is_tombstone, blob_key_of, updated_row, new_row, added_to,
  dropped_from, superseded, accepted, conflict, entry_too_large, stale_update, not_your_entry,
  account_full,
}

abbrev pub refuse : PushEntry → Reason → Work → Reply (Outcome × List ℕ × Work)
refuse e reason w = ok (conflict (record { client_id = e.client_id; reason = reason }), [], w)

-- The record of a withdrawal by the author, but for its id and its space.
abbrev pub withdrawal_record : ℕ → PushEntry → ℕ → SpaceEntryRemoval
withdrawal_record uid e now = record {
  id = 0;
  space_id = 0;
  client_id = e.client_id;
  entry_type = e.entry_type;
  author_id = uid;
  removed_by = uid;
  server_ts = now;
}

-- The transaction after an accepted update, given the removal records.
unfoldable pub updated_work :
    ℕ → ℕ → PushEntry → Env → SyncEntry → List SpaceEntryRemoval → Work → Work
updated_work uid did e env row removals w = record {
  db = record w.db {
    entries =
        update_first (is_key uid e.client_id e.entry_type) (updated_row did e env.now) w.db.entries;
    blobs = release_if (superseded row e) uid w.db.blobs;
    removals = removals;
  };
  room =
      if is_some row.deleted_at && not (is_tombstone e)
      then record { live = w.room.live -ℤ pos 1; tombstones = w.room.tombstones +ℤ pos 1 }
      else w.room;
}

-- The writes of an accepted update.
unfoldable pub write_update :
    ℕ → ℕ → PushEntry → Env → SyncEntry → Work → Reply (Outcome × List ℕ × Work)
unfolding updated_work
write_update uid did e env row w = do
  removals ←
      record_space_removals (withdrawal_record uid e env.now) env.removal_id (dropped_from row e)
        w.db.removals
  ok (
    accepted (record { client_id = e.client_id; server_id = row.id; server_ts = env.now }),
    dropped_from row e,
    updated_work uid did e env row removals w,
  )

-- `not incoming_tombstone and entry.updated_at <= existing.updated_at`
abbrev pub is_stale : PushEntry → SyncEntry → Bool
is_stale e row = not (is_tombstone e && is_none row.deleted_at) && leb e.updated_at row.updated_at

-- `revived and room.live <= 0`
abbrev pub revive_refused : PushEntry → SyncEntry → Work → Bool
revive_refused e row w = is_some row.deleted_at && not (is_tombstone e) && leb_ℤ w.room.live (pos 0)

-- The budget that an insert of the entry takes from.
abbrev pub budget_for : PushEntry → Work → ℤ
budget_for e w = if is_tombstone e then w.room.tombstones else w.room.live

-- The update branch of `_upsert_entry`, with its refusals.
unfoldable pub update_entry :
    ℕ → ℕ → PushEntry → Env → SyncEntry → Work → Reply (Outcome × List ℕ × Work)
unfolding belongs_to_someone_else write_update
update_entry uid did e env row w =
    if is_stale e row
    then refuse e stale_update w
    else if belongs_to_someone_else w.db uid e (added_to row.space_ids e)
    then refuse e not_your_entry w
    else if revive_refused e row w
    then refuse e account_full w
    else write_update uid did e env row w

unfoldable pub write_insert : ℕ → ℕ → PushEntry → Env → Work → Reply (Outcome × List ℕ × Work)
unfolding new_row
write_insert uid did e env w = ok (
  accepted (record { client_id = e.client_id; server_id = env.new_id; server_ts = env.now }),
  [],
  record {
    db = record w.db { entries = new_row uid did e env ∷ w.db.entries };
    room =
        if is_tombstone e
        then record w.room { tombstones = w.room.tombstones -ℤ pos 1 }
        else record w.room { live = w.room.live -ℤ pos 1 };
  },
)

-- The insert branch of `_upsert_entry`, with its refusals.
unfoldable pub insert_entry : ℕ → ℕ → PushEntry → Env → Work → Reply (Outcome × List ℕ × Work)
unfolding belongs_to_someone_else write_insert
insert_entry uid did e env w =
    if belongs_to_someone_else w.db uid e e.space_ids
    then refuse e not_your_entry w
    else if leb_ℤ (budget_for e w) (pos 0)
    then refuse e account_full w
    else write_insert uid did e env w

abbrev pub spaces_of : Option SyncEntry → List ℕ
spaces_of none = []
spaces_of (some row) = row.space_ids

-- Whether the row would point at a blob that it does not point at yet.
abbrev pub new_blob_ok : Db → ℕ → Option ℕ → Option SyncEntry → Bool
new_blob_ok db uid none existing = true
new_blob_ok db uid (some key) none = owns_blob db uid key
new_blob_ok db uid (some key) (some row) = eq_option row.blob_key (some key) || owns_blob db uid key

-- `_upsert_entry`
unfoldable pub upsert_entry :
    Limits → ℕ → ℕ → PushEntry → Env → Work → Reply (Outcome × List ℕ × Work)
unfolding too_large holds_memberships owns_blob update_entry insert_entry
upsert_entry cfg uid did e env w = if too_large cfg e then refuse e entry_too_large w else do
  let existing = first_where (is_key uid e.client_id e.entry_type) w.db.entries
  guard (holds_memberships w.db uid (added_to (spaces_of existing) e)) 422 "not_a_member"
  guard (new_blob_ok w.db uid (blob_key_of e) existing) 422 "invalid_blob"
  elim existing [
    | none ↦ insert_entry uid did e env w
    | some row ↦ update_entry uid did e env row w
  ]
