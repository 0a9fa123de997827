-- ===== src/Sync/Push/Accepted.antt =====
-- What one accepted entry means: the row that is stored, the spaces it may be in, the edit that it
-- beats, and the record of each space that it left.
use rover_tools_orange_copy.Sync.Recorded.{record-IsRecorded, IsRecorded, same_type_refl}
use rover_tools_orange_copy.Store.{WrappedKeys, is_member, SpaceEntryRemoval, SyncEntry, Db, Env}
use rover_tools_orange_copy.Prelude.{
  ==_iff, Option, is_some, if◌then◌else◌, false≢true, elem-added, not, [], rows_where, none, refl,
  any_where, false, first_where-In, true, ◌⊎◌, elem, first_where-update_first, ◌<◌, some, arith, ok,
  first_where, ◌∷◌, ◌≡◌, List, ℕ,
}
use rover_tools_orange_copy.Sync.Push.Cases.{
  inserted, updated, refused, Ends, write_update-ok, upsert-Ends,
}
use rover_tools_orange_copy.Sync.Upsert.{
  is_stale, withdrawal_record, spaces_of, write_insert, updated_work, upsert_entry,
}
use rover_tools_orange_copy.Sync.Removals.{record_space_removals}
use rover_tools_orange_copy.Sync.Entry.{
  Outcome, added_to, dropped_from, is_tombstone, is_key, new_row, updated_row, Work, AcceptedEntry,
  PushEntry, Limits, holds_memberships,
}

-- What a live entry says of a column, and what a deletion leaves of it.
abbrev pub when_live : {A : Type 0} → Option ℕ → A → A → A
when_live none said left = said
when_live (some _) said left = left

-- A column that an update keeps from the row that there was, and a new row takes from the entry.
abbrev pub kept_from : {A : Type 0} → Option SyncEntry → (SyncEntry → A) → A → A
kept_from none column said = said
kept_from (some row) column said = column row

-- The table holds the row of the entry's key, with each of its columns as the entry, the answer
-- and the row that there was before say.
pub record IsStored (uid did : ℕ) (e : PushEntry) (a : AcceptedEntry) (before : Option SyncEntry)
    (db : Db) : Type 0 where
  pub row : SyncEntry
  pub found : first_where (is_key uid e.client_id e.entry_type) db.entries ≡ some row
  pub server_id : row.id ≡ a.server_id
  pub kept_id : row.id ≡ kept_from before (λ r. r.id) a.server_id
  pub server_ts : row.server_ts ≡ a.server_ts
  pub owner : row.user_id ≡ uid
  pub client_id : row.client_id ≡ e.client_id
  pub device : row.device_id ≡ did
  pub created : row.created_at ≡ kept_from before (λ r. r.created_at) e.created_at
  pub kind : row.kind ≡ kept_from before (λ r. r.kind) e.kind
  pub edited : row.updated_at ≡ e.updated_at
  pub deleted : row.deleted_at ≡ e.deleted_at
  pub pinned : row.pinned ≡ e.pinned
  pub content : row.encrypted_content ≡ when_live e.deleted_at e.encrypted_content []
  pub metadata : row.encrypted_metadata ≡ when_live e.deleted_at e.encrypted_metadata none
  pub wraps : row.wrapped_keys ≡ when_live e.deleted_at e.wrapped_keys (WrappedKeys.dict [])
  pub blob_key : row.blob_key ≡ when_live e.deleted_at e.blob_key none
  pub blob_size : row.blob_size ≡ when_live e.deleted_at e.blob_size none
  pub spaces : row.space_ids ≡ e.space_ids

by_tombstone :
    {A : Type 0} (e : PushEntry) (said left : A)
    → (if is_tombstone e then left else said) ≡ when_live e.deleted_at said left
by_tombstone {A} e said left = go e.deleted_at
  where
    go : (o : Option ℕ) → (if is_some o then left else said) ≡ when_live o said left
    go none = refl
    go (some t) = refl

module _ (cfg : Limits) (uid did : ℕ) (e : PushEntry) (env : Env) (w : Work) where
  updated-IsStored :
      (row : SyncEntry) (removals : List SpaceEntryRemoval)
      → first_where (is_key uid e.client_id e.entry_type) w.db.entries ≡ some row
      → IsStored uid did e
          (record { client_id = e.client_id; server_id = row.id; server_ts = env.now })
          (some row)
          (updated_work uid did e env row removals w).db
  unfolding updated_work updated_row
  updated-IsStored row removals found = record {
    row = updated_row did e env.now row;
    found =
        first_where-update_first (is_key uid e.client_id e.entry_type) (updated_row did e env.now)
          w.db.entries row found key;
    server_id = refl;
    kept_id = refl;
    server_ts = refl;
    owner = (==_iff row.user_id uid).0 (ground (arith, key));
    client_id = (==_iff row.client_id e.client_id).0 (ground (arith, key));
    device = refl;
    created = refl;
    kind = refl;
    edited = refl;
    deleted = refl;
    pinned = refl;
    content = by_tombstone e e.encrypted_content [];
    metadata = by_tombstone e e.encrypted_metadata none;
    wraps = by_tombstone e e.wrapped_keys (WrappedKeys.dict []);
    blob_key = by_tombstone e e.blob_key none;
    blob_size = by_tombstone e e.blob_size none;
    spaces = refl;
  }
    where
      key : is_key uid e.client_id e.entry_type row ≡ true
      key = (first_where-In (is_key uid e.client_id e.entry_type) w.db.entries row found).1

  inserted-IsStored :
      IsStored uid did e
        (record { client_id = e.client_id; server_id = env.new_id; server_ts = env.now })
        none
        (record w.db { entries = new_row uid did e env ∷ w.db.entries })
  unfolding new_row
  inserted-IsStored = record {
    row = new_row uid did e env;
    found = ground (arith, same_type_refl e.entry_type);
    server_id = refl;
    kept_id = refl;
    server_ts = refl;
    owner = refl;
    client_id = refl;
    device = refl;
    created = refl;
    kind = refl;
    edited = refl;
    deleted = refl;
    pinned = refl;
    content = by_tombstone e e.encrypted_content [];
    metadata = by_tombstone e e.encrypted_metadata none;
    wraps = by_tombstone e e.wrapped_keys (WrappedKeys.dict []);
    blob_key = by_tombstone e e.blob_key none;
    blob_size = by_tombstone e e.blob_size none;
    spaces = refl;
  }

  -- How an accepted entry was written.
  data Written (a : AcceptedEntry) (dropped : List ℕ) (w' : Work) : Type 0 where
    over :
        (row : SyncEntry) (removals : List SpaceEntryRemoval)
        → first_where (is_key uid e.client_id e.entry_type) w.db.entries ≡ some row
        → holds_memberships w.db uid (added_to row.space_ids e) ≡ true
        → is_stale e row ≡ false
        → record_space_removals
            (withdrawal_record uid e env.now)
            env.removal_id
            (dropped_from row e)
            w.db.removals
          ≡ ok removals
        → a ≡ record { client_id = e.client_id; server_id = row.id; server_ts = env.now }
        → dropped ≡ dropped_from row e
        → w' ≡ updated_work uid did e env row removals w
        → Written a dropped w'
    fresh :
        first_where (is_key uid e.client_id e.entry_type) w.db.entries ≡ none
        → holds_memberships w.db uid (added_to [] e) ≡ true
        → a ≡ record { client_id = e.client_id; server_id = env.new_id; server_ts = env.now }
        → dropped ≡ []
        → w'.db ≡ record w.db { entries = new_row uid did e env ∷ w.db.entries }
        → Written a dropped w'

  Ends-Written :
      (a : AcceptedEntry) (dropped : List ℕ) (w' : Work)
      → Ends cfg uid did e env w (Outcome.accepted a, dropped, w')
      → Written a dropped w'
  unfolding write_insert
  Ends-Written a dropped w' (refused reason same) = cc
  Ends-Written a dropped w' (updated row found members _ newer _ _ k) =
      let (removals, recorded, same) = write_update-ok uid did e env row w _ k in
      over row removals found members newer recorded (cc same) (cc same) (cc same)
  Ends-Written a dropped w' (inserted found members _ _ _ k) =
      fresh found members (cc k) (cc k) (cc k)

  upsert-Written :
      (a : AcceptedEntry) (dropped : List ℕ) (w' : Work)
      → upsert_entry cfg uid did e env w ≡ ok (Outcome.accepted a, dropped, w')
      → Written a dropped w'
  upsert-Written a dropped w' h = Ends-Written a dropped w' (upsert-Ends cfg uid did e env w _ h)

  Written-IsStored :
      (a : AcceptedEntry) (dropped : List ℕ) (w' : Work)
      → Written a dropped w'
      → IsStored uid did e a (first_where (is_key uid e.client_id e.entry_type) w.db.entries) w'.db
  Written-IsStored a dropped w' (over row removals found _ _ _ q _ p) =
      rw (q, p, found) (updated-IsStored row removals found)
  Written-IsStored a dropped w' (fresh found _ q _ p) = rw (q, p, found) inserted-IsStored

  -- An accepted entry is the row stored under its key afterwards. The row has the id and the time
  -- that the answer says, and the account and the device of the call; its times, the flag, the
  -- spaces and, unless the entry is a deletion, the content, the metadata, the wraps and the blob
  -- are the entry's; a deletion leaves none of these four. A row that was there before keeps its
  -- id, its kind and its time of creation, and a new one takes the entry's kind and time.
  pub upsert-IsStored :
      (a : AcceptedEntry) (dropped : List ℕ) (w' : Work)
      → upsert_entry cfg uid did e env w ≡ ok (Outcome.accepted a, dropped, w')
      → IsStored uid did e a (first_where (is_key uid e.client_id e.entry_type) w.db.entries) w'.db
  upsert-IsStored a dropped w' h = Written-IsStored a dropped w' (upsert-Written a dropped w' h)

  Written_newer :
      (a : AcceptedEntry) (dropped : List ℕ) (w' : Work) (row : SyncEntry)
      → first_where (is_key uid e.client_id e.entry_type) w.db.entries ≡ some row
      → Written a dropped w'
      → (row.updated_at < e.updated_at) ⊎ ((is_tombstone e ≡ true) × (row.deleted_at ≡ none))
  Written_newer a dropped w' row found (over row' _ found' _ newer _ _ _ _) =
      let same : row' ≡ row = cc found in beats row (rw same at newer)
    where
      beats :
          (row : SyncEntry)
          → is_stale e row ≡ false
          → (row.updated_at < e.updated_at) ⊎ ((is_tombstone e ≡ true) × (row.deleted_at ≡ none))
      beats row h = ground arith
  Written_newer a dropped w' row found (fresh found' _ _ _ _) = cc found

  -- An accepted entry is newer than the row that it replaces, or deletes a row that was live.
  pub upsert_newer :
      (a : AcceptedEntry) (dropped : List ℕ) (w' : Work) (row : SyncEntry)
      → upsert_entry cfg uid did e env w ≡ ok (Outcome.accepted a, dropped, w')
      → first_where (is_key uid e.client_id e.entry_type) w.db.entries ≡ some row
      → (row.updated_at < e.updated_at) ⊎ ((is_tombstone e ≡ true) × (row.deleted_at ≡ none))
  upsert_newer a dropped w' row h found =
      Written_newer a dropped w' row found (upsert-Written a dropped w' h)

  -- A space that passed the membership check, or was no addition.
  member_or_old :
      (already : List ℕ) (s : ℕ) (spaces : List ℕ)
      → holds_memberships w.db uid (rows_where (λ x. not (elem x already)) spaces) ≡ true
      → elem s spaces ≡ true
      → (any_where (is_member s uid) w.db.memberships ≡ true) ⊎ (elem s already ≡ true)
  unfolding holds_memberships
  member_or_old already s [] h m = cc
  member_or_old already s (x ∷ xs) h m = ground (arith, member_or_old already s xs)

  Written_may_share :
      (a : AcceptedEntry) (dropped : List ℕ) (w' : Work) (s : ℕ)
      → elem s e.space_ids ≡ true
      → Written a dropped w'
      → (any_where (is_member s uid) w.db.memberships ≡ true)
        ⊎ (elem s (spaces_of (first_where (is_key uid e.client_id e.entry_type) w.db.entries))
            ≡ true)
  Written_may_share a dropped w' s m (over row _ found members _ _ _ _ _) =
      rw found (member_or_old row.space_ids s e.space_ids members m)
  Written_may_share a dropped w' s m (fresh found members _ _ _) =
      rw found (member_or_old [] s e.space_ids members m)

  -- Each space of an accepted entry is one that the caller is a member of, or one that the row
  -- that it replaces already carried.
  pub upsert_may_share :
      (a : AcceptedEntry) (dropped : List ℕ) (w' : Work) (s : ℕ)
      → upsert_entry cfg uid did e env w ≡ ok (Outcome.accepted a, dropped, w')
      → elem s e.space_ids ≡ true
      → (any_where (is_member s uid) w.db.memberships ≡ true)
        ⊎ (elem s (spaces_of (first_where (is_key uid e.client_id e.entry_type) w.db.entries))
            ≡ true)
  upsert_may_share a dropped w' s h m =
      Written_may_share a dropped w' s m (upsert-Written a dropped w' h)

  Written_withdraws :
      (a : AcceptedEntry) (dropped : List ℕ) (w' : Work) (s : ℕ)
      → elem s (spaces_of (first_where (is_key uid e.client_id e.entry_type) w.db.entries)) ≡ true
      → elem s e.space_ids ≡ false
      → Written a dropped w'
      → (elem s dropped ≡ true) × IsRecorded (withdrawal_record uid e a.server_ts) s w'.db.removals
  unfolding updated_work
  Written_withdraws a dropped w' s old gone (over row removals found _ _ recorded q d p) =
      let left : elem s (dropped_from row e) ≡ true =
        elem-added s e.space_ids row.space_ids (rw found at old) gone in
      (rw d left, rw (q, p) (record-IsRecorded _ _ _ s w.db.removals removals recorded left))
  Written_withdraws a dropped w' s old gone (fresh found _ _ _ _) =
      absurd (false≢true (rw found at old))

  -- Each space that the row carried and the accepted entry does not is withdrawn: the answer
  -- lists it, and a removal by the author is on record at the entry's own server time.
  pub upsert_withdraws :
      (a : AcceptedEntry) (dropped : List ℕ) (w' : Work) (s : ℕ)
      → upsert_entry cfg uid did e env w ≡ ok (Outcome.accepted a, dropped, w')
      → elem s (spaces_of (first_where (is_key uid e.client_id e.entry_type) w.db.entries)) ≡ true
      → elem s e.space_ids ≡ false
      → (elem s dropped ≡ true) × IsRecorded (withdrawal_record uid e a.server_ts) s w'.db.removals
  upsert_withdraws a dropped w' s h old gone =
      Written_withdraws a dropped w' s old gone (upsert-Written a dropped w' h)
