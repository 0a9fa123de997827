-- ===== src/Sync/Entry.antt =====
-- The parts of a push: the records of src/sync/service.py and src/sync/schemas.py that it works on,
-- the checks that `_upsert_entry` makes, `release_blob` of src/blobs/service.py, and the row that
-- it writes.
use rover_tools_orange_copy.Prelude.Int.{ℤ}
use rover_tools_orange_copy.Prelude.{
  overlap, ℕ, Bool, true, false, ◌&&◌, ◌||◌, not, Option, none, some, List, [], ◌==◌, ltb,
  if◌then◌else◌, is_none, is_some, eq_option, length, is_empty, elem, rows_where, first_where,
  any_where, all_where, update_first,
}
use rover_tools_orange_copy.Store.{
  Text, EntryType, EntryKind, same_type, SyncEntry, Blob, Db, Env, WrappedKeys, is_member,
}
use rover_tools_orange_copy.Store.Wraps.{no_keys}

-- The settings that the push reads.
pub record Limits : Type 0 where
  pub max_entry_bytes : ℕ
  pub max_entries_per_user : ℕ

abbrev pub tombstone_cap_factor : ℕ
tombstone_cap_factor = 3

pub record PushEntry : Type 0 where
  pub client_id : ℕ
  pub entry_type : EntryType
  pub kind : Option EntryKind
  pub encrypted_content : Text
  pub encrypted_metadata : Option Text
  pub created_at : ℕ
  pub updated_at : ℕ
  pub pinned : Bool
  pub deleted_at : Option ℕ
  pub blob_key : Option ℕ
  pub blob_size : Option ℕ
  pub space_ids : List ℕ
  pub wrapped_keys : WrappedKeys

pub record AcceptedEntry : Type 0 where
  pub client_id : ℕ
  pub server_id : ℕ
  pub server_ts : ℕ

pub data Reason : Type 0 where
  entry_too_large stale_update not_your_entry account_full : Reason

pub record ConflictEntry : Type 0 where
  pub client_id : ℕ
  pub reason : Reason

pub data Outcome : Type 0 where
  accepted : AcceptedEntry → Outcome
  conflict : ConflictEntry → Outcome

pub record Withdrawal : Type 0 where
  pub client_id : ℕ
  pub entry_type : EntryType
  pub space_ids : List ℕ

-- `_Room`: the two budgets may start below zero.
pub record Room : Type 0 where
  pub live : ℤ
  pub tombstones : ℤ

-- What a push in progress has written, and the budgets left.
pub record Work : Type 0 where
  pub db : Db
  pub room : Room

abbrev pub is_key : ℕ → ℕ → EntryType → SyncEntry → Bool
is_key uid c t r = r.user_id == uid && r.client_id == c && same_type r.entry_type t

abbrev pub is_live : ℕ → SyncEntry → Bool
is_live uid r = r.user_id == uid && is_none r.deleted_at

abbrev pub is_buried : ℕ → SyncEntry → Bool
is_buried uid r = r.user_id == uid && is_some r.deleted_at

-- `len(x or "")`
abbrev pub metadata_length : Option Text → ℕ
metadata_length none = 0
metadata_length (some t) = length t

unfoldable pub too_large : Limits → PushEntry → Bool
too_large cfg e =
    ltb cfg.max_entry_bytes (length e.encrypted_content)
    || ltb cfg.max_entry_bytes (metadata_length e.encrypted_metadata)

-- `_require_memberships`: whether the caller is in each of the spaces.
unfoldable pub holds_memberships : Db → ℕ → List ℕ → Bool
holds_memberships db uid spaces = all_where (λ s. any_where (is_member s uid) db.memberships) spaces

-- `_require_own_blob`: whether the caller uploaded the blob and it is confirmed.
unfoldable pub owns_blob : Db → ℕ → ℕ → Bool
owns_blob db uid key =
    any_where (λ (b : Blob). b.key == key && b.user_id == uid && b.confirmed) db.blobs

abbrev pub is_rival : ℕ → PushEntry → List ℕ → SyncEntry → Bool
is_rival uid e spaces r =
    r.client_id == e.client_id
    && same_type r.entry_type e.entry_type
    && not (r.user_id == uid)
    && overlap r.space_ids spaces

-- `_belongs_to_someone_else`
unfoldable pub belongs_to_someone_else : Db → ℕ → PushEntry → List ℕ → Bool
belongs_to_someone_else db uid e spaces =
    if is_empty spaces then false else any_where (is_rival uid e spaces) db.entries

-- `release_blob`: a confirmed blob of the account becomes unconfirmed, which the bool reports.
unfoldable pub release_blob : List Blob → ℕ → ℕ → List Blob × Bool
release_blob blobs uid key = elim (first_where mine blobs) [
  | none ↦ (blobs, false)
  | some b ↦
      if b.confirmed
      then (update_first mine (λ b. record b { confirmed = false }) blobs, true)
      else (blobs, false)
]
  where
    mine : Blob → Bool
    mine b = b.key == key && b.user_id == uid

unfoldable pub release_if : Option ℕ → ℕ → List Blob → List Blob
unfolding release_blob
release_if none uid blobs = blobs
release_if (some key) uid blobs = (release_blob blobs uid key).0

-- The columns that an accepted update or insert writes; a tombstone keeps no ciphertext.
abbrev pub is_tombstone : PushEntry → Bool
is_tombstone e = is_some e.deleted_at

abbrev pub content_of : PushEntry → Text
content_of e = if is_tombstone e then [] else e.encrypted_content

abbrev pub metadata_of : PushEntry → Option Text
metadata_of e = if is_tombstone e then none else e.encrypted_metadata

abbrev pub wrapped_of : PushEntry → WrappedKeys
wrapped_of e = if is_tombstone e then no_keys else e.wrapped_keys

abbrev pub blob_key_of : PushEntry → Option ℕ
blob_key_of e = if is_tombstone e then none else e.blob_key

abbrev pub blob_size_of : PushEntry → Option ℕ
blob_size_of e = if is_tombstone e then none else e.blob_size

-- The stored row after an accepted update.
unfoldable pub updated_row : ℕ → PushEntry → ℕ → SyncEntry → SyncEntry
updated_row did e now row = record row {
  device_id = did;
  encrypted_content = content_of e;
  encrypted_metadata = metadata_of e;
  updated_at = e.updated_at;
  server_ts = now;
  deleted_at = e.deleted_at;
  pinned = e.pinned;
  blob_key = blob_key_of e;
  blob_size = blob_size_of e;
  space_ids = e.space_ids;
  wrapped_keys = wrapped_of e;
}

unfoldable pub new_row : ℕ → ℕ → PushEntry → Env → SyncEntry
new_row uid did e env = record {
  id = env.new_id;
  client_id = e.client_id;
  user_id = uid;
  device_id = did;
  entry_type = e.entry_type;
  kind = e.kind;
  encrypted_content = content_of e;
  encrypted_metadata = metadata_of e;
  created_at = e.created_at;
  updated_at = e.updated_at;
  server_ts = env.now;
  deleted_at = e.deleted_at;
  pinned = e.pinned;
  space_ids = e.space_ids;
  wrapped_keys = wrapped_of e;
  blob_key = blob_key_of e;
  blob_size = blob_size_of e;
}

-- The spaces that the push puts the entry into, and takes it out of.
abbrev pub added_to : List ℕ → PushEntry → List ℕ
added_to already e = rows_where (λ s. not (elem s already)) e.space_ids

abbrev pub dropped_from : SyncEntry → PushEntry → List ℕ
dropped_from row e = rows_where (λ s. not (elem s e.space_ids)) row.space_ids

abbrev pub superseded : SyncEntry → PushEntry → Option ℕ
superseded row e = if eq_option row.blob_key (blob_key_of e) then none else row.blob_key
