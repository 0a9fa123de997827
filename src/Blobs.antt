-- ===== src/Blobs.antt =====
-- src/blobs/service.py and the calls of src/blobs/s3.py. The quota lock makes the decisions of an
-- account run one at a time, so each is one function of the database.
pub mod Sums
pub mod Quota
pub mod Access
pub mod Tests
use rover_tools_orange_copy.Store.Accounts.{Profile}
use rover_tools_orange_copy.Sync.Entry.{is_live, Limits}
use rover_tools_orange_copy.Prelude.{
  rows_where, elem, count_where, eq_option, ◌++◌, ◌>>=◌, ◌>>◌, or_err, guard, ok, err, is_some,
  is_none, not, any_where, ◌&&◌, ◌||◌, ◌∷◌, sum_where, Reply, first_where, if◌then◌else◌, ◌==◌,
  Bool, ℕ, List, [], update_first, ◌+◌, ◌*◌, delete_where, Option, none, some, true, false, ltb,
}
use rover_tools_orange_copy.Store.{SpaceMembership, Blob, SyncEntry, Db}

-- `ObjectHead`
pub record ObjectHead : Type 0 where
  pub size_bytes : ℕ
  pub checksum_sha256 : Option ℕ

-- The object store and the base64 library: what `head_object` answers or raises, whether
-- `delete_object` succeeds, and the base64 form of a hex checksum, if it is hex.
pub record Storage : Type 0 where
  pub head : ℕ → Reply (Option ObjectHead)
  pub deletes : ℕ → Bool
  pub hex_to_b64 : ℕ → Option ℕ

-- `_RESERVATION_MS`
abbrev pub reservation_ms : ℕ
reservation_ms = 300 * 1000

-- A blob that is charged, and one that is charged or reserved at this time.
abbrev pub is_charged : ℕ → Blob → Bool
is_charged uid b = b.user_id == uid && b.confirmed

abbrev pub is_counted : ℕ → ℕ → Blob → Bool
is_counted uid now b =
    b.user_id == uid
    && (b.confirmed || (not b.confirmed && ltb now (b.created_at + reservation_ms)))

abbrev pub blob_size : Blob → ℕ
blob_size b = b.size_bytes

-- `_used_bytes`, without and with reservations.
abbrev pub used_bytes : ℕ → Db → ℕ
used_bytes uid db = sum_where (is_charged uid) blob_size db.blobs

abbrev pub reserved_bytes : ℕ → ℕ → Db → ℕ
reserved_bytes uid now db = sum_where (is_counted uid now) blob_size db.blobs

abbrev pub has_profile_id : ℕ → Profile → Bool
has_profile_id uid p = p.id == uid

-- `_quota_bytes`
unfoldable pub quota_bytes : ℕ → Db → Reply ℕ
quota_bytes uid db = do
  p ← or_err (first_where (has_profile_id uid) db.profiles) 404 "Profile not found"
  ok p.blob_bytes_quota

-- `RequestUploadBody`
pub record RequestUploadBody : Type 0 where
  pub mime_type : ℕ
  pub size_bytes : ℕ
  pub checksum : ℕ

abbrev pub new_blob : ℕ → RequestUploadBody → ℕ → ℕ → Blob
new_blob uid body key created = record {
  key = key;
  user_id = uid;
  mime_type = body.mime_type;
  size_bytes = body.size_bytes;
  checksum = body.checksum;
  confirmed = false;
  created_at = created;
}

-- `request_upload`: the new key, which is unique, and the database. The clock is read for the
-- reservations and again for the row.
unfoldable pub request_upload : ℕ → RequestUploadBody → ℕ → ℕ → ℕ → Db → Reply (ℕ × Db)
unfolding quota_bytes
request_upload uid body key now created db = do
  quota ← quota_bytes uid db
  guard (not (ltb quota (reserved_bytes uid now db + body.size_bytes))) 402 "Storage quota exceeded"
  ok (key, record db { blobs = new_blob uid body key created ∷ db.blobs })

abbrev pub is_own_blob : ℕ → ℕ → Blob → Bool
is_own_blob uid key b = b.key == key && b.user_id == uid

abbrev pub set_confirmed : Bool → Blob → Blob
set_confirmed value b = record b { confirmed = value }

-- What landed is not what was declared.
unfoldable pub mismatched : Storage → Blob → ObjectHead → Bool
mismatched store b h =
    not (h.size_bytes == b.size_bytes)
    || (is_some h.checksum_sha256
        && not (eq_option h.checksum_sha256 (store.hex_to_b64 b.checksum)))

-- The second check of the quota, and the confirmation.
unfoldable pub charge : ℕ → Blob → Db → Reply (Unit {0}) × Db
unfolding quota_bytes
charge uid b db = elim (quota_bytes uid db) [
  | err status detail ↦ (err status detail, db)
  | ok quota ↦
      if ltb quota (used_bytes uid db + b.size_bytes)
      then (err 402 "Storage quota exceeded", db)
      else (
        ok tt,
        record db { blobs = update_first (is_own_blob uid b.key) (set_confirmed true) db.blobs },
      )
]

-- A row whose object is deleted, unless the store fails.
abbrev pub drop_mismatched : Storage → Blob → Db → Reply (Unit {0}) × Db
drop_mismatched store b db =
    if store.deletes b.key
    then (
      err 409 "Upload does not match what was declared",
      record db { blobs = delete_where (λ (x : Blob). x.key == b.key) db.blobs },
    )
    else (err 500 "Internal Server Error", db)

-- What the head of the object makes of the confirmation.
unfoldable pub judge_upload :
    Storage → ℕ → Blob → Reply (Option ObjectHead) → Db → Reply (Unit {0}) × Db
unfolding mismatched charge
judge_upload store uid b (err status detail) db = (err status detail, db)
judge_upload store uid b (ok none) db = (err 409 "Upload not found in storage", db)
judge_upload store uid b (ok (some h)) db =
    if mismatched store b h then drop_mismatched store b db else charge uid b db

-- `confirm_upload`. A mismatch deletes the row and is refused, so an error may change the database.
unfoldable pub confirm_upload : Storage → ℕ → ℕ → Db → Reply (Unit {0}) × Db
unfolding judge_upload
confirm_upload store uid key db = elim (first_where (is_own_blob uid key) db.blobs) [
  | none ↦ (err 404 "Blob not found", db)
  | some b ↦ if b.confirmed then (ok tt, db) else judge_upload store uid b (store.head b.key) db
]

-- A live entry that points at the blob.
abbrev pub is_reference : ℕ → SyncEntry → Bool
is_reference key r = eq_option r.blob_key (some key) && is_none r.deleted_at

-- `release_upload`
unfoldable pub release_upload : ℕ → ℕ → Db → Reply Db
release_upload uid key db = do
  b ← or_err (first_where (is_own_blob uid key) db.blobs) 404 "Blob not found"
  guard (not (b.confirmed && any_where (is_reference key) db.entries)) 409
      "A live entry still references this blob"
  ok (
      if b.confirmed
      then record db { blobs = update_first (is_own_blob uid key) (set_confirmed false) db.blobs }
      else db)

-- A live row of the blob's owner that carries the blob into a space of the caller.
abbrev pub is_shared_by : Blob → SyncEntry → Bool
is_shared_by b r = is_reference b.key r && r.user_id == b.user_id

abbrev pub spaces_of_rows : List SyncEntry → List ℕ
spaces_of_rows [] = []
spaces_of_rows (r ∷ rs) = r.space_ids ++ spaces_of_rows rs

-- `_shares_space_with_blob`
unfoldable pub shares_space_with_blob : ℕ → Blob → Db → Bool
shares_space_with_blob uid b db =
    any_where
      (λ (m : SpaceMembership).
        m.user_id == uid
        && elem m.space_id (spaces_of_rows (rows_where (is_shared_by b) db.entries)))
      db.memberships

abbrev pub is_confirmed_key : ℕ → Blob → Bool
is_confirmed_key key b = b.key == key && b.confirmed

-- `get_download_url`: the key that the URL is made for.
unfoldable pub get_download_url : ℕ → ℕ → Db → Reply ℕ
unfolding shares_space_with_blob
get_download_url uid key db = do
  b ← or_err (first_where (is_confirmed_key key) db.blobs) 404 "Blob not found"
  guard (b.user_id == uid || shares_space_with_blob uid b db) 404 "Blob not found"
  ok key

-- `QuotaResponse`
pub record QuotaResponse : Type 0 where
  pub used_bytes : ℕ
  pub quota_bytes : ℕ
  pub entry_count : ℕ
  pub entry_limit : ℕ
  pub max_entry_bytes : ℕ

-- `get_quota`, with `_entry_count`
unfoldable pub get_quota : Limits → ℕ → Db → Reply QuotaResponse
unfolding quota_bytes
get_quota cfg uid db = do
  quota ← quota_bytes uid db
  ok (record {
    used_bytes = used_bytes uid db;
    quota_bytes = quota;
    entry_count = count_where (is_live uid) db.entries;
    entry_limit = cfg.max_entries_per_user;
    max_entry_bytes = cfg.max_entry_bytes;
  })
