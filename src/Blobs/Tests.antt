-- ===== src/Blobs/Tests.antt =====
-- The theorems of the blobs and of their maintenance at concrete inputs: account 1 has a quota of
-- 100 bytes, a confirmed blob of 60 that its entry shares with space 3, and an upload of 30.
use rover_tools_orange_copy.Blobs.Access.{get_download_url_iff, IsShared}
use rover_tools_orange_copy.Store.Wraps.{no_keys}
use rover_tools_orange_copy.Maintenance.Pass.{
  hourly_pass_keeps, hourly_pass_clears, is_stale, IsInUse,
}
use rover_tools_orange_copy.Blobs.{
  is_confirmed_key, Storage, confirm_upload, get_download_url, quota_bytes,
}
use rover_tools_orange_copy.Blobs.Quota.{Step, Steps, Steps-IsWithin, IsWithin}
use rover_tools_orange_copy.Maintenance.{hourly_pass, Faults}
use rover_tools_orange_copy.Store.Accounts.{Profile}
use rover_tools_orange_copy.Prelude.{
  inl, ◌⊎◌, arith, In, first_where, refl, ◌≡◌, any_where, none, some, ok, true, false, [], ◌∷◌,
}
use rover_tools_orange_copy.Store.Empty.{empty_db}
use mathlib.Core.Logic.{◌↔◌}
use rover_tools_orange_copy.Store.{
  EntryType, Role, Blob, SpaceEntryRemoval, SpaceMembership, SyncEntry, Db,
}

abbrev someone : Profile
someone = record {
  id = 1;
  display_name = [];
  email = none;
  avatar_url = none;
  kdf_salt = 1;
  identity_pubkey = none;
  pw_wrapped_umk = none;
  recovery_wrapped_umk = none;
  umk_proof_hash = none;
  pw_wrapped_umk_prev = none;
  blob_bytes_quota = 100;
  created_at = 1;
  updated_at = 1;
}

abbrev image : Blob
image = record {
  key = 5;
  user_id = 1;
  mime_type = 1;
  size_bytes = 60;
  checksum = 1;
  confirmed = true;
  created_at = 1;
}

abbrev upload : Blob
upload = record image { key = 6; size_bytes = 30; confirmed = false; created_at = 1000 }

abbrev shown : SyncEntry
shown = record {
  id = 9;
  client_id = 7;
  user_id = 1;
  device_id = 5;
  entry_type = EntryType.clipboard;
  kind = none;
  encrypted_content = [];
  encrypted_metadata = none;
  created_at = 10;
  updated_at = 10;
  server_ts = 11;
  deleted_at = none;
  pinned = false;
  space_ids = 3 ∷ [];
  wrapped_keys = no_keys;
  blob_key = some 5;
  blob_size = some 60;
}

abbrev guest : SpaceMembership
guest = record {
  space_id = 3;
  user_id = 2;
  role = Role.member;
  wrapped_space_keys = none;
  wrapped_by = none;
  history_from_ts = none;
  joined_at = 1;
}

abbrev withdrawn : SpaceEntryRemoval
withdrawn = record {
  id = 1;
  space_id = 3;
  client_id = 8;
  entry_type = EntryType.note;
  author_id = 1;
  removed_by = 1;
  server_ts = 50;
}

abbrev db : Db
db = record empty_db {
  profiles = someone ∷ [];
  blobs = image ∷ upload ∷ [];
  entries = shown ∷ [];
  memberships = guest ∷ [];
  removals = withdrawn ∷ [];
}

-- A store that holds what was declared, and deletes what it is told to.
abbrev store : Storage
store = record {
  head = λ k. ok (some (record { size_bytes = 30; checksum_sha256 = none }));
  deletes = λ k. true;
  hex_to_b64 = λ c. some c;
}

abbrev calm : Faults
calm = record { release = false; cleanup = false; prune = false }

abbrev confirmed_db : Db
confirmed_db = (confirm_upload store 1 6 db).1

granted_100 : quota_bytes 1 db ≡ ok 100
unfolding quota_bytes
granted_100 = refl

Steps-IsWithin_example : IsWithin 1 100 confirmed_db
Steps-IsWithin_example =
    Steps-IsWithin 1 100 db confirmed_db
      (Steps.step db confirmed_db confirmed_db (Step.confirmed store 1 6 db)
        (Steps.done confirmed_db))
      (record { granted = granted_100; charged = omega arith })

get_download_url_iff_example : (get_download_url 2 5 db ≡ ok 5) ↔ (
    (b : Blob) × (first_where (is_confirmed_key 5) db.blobs ≡ some b)
    × ((b.user_id ≡ 2) ⊎ IsShared 2 b db))
get_download_url_iff_example = get_download_url_iff 2 5 db

hourly_pass_keeps_example :
    IsInUse image (hourly_pass store calm 604900000 604900000 604900000 db)
    × In withdrawn (hourly_pass store calm 604900000 604900000 604900000 db).removals
    × ((hourly_pass store calm 604900000 604900000 604900000 db).entries ≡ db.entries)
hourly_pass_keeps_example =
    hourly_pass_keeps store calm 604900000 604900000 604900000 db image withdrawn
      (inl refl, refl, refl) (inl refl) refl

hourly_pass_clears_example :
    any_where
      (is_stale store 604900000 db)
      (hourly_pass store calm 604900000 604900000 604900000 db).blobs
    ≡ false
hourly_pass_clears_example =
    hourly_pass_clears store calm 604900000 604900000 604900000 db refl refl (omega arith)
