-- ===== src/Admin.antt =====
-- The account actions and counts of src/admin/service.py, and the key of src/admin/router.py.
pub mod Tests
use rover_tools_orange_copy.Prelude.{
  zero, suc, ℕ, Bool, true, false, Option, none, some, List, [], ◌∷◌, ◌==◌, ◌||◌, not,
  if◌then◌else◌, leb, rows_where, delete_where, update_where, any_where, count_where, sum_where,
  eq_option, is_some, map, Reply, ok, err, ◌>>=◌, or_err, ◌+◌,
}
use rover_tools_orange_copy.Store.{
  UserSettings, Db, SyncEntry, Blob, Space, SpaceMembership, SyncCursor, Text,
}
use rover_tools_orange_copy.Store.Accounts.{Profile, Device}
use rover_tools_orange_copy.Auth.{find_profile, save_profile}
use rover_tools_orange_copy.Blobs.{used_bytes, has_profile_id, blob_size, set_confirmed}
use rover_tools_orange_copy.Sync.Page.{sort_by}
use rover_tools_orange_copy.Prelude.Lists.{take}

-- `_counts`: devices, entries and bytes.
unfoldable pub usage_counts : ℕ → Db → (ℕ × ℕ) × ℕ
usage_counts uid db = (
  (
    count_where (λ (d : Device). d.user_id == uid) db.devices,
    count_where (λ (r : SyncEntry). r.user_id == uid) db.entries,
  ),
  used_bytes uid db,
)

-- `UserAdminSummary`
pub record UserAdminSummary : Type 0 where
  pub id : ℕ
  pub display_name : Text
  pub blob_bytes_used : ℕ
  pub blob_bytes_quota : ℕ
  pub device_count : ℕ
  pub entry_count : ℕ
  pub created_at : ℕ

unfoldable pub summary : Db → Profile → UserAdminSummary
unfolding usage_counts
summary db p = record {
  id = p.id;
  display_name = p.display_name;
  blob_bytes_used = (usage_counts p.id db).1;
  blob_bytes_quota = p.blob_bytes_quota;
  device_count = (usage_counts p.id db).0.0;
  entry_count = (usage_counts p.id db).0.1;
  created_at = p.created_at;
}

-- `ORDER BY created_at DESC`, which leaves the order of equal times open.
abbrev pub newest_profile : Profile → Profile → Bool
newest_profile p q = leb q.created_at p.created_at

abbrev pub drop_rows : ℕ → List Profile → List Profile
drop_rows zero ps = ps
drop_rows (suc n) [] = []
drop_rows (suc n) (p ∷ ps) = drop_rows n ps

-- `list_users`: a page, and how many match. The test of `ilike` is Postgres's.
unfoldable pub list_users : (Profile → Bool) → ℕ → ℕ → Db → List UserAdminSummary × ℕ
unfolding summary sort_by
list_users matches offset limit db = (
  map (summary db)
      (take limit (drop_rows offset (sort_by newest_profile (rows_where matches db.profiles)))),
  count_where matches db.profiles,
)

-- `get_user`, up to what Supabase adds.
unfoldable pub get_user : ℕ → Db → Reply UserAdminSummary
unfolding summary
get_user uid db = do p ← or_err (find_profile uid db) 404 "User not found"; ok (summary db p)

-- `update_quota`
unfoldable pub update_quota : ℕ → ℕ → Db → Reply Db
update_quota uid quota db = do
  p ← or_err (find_profile uid db) 404 "User not found"
  ok (save_profile (record p { blob_bytes_quota = quota }) db)

-- The foreign keys on `profiles` that have no ON DELETE, in the schema that the migrations build.
abbrev pub is_referenced : ℕ → Db → Bool
is_referenced uid db =
    any_where (λ (b : Blob). b.user_id == uid) db.blobs
    || any_where (λ (s : Space). s.owner_id == uid) db.spaces

-- The rows that go with the profile, by the other foreign keys of the migrations.
abbrev pub delete_profile : ℕ → Db → Db
delete_profile uid db = record db {
  profiles = delete_where (has_profile_id uid) db.profiles;
  devices = delete_where (λ (d : Device). d.user_id == uid) db.devices;
  entries = delete_where (λ (r : SyncEntry). r.user_id == uid) db.entries;
  cursors = delete_where (λ (c : SyncCursor). c.user_id == uid) db.cursors;
  user_settings = delete_where (λ (s : UserSettings). s.user_id == uid) db.user_settings;
  memberships = delete_where (λ (m : SpaceMembership). m.user_id == uid) db.memberships;
}

abbrev pub unconfirm_all : ℕ → Db → Db
unconfirm_all uid db = record db {
  blobs = update_where (λ (b : Blob). b.user_id == uid) (set_confirmed false) db.blobs;
}

-- `delete_user`, up to the call of Supabase. A row that still points at the profile makes the
-- statement fail, which is a 500, and the transaction is undone.
unfoldable pub delete_user : ℕ → Db → Reply Db
delete_user uid db =
    if is_some (find_profile uid db)
    then if is_referenced uid db
      then err 500 "Internal Server Error"
      else ok (delete_profile uid (unconfirm_all uid db))
    else ok (unconfirm_all uid db)

-- What `get_stats` reads from the tables.
pub record TableStats : Type 0 where
  pub users_total : ℕ
  pub devices_total : ℕ
  pub devices_active : ℕ
  pub entries_total : ℕ
  pub entries_deleted : ℕ
  pub blobs_total : ℕ
  pub blobs_confirmed : ℕ
  pub storage_bytes_used : ℕ

unfoldable pub get_stats : Db → TableStats
get_stats db = record {
  users_total = count_where (λ (p : Profile). true) db.profiles;
  devices_total = count_where (λ (d : Device). true) db.devices;
  devices_active = count_where (λ (d : Device). not d.revoked) db.devices;
  entries_total = count_where (λ (r : SyncEntry). true) db.entries;
  entries_deleted = count_where (λ (r : SyncEntry). is_some r.deleted_at) db.entries;
  blobs_total = count_where (λ (b : Blob). true) db.blobs;
  blobs_confirmed = count_where (λ (b : Blob). b.confirmed) db.blobs;
  storage_bytes_used = sum_where (λ (b : Blob). b.confirmed) blob_size db.blobs;
}

abbrev pub max_failures : ℕ
max_failures = 10

-- `require_admin_key` after the rate limit: the configured key, the failures of the address that
-- Redis counts (none if it cannot be read), the key presented, and whether Redis takes a failure.
unfoldable pub require_admin_key :
    Option ℕ → Option ℕ → Bool → Option ℕ → Reply (Unit {0}) × Option ℕ
require_admin_key none failures takes presented =
    (err 503 "Admin endpoints are disabled (ADMIN_API_KEY not set)", failures)
require_admin_key (some key) failures takes presented =
    if leb max_failures (or_zero failures)
    then (err 429 "Too many failed attempts", failures)
    else if eq_option presented (some key)
    then (ok tt, failures)
    else (err 403 "Invalid admin key", if takes then some (or_zero failures + 1) else failures)
  where
    or_zero : Option ℕ → ℕ
    or_zero none = 0
    or_zero (some n) = n
