-- ===== src/Sync/Tests.antt =====
-- Runs of the sync service, and its theorems at concrete inputs: two accounts in space 3, account 1
-- also in space 4, and one note that account 1 shares with space 3.
use rover_tools_orange_copy.Sync.Removals.{has_duplicates, record_space_removals}
use rover_tools_orange_copy.Sync.Push.Cap.{push-live-le}
use rover_tools_orange_copy.Store.Wraps.{JsonValue, KeyName, dict, no_keys}
use rover_tools_orange_copy.Sync.Recorded.{IsRecorded}
use rover_tools_orange_copy.Sync.Push.Gaps.{upsert_unmetered, push_duplicates, IsUpdate}
use rover_tools_orange_copy.Sync.Push.Accepted.{
  upsert_withdraws, upsert_newer, upsert-IsStored, upsert_may_share, IsStored,
}
use rover_tools_orange_copy.Sync.Push.Budget.{live_rows}
use rover_tools_orange_copy.Sync.Push.Rows.{
  push-BareTombstones, push-UniqueKeys, push-others, is_others, BareTombstones, UniqueKeys,
}
use rover_tools_orange_copy.Sync.Push.Rivals.{push-NoRivals, NoRivals}
use rover_tools_orange_copy.Prelude.{
  count_where, err, false, inr, max, Option, arith, inl, none, refl, ◌≤◌, [], true, ◌+◌, ok, some,
  ◌∷◌, ◌⊎◌, any_where, elem, rows_where, ℕ, ◌<◌, ◌≡◌,
}
use rover_tools_orange_copy.Sync.Entry.{
  is_buried, Outcome, belongs_to_someone_else, is_tombstone, holds_memberships, AcceptedEntry,
  Limits, PushEntry, Work, too_large,
}
use rover_tools_orange_copy.Store.{
  EntryKind, Role, EntryType, Env, SpaceMembership, is_member, Db, SpaceEntryRemoval, SyncEntry,
}
use rover_tools_orange_copy.Sync.Push.{initial_room, push_entries}
use rover_tools_orange_copy.Sync.Upsert.{withdrawal_record, upsert_entry, updated_work}

abbrev cfg : Limits
cfg = record { max_entry_bytes = 4; max_entries_per_user = 2 }

abbrev pub stored : SyncEntry
stored = record {
  id = 100;
  client_id = 7;
  user_id = 1;
  device_id = 5;
  entry_type = EntryType.note;
  kind = some EntryKind.note;
  encrypted_content = 1 ∷ [];
  encrypted_metadata = none;
  created_at = 10;
  updated_at = 10;
  server_ts = 11;
  deleted_at = none;
  pinned = false;
  space_ids = 3 ∷ [];
  wrapped_keys =
      dict ((KeyName.personal, JsonValue.val 1) ∷ (KeyName.of_space 3, JsonValue.val 2) ∷ []);
  blob_key = none;
  blob_size = none;
}

abbrev pub joined : ℕ → ℕ → SpaceMembership
joined s u = record {
  space_id = s;
  user_id = u;
  role = Role.member;
  wrapped_space_keys = none;
  wrapped_by = none;
  history_from_ts = none;
  joined_at = 1;
}

abbrev pub db : Db
db = record {
  entries = stored ∷ [];
  cursors = [];
  blobs = [];
  spaces = [];
  invites = [];
  memberships = joined 3 1 ∷ joined 4 1 ∷ joined 3 2 ∷ [];
  join_requests = [];
  comments = [];
  removals = [];
  profiles = [];
  user_settings = [];
  devices = [];
  announcements = [];
}

-- An edit of the note that moves it from space 3 to space 4.
abbrev edit : PushEntry
edit = record {
  client_id = 7;
  entry_type = EntryType.note;
  kind = some EntryKind.note;
  encrypted_content = 2 ∷ [];
  encrypted_metadata = none;
  created_at = 10;
  updated_at = 20;
  pinned = true;
  deleted_at = none;
  blob_key = none;
  blob_size = none;
  space_ids = 4 ∷ [];
  wrapped_keys = no_keys;
}

-- A new clipboard entry, and the deletion of the note.
abbrev fresh : PushEntry
fresh = record edit { client_id = 8; entry_type = EntryType.clipboard; kind = some EntryKind.text }

abbrev gone : PushEntry
gone = record edit { deleted_at = some 20; space_ids = 3 ∷ [] }

abbrev env : ℕ → Env
env i = record { now = 30 + i; new_id = 200 + i; removal_id = λ j. 300 + j }

abbrev work : Work
work = record { db = db; room = initial_room cfg 1 db }

abbrev pub withdrawn_3 : SpaceEntryRemoval
withdrawn_3 = record {
  id = 300;
  space_id = 3;
  client_id = 7;
  entry_type = EntryType.note;
  author_id = 1;
  removed_by = 1;
  server_ts = 30;
}

abbrev edited : AcceptedEntry
edited = record { client_id = 7; server_id = 100; server_ts = 30 }

edit_accepted :
    upsert_entry cfg 1 5 edit (env 0) work
    ≡ ok (
      Outcome.accepted edited,
      3 ∷ [],
      updated_work 1 5 edit (env 0) stored (withdrawn_3 ∷ []) work,
    )
unfolding upsert_entry record_space_removals
edit_accepted = refl

stored-NoRivals : NoRivals (stored ∷ [])
stored-NoRivals r s (inl p) (inl q) = rw (← p, ← q) refl
stored-NoRivals r s (inl p) (inr n) = elim n [ ]
stored-NoRivals r s (inr m) n = elim m [ ]

stored-BareTombstones : BareTombstones (stored ∷ [])
stored-BareTombstones r (inl p) d = cc (rw (← p) at d)
stored-BareTombstones r (inr m) d = elim m [ ]

stored-UniqueKeys : UniqueKeys (stored ∷ [])
stored-UniqueKeys u c t = ground arith

gone-IsUpdate : IsUpdate cfg 1 gone stored work
unfolding too_large holds_memberships belongs_to_someone_else
gone-IsUpdate = record {
  fits = refl;
  found = refl;
  members = refl;
  blob = refl;
  newer = refl;
  alone = refl;
  room = refl;
}

-- The note listing space 3 twice.
abbrev doubled : SyncEntry
doubled = record stored { space_ids = 3 ∷ 3 ∷ [] }

abbrev db_doubled : Db
db_doubled = record db { entries = doubled ∷ [] }

edit-IsUpdate :
    IsUpdate cfg 1 edit doubled (record { db = db_doubled; room = initial_room cfg 1 db_doubled })
unfolding too_large holds_memberships belongs_to_someone_else
edit-IsUpdate = record {
  fits = refl;
  found = refl;
  members = refl;
  blob = refl;
  newer = refl;
  alone = refl;
  room = refl;
}

push-NoRivals_example : NoRivals (push_entries cfg 1 5 env (fresh ∷ edit ∷ []) db).1.entries
push-NoRivals_example = push-NoRivals cfg 1 5 env (fresh ∷ edit ∷ []) db stored-NoRivals

push-live-le_example :
    live_rows 1 (push_entries cfg 1 5 env (fresh ∷ edit ∷ []) db).1 ≤ max 2 (live_rows 1 db)
push-live-le_example = push-live-le cfg 1 5 env (fresh ∷ edit ∷ []) db

push-UniqueKeys_example : UniqueKeys (push_entries cfg 1 5 env (fresh ∷ edit ∷ []) db).1.entries
push-UniqueKeys_example = push-UniqueKeys cfg 1 5 env (fresh ∷ edit ∷ []) db stored-UniqueKeys

push-others_example :
    rows_where (is_others 2) (push_entries cfg 2 6 env (fresh ∷ edit ∷ []) db).1.entries
    ≡ rows_where (is_others 2) db.entries
push-others_example = push-others cfg 2 6 env (fresh ∷ edit ∷ []) db

push-BareTombstones_example : BareTombstones (push_entries cfg 1 5 env (gone ∷ []) db).1.entries
push-BareTombstones_example = push-BareTombstones cfg 1 5 env (gone ∷ []) db stored-BareTombstones

upsert-IsStored_example :
    IsStored 1 5 edit edited
      (some stored)
      (updated_work 1 5 edit (env 0) stored (withdrawn_3 ∷ []) work).db
upsert-IsStored_example = upsert-IsStored cfg 1 5 edit (env 0) work edited (3 ∷ []) _ edit_accepted

upsert_newer_example : (10 < 20) ⊎ ((is_tombstone edit ≡ true) × (◌≡◌ {A = Option ℕ} none none))
upsert_newer_example =
    upsert_newer cfg 1 5 edit (env 0) work edited (3 ∷ []) _ stored edit_accepted refl

upsert_may_share_example :
    (any_where (is_member 4 1) db.memberships ≡ true) ⊎ (elem 4 (3 ∷ []) ≡ true)
upsert_may_share_example =
    upsert_may_share cfg 1 5 edit (env 0) work edited (3 ∷ []) _ 4 edit_accepted refl

upsert_withdraws_example :
    (elem 3 (3 ∷ []) ≡ true)
    × IsRecorded
        (withdrawal_record 1 edit 30)
        3
        (updated_work 1 5 edit (env 0) stored (withdrawn_3 ∷ []) work).db.removals
upsert_withdraws_example =
    upsert_withdraws cfg 1 5 edit (env 0) work edited (3 ∷ []) _ 3 edit_accepted refl refl

push_duplicates_example :
    push_entries cfg 1 5 env (edit ∷ fresh ∷ []) db_doubled
    ≡ (err 500 "Internal Server Error", db_doubled)
unfolding has_duplicates
push_duplicates_example =
    push_duplicates cfg 1 5 edit env doubled (fresh ∷ []) db_doubled edit-IsUpdate refl

upsert_unmetered_example :
    (a : AcceptedEntry) × (w' : Work) × (upsert_entry cfg 1 5 gone (env 0) work
      ≡ ok (Outcome.accepted a, [], w'))
    × (w'.room ≡ work.room)
    × (count_where (is_buried 1) w'.db.entries ≡ 1)
unfolding has_duplicates
upsert_unmetered_example =
    upsert_unmetered cfg 1 5 gone (env 0) stored work gone-IsUpdate refl refl refl
