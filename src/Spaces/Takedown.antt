-- ===== src/Spaces/Takedown.antt =====
-- `remove_entry_from_space` of src/spaces/service.py: an entry is taken down from a space, by the
-- owner or by the member who shared it. Ids are ordered as their texts are, which is the order of
-- the numbers.
pub mod Outside
pub mod Gone
use rover_tools_orange_copy.Sync.Removals.{record_space_removals}
use rover_tools_orange_copy.Store.Wraps.{drop_wrap, is_readable}
use rover_tools_orange_copy.Spaces.Members.{membership_of, find_space}
use rover_tools_orange_copy.Prelude.{
  all_where, String, ◌>>=◌, ◌>>◌, or_err, guard, ok, is_some, not, any_where, ◌&&◌, ◌||◌, ◌∷◌, min,
  elem, rows_where, Reply, first_where, if◌then◌else◌, ◌==◌, Bool, ℕ, List, [], update_where,
}
use rover_tools_orange_copy.Store.{
  same_type, Env, Space, SpaceEntryRemoval, SyncEntry, Db, EntryType,
}

-- A row of the entry that the space carries.
abbrev pub carries : ℕ → ℕ → EntryType → SyncEntry → Bool
carries space client t r =
    r.client_id == client && same_type r.entry_type t && elem space r.space_ids

-- A row that the caller may take down: any, for the owner, and otherwise the caller's own.
abbrev pub may_take : Space → ℕ → ℕ → EntryType → SyncEntry → Bool
may_take s uid client t r = carries s.id client t r && (s.owner_id == uid || r.user_id == uid)

-- What a row loses.
abbrev pub strip : ℕ → ℕ → SyncEntry → SyncEntry
strip space now r = record r {
  space_ids = rows_where (λ t. not (t == space)) r.space_ids;
  wrapped_keys = drop_wrap space r.wrapped_keys;
  server_ts = now;
}

-- The lowest author id, from that of the first row on.
abbrev pub lowest : ℕ → List SyncEntry → ℕ
lowest a [] = a
lowest a (r ∷ rs) = lowest (min a r.user_id) rs

-- The author that is named: the caller, where a row of theirs is taken down.
abbrev pub author_of : ℕ → ℕ → List SyncEntry → ℕ
author_of uid first matched =
    if any_where (λ r. r.user_id == uid) matched then uid else lowest first matched

-- The record of the removal.
abbrev pub takedown_record : ℕ → ℕ → EntryType → ℕ → ℕ → ℕ → SpaceEntryRemoval
takedown_record space client t author uid now = record {
  id = 0;
  space_id = space;
  client_id = client;
  entry_type = t;
  author_id = author;
  removed_by = uid;
  server_ts = now;
}

-- The author that the record names.
abbrev pub taken_author : Space → ℕ → ℕ → EntryType → ℕ → Db → ℕ
taken_author s uid client t first db =
    author_of uid first (rows_where (may_take s uid client t) db.entries)

abbrev pub item_gone : String
item_gone = "That item is no longer in this space. Refresh the space to update the list."

-- `json.loads` can read the wraps of the row. An error that nobody catches ends the request, and
-- nothing is written.
abbrev pub reads_wraps : SyncEntry → Bool
reads_wraps r = is_readable r.wrapped_keys

-- `remove_entry_from_space`: the author named, and the database.
unfoldable pub remove_entry_from_space : ℕ → ℕ → EntryType → ℕ → Env → Db → Reply (ℕ × Db)
remove_entry_from_space space client t uid env db = do
  s ← or_err (find_space space db) 404 item_gone
  guard (s.owner_id == uid || is_some (membership_of space uid db)) 404 item_gone
  guard (any_where (carries s.id client t) db.entries) 404 item_gone
  r ←
      or_err (first_where (may_take s uid client t) db.entries) 403
        "Only the space owner or the member who shared this item can remove it."
  guard (all_where reads_wraps (rows_where (may_take s uid client t) db.entries)) 500
      "Internal Server Error"
  removals ←
      record_space_removals
        (takedown_record s.id client t (taken_author s uid client t r.user_id db) uid env.now)
        env.removal_id (s.id ∷ []) db.removals
  ok (
    taken_author s uid client t r.user_id db,
    record db {
      entries = update_where (may_take s uid client t) (strip s.id env.now) db.entries;
      removals = removals;
    },
  )
