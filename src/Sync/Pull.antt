-- ===== src/Sync/Pull.antt =====
-- Pull: `pull_entries`, `entry_view`, `merge_cursors` and `_pull_removals` of
-- src/sync/service.py.
pub mod Views
pub mod Shown
pub mod Rounds
pub mod Everything
use rover_tools_orange_copy.Sync.Page.{page}
use mathlib.Core.Option.{some}
use rover_tools_orange_copy.Store.{
  same_type, Db, EntryType, SpaceEntryRemoval, SpaceMembership, SyncEntry,
}
use rover_tools_orange_copy.Store.Wraps.{trim, is_readable}
use rover_tools_orange_copy.Prelude.{
  not, ◌∷◌, ◌||◌, [], ltb, any_where, is_empty, leb, min, ◌&&◌, elem, if◌then◌else◌, map,
  rows_where, true, ◌==◌, Bool, none, List, Option, ℕ,
}
use mathlib.Core.Option

-- `entry_type`: one of the two types, or any other text, which filters nothing.
abbrev pub of_type : Option EntryType → EntryType → Bool
of_type none t = true
of_type (some u) t = same_type t u

abbrev pub memberships_of : ℕ → Db → List SpaceMembership
memberships_of uid db = rows_where (λ (m : SpaceMembership). m.user_id == uid) db.memberships

-- `history_from_ts`: `NULL` is no floor.
abbrev pub above_floor : Option ℕ → ℕ → Bool
above_floor none t = true
above_floor (some floor) t = leb floor t

-- A membership's arm of the entries query.
abbrev pub entry_arm : ℕ → SyncEntry → SpaceMembership → Bool
entry_arm after r m =
    elem m.space_id r.space_ids
    && ltb after r.server_ts
    && above_floor m.history_from_ts r.server_ts

-- The caller's own entries, and those in the caller's spaces.
unfoldable pub is_visible : ℕ → List SpaceMembership → ℕ → SyncEntry → Bool
is_visible uid ms after r =
    (r.user_id == uid && ltb after r.server_ts) || any_where (entry_arm after r) ms

unfoldable pub visible_entries : ℕ → ℕ → Option EntryType → Db → List SyncEntry
unfolding is_visible
visible_entries uid after kind db =
    rows_where
      (λ (r : SyncEntry).
        is_visible uid (memberships_of uid db) after r && of_type kind r.entry_type)
      db.entries

abbrev pub removal_arm : ℕ → SpaceEntryRemoval → SpaceMembership → Bool
removal_arm after r m =
    r.space_id == m.space_id && ltb after r.server_ts && above_floor m.history_from_ts r.server_ts

unfoldable pub visible_removals : ℕ → ℕ → Option EntryType → Db → List SpaceEntryRemoval
visible_removals uid after kind db =
    rows_where
      (λ (r : SpaceEntryRemoval).
        any_where (removal_arm after r) (memberships_of uid db) && of_type kind r.entry_type)
      db.removals

-- `entry_view`: the author's row whole, another's cut to the reader's spaces. `none` is an error
-- of `json.loads` that it does not catch.
unfoldable pub entry_view : ℕ → List ℕ → SyncEntry → Option SyncEntry
unfolding trim
entry_view reader spaces r =
    if r.user_id == reader
    then some r
    else Option.map (λ k. record r { space_ids = shown; wrapped_keys = k })
        (trim shown r.wrapped_keys)
  where
    shown : List ℕ
    shown = rows_where (λ s. elem s spaces) r.space_ids

abbrev pub spaces_in : List SpaceMembership → List ℕ
spaces_in = map (λ m. m.space_id)

abbrev pub merge_cursors : Option ℕ → Option ℕ → Option ℕ
merge_cursors none none = none
merge_cursors none (some b) = some b
merge_cursors (some a) none = some a
merge_cursors (some a) (some b) = some (min a b)

-- The views of a page: an error in one of them is the error of the pull.
unfoldable pub views : ℕ → List ℕ → List SyncEntry → Option (List SyncEntry)
unfolding entry_view Option.bind
views reader spaces [] = some []
views reader spaces (r ∷ rows) =
    let rest = views reader spaces rows in
    Option.bind (entry_view reader spaces r) λ v. Option.map (◌∷◌ v) rest

-- A row of another account whose wraps raise the error.
abbrev pub is_unreadable : ℕ → SyncEntry → Bool
is_unreadable reader r = not (r.user_id == reader || is_readable r.wrapped_keys)

-- `_pull_removals`
unfoldable pub pull_removals :
    ℕ → ℕ → ℕ → Option EntryType → Db → Option (List SpaceEntryRemoval × Option ℕ)
unfolding visible_removals
pull_removals uid after limit kind db =
    if is_empty (memberships_of uid db)
    then some ([], none)
    else page (λ r. r.server_ts) (λ r. r.id) limit (visible_removals uid after kind db)

pub record Pulled : Type 0 where
  pub entries : List SyncEntry
  pub removals : List SpaceEntryRemoval
  pub next : Option ℕ

-- `pull_entries`; `none` is an exception: `_page` raises one at a limit of 0, and `entry_view` may.
unfoldable pub pull_entries : ℕ → ℕ → ℕ → Option EntryType → Db → Option Pulled
unfolding visible_entries views pull_removals Option.bind
pull_entries uid after limit kind db =
    Option.bind (page (λ r. r.server_ts) (λ r. r.id) limit (visible_entries uid after kind db)) λ e.
      Option.bind (pull_removals uid after limit kind db) λ r.
        Option.bind (views uid (spaces_in (memberships_of uid db)) e.0)
          λ shown. some (record { entries = shown; removals = r.0; next = merge_cursors e.1 r.1 })
