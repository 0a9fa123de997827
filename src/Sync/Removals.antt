-- ===== src/Sync/Removals.antt =====
-- `record_space_removals` of src/spaces/service.py: the durable record that an entry left spaces.
use rover_tools_orange_copy.Prelude.{
  ℕ, suc, Bool, false, ◌&&◌, ◌||◌, List, [], ◌∷◌, Reply, ok, err, ◌==◌, if◌then◌else◌, elem,
  any_where, update_first,
}
use rover_tools_orange_copy.Store.{EntryType, same_type, SpaceEntryRemoval}

-- The unique index on (space_id, client_id, entry_type).
abbrev pub is_removal : ℕ → ℕ → EntryType → SpaceEntryRemoval → Bool
is_removal s c t r = r.space_id == s && r.client_id == c && same_type r.entry_type t

-- Some id stands twice in the list.
unfoldable pub has_duplicates : List ℕ → Bool
has_duplicates [] = false
has_duplicates (x ∷ xs) = elem x xs || has_duplicates xs

-- One row of the upsert: an insert, or on conflict an update of the author, remover and time.
unfoldable pub upsert_removal : SpaceEntryRemoval → List SpaceEntryRemoval → List SpaceEntryRemoval
upsert_removal new rows =
    if any_where key rows
    then update_first key
        (λ r. record r {
          author_id = new.author_id;
          removed_by = new.removed_by;
          server_ts = new.server_ts;
        })
        rows
    else new ∷ rows
  where
    key : SpaceEntryRemoval → Bool
    key = is_removal new.space_id new.client_id new.entry_type

-- The rows of one statement, in turn; `i` numbers the new UUIDs.
unfoldable pub upsert_removals :
    SpaceEntryRemoval → (ℕ → ℕ) → List ℕ → ℕ → List SpaceEntryRemoval → List SpaceEntryRemoval
unfolding upsert_removal
upsert_removals new ids [] i rows = rows
upsert_removals new ids (s ∷ ss) i rows =
    upsert_removals new ids ss (suc i)
      (upsert_removal (record new { id = ids i; space_id = s }) rows)

-- Postgres refuses an `ON CONFLICT DO UPDATE` that would touch one row twice, which is an
-- exception that no handler catches.
unfoldable pub record_space_removals :
    SpaceEntryRemoval → (ℕ → ℕ) → List ℕ → List SpaceEntryRemoval → Reply (List SpaceEntryRemoval)
unfolding has_duplicates upsert_removals
record_space_removals new ids spaces rows =
    if has_duplicates spaces
    then err 500 "Internal Server Error"
    else ok (upsert_removals new ids spaces 0 rows)
