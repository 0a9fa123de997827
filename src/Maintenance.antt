-- ===== src/Maintenance.antt =====
-- The hourly jobs of src/background.py.
pub mod Pass
use rover_tools_orange_copy.Prelude.{
  false, leb, true, not, any_where, ◌&&◌, ◌||◌, ◌∷◌, if◌then◌else◌, ◌==◌, Bool, ℕ, List, [], ◌+◌,
  ◌*◌, delete_where, ltb, update_where,
}
use rover_tools_orange_copy.Store.{Blob, SpaceEntryRemoval, Db}
use rover_tools_orange_copy.Blobs.{Storage, set_confirmed, is_reference}

-- `_ORPHAN_TTL_MS`, `_UNREFERENCED_GRACE_MS` and `_REMOVAL_RETENTION_MS`
abbrev pub orphan_ttl_ms : ℕ
orphan_ttl_ms = 3600 * 1000

abbrev pub unreferenced_grace_ms : ℕ
unreferenced_grace_ms = 7 * 24 * 3600 * 1000

abbrev pub removal_retention_ms : ℕ
removal_retention_ms = 90 * 24 * 3600 * 1000

-- A time before the cutoff `now - age`, over the integers.
abbrev pub is_older : ℕ → ℕ → ℕ → Bool
is_older age now time = ltb (time + age) now

-- A confirmed blob past the grace that no live entry points at.
abbrev pub is_unreferenced : ℕ → Db → Blob → Bool
is_unreferenced now db b =
    b.confirmed
    && is_older unreferenced_grace_ms now b.created_at
    && not (any_where (is_reference b.key) db.entries)

-- `_release_unreferenced_blobs`
unfoldable pub release_unreferenced_blobs : ℕ → Db → Db
release_unreferenced_blobs now db = record db {
  blobs = update_where (is_unreferenced now db) (set_confirmed false) db.blobs;
}

-- An unconfirmed blob past its hour.
abbrev pub is_orphan : ℕ → Blob → Bool
is_orphan now b = not b.confirmed && is_older orphan_ttl_ms now b.created_at

-- `_cleanup_orphan_blobs`: a row whose object the store fails to delete is left for later.
unfoldable pub cleanup_orphan_blobs : Storage → ℕ → Db → Db
cleanup_orphan_blobs store now db = record db {
  blobs = delete_where (λ (b : Blob). is_orphan now b && store.deletes b.key) db.blobs;
}

-- `_prune_space_entry_removals`
unfoldable pub prune_space_entry_removals : ℕ → Db → Db
prune_space_entry_removals now db = record db {
  removals =
      delete_where (λ (r : SpaceEntryRemoval). is_older removal_retention_ms now r.server_ts)
        db.removals;
}

-- Which of the three jobs of a pass raise; a job that raises leaves the database as it was.
pub record Faults : Type 0 where
  pub release : Bool
  pub cleanup : Bool
  pub prune : Bool

abbrev pub unless : Bool → (Db → Db) → Db → Db
unless true job db = db
unless false job db = job db

-- The hourly part of `_leader_loop`. Each job reads the clock for itself.
unfoldable pub hourly_pass : Storage → Faults → ℕ → ℕ → ℕ → Db → Db
unfolding release_unreferenced_blobs cleanup_orphan_blobs prune_space_entry_removals
hourly_pass store faults now1 now2 now3 db = unless faults.prune (prune_space_entry_removals now3) (
    unless faults.cleanup (cleanup_orphan_blobs store now2)
      (unless faults.release (release_unreferenced_blobs now1) db))

-- One turn of `_leader_loop`: the seconds since the last pass, and the database.
unfoldable pub leader_tick : Storage → Faults → ℕ → ℕ → ℕ → ℕ × Db → ℕ × Db
unfolding hourly_pass
leader_tick store faults now1 now2 now3 (elapsed, db) =
    if leb 3600 elapsed
    then (60, hourly_pass store faults now1 now2 now3 db)
    else (elapsed + 60, db)
