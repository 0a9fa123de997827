-- ===== src/Sync/Push/Budget.antt =====
-- The row budgets of a push: `_Room` stays an honest count, so the live rows of an account stay
-- within `max_entries_per_user`.
use rover_tools_orange_copy.Sync.Push.Cases.{inserted, write_update-ok, updated, refused, Ends}
use rover_tools_orange_copy.Prelude.Int.{leb_ℤ, pos_part, neg_part, pos, -ℤ_parts}
use rover_tools_orange_copy.Prelude.{
  count-update_first, first_where-In, arith, ok, some, false, first_where, ◌≡◌, List, count_where,
  max, ℕ, ◌≤◌, ◌+◌,
}
use rover_tools_orange_copy.Sync.Upsert.{revive_refused, budget_for, write_insert, updated_work}
use rover_tools_orange_copy.Sync.Entry.{
  Outcome, is_key, new_row, Limits, Work, is_live, updated_row, PushEntry,
}
use rover_tools_orange_copy.Store.{SpaceEntryRemoval, Db, Env, SyncEntry}

abbrev pub live_rows : ℕ → Db → ℕ
live_rows uid db = count_where (is_live uid) db.entries

-- The live budget covers the free slots, and the rows are within the cap or no more than at first.
pub record Fits (cfg : Limits) (uid first : ℕ) (w : Work) : Type 0 where
  pub honest :
      pos_part w.room.live + live_rows uid w.db ≤ cfg.max_entries_per_user + neg_part w.room.live
  pub within : live_rows uid w.db ≤ max cfg.max_entries_per_user first

module _ (cfg : Limits) (uid did first : ℕ) (e : PushEntry) (env : Env) (w : Work) where
  inserted-Fits :
      leb_ℤ (budget_for e w) (pos 0) ≡ false
      → Fits cfg uid first w
      → (r : Outcome × List ℕ × Work) → write_insert uid did e env w ≡ ok r
      → Fits cfg uid first r.2
  unfolding write_insert new_row
  inserted-Fits room f r h = ground (arith, -ℤ_parts w.room.live (pos 1))

  updated-Fits :
      (row : SyncEntry) (removals : List SpaceEntryRemoval)
      → first_where (is_key uid e.client_id e.entry_type) w.db.entries ≡ some row
      → revive_refused e row w ≡ false
      → Fits cfg uid first w
      → Fits cfg uid first (updated_work uid did e env row removals w)
  unfolding updated_work updated_row
  updated-Fits row removals found room f = ground (
    arith,
    -ℤ_parts w.room.live (pos 1),
    first_where-In (is_key uid e.client_id e.entry_type) w.db.entries row found,
    count-update_first (is_key uid e.client_id e.entry_type) (is_live uid)
        (updated_row did e env.now) w.db.entries row found,
  )

  pub upsert-Fits :
      Fits cfg uid first w
      → (r : Outcome × List ℕ × Work) → Ends cfg uid did e env w r
      → Fits cfg uid first r.2
  upsert-Fits f r (refused reason same) = rw same f
  upsert-Fits f r (updated row found _ _ _ _ room h) =
      let (removals, _, same) = write_update-ok uid did e env row w r h in
      rw same (updated-Fits row removals found room f)
  upsert-Fits f r (inserted _ _ _ _ room h) = inserted-Fits room f r h
