-- ===== src/Sync/Push/Rows.antt =====
-- What a push does to the rows of the table: one row for each key, other accounts' rows untouched,
-- and tombstones without ciphertext.
use rover_tools_orange_copy.Store.Wraps.{no_keys}
use rover_tools_orange_copy.Store.{Db, EntryType, Env, SyncEntry}
use rover_tools_orange_copy.Sync.Entry.{
  Outcome, is_key, Work, PushEntry, Limits, new_row, updated_row,
}
use rover_tools_orange_copy.Prelude.{
  count-congr, first_where-none, inr, ok-injective, inl, ◌∙◌, In-update_first, count-update_first,
  rows-update_first, arith, refl, ◌≤◌, none, rows_where, true, ◌==◌, [], count_where, is_some, not,
  Bool, In, ◌≡◌, List, ℕ,
}
use rover_tools_orange_copy.Sync.Push.{push_entries}
use rover_tools_orange_copy.Sync.Push.Loop.{push_induction}
use rover_tools_orange_copy.Sync.Push.Cases.{inserted, updated, refused, Ends, write_update-ok}
use rover_tools_orange_copy.Sync.Upsert.{write_insert, updated_work}

-- At most one row for each (user_id, client_id, entry_type).
abbrev pub UniqueKeys : List SyncEntry → Type 0
UniqueKeys rows = (u c : ℕ) (t : EntryType) → count_where (is_key u c t) rows ≤ 1

abbrev pub is_others : ℕ → SyncEntry → Bool
is_others uid r = not (r.user_id == uid)

-- A tombstone row holds no content, no metadata, no key envelope and no blob.
pub record IsBare (r : SyncEntry) : Type 0 where
  pub content : r.encrypted_content ≡ []
  pub metadata : r.encrypted_metadata ≡ none
  pub keys : r.wrapped_keys ≡ no_keys
  pub key : r.blob_key ≡ none
  pub size : r.blob_size ≡ none

abbrev pub BareTombstones : List SyncEntry → Type 0
BareTombstones rows = (r : SyncEntry) → In r rows → is_some r.deleted_at ≡ true → IsBare r

updated_row-IsBare :
    (did : ℕ) (e : PushEntry) (now : ℕ) (row : SyncEntry)
    → is_some (updated_row did e now row).deleted_at ≡ true
    → IsBare (updated_row did e now row)
unfolding updated_row
updated_row-IsBare did e now row h = ground arith

new_row-IsBare :
    (uid did : ℕ) (e : PushEntry) (env : Env)
    → is_some (new_row uid did e env).deleted_at ≡ true
    → IsBare (new_row uid did e env)
unfolding new_row
new_row-IsBare uid did e env h = ground arith

module _ (cfg : Limits) (uid did : ℕ) (e : PushEntry) (env : Env) (w : Work)
    (r : Outcome × List ℕ × Work) where
  upsert-UniqueKeys :
      UniqueKeys w.db.entries → Ends cfg uid did e env w r → UniqueKeys r.2.db.entries
  unfolding write_insert updated_work new_row updated_row
  upsert-UniqueKeys h (refused reason same) u c t = rw same (h u c t)
  upsert-UniqueKeys h (updated row found _ _ _ _ _ k) u c t =
      let (removals, _, same) = write_update-ok uid did e env row w r k in
      let moved =
        count-update_first (is_key uid e.client_id e.entry_type) (is_key u c t)
          (updated_row did e env.now) w.db.entries row found in
      rw same (ground (arith, moved, h u c t))
  upsert-UniqueKeys h (inserted found _ _ _ _ k) u c t = rw (← ok-injective k) (
      ground (
        arith,
        h u c t,
        first_where-none (is_key uid e.client_id e.entry_type) w.db.entries found,
        count-congr (is_key u c t) (is_key uid e.client_id e.entry_type) w.db.entries,
      ))

  upsert-others :
      (rows : List SyncEntry)
      → rows_where (is_others uid) w.db.entries ≡ rows
      → Ends cfg uid did e env w r
      → rows_where (is_others uid) r.2.db.entries ≡ rows
  unfolding write_insert updated_work new_row updated_row
  upsert-others rows h (refused reason same) = rw same h
  upsert-others rows h (updated row found _ _ _ _ _ k) =
      let (removals, _, same) = write_update-ok uid did e env row w r k in
      rw same (
        rows-update_first (is_key uid e.client_id e.entry_type) (is_others uid) _ w.db.entries
          (λ x key. ground arith)
        ∙ h)
  upsert-others rows h (inserted found _ _ _ _ k) = rw (← ok-injective k) (ground arith)

  upsert-BareTombstones :
      BareTombstones w.db.entries → Ends cfg uid did e env w r → BareTombstones r.2.db.entries
  unfolding write_insert updated_work
  upsert-BareTombstones h (refused reason same) = rw same h
  upsert-BareTombstones h (updated row found _ _ _ _ _ k) =
      let (removals, _, same) = write_update-ok uid did e env row w r k in
      rw same λ s m d. elim (In-update_first _ _ w.db.entries s m) [
        | inl old ↦ h s old d
        | inr (x, _, q) ↦ rw q (updated_row-IsBare did e env.now x (rw q at d))
      ]
  upsert-BareTombstones h (inserted found _ _ _ _ k) = rw (← ok-injective k) λ s m d. elim m [
    | inl q ↦ rw (← q) (new_row-IsBare uid did e env (rw (← q) at d))
    | inr old ↦ h s old d
  ]

module _ (cfg : Limits) (uid did : ℕ) (env : ℕ → Env) (es : List PushEntry) (db : Db) where
  -- A push keeps at most one row for each account, entry id and type.
  pub push-UniqueKeys :
      UniqueKeys db.entries → UniqueKeys (push_entries cfg uid did env es db).1.entries
  push-UniqueKeys h =
      push_induction cfg uid did (λ w. UniqueKeys w.db.entries)
        (record { at = upsert-UniqueKeys cfg uid did }) (λ d. UniqueKeys d.entries) (λ w p. p) env
        es db h

  -- A push leaves the rows of every other account as they were, in their order.
  pub push-others :
      rows_where (is_others uid) (push_entries cfg uid did env es db).1.entries
      ≡ rows_where (is_others uid) db.entries
  push-others =
      push_induction cfg uid did
        (λ w. rows_where (is_others uid) w.db.entries ≡ rows_where (is_others uid) db.entries)
        (record {
          at = λ e v w r. upsert-others cfg uid did e v w r (rows_where (is_others uid) db.entries);
        })
        (λ d. rows_where (is_others uid) d.entries ≡ rows_where (is_others uid) db.entries)
        (λ w p. p) env es db refl

  -- If no stored tombstone holds ciphertext, wrapped keys or a blob, none does after a push.
  pub push-BareTombstones :
      BareTombstones db.entries → BareTombstones (push_entries cfg uid did env es db).1.entries
  push-BareTombstones h =
      push_induction cfg uid did (λ w. BareTombstones w.db.entries)
        (record { at = upsert-BareTombstones cfg uid did }) (λ d. BareTombstones d.entries)
        (λ w p. p) env es db h
