-- ===== src/Sync/Push/Rivals.antt =====
-- Nobody's entry is impersonated: rows of two accounts under one entry id never meet in a space.
use rover_tools_orange_copy.Sync.Upsert.{write_insert, updated_work}
use rover_tools_orange_copy.Sync.Push.Cases.{inserted, updated, refused, Ends, write_update-ok}
use rover_tools_orange_copy.Sync.Push.Loop.{push_induction}
use rover_tools_orange_copy.Sync.Push.{push_entries}
use rover_tools_orange_copy.Sync.Entry.{
  Outcome, Work, Limits, added_to, is_key, is_rival, new_row, updated_row, PushEntry,
  belongs_to_someone_else,
}
use rover_tools_orange_copy.Store.{Db, Env, same_type, SyncEntry}
use rover_tools_orange_copy.Prelude.{
  In-update_first, ◌∙◌, inr, inl, ok-injective, first_where-In, ◌⊎◌, update_first, some,
  first_where, overlap, overlap-update, [], any_where-In, overlap_comm, not, ◌&&◌, ◌∷◌, arith,
  false, true, ◌==◌, Bool, In, ◌≡◌, List, ℕ,
}

-- The rows are of two accounts, under one client id and type, and share a space.
abbrev pub clash : SyncEntry → SyncEntry → Bool
clash r s =
    r.client_id == s.client_id
    && same_type r.entry_type s.entry_type
    && not (r.user_id == s.user_id)
    && overlap r.space_ids s.space_ids

abbrev pub NoRivals : List SyncEntry → Type 0
NoRivals rows = (r s : SyncEntry) → In r rows → In s rows → clash r s ≡ false

clash_comm : (r s : SyncEntry) → clash r s ≡ clash s r
clash_comm r s = ground (arith, overlap_comm r.space_ids s.space_ids)

-- The rival check of a push clears the row that it writes against every row of the table.
cleared :
    (db : Db) (uid : ℕ) (e : PushEntry) (spaces : List ℕ) (s : SyncEntry)
    → belongs_to_someone_else db uid e spaces ≡ false
    → In s db.entries
    → is_rival uid e spaces s ≡ false
unfolding belongs_to_someone_else
cleared db uid e [] s h m = ground (arith, overlap_comm s.space_ids [])
cleared db uid e (x ∷ xs) s h m = any_where-In (is_rival uid e (x ∷ xs)) db.entries s m h

-- A row of the entry's key, in spaces that pass the check.
module _ (uid did : ℕ) (e : PushEntry) (env : Env) where
  insert-clash :
      (s : SyncEntry)
      → is_rival uid e e.space_ids s ≡ false
      → clash s (new_row uid did e env) ≡ false
  unfolding new_row
  insert-clash s h = ground (arith)

  update-clash :
      (row s : SyncEntry)
      → is_key uid e.client_id e.entry_type row ≡ true
      → clash s row ≡ false
      → is_rival uid e (added_to row.space_ids e) s ≡ false
      → clash s (updated_row did e env.now row) ≡ false
  unfolding updated_row
  update-clash row s key old h =
      ground (arith, overlap-update s.space_ids row.space_ids e.space_ids)

self-clash : (r : SyncEntry) → clash r r ≡ false
self-clash r = ground arith

-- A table stays free of rivals if one row is added that clashes with none.
cons-NoRivals :
    (x : SyncEntry) (rows : List SyncEntry)
    → NoRivals rows
    → ((s : SyncEntry) → In s rows → clash s x ≡ false)
    → NoRivals (x ∷ rows)
cons-NoRivals x rows h new r s (inl p) (inl q) = rw (← p, ← q) (self-clash x)
cons-NoRivals x rows h new r s (inl p) (inr n) = rw (← p) (clash_comm x s ∙ new s n)
cons-NoRivals x rows h new r s (inr m) (inl q) = rw (← q) (new r m)
cons-NoRivals x rows h new r s (inr m) (inr n) = h r s m n

-- Or if one row is changed so that it clashes with none.
update-NoRivals :
    (p : SyncEntry → Bool) (f : SyncEntry → SyncEntry) (rows : List SyncEntry) (x : SyncEntry)
    → first_where p rows ≡ some x
    → NoRivals rows
    → ((s : SyncEntry) → In s rows → clash s (f x) ≡ false)
    → NoRivals (update_first p f rows)
update-NoRivals p f rows x found h new r s m n =
    both (In-update_first p f rows r m) (In-update_first p f rows s n)
  where
    is_fx : (z y : SyncEntry) → first_where p rows ≡ some z → y ≡ f z → y ≡ f x
    is_fx z y e q = ground arith

    both :
        (In r rows ⊎ ((z : SyncEntry) × (first_where p rows ≡ some z) × (r ≡ f z)))
        → (In s rows ⊎ ((z : SyncEntry) × (first_where p rows ≡ some z) × (s ≡ f z)))
        → clash r s ≡ false
    both (inl a) (inl b) = h r s a b
    both (inl a) (inr (z, e, q)) = rw (is_fx z s e q) (new r a)
    both (inr (z, e, q)) (inl b) = rw (is_fx z r e q) (clash_comm (f x) s ∙ new s b)
    both (inr (z, e, q)) (inr (y, e', q')) = rw (is_fx z r e q, is_fx y s e' q') (self-clash (f x))

module _ (cfg : Limits) (uid did : ℕ) where
  upsert-NoRivals :
      (e : PushEntry) (env : Env) (w : Work) (r : Outcome × List ℕ × Work)
      → NoRivals w.db.entries
      → Ends cfg uid did e env w r
      → NoRivals r.2.db.entries
  unfolding write_insert updated_work
  upsert-NoRivals e env w r h (refused reason same) = rw same h
  upsert-NoRivals e env w r h (updated row found _ _ _ rival _ k) =
      let (removals, _, same) = write_update-ok uid did e env row w r k in
      let (stored, key) =
        first_where-In (is_key uid e.client_id e.entry_type) w.db.entries row found in
      rw same (
        update-NoRivals _ _ w.db.entries row found h λ s m.
          update-clash uid did e env row s key (h s row m stored)
            (cleared w.db uid e (added_to row.space_ids e) s rival m))
  upsert-NoRivals e env w r h (inserted _ _ _ rival _ k) = rw (← ok-injective k) (
      cons-NoRivals _ w.db.entries h
        λ s m. insert-clash uid did e env s (cleared w.db uid e e.space_ids s rival m))

  -- If no two accounts' rows under one entry id share a space, then no push brings that about,
  -- whether it is committed or rolled back.
  pub push-NoRivals :
      (env : ℕ → Env) (es : List PushEntry) (db : Db)
      → NoRivals db.entries
      → NoRivals (push_entries cfg uid did env es db).1.entries
  push-NoRivals env es db h =
      push_induction cfg uid did (λ w. NoRivals w.db.entries) (record { at = upsert-NoRivals })
        (λ d. NoRivals d.entries) (λ w p. p) env es db h
