-- ===== src/Spaces/Takedown/Gone.antt =====
-- What a takedown leaves behind.
use rover_tools_orange_copy.Sync.Removals.{record_space_removals}
use mathlib.Core.Option
use rover_tools_orange_copy.Sync.Entry.{is_key}
use rover_tools_orange_copy.Sync.Recorded.{record-IsRecorded, IsRecorded}
use rover_tools_orange_copy.Spaces.Members.{membership_of, find_space}
use rover_tools_orange_copy.Prelude.{
  [], first-update_where, rows_where-In, In-any_where, ◌∙◌, any-rows_where, first_where-In,
  ok-injective, ap, >>=-returned, guard-cases, or_err-cases, if◌then◌else◌, first_where, ◌&&◌,
  is_some, ==_iff, some, sym, ok, subst, inr, inl, Bool-cases, refl, [], min, arith, true,
  update_where, ◌||◌, ◌∷◌, any_where, not, ◌==◌, false, rows_where, elem, ◌≡◌, Bool, List, ℕ,
}
use rover_tools_orange_copy.Spaces.Takedown.Outside.{is_taken, outside, strip-outside}
use rover_tools_orange_copy.Store.{Db, Env, EntryType, Space, SyncEntry}
use rover_tools_orange_copy.Spaces.Takedown.{
  taken_author, takedown_record, strip, may_take, author_of, remove_entry_from_space, lowest,
}

elem-removed : (a : ℕ) (xs : List ℕ) → elem a (rows_where (λ t. not (t == a)) xs) ≡ false
elem-removed a [] = refl
elem-removed a (x ∷ xs) = ground (arith, elem-removed a xs)

any-update_where :
    {A : Type 0} (p : A → Bool) (f : A → A) (xs : List A)
    → ((x : A) → p (f x) ≡ false)
    → any_where p (update_where p f xs) ≡ false
any-update_where p f [] h = refl
any-update_where p f (x ∷ xs) h = ground (arith, h x, any-update_where p f xs h)

lowest-In :
    (a : ℕ) (rs : List SyncEntry)
    → (lowest a rs == a || any_where (λ (r : SyncEntry). r.user_id == lowest a rs) rs) ≡ true
lowest-In a [] = ground arith
lowest-In a (r ∷ rs) = ground (arith, lowest-In (min a r.user_id) rs)

-- The author named is the author of one of the rows.
author_of-In :
    (uid first : ℕ) (matched : List SyncEntry)
    → any_where (λ (r : SyncEntry). r.user_id == first) matched ≡ true
    → any_where (λ (r : SyncEntry). r.user_id == author_of uid first matched) matched ≡ true
author_of-In uid first matched h =
    elim (Bool-cases (any_where (λ (r : SyncEntry). r.user_id == uid) matched)) [
      | inl e ↦ rw e e
      | inr e ↦ rw e (elim (Bool-cases (lowest first matched == first)) [
        | inl same ↦
            subst (λ a. any_where (λ (r : SyncEntry). r.user_id == a) matched ≡ true)
              (sym ((==_iff (lowest first matched) first).0 same)) h
        | inr other ↦ ground (arith, other, lowest-In first matched)
      ])
    ]

strip-gone :
    (s : Space) (uid client : ℕ) (t : EntryType) (now : ℕ) (r : SyncEntry)
    → may_take s uid client t (strip s.id now r) ≡ false
strip-gone s uid client t now r = ground (arith, elem-removed s.id r.space_ids)

-- If a takedown returns, then the caller owns the space or is in it; afterwards the space carries
-- no row of the entry that the caller may take down, so none at all for the owner; the author named
-- is that of a row taken down; the removal is on record with this author, the caller and the time;
-- and every row of the table is as before, except that those rows are out of the space, have lost
-- its wrap, unless that is null, and have the time of the takedown.
pub remove_entry_from_space_gone :
    (space client : ℕ) (t : EntryType) (uid : ℕ) (env : Env) (db db' : Db) (author : ℕ)
    (who other : ℕ) (kind : EntryType)
    → remove_entry_from_space space client t uid env db ≡ ok (author, db')
    → (s : Space) × (find_space space db ≡ some s)
      × ((s.owner_id == uid || is_some (membership_of space uid db)) ≡ true)
      × (any_where (is_taken s uid client t) db'.entries ≡ false)
      × (any_where (λ (r : SyncEntry). is_taken s uid client t r && r.user_id == author) db.entries
          ≡ true)
      × IsRecorded
          (record {
            id = 0;
            space_id = s.id;
            client_id = client;
            entry_type = t;
            author_id = author;
            removed_by = uid;
            server_ts = env.now;
          })
          s.id
          db'.removals
      × (first_where (is_key who other kind) db'.entries
          ≡ Option.map
              (λ r. if is_taken s uid client t r then outside s.id env.now r else r)
              (first_where (is_key who other kind) db.entries))
unfolding remove_entry_from_space
remove_entry_from_space_gone space client t uid env db db' author who other kind h =
    let (s, found, k) = or_err-cases (find_space space db) _ _ _ h in
    let (inside, k1) = guard-cases _ _ _ _ k in
    let (there, k2) = guard-cases _ _ _ _ k1 in
    let (r, mine, k3) = or_err-cases (first_where (may_take s uid client t) db.entries) _ _ _ k2 in
    let (readable, k3b) = guard-cases _ _ _ _ k3 in
    let (removals, written, k4) =
      >>=-returned
        (record_space_removals
          (takedown_record s.id client t (taken_author s uid client t r.user_id db) uid env.now)
          env.removal_id (s.id ∷ []) db.removals)
        _ k3b in
    let named : taken_author s uid client t r.user_id db ≡ author =
      ap (λ p. p.0) (ok-injective k4) in
    let wrote = ap (λ p. p.1) (ok-injective k4) in
    let target = may_take s uid client t in
    let (listed, ours) = first_where-In target db.entries r mine in
    (
      s,
      found,
      inside,
      subst (λ (d : Db). any_where target d.entries ≡ false) wrote
          (any-update_where target (strip s.id env.now) db.entries
            (strip-gone s uid client t env.now)),
      subst (λ a. any_where (λ (x : SyncEntry). target x && x.user_id == a) db.entries ≡ true) named
          (sym (
              any-rows_where target
                (λ (x : SyncEntry). x.user_id == taken_author s uid client t r.user_id db)
                db.entries)
            ∙ author_of-In uid r.user_id (rows_where target db.entries) (
                In-any_where (λ (x : SyncEntry). x.user_id == r.user_id) r
                  (rows_where target db.entries) (rows_where-In target r db.entries listed ours)
                  (ground arith))),
      subst
          (λ (d : Db).
            IsRecorded (takedown_record s.id client t author uid env.now) s.id d.removals)
          wrote
          (subst (λ a. IsRecorded (takedown_record s.id client t a uid env.now) s.id removals) named
            (record-IsRecorded
              (takedown_record s.id client t (taken_author s uid client t r.user_id db) uid env.now)
              env.removal_id (s.id ∷ []) s.id db.removals removals written (ground arith))),
      subst
          (λ (d : Db).
            first_where (is_key who other kind) d.entries
            ≡ Option.map (λ x. if target x then outside s.id env.now x else x)
                (first_where (is_key who other kind) db.entries))
          wrote
          (first-update_where target (is_key who other kind) (strip s.id env.now) db.entries
              (λ x. refl)
            ∙ strip-outside target s.id env.now (first_where (is_key who other kind) db.entries)),
    )
