-- ===== src/Sync/Pull/Everything.antt =====
-- A device that pulls again from each cursor until there is none has received everything.
use rover_tools_orange_copy.Sync.Pull.Rounds.{
  Covers, pull_complete, Answers, Answers-view, IsTimeOf, view,
}
use rover_tools_orange_copy.Store.{SpaceMembership, SpaceEntryRemoval, SyncEntry, Db, EntryType}
use rover_tools_orange_copy.Prelude.{
  false, false≢true, sym, ◌∙◌, Option-cases, ap, inr, subst, In-rows_where, count-append, inl, In,
  map, true, ◌<◌, refl, arith, rows_where, ◌&&◌, leb, not, zero, [], some, ◌≡◌, any_where,
  count_where, suc, ◌++◌, Bool, none, ◌∷◌, ◌+◌, List, ◌≤◌, Option, ℕ,
}
use rover_tools_orange_copy.Sync.Pull.{
  is_unreadable, of_type, memberships_of, entry_arm, removal_arm, Pulled, is_visible,
  visible_entries, visible_removals, pull_entries,
}
use mathlib.Core.Option

module _ (uid limit : ℕ) (kind : Option EntryType) (db : Db) where
  -- The rounds of a device, each from the cursor that the one before returned. `none` stands for a
  -- pull that fails, and for fuel that has run out.
  pub pull_all : ℕ → ℕ → Option (List Pulled)
  pull_all zero after = none
  pull_all (suc fuel) after =
      Option.bind (pull_entries uid after limit kind db)
        λ p. elim p.next [ none ↦ some (p ∷ []) | some c ↦ Option.map (◌∷◌ p) (pull_all fuel c) ]

  abbrev pub received : List Pulled → List SyncEntry
  received [] = []
  received (p ∷ ps) = p.entries ++ received ps

  abbrev pub withdrawn : List Pulled → List SpaceEntryRemoval
  withdrawn [] = []
  withdrawn (p ∷ ps) = p.removals ++ withdrawn ps

  -- How many rows are still to come.
  unfoldable pub remaining : ℕ → ℕ
  remaining after =
      count_where (λ _. true) (visible_entries uid after kind db)
      + count_where (λ _. true) (visible_removals uid after kind db)

-- The rows later than a cursor are those that the cursor leaves over.
module _ (uid : ℕ) (kind : Option EntryType) (db : Db) (after c : ℕ) (later : after ≤ c) where
  arms-split :
      (r : SyncEntry) (ms : List SpaceMembership)
      → any_where (entry_arm c r) ms ≡ (not (leb r.server_ts c) && any_where (entry_arm after r) ms)
  arms-split r [] = ground arith
  arms-split r (m ∷ ms) = ground (arith, arms-split r ms)

  visible-split :
      (p : SyncEntry → Bool)
      → count_where p (visible_entries uid after kind db)
        ≡ count_where (λ r. leb r.server_ts c && p r) (visible_entries uid after kind db)
          + count_where p (visible_entries uid c kind db)
  unfolding visible_entries is_visible
  visible-split p = go db.entries
    where
      go :
          (rows : List SyncEntry)
          → count_where p (
              rows_where
                (λ (r : SyncEntry).
                  is_visible uid (memberships_of uid db) after r && of_type kind r.entry_type)
                rows)
            ≡ count_where
                (λ r. leb r.server_ts c && p r)
                (rows_where
                  (λ (r : SyncEntry).
                    is_visible uid (memberships_of uid db) after r && of_type kind r.entry_type)
                  rows)
              + count_where p (
                  rows_where
                    (λ (r : SyncEntry).
                      is_visible uid (memberships_of uid db) c r && of_type kind r.entry_type)
                    rows)
      go [] = refl
      go (r ∷ rows) = ground (arith, arms-split r (memberships_of uid db), go rows)

  removal-arms-split :
      (r : SpaceEntryRemoval) (ms : List SpaceMembership)
      → any_where (removal_arm c r) ms
        ≡ (not (leb r.server_ts c) && any_where (removal_arm after r) ms)
  removal-arms-split r [] = ground arith
  removal-arms-split r (m ∷ ms) = ground (arith, removal-arms-split r ms)

  removals-split :
      (p : SpaceEntryRemoval → Bool)
      → count_where p (visible_removals uid after kind db)
        ≡ count_where (λ r. leb r.server_ts c && p r) (visible_removals uid after kind db)
          + count_where p (visible_removals uid c kind db)
  unfolding visible_removals
  removals-split p = go db.removals
    where
      go :
          (rows : List SpaceEntryRemoval)
          → count_where p (
              rows_where
                (λ (r : SpaceEntryRemoval).
                  any_where (removal_arm after r) (memberships_of uid db)
                  && of_type kind r.entry_type)
                rows)
            ≡ count_where
                (λ r. leb r.server_ts c && p r)
                (rows_where
                  (λ (r : SpaceEntryRemoval).
                    any_where (removal_arm after r) (memberships_of uid db)
                    && of_type kind r.entry_type)
                  rows)
              + count_where p (
                  rows_where
                    (λ (r : SpaceEntryRemoval).
                      any_where (removal_arm c r) (memberships_of uid db)
                      && of_type kind r.entry_type)
                    rows)
      go [] = refl
      go (r ∷ rows) = ground (arith, removal-arms-split r (memberships_of uid db), go rows)

any-none : {A : Type 0} (p : A → Bool) (xs : List A) → any_where p xs ≡ false → count_where p xs ≡ 0
any-none p [] h = refl
any-none p (x ∷ xs) h = ground (arith, h, any-none p xs)

none-any : {A : Type 0} (p : A → Bool) (xs : List A) → count_where p xs ≡ 0 → any_where p xs ≡ false
none-any p [] h = refl
none-any p (x ∷ xs) h = ground (arith, h, none-any p xs)

count-pos :
    {A : Type 0} (p : A → Bool) (x : A) (xs : List A) → In x xs → p x ≡ true → 1 ≤ count_where p xs
count-pos p x [] m h = elim m [ ]
count-pos p x (y ∷ xs) (inl e) h = rw (e, h) (omega arith)
count-pos p x (y ∷ xs) (inr m) h = omega (arith, count-pos p x xs m h)

count-map :
    {A B : Type 0} (f : A → B) (p : B → Bool) (xs : List A)
    → count_where p (map f xs) ≡ count_where (λ x. p (f x)) xs
count-map f p [] = refl
count-map f p (x ∷ xs) = omega (arith, count-map f p xs)

-- Every row of a stream is later than the cursor that it was asked for.
arms_later :
    (after : ℕ) (r : SyncEntry) (ms : List SpaceMembership)
    → any_where (entry_arm after r) ms ≡ true
    → after < r.server_ts
arms_later after r [] h = cc
arms_later after r (m ∷ ms) h = ground (arith, arms_later after r ms)

removal-arms_later :
    (after : ℕ) (r : SpaceEntryRemoval) (ms : List SpaceMembership)
    → any_where (removal_arm after r) ms ≡ true
    → after < r.server_ts
removal-arms_later after r [] h = cc
removal-arms_later after r (m ∷ ms) h = ground (arith, removal-arms_later after r ms)

module _ (uid : ℕ) (kind : Option EntryType) (db : Db) (after : ℕ) where
  visible_later : (x : SyncEntry) → In x (visible_entries uid after kind db) → after < x.server_ts
  unfolding visible_entries is_visible
  visible_later x m =
      let seen = (In-rows_where _ x db.entries m).1 in
      ground (arith, seen, arms_later after x (memberships_of uid db))

  removals_later :
      (x : SpaceEntryRemoval) → In x (visible_removals uid after kind db) → after < x.server_ts
  unfolding visible_removals
  removals_later x m =
      let seen = (In-rows_where _ x db.removals m).1 in
      ground (arith, seen, removal-arms_later after x (memberships_of uid db))

  -- The rounds go forward, and leave less to come.
  progress :
      (limit c : ℕ)
      → IsTimeOf
          (λ (r : SyncEntry). r.server_ts)
          (λ (r : SpaceEntryRemoval). r.server_ts)
          (visible_entries uid after kind db)
          (visible_removals uid after kind db)
          (some c)
      → (after < c) × (remaining uid limit kind db c < remaining uid limit kind db after)
  unfolding remaining
  progress limit c (inl (x, m, e)) =
      let forward : after < c = subst (λ n. after < n) e (visible_later x m) in
      (
        forward,
        omega (
          arith,
          visible-split uid kind db after c (omega arith) (λ _. true),
          removals-split uid kind db after c (omega arith) (λ _. true),
          count-pos (λ r. leb r.server_ts c && true) x (visible_entries uid after kind db) m
              (ground arith),
        ),
      )
  progress limit c (inr (x, m, e)) =
      let forward : after < c = subst (λ n. after < n) e (removals_later x m) in
      (
        forward,
        omega (
          arith,
          visible-split uid kind db after c (omega arith) (λ _. true),
          removals-split uid kind db after c (omega arith) (λ _. true),
          count-pos (λ r. leb r.server_ts c && true) x (visible_removals uid after kind db) m
              (ground arith),
        ),
      )

-- Everything that the caller may see has been handed over, in the form that it may be seen in.
pub record IsEverything (uid after : ℕ) (limit : ℕ) (kind : Option EntryType) (db : Db)
    (ps : List Pulled) : Type 0 where
  pub entries :
      (p : SyncEntry → Bool)
      → count_where (λ r. p (view uid after limit kind db r)) (visible_entries uid after kind db)
        ≤ count_where p (received uid limit kind db ps)
  pub removals :
      (p : SpaceEntryRemoval → Bool)
      → count_where p (visible_removals uid after kind db)
        ≤ count_where p (withdrawn uid limit kind db ps)

module _ (uid limit : ℕ) (kind : Option EntryType) (db : Db) where
  last_round :
      (after : ℕ) (p : Pulled)
      → Answers uid after limit kind db p
      → p.next ≡ none
      → IsEverything uid after limit kind db (p ∷ [])
  last_round after p a e = record {
    entries = λ q. omega (
      arith,
      count-append q p.entries [],
      ap (count_where q) (Answers-view uid after limit kind db p a),
      count-map (view uid after limit kind db) q a.rows,
      (subst (Covers (λ r. r.server_ts) (visible_entries uid after kind db) a.rows) e a.entries)
          (λ r. q (view uid after limit kind db r)),
    );
    removals = λ q. omega (
      arith,
      count-append q p.removals [],
      (subst (Covers (λ r. r.server_ts) (visible_removals uid after kind db) p.removals) e
            a.removals)
          q,
    );
  }

  one_more :
      (after c : ℕ) (p : Pulled) (ps : List Pulled)
      → Answers uid after limit kind db p
      → p.next ≡ some c
      → after ≤ c
      → IsEverything uid c limit kind db ps
      → IsEverything uid after limit kind db (p ∷ ps)
  one_more after c p ps a e h rest = record {
    entries = λ q. omega (
      arith,
      count-append q p.entries (received uid limit kind db ps),
      ap (count_where q) (Answers-view uid after limit kind db p a),
      count-map (view uid after limit kind db) q a.rows,
      visible-split uid kind db after c h (λ r. q (view uid after limit kind db r)),
      rest.entries q,
      (subst (Covers (λ r. r.server_ts) (visible_entries uid after kind db) a.rows) e a.entries)
          (λ r. q (view uid after limit kind db r)),
    );
    removals = λ q. omega (
      arith,
      count-append q p.removals (withdrawn uid limit kind db ps),
      removals-split uid kind db after c h q,
      rest.removals q,
      (subst (Covers (λ r. r.server_ts) (visible_removals uid after kind db) p.removals) e
            a.removals)
          q,
    );
  }

  -- What is readable from one cursor on is readable from a later one on.
  readable_later :
      (after c : ℕ)
      → after ≤ c
      → any_where (is_unreadable uid) (visible_entries uid after kind db) ≡ false
      → any_where (is_unreadable uid) (visible_entries uid c kind db) ≡ false
  readable_later after c h ok = none-any _ (visible_entries uid c kind db) (
      omega (
        arith,
        any-none _ (visible_entries uid after kind db) ok,
        visible-split uid kind db after c h (is_unreadable uid),
      ))

  -- A device that pulls, at a limit of at least one, from each cursor that it is given until it is
  -- given none, is done after at most one round more than there are rows to come; by then it has
  -- received every visible entry and removal later than its first cursor, as often as there are
  -- such rows, provided that the tables did not change meanwhile and that no such entry of another
  -- account has wraps at which `json.loads` raises an error that nobody catches.
  pub pull_all_complete :
      (fuel after : ℕ)
      → 1 ≤ limit
      → any_where (is_unreadable uid) (visible_entries uid after kind db) ≡ false
      → remaining uid limit kind db after < fuel
      → (ps : List Pulled) × (pull_all uid limit kind db fuel after ≡ some ps)
        × IsEverything uid after limit kind db ps
  unfolding pull_all Option.bind
  pull_all_complete zero after h ok f = absurd (omega arith)
  pull_all_complete (suc fuel) after h ok f = elim (pull_complete uid after limit kind db h) [
    | inr (k, bad) ↦ absurd (false≢true (sym ok ∙ bad))
    | inl (p, k, a) ↦ elim (Option-cases p.next) [
      | inl e ↦ (p ∷ [], ground (arith, k, e), last_round after p a e)
      | inr (c, e) ↦
          let (forward, less) = progress uid kind db after limit c (
            subst
              (IsTimeOf _ _ (visible_entries uid after kind db)
                (visible_removals uid after kind db))
              e a.time) in
          let (ps, l, all) =
            pull_all_complete fuel c h (readable_later after c (omega arith) ok) (omega arith) in
          (p ∷ ps, ground (arith, k, e, l), one_more after c p ps a e (omega arith) all)
    ]
  ]
