-- ===== src/Sync/Account/Cursor.antt =====
-- Cursors only move forward, and only their account moves them.
use rover_tools_orange_copy.Store.{SyncCursor}
use rover_tools_orange_copy.Prelude.{
  refl, [], inr, arith, inl, ltb, ◌∷◌, Option-cases, false, true, ◌&&◌, any_where, max, none,
  update_first, Bool, if◌then◌else◌, some, ◌==◌, first_where, Option, ◌≡◌, List, ℕ,
}
use rover_tools_orange_copy.Sync.Account.{update_cursor}

-- The cursor of the device, if it has one.
abbrev pub cursor_of : ℕ → List SyncCursor → Option SyncCursor
cursor_of did = first_where (λ (c : SyncCursor). c.device_id == did)

-- What a stored cursor becomes: its own account moves it to a later position, nobody else does.
abbrev pub moved_to : ℕ → ℕ → SyncCursor → SyncCursor
moved_to uid last c =
    if c.user_id == uid then record c { last_server_ts = max c.last_server_ts last } else c

any_where-none :
    {A : Type 0} (p : A → Bool) (xs : List A) → first_where p xs ≡ none → any_where p xs ≡ false
any_where-none p [] h = refl
any_where-none p (x ∷ xs) h = ground (arith, any_where-none p xs)

any_where-some :
    {A : Type 0} (p : A → Bool) (xs : List A) (x : A)
    → first_where p xs ≡ some x
    → any_where p xs ≡ true
any_where-some p [] x h = cc
any_where-some p (y ∷ xs) x h = ground (arith, any_where-some p xs x)

-- The update in place, seen through the cursor of any device.
at_cursor :
    (did uid last other : ℕ) (rows : List SyncCursor) (c : SyncCursor)
    → cursor_of did rows ≡ some c
    → cursor_of other (
        update_first
          (λ (d : SyncCursor). d.device_id == did)
          (λ d.
            if d.user_id == uid && ltb d.last_server_ts last
            then record d { last_server_ts = last }
            else d)
          rows)
      ≡ (if other == did then some (moved_to uid last c) else cursor_of other rows)
at_cursor did uid last other [] c e = cc
at_cursor did uid last other (x ∷ rows) c e = ground (arith, at_cursor did uid last other rows c)

-- After an update a device without a cursor has the caller's, at the position given; a stored
-- cursor of the caller is at the later of the two positions, another account's is as it was; and
-- no other device's cursor has changed.
pub update_cursor_moves :
    (did uid last other : ℕ) (rows : List SyncCursor)
    → cursor_of other (update_cursor did uid last rows) ≡ (
        if other == did
        then elim (cursor_of did rows) [
          | none ↦ some (record { device_id = did; user_id = uid; last_server_ts = last })
          | some c ↦ some (moved_to uid last c)
        ]
        else cursor_of other rows)
unfolding update_cursor
update_cursor_moves did uid last other rows = elim (Option-cases (cursor_of did rows)) [
  | inl e ↦ rw (e, any_where-none _ rows e) (ground arith)
  | inr (c, e) ↦
      rw (e, any_where-some _ rows c e) (ground (arith, at_cursor did uid last other rows c e))
]
