-- ===== src/Realtime/Views.antt =====
-- `_trim_entry_for` of src/realtime.py: a `sync:entry` event as one socket may see it. The payload
-- of the event is the row that the push has stored.
use rover_tools_orange_copy.Prelude.{
  ℕ, Bool, Option, false, none, some, List, [], ◌∷◌, ◌==◌, ◌||◌, if◌then◌else◌, elem, map,
  rows_where, ◌≡◌, refl, arith, Bool-cases, inl, inr, ap, ◌∙◌,
}
use mathlib.Core.Option
use rover_tools_orange_copy.Realtime.{
  Channel, same_channel, Hub, or_empty, on_channel, empty_hub, resolve_channels,
}
use rover_tools_orange_copy.Realtime.Index.{run-Represents, empty-Represents}
use rover_tools_orange_copy.Realtime.Registry.{Call, run, spec_run, AreFresh}
use rover_tools_orange_copy.Store.{SyncEntry, Db, SpaceMembership}
use rover_tools_orange_copy.Store.Wraps.{trim}
use rover_tools_orange_copy.Sync.Pull.{entry_view, spaces_in, memberships_of}

-- `_trim_entry_for`; `none` is an error of `json.loads` that it does not catch.
unfoldable pub trim_entry_for : ℕ → SyncEntry → Hub → Option SyncEntry
unfolding trim
trim_entry_for ws r hub =
    if on_channel (Channel.of_user r.user_id) mine
    then some r
    else Option.map (λ k. record r { space_ids = shown; wrapped_keys = k })
        (trim shown r.wrapped_keys)
  where
    mine : List Channel
    mine = or_empty (hub.ws_channels ws)

    shown : List ℕ
    shown = rows_where (λ s. on_channel (Channel.of_space s) mine) r.space_ids

on-space :
    (s : ℕ) (ms : List SpaceMembership)
    → on_channel
        (Channel.of_space s)
        (map (λ (m : SpaceMembership). Channel.of_space m.space_id) ms)
      ≡ elem s (spaces_in ms)
on-space s [] = refl
on-space s (m ∷ ms) = ground (arith, on-space s ms)

off-user :
    (u : ℕ) (ms : List SpaceMembership)
    → on_channel (Channel.of_user u) (map (λ (m : SpaceMembership). Channel.of_space m.space_id) ms)
      ≡ false
off-user u [] = refl
off-user u (m ∷ ms) = off-user u ms

rows_where_congr :
    {A : Type 0} (p q : A → Bool) (xs : List A)
    → ((x : A) → p x ≡ q x)
    → rows_where p xs ≡ rows_where q xs
rows_where_congr p q [] h = refl
rows_where_congr p q (x ∷ xs) h = elim (Bool-cases (q x)) [
  | inl e ↦ rw (h x, e) (ap (λ ys. x ∷ ys) (rows_where_congr p q xs h))
  | inr e ↦ rw (h x, e) (rows_where_congr p q xs h)
]

-- An entry of which the reader is the author or not, and what of its spaces is shown.
abbrev view : SyncEntry → Bool → List ℕ → Option SyncEntry
view r own shown =
    if own
    then some r
    else Option.map (λ k. record r { space_ids = shown; wrapped_keys = k })
        (trim shown r.wrapped_keys)

on_channel-resolve_channels :
    (c : Channel) (uid : ℕ) (db : Db)
    → on_channel c (resolve_channels uid db) ≡ (
        same_channel c (Channel.of_user uid)
        || (same_channel c Channel.broadcast
            || on_channel c (
                map
                  (λ (m : SpaceMembership). Channel.of_space m.space_id)
                  (memberships_of uid db))))
unfolding resolve_channels
on_channel-resolve_channels c uid db = refl

trim-resolved :
    (ws uid : ℕ) (r : SyncEntry) (db : Db) (hub : Hub)
    → hub.ws_channels ws ≡ some (resolve_channels uid db)
    → trim_entry_for ws r hub ≡ entry_view uid (spaces_in (memberships_of uid db)) r
unfolding trim_entry_for entry_view resolve_channels
trim-resolved ws uid r db hub h =
    ap
      (λ mine.
        view r (on_channel (Channel.of_user r.user_id) (or_empty mine))
          (rows_where (λ s. on_channel (Channel.of_space s) (or_empty mine)) r.space_ids))
      h
    ∙ ap
        (λ own.
          view r own (
            rows_where (λ s. on_channel (Channel.of_space s) (resolve_channels uid db))
              r.space_ids))
        (ground (
          arith,
          on_channel-resolve_channels (Channel.of_user r.user_id) uid db,
          off-user r.user_id (memberships_of uid db),
        ))
    ∙ ap (view r (r.user_id == uid)) (
        rows_where_congr _ _ r.space_ids λ s. ground (
          arith,
          on_channel-resolve_channels (Channel.of_space s) uid db,
          on-space s (memberships_of uid db),
        ))

-- After calls of `_register`, `_rebind` and `_unregister` in which a socket that is registered is not
-- on the hub already, if the last for a socket put it on the channels that the memberships of its
-- user imply, then an event shows it of an entry exactly what a pull shows that user.
pub trim_entry_for-entry_view :
    (cs : List Call) (ws device uid : ℕ) (r : SyncEntry) (db : Db)
    → AreFresh cs (λ w. none)
    → spec_run cs (λ w. none) ws ≡ some (device, resolve_channels uid db)
    → trim_entry_for ws r (run cs empty_hub) ≡ entry_view uid (spaces_in (memberships_of uid db)) r
trim_entry_for-entry_view cs ws device uid r db fresh last =
    let represents = run-Represents cs empty_hub (λ w. none) fresh empty-Represents in
    trim-resolved ws uid r db (run cs empty_hub)
      (represents.asked ws ∙ ap (Option.map (λ e. e.1)) last)
