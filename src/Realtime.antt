-- ===== src/Realtime.antt =====
-- The connection hub of src/realtime.py: which socket is on which channel, and the slots of a user.
-- A dict is a function to an optional value, and a set is a list.
pub mod Registry
pub mod Members
pub mod Index
pub mod Views
pub mod Presence
pub mod Sockets
pub mod Tests
use rover_tools_orange_copy.Prelude.{
  ◌+◌, ℕ, Bool, true, false, Option, none, some, List, [], ◌∷◌, ◌==◌, ◌&&◌, ◌||◌, not,
  if◌then◌else◌, eq_option, any_where, rows_where, delete_where, leb, map,
}
use rover_tools_orange_copy.Store.{Db, SpaceMembership}
use rover_tools_orange_copy.Spaces.Keys.{given}
use mathlib.Core.Option

-- The names of channels: "user:…", "space:…" and "broadcast:all".
pub data Channel : Type 0 where
  of_user : ℕ → Channel
  of_space : ℕ → Channel
  broadcast : Channel

abbrev pub same_channel : Channel → Channel → Bool
same_channel (of_user a) (of_user b) = a == b
same_channel (of_user a) (of_space b) = false
same_channel (of_user a) broadcast = false
same_channel (of_space a) (of_user b) = false
same_channel (of_space a) (of_space b) = a == b
same_channel (of_space a) broadcast = false
same_channel broadcast (of_user b) = false
same_channel broadcast (of_space b) = false
same_channel broadcast broadcast = true

-- A socket and its device.
abbrev pub Member : Type 0
Member = ℕ × ℕ

-- The four dicts of the hub.
pub record Hub : Type 0 where
  pub channels : Channel → Option (List Member)
  pub ws_channels : ℕ → Option (List Channel)
  pub ws_device : ℕ → Option ℕ
  pub user_sockets : ℕ → Option (List ℕ)

abbrev pub empty_hub : Hub
empty_hub = record {
  channels = λ c. none;
  ws_channels = λ w. none;
  ws_device = λ w. none;
  user_sockets = λ u. none;
}

abbrev pub or_empty : {A : Type 0} → Option (List A) → List A
or_empty none = []
or_empty (some xs) = xs

-- A set that is kept in a dict: its key goes when it is empty.
abbrev pub kept_set : {A : Type 0} → List A → Option (List A)
kept_set [] = none
kept_set (x ∷ xs) = some (x ∷ xs)

abbrev pub put : {A : Type 0} → ℕ → A → (ℕ → A) → ℕ → A
put k value f j = if j == k then value else f j

abbrev pub put_channel : {A : Type 0} → Channel → A → (Channel → A) → Channel → A
put_channel k value f c = if same_channel c k then value else f c

abbrev pub is_member : ℕ → Option ℕ → Member → Bool
is_member ws device m = m.0 == ws && eq_option (some m.1) device

abbrev pub on_channel : Channel → List Channel → Bool
on_channel c chs = any_where (same_channel c) chs

abbrev pub max_sockets_per_user : ℕ
max_sockets_per_user = 8

abbrev pub count : {A : Type 0} → List A → ℕ
count [] = 0
count (x ∷ xs) = 1 + count xs

abbrev pub add_socket : ℕ → List ℕ → List ℕ
add_socket ws held = if any_where (λ w. w == ws) held then held else ws ∷ held

-- `_reserve_slot`: whether a slot was free.
unfoldable pub reserve_slot : ℕ → ℕ → Hub → Bool × Hub
reserve_slot uid ws hub =
    if leb max_sockets_per_user (count (or_empty (hub.user_sockets uid))) then (false, hub) else (
      true,
      record hub {
        user_sockets =
            put uid (some (add_socket ws (or_empty (hub.user_sockets uid)))) hub.user_sockets;
      },
    )

-- `_release_slot`
unfoldable pub release_slot : ℕ → ℕ → Hub → Hub
release_slot uid ws hub = elim (hub.user_sockets uid) [
  | none ↦ hub
  | some held ↦ record hub {
    user_sockets = put uid (kept_set (delete_where (λ w. w == ws) held)) hub.user_sockets;
  }
]

-- The socket taken off one channel, and off each of a list.
abbrev pub leave_one :
    ℕ → Option ℕ → Channel → (Channel → Option (List Member)) → Channel → Option (List Member)
leave_one ws device ch channels =
    put_channel ch (kept_set (delete_where (is_member ws device) (or_empty (channels ch)))) channels

unfoldable pub leave :
    ℕ → Option ℕ → List Channel → (Channel → Option (List Member)) → Channel → Option (List Member)
leave ws device [] channels = channels
leave ws device (ch ∷ chs) channels = leave ws device chs (leave_one ws device ch channels)

abbrev pub add_member : ℕ → ℕ → List Member → List Member
add_member ws device held =
    if any_where (is_member ws (some device)) held then held else (ws, device) ∷ held

-- The socket put on one channel, and on each of a list.
abbrev pub join_one :
    ℕ → ℕ → Channel → (Channel → Option (List Member)) → Channel → Option (List Member)
join_one ws device ch channels =
    put_channel ch (some (add_member ws device (or_empty (channels ch)))) channels

unfoldable pub join :
    ℕ → ℕ → List Channel → (Channel → Option (List Member)) → Channel → Option (List Member)
join ws device [] channels = channels
join ws device (ch ∷ chs) channels = join ws device chs (join_one ws device ch channels)

-- The channels of the first list that the second lacks.
abbrev pub other_channels : List Channel → List Channel → List Channel
other_channels old wanted = delete_where (λ c. on_channel c wanted) old

-- `_bind_locked`
unfoldable pub bind_locked : ℕ → ℕ → List Channel → Hub → Hub
unfolding leave join
bind_locked ws device wanted hub = record hub {
  channels =
      join ws device wanted (
        leave ws (some device) (other_channels (or_empty (hub.ws_channels ws)) wanted)
          hub.channels);
  ws_channels = put ws (some wanted) hub.ws_channels;
  ws_device = put ws (some device) hub.ws_device;
}

-- `_register`
unfoldable pub register : ℕ → ℕ → List Channel → Hub → Hub
unfolding bind_locked
register ws device wanted hub = bind_locked ws device wanted hub

-- `_rebind`: nothing for a socket that has gone.
unfoldable pub rebind : ℕ → List Channel → Hub → Hub
unfolding bind_locked
rebind ws wanted hub = elim (hub.ws_device ws) [
  | none ↦ hub
  | some device ↦ bind_locked ws device wanted hub
]

-- `_unregister`: the channels that the socket was on, in the order of the set, and the hub.
unfoldable pub unregister : ℕ → Hub → List Channel × Hub
unfolding leave
unregister ws hub = (
  or_empty (hub.ws_channels ws),
  record hub {
    channels = leave ws (hub.ws_device ws) (or_empty (hub.ws_channels ws)) hub.channels;
    ws_channels = put ws none hub.ws_channels;
    ws_device = put ws none hub.ws_device;
  },
)

abbrev pub is_space_channel : Channel → Bool
is_space_channel (of_user u) = false
is_space_channel (of_space s) = true
is_space_channel broadcast = false

-- `_space_channels`
unfoldable pub space_channels : List Channel → List Channel
space_channels chs = rows_where is_space_channel chs

-- `_resolve_channels`
unfoldable pub resolve_channels : ℕ → Db → List Channel
resolve_channels uid db =
    of_user uid
    ∷ broadcast
    ∷ map (λ (m : SpaceMembership). of_space m.space_id)
        (rows_where (λ (m : SpaceMembership). m.user_id == uid) db.memberships)

-- `_resync_user_channels`: every socket of the user, if the query answers.
abbrev pub rebind_all : List Member → List Channel → Hub → Hub
rebind_all [] wanted hub = hub
rebind_all (m ∷ ms) wanted hub = rebind_all ms wanted (rebind m.0 wanted hub)

unfoldable pub resync_user_channels : ℕ → Option (List Channel) → Hub → Hub
resync_user_channels uid none hub = hub
resync_user_channels uid (some wanted) hub =
    rebind_all (or_empty (hub.channels (of_user uid))) wanted hub

-- The sockets that `_broadcast_local` sends to: those on the channel but for the device of origin.
unfoldable pub targets : Channel → Option ℕ → Hub → List Member
targets ch origin hub =
    rows_where (λ (m : Member). not (given origin && eq_option (some m.1) origin))
      (or_empty (hub.channels ch))

-- The sockets of `_broadcast_local` that did not take the event are taken off the hub.
abbrev pub drop_failed : (ℕ → Bool) → List Member → Hub → Hub
drop_failed takes [] hub = hub
drop_failed takes (m ∷ ms) hub =
    drop_failed takes ms (if takes m.0 then hub else (unregister m.0 hub).1)

-- `_broadcast_local`: the sockets that got the event, and the hub. The event is cut for each socket
-- before any is sent, so that an error in one of the cuts leaves all without it.
unfoldable pub broadcast_local :
    Channel → Option ℕ → (ℕ → Bool) → (ℕ → Bool) → Hub → List Member × Hub
unfolding targets
broadcast_local ch origin raises takes hub =
    if any_where (λ (m : Member). raises m.0) (targets ch origin hub) then ([], hub) else (
      rows_where (λ (m : Member). takes m.0) (targets ch origin hub),
      drop_failed takes (targets ch origin hub) hub,
    )

-- The sockets that `_close_device_sockets` closes.
unfoldable pub closed_sockets : ℕ → ℕ → Hub → List Member
closed_sockets uid device hub =
    rows_where (λ (m : Member). m.1 == device) (or_empty (hub.channels (of_user uid)))
