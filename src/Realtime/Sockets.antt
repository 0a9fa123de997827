-- ===== src/Realtime/Sockets.antt =====
-- The life of a socket in src/realtime.py, as far as the hub, presence and the events that it
-- publishes go, and the presence sweep of src/background.py.
use rover_tools_orange_copy.Prelude.{
  ℕ, Bool, true, false, none, some, List, [], ◌∷◌, ◌==◌, ◌||◌, if◌then◌else◌, map, any_where,
  rows_where, delete_where, ◌+◌, is_empty,
}
use rover_tools_orange_copy.Store.{Db, SpaceMembership}
use rover_tools_orange_copy.Realtime.{Channel, Hub, put, register, unregister, space_channels}
use rover_tools_orange_copy.Realtime.Presence.{Redis, assert_presence, user_is_online}

-- The events that a socket's life publishes.
pub data Event : Type 0 where
  device_online : ℕ → Event
  device_offline : ℕ → Event
  user_presence : ℕ → Bool → Event

-- What Redis was given to fan out, the last first, and `_dropped_events`.
pub record Bus : Type 0 where
  pub sent : List (Channel × Event)
  pub dropped : ℕ

-- `publish`, where Redis takes the event or does not.
unfoldable pub publish : Bool → Channel → Event → Bus → Bus
publish takes ch event bus =
    if takes
    then record bus { sent = (ch, event) ∷ bus.sent }
    else record bus { dropped = bus.dropped + 1 }

-- `publish_user_presence`
unfoldable pub publish_user_presence : Bool → List Channel → ℕ → Bool → Bus → Bus
unfolding publish
publish_user_presence takes [] uid online bus = bus
publish_user_presence takes (ch ∷ chs) uid online bus =
    publish_user_presence takes chs uid online
      (publish takes ch (Event.user_presence uid online) bus)

pub record Replica : Type 0 where
  pub hub : Hub
  pub redis : Redis
  pub bus : Bus

-- What is published once a socket is on the hub and its presence is stated.
abbrev pub announce_arrival : ℕ → ℕ → List Channel → Bus → Bus
announce_arrival uid device chs bus =
    publish_user_presence true (space_channels chs) uid true
      (publish true (Channel.of_user uid) (Event.device_online device) bus)

-- `_serve` up to its loop, with what the channels resolve to: whether it gets there. A Redis that
-- cannot be reached raises after the socket is on the hub, and before the `try` that takes it off.
unfoldable pub connect : ℕ → ℕ → ℕ → List Channel → Replica → Bool × Replica
unfolding register assert_presence publish publish_user_presence space_channels
connect ws uid device chs r = elim (assert_presence uid device r.redis) [
  | none ↦ (false, record r { hub = register ws device chs r.hub })
  | some redis ↦ (
    true,
    record {
      hub = register ws device chs r.hub;
      redis = redis;
      bus = announce_arrival uid device chs r.bus;
    },
  )
]

-- `srem` and `delete` of the teardown.
unfoldable pub forget_presence : ℕ → ℕ → Redis → Redis
forget_presence uid device redis = record redis {
  devices = put uid (delete_where (λ d. d == device) (redis.devices uid)) redis.devices;
  live = put uid (put device false (redis.live uid)) redis.live;
}

abbrev pub announce_departure : Bool → ℕ → ℕ → List Channel → Bus → Bus
announce_departure others uid device chs bus =
    if others then told else publish_user_presence true (space_channels chs) uid false told
  where
    told : Bus
    told = publish true (Channel.of_user uid) (Event.device_offline device) bus

-- The `finally` of `_serve`. A Redis that cannot be reached stops it after the hub.
unfoldable pub disconnect : ℕ → ℕ → ℕ → Replica → Replica
unfolding unregister user_is_online forget_presence publish publish_user_presence space_channels
disconnect ws uid device r = elim (user_is_online r.redis uid (some device)) [
  | none ↦ record r { hub = (unregister ws r.hub).1 }
  | some others ↦ record {
    hub = (unregister ws r.hub).1;
    redis = forget_presence uid device r.redis;
    bus = announce_departure others uid device (unregister ws r.hub).0 r.bus;
  }
]

-- The space channels of an account, by its memberships.
abbrev pub channels_of_spaces : ℕ → Db → List Channel
channels_of_spaces uid db =
    map (λ (m : SpaceMembership). Channel.of_space m.space_id)
      (rows_where (λ (m : SpaceMembership). m.user_id == uid) db.memberships)

-- The devices of a set whose key has expired, and the event for each.
abbrev pub stale : ℕ → Redis → List ℕ
stale uid redis = delete_where (redis.live uid) (redis.devices uid)

unfoldable pub publish_offline : ℕ → List ℕ → Bus → Bus
unfolding publish
publish_offline uid [] bus = bus
publish_offline uid (d ∷ ds) bus =
    publish_offline uid ds (publish true (Channel.of_user uid) (Event.device_offline d) bus)

abbrev pub evict : ℕ → Redis → Redis
evict uid redis = record redis {
  devices = put uid (rows_where (redis.live uid) (redis.devices uid)) redis.devices;
}

-- `_sweep_presence` for one set, while Redis can be reached: those whose key is gone are taken out,
-- and the spaces hear of it if nobody is left.
unfoldable pub sweep_user : ℕ → Db → Redis × Bus → Redis × Bus
unfolding publish_offline publish_user_presence
sweep_user uid db (redis, bus) = (
  evict uid redis,
  if is_empty (stale uid redis) || any_where (redis.live uid) ((evict uid redis).devices uid)
      then publish_offline uid (stale uid redis) bus
      else publish_user_presence true (channels_of_spaces uid db) uid false
          (publish_offline uid (stale uid redis) bus),
)

-- `_sweep_presence`, over the sets that the scan finds.
unfoldable pub sweep_presence : List ℕ → Db → Redis × Bus → Redis × Bus
unfolding sweep_user
sweep_presence [] db s = s
sweep_presence (uid ∷ uids) db s = sweep_presence uids db (sweep_user uid db s)
