-- ===== src/Realtime/Tests.antt =====
-- The theorems of the hub and of the device check at concrete inputs: account 1 is in space 3; its
-- sockets 10 and 11 belong to its devices 4 and 5.
use mathlib.Core.Option
use rover_tools_orange_copy.Realtime.Sockets.{connect}
use rover_tools_orange_copy.Realtime.Presence.{assert_presence, Redis}
use rover_tools_orange_copy.Prelude.{
  false, none, some, List, [], ◌∷◌, ◌≡◌, refl, ◌&&◌, not, any_where, eq_option,
}
use rover_tools_orange_copy.Store.{Role, Db, SpaceMembership, SyncEntry, EntryType}
use rover_tools_orange_copy.Store.Empty.{empty_db}
use rover_tools_orange_copy.Store.Wraps.{no_keys}
use rover_tools_orange_copy.Spaces.Keys.{given}
use rover_tools_orange_copy.Realtime.{
  join, leave, bind_locked, unregister, rebind, register, Channel, empty_hub, is_member, targets,
  resolve_channels,
}
use rover_tools_orange_copy.Realtime.Index.{run-targets}
use rover_tools_orange_copy.Realtime.Registry.{call, Call, run, spec_run, is_on}
use rover_tools_orange_copy.Realtime.Views.{trim_entry_for, trim_entry_for-entry_view}
use rover_tools_orange_copy.Sync.Pull.{entry_view, spaces_in, memberships_of}

abbrev membership : SpaceMembership
membership = record {
  space_id = 3;
  user_id = 1;
  role = Role.member;
  joined_at = 1;
  wrapped_space_keys = none;
  wrapped_by = none;
  history_from_ts = none;
}

abbrev db : Db
db = record empty_db { memberships = membership ∷ [] }

-- Socket 10 connects before its user has joined the space, and is put on its channel afterwards;
-- socket 11 comes and goes.
abbrev calls : List Call
calls =
    Call.registered 10 4 (resolve_channels 1 empty_db)
    ∷ Call.registered 11 5 (resolve_channels 1 db)
    ∷ Call.rebound 10 (resolve_channels 1 db)
    ∷ Call.unregistered 11
    ∷ Call.rebound 11 (resolve_channels 1 db)
    ∷ []

run-targets_example :
    any_where (is_member 10 (some 4)) (targets (Channel.of_space 3) (some 5) (run calls empty_hub))
    ≡ (is_on (spec_run calls (λ ws. none) 10) (Channel.of_space 3) 4
        && not (given (some 5) && eq_option (some 4) (some 5)))
unfolding spec_run
run-targets_example =
    run-targets calls (Channel.of_space 3) (some 5) 10 4 (refl, (refl, (tt, (tt, (tt, tt)))))

-- An entry of account 2 in the spaces 3 and 4.
abbrev shared : SyncEntry
shared = record {
  id = 1;
  client_id = 1;
  user_id = 2;
  device_id = 9;
  entry_type = EntryType.note;
  kind = none;
  encrypted_content = [];
  encrypted_metadata = none;
  created_at = 1;
  updated_at = 1;
  server_ts = 1;
  deleted_at = none;
  pinned = false;
  space_ids = 3 ∷ 4 ∷ [];
  wrapped_keys = no_keys;
  blob_key = none;
  blob_size = none;
}

trim_entry_for-entry_view_example :
    trim_entry_for 10 shared (run calls empty_hub)
    ≡ entry_view 1 (spaces_in (memberships_of 1 db)) shared
unfolding spec_run
trim_entry_for-entry_view_example =
    trim_entry_for-entry_view calls 10 4 1 shared db (refl, (refl, (tt, (tt, (tt, tt))))) refl

-- The entry goes to socket 10 in the one space that its user is in.
shown_spaces :
    Option.map (λ (r : SyncEntry). r.space_ids) (trim_entry_for 10 shared (run calls empty_hub))
    ≡ some (3 ∷ [])
unfolding trim_entry_for run call register rebind unregister bind_locked leave join resolve_channels
shown_spaces = refl

abbrev unreachable : Redis
unreachable = record { reachable = false; devices = λ u. []; live = λ u d. false }

-- The socket that the failed connection leaves on the channel of its user.
left_behind :
    targets
      (Channel.of_user 1)
      none
      (connect 10 1 4 (resolve_channels 1 db) (record {
        hub = empty_hub;
        redis = unreachable;
        bus = record { sent = []; dropped = 0 };
      })).1.hub
    ≡ (10, 4) ∷ []
unfolding connect targets assert_presence register bind_locked leave join resolve_channels
left_behind = refl
