-- ===== src/Routes.antt =====
-- The routes of src/sync/router.py and src/spaces/router.py that publish: the services with the
-- events that they announce, in order, whether Redis then takes them or not. An event of a comment
-- that is deleted carries the ids of the row only.
pub mod Spaces
use rover_tools_orange_copy.Prelude.{
  ◌>>=◌, ℕ, Bool, true, false, Option, none, some, List, [], ◌∷◌, ◌++◌, ◌==◌, if◌then◌else◌, Reply,
  ok, err, map, elem, first_where, or_err,
}
use rover_tools_orange_copy.Store.{Db, Env, SyncEntry, EntryType, SpaceComment, Space, Text}
use rover_tools_orange_copy.Sync.Entry.{Limits, PushEntry, AcceptedEntry, Withdrawal}
use rover_tools_orange_copy.Sync.Push.{push_entries, Pushed}
use rover_tools_orange_copy.Realtime.{Channel}
use rover_tools_orange_copy.Spaces.Members.{
  create_space, update_space, remove_member, require_owned_space,
}
use rover_tools_orange_copy.Spaces.Keys.{distribute_keys, WrappedKeyringEntry}
use rover_tools_orange_copy.Spaces.Requests.{
  request_join, approve, decline, is_request, is_request_id, has_code, JoinStatus,
}
use rover_tools_orange_copy.Spaces.Takedown.{remove_entry_from_space}
use rover_tools_orange_copy.Spaces.Deletion.{delete_space}
use rover_tools_orange_copy.Spaces.Comments.{CreateCommentRequest, add_comment, delete_comment}

pub data Change : Type 0 where
  joined left deleted : Change

-- The events with their payloads.
pub data SpaceEvent : Type 0 where
  sync_entry : SyncEntry → SpaceEvent
  entry_removed : ℕ → ℕ → EntryType → ℕ → ℕ → SpaceEvent
  membership_changed : ℕ → Change → ℕ → SpaceEvent
  join_requested : ℕ → ℕ → ℕ → SpaceEvent
  join_decided : ℕ → Bool → SpaceEvent
  rekey : ℕ → ℕ → SpaceEvent
  history_opened : ℕ → SpaceEvent
  comment_created : SpaceComment → SpaceEvent
  comment_deleted : SpaceComment → ℕ → SpaceEvent

-- One call of `publish`: the channel, the event and the device of origin.
pub record Publication : Type 0 where
  pub channel : Channel
  pub event : SpaceEvent
  pub origin : Option ℕ

-- `publish_sync_entry`
abbrev pub publish_sync_entry : ℕ → ℕ → SyncEntry → List Publication
publish_sync_entry uid device r =
    record { channel = Channel.of_user uid; event = SpaceEvent.sync_entry r; origin = some device }
    ∷ map
        (λ sid. record {
          channel = Channel.of_space sid;
          event = SpaceEvent.sync_entry r;
          origin = some device;
        })
        r.space_ids

-- `publish_space_entry_removed`
abbrev pub publish_space_entry_removed : ℕ → ℕ → EntryType → ℕ → ℕ → ℕ → Publication
publish_space_entry_removed space client t author removed_by device = record {
  channel = Channel.of_space space;
  event = SpaceEvent.entry_removed space client t author removed_by;
  origin = some device;
}

-- `publish_space_membership_changed`
abbrev pub publish_space_membership_changed : ℕ → Change → ℕ → Publication
publish_space_membership_changed space change uid = record {
  channel = Channel.of_space space;
  event = SpaceEvent.membership_changed space change uid;
  origin = none;
}

-- `publish_membership_changed_to_user`
abbrev pub publish_membership_changed_to_user : ℕ → ℕ → Change → Publication
publish_membership_changed_to_user uid space change = record {
  channel = Channel.of_user uid;
  event = SpaceEvent.membership_changed space change uid;
  origin = none;
}

-- `publish_join_decided`
abbrev pub publish_join_decided : ℕ → ℕ → Bool → Publication
publish_join_decided uid space approved = record {
  channel = Channel.of_user uid;
  event = SpaceEvent.join_decided space approved;
  origin = none;
}

-- The spaces that entries were un-shared from, each in turn.
unfoldable pub published_withdrawals : ℕ → ℕ → List Withdrawal → List Publication
published_withdrawals uid device [] = []
published_withdrawals uid device (w ∷ ws) =
    map (λ sid. publish_space_entry_removed sid w.client_id w.entry_type uid uid device) w.space_ids
    ++ published_withdrawals uid device ws

-- The rows accepted, as they are stored after the push.
unfoldable pub published_entries : ℕ → ℕ → Db → List AcceptedEntry → List Publication
published_entries uid device db [] = []
published_entries uid device db (a ∷ rest) =
    let others = published_entries uid device db rest in
    elim (first_where (λ (r : SyncEntry). r.id == a.server_id) db.entries) [
      | none ↦ others
      | some r ↦ publish_sync_entry uid device r ++ others
    ]

-- `push`: the answer, what is published and the database.
unfoldable pub push_route :
    Limits → ℕ → ℕ → (ℕ → Env) → List PushEntry → Db → (Reply Pushed × List Publication) × Db
unfolding push_entries published_withdrawals published_entries
push_route cfg uid device env es db =
    announced (push_entries cfg uid device env es db).0 (push_entries cfg uid device env es db).1
  where
    announced : Reply Pushed → Db → (Reply Pushed × List Publication) × Db
    announced (err status detail) after = ((err status detail, []), after)
    announced (ok out) after = (
      (
        ok out,
        published_withdrawals uid device out.withdrawals
            ++ published_entries uid device after out.accepted,
      ),
      after,
    )
