-- ===== src/Routes/Spaces.antt =====
-- The routes of src/spaces/router.py that publish.
use rover_tools_orange_copy.Prelude.{
  ◌>>=◌, ℕ, Bool, true, false, Option, none, some, List, [], ◌∷◌, if◌then◌else◌, Reply, ok, elem,
  first_where, or_err,
}
use rover_tools_orange_copy.Store.{Db, Env, EntryType, Space, Text}
use rover_tools_orange_copy.Realtime.{Channel}
use rover_tools_orange_copy.Spaces.Members.{
  create_space, update_space, remove_member, require_owned_space,
}
use rover_tools_orange_copy.Spaces.Keys.{distribute_keys, WrappedKeyringEntry}
use rover_tools_orange_copy.Spaces.Requests.{
  request_join, approve, decline, is_request, is_request_id, has_code, JoinStatus,
}
use rover_tools_orange_copy.Spaces.Takedown.{remove_entry_from_space}
use rover_tools_orange_copy.Spaces.Deletion.{delete_space}
use rover_tools_orange_copy.Spaces.Comments.{CreateCommentRequest, add_comment, delete_comment}
use rover_tools_orange_copy.Routes.{
  Change, SpaceEvent, Publication, publish_space_entry_removed, publish_space_membership_changed,
  publish_membership_changed_to_user, publish_join_decided,
}

-- `create_space` of the router.
unfoldable pub create_space_route :
    ℕ → Text → Bool → Text → ℕ → ℕ → ℕ → ℕ → Db → (Space × List Publication) × Db
unfolding create_space
create_space_route uid name share_history code expires created at fresh db = (
  (
    (create_space uid name share_history code expires created at fresh db).0,
    publish_membership_changed_to_user uid fresh Change.joined ∷ [],
  ),
  (create_space uid name share_history code expires created at fresh db).1,
)

-- `update_space` of the router, up to the view that it returns.
unfoldable pub update_space_route :
    ℕ → ℕ → Option Bool → Option Bool → Db → Reply (List Publication × Db)
unfolding update_space
update_space_route space uid share_history members_can_approve db = do
  r ← update_space space uid share_history members_can_approve db
  ok (
    if r.0
        then record {
          channel = Channel.of_space space;
          event = SpaceEvent.history_opened space;
          origin = none;
        }
          ∷ []
        else [],
    r.1,
  )

-- Whoever may act on a request hears of it.
abbrev pub approvers : Space → Channel
approvers s = if s.members_can_approve then Channel.of_space s.id else Channel.of_user s.owner_id

abbrev pub knocked : JoinStatus → Space → ℕ → Db → List Publication
knocked JoinStatus.already_member s uid db = []
knocked JoinStatus.declined s uid db = []
knocked JoinStatus.pending s uid db = elim (first_where (is_request s.id uid) db.join_requests) [
  | none ↦ []
  | some r ↦
      record {
        channel = approvers s;
        event = SpaceEvent.join_requested s.id r.id r.user_id;
        origin = none;
      }
      ∷ []
]

-- `join_space`: what the caller is told of the request.
unfoldable pub join_space_route : Text → ℕ → Env → Db → Reply ((JoinStatus × List Publication) × Db)
unfolding request_join
join_space_route code uid env db = do
  r ← request_join code uid env db
  s ← or_err (first_where (has_code code) db.spaces) 404 "Invalid invite code"
  ok ((r.0, knocked r.0 s uid r.1), r.1)

-- `approve_join_request`
unfoldable pub approve_route : ℕ → ℕ → ℕ → Option ℕ → Env → Db → Reply (List Publication × Db)
unfolding approve
approve_route space request uid wrapped env db = do
  after ← approve space request uid wrapped env db
  r ← or_err (first_where (is_request_id space request) db.join_requests) 404 "Request not found"
  ok (
    publish_space_membership_changed space Change.joined r.user_id
        ∷ publish_membership_changed_to_user r.user_id space Change.joined
        ∷ publish_join_decided r.user_id space true
        ∷ [],
    after,
  )

-- `decline_join_request`
unfoldable pub decline_route : ℕ → ℕ → ℕ → Env → Db → Reply (List Publication × Db)
unfolding decline
decline_route space request uid env db = do
  after ← decline space request uid env db
  r ← or_err (first_where (is_request_id space request) db.join_requests) 404 "Request not found"
  ok (publish_join_decided r.user_id space false ∷ [], after)

-- `remove_member` of the router.
unfoldable pub remove_member_route : ℕ → ℕ → ℕ → ℕ → Db → Reply (List Publication × Db)
unfolding remove_member
remove_member_route space target uid now db = do
  r ← remove_member space target uid now db
  ok (
    if r.0
        then publish_space_membership_changed space Change.left target
          ∷ publish_membership_changed_to_user target space Change.left
          ∷ []
        else [],
    r.1,
  )

-- `remove_space_entry`
unfoldable pub remove_space_entry_route :
    ℕ → ℕ → EntryType → ℕ → ℕ → Env → Db → Reply (List Publication × Db)
unfolding remove_entry_from_space
remove_space_entry_route space client t uid device env db = do
  r ← remove_entry_from_space space client t uid env db
  ok (publish_space_entry_removed space client t r.0 uid device ∷ [], r.1)

-- `delete_space` of the router, which publishes before it deletes.
unfoldable pub delete_space_route : ℕ → ℕ → Db → Reply (List Publication × Db)
unfolding delete_space require_owned_space
delete_space_route space uid db = do
  s ← require_owned_space space uid db
  after ← delete_space space uid db
  ok (publish_space_membership_changed space Change.deleted uid ∷ [], after)

-- The keyrings of the request whose account was written.
unfoldable pub published_keyrings : ℕ → List ℕ → List WrappedKeyringEntry → List Publication
published_keyrings space stored [] = []
published_keyrings space stored (e ∷ es) =
    let others = published_keyrings space stored es in
    if elem e.user_id stored
    then record {
      channel = Channel.of_user e.user_id;
      event = SpaceEvent.rekey space e.wrapped_space_keys;
      origin = none;
    }
      ∷ others
    else others

-- `distribute_keys` of the router.
unfoldable pub distribute_keys_route :
    ℕ → ℕ → List WrappedKeyringEntry → Option ℕ → Db → Reply (List Publication × Db)
unfolding distribute_keys published_keyrings
distribute_keys_route space uid keyrings fingerprint db = do
  r ← distribute_keys space uid keyrings fingerprint db
  ok (published_keyrings space r.0 keyrings, r.1)

-- `add_space_comment` and `delete_space_comment`
unfoldable pub add_comment_route :
    ℕ → ℕ → ℕ → CreateCommentRequest → Env → Db → Reply (List Publication × Db)
unfolding add_comment
add_comment_route space uid device req env db = do
  r ← add_comment space uid req env db
  ok (
    record {
      channel = Channel.of_space space;
      event = SpaceEvent.comment_created r.0;
      origin = some device;
    }
        ∷ [],
    r.1,
  )

unfoldable pub delete_comment_route : ℕ → ℕ → ℕ → ℕ → Db → Reply (List Publication × Db)
unfolding delete_comment
delete_comment_route space comment uid device db = do
  r ← delete_comment space comment uid db
  ok (
    record {
      channel = Channel.of_space space;
      event = SpaceEvent.comment_deleted r.0 uid;
      origin = some device;
    }
        ∷ [],
    r.1,
  )
