-- ===== src/Spaces/Requests.antt =====
-- src/spaces/join_requests.py: what redeeming the invite code of a space produces, and how it is
-- answered. The code that the caller typed stands here as `normalize_invite_code` returns it.
pub mod Returned
pub mod Declined
pub mod Unique
pub mod Approval
use rover_tools_orange_copy.Spaces.Keys.{given}
use rover_tools_orange_copy.Prelude.{
  String, ltb, ◌>>=◌, ◌>>◌, or_err, guard, ok, err, update_first, is_some, not, any_where, true,
  ◌&&◌, ◌||◌, ◌∷◌, Reply, false, first_where, if◌then◌else◌, some, ◌==◌, Bool, none, Option, ℕ,
  List, [],
}
use mathlib.Core.Option
use rover_tools_orange_copy.Store.{
  eq_text, Env, RequestStatus, Role, SpaceJoinRequest, Text, is_member, Db, Space, SpaceMembership,
}
use rover_tools_orange_copy.Spaces.Members.{find_space, membership_of, may_approve, add_membership}

-- The unique index on (space_id, user_id).
abbrev pub is_request : ℕ → ℕ → SpaceJoinRequest → Bool
is_request space uid r = r.space_id == space && r.user_id == uid

-- `Space.invite_code == code`
abbrev pub has_code : Text → Space → Bool
has_code code s = elim s.invite_code [ none ↦ false | some c ↦ eq_text c code ]

-- `_role_of`
abbrev pub role_of : ℕ → ℕ → Db → Option Role
role_of space uid db = Option.map (λ (m : SpaceMembership). m.role) (membership_of space uid db)

-- `_require_approver`
unfoldable pub require_approver : ℕ → ℕ → Db → Reply Space
require_approver space uid db = do
  s ← or_err (find_space space db) 404 "Space not found"
  guard (may_approve s (role_of space uid db)) 403
      "Only the owner can approve join requests for this space"
  ok s

-- `s.invite_expires_at and s.invite_expires_at < _now_ms()`
abbrev pub code_expired : ℕ → Space → Bool
code_expired now s = elim s.invite_expires_at [
  | none ↦ false
  | some at ↦ not (at == 0) && ltb at now
]

-- The status that a redemption reports.
pub data JoinStatus : Type 0 where
  already_member pending declined : JoinStatus

-- The row that a first redemption adds.
abbrev pub new_request : ℕ → ℕ → ℕ → ℕ → SpaceJoinRequest
new_request id space uid now = record {
  id = id;
  space_id = space;
  user_id = uid;
  status = RequestStatus.pending;
  wrapped_space_keys = none;
  wrapped_by = none;
  created_at = now;
  decided_at = none;
  decided_by = none;
}

-- A row that is open again.
abbrev pub reopened : ℕ → SpaceJoinRequest → SpaceJoinRequest
reopened now r = record r {
  status = RequestStatus.pending;
  wrapped_space_keys = none;
  wrapped_by = none;
  decided_at = none;
  decided_by = none;
  created_at = now;
}

-- The answer to a redemption when a row exists already.
unfoldable pub knock_again : RequestStatus → ℕ → ℕ → ℕ → Db → JoinStatus × Db
knock_again RequestStatus.pending space uid now db = (JoinStatus.pending, db)
knock_again RequestStatus.declined space uid now db = (JoinStatus.declined, db)
knock_again RequestStatus.approved space uid now db = (
  JoinStatus.pending,
  record db { join_requests = update_first (is_request space uid) (reopened now) db.join_requests },
)

-- The answer to a redemption by an account that is no member.
unfoldable pub knock : ℕ → ℕ → Env → Db → JoinStatus × Db
unfolding knock_again
knock space uid env db = elim (first_where (is_request space uid) db.join_requests) [
  | none ↦ (
    JoinStatus.pending,
    record db { join_requests = new_request env.new_id space uid env.now ∷ db.join_requests },
  )
  | some r ↦ knock_again r.status space uid env.now db
]

-- `request_join`
unfoldable pub request_join : Text → ℕ → Env → Db → Reply (JoinStatus × Db)
unfolding knock
request_join code uid env db = do
  s ← or_err (first_where (has_code code) db.spaces) 404 "Invalid invite code"
  guard (not (code_expired env.now s)) 410 "Invite code expired"
  ok (
      if is_some (role_of s.id uid db)
      then (JoinStatus.already_member, db)
      else knock s.id uid env db)

abbrev pub is_request_id : ℕ → ℕ → SpaceJoinRequest → Bool
is_request_id space request r = r.id == request && r.space_id == space

abbrev pub is_open : RequestStatus → Bool
is_open RequestStatus.pending = true
is_open RequestStatus.approved = false
is_open RequestStatus.declined = false

-- `f"Request already {r.status}"`
abbrev pub already : RequestStatus → String
already RequestStatus.pending = "Request already pending"
already RequestStatus.approved = "Request already approved"
already RequestStatus.declined = "Request already declined"

-- `_pending_row`
unfoldable pub pending_row : ℕ → ℕ → Db → Reply SpaceJoinRequest
pending_row space request db = do
  r ← or_err (first_where (is_request_id space request) db.join_requests) 404 "Request not found"
  guard (is_open r.status) 409 (already r.status)
  ok r

-- The decision on a row; an approval takes the wrap out of it as well.
abbrev pub approved_row : ℕ → ℕ → SpaceJoinRequest → SpaceJoinRequest
approved_row uid now r = record r {
  status = RequestStatus.approved;
  decided_at = some now;
  decided_by = some uid;
  wrapped_space_keys = none;
  wrapped_by = none;
}

abbrev pub declined_row : ℕ → ℕ → SpaceJoinRequest → SpaceJoinRequest
declined_row uid now r = record r {
  status = RequestStatus.declined;
  decided_at = some now;
  decided_by = some uid;
}

-- The writes of an approval: the membership, then the row.
abbrev pub admit : Space → SpaceJoinRequest → ℕ → Option ℕ → ℕ → Db → Db
admit s r uid wrapped now db =
    record (add_membership s r.user_id wrapped (if given wrapped then some uid else none) now db) {
      join_requests =
          update_first (is_request_id r.space_id r.id) (approved_row uid now) db.join_requests;
    }

-- `approve`
unfoldable pub approve : ℕ → ℕ → ℕ → Option ℕ → Env → Db → Reply Db
unfolding require_approver pending_row
approve space request uid wrapped env db = do
  s ← require_approver space uid db
  r ← pending_row space request db
  ok (admit s r uid wrapped env.now db)

-- The write of a refusal.
abbrev pub refuse : SpaceJoinRequest → ℕ → ℕ → Db → Db
refuse r uid now db = record db {
  join_requests =
      update_first (is_request_id r.space_id r.id) (declined_row uid now) db.join_requests;
}

-- `decline`
unfoldable pub decline : ℕ → ℕ → ℕ → Env → Db → Reply Db
unfolding require_approver pending_row
decline space request uid env db = do
  s ← require_approver space uid db
  r ← pending_row space request db
  ok (refuse r uid env.now db)
