-- ===== src/Spaces/Sample.antt =====
-- The data of the tests of the spaces: space 3 of account 1, with member 2; account 5
-- knocks, account 6 was declined, and account 7 holds an invite.
use rover_tools_orange_copy.Prelude.{Option, err, true, ◌+◌, ◌∷◌, Reply, [], ℕ, none, some, ok}
use rover_tools_orange_copy.Store.{
  SpaceMembership, InviteStatus, SpaceJoinRequest, Env, RequestStatus, Role, Space, SpaceInvite, Db,
}

abbrev pub home : Space
home = record {
  id = 3;
  owner_id = 1;
  name = 9 ∷ [];
  invite_code = some (4 ∷ []);
  invite_expires_at = some 900;
  key_fingerprint = some 8;
  rekey_requested_at = some 50;
  share_history = true;
  members_can_approve = true;
  created_at = 1;
}

abbrev pub seat : ℕ → Role → Option ℕ → SpaceMembership
seat u role wrap = record {
  space_id = 3;
  user_id = u;
  role = role;
  wrapped_space_keys = wrap;
  wrapped_by = none;
  history_from_ts = none;
  joined_at = 1;
}

abbrev pub request : ℕ → ℕ → RequestStatus → SpaceJoinRequest
request id u status = record {
  id = id;
  space_id = 3;
  user_id = u;
  status = status;
  wrapped_space_keys = none;
  wrapped_by = none;
  created_at = 5;
  decided_at = none;
  decided_by = none;
}

abbrev pub invite : SpaceInvite
invite = record {
  id = 70;
  space_id = 3;
  inviter_id = 1;
  invitee_email = 77;
  invitee_user_id = none;
  status = InviteStatus.pending;
  created_at = 5;
  expires_at = 500;
  wrapped_space_keys = some 12;
}

abbrev pub db : Db
db = record {
  entries = [];
  cursors = [];
  blobs = [];
  spaces = home ∷ [];
  invites = invite ∷ [];
  memberships =
      seat 1 Role.owner (some 10) ∷ seat 2 Role.member (some 11) ∷ seat 4 Role.member none ∷ [];
  join_requests = request 50 5 RequestStatus.pending ∷ request 60 6 RequestStatus.declined ∷ [];
  comments = [];
  removals = [];
  profiles = [];
  user_settings = [];
  devices = [];
  announcements = [];
}

abbrev pub env : Env
env = record { now = 100; new_id = 200; removal_id = λ j. 300 + j }

-- The database of a reply.
abbrev pub db_of : Reply Db → Db
db_of (ok d) = d
db_of (err status detail) = db

abbrev pub after : {A : Type 0} → Reply (A × Db) → Db
after (ok r) = r.1
after (err status detail) = db
