-- ===== src/Spaces/Members.antt =====
-- Spaces and who is in them: `create_space`, `update_space`, `add_membership`, `remove_member`,
-- `require_owned_space` and `may_approve` of src/spaces/service.py. Every refusal comes before the
-- first write, so an error leaves the database as it was.
pub mod Removal
pub mod Joining
use rover_tools_orange_copy.Prelude.{
  ◌||◌, ◌>>=◌, ◌>>◌, or_err, guard, ok, update_first, delete_where, is_some, not, any_where, true,
  ◌&&◌, ◌∷◌, Reply, false, first_where, if◌then◌else◌, some, update_where, ◌==◌, Bool, none, Option,
  ℕ,
}
use rover_tools_orange_copy.Store.{is_member, Db, Role, Text, Space, SpaceMembership}

-- A row of `spaces` by its id.
abbrev pub has_id : ℕ → Space → Bool
has_id space s = s.id == space

abbrev pub find_space : ℕ → Db → Option Space
find_space space db = first_where (has_id space) db.spaces

abbrev pub membership_of : ℕ → ℕ → Db → Option SpaceMembership
membership_of space uid db = first_where (is_member space uid) db.memberships

-- `may_approve`
unfoldable pub may_approve : Space → Option Role → Bool
may_approve s none = false
may_approve s (some Role.owner) = true
may_approve s (some Role.member) = s.members_can_approve

-- `create_space`. The clock is read three times: for the expiry, the space and the membership.
unfoldable pub create_space : ℕ → Text → Bool → Text → ℕ → ℕ → ℕ → ℕ → Db → Space × Db
create_space uid name share_history code expires created joined fresh db = (
  space,
  record db {
    spaces = space ∷ db.spaces;
    memberships =
        record {
          space_id = fresh;
          user_id = uid;
          role = Role.owner;
          wrapped_space_keys = none;
          wrapped_by = none;
          history_from_ts = none;
          joined_at = joined;
        }
        ∷ db.memberships;
  },
)
  where
    space : Space
    space = record {
      id = fresh;
      owner_id = uid;
      name = name;
      invite_code = some code;
      invite_expires_at = some expires;
      key_fingerprint = none;
      rekey_requested_at = none;
      share_history = share_history;
      members_can_approve = false;
      created_at = created;
    }

abbrev pub or_keep : Option Bool → Bool → Bool
or_keep none old = old
or_keep (some new) old = new

-- `history_from_ts IS NOT NULL` in the space.
abbrev pub has_floor : ℕ → SpaceMembership → Bool
has_floor space m = m.space_id == space && is_some m.history_from_ts

abbrev pub is_true : Option Bool → Bool
is_true none = false
is_true (some b) = b

-- `update_space`: the settings, and whether older entries have opened up for anybody.
unfoldable pub update_space : ℕ → ℕ → Option Bool → Option Bool → Db → Reply (Bool × Db)
update_space space uid share_history members_can_approve db = do
  s ← or_err (find_space space db) 404 "Space not found"
  guard (s.owner_id == uid) 403 "Only the owner can change this"
  ok (
    is_true share_history && any_where (has_floor space) db.memberships,
    record db {
      spaces =
          update_first (has_id space)
            (λ s. record s {
              members_can_approve = or_keep members_can_approve s.members_can_approve;
              share_history = or_keep share_history s.share_history;
            })
            db.spaces;
      memberships =
          if is_true share_history
          then update_where (has_floor space) (λ m. record m { history_from_ts = none })
              db.memberships
          else db.memberships;
    },
  )

-- `add_membership`
unfoldable pub add_membership : Space → ℕ → Option ℕ → Option ℕ → ℕ → Db → Db
add_membership s uid wrapped by now db =
    if any_where (is_member s.id uid) db.memberships then db else record db {
      memberships =
          record {
            space_id = s.id;
            user_id = uid;
            role = Role.member;
            wrapped_space_keys = wrapped;
            wrapped_by = by;
            history_from_ts = if s.share_history then none else some now;
            joined_at = now;
          }
          ∷ db.memberships;
    }

abbrev pub without_wrap : SpaceMembership → SpaceMembership
without_wrap m = record m { wrapped_space_keys = none; wrapped_by = none }

-- The writes of `remove_member`: the membership goes, the other members' wraps and the pending
-- invites' wraps with it, and the owner owes a rekey.
unfoldable pub depart : Space → ℕ → ℕ → Db → Db
depart s target now db = record db {
  memberships =
      update_where (λ m. m.space_id == s.id && not (m.user_id == s.owner_id)) without_wrap
        (delete_where (is_member s.id target) db.memberships);
  spaces = update_first (has_id s.id) (λ x. record x { rekey_requested_at = some now }) db.spaces;
  invites =
      update_where (λ i. i.space_id == s.id && is_some i.wrapped_space_keys)
        (λ i. record i { wrapped_space_keys = none }) db.invites;
}

-- `remove_member`: whether a membership was deleted.
unfoldable pub remove_member : ℕ → ℕ → ℕ → ℕ → Db → Reply (Bool × Db)
unfolding depart
remove_member space target uid now db = do
  s ← or_err (find_space space db) 404 "Space not found"
  guard (s.owner_id == uid || target == uid) 403 "Insufficient permission"
  guard (not (target == s.owner_id)) 400 "Owner cannot leave; delete the space"
  ok (
      if any_where (is_member space target) db.memberships
      then (true, depart s target now db)
      else (false, db))

-- `require_owned_space`
unfoldable pub require_owned_space : ℕ → ℕ → Db → Reply Space
require_owned_space space uid db = do
  s ← or_err (find_space space db) 404 "Space not found"
  guard (s.owner_id == uid) 403 "Owner only"
  ok s
