-- ===== src/Spaces/Keys.antt =====
-- `distribute_keys` of src/spaces/service.py: a member hands wrapped keyrings to members.
pub mod Relay
use rover_tools_orange_copy.Prelude.{
  ◌>>=◌, ◌>>◌, or_err, guard, ok, update_first, is_some, not, any_where, true, ◌&&◌, ◌||◌, ◌∷◌,
  Reply, false, first_where, if◌then◌else◌, some, ◌==◌, Bool, none, Option, ℕ, List, [], all_where,
}
use rover_tools_orange_copy.Store.{is_member, Db, Space, SpaceMembership}
use rover_tools_orange_copy.Spaces.Members.{has_id, find_space, membership_of}

-- `WrappedKeyringEntry`
pub record WrappedKeyringEntry : Type 0 where
  pub user_id : ℕ
  pub wrapped_space_keys : ℕ

-- A text that is neither `None` nor empty.
abbrev pub given : Option ℕ → Bool
given none = false
given (some w) = not (w == 0)

-- Whether the caller may write this row: the owner any, another member only a gap that is not the
-- owner's.
abbrev pub may_write : Space → ℕ → SpaceMembership → Bool
may_write s uid m =
    s.owner_id == uid || not (m.user_id == s.owner_id || is_some m.wrapped_space_keys)

abbrev pub set_wrap : ℕ → ℕ → SpaceMembership → SpaceMembership
set_wrap wrap uid m = record m { wrapped_space_keys = some wrap; wrapped_by = some uid }

-- One turn of the loop: the memberships after it.
unfoldable pub write_one :
    Space → ℕ → WrappedKeyringEntry → List SpaceMembership → List SpaceMembership
write_one s uid e ms = elim (first_where (is_member s.id e.user_id) ms) [
  | none ↦ ms
  | some m ↦
      if may_write s uid m
      then update_first (is_member s.id e.user_id) (set_wrap e.wrapped_space_keys uid) ms
      else ms
]

-- Whether that turn appends to `written`.
unfoldable pub writes_one : Space → ℕ → WrappedKeyringEntry → List SpaceMembership → Bool
writes_one s uid e ms = elim (first_where (is_member s.id e.user_id) ms) [
  | none ↦ false
  | some m ↦ may_write s uid m
]

-- The loop over `req.wrapped_keyrings`: each turn reads what the earlier ones wrote.
unfoldable pub write_keyrings :
    Space → ℕ → List WrappedKeyringEntry → List SpaceMembership → List SpaceMembership
unfolding write_one
write_keyrings s uid [] ms = ms
write_keyrings s uid (e ∷ es) ms = write_keyrings s uid es (write_one s uid e ms)

-- `written`
unfoldable pub written : Space → ℕ → List WrappedKeyringEntry → List SpaceMembership → List ℕ
unfolding write_one writes_one
written s uid [] ms = []
written s uid (e ∷ es) ms =
    let rest = written s uid es (write_one s uid e ms) in
    if writes_one s uid e ms then e.user_id ∷ rest else rest

-- No membership of the space is without a wrap.
abbrev pub all_wrapped : ℕ → List SpaceMembership → Bool
all_wrapped space ms =
    all_where (λ (m : SpaceMembership). not (m.space_id == space) || is_some m.wrapped_space_keys)
      ms

-- What the call does to the row of the space.
abbrev pub settle : ℕ → Option ℕ → List SpaceMembership → Space → Space
settle uid fingerprint ms s =
    if s.owner_id == uid
    then record s {
      key_fingerprint = if given fingerprint then fingerprint else s.key_fingerprint;
      rekey_requested_at = if all_wrapped s.id ms then none else s.rekey_requested_at;
    }
    else s

-- `distribute_keys`: the accounts written, and the database.
unfoldable pub distribute_keys :
    ℕ → ℕ → List WrappedKeyringEntry → Option ℕ → Db → Reply (List ℕ × Db)
unfolding write_keyrings written
distribute_keys space uid keyrings fingerprint db = do
  s ← or_err (find_space space db) 404 "Space not found"
  guard (is_some (membership_of space uid db)) 403 "Not a member"
  ok (
    written s uid keyrings db.memberships,
    record db {
      memberships = write_keyrings s uid keyrings db.memberships;
      spaces =
          update_first (has_id space)
            (settle uid fingerprint (write_keyrings s uid keyrings db.memberships)) db.spaces;
    },
  )
