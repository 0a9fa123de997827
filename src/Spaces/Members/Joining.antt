-- ===== src/Spaces/Members/Joining.antt =====
-- Who is a member after `add_membership`.
use rover_tools_orange_copy.Prelude.{
  none, some, any_where-none, if◌then◌else◌, arith, first_where-any, inr, inl, any_where,
  Bool-cases, false, ◌≡◌, ◌&&◌, ◌==◌, Option, ℕ,
}
use rover_tools_orange_copy.Store.{is_member, Role, Space, SpaceMembership, Db}
use rover_tools_orange_copy.Spaces.Members.{membership_of, add_membership}

pub add_membership-other :
    (s : Space) (uid : ℕ) (wrapped by : Option ℕ) (now : ℕ) (db : Db) (space who : ℕ)
    → (s.id == space && uid == who) ≡ false
    → membership_of space who (add_membership s uid wrapped by now db) ≡ membership_of space who db
unfolding add_membership
add_membership-other s uid wrapped by now db space who h =
    elim (Bool-cases (any_where (is_member s.id uid) db.memberships)) [
      | inl e ↦ rw e
      | inr e ↦ rw (e, h)
    ]

-- The membership of an account that joins: the one there was, or a new one that has the wrap and
-- sees the history from the floor that the space sets now.
abbrev pub seated : Space → ℕ → Option ℕ → Option ℕ → ℕ → Option SpaceMembership → SpaceMembership
seated s uid wrapped by now (some m) = m
seated s uid wrapped by now none = record {
  space_id = s.id;
  user_id = uid;
  role = Role.member;
  wrapped_space_keys = wrapped;
  wrapped_by = by;
  history_from_ts = if s.share_history then none else some now;
  joined_at = now;
}

pub add_membership-seated :
    (s : Space) (uid : ℕ) (wrapped by : Option ℕ) (now : ℕ) (db : Db)
    → membership_of s.id uid (add_membership s uid wrapped by now db)
      ≡ some (seated s uid wrapped by now (membership_of s.id uid db))
unfolding add_membership
add_membership-seated s uid wrapped by now db =
    elim (Bool-cases (any_where (is_member s.id uid) db.memberships)) [
      | inl e ↦ let (m, f) = first_where-any (is_member s.id uid) db.memberships e in rw (e, f)
      | inr e ↦ rw (e, any_where-none (is_member s.id uid) db.memberships e) (ground arith)
    ]
