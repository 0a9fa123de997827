-- ===== src/Spaces/Deletion.antt =====
-- `delete_space` of src/spaces/service.py, and what the foreign keys of the tables delete with the
-- row. The removals have no foreign key, and an entry keeps the id in its list.
use rover_tools_orange_copy.Spaces.Members.{membership_of, find_space, has_id, require_owned_space}
use rover_tools_orange_copy.Prelude.{
  any-delete_where, ◌∙◌, ap, sym, first_where-In, >>=-returned, first-delete_where_other, inr,
  arith, first-delete_where_same, inl, Bool-cases, if◌then◌else◌, ok-injective, subst, guard-cases,
  any_where, or_err-cases, ◌==◌, delete_where, ◌>>=◌, none, some, ok, Reply, ◌≡◌, ℕ, true, false,
}
use rover_tools_orange_copy.Store.{
  is_member, SpaceComment, SpaceJoinRequest, SpaceInvite, SpaceMembership, Space, Db,
}

-- The rows that go with the space.
abbrev pub delete_cascade : ℕ → Db → Db
delete_cascade space db = record db {
  spaces = delete_where (has_id space) db.spaces;
  memberships = delete_where (λ (m : SpaceMembership). m.space_id == space) db.memberships;
  invites = delete_where (λ (i : SpaceInvite). i.space_id == space) db.invites;
  join_requests = delete_where (λ (r : SpaceJoinRequest). r.space_id == space) db.join_requests;
  comments = delete_where (λ (c : SpaceComment). c.space_id == space) db.comments;
}

-- `delete_space`
unfoldable pub delete_space : ℕ → ℕ → Db → Reply Db
unfolding require_owned_space
delete_space space uid db = do s ← require_owned_space space uid db; ok (delete_cascade s.id db)

require_owned_space-returned :
    (space uid : ℕ) (db : Db) (s : Space)
    → require_owned_space space uid db ≡ ok s
    → (find_space space db ≡ some s) × ((s.owner_id == uid) ≡ true)
unfolding require_owned_space
require_owned_space-returned space uid db s h =
    let (x, e, k) = or_err-cases (find_space space db) _ _ _ h in
    let (owned, k1) = guard-cases _ _ _ _ k in
    subst (λ z. (find_space space db ≡ some z) × ((z.owner_id == uid) ≡ true)) (ok-injective k1)
      (e, owned)

-- If a space is deleted, then the caller owned it, it is gone with its memberships, invites, join
-- requests and comments, and every other space and membership is as before.
pub delete_space_gone :
    (space uid : ℕ) (db db' : Db) (place who : ℕ)
    → delete_space space uid db ≡ ok db'
    → (s : Space) × (find_space space db ≡ some s)
      × ((s.owner_id == uid) ≡ true)
      × (any_where (λ (i : SpaceInvite). i.space_id == space) db'.invites ≡ false)
      × (any_where (λ (r : SpaceJoinRequest). r.space_id == space) db'.join_requests ≡ false)
      × (any_where (λ (c : SpaceComment). c.space_id == space) db'.comments ≡ false)
      × (find_space place db' ≡ (if place == space then none else find_space place db))
      × (membership_of place who db'
          ≡ (if place == space then none else membership_of place who db))
unfolding delete_space
delete_space_gone space uid db db' place who h =
    let (s, e, k) = >>=-returned (require_owned_space space uid db) _ h in
    let (found, owned) = require_owned_space-returned space uid db s e in
    let own : s.id ≡ space = ground (arith, (first_where-In (has_id space) db.spaces s found).1) in
    let wrote : delete_cascade space db ≡ db' =
      sym (ap (λ p. delete_cascade p db) own) ∙ ok-injective k in
    (
      s,
      found,
      owned,
      subst (λ (d : Db). any_where (λ (i : SpaceInvite). i.space_id == space) d.invites ≡ false)
          wrote (any-delete_where _ db.invites),
      subst
          (λ (d : Db).
            any_where (λ (r : SpaceJoinRequest). r.space_id == space) d.join_requests ≡ false)
          wrote (any-delete_where _ db.join_requests),
      subst (λ (d : Db). any_where (λ (c : SpaceComment). c.space_id == space) d.comments ≡ false)
          wrote (any-delete_where _ db.comments),
      subst
          (λ (d : Db). find_space place d ≡ (if place == space then none else find_space place db))
          wrote there,
      subst
          (λ (d : Db).
            membership_of place who d
            ≡ (if place == space then none else membership_of place who db))
          wrote seats,
    )
  where
    there :
        find_space place (delete_cascade space db)
        ≡ (if place == space then none else find_space place db)
    there = elim (Bool-cases (place == space)) [
      | inl same ↦ rw same (
          first-delete_where_same (has_id space) (has_id place) db.spaces
            (λ x h. ground (arith, h, same)))
      | inr other ↦ rw other (
          first-delete_where_other (has_id space) (has_id place) db.spaces
            (λ x h. ground (arith, h, other)))
    ]

    seats :
        membership_of place who (delete_cascade space db)
        ≡ (if place == space then none else membership_of place who db)
    seats = elim (Bool-cases (place == space)) [
      | inl same ↦ rw same (
          first-delete_where_same (λ (m : SpaceMembership). m.space_id == space)
            (is_member place who) db.memberships (λ x h. ground (arith, h, same)))
      | inr other ↦ rw other (
          first-delete_where_other (λ (m : SpaceMembership). m.space_id == space)
            (is_member place who) db.memberships (λ x h. ground (arith, h, other)))
    ]
