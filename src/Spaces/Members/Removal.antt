-- ===== src/Spaces/Members/Removal.antt =====
-- What a departure leaves behind.
use rover_tools_orange_copy.Store.{SpaceInvite, is_member, Db, SpaceMembership, Space}
use rover_tools_orange_copy.Prelude.{
  first-delete_where_other, first-delete_where_same, first-update_where, inr, inl, Bool-cases,
  update_first, ok-injective, subst, or_err-cases, guard-cases, refl, [], ap, arith, is_some, not,
  ◌||◌, false, some, ◌&&◌, ◌∙◌, ◌∷◌, any_where, none, ok, true, update_where, ◌==◌, first_where,
  if◌then◌else◌, ◌≡◌, List, Bool, ℕ,
}
use mathlib.Core.Option
use rover_tools_orange_copy.Spaces.Members.{
  without_wrap, membership_of, depart, remove_member, has_id, find_space,
}

-- The membership of another account, or in another space, as a departure leaves it.
abbrev pub kept_membership : Space → SpaceMembership → SpaceMembership
kept_membership s m =
    if m.space_id == s.id && not (m.user_id == s.owner_id)
    then record m { wrapped_space_keys = none; wrapped_by = none }
    else m

first-update_first :
    {A : Type 0} (p : A → Bool) (f : A → A) (xs : List A)
    → ((x : A) → p (f x) ≡ p x)
    → first_where p (update_first p f xs) ≡ Option.map f (first_where p xs)
first-update_first p f [] h = refl
first-update_first p f (x ∷ xs) h = ground (arith, h x, first-update_first p f xs h)

no-wrapped :
    (space : ℕ) (xs : List SpaceInvite)
    → any_where
        (λ (i : SpaceInvite). i.space_id == space && is_some i.wrapped_space_keys)
        (update_where
          (λ i. i.space_id == space && is_some i.wrapped_space_keys)
          (λ i. record i { wrapped_space_keys = none })
          xs)
      ≡ false
no-wrapped space [] = refl
no-wrapped space (x ∷ xs) = ground (arith, no-wrapped space xs)

module _ (s : Space) (target now : ℕ) (db : Db) where
  -- What the departure of a member means for the space and for everybody else.
  pub record IsDeparted (db' : Db) : Type 0 where
    -- The member is out; everybody else stays, the others of the space without their wraps, its
    -- owner as before.
    pub rows :
        (space uid : ℕ)
        → membership_of space uid db' ≡ (
            if space == s.id && uid == target
            then none
            else Option.map (kept_membership s) (membership_of space uid db))
    -- No invite into the space carries a wrap.
    pub invites :
        any_where
          (λ (i : SpaceInvite). i.space_id == s.id && is_some i.wrapped_space_keys)
          db'.invites
        ≡ false
    -- A rekey is owed.
    pub rekey :
        find_space s.id db'
        ≡ Option.map
            (λ (x : Space). record x { rekey_requested_at = some now })
            (find_space s.id db)

  depart-IsDeparted : IsDeparted (depart s target now db)
  unfolding depart
  depart-IsDeparted = record {
    rows = λ space uid. elim (Bool-cases (space == s.id && uid == target)) [
      | inl same ↦ rw same (
          first-update_where _ (is_member space uid) without_wrap _ (λ x. refl)
          ∙ ap (Option.map (kept_membership s)) (
              first-delete_where_same (is_member s.id target) (is_member space uid) db.memberships
                (λ x h. ground (arith, same, h))))
      | inr other ↦ rw other (
          first-update_where _ (is_member space uid) without_wrap _ (λ x. refl)
          ∙ ap (Option.map (kept_membership s)) (
              first-delete_where_other (is_member s.id target) (is_member space uid) db.memberships
                (λ x h. ground (arith, other, h))))
    ];
    invites = no-wrapped s.id db.invites;
    rekey =
        first-update_first (has_id s.id) (λ (x : Space). record x { rekey_requested_at = some now })
          db.spaces (λ x. refl);
  }

-- If a removal says that it deleted a membership, then the caller is the owner or the member, the
-- member is not the owner, the member is out, every other member but the owner has lost the wrap
-- and the mark of who made it and kept the rest of the row, no invite into the space carries a wrap, and a rekey is owed.
pub remove_member-IsDeparted :
    (space target uid now : ℕ) (db db' : Db)
    → remove_member space target uid now db ≡ ok (true, db')
    → (s : Space) × (find_space space db ≡ some s)
      × ((s.owner_id == uid || target == uid) ≡ true)
      × ((target == s.owner_id) ≡ false)
      × IsDeparted s target now db db'
unfolding remove_member
remove_member-IsDeparted space target uid now db db' h =
    let (s, e, k) = or_err-cases (find_space space db) _ _ _ h in
    let (allowed, k1) = guard-cases _ _ _ _ k in
    let (other, k2) = guard-cases _ _ _ _ k1 in
    (
      s,
      e,
      allowed,
      ground arith,
      subst (IsDeparted s target now db)
          (removed _ _ _ (any_where (is_member space target) db.memberships) (ok-injective k2))
          (depart-IsDeparted s target now db),
    )
  where
    removed :
        (x y z : Db) (b : Bool)
        → ◌≡◌ {A = Bool × Db} (if b then (true, x) else (false, y)) (true, z)
        → x ≡ z
    removed x y z true q = ap (λ p. p.1) q
    removed x y z false q = cc
