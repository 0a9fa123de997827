-- ===== src/Spaces/Invites/Lifecycle.antt =====
-- What stays true of an invite over its life.
use rover_tools_orange_copy.Spaces.Members.Joining.{add_membership-seated, seated}
use rover_tools_orange_copy.Spaces.Members.{has_id, find_space, membership_of}
use rover_tools_orange_copy.Prelude.{
  refl, ==_iff, none, ◌⊎◌, not, first_where-update_first, inr, any_where-none, first_where-In,
  first_where-none, ◌∙◌, guard-cases, inl, or_err-cases, ◌&&◌, ltb, ok-injective, ◌==◌, Bool-cases,
  ap, subst, any_where, false, first_where, >>=-returned, Option, [], ◌∷◌, arith, update_first, ◌≤◌,
  count_where, ok, true, ◌≡◌, List, Bool, ℕ, some,
}
use rover_tools_orange_copy.Store.{InviteStatus, Env, Space, SpaceInvite, Db}
use rover_tools_orange_copy.Spaces.Invites.{
  is_user, enter, renewed, accepted_by, is_waiting, addressed, new_invite, has_email, is_invite,
  check_invitee, is_false, put_invite, Claims, invite_for_invitee, Notice, is_live, create_invite,
  accept_invite,
}

count-renewed :
    (space email : ℕ) (p : SpaceInvite → Bool) (f : SpaceInvite → SpaceInvite)
    (xs : List SpaceInvite)
    → ((x : SpaceInvite) → is_live space email (f x) ≡ true → is_live space email x ≡ true)
    → count_where (is_live space email) (update_first p f xs) ≤ count_where (is_live space email) xs
count-renewed space email p f [] h = ground arith
count-renewed space email p f (x ∷ xs) h = ground (arith, h x, count-renewed space email p f xs h)

put_invite-single :
    (s : Space) (inviter address : ℕ) (invitee : Option ℕ) (expires : ℕ) (env : Env)
    (xs : List SpaceInvite) (space email : ℕ)
    → count_where (is_live space email) xs ≤ 1
    → count_where (is_live space email) (put_invite s inviter address invitee expires env xs) ≤ 1
put_invite-single s inviter address invitee expires env xs space email one =
    elim (Bool-cases (any_where (is_live s.id address) xs)) [
      | inl e ↦
          let less =
            count-renewed space email (is_live s.id address) (renewed invitee expires) xs
              (λ x h. h) in
          rw e (ground (arith, less, one))
      | inr e ↦ rw e (fresh e)
    ]
  where
    fresh :
        any_where (is_live s.id address) xs ≡ false
        → count_where
            (is_live space email)
            (new_invite env.new_id s.id inviter address invitee env.now expires ∷ xs)
          ≤ 1
    fresh e = elim (Bool-cases (s.id == space && address == email)) [
      | inl same ↦
          let none_yet : count_where (is_live space email) xs ≡ 0 =
            ap (λ p. count_where (is_live p email) xs) (ground (arith, same))
            ∙ ap (λ a. count_where (is_live s.id a) xs) (ground (arith, same))
            ∙ first_where-none (is_live s.id address) xs
                (any_where-none (is_live s.id address) xs e) in
          ground (arith, none_yet)
      | inr other ↦ rw other (ground (arith, one))
    ]

-- After `create_invite`, each space has at most one pending invite for each address if it had at
-- most one before.
pub create_invite-single :
    (s : Space) (inviter address later : ℕ) (env : Env) (db db' : Db) (n : Notice) (space email : ℕ)
    → create_invite s inviter address later env db ≡ ok (n, db')
    → count_where (is_live space email) db.invites ≤ 1
    → count_where (is_live space email) db'.invites ≤ 1
unfolding create_invite
create_invite-single s inviter address later env db db' n space email h one =
    let (u, e, k) =
      >>=-returned (check_invitee (first_where (has_email address) db.profiles) s inviter db) _ h in
    subst (λ (d : Db). count_where (is_live space email) d.invites ≤ 1)
      (ap (λ p. p.1) (ok-injective k))
      (put_invite-single s inviter address _ _ env db.invites space email one)

pub invite_for_invitee-returned :
    (invite : ℕ) (claims : Claims) (now : ℕ) (db : Db) (i : SpaceInvite)
    → invite_for_invitee invite claims now db ≡ ok i
    → (first_where (is_invite invite) db.invites ≡ some i)
      × (addressed claims i ≡ true)
      × (is_waiting i.status ≡ true)
      × (ltb i.expires_at now ≡ false)
unfolding invite_for_invitee
invite_for_invitee-returned invite claims now db i h =
    let (x, e, k) = or_err-cases (first_where (is_invite invite) db.invites) _ _ _ h in
    let (mine, k1) = guard-cases _ _ _ _ k in
    let (open_, k2) = guard-cases _ _ _ _ k1 in
    let (live, k3) = guard-cases _ _ _ _ k2 in
    subst
      (λ z.
        (first_where (is_invite invite) db.invites ≡ some z)
        × (addressed claims z ≡ true)
        × (is_waiting z.status ≡ true)
        × (ltb z.expires_at now ≡ false))
      (ok-injective k3) (e, mine, open_, ground (arith, live))

-- The row of an invite that this account has accepted, with no wrap left.
abbrev pub spent : ℕ → SpaceInvite → SpaceInvite
spent uid i = record i {
  status = InviteStatus.accepted;
  invitee_user_id = some uid;
  wrapped_space_keys = none;
}

-- The invite names the account, or the address of its token, which is then not empty.
abbrev pub IsFor : Claims → SpaceInvite → Type 0
IsFor claims i =
    (i.invitee_user_id ≡ some claims.sub)
    ⊎ (((claims.email == 0) ≡ false) × (i.invitee_email ≡ claims.email))

was_pending : (t : InviteStatus) → is_waiting t ≡ true → t ≡ InviteStatus.pending
was_pending InviteStatus.pending h = refl
was_pending InviteStatus.accepted h = cc
was_pending InviteStatus.declined h = cc
was_pending InviteStatus.revoked h = cc

not_unverified : (v : Option Bool) → is_false v ≡ false → (v ≡ none) ⊎ (v ≡ some true)
not_unverified none h = inl refl
not_unverified (some true) h = inr refl
not_unverified (some false) h = cc

same_user : (o : Option ℕ) (uid : ℕ) → is_user o uid ≡ true → o ≡ some uid
same_user none uid h = cc
same_user (some u) uid h = ap some ((==_iff u uid).0 h)

addressed-IsFor : (claims : Claims) (i : SpaceInvite) → addressed claims i ≡ true → IsFor claims i
addressed-IsFor claims i h = elim (Bool-cases (is_user i.invitee_user_id claims.sub)) [
  | inl e ↦ inl (same_user i.invitee_user_id claims.sub e)
  | inr e ↦
      inr (ground (arith, e, h), (==_iff i.invitee_email claims.email).0 (ground (arith, e, h)))
]

-- If an invite is accepted, then the caller's address is not known to be unverified, the invite is
-- addressed to the caller, was pending and had not expired, it is spent now and holds no wrap, and
-- the caller is a member of its space - one who was keeps the membership, another gets the wrap of
-- the invite with the inviter as the one who made it.
pub accept_invite-joins :
    (invite : ℕ) (claims : Claims) (now : ℕ) (db db' : Db)
    → accept_invite invite claims now db ≡ ok db'
    → (i : SpaceInvite) × ((claims.email_verified ≡ none) ⊎ (claims.email_verified ≡ some true))
      × (first_where (is_invite invite) db.invites ≡ some i)
      × IsFor claims i
      × (i.status ≡ InviteStatus.pending)
      × (ltb i.expires_at now ≡ false)
      × (first_where (is_invite invite) db'.invites ≡ some (spent claims.sub i))
      × ((s : Space) × (find_space i.space_id db ≡ some s)
          × (membership_of i.space_id claims.sub db'
              ≡ some (
                  seated s claims.sub i.wrapped_space_keys
                    (some i.inviter_id)
                    now
                    (membership_of i.space_id claims.sub db))))
unfolding accept_invite
accept_invite-joins invite claims now db db' h =
    let (verified, k) =
      guard-cases (not (is_false claims.email_verified)) 403 "email_unverified" _ h in
    let (i, e, k1) = >>=-returned (invite_for_invitee invite claims now db) _ k in
    let (found, mine, open_, live) = invite_for_invitee-returned invite claims now db i e in
    let (s, e2, k2) = or_err-cases (find_space i.space_id db) _ _ _ k1 in
    let own : s.id ≡ i.space_id =
      ground (arith, (first_where-In (has_id i.space_id) db.spaces s e2).1) in
    let name : i.id ≡ invite =
      ground (arith, (first_where-In (is_invite invite) db.invites i found).1) in
    (
      i,
      not_unverified claims.email_verified (ground (arith, verified)),
      found,
      addressed-IsFor claims i mine,
      was_pending i.status open_,
      live,
      subst (λ (d : Db). first_where (is_invite invite) d.invites ≡ some (spent claims.sub i))
          (ok-injective k2)
          (ap
              (λ (n : ℕ).
                first_where (is_invite invite)
                  (update_first (is_invite n) (accepted_by claims.sub) db.invites))
              name
            ∙ first_where-update_first (is_invite invite) (accepted_by claims.sub) db.invites i
                found (first_where-In (is_invite invite) db.invites i found).1),
      (
        s,
        e2,
        subst
            (λ (d : Db).
              membership_of i.space_id claims.sub d
              ≡ some (
                  seated s claims.sub i.wrapped_space_keys (some i.inviter_id) now
                    (membership_of i.space_id claims.sub db)))
            (ok-injective k2)
            (subst
              (λ p.
                membership_of p claims.sub (enter s i claims.sub now db)
                ≡ some (
                    seated s claims.sub i.wrapped_space_keys (some i.inviter_id) now
                      (membership_of p claims.sub db)))
              own (add_membership-seated s claims.sub _ _ now db)),
      ),
    )
