-- ===== src/Spaces/Invites.antt =====
-- src/spaces/invites.py: the addressed invites. What is published and mailed is returned as the
-- flags `known` and `mailed`; an address stands for its lower-case form, with 0 for none.
pub mod Lifecycle
use rover_tools_orange_copy.Prelude.{
  ltb, ◌>>=◌, ◌>>◌, or_err, guard, ok, err, update_first, is_some, not, any_where, true, ◌&&◌, ◌||◌,
  ◌∷◌, Reply, false, first_where, if◌then◌else◌, some, ◌==◌, Bool, none, Option, ℕ, List, [],
  String, ◌-◌, ◌+◌, ◌*◌,
}
use mathlib.Core.Option
use rover_tools_orange_copy.Store.{
  Env, InviteStatus, Profile, SpaceInvite, is_member, Db, Space, SpaceMembership,
}
use rover_tools_orange_copy.Spaces.Members.{find_space, membership_of, add_membership}

-- `_INVITE_TTL_HOURS` in milliseconds
abbrev pub invite_ttl : ℕ
invite_ttl = 72 * 3600 * 1000

-- `_EMAIL_RESEND_COOLDOWN_MS`
abbrev pub resend_cooldown : ℕ
resend_cooldown = 10 * 60 * 1000

-- The claims of the token: who calls, the address and whether it is verified.
pub record Claims : Type 0 where
  pub sub : ℕ
  pub email : ℕ
  pub email_verified : Option Bool

abbrev pub is_waiting : InviteStatus → Bool
is_waiting InviteStatus.pending = true
is_waiting InviteStatus.accepted = false
is_waiting InviteStatus.declined = false
is_waiting InviteStatus.revoked = false

-- `f"Invite already {inv.status}"`
abbrev pub invite_already : InviteStatus → String
invite_already InviteStatus.pending = "Invite already pending"
invite_already InviteStatus.accepted = "Invite already accepted"
invite_already InviteStatus.declined = "Invite already declined"
invite_already InviteStatus.revoked = "Invite already revoked"

-- The pending invite into a space for an address.
abbrev pub is_live : ℕ → ℕ → SpaceInvite → Bool
is_live space email i = i.space_id == space && i.invitee_email == email && is_waiting i.status

abbrev pub has_email : ℕ → Profile → Bool
has_email email p = elim p.email [ none ↦ false | some e ↦ e == email ]

abbrev pub is_invite : ℕ → SpaceInvite → Bool
is_invite id i = i.id == id

abbrev pub profile_id : Profile → ℕ
profile_id p = p.id

-- `now - (expires_at - TTL) < COOLDOWN`, over the integers.
abbrev pub recently_sent : ℕ → Option SpaceInvite → Bool
recently_sent now none = false
recently_sent now (some i) = ltb (now + invite_ttl) (i.expires_at + resend_cooldown)

-- An invite that is renewed.
abbrev pub renewed : Option ℕ → ℕ → SpaceInvite → SpaceInvite
renewed invitee expires i = record i {
  expires_at = expires;
  invitee_user_id = invitee;
  wrapped_space_keys = none;
}

-- The row of a first invite.
abbrev pub new_invite : ℕ → ℕ → ℕ → ℕ → Option ℕ → ℕ → ℕ → SpaceInvite
new_invite id space inviter email invitee now expires = record {
  id = id;
  space_id = space;
  inviter_id = inviter;
  invitee_email = email;
  invitee_user_id = invitee;
  status = InviteStatus.pending;
  created_at = now;
  expires_at = expires;
  wrapped_space_keys = none;
}

-- What the answer holds besides the row: whether the invitee is told, and whether mail is sent.
pub record Notice : Type 0 where
  pub known : Bool
  pub mailed : Bool

-- The invitee, if one is known, is neither the inviter nor a member.
abbrev pub check_invitee : Option Profile → Space → ℕ → Db → Reply (Unit {0})
check_invitee none space inviter db = ok tt
check_invitee (some p) space inviter db =
    guard (not (p.id == inviter)) 400 "That's your own email"
    >> guard (not (any_where (is_member space.id p.id) db.memberships)) 409 "Already a member"

-- The invites after a pending one has been renewed, or a new one added.
abbrev pub put_invite : Space → ℕ → ℕ → Option ℕ → ℕ → Env → List SpaceInvite → List SpaceInvite
put_invite space inviter email invitee expires env invites =
    if any_where (is_live space.id email) invites
    then update_first (is_live space.id email) (renewed invitee expires) invites
    else new_invite env.new_id space.id inviter email invitee env.now expires ∷ invites

-- `create_invite`; `later` is the clock at its second reading.
unfoldable pub create_invite : Space → ℕ → ℕ → ℕ → Env → Db → Reply (Notice × Db)
create_invite space inviter email later env db = do
  check_invitee (first_where (has_email email) db.profiles) space inviter db
  ok (
    record {
      known = is_some (first_where (has_email email) db.profiles);
      mailed =
          is_some (first_where (has_email email) db.profiles)
          && not (recently_sent env.now (first_where (is_live space.id email) db.invites));
    },
    record db {
      invites =
          put_invite space inviter email
            (Option.map profile_id (first_where (has_email email) db.profiles)) (later + invite_ttl)
            env db.invites;
    },
  )

-- `inv.invitee_user_id != uid`
abbrev pub is_user : Option ℕ → ℕ → Bool
is_user none uid = false
is_user (some u) uid = u == uid

-- The invite is addressed to the caller.
abbrev pub addressed : Claims → SpaceInvite → Bool
addressed claims i =
    is_user i.invitee_user_id claims.sub
    || not (claims.email == 0) && i.invitee_email == claims.email

-- `_get_invite_for_invitee`
unfoldable pub invite_for_invitee : ℕ → Claims → ℕ → Db → Reply SpaceInvite
invite_for_invitee invite claims now db = do
  i ← or_err (first_where (is_invite invite) db.invites) 404 "Invite not found"
  guard (addressed claims i) 403 "Not your invite"
  guard (is_waiting i.status) 409 (invite_already i.status)
  guard (not (ltb i.expires_at now)) 410 "Invite expired"
  ok i

-- `attach_invite_key`
unfoldable pub attach_invite_key : ℕ → ℕ → ℕ → Db → Reply Db
attach_invite_key invite wrap uid db = do
  i ← or_err (first_where (is_invite invite) db.invites) 404 "Invite not found"
  guard (i.inviter_id == uid) 403 "Not your invite"
  guard (is_waiting i.status) 409 (invite_already i.status)
  ok (record db {
    invites =
        update_first (is_invite invite) (λ x. record x { wrapped_space_keys = some wrap })
          db.invites;
  })

abbrev pub accepted_by : ℕ → SpaceInvite → SpaceInvite
accepted_by uid i = record i {
  status = InviteStatus.accepted;
  invitee_user_id = some uid;
  wrapped_space_keys = none;
}

abbrev pub is_false : Option Bool → Bool
is_false none = false
is_false (some b) = not b

-- The writes of an acceptance: the membership, then the invite.
abbrev pub enter : Space → SpaceInvite → ℕ → ℕ → Db → Db
enter s i uid now db =
    record (add_membership s uid i.wrapped_space_keys (some i.inviter_id) now db) {
      invites = update_first (is_invite i.id) (accepted_by uid) db.invites;
    }

-- `accept_invite`
unfoldable pub accept_invite : ℕ → Claims → ℕ → Db → Reply Db
unfolding invite_for_invitee
accept_invite invite claims now db = do
  guard (not (is_false claims.email_verified)) 403 "email_unverified"
  i ← invite_for_invitee invite claims now db
  s ← or_err (find_space i.space_id db) 404 "Space no longer exists"
  ok (enter s i claims.sub now db)

-- `decline_invite`
unfoldable pub decline_invite : ℕ → Claims → ℕ → Db → Reply Db
unfolding invite_for_invitee
decline_invite invite claims now db = do
  i ← invite_for_invitee invite claims now db
  ok (record db {
    invites =
        update_first (is_invite invite)
          (λ x. record x { status = InviteStatus.declined; invitee_user_id = some claims.sub })
          db.invites;
  })

-- `revoke_invite`
unfoldable pub revoke_invite : ℕ → ℕ → Db → Reply Db
revoke_invite invite uid db = do
  i ← or_err (first_where (is_invite invite) db.invites) 404 "Invite not found"
  guard (i.inviter_id == uid) 403 "Not your invite"
  guard (is_waiting i.status) 409 (invite_already i.status)
  ok (record db {
    invites =
        update_first (is_invite invite) (λ x. record x { status = InviteStatus.revoked })
          db.invites;
  })
