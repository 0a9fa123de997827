-- ===== src/Spaces/Tests.antt =====
-- The theorems of the spaces at concrete inputs: space 3 of account 1, with member 2; account 5
-- knocks, account 6 was declined, and account 7 holds an invite.
use rover_tools_orange_copy.Spaces.Deletion.{delete_space_gone, delete_space}
use rover_tools_orange_copy.Spaces.Requests.Unique.{Steps-IsSingle, IsSingle}
use rover_tools_orange_copy.Spaces.Comments.Threads.{comment_counts-length, counted}
use rover_tools_orange_copy.Sync.Page.{insert_by, sort_by}
use rover_tools_orange_copy.Spaces.Comments.{
  new_comment, is_entry, list_comments, count_comments, comment_counts, require_member,
  CreateCommentRequest, add_comment,
}
use rover_tools_orange_copy.Spaces.Takedown.Gone.{remove_entry_from_space_gone}
use rover_tools_orange_copy.Spaces.Takedown.Outside.{is_taken, outside}
use rover_tools_orange_copy.Sync.Entry.{is_key}
use rover_tools_orange_copy.Sync.Recorded.{IsRecorded}
use rover_tools_orange_copy.Store.Wraps.{JsonValue, KeyName, dict}
use rover_tools_orange_copy.Sync.Removals.{
  upsert_removal, upsert_removals, has_duplicates, record_space_removals,
}
use rover_tools_orange_copy.Spaces.Takedown.{remove_entry_from_space}
use mathlib.Core.Option
use rover_tools_orange_copy.Spaces.Members.Removal.{remove_member-IsDeparted, IsDeparted}
use rover_tools_orange_copy.Spaces.Keys.Relay.{
  distribute_keys-relay, distribute_keys-written, IsHanded,
}
use rover_tools_orange_copy.Spaces.Members.Joining.{seated}
use rover_tools_orange_copy.Spaces.Invites.Lifecycle.{
  IsFor, spent, accept_invite-joins, create_invite-single,
}
use rover_tools_orange_copy.Spaces.Keys.{
  writes_one, write_one, written, WrappedKeyringEntry, write_keyrings, distribute_keys,
}
use rover_tools_orange_copy.Spaces.Requests.{
  JoinStatus, knock_again, pending_row, knock, require_approver, approve, request_join,
}
use rover_tools_orange_copy.Spaces.Invites.{
  is_invite, is_live, invite_for_invitee, Claims, accept_invite, create_invite,
}
use rover_tools_orange_copy.Spaces.Requests.Declined.{Step, Steps, Steps-IsOut, IsOut, IsShut}
use rover_tools_orange_copy.Spaces.Members.{
  require_owned_space, membership_of, may_approve, add_membership, find_space, depart,
  remove_member,
}
use rover_tools_orange_copy.Prelude.{
  ◌⊎◌, length, any_where, is_some, ltb, ◌&&◌, if◌then◌else◌, inl, first_where, false, ◌||◌, ◌==◌,
  ◌≤◌, arith, count_where, true, ◌∷◌, List, [], ℕ, none, some, ◌≡◌, refl,
}
use rover_tools_orange_copy.Store.{
  InviteStatus, SpaceComment, EntryType, SyncEntry, SpaceJoinRequest, Role, Space, SpaceInvite, Db,
}
use rover_tools_orange_copy.Spaces.Sample.{home, seat, db, env, db_of, after}

-- Account 1 removes account 2.
remove_member-IsDeparted_example :
    (s : Space) × (find_space 3 db ≡ some s)
    × ((s.owner_id == 1 || 2 == 1) ≡ true)
    × ((2 == s.owner_id) ≡ false)
    × IsDeparted s 2 100 db (after (remove_member 3 2 1 100 db))
unfolding remove_member depart
remove_member-IsDeparted_example =
    remove_member-IsDeparted 3 2 1 100 db (after (remove_member 3 2 1 100 db)) refl

-- Account 2 tries to overwrite the wrap of account 1, and to name a key, while it serves 4.
abbrev keyrings : List WrappedKeyringEntry
keyrings =
    record { user_id = 1; wrapped_space_keys = 666 }
    ∷ record { user_id = 4; wrapped_space_keys = 21 }
    ∷ []

distribute_keys-relay_example :
    (find_space 3 (after (distribute_keys 3 2 keyrings (some 666) db)) ≡ some home)
    × (membership_of 3 1 (after (distribute_keys 3 2 keyrings (some 666) db))
        ≡ some (seat 1 Role.owner (some 10)))
unfolding distribute_keys write_keyrings written write_one writes_one
distribute_keys-relay_example =
    distribute_keys-relay 3 2 keyrings (some 666) db
      (after (distribute_keys 3 2 keyrings (some 666) db)) home (4 ∷ []) refl refl refl 1
      (seat 1 Role.owner (some 10)) refl refl

distribute_keys-written_example :
    IsHanded 2 4 keyrings (membership_of 3 4 (after (distribute_keys 3 2 keyrings (some 666) db)))
unfolding distribute_keys write_keyrings written write_one writes_one
distribute_keys-written_example =
    distribute_keys-written 3 2 keyrings (some 666) db
      (after (distribute_keys 3 2 keyrings (some 666) db)) (4 ∷ []) refl 4 (inl refl)

-- Account 6 redeems the code again, and account 5 is approved.
abbrev asked_db : Db
asked_db = after (request_join (4 ∷ []) 6 env db)

abbrev approved_db : Db
approved_db = db_of (approve 3 50 2 (some 31) env asked_db)

six-IsShut : IsShut 3 6 db.join_requests
six-IsShut = (refl, λ r i h. ground (arith, i, h))

Steps-IsOut_example : IsOut 3 6 approved_db
unfolding request_join knock knock_again approve require_approver pending_row may_approve
    add_membership
Steps-IsOut_example =
    Steps-IsOut 3 6 db approved_db
      (Steps.step db asked_db approved_db
        (Step.asked (4 ∷ []) 6 env db asked_db JoinStatus.declined refl)
        (Steps.step asked_db approved_db approved_db
          (Step.approved 3 50 2 (some 31) env asked_db approved_db refl) (Steps.done approved_db)))
      (refl, six-IsShut)

abbrev let_in : Db
let_in = db_of (approve 3 50 2 (some 31) env db)

create_invite-single_example :
    count_where (is_live 3 77) (after (create_invite home 1 77 101 env db)).invites ≤ 1
unfolding create_invite
create_invite-single_example =
    create_invite-single home 1 77 101 env db (after (create_invite home 1 77 101 env db))
      (record { known = false; mailed = false }) 3 77 refl (ground arith)

abbrev claims : Claims
claims = record { sub = 7; email = 77; email_verified = some true }

abbrev entered : Db
entered = db_of (accept_invite 70 claims 100 db)

accept_invite-joins_example :
    (i : SpaceInvite) × ((claims.email_verified ≡ none) ⊎ (claims.email_verified ≡ some true))
    × (first_where (is_invite 70) db.invites ≡ some i)
    × IsFor claims i
    × (i.status ≡ InviteStatus.pending)
    × (ltb i.expires_at 100 ≡ false)
    × (first_where (is_invite 70) entered.invites ≡ some (spent 7 i))
    × ((s : Space) × (find_space i.space_id db ≡ some s)
        × (membership_of i.space_id 7 entered
            ≡ some (
                seated s 7 i.wrapped_space_keys
                  (some i.inviter_id)
                  100
                  (membership_of i.space_id 7 db))))
unfolding accept_invite invite_for_invitee add_membership
accept_invite-joins_example = accept_invite-joins 70 claims 100 db entered refl

-- Account 2 takes down its own copy of entry 7, which account 4 holds a row of too.
abbrev shared : ℕ → ℕ → SyncEntry
shared id u = record {
  id = id;
  client_id = 7;
  user_id = u;
  device_id = 5;
  entry_type = EntryType.note;
  kind = none;
  encrypted_content = 1 ∷ [];
  encrypted_metadata = none;
  created_at = 10;
  updated_at = 10;
  server_ts = 11;
  deleted_at = none;
  pinned = false;
  space_ids = 3 ∷ [];
  wrapped_keys = dict ((KeyName.of_space 3, JsonValue.val 2) ∷ []);
  blob_key = none;
  blob_size = none;
}

abbrev feed : Db
feed = record db { entries = shared 90 4 ∷ shared 91 2 ∷ [] }

abbrev taken : Db
taken = after (remove_entry_from_space 3 7 EntryType.note 2 env feed)

remove_entry_from_space_gone_example :
    (s : Space) × (find_space 3 feed ≡ some s)
    × ((s.owner_id == 2 || is_some (membership_of 3 2 feed)) ≡ true)
    × (any_where (is_taken s 2 7 EntryType.note) taken.entries ≡ false)
    × (any_where (λ (r : SyncEntry). is_taken s 2 7 EntryType.note r && r.user_id == 2) feed.entries
        ≡ true)
    × IsRecorded
        (record {
          id = 0;
          space_id = s.id;
          client_id = 7;
          entry_type = EntryType.note;
          author_id = 2;
          removed_by = 2;
          server_ts = 100;
        })
        s.id
        taken.removals
    × (first_where (is_key 4 7 EntryType.note) taken.entries
        ≡ Option.map
            (λ r. if is_taken s 2 7 EntryType.note r then outside s.id 100 r else r)
            (first_where (is_key 4 7 EntryType.note) feed.entries))
unfolding remove_entry_from_space record_space_removals has_duplicates upsert_removals
    upsert_removal
remove_entry_from_space_gone_example =
    remove_entry_from_space_gone 3 7 EntryType.note 2 env feed taken 2 4 7 EntryType.note refl

-- Two comments on entry 7, posted by accounts 1 and 2.
abbrev words : CreateCommentRequest
words = record { client_id = 7; entry_type = EntryType.note; encrypted_body = 1; wrapped_key = 2 }

abbrev chatted : Db
chatted = after (
    add_comment 3 2 words (record env { new_id = 201; now = 99 })
      (after (add_comment 3 1 words env db)))

comment_counts-length_example :
    counted (
      first_where
        (is_entry 7 EntryType.note)
        (record { client_id = 7; entry_type = EntryType.note; count = 2; latest_at = 100 } ∷ []))
    ≡ length (
        new_comment 3 2 words (record env { new_id = 201; now = 99 })
        ∷ new_comment 3 1 words env
        ∷ [])
unfolding add_comment require_member comment_counts count_comments list_comments sort_by insert_by
comment_counts-length_example =
    comment_counts-length 3 1 4 7 EntryType.note chatted
      (record { client_id = 7; entry_type = EntryType.note; count = 2; latest_at = 100 } ∷ [])
      (new_comment 3 2 words (record env { new_id = 201; now = 99 })
        ∷ new_comment 3 1 words env
        ∷ [])
      refl refl

Steps-IsSingle_example : IsSingle 3 6 approved_db
unfolding request_join knock knock_again approve require_approver pending_row may_approve
    add_membership
Steps-IsSingle_example =
    Steps-IsSingle 3 6 db approved_db
      (Steps.step db asked_db approved_db
        (Step.asked (4 ∷ []) 6 env db asked_db JoinStatus.declined refl)
        (Steps.step asked_db approved_db approved_db
          (Step.approved 3 50 2 (some 31) env asked_db approved_db refl) (Steps.done approved_db)))
      (ground arith)

delete_space_gone_example :
    (s : Space) × (find_space 3 chatted ≡ some s)
    × ((s.owner_id == 1) ≡ true)
    × (any_where (λ (i : SpaceInvite). i.space_id == 3) (db_of (delete_space 3 1 chatted)).invites
        ≡ false)
    × (any_where
          (λ (r : SpaceJoinRequest). r.space_id == 3)
          (db_of (delete_space 3 1 chatted)).join_requests
        ≡ false)
    × (any_where (λ (c : SpaceComment). c.space_id == 3) (db_of (delete_space 3 1 chatted)).comments
        ≡ false)
    × (find_space 3 (db_of (delete_space 3 1 chatted))
        ≡ (if 3 == 3 then none else find_space 3 chatted))
    × (membership_of 3 2 (db_of (delete_space 3 1 chatted))
        ≡ (if 3 == 3 then none else membership_of 3 2 chatted))
unfolding delete_space require_owned_space add_comment require_member
delete_space_gone_example =
    delete_space_gone 3 1 chatted (db_of (delete_space 3 1 chatted)) 3 2 refl
