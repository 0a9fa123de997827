-- ===== src/Store.antt =====
-- The tables of the database, as the models of src/*/models.py declare them, and what a handler
-- reads besides them. A UUID, an opaque ciphertext key or a public key is compared only, so it is
-- a number, 0 where it is an empty text; a text whose length is checked is the list of its characters. Timestamps are
-- milliseconds.
pub mod Wraps
pub mod Accounts
pub mod Empty
pub use Wraps.{KeyName, WrappedKeys, JsonValue}
pub use Accounts.{Profile, Device, Announcement}
use rover_tools_orange_copy.Prelude.{
  [], ◌∷◌, ℕ, Bool, Option, List, String, true, false, ◌==◌, ◌&&◌,
}

abbrev pub Text : Type 0
Text = List ℕ

-- `entry_type`: 'clipboard' | 'note'
pub data EntryType : Type 0 where
  clipboard note : EntryType

abbrev pub same_type : EntryType → EntryType → Bool
same_type clipboard clipboard = true
same_type clipboard note = false
same_type note clipboard = false
same_type note note = true

-- The plaintext kind labels; `blank` is the empty string of a tombstone.
pub data EntryKind : Type 0 where
  text image html file note blank : EntryKind

pub record SyncEntry : Type 0 where
  pub id : ℕ
  pub client_id : ℕ
  pub user_id : ℕ
  pub device_id : ℕ
  pub entry_type : EntryType
  pub kind : Option EntryKind
  pub encrypted_content : Text
  pub encrypted_metadata : Option Text
  pub created_at : ℕ
  pub updated_at : ℕ
  pub server_ts : ℕ
  pub deleted_at : Option ℕ
  pub pinned : Bool
  pub space_ids : List ℕ
  pub wrapped_keys : WrappedKeys
  pub blob_key : Option ℕ
  pub blob_size : Option ℕ

pub record SyncCursor : Type 0 where
  pub device_id : ℕ
  pub user_id : ℕ
  pub last_server_ts : ℕ

pub record Blob : Type 0 where
  pub key : ℕ
  pub user_id : ℕ
  pub mime_type : ℕ
  pub size_bytes : ℕ
  pub checksum : ℕ
  pub confirmed : Bool
  pub created_at : ℕ

pub record Space : Type 0 where
  pub id : ℕ
  pub owner_id : ℕ
  pub name : Text
  pub invite_code : Option Text
  pub invite_expires_at : Option ℕ
  pub key_fingerprint : Option ℕ
  pub rekey_requested_at : Option ℕ
  pub share_history : Bool
  pub members_can_approve : Bool
  pub created_at : ℕ

pub data InviteStatus : Type 0 where
  pending accepted declined revoked : InviteStatus

pub record SpaceInvite : Type 0 where
  pub id : ℕ
  pub space_id : ℕ
  pub inviter_id : ℕ
  pub invitee_email : ℕ
  pub invitee_user_id : Option ℕ
  pub status : InviteStatus
  pub created_at : ℕ
  pub expires_at : ℕ
  pub wrapped_space_keys : Option ℕ

-- `role`: 'owner' | 'member'
pub data Role : Type 0 where
  owner member : Role

pub record SpaceMembership : Type 0 where
  pub space_id : ℕ
  pub user_id : ℕ
  pub role : Role
  pub wrapped_space_keys : Option ℕ
  pub wrapped_by : Option ℕ
  pub history_from_ts : Option ℕ
  pub joined_at : ℕ

pub data RequestStatus : Type 0 where
  pending approved declined : RequestStatus

pub record SpaceJoinRequest : Type 0 where
  pub id : ℕ
  pub space_id : ℕ
  pub user_id : ℕ
  pub status : RequestStatus
  pub wrapped_space_keys : Option ℕ
  pub wrapped_by : Option ℕ
  pub created_at : ℕ
  pub decided_at : Option ℕ
  pub decided_by : Option ℕ

pub record SpaceComment : Type 0 where
  pub id : ℕ
  pub space_id : ℕ
  pub client_id : ℕ
  pub entry_type : EntryType
  pub author_id : ℕ
  pub encrypted_body : ℕ
  pub wrapped_key : ℕ
  pub created_at : ℕ

pub record SpaceEntryRemoval : Type 0 where
  pub id : ℕ
  pub space_id : ℕ
  pub client_id : ℕ
  pub entry_type : EntryType
  pub author_id : ℕ
  pub removed_by : ℕ
  pub server_ts : ℕ

pub record UserSettings : Type 0 where
  pub user_id : ℕ
  pub encrypted_blob : ℕ
  pub updated_at : ℕ

pub record Db : Type 0 where
  pub entries : List SyncEntry
  pub cursors : List SyncCursor
  pub blobs : List Blob
  pub spaces : List Space
  pub invites : List SpaceInvite
  pub memberships : List SpaceMembership
  pub join_requests : List SpaceJoinRequest
  pub comments : List SpaceComment
  pub removals : List SpaceEntryRemoval
  pub profiles : List Profile
  pub user_settings : List UserSettings
  pub devices : List Device
  pub announcements : List Announcement

-- What one run of a handler reads from outside: the clock, and the new UUIDs that it draws.
pub record Env : Type 0 where
  pub now : ℕ
  pub new_id : ℕ
  pub removal_id : ℕ → ℕ

abbrev pub is_member : ℕ → ℕ → SpaceMembership → Bool
is_member space uid m = m.space_id == space && m.user_id == uid

abbrev pub eq_text : Text → Text → Bool
eq_text [] [] = true
eq_text [] (d ∷ ds) = false
eq_text (c ∷ cs) [] = false
eq_text (c ∷ cs) (d ∷ ds) = c == d && eq_text cs ds
