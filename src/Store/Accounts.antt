-- ===== src/Store/Accounts.antt =====
-- The tables of src/auth/models.py and src/announcements/models.py.
use rover_tools_orange_copy.Prelude.{ℕ, Bool, Option, List}

-- A display name is the list of its characters.
pub record Profile : Type 0 where
  pub id : ℕ
  pub display_name : List ℕ
  pub email : Option ℕ
  pub avatar_url : Option ℕ
  pub kdf_salt : ℕ
  pub identity_pubkey : Option ℕ
  pub pw_wrapped_umk : Option ℕ
  pub recovery_wrapped_umk : Option ℕ
  pub umk_proof_hash : Option ℕ
  pub pw_wrapped_umk_prev : Option ℕ
  pub blob_bytes_quota : ℕ
  pub created_at : ℕ
  pub updated_at : ℕ

pub record Device : Type 0 where
  pub id : ℕ
  pub user_id : ℕ
  pub device_name : ℕ
  pub platform : ℕ
  pub app_version : ℕ
  pub device_pubkey : Option ℕ
  pub fingerprint : Option ℕ
  pub wrapped_umk : Option ℕ
  pub revoked : Bool
  pub created_at : ℕ
  pub last_seen_at : ℕ

-- `user_id` is none for a broadcast.
pub record Announcement : Type 0 where
  pub id : ℕ
  pub user_id : Option ℕ
  pub kind : ℕ
  pub title : ℕ
  pub body : ℕ
  pub payload : ℕ
  pub created_at : ℕ
  pub expires_at : Option ℕ
