-- ===== src/Settings.antt =====
-- src/settings/service.py: one blob for each account, put by last-write-wins or compare-and-swap.
pub mod Swap
pub mod Tests
use rover_tools_orange_copy.Prelude.{
  ◌∷◌, Reply, first_where, if◌then◌else◌, ◌==◌, Bool, ℕ, List, [], update_first, ◌&&◌, Option, none,
  some, leb, ltb,
}
use rover_tools_orange_copy.Store.{Db, UserSettings}

-- `SettingsPutRequest`
pub record SettingsPutRequest : Type 0 where
  pub encrypted_blob : ℕ
  pub updated_at : ℕ
  pub base_updated_at : Option ℕ

-- `winner`
pub data Winner : Type 0 where
  client server : Winner

-- `SettingsPutResponse`
pub record SettingsPutResponse : Type 0 where
  pub updated_at : ℕ
  pub winner : Winner
  pub encrypted_blob : ℕ

abbrev pub owned_by : ℕ → UserSettings → Bool
owned_by uid s = s.user_id == uid

-- `get_settings`
abbrev pub get_settings : ℕ → Db → Option UserSettings
get_settings uid db = first_where (owned_by uid) db.user_settings

-- `write_if`: last-write-wins without a base, and otherwise a swap of that base, forward only.
unfoldable pub write_if : SettingsPutRequest → UserSettings → Bool
write_if req s = elim req.base_updated_at [
  | none ↦ leb s.updated_at req.updated_at
  | some base ↦ s.updated_at == base && ltb s.updated_at req.updated_at
]

-- What the row becomes.
abbrev pub put_row : SettingsPutRequest → UserSettings → UserSettings
put_row req s = record s { encrypted_blob = req.encrypted_blob; updated_at = req.updated_at }

abbrev pub client_wins : SettingsPutRequest → SettingsPutResponse
client_wins req = record {
  updated_at = req.updated_at;
  winner = Winner.client;
  encrypted_blob = req.encrypted_blob;
}

-- The conflict of the upsert with a row that is stored.
unfoldable pub put_over : ℕ → SettingsPutRequest → UserSettings → Db → SettingsPutResponse × Db
unfolding write_if
put_over uid req s db =
    if write_if req s
    then (
      client_wins req,
      record db { user_settings = update_first (owned_by uid) (put_row req) db.user_settings },
    )
    else (
      record {
        updated_at = s.updated_at;
        winner = Winner.server;
        encrypted_blob = s.encrypted_blob;
      },
      db,
    )

-- `put_settings`
unfoldable pub put_settings : ℕ → SettingsPutRequest → Db → SettingsPutResponse × Db
unfolding put_over
put_settings uid req db = elim (get_settings uid db) [
  | none ↦ (
    client_wins req,
    record db {
      user_settings =
          record { user_id = uid; encrypted_blob = req.encrypted_blob; updated_at = req.updated_at }
          ∷ db.user_settings;
    },
  )
  | some s ↦ put_over uid req s db
]

-- Puts of any accounts, in turn.
unfoldable pub put_all : List (ℕ × SettingsPutRequest) → Db → Db
unfolding put_settings
put_all [] db = db
put_all ((uid, req) ∷ puts) db = put_all puts (put_settings uid req db).1
