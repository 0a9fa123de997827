-- ===== src/Settings/Tests.antt =====
-- Two writers that start from the blob of time 5, with a put of another account in between.
use rover_tools_orange_copy.Settings.Swap.{put_settings-swap}
use rover_tools_orange_copy.Prelude.{refl, ◌≡◌, List, ℕ, none, some, [], ◌∷◌}
use rover_tools_orange_copy.Store.{Db}
use rover_tools_orange_copy.Settings.{
  Winner, write_if, SettingsPutRequest, put_all, put_over, put_settings,
}

abbrev db : Db
db = record {
  entries = [];
  cursors = [];
  blobs = [];
  spaces = [];
  invites = [];
  memberships = [];
  join_requests = [];
  comments = [];
  removals = [];
  profiles = [];
  user_settings = record { user_id = 1; encrypted_blob = 10; updated_at = 5 } ∷ [];
  devices = [];
  announcements = [];
}

abbrev one : SettingsPutRequest
one = record { encrypted_blob = 11; updated_at = 7; base_updated_at = some 5 }

abbrev two : SettingsPutRequest
two = record { encrypted_blob = 12; updated_at = 8; base_updated_at = some 5 }

abbrev stranger : List (ℕ × SettingsPutRequest)
stranger = (2, record { encrypted_blob = 13; updated_at = 6; base_updated_at = none }) ∷ []

abbrev later : Db
later = put_all stranger (put_settings 1 one db).1

put_settings-swap_example :
    ((put_settings 1 two later).0.winner ≡ Winner.server) × ((put_settings 1 two later).1 ≡ later)
unfolding put_settings put_over write_if
put_settings-swap_example =
    put_settings-swap 1 5 one two stranger db
      (record { user_id = 1; encrypted_blob = 10; updated_at = 5 }) refl refl refl refl
