-- ===== src/Admin/Tests.antt =====
-- Account deletion at concrete inputs: account 1 has no blob row, account 2 has one that is
-- released already.
use rover_tools_orange_copy.Prelude.{[], ◌∷◌, ◌≡◌, refl, ok, err, none, some, false, true}
use rover_tools_orange_copy.Store.{Db, Blob}
use rover_tools_orange_copy.Store.Accounts.{Profile}
use rover_tools_orange_copy.Store.Empty.{empty_db}
use rover_tools_orange_copy.Admin.{delete_user, require_admin_key}

abbrev account : Profile
account = record {
  id = 1;
  display_name = [];
  email = none;
  avatar_url = none;
  kdf_salt = 1;
  identity_pubkey = none;
  pw_wrapped_umk = none;
  recovery_wrapped_umk = none;
  umk_proof_hash = none;
  pw_wrapped_umk_prev = none;
  blob_bytes_quota = 100;
  created_at = 1;
  updated_at = 1;
}

abbrev other : Profile
other = record account { id = 2 }

abbrev image : Blob
image = record {
  key = 5;
  user_id = 2;
  mime_type = 1;
  size_bytes = 10;
  checksum = 1;
  confirmed = false;
  created_at = 1;
}

abbrev db : Db
db = record empty_db { profiles = account ∷ other ∷ []; blobs = image ∷ [] }

delete_user_done : delete_user 1 db ≡ ok (record db { profiles = other ∷ [] })
unfolding delete_user
delete_user_done = refl

delete_user_fails : delete_user 2 db ≡ err 500 "Internal Server Error"
unfolding delete_user
delete_user_fails = refl

-- The eleventh attempt of an address is refused with the right key as well.
locked_out :
    (require_admin_key (some 7) (some 10) true (some 7)).0 ≡ err 429 "Too many failed attempts"
unfolding require_admin_key
locked_out = refl
