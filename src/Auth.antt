-- ===== src/Auth.antt =====
-- src/auth/service.py: the profile of an account, its key material and its devices. The hash and
-- base64 libraries, the URL parser and the random salt are parameters.
pub mod Bootstrap
pub mod KeyWrites
pub mod Calls
pub mod Keys
pub mod Devices
pub mod Tokens
pub mod Tests
use rover_tools_orange_copy.Blobs.{has_profile_id}
use rover_tools_orange_copy.Spaces.Keys.{given}
use rover_tools_orange_copy.Store.Accounts.{Device, Profile}
use rover_tools_orange_copy.Prelude.{
  eq_option, ◌>>=◌, ◌>>◌, or_err, guard, ok, err, is_some, is_none, not, any_where, ◌&&◌, ◌||◌, ◌∷◌,
  Reply, first_where, if◌then◌else◌, ◌==◌, Bool, ℕ, List, [], update_first, Option, none, some,
  true, false, is_empty, rows_where,
}
use mathlib.Core.Option
use rover_tools_orange_copy.Store.{Env, Db}

-- The libraries that the service calls: the SHA-256 hash, as hex, of the bytes that a header
-- decodes to, if it is base64 of 32 bytes.
pub record Proofs : Type 0 where
  pub digest : ℕ → Option ℕ

-- A header that does not decode to 32 bytes is refused.
abbrev pub decoded_proof : Option ℕ → Reply (Option ℕ)
decoded_proof none = err 400 "invalid_umk_proof"
decoded_proof (some h) = ok (some h)

-- `hash_umk_proof`; a header that is absent or empty gives none.
unfoldable pub hash_umk_proof : Proofs → Option ℕ → Reply (Option ℕ)
hash_umk_proof lib header =
    if given header then decoded_proof (Option.bind header lib.digest) else ok none

-- `enforce_umk_proof`: the profile after it.
unfoldable pub enforce_umk_proof : Proofs → Profile → Option ℕ → Reply Profile
unfolding hash_umk_proof
enforce_umk_proof lib p header = do
  presented ← hash_umk_proof lib header
  guard (is_none p.umk_proof_hash || is_some presented && eq_option presented p.umk_proof_hash) 403
      "umk_proof_required"
  ok (record p {
    umk_proof_hash = if is_none p.umk_proof_hash then presented else p.umk_proof_hash;
  })

abbrev pub find_profile : ℕ → Db → Option Profile
find_profile uid db = first_where (has_profile_id uid) db.profiles

-- `_profile_or_404`
unfoldable pub profile_or_404 : ℕ → Db → Reply Profile
profile_or_404 uid db = or_err (find_profile uid db) 404 "Profile not found"

-- The row of the account is replaced.
abbrev pub save_profile : Profile → Db → Db
save_profile p db = record db { profiles = update_first (has_profile_id p.id) (λ x. p) db.profiles }

-- The reset of an account: the proof of the new key replaces the stored hash.
unfoldable pub reset_profile : Proofs → Profile → Option ℕ → Reply Profile
unfolding hash_umk_proof
reset_profile lib p header = do
  presented ← hash_umk_proof lib header
  guard (is_some presented) 403 "umk_proof_required"
  ok (record p {
    pw_wrapped_umk_prev =
        if is_some p.pw_wrapped_umk then p.pw_wrapped_umk else p.pw_wrapped_umk_prev;
    umk_proof_hash = presented;
  })

-- `set_wrapped_umk`; `recovery` is `is_recovery_session` of the claims.
unfoldable pub set_wrapped_umk : Proofs → ℕ → ℕ → Option ℕ → Bool → Bool → ℕ → Db → Reply Db
unfolding profile_or_404 reset_profile enforce_umk_proof
set_wrapped_umk lib uid wrapped header reset recovery now db = do
  p ← profile_or_404 uid db
  q ← (if reset && recovery then reset_profile lib p header else enforce_umk_proof lib p header)
  ok (save_profile (record q { pw_wrapped_umk = some wrapped; updated_at = now }) db)

-- `set_recovery_wrapped_umk`, and `clear_recovery_wrapped_umk` with none.
unfoldable pub put_recovery_wrapped_umk : Proofs → ℕ → Option ℕ → Option ℕ → ℕ → Db → Reply Db
unfolding profile_or_404 enforce_umk_proof
put_recovery_wrapped_umk lib uid wrapped header now db = do
  p ← profile_or_404 uid db
  q ← enforce_umk_proof lib p header
  ok (save_profile (record q { recovery_wrapped_umk = wrapped; updated_at = now }) db)

-- `set_recovery_wrapped_umk`
unfoldable pub set_recovery_wrapped_umk : Proofs → ℕ → ℕ → Option ℕ → ℕ → Db → Reply Db
unfolding put_recovery_wrapped_umk
set_recovery_wrapped_umk lib uid wrapped header now db =
    put_recovery_wrapped_umk lib uid (some wrapped) header now db

-- `clear_recovery_wrapped_umk`
unfoldable pub clear_recovery_wrapped_umk : Proofs → ℕ → Option ℕ → ℕ → Db → Reply Db
unfolding put_recovery_wrapped_umk
clear_recovery_wrapped_umk lib uid header now db =
    put_recovery_wrapped_umk lib uid none header now db

abbrev pub has_device_id : ℕ → Device → Bool
has_device_id id d = d.id == id

abbrev pub find_device : ℕ → Db → Option Device
find_device id db = first_where (has_device_id id) db.devices

-- `RegisterDeviceRequest`
pub record RegisterDeviceRequest : Type 0 where
  pub device_name : ℕ
  pub platform : ℕ
  pub app_version : ℕ
  pub device_pubkey : Option ℕ
  pub fingerprint : Option ℕ

-- A live row of the account with this public key.
abbrev pub is_registered : ℕ → Option ℕ → Device → Bool
is_registered uid pubkey d =
    d.user_id == uid && given pubkey && eq_option d.device_pubkey pubkey && not d.revoked

abbrev pub refreshed : RegisterDeviceRequest → ℕ → Device → Device
refreshed req now d = record d {
  device_name = req.device_name;
  platform = req.platform;
  app_version = req.app_version;
  last_seen_at = now;
  fingerprint = if given req.fingerprint then req.fingerprint else d.fingerprint;
}

abbrev pub new_device : ℕ → ℕ → RegisterDeviceRequest → ℕ → Device
new_device id uid req now = record {
  id = id;
  user_id = uid;
  device_name = req.device_name;
  platform = req.platform;
  app_version = req.app_version;
  device_pubkey = req.device_pubkey;
  fingerprint = req.fingerprint;
  wrapped_umk = none;
  revoked = false;
  created_at = now;
  last_seen_at = now;
}

-- `register_device`: the device returned, and the database.
unfoldable pub register_device : ℕ → RegisterDeviceRequest → Env → Db → Device × Db
register_device uid req env db =
    elim (first_where (is_registered uid req.device_pubkey) db.devices) [
      | none ↦ (
        new_device env.new_id uid req env.now,
        record db { devices = new_device env.new_id uid req env.now ∷ db.devices },
      )
      | some d ↦ (
        refreshed req env.now d,
        record db {
          devices =
              update_first (is_registered uid req.device_pubkey) (refreshed req env.now) db.devices;
        },
      )
    ]

abbrev pub revoked_row : Device → Device
revoked_row d = record d { revoked = true; wrapped_umk = none }

-- `revoke_device`
unfoldable pub revoke_device : Proofs → ℕ → ℕ → Option ℕ → Db → Reply Db
unfolding profile_or_404 enforce_umk_proof
revoke_device lib device uid header db = do
  d ← or_err (find_device device db) 404 "Device not found"
  guard (d.user_id == uid) 403 "Not your device"
  p ← profile_or_404 uid db
  q ← enforce_umk_proof lib p header
  ok (record (save_profile q db) {
    devices = update_first (has_device_id device) revoked_row db.devices;
  })

-- `get_user_devices`
unfoldable pub get_user_devices : ℕ → Db → List Device
get_user_devices uid db = rows_where (λ (d : Device). d.user_id == uid && not d.revoked) db.devices

-- `store_public_keys`
unfoldable pub store_public_keys : ℕ → ℕ → ℕ → ℕ → Db → Reply Db
store_public_keys uid device identity device_key db = do
  p ← or_err (find_profile uid db) 404 "Not found"
  d ← or_err (find_device device db) 404 "Not found"
  guard (d.user_id == p.id) 403 "Not your device"
  guard (not (given p.identity_pubkey && not (eq_option p.identity_pubkey (some identity)))) 409
      "Identity key already registered for this account"
  ok (record (save_profile (record p { identity_pubkey = some identity }) db) {
    devices =
        update_first (has_device_id device) (λ x. record x { device_pubkey = some device_key })
          db.devices;
  })

-- `get_device_wrapped_umk`
unfoldable pub get_device_wrapped_umk : ℕ → ℕ → Db → Option ℕ
get_device_wrapped_umk device uid db = elim (find_device device db) [
  | none ↦ none
  | some d ↦ if not (d.user_id == uid) || d.revoked then none else d.wrapped_umk
]

-- `store_wrapped_umk`
unfoldable pub store_wrapped_umk : Proofs → ℕ → ℕ → ℕ → Option ℕ → Db → Reply Db
unfolding profile_or_404 enforce_umk_proof
store_wrapped_umk lib device uid wrapped header db = do
  d ← or_err (find_device device db) 404 "Device not found"
  guard (d.user_id == uid) 403 "Not your device"
  guard (not d.revoked) 409 "device_revoked"
  p ← profile_or_404 uid db
  q ← enforce_umk_proof lib p header
  ok (record (save_profile q db) {
    devices =
        update_first (has_device_id device) (λ x. record x { wrapped_umk = some wrapped })
          db.devices;
  })
