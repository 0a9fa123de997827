-- ===== src/Auth/Tests.antt =====
-- The theorems of the accounts at concrete inputs: account 1 has the identity key 8 and the proof
-- hash 40; its device 3 is revoked and its device 4 is live.
use rover_tools_orange_copy.Auth.Calls.{write_key_proven}
use rover_tools_orange_copy.Auth.KeyWrites.{KeyWrite, write_key}
use rover_tools_orange_copy.Auth.Devices.{Steps-IsCutOff, IsCutOff}
use rover_tools_orange_copy.Store.Accounts.{Device, Profile}
use rover_tools_orange_copy.Auth.{
  find_profile, hash_umk_proof, enforce_umk_proof, profile_or_404, set_wrapped_umk, Proofs,
  RegisterDeviceRequest, register_device,
}
use mathlib.Core.Option
use rover_tools_orange_copy.Auth.Keys.{Steps-IsBound, IsBound, Step, Steps}
use rover_tools_orange_copy.Prelude.{
  ◌⊎◌, Bool, refl, ◌≡◌, Reply, none, some, ok, err, true, false, [], ◌∷◌,
}
use rover_tools_orange_copy.Store.Empty.{empty_db}
use rover_tools_orange_copy.Store.{Env, Db}

abbrev account : Profile
account = record {
  id = 1;
  display_name = [];
  email = some 7;
  avatar_url = none;
  kdf_salt = 1;
  identity_pubkey = some 8;
  pw_wrapped_umk = some 20;
  recovery_wrapped_umk = none;
  umk_proof_hash = some 40;
  pw_wrapped_umk_prev = none;
  blob_bytes_quota = 100;
  created_at = 1;
  updated_at = 1;
}

abbrev laptop : Device
laptop = record {
  id = 4;
  user_id = 1;
  device_name = 1;
  platform = 1;
  app_version = 1;
  device_pubkey = some 14;
  fingerprint = none;
  wrapped_umk = some 24;
  revoked = false;
  created_at = 1;
  last_seen_at = 1;
}

abbrev lost : Device
lost = record laptop { id = 3; device_pubkey = some 13; wrapped_umk = none; revoked = true }

abbrev db : Db
db = record empty_db { profiles = account ∷ []; devices = lost ∷ laptop ∷ [] }

-- A header is the hash that it decodes to.
abbrev lib : Proofs
lib = record { digest = λ h. some h }

abbrev db_of : Reply Db → Db
db_of (ok d) = d
db_of (err status detail) = db

-- The password changes, and the laptop registers again.
abbrev changed : Db
changed = db_of (write_key lib (KeyWrite.set_umk 21 false false) 1 (some 40) 9 db)

abbrev again : RegisterDeviceRequest
again = record {
  device_name = 2;
  platform = 1;
  app_version = 2;
  device_pubkey = some 13;
  fingerprint = none;
}

abbrev env : Env
env = record { now = 10; new_id = 5; removal_id = λ j. j }

abbrev later : Db
later = (register_device 1 again env changed).1

write_key_proven_example :
    (◌≡◌ {A = Bool} false true)
    ⊎ ((Option.bind (some 40) lib.digest ≡ some 40)
        × (Option.map (λ (x : Profile). x.umk_proof_hash) (find_profile 1 changed)
            ≡ some (some 40)))
unfolding write_key set_wrapped_umk profile_or_404 enforce_umk_proof hash_umk_proof Option.bind
write_key_proven_example =
    write_key_proven lib (KeyWrite.set_umk 21 false false) 1 (some 40) 9 db changed account 40 refl
      refl refl

run : Steps lib db later
unfolding write_key set_wrapped_umk profile_or_404 enforce_umk_proof hash_umk_proof Option.bind
run =
    Steps.step db changed later
      (Step.wrote (KeyWrite.set_umk 21 false false) 1 (some 40) 9 db changed refl)
      (Steps.step changed later later (Step.registered 1 again env changed refl) (Steps.done later))

Steps-IsBound_example : IsBound 1 8 later.profiles
Steps-IsBound_example = Steps-IsBound lib 1 8 db later run (account, refl, refl, refl)

Steps-IsCutOff_example : IsCutOff 3 later.devices
Steps-IsCutOff_example = Steps-IsCutOff lib 3 db later run refl
