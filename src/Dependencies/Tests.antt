-- ===== src/Dependencies/Tests.antt =====
-- The theorems of the device check and of the tokens at concrete inputs.
use rover_tools_orange_copy.Prelude.{
  ◌&&◌, ◌==◌, Bool, if◌then◌else◌, ◌⊎◌, true, false, none, some, [], ◌∷◌, ◌≡◌, refl, ok,
}
use mathlib.Core.Option
use rover_tools_orange_copy.Auth.Tokens.{
  Algorithm, TokenHeader, SigningKey, KeySet, TokenClaims, Jwt, AuthSettings, match_key,
  refetched_key, cached_key, asymmetric_key, algorithm_of, verify, key_or_refetch,
  require_supabase_url, verify_with, verify_supabase_token, claim_refresh_slot,
}
use rover_tools_orange_copy.Auth.Tokens.Verified.{
  verify_supabase_token_checked, IsBySecret, IsByKey,
}
use rover_tools_orange_copy.Store.{Db}
use rover_tools_orange_copy.Store.Accounts.{Profile, Device}
use rover_tools_orange_copy.Store.Empty.{empty_db}
use rover_tools_orange_copy.Auth.{
  Proofs, revoke_device, profile_or_404, enforce_umk_proof, hash_umk_proof,
}
use rover_tools_orange_copy.Dependencies.{Cache, set_key, check_device, revoke_route, forget_device}
use rover_tools_orange_copy.Dependencies.Revocation.{
  GateStep, GateSteps, IsRefused, revoke_route-IsRefused,
}

abbrev account : Profile
account = record {
  id = 1;
  display_name = [];
  email = none;
  avatar_url = none;
  kdf_salt = 1;
  identity_pubkey = none;
  pw_wrapped_umk = some 20;
  recovery_wrapped_umk = none;
  umk_proof_hash = some 40;
  pw_wrapped_umk_prev = none;
  blob_bytes_quota = 100;
  created_at = 1;
  updated_at = 1;
}

abbrev laptop : Device
laptop = record {
  id = 4;
  user_id = 1;
  device_name = 1;
  platform = 1;
  app_version = 1;
  device_pubkey = some 14;
  fingerprint = none;
  wrapped_umk = some 24;
  revoked = false;
  created_at = 1;
  last_seen_at = 1;
}

abbrev db : Db
db = record empty_db { profiles = account ∷ []; devices = laptop ∷ [] }

abbrev lib : Proofs
lib = record { digest = λ h. some h }

-- The check before the revocation is cached.
abbrev cached : Cache
cached = set_key 1 4 true (λ u d. false)

abbrev after : Db
after = record db { devices = record laptop { revoked = true; wrapped_umk = none } ∷ [] }

abbrev emptied : Cache
emptied = set_key 1 4 false cached

accepted_before : (check_device true true 1 4 db cached).0 ≡ ok tt
unfolding check_device
accepted_before = refl

revoke_route-IsRefused_example :
    IsRefused (check_device true true 1 4 after (check_device false true 1 4 after emptied).1).0
unfolding revoke_route revoke_device profile_or_404 enforce_umk_proof hash_umk_proof forget_device
    Option.bind
revoke_route-IsRefused_example =
    revoke_route-IsRefused lib 4 1 (some 40) db cached (after, emptied)
      (after, (check_device false true 1 4 after emptied).1) true true refl
      (GateSteps.step _ _ _ (GateStep.checked false true 1 4 after emptied) (GateSteps.done _))

-- Key 7 was rotated in: the cached set does not have it, and the set that is fetched anew does.
abbrev old_key : SigningKey
old_key = record { key_id = some 6; key = 60 }

abbrev new_key : SigningKey
new_key = record { key_id = some 7; key = 70 }

abbrev header : TokenHeader
header = record { alg = some Algorithm.es256; kid = some 7 }

abbrev signed : TokenClaims
signed = record { sub = some 1; exp = 100 }

abbrev key_sets : Bool → KeySet
key_sets false = KeySet.fetched (old_key ∷ [])
key_sets true = KeySet.fetched (old_key ∷ new_key ∷ [])

abbrev jwt : Jwt
jwt = record {
  get_unverified_header = λ t. some header;
  decode = λ token key alg o. if key == 70 && o.audience == 8 then some signed else none;
  signing_keys = key_sets;
}

abbrev settings : AuthSettings
settings = record { issuer = some 9; supabase_jwt_secret = none; supabase_jwt_audience = 8 }

verify_supabase_token_checked_example :
    (h : TokenHeader) × (alg : Algorithm) × (jwt.get_unverified_header 1 ≡ some h)
    × (h.alg ≡ some alg)
    × (IsBySecret jwt settings 1 alg signed ⊎ IsByKey jwt settings 1 h alg signed)
unfolding verify_supabase_token algorithm_of verify_with require_supabase_url asymmetric_key
    cached_key key_or_refetch claim_refresh_slot match_key refetched_key verify
verify_supabase_token_checked_example =
    verify_supabase_token_checked jwt settings 1 100 30 signed refl
