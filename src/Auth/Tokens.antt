-- ===== src/Auth/Tokens.antt =====
-- The check of access tokens in src/auth/tokens.py. PyJWT is a parameter, `Jwt`.
pub mod Found
pub mod Verified
use rover_tools_orange_copy.Prelude.{
  ℕ, Bool, true, false, Option, none, some, List, [], ◌∷◌, ◌==◌, ◌&&◌, ◌||◌, if◌then◌else◌, Reply,
  ok, err, ◌≡◌, not, ◌>>=◌, ◌>>◌, eq_option, ltb, guard, or_err, is_some, ◌+◌, ◌-◌,
}
use rover_tools_orange_copy.Spaces.Keys.{given}
use mathlib.Core.Option

-- The `alg` of a header.
pub data Algorithm : Type 0 where
  hs256 : Algorithm
  es256 : Algorithm
  rs256 : Algorithm
  unknown : ℕ → Algorithm

-- The header of a token, which nobody has verified.
pub record TokenHeader : Type 0 where
  pub alg : Option Algorithm
  pub kid : Option ℕ

-- A key of the JWKS: its id and the key.
pub record SigningKey : Type 0 where
  pub key_id : Option ℕ
  pub key : ℕ

-- What a request for the key set ends in.
pub data KeySet : Type 0 where
  fetched : List SigningKey → KeySet
  connection_error : KeySet
  unusable : KeySet

-- What a token says, once verified.
pub record TokenClaims : Type 0 where
  pub sub : Option ℕ
  pub exp : ℕ

-- The claims that a token can be required to have.
pub data ClaimName : Type 0 where
  exp sub iss : ClaimName

-- What `jwt.decode` is asked to check besides the signature. The leeway is in seconds.
pub record DecodeOptions : Type 0 where
  pub audience : ℕ
  pub issuer : Option ℕ
  pub required : List ClaimName
  pub leeway : ℕ

-- What PyJWT answers: the header that it reads from a token, the claims if the token is good for a
-- key, an algorithm and the options, and the key set, from the cache or fetched anew.
pub record Jwt : Type 0 where
  pub get_unverified_header : ℕ → Option TokenHeader
  pub decode : ℕ → ℕ → Algorithm → DecodeOptions → Option TokenClaims
  pub signing_keys : Bool → KeySet

-- The settings that the check reads: the issuer that SUPABASE_URL gives, the secret, and the
-- audience.
pub record AuthSettings : Type 0 where
  pub issuer : Option ℕ
  pub supabase_jwt_secret : Option ℕ
  pub supabase_jwt_audience : ℕ

abbrev pub unauthorized : {A : Type 0} → Reply A
unauthorized = err 401 "Invalid or expired token"

abbrev pub key_set_unavailable : {A : Type 0} → Reply A
key_set_unavailable = err 503 "Cannot verify tokens right now"

abbrev pub refresh_cooldown : ℕ
refresh_cooldown = 60

-- `_claim_refresh_slot`: whether this caller may refetch, and the time of the last refetch, where 0
-- is none.
unfoldable pub claim_refresh_slot : ℕ → ℕ → Bool × ℕ
claim_refresh_slot now last =
    if not (last == 0) && ltb now (last + refresh_cooldown) then (false, last) else (true, now)

-- `_match`
unfoldable pub match_key : List SigningKey → Option ℕ → Option ℕ
match_key [] kid = none
match_key (k ∷ keys) kid =
    if given kid && eq_option k.key_id kid then some k.key else match_key keys kid

-- The key, if the set has it.
abbrev pub key_or_401 : Option ℕ → Reply ℕ
key_or_401 none = unauthorized
key_or_401 (some key) = ok key

-- The set that a refetch brings.
unfoldable pub refetched_key : KeySet → Option ℕ → Reply ℕ
unfolding match_key
refetched_key (KeySet.fetched keys) kid = key_or_401 (match_key keys kid)
refetched_key KeySet.connection_error kid = key_set_unavailable
refetched_key KeySet.unusable kid = unauthorized

-- A refetch if the cached set lacks the key and the slot is free.
unfoldable pub key_or_refetch : Jwt → Option ℕ → Option ℕ → ℕ → ℕ → Reply ℕ × ℕ
unfolding refetched_key claim_refresh_slot
key_or_refetch jwt (some key) kid now last = (ok key, last)
key_or_refetch jwt none kid now last =
    if (claim_refresh_slot now last).0
    then (refetched_key (jwt.signing_keys true) kid, (claim_refresh_slot now last).1)
    else (unauthorized, last)

-- The cached set first.
unfoldable pub cached_key : Jwt → KeySet → Option ℕ → ℕ → ℕ → Reply ℕ × ℕ
unfolding match_key key_or_refetch
cached_key jwt KeySet.connection_error kid now last = (key_set_unavailable, last)
cached_key jwt KeySet.unusable kid now last = (unauthorized, last)
cached_key jwt (KeySet.fetched keys) kid now last =
    key_or_refetch jwt (match_key keys kid) kid now last

abbrev pub header_key : Jwt → Option TokenHeader → ℕ → ℕ → Reply ℕ × ℕ
header_key jwt none now last = (unauthorized, last)
header_key jwt (some header) now last = cached_key jwt (jwt.signing_keys false) header.kid now last

-- `_asymmetric_key`: the key, and the time of the last refetch.
unfoldable pub asymmetric_key : Jwt → ℕ → ℕ → ℕ → Reply ℕ × ℕ
unfolding cached_key
asymmetric_key jwt token now last = header_key jwt (jwt.get_unverified_header token) now last

-- One of `_ACCEPTED_ALGORITHMS`.
abbrev pub accepted : Option Algorithm → Reply Algorithm
accepted none = unauthorized
accepted (some Algorithm.hs256) = ok Algorithm.hs256
accepted (some Algorithm.es256) = ok Algorithm.es256
accepted (some Algorithm.rs256) = ok Algorithm.rs256
accepted (some (Algorithm.unknown other)) = unauthorized

-- `_algorithm`
unfoldable pub algorithm_of : Option TokenHeader → Reply Algorithm
algorithm_of none = unauthorized
algorithm_of (some header) = accepted header.alg

-- `_symmetric_key`
unfoldable pub symmetric_key : AuthSettings → Reply ℕ
symmetric_key settings =
    if given settings.supabase_jwt_secret
    then or_err settings.supabase_jwt_secret 401 "Invalid or expired token"
    else unauthorized

-- The claims that `_verify` requires: that of the issuer only if one is configured.
abbrev pub required_claims : Option ℕ → List ClaimName
required_claims none = ClaimName.exp ∷ ClaimName.sub ∷ []
required_claims (some url) = ClaimName.exp ∷ ClaimName.sub ∷ ClaimName.iss ∷ []

-- What `_verify` asks of `jwt.decode`.
abbrev pub decode_options : AuthSettings → DecodeOptions
decode_options settings = record {
  audience = settings.supabase_jwt_audience;
  issuer = settings.issuer;
  required = required_claims settings.issuer;
  leeway = 30;
}

-- `_verify`
unfoldable pub verify : Jwt → AuthSettings → ℕ → ℕ → Algorithm → Reply TokenClaims
verify jwt settings token key algorithm =
    or_err (jwt.decode token key algorithm (decode_options settings)) 401 "Invalid or expired token"

-- `_require_supabase_url`
unfoldable pub require_supabase_url : AuthSettings → Reply (Unit {0})
require_supabase_url settings =
    guard (is_some settings.issuer) 500
      "Received an asymmetric token but SUPABASE_URL is not configured"

abbrev pub is_symmetric : Algorithm → Bool
is_symmetric Algorithm.hs256 = true
is_symmetric Algorithm.es256 = false
is_symmetric Algorithm.rs256 = false
is_symmetric (Algorithm.unknown other) = false

-- The asymmetric branch of `verify_supabase_token`, after the test of the URL.
abbrev pub verify_by_set :
    Jwt → AuthSettings → ℕ → Algorithm → ℕ → ℕ → Reply (Unit {0}) → Reply TokenClaims × ℕ
verify_by_set jwt settings token algorithm now last (err status detail) = (err status detail, last)
verify_by_set jwt settings token algorithm now last (ok done) = (
  (asymmetric_key jwt token now last).0 >>= λ key. verify jwt settings token key algorithm,
  (asymmetric_key jwt token now last).1,
)

-- Both branches, for a token that names an accepted algorithm.
unfoldable pub verify_with :
    Jwt → AuthSettings → ℕ → Reply Algorithm → ℕ → ℕ → Reply TokenClaims × ℕ
unfolding symmetric_key verify require_supabase_url asymmetric_key
verify_with jwt settings token (err status detail) now last = (err status detail, last)
verify_with jwt settings token (ok algorithm) now last =
    if is_symmetric algorithm
    then (symmetric_key settings >>= λ key. verify jwt settings token key algorithm, last)
    else verify_by_set jwt settings token algorithm now last (require_supabase_url settings)

-- `verify_supabase_token`: the claims, and the time of the last refetch.
unfoldable pub verify_supabase_token : Jwt → AuthSettings → ℕ → ℕ → ℕ → Reply TokenClaims × ℕ
unfolding algorithm_of verify_with
verify_supabase_token jwt settings token now last =
    verify_with jwt settings token (algorithm_of (jwt.get_unverified_header token)) now last
