-- ===== src/Auth/Tokens/Verified.antt =====
-- What an accepted token was checked against.
use rover_tools_orange_copy.Spaces.Keys.{given}
use rover_tools_orange_copy.Prelude.{
  or_err, String, ◌>>=◌, ℕ, Bool, Option, none, some, List, Reply, ok, err, ◌≡◌, ◌⊎◌, inl, inr,
  refl, In, >>=-returned, ok-injective, ◌∙◌, ap, sym, if-cases,
}
use rover_tools_orange_copy.Auth.Tokens.{
  unauthorized, accepted, verify_by_set, Algorithm, TokenHeader, ClaimName, DecodeOptions,
  required_claims, decode_options, SigningKey, KeySet, TokenClaims, Jwt, AuthSettings,
  asymmetric_key, algorithm_of, symmetric_key, verify, require_supabase_url, verify_with,
  verify_supabase_token,
}
use rover_tools_orange_copy.Auth.Tokens.Found.{asymmetric-Found}

-- The options ask for the audience and the issuer that are configured, for an expiry and a subject
-- (and for an issuer if one is configured), with 30 seconds of leeway.
pub record IsStrict (settings : AuthSettings) (o : DecodeOptions) : Type 0 where
  pub audience : o.audience ≡ settings.supabase_jwt_audience
  pub issuer : o.issuer ≡ settings.issuer
  pub exp : In ClaimName.exp o.required
  pub sub : In ClaimName.sub o.required
  pub iss : (settings.issuer ≡ none) ⊎ In ClaimName.iss o.required
  pub leeway : o.leeway ≡ 30

-- PyJWT reads the claims from the token with the key and such options.
abbrev pub IsDecoded : Jwt → AuthSettings → ℕ → ℕ → Algorithm → TokenClaims → Type 0
IsDecoded jwt settings token key alg claims =
    (o : DecodeOptions) × IsStrict settings o × (jwt.decode token key alg o ≡ some claims)

decode_options-IsStrict : (settings : AuthSettings) → IsStrict settings (decode_options settings)
decode_options-IsStrict settings = record {
  audience = refl;
  issuer = refl;
  exp = has_exp settings.issuer;
  sub = has_sub settings.issuer;
  iss = has_iss settings.issuer;
  leeway = refl;
}
  where
    has_exp : (o : Option ℕ) → In ClaimName.exp (required_claims o)
    has_exp none = inl refl
    has_exp (some i) = inl refl

    has_sub : (o : Option ℕ) → In ClaimName.sub (required_claims o)
    has_sub none = inr (inl refl)
    has_sub (some i) = inr (inl refl)

    has_iss : (o : Option ℕ) → (o ≡ none) ⊎ In ClaimName.iss (required_claims o)
    has_iss none = inl refl
    has_iss (some i) = inr (inr (inr (inl refl)))

-- The secret of the settings vouches for the claims.
abbrev pub IsBySecret : Jwt → AuthSettings → ℕ → Algorithm → TokenClaims → Type 0
IsBySecret jwt settings token alg claims =
    (alg ≡ Algorithm.hs256)
    × ((secret : ℕ) × (settings.supabase_jwt_secret ≡ some secret)
        × IsDecoded jwt settings token secret alg claims)

-- A key of the key set, which has the id that the token names, vouches for the claims.
abbrev pub IsByKey : Jwt → AuthSettings → ℕ → TokenHeader → Algorithm → TokenClaims → Type 0
IsByKey jwt settings token header alg claims =
    ((alg ≡ Algorithm.es256) ⊎ (alg ≡ Algorithm.rs256))
    × ((refresh : Bool) × (keys : List SigningKey) × (k : SigningKey) × (jwt.signing_keys refresh
          ≡ KeySet.fetched keys)
        × In k keys
        × (k.key_id ≡ header.kid)
        × IsDecoded jwt settings token k.key alg claims)

accepted-alg :
    (o : Option Algorithm) (alg : Algorithm)
    → accepted o ≡ ok alg
    → (o ≡ some alg)
      × ((alg ≡ Algorithm.hs256) ⊎ ((alg ≡ Algorithm.es256) ⊎ (alg ≡ Algorithm.rs256)))
accepted-alg none alg h = cc
accepted-alg (some Algorithm.hs256) alg h = (ap some (ok-injective h), inl (sym (ok-injective h)))
accepted-alg (some Algorithm.es256) alg h =
    (ap some (ok-injective h), inr (inl (sym (ok-injective h))))
accepted-alg (some Algorithm.rs256) alg h =
    (ap some (ok-injective h), inr (inr (sym (ok-injective h))))
accepted-alg (some (Algorithm.unknown other)) alg h = cc

or_err-returned :
    {A : Type 0} (o : Option A) (status : ℕ) (detail : String) (a : A)
    → or_err o status detail ≡ ok a
    → o ≡ some a
or_err-returned none status detail a h = cc
or_err-returned (some x) status detail a h = ap some (ok-injective h)

by_secret :
    (jwt : Jwt) (settings : AuthSettings) (token : ℕ) (claims : TokenClaims)
    → (symmetric_key settings >>= λ key. verify jwt settings token key Algorithm.hs256) ≡ ok claims
    → IsBySecret jwt settings token Algorithm.hs256 claims
unfolding symmetric_key verify
by_secret jwt settings token claims h =
    let (secret, e, v) = >>=-returned (symmetric_key settings) _ h in
    elim (if-cases (given settings.supabase_jwt_secret)
      (or_err settings.supabase_jwt_secret 401 "Invalid or expired token") unauthorized e) [
        | inl (t, e') ↦ (
          refl,
          (
            secret,
            or_err-returned settings.supabase_jwt_secret _ _ secret e',
            (
              decode_options settings,
              decode_options-IsStrict settings,
              or_err-returned _ _ _ claims v,
            ),
          ),
        )
        | inr (f, e') ↦ cc
      ]

by_set :
    (jwt : Jwt) (settings : AuthSettings) (token now last : ℕ) (header : TokenHeader)
    (alg : Algorithm) (claims : TokenClaims) (url : Reply (Unit {0}))
    → jwt.get_unverified_header token ≡ some header
    → ((alg ≡ Algorithm.es256) ⊎ (alg ≡ Algorithm.rs256))
    → (verify_by_set jwt settings token alg now last url).0 ≡ ok claims
    → IsByKey jwt settings token header alg claims
unfolding verify
by_set jwt settings token now last header alg claims (err status detail) e a h = cc
by_set jwt settings token now last header alg claims (ok done) e a h =
    let (key, f, v) = >>=-returned (asymmetric_key jwt token now last).0 _ h in
    let (refresh, keys, k, set, i, named, same) =
      asymmetric-Found jwt token now last key header e f in
    let decoded =
      or_err-returned (jwt.decode token key alg (decode_options settings)) _ _ claims v in
    (
      a,
      (
        refresh,
        keys,
        k,
        set,
        i,
        named,
        (
          decode_options settings,
          decode_options-IsStrict settings,
          ap (λ x. jwt.decode token x alg (decode_options settings)) same ∙ decoded,
        ),
      ),
    )

with-checked :
    (jwt : Jwt) (settings : AuthSettings) (token now last : ℕ) (header : TokenHeader)
    (alg : Algorithm) (claims : TokenClaims)
    → jwt.get_unverified_header token ≡ some header
    → accepted header.alg ≡ ok alg
    → (verify_with jwt settings token (ok alg) now last).0 ≡ ok claims
    → IsBySecret jwt settings token alg claims ⊎ IsByKey jwt settings token header alg claims
unfolding verify_with
with-checked jwt settings token now last header Algorithm.hs256 claims e a h =
    inl (by_secret jwt settings token claims h)
with-checked jwt settings token now last header Algorithm.es256 claims e a h = inr (
    by_set jwt settings token now last header Algorithm.es256 claims (require_supabase_url settings)
      e (inl refl) h)
with-checked jwt settings token now last header Algorithm.rs256 claims e a h = inr (
    by_set jwt settings token now last header Algorithm.rs256 claims (require_supabase_url settings)
      e (inr refl) h)
with-checked jwt settings token now last header (Algorithm.unknown other) claims e a h =
    elim (accepted-alg header.alg (Algorithm.unknown other) a).1 [
      | inl same ↦ cc
      | inr (inl same) ↦ cc
      | inr (inr same) ↦ cc
    ]

-- If a token is accepted, then its header names one of the three algorithms, and the claims are
-- those that PyJWT reads from it under this algorithm, for the configured audience and issuer, with
-- an expiry and a subject required, and an issuer where one is configured, and 30 seconds of
-- leeway: with the configured secret for HS256, and for ES256 and RS256 with a key of the key set
-- whose id is the one that the header names.
pub verify_supabase_token_checked :
    (jwt : Jwt) (settings : AuthSettings) (token now last : ℕ) (claims : TokenClaims)
    → (verify_supabase_token jwt settings token now last).0 ≡ ok claims
    → (header : TokenHeader) × (alg : Algorithm) × (jwt.get_unverified_header token ≡ some header)
      × (header.alg ≡ some alg)
      × (IsBySecret jwt settings token alg claims ⊎ IsByKey jwt settings token header alg claims)
unfolding verify_supabase_token algorithm_of verify_with
verify_supabase_token_checked jwt settings token now last claims h =
    by_header (jwt.get_unverified_header token) refl h
  where
    by_header :
        (o : Option TokenHeader)
        → jwt.get_unverified_header token ≡ o
        → (verify_with jwt settings token (algorithm_of o) now last).0 ≡ ok claims
        → (header : TokenHeader) × (alg : Algorithm) × (jwt.get_unverified_header token
            ≡ some header)
          × (header.alg ≡ some alg)
          × (IsBySecret jwt settings token alg claims
              ⊎ IsByKey jwt settings token header alg claims)
    by_header none e k = cc
    by_header (some header) e k = by_alg (accepted header.alg) refl k
      where
        by_alg :
            (r : Reply Algorithm)
            → accepted header.alg ≡ r
            → (verify_with jwt settings token r now last).0 ≡ ok claims
            → (header : TokenHeader) × (alg : Algorithm) × (jwt.get_unverified_header token
                ≡ some header)
              × (header.alg ≡ some alg)
              × (IsBySecret jwt settings token alg claims
                  ⊎ IsByKey jwt settings token header alg claims)
        by_alg (err status detail) a k' = cc
        by_alg (ok alg) a k' = (
          header,
          alg,
          e,
          (accepted-alg header.alg alg a).0,
          with-checked jwt settings token now last header alg claims e a k',
        )
