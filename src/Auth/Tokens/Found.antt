-- ===== src/Auth/Tokens/Found.antt =====
-- Where the key that the check of a token uses comes from.
use rover_tools_orange_copy.Spaces.Keys.{given}
use mathlib.Core.Option.{some-injective}
use rover_tools_orange_copy.Prelude.{
  ◌&&◌, ℕ, Bool, true, false, Option, none, some, List, [], ◌∷◌, ok, ◌≡◌, inl, inr, refl, In, arith,
  Bool-cases, ok-injective, ◌∙◌, ap, sym, if-cases, eq_option,
}
use rover_tools_orange_copy.Auth.Tokens.{
  claim_refresh_slot, header_key, key_or_refetch, TokenHeader, SigningKey, KeySet, Jwt, match_key,
  key_or_401, refetched_key, cached_key, asymmetric_key,
}

eq_option_eq : (a b : Option ℕ) → eq_option a b ≡ true → a ≡ b
eq_option_eq none none h = refl
eq_option_eq none (some b) h = cc
eq_option_eq (some a) none h = cc
eq_option_eq (some a) (some b) h = ap some (ground (arith, h))

match_key-In :
    (keys : List SigningKey) (kid : Option ℕ) (key : ℕ)
    → match_key keys kid ≡ some key
    → (k : SigningKey) × In k keys × (k.key_id ≡ kid) × (k.key ≡ key)
unfolding match_key
match_key-In [] kid key h = cc
match_key-In (k ∷ keys) kid key h =
    elim (if-cases (given kid && eq_option k.key_id kid) (some k.key) (match_key keys kid) h) [
      | inl (t, e) ↦
          (k, inl refl, eq_option_eq k.key_id kid (ground (arith, t)), some-injective _ _ e)
      | inr (f, e) ↦
          let (x, i, named, same) = match_key-In keys kid key e in (x, inr i, named, same)
    ]

-- A key that was found is in a set that was fetched.
abbrev pub Found : Jwt → Option ℕ → ℕ → Type 0
Found jwt kid key =
    (refresh : Bool) × (keys : List SigningKey) × (k : SigningKey) × (jwt.signing_keys refresh
      ≡ KeySet.fetched keys)
    × In k keys
    × (k.key_id ≡ kid)
    × (k.key ≡ key)

refetched-Found :
    (jwt : Jwt) (set : KeySet) (kid : Option ℕ) (key : ℕ)
    → jwt.signing_keys true ≡ set
    → refetched_key set kid ≡ ok key
    → Found jwt kid key
unfolding refetched_key
refetched-Found jwt (KeySet.fetched keys) kid key e h = by_key (match_key keys kid) refl h
  where
    by_key : (o : Option ℕ) → match_key keys kid ≡ o → key_or_401 o ≡ ok key → Found jwt kid key
    by_key none e' h' = cc
    by_key (some found) e' h' =
        let (k, i, named, same) = match_key-In keys kid found e' in
        (true, keys, k, e, i, named, same ∙ ok-injective h')
refetched-Found jwt KeySet.connection_error kid key e h = cc
refetched-Found jwt KeySet.unusable kid key e h = cc

cached-Found :
    (jwt : Jwt) (set : KeySet) (kid : Option ℕ) (now last key : ℕ)
    → jwt.signing_keys false ≡ set
    → (cached_key jwt set kid now last).0 ≡ ok key
    → Found jwt kid key
unfolding cached_key key_or_refetch
cached-Found jwt KeySet.connection_error kid now last key e h = cc
cached-Found jwt KeySet.unusable kid now last key e h = cc
cached-Found jwt (KeySet.fetched keys) kid now last key e h = by_key (match_key keys kid) refl h
  where
    by_key :
        (o : Option ℕ)
        → match_key keys kid ≡ o
        → (key_or_refetch jwt o kid now last).0 ≡ ok key
        → Found jwt kid key
    by_key (some found) e' h' =
        let (k, i, named, same) = match_key-In keys kid found e' in
        (false, keys, k, e, i, named, same ∙ ok-injective h')
    by_key none e' h' = elim (Bool-cases (claim_refresh_slot now last).0) [
      | inl free ↦ refetched-Found jwt (jwt.signing_keys true) kid key refl (rw free at h')
      | inr taken ↦ cc (rw taken at h')
    ]

pub asymmetric-Found :
    (jwt : Jwt) (token now last key : ℕ) (header : TokenHeader)
    → jwt.get_unverified_header token ≡ some header
    → (asymmetric_key jwt token now last).0 ≡ ok key
    → Found jwt header.kid key
unfolding asymmetric_key
asymmetric-Found jwt token now last key header e h =
    cached-Found jwt (jwt.signing_keys false) header.kid now last key refl
      (ap (λ o. (header_key jwt o now last).0) (sym e) ∙ h)
