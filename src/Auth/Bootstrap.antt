-- ===== src/Auth/Bootstrap.antt =====
-- `ensure_profile` of src/auth/service.py, which a sign-in calls, and `is_recovery_session`.
use rover_tools_orange_copy.Auth.{save_profile, find_profile}
use rover_tools_orange_copy.Spaces.Keys.{given}
use rover_tools_orange_copy.Store.Accounts.{Profile}
use rover_tools_orange_copy.Prelude.{
  eq_option, any_where, not, ◌||◌, ◌∷◌, if◌then◌else◌, ◌==◌, Bool, ℕ, List, [], Option, none, some,
  true, false, is_empty,
}
use rover_tools_orange_copy.Store.{eq_text, Text, Db}

-- The claims that a sign-in mirrors. An empty address or URL is 0.
pub record SignIn : Type 0 where
  pub display_name : Option Text
  pub email : Option ℕ
  pub avatar_url : Option ℕ

-- What the call takes from outside: the part of an address before the `@`, a fresh salt, the
-- default quota and the clock.
pub record Defaults : Type 0 where
  pub local_part : ℕ → Text
  pub salt : ℕ
  pub blob_quota : ℕ
  pub now : ℕ

abbrev pub normalized : Option ℕ → Option ℕ
normalized e = if given e then e else none

abbrev pub fallback_name : Defaults → Option ℕ → Text
fallback_name d none = []
fallback_name d (some e) = if e == 0 then [] else d.local_part e

-- `name or fallback`
abbrev pub or_fallback : Text → Text → Text
or_fallback name fallback = if is_empty name then fallback else name

abbrev pub first_name : Option Text → Text → Text
first_name none fallback = fallback
first_name (some name) fallback = or_fallback name fallback

-- The name after a sign-in of an account that has one already.
abbrev pub next_name : Option Text → Text → Text → Text
next_name none name fallback = or_fallback name fallback
next_name (some new) name fallback = if eq_text new name then or_fallback name fallback else new

-- A claim that is given replaces the column.
abbrev pub next_claim : Option ℕ → Option ℕ → Option ℕ
next_claim new old = if given new then new else old

abbrev pub new_profile : ℕ → SignIn → Defaults → Profile
new_profile uid s d = record {
  id = uid;
  display_name = first_name s.display_name (fallback_name d s.email);
  email = normalized s.email;
  avatar_url = s.avatar_url;
  kdf_salt = d.salt;
  identity_pubkey = none;
  pw_wrapped_umk = none;
  recovery_wrapped_umk = none;
  umk_proof_hash = none;
  pw_wrapped_umk_prev = none;
  blob_bytes_quota = d.blob_quota;
  created_at = d.now;
  updated_at = d.now;
}

-- Whether the sign-in changes a column.
abbrev pub is_changed : SignIn → Defaults → Profile → Bool
is_changed s d p =
    not (eq_text (next_name s.display_name p.display_name (fallback_name d s.email)) p.display_name)
    || not (eq_option (next_claim s.email p.email) p.email)
    || not (eq_option (next_claim s.avatar_url p.avatar_url) p.avatar_url)

abbrev pub mirrored : SignIn → Defaults → Profile → Profile
mirrored s d p = record p {
  display_name = next_name s.display_name p.display_name (fallback_name d s.email);
  email = next_claim s.email p.email;
  avatar_url = next_claim s.avatar_url p.avatar_url;
  updated_at = if is_changed s d p then d.now else p.updated_at;
}

-- `ensure_profile`
unfoldable pub ensure_profile : ℕ → SignIn → Defaults → Db → Profile × Db
ensure_profile uid s d db = elim (find_profile uid db) [
  | none ↦ (new_profile uid s d, record db { profiles = new_profile uid s d ∷ db.profiles })
  | some p ↦ (mirrored s d p, save_profile (mirrored s d p) db)
]

-- An entry of the `amr` claim: its method is `recovery`, or something else.
pub data AmrMethod : Type 0 where
  recovery other : AmrMethod

-- `is_recovery_session`; `none` is a claim that is absent or no list.
unfoldable pub is_recovery_session : Option (List AmrMethod) → Bool
is_recovery_session none = false
is_recovery_session (some methods) = any_where is_recovery methods
  where
    is_recovery : AmrMethod → Bool
    is_recovery AmrMethod.recovery = true
    is_recovery AmrMethod.other = false
