-- ===== src/Auth/Keys.antt =====
-- The calls of src/auth/service.py as steps, and what they keep of the identity key.
use mathlib.Core.Option.{some-injective}
use rover_tools_orange_copy.Spaces.Keys.{given}
use rover_tools_orange_copy.Blobs.{has_profile_id}
use rover_tools_orange_copy.Auth.Calls.{find-save_profile}
use rover_tools_orange_copy.Auth.KeyWrites.{write_key-IsWritten, write_key, KeyWrite}
use rover_tools_orange_copy.Auth.Bootstrap.{new_profile, mirrored, Defaults, SignIn, ensure_profile}
use rover_tools_orange_copy.Store.Accounts.{Profile}
use rover_tools_orange_copy.Prelude.{
  first_where-update_other, ok-injective, guard-cases, ap, or_err-cases, eq_option, ◌∙◌, sym, ◌&&◌,
  first_where-In, subst, ==_iff, arith, not, Bool-cases, ◌==◌, Option, Option-cases, first_where,
  ◌≡◌, List, ℕ, none, some, ok, true, false, ◌∷◌, inl, inr,
}
use rover_tools_orange_copy.Store.{Env, Db}
use rover_tools_orange_copy.Auth.{
  find_device, RegisterDeviceRequest, is_registered, save_profile, find_profile, Proofs,
  register_device, store_public_keys,
}

-- One call that returned. A new device gets an id that none has.
pub data Step (lib : Proofs) : Db → Db → Type 0 where
  wrote :
      (w : KeyWrite) (uid : ℕ) (header : Option ℕ) (now : ℕ) (db db' : Db)
      → write_key lib w uid header now db ≡ ok db'
      → Step lib db db'
  keyed :
      (uid device identity device_key : ℕ) (db db' : Db)
      → store_public_keys uid device identity device_key db ≡ ok db'
      → Step lib db db'
  signed_in :
      (uid : ℕ) (s : SignIn) (d : Defaults) (db : Db) → Step lib db (ensure_profile uid s d db).1
  registered :
      (uid : ℕ) (req : RegisterDeviceRequest) (env : Env) (db : Db)
      → find_device env.new_id db ≡ none
      → Step lib db (register_device uid req env db).1

pub data Steps (lib : Proofs) : Db → Db → Type 0 where
  done : (db : Db) → Steps lib db db
  step : (a b c : Db) → Step lib a b → Steps lib b c → Steps lib a c

-- The account has registered this identity key, which is not empty.
abbrev pub IsBound : ℕ → ℕ → List Profile → Type 0
IsBound uid key rows =
    (p : Profile) × (first_where (has_profile_id uid) rows ≡ some p)
    × (p.identity_pubkey ≡ some key)
    × ((key == 0) ≡ false)

module _ (who key : ℕ) where
  -- A row that is saved in place of another, and has the key if the other had one.
  saved-IsBound :
      (uid : ℕ) (old new : Profile) (db : Db)
      → find_profile uid db ≡ some old
      → new.id ≡ uid
      → (old.identity_pubkey ≡ some key → new.identity_pubkey ≡ some key)
      → IsBound who key db.profiles
      → IsBound who key (save_profile new db).profiles
  saved-IsBound uid old new db f own keeps (p, e, k, real) = elim (Bool-cases (uid == who)) [
    | inl same ↦
        let here : uid ≡ who = (==_iff uid who).0 same in
        let old_p : old ≡ p = some-injective _ _ (sym f ∙ ap (λ u. find_profile u db) here ∙ e) in
        (
          new,
          subst (λ u. first_where (has_profile_id u) (save_profile new db).profiles ≡ some new) here
              (find-save_profile uid old new db f own),
          keeps (ap (λ (x : Profile). x.identity_pubkey) old_p ∙ k),
          real,
        )
    | inr other ↦ (
      p,
      first_where-update_other (has_profile_id new.id) (has_profile_id who) (λ x. new) db.profiles
            (λ x h. (ground (arith, h, own, other), ground (arith, h, own, other)))
          ∙ e,
      k,
      real,
    )
  ]

  wrote-IsBound :
      (lib : Proofs) (w : KeyWrite) (uid : ℕ) (header : Option ℕ) (now : ℕ) (db db' : Db)
      → write_key lib w uid header now db ≡ ok db'
      → IsBound who key db.profiles
      → IsBound who key db'.profiles
  wrote-IsBound lib w uid header now db db' h b =
      let x = write_key-IsWritten lib uid header db db' w now h in
      subst (IsBound who key) (sym x.saved)
        (saved-IsBound uid x.old x.new db x.found x.id (λ e. x.identity ∙ e) b)

  keyed-IsBound :
      (uid device identity device_key : ℕ) (db db' : Db)
      → store_public_keys uid device identity device_key db ≡ ok db'
      → IsBound who key db.profiles
      → IsBound who key db'.profiles
  unfolding store_public_keys
  keyed-IsBound uid device identity device_key db db' h b =
      let (p, e, k) = or_err-cases (find_profile uid db) _ _ _ h in
      let (d, e1, k1) = or_err-cases (find_device device db) _ _ _ k in
      let (mine, k2) = guard-cases (d.user_id == p.id) 403 "Not your device" _ k1 in
      let (same, k3) =
        guard-cases
          (not (given p.identity_pubkey && not (eq_option p.identity_pubkey (some identity)))) 409
          "Identity key already registered for this account" _ k2 in
      subst (IsBound who key) (ap (λ (x : Db). x.profiles) (ok-injective k3)) (
        saved-IsBound uid p (record p { identity_pubkey = some identity }) db e
          (ground (arith, (first_where-In (has_profile_id uid) db.profiles p e).1))
          (λ f. ap some (keeps p.identity_pubkey f b.3 same)) b)
    where
      keeps :
          (stored : Option ℕ)
          → stored ≡ some key
          → (key == 0) ≡ false
          → not (given stored && not (eq_option stored (some identity))) ≡ true
          → identity ≡ key
      keeps none f real same = cc
      keeps (some x) f real same = ground (arith, some-injective _ _ f, real, same)

  signed-IsBound :
      (uid : ℕ) (s : SignIn) (d : Defaults) (db : Db)
      → IsBound who key db.profiles
      → IsBound who key (ensure_profile uid s d db).1.profiles
  unfolding ensure_profile
  signed-IsBound uid s d db (p, e, k, real) = elim (Option-cases (find_profile uid db)) [
    | inl f ↦ rw (ensure_profile, f) (p, skipped f, k, real)
    | inr (q, f) ↦
        rw (ensure_profile, f)
          (saved-IsBound uid q (mirrored s d q) db f
            (ground (arith, (first_where-In (has_profile_id uid) db.profiles q f).1)) (λ h. h)
            (p, e, k, real))
  ]
    where
      skipped :
          find_profile uid db ≡ none
          → first_where (has_profile_id who) (new_profile uid s d ∷ db.profiles) ≡ some p
      skipped f = elim (Bool-cases (uid == who)) [
        | inl same ↦
            let g : find_profile who db ≡ none =
              subst (λ u. find_profile u db ≡ none) ((==_iff uid who).0 same) f in
            cc (sym g ∙ e)
        | inr other ↦ rw other e
      ]

  Step-IsBound :
      (lib : Proofs) (a b : Db)
      → Step lib a b
      → IsBound who key a.profiles
      → IsBound who key b.profiles
  unfolding register_device
  Step-IsBound lib a b (Step.wrote w uid header now _ _ h) x =
      wrote-IsBound lib w uid header now a b h x
  Step-IsBound lib a b (Step.keyed uid device identity device_key _ _ h) x =
      keyed-IsBound uid device identity device_key a b h x
  Step-IsBound lib a _ (Step.signed_in uid s d _) x = signed-IsBound uid s d a x
  Step-IsBound lib a _ (Step.registered uid req env _ fresh) x =
      elim (Option-cases (first_where (is_registered uid req.device_pubkey) a.devices)) [
        | inl e ↦ rw (register_device, e) x
        | inr (d, e) ↦ rw (register_device, e) x
      ]

-- An identity key that an account has registered is its key for good: no sequence of sign-ins, key
-- writes, resets, registrations and revocations, by whomever, changes it.
pub Steps-IsBound :
    (lib : Proofs) (who key : ℕ) (a b : Db)
    → Steps lib a b
    → IsBound who key a.profiles
    → IsBound who key b.profiles
Steps-IsBound lib who key a b (Steps.done _) x = x
Steps-IsBound lib who key a b (Steps.step _ c _ first rest) x =
    Steps-IsBound lib who key c b rest (Step-IsBound who key lib a c first x)
