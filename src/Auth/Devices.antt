-- ===== src/Auth/Devices.antt =====
-- What revoking a device means for good.
use rover_tools_orange_copy.Auth.Keys.{Step, Steps}
use rover_tools_orange_copy.Spaces.Keys.{given}
use rover_tools_orange_copy.Store.Accounts.{Device}
use rover_tools_orange_copy.Auth.KeyWrites.{KeyWrite, write_key}
use rover_tools_orange_copy.Auth.Bootstrap.{ensure_profile}
use rover_tools_orange_copy.Prelude.{
  first_where-update_other, ap, refl, if◌then◌else◌, ok-injective, ◌∙◌, Option-cases, eq_option,
  ==_iff, >>=-returned, not, subst, ◌==◌, Bool-cases, arith, guard-cases, is_none, update_first,
  or_err-cases, ◌&&◌, Bool, first_where, ◌≡◌, List, Option, ℕ, none, some, ok, true, false, [], ◌∷◌,
  inl, inr,
}
use rover_tools_orange_copy.Store.{Env, Db}
use rover_tools_orange_copy.Auth.{
  revoked_row, enforce_umk_proof, refreshed, reset_profile, is_registered, profile_or_404,
  store_wrapped_umk, new_device, put_recovery_wrapped_umk, clear_recovery_wrapped_umk, find_device,
  find_profile, has_device_id, set_recovery_wrapped_umk, RegisterDeviceRequest, set_wrapped_umk,
  Proofs, register_device, store_public_keys, revoke_device,
}

abbrev pub is_cut : Device → Bool
is_cut d = d.revoked && is_none d.wrapped_umk

abbrev pub found_cut : Option Device → Bool
found_cut none = false
found_cut (some d) = is_cut d

-- The device is stored, is revoked and holds no wrap of the master key.
abbrev pub IsCutOff : ℕ → List Device → Type 0
IsCutOff id rows = found_cut (first_where (has_device_id id) rows) ≡ true

module _ (id : ℕ) where
  update-IsCutOff :
      (p : Device → Bool) (f : Device → Device) (rows : List Device)
      → ((x : Device) → has_device_id id (f x) ≡ has_device_id id x)
      → ((x : Device) → is_cut x ≡ true → is_cut (f x) ≡ true)
      → IsCutOff id rows
      → IsCutOff id (update_first p f rows)
  update-IsCutOff p f [] keeps cuts h = h
  update-IsCutOff p f (x ∷ rows) keeps cuts h =
      ground (arith, h, keeps x, cuts x, update-IsCutOff p f rows keeps cuts)

  -- A change of a live device is a change of another.
  wrap-IsCutOff :
      (device : ℕ) (f : Device → Device) (d : Device) (rows : List Device)
      → first_where (has_device_id device) rows ≡ some d
      → d.revoked ≡ false
      → ((x : Device) → (f x).id ≡ x.id)
      → IsCutOff id rows
      → IsCutOff id (update_first (has_device_id device) f rows)
  wrap-IsCutOff device f d rows e live keeps h = elim (Bool-cases (device == id)) [
    | inl same ↦
        let g : first_where (has_device_id id) rows ≡ some d =
          subst (λ i. first_where (has_device_id i) rows ≡ some d) ((==_iff device id).0 same) e in
        ground (arith, live, rw g at h)
    | inr other ↦
        ap found_cut (
          first_where-update_other (has_device_id device) (has_device_id id) f rows
            (λ x k. (ground (arith, k, other), ground (arith, k, other, keeps x))))
        ∙ h
  ]

  wrote-IsCutOff :
      (lib : Proofs) (w : KeyWrite) (uid : ℕ) (header : Option ℕ) (now : ℕ) (db db' : Db)
      → write_key lib w uid header now db ≡ ok db'
      → IsCutOff id db.devices
      → IsCutOff id db'.devices
  unfolding write_key set_wrapped_umk set_recovery_wrapped_umk clear_recovery_wrapped_umk
      put_recovery_wrapped_umk revoke_device store_wrapped_umk
  wrote-IsCutOff lib (KeyWrite.set_umk wrapped reset recovery) uid header now db db' h x =
      let (p, e, k) = >>=-returned (profile_or_404 uid db) _ h in
      let (q, e1, k1) =
        >>=-returned
          (if reset && recovery then reset_profile lib p header else enforce_umk_proof lib p header)
          _ k in
      subst (λ (d : Db). IsCutOff id d.devices) (ok-injective k1) x
  wrote-IsCutOff lib (KeyWrite.set_recovery wrapped) uid header now db db' h x =
      let (p, e, k) = >>=-returned (profile_or_404 uid db) _ h in
      let (q, e1, k1) = >>=-returned (enforce_umk_proof lib p header) _ k in
      subst (λ (d : Db). IsCutOff id d.devices) (ok-injective k1) x
  wrote-IsCutOff lib KeyWrite.clear_recovery uid header now db db' h x =
      let (p, e, k) = >>=-returned (profile_or_404 uid db) _ h in
      let (q, e1, k1) = >>=-returned (enforce_umk_proof lib p header) _ k in
      subst (λ (d : Db). IsCutOff id d.devices) (ok-injective k1) x
  wrote-IsCutOff lib (KeyWrite.revoke device) uid header now db db' h x =
      let (d, e, k) = or_err-cases (find_device device db) _ _ _ h in
      let (own, k0) = guard-cases (d.user_id == uid) 403 "Not your device" _ k in
      let (p, e0, k1) = >>=-returned (profile_or_404 uid db) _ k0 in
      let (q, e1, k2) = >>=-returned (enforce_umk_proof lib p header) _ k1 in
      subst (λ (d : Db). IsCutOff id d.devices) (ok-injective k2)
        (update-IsCutOff (has_device_id device) revoked_row db.devices (λ y. refl) (λ y c. refl) x)
  wrote-IsCutOff lib (KeyWrite.wrap device wrapped) uid header now db db' h x =
      let (d, e, k) = or_err-cases (find_device device db) _ _ _ h in
      let (own, k0) = guard-cases (d.user_id == uid) 403 "Not your device" _ k in
      let (live, k') = guard-cases (not d.revoked) 409 "device_revoked" _ k0 in
      let (p, e0, k1) = >>=-returned (profile_or_404 uid db) _ k' in
      let (q, e1, k2) = >>=-returned (enforce_umk_proof lib p header) _ k1 in
      subst (λ (d : Db). IsCutOff id d.devices) (ok-injective k2)
        (wrap-IsCutOff device (λ y. record y { wrapped_umk = some wrapped }) d db.devices e
          (ground (arith, live)) (λ y. refl) x)

  keyed-IsCutOff :
      (uid device identity device_key : ℕ) (db db' : Db)
      → store_public_keys uid device identity device_key db ≡ ok db'
      → IsCutOff id db.devices
      → IsCutOff id db'.devices
  unfolding store_public_keys
  keyed-IsCutOff uid device identity device_key db db' h x =
      let (p, e, k) = or_err-cases (find_profile uid db) _ _ _ h in
      let (d, e1, k1) = or_err-cases (find_device device db) _ _ _ k in
      let (mine, k2) = guard-cases (d.user_id == p.id) 403 "Not your device" _ k1 in
      let (same, k3) =
        guard-cases
          (not (given p.identity_pubkey && not (eq_option p.identity_pubkey (some identity)))) 409
          "Identity key already registered for this account" _ k2 in
      subst (λ (d : Db). IsCutOff id d.devices) (ok-injective k3)
        (update-IsCutOff (has_device_id device) (λ y. record y { device_pubkey = some device_key })
          db.devices (λ y. refl) (λ y c. c) x)

  registered-IsCutOff :
      (uid : ℕ) (req : RegisterDeviceRequest) (env : Env) (db : Db)
      → find_device env.new_id db ≡ none
      → IsCutOff id db.devices
      → IsCutOff id (register_device uid req env db).1.devices
  unfolding register_device
  registered-IsCutOff uid req env db fresh x =
      elim (Option-cases (first_where (is_registered uid req.device_pubkey) db.devices)) [
        | inl e ↦ rw (register_device, e) added
        | inr (d, e) ↦
            rw (register_device, e)
              (update-IsCutOff (is_registered uid req.device_pubkey) (refreshed req env.now)
                db.devices (λ y. refl) (λ y c. c) x)
      ]
    where
      added : IsCutOff id (new_device env.new_id uid req env.now ∷ db.devices)
      added = elim (Bool-cases (env.new_id == id)) [
        | inl same ↦
            let g : find_device id db ≡ none =
              subst (λ i. find_device i db ≡ none) ((==_iff env.new_id id).0 same) fresh in
            cc (rw g at x)
        | inr other ↦ rw other x
      ]

  Step-IsCutOff :
      (lib : Proofs) (a b : Db) → Step lib a b → IsCutOff id a.devices → IsCutOff id b.devices
  unfolding ensure_profile
  Step-IsCutOff lib a b (Step.wrote w uid header now _ _ h) x =
      wrote-IsCutOff lib w uid header now a b h x
  Step-IsCutOff lib a b (Step.keyed uid device identity device_key _ _ h) x =
      keyed-IsCutOff uid device identity device_key a b h x
  Step-IsCutOff lib a _ (Step.signed_in uid s d _) x = elim (Option-cases (find_profile uid a)) [
    | inl e ↦ rw (ensure_profile, e) x
    | inr (p, e) ↦ rw (ensure_profile, e) x
  ]
  Step-IsCutOff lib a _ (Step.registered uid req env _ fresh) x =
      registered-IsCutOff uid req env a fresh x

-- A device that is revoked and holds no wrap of the master key stays so: no sequence of sign-ins,
-- key writes, resets, registrations and revocations, by whomever, brings it back.
pub Steps-IsCutOff :
    (lib : Proofs) (id : ℕ) (a b : Db)
    → Steps lib a b
    → IsCutOff id a.devices
    → IsCutOff id b.devices
Steps-IsCutOff lib id a b (Steps.done _) x = x
Steps-IsCutOff lib id a b (Steps.step _ c _ first rest) x =
    Steps-IsCutOff lib id c b rest (Step-IsCutOff id lib a c first x)
