-- ===== src/Auth/KeyWrites.antt =====
-- The writes of key material in src/auth/service.py as one type, and what each checks first.
use rover_tools_orange_copy.Blobs.{has_profile_id}
use rover_tools_orange_copy.Store.Accounts.{Profile}
use rover_tools_orange_copy.Prelude.{
  not, ◌==◌, refl, if◌then◌else◌, none, or_err-cases, first_where-In, arith, sym, ap, guard-cases,
  ◌∙◌, Reply, ok-injective, ◌⊎◌, >>=-returned, Option-cases, ◌≡◌, Option, ◌&&◌, Bool, ℕ, some, ok,
  true, false, inl, inr,
}
use rover_tools_orange_copy.Store.{Db}
use rover_tools_orange_copy.Auth.{
  find_device, put_recovery_wrapped_umk, hash_umk_proof, save_profile, store_wrapped_umk,
  clear_recovery_wrapped_umk, find_profile, set_recovery_wrapped_umk, Proofs, enforce_umk_proof,
  profile_or_404, reset_profile, set_wrapped_umk, revoke_device,
}

-- The writes of key material, which carry a proof.
pub data KeyWrite : Type 0 where
  set_umk : ℕ → Bool → Bool → KeyWrite
  set_recovery : ℕ → KeyWrite
  clear_recovery : KeyWrite
  revoke : ℕ → KeyWrite
  wrap : ℕ → ℕ → KeyWrite

-- A reset from a recovery session, which is the one write that replaces the proof.
abbrev pub is_reset : KeyWrite → Bool
is_reset (KeyWrite.set_umk wrapped reset recovery) = reset && recovery
is_reset (KeyWrite.set_recovery wrapped) = false
is_reset KeyWrite.clear_recovery = false
is_reset (KeyWrite.revoke device) = false
is_reset (KeyWrite.wrap device wrapped) = false

unfoldable pub write_key : Proofs → KeyWrite → ℕ → Option ℕ → ℕ → Db → Reply Db
unfolding set_wrapped_umk set_recovery_wrapped_umk clear_recovery_wrapped_umk revoke_device
    store_wrapped_umk
write_key lib (KeyWrite.set_umk wrapped reset recovery) uid header now db =
    set_wrapped_umk lib uid wrapped header reset recovery now db
write_key lib (KeyWrite.set_recovery wrapped) uid header now db =
    set_recovery_wrapped_umk lib uid wrapped header now db
write_key lib KeyWrite.clear_recovery uid header now db =
    clear_recovery_wrapped_umk lib uid header now db
write_key lib (KeyWrite.revoke device) uid header now db = revoke_device lib device uid header db
write_key lib (KeyWrite.wrap device wrapped) uid header now db =
    store_wrapped_umk lib device uid wrapped header db

-- What a write has checked, and what it leaves of the profile.
pub record IsWritten (lib : Proofs) (w : KeyWrite) (uid : ℕ) (header : Option ℕ) (db db' : Db)
    : Type 0 where
  pub old : Profile
  pub new : Profile
  pub found : find_profile uid db ≡ some old
  pub id : new.id ≡ uid
  pub identity : new.identity_pubkey ≡ old.identity_pubkey
  pub saved : db'.profiles ≡ (save_profile new db).profiles
  pub permitted :
      (is_reset w ≡ true)
      ⊎ ((p : Profile) × (enforce_umk_proof lib old header ≡ ok p)
          × (new.umk_proof_hash ≡ p.umk_proof_hash))

profile_or_404-returned :
    (uid : ℕ) (db : Db) (p : Profile)
    → profile_or_404 uid db ≡ ok p
    → (find_profile uid db ≡ some p) × (p.id ≡ uid)
unfolding profile_or_404
profile_or_404-returned uid db p h = elim (Option-cases (find_profile uid db)) [
  | inl e ↦ cc (rw e at h)
  | inr (q, e) ↦
      let same : q ≡ p = ok-injective (rw e at h) in
      let f = e ∙ ap some same in
      (f, ground (arith, (first_where-In (has_profile_id uid) db.profiles p f).1))
]

-- Enforcing a proof changes nothing but the stored hash.
enforce_umk_proof-returned :
    (lib : Proofs) (p q : Profile) (header : Option ℕ)
    → enforce_umk_proof lib p header ≡ ok q
    → (q.id ≡ p.id) × (q.identity_pubkey ≡ p.identity_pubkey)
unfolding enforce_umk_proof
enforce_umk_proof-returned lib p q header h =
    let (presented, e, k) = >>=-returned (hash_umk_proof lib header) _ h in
    let (allowed, k1) = guard-cases _ _ _ _ k in
    (
      ap (λ (x : Profile). x.id) (sym (ok-injective k1)),
      ap (λ (x : Profile). x.identity_pubkey) (sym (ok-injective k1)),
    )

reset_profile-returned :
    (lib : Proofs) (p q : Profile) (header : Option ℕ)
    → reset_profile lib p header ≡ ok q
    → (q.id ≡ p.id) × (q.identity_pubkey ≡ p.identity_pubkey)
unfolding reset_profile
reset_profile-returned lib p q header h =
    let (presented, e, k) = >>=-returned (hash_umk_proof lib header) _ h in
    let (allowed, k1) = guard-cases _ _ _ _ k in
    (
      ap (λ (x : Profile). x.id) (sym (ok-injective k1)),
      ap (λ (x : Profile). x.identity_pubkey) (sym (ok-injective k1)),
    )

module _ (lib : Proofs) (uid : ℕ) (header : Option ℕ) (db db' : Db) where
  -- A write that enforced the proof on the old row, and saves the row that this gave, with other
  -- columns changed.
  enforced-IsWritten :
      (w : KeyWrite) (p q new : Profile)
      → profile_or_404 uid db ≡ ok p
      → enforce_umk_proof lib p header ≡ ok q
      → new.id ≡ q.id
      → new.identity_pubkey ≡ q.identity_pubkey
      → new.umk_proof_hash ≡ q.umk_proof_hash
      → db'.profiles ≡ (save_profile new db).profiles
      → IsWritten lib w uid header db db'
  enforced-IsWritten w p q new e0 e1 a b c saved =
      let (found, own) = profile_or_404-returned uid db p e0 in
      let (same, key) = enforce_umk_proof-returned lib p q header e1 in
      record {
        old = p;
        new = new;
        found = found;
        id = a ∙ same ∙ own;
        identity = b ∙ key;
        saved = saved;
        permitted = inr (q, e1, c);
      }

  set_umk-IsWritten :
      (wrapped : ℕ) (reset recovery : Bool) (now : ℕ)
      → set_wrapped_umk lib uid wrapped header reset recovery now db ≡ ok db'
      → IsWritten lib (KeyWrite.set_umk wrapped reset recovery) uid header db db'
  unfolding set_wrapped_umk
  set_umk-IsWritten wrapped reset recovery now h =
      let (p, e0, k) = >>=-returned (profile_or_404 uid db) _ h in
      let (q, e1, k1) =
        >>=-returned
          (if reset && recovery then reset_profile lib p header else enforce_umk_proof lib p header)
          _ k in
      judged (reset && recovery) p q refl e0 e1
        (ap (λ (d : Db). d.profiles) (sym (ok-injective k1)))
    where
      judged :
          (b : Bool) (p q : Profile)
          → (reset && recovery) ≡ b
          → profile_or_404 uid db ≡ ok p
          → (if b then reset_profile lib p header else enforce_umk_proof lib p header) ≡ ok q
          → db'.profiles
            ≡ (save_profile
                (record q { pw_wrapped_umk = some wrapped; updated_at = now })
                db).profiles
          → IsWritten lib (KeyWrite.set_umk wrapped reset recovery) uid header db db'
      judged true p q r e0 e1 saved =
          let (found, own) = profile_or_404-returned uid db p e0 in
          let (same, key) = reset_profile-returned lib p q header e1 in
          record {
            old = p;
            new = record q { pw_wrapped_umk = some wrapped; updated_at = now };
            found = found;
            id = same ∙ own;
            identity = key;
            saved = saved;
            permitted = inl r;
          }
      judged false p q r e0 e1 saved =
          enforced-IsWritten (KeyWrite.set_umk wrapped reset recovery) p q
            (record q { pw_wrapped_umk = some wrapped; updated_at = now }) e0 e1 refl refl refl
            saved

  recovery-IsWritten :
      (w : KeyWrite) (wrapped : Option ℕ) (now : ℕ)
      → put_recovery_wrapped_umk lib uid wrapped header now db ≡ ok db'
      → IsWritten lib w uid header db db'
  unfolding put_recovery_wrapped_umk
  recovery-IsWritten w wrapped now h =
      let (p, e0, k) = >>=-returned (profile_or_404 uid db) _ h in
      let (q, e1, k1) = >>=-returned (enforce_umk_proof lib p header) _ k in
      enforced-IsWritten w p q (record q { recovery_wrapped_umk = wrapped; updated_at = now }) e0 e1
        refl refl refl (ap (λ (d : Db). d.profiles) (sym (ok-injective k1)))

  revoke-IsWritten :
      (device : ℕ)
      → revoke_device lib device uid header db ≡ ok db'
      → IsWritten lib (KeyWrite.revoke device) uid header db db'
  unfolding revoke_device
  revoke-IsWritten device h =
      let (d, e, k) = or_err-cases (find_device device db) _ _ _ h in
      let (own, k0) = guard-cases _ _ _ _ k in
      let (p, e0, k1) = >>=-returned (profile_or_404 uid db) _ k0 in
      let (q, e1, k2) = >>=-returned (enforce_umk_proof lib p header) _ k1 in
      enforced-IsWritten (KeyWrite.revoke device) p q q e0 e1 refl refl refl
        (ap (λ (d : Db). d.profiles) (sym (ok-injective k2)))

  wrap-IsWritten :
      (device wrapped : ℕ)
      → store_wrapped_umk lib device uid wrapped header db ≡ ok db'
      → IsWritten lib (KeyWrite.wrap device wrapped) uid header db db'
  unfolding store_wrapped_umk
  wrap-IsWritten device wrapped h =
      let (d, e, k) = or_err-cases (find_device device db) _ _ _ h in
      let (own, k0) = guard-cases (d.user_id == uid) 403 "Not your device" _ k in
      let (live, k') = guard-cases (not d.revoked) 409 "device_revoked" _ k0 in
      let (p, e0, k1) = >>=-returned (profile_or_404 uid db) _ k' in
      let (q, e1, k2) = >>=-returned (enforce_umk_proof lib p header) _ k1 in
      enforced-IsWritten (KeyWrite.wrap device wrapped) p q q e0 e1 refl refl refl
        (ap (λ (d : Db). d.profiles) (sym (ok-injective k2)))

  pub write_key-IsWritten :
      (w : KeyWrite) (now : ℕ)
      → write_key lib w uid header now db ≡ ok db'
      → IsWritten lib w uid header db db'
  unfolding write_key set_recovery_wrapped_umk clear_recovery_wrapped_umk
  write_key-IsWritten (KeyWrite.set_umk wrapped reset recovery) now h =
      set_umk-IsWritten wrapped reset recovery now h
  write_key-IsWritten (KeyWrite.set_recovery wrapped) now h =
      recovery-IsWritten (KeyWrite.set_recovery wrapped) (some wrapped) now h
  write_key-IsWritten KeyWrite.clear_recovery now h =
      recovery-IsWritten KeyWrite.clear_recovery none now h
  write_key-IsWritten (KeyWrite.revoke device) now h = revoke-IsWritten device h
  write_key-IsWritten (KeyWrite.wrap device wrapped) now h = wrap-IsWritten device wrapped h
