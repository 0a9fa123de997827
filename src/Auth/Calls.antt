-- ===== src/Auth/Calls.antt =====
-- The proof of the master key that a write of key material carries.
use rover_tools_orange_copy.Spaces.Keys.{given}
use mathlib.Core.Option
use mathlib.Core.Option.{some-injective}
use rover_tools_orange_copy.Blobs.{has_profile_id}
use rover_tools_orange_copy.Store.Accounts.{Profile}
use rover_tools_orange_copy.Prelude.{
  ==_iff, eq_option, is_some, first_where-update_first, ◌||◌, is_none, subst, first_where,
  if◌then◌else◌, none, arith, sym, ap, guard-cases, ◌∙◌, ok-injective, ◌⊎◌, >>=-returned, ◌≡◌,
  Option, ◌&&◌, Bool, ℕ, some, ok, true, false, inl, inr,
}
use rover_tools_orange_copy.Store.{Db}
use rover_tools_orange_copy.Auth.{
  decoded_proof, hash_umk_proof, save_profile, find_profile, Proofs, enforce_umk_proof,
}
use rover_tools_orange_copy.Auth.KeyWrites.{KeyWrite, is_reset, write_key, write_key-IsWritten}

hash_umk_proof-decodes :
    (lib : Proofs) (header : Option ℕ) (hash : ℕ)
    → hash_umk_proof lib header ≡ ok (some hash)
    → Option.bind header lib.digest ≡ some hash
unfolding hash_umk_proof
hash_umk_proof-decodes lib header hash h = decoded (given header) (Option.bind header lib.digest) h
  where
    decoded :
        (b : Bool) (digest : Option ℕ)
        → (if b then decoded_proof digest else ok none) ≡ ok (some hash)
        → digest ≡ some hash
    decoded true none h = cc
    decoded true (some x) h = ok-injective h
    decoded false digest h = cc

-- A stored proof is kept by the calls that enforce it, which the header has to decode to.
enforce_umk_proof-stored :
    (lib : Proofs) (p q : Profile) (header : Option ℕ) (hash : ℕ)
    → enforce_umk_proof lib p header ≡ ok q
    → p.umk_proof_hash ≡ some hash
    → (Option.bind header lib.digest ≡ some hash) × (q.umk_proof_hash ≡ some hash)
unfolding enforce_umk_proof
enforce_umk_proof-stored lib p q header hash h s =
    let (presented, e, k) = >>=-returned (hash_umk_proof lib header) _ h in
    let (allowed, k1) =
      guard-cases
        (is_none p.umk_proof_hash || is_some presented && eq_option presented p.umk_proof_hash) 403
        "umk_proof_required" _ k in
    (
      matched presented p.umk_proof_hash s e allowed,
      ap (λ (x : Profile). x.umk_proof_hash) (sym (ok-injective k1))
          ∙ kept p.umk_proof_hash presented s,
    )
  where
    matched :
        (presented stored : Option ℕ)
        → stored ≡ some hash
        → hash_umk_proof lib header ≡ ok presented
        → (is_none stored || is_some presented && eq_option presented stored) ≡ true
        → Option.bind header lib.digest ≡ some hash
    matched none stored s e a = cc (rw s at a)
    matched (some x) stored s e a =
        hash_umk_proof-decodes lib header x e ∙ ap some ((==_iff x hash).0 (rw s at a))

    kept :
        (stored presented : Option ℕ)
        → stored ≡ some hash
        → (if is_none stored then presented else stored) ≡ some hash
    kept none presented s = cc
    kept (some x) presented s = s

-- The row that a save puts in place.
pub find-save_profile :
    (uid : ℕ) (old new : Profile) (db : Db)
    → find_profile uid db ≡ some old
    → new.id ≡ uid
    → first_where (has_profile_id uid) (save_profile new db).profiles ≡ some new
find-save_profile uid old new db f own =
    subst (λ i. first_where (has_profile_id i) (save_profile new db).profiles ≡ some new) own
      (first_where-update_first (has_profile_id new.id) (λ x. new) db.profiles old
        (subst (λ i. find_profile i db ≡ some old) (sym own) f) (ground arith))

-- If a proof is stored for an account, then a write of its key material that returns carried a
-- header that decodes to this proof, and leaves it stored, or is a reset from a recovery session.
pub write_key_proven :
    (lib : Proofs) (w : KeyWrite) (uid : ℕ) (header : Option ℕ) (now : ℕ) (db db' : Db)
    (p : Profile) (hash : ℕ)
    → write_key lib w uid header now db ≡ ok db'
    → find_profile uid db ≡ some p
    → p.umk_proof_hash ≡ some hash
    → (is_reset w ≡ true)
      ⊎ ((Option.bind header lib.digest ≡ some hash)
          × (Option.map (λ (x : Profile). x.umk_proof_hash) (find_profile uid db')
              ≡ some (some hash)))
write_key_proven lib w uid header now db db' p hash h f s =
    let written = write_key-IsWritten lib uid header db db' w now h in
    elim written.permitted [
      | inl r ↦ inl r
      | inr (q, e, same) ↦
          let stored : written.old.umk_proof_hash ≡ some hash =
            ap (λ (x : Profile). x.umk_proof_hash) (some-injective _ _ (sym written.found ∙ f))
            ∙ s in
          let (decoded, kept) = enforce_umk_proof-stored lib written.old q header hash e stored in
          inr (
            decoded,
            ap
                  (λ rows.
                    Option.map (λ (x : Profile). x.umk_proof_hash)
                      (first_where (has_profile_id uid) rows))
                  written.saved
                ∙ ap (Option.map (λ (x : Profile). x.umk_proof_hash))
                    (find-save_profile uid written.old written.new db written.found written.id)
                ∙ ap some (same ∙ kept),
          )
    ]
