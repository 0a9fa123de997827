-- ===== src/Dependencies/Revocation.antt =====
-- A device that was revoked is refused from then on, by its row and by the cache.
use rover_tools_orange_copy.Store.Accounts.{Device}
use rover_tools_orange_copy.Prelude.{
  ==_iff, first_where-update_first, first_where-In, guard-cases, ok-injective, >>=-returned,
  Reply-cases, or_err-cases, ℕ, Bool, true, false, Option, none, some, ok, err, ◌==◌, ◌&&◌,
  if◌then◌else◌, ◌≡◌, ◌⊎◌, inl, inr, refl, arith, Bool-cases, ◌∙◌, ap, sym, subst, Reply,
}
use rover_tools_orange_copy.Store.{Db}
use rover_tools_orange_copy.Auth.{
  enforce_umk_proof, profile_or_404, Proofs, find_device, has_device_id, revoke_device, revoked_row,
}
use rover_tools_orange_copy.Auth.Keys.{Step, Steps}
use rover_tools_orange_copy.Auth.Devices.{found_cut, IsCutOff, Steps-IsCutOff}
use rover_tools_orange_copy.Dependencies.{
  Cache, set_key, forget_device, judge_device, check_device, revoke_route,
}

-- What may happen after: a call on accounts and devices, a check of any device, which is one step
-- here, a key that expires.
pub data GateStep (lib : Proofs) : Db × Cache → Db × Cache → Type 0 where
  called : (a b : Db) (cache : Cache) → Step lib a b → GateStep lib (a, cache) (b, cache)
  checked :
      (reads writes : Bool) (uid device : ℕ) (db : Db) (cache : Cache)
      → GateStep lib (db, cache) (db, (check_device reads writes uid device db cache).1)
  expired :
      (uid device : ℕ) (db : Db) (cache : Cache)
      → GateStep lib (db, cache) (db, set_key uid device false cache)

pub data GateSteps (lib : Proofs) : Db × Cache → Db × Cache → Type 0 where
  done : (s : Db × Cache) → GateSteps lib s s
  step : (a b c : Db × Cache) → GateStep lib a b → GateSteps lib b c → GateSteps lib a c

-- The device is cut off and the cache does not say otherwise.
abbrev IsShut : ℕ → ℕ → Db × Cache → Type 0
IsShut uid device s = IsCutOff device s.0.devices × (s.1 uid device ≡ false)

-- The check refuses.
abbrev pub IsRefused : Reply (Unit {0}) → Type 0
IsRefused r = (r ≡ err 401 "device_revoked") ⊎ (r ≡ err 403 "device_unknown")

revoked-IsCutOff :
    (lib : Proofs) (device uid : ℕ) (header : Option ℕ) (a b : Db)
    → revoke_device lib device uid header a ≡ ok b
    → IsCutOff device b.devices
unfolding revoke_device
revoked-IsCutOff lib device uid header a b h =
    let (d, e, k) = or_err-cases (find_device device a) _ _ _ h in
    let (own, k1) = guard-cases (d.user_id == uid) 403 "Not your device" _ k in
    let (p, e1, k2) = >>=-returned (profile_or_404 uid a) _ k1 in
    let (q, e2, k3) = >>=-returned (enforce_umk_proof lib p header) _ k2 in
    let (i, named) = first_where-In (has_device_id device) a.devices d e in
    subst (λ (x : Db). IsCutOff device x.devices) (ok-injective k3)
      (ap found_cut
        (first_where-update_first (has_device_id device) revoked_row a.devices d e named))

revoke_route-IsShut :
    (lib : Proofs) (device uid : ℕ) (header : Option ℕ) (db : Db) (cache : Cache) (s : Db × Cache)
    → revoke_route lib true device uid header db cache ≡ ok s
    → IsShut uid device s
unfolding revoke_route forget_device
revoke_route-IsShut lib device uid header db cache s h =
    let (after, e, k) = >>=-returned (revoke_device lib device uid header db) _ h in
    subst (IsShut uid device) (ok-injective k)
      (revoked-IsCutOff lib device uid header db after e, ground arith)

judge-cut :
    (uid : ℕ) (o : Option Device)
    → found_cut o ≡ true
    → (judge_device uid o ≡ err 401 "device_revoked")
      ⊎ (judge_device uid o ≡ err 403 "device_unknown")
unfolding judge_device
judge-cut uid none h = cc
judge-cut uid (some d) h = elim (Bool-cases (d.user_id == uid)) [
  | inl own ↦ inl (ground (arith, h, own))
  | inr other ↦ inr (ground (arith, other))
]

check-IsRefused :
    (reads writes : Bool) (uid device : ℕ) (db : Db) (cache : Cache)
    → IsShut uid device (db, cache)
    → IsRefused (check_device reads writes uid device db cache).0
unfolding check_device judge_device
check-IsRefused reads writes uid device db cache (cut, closed) =
    elim (judge-cut uid (find_device device db) cut) [
      | inl e ↦ inl (rw (closed_read, e) refl)
      | inr e ↦ inr (rw (closed_read, e) refl)
    ]
  where
    closed_read : (reads && cache uid device) ≡ false
    closed_read = ground (arith, closed)

checked-closed :
    (reads writes : Bool) (uid device u d : ℕ) (db : Db) (cache : Cache)
    → IsCutOff device db.devices
    → cache uid device ≡ false
    → (check_device reads writes u d db cache).1 uid device ≡ false
unfolding check_device
checked-closed reads writes uid device u d db cache cut closed =
    elim (Bool-cases (reads && cache u d)) [
      | inl hit ↦ rw (check_device, hit) closed
      | inr miss ↦ elim (Reply-cases (judge_device u (find_device d db))) [
        | inl (status, detail, e) ↦ rw (check_device, miss, e) closed
        | inr (row, e) ↦
            rw (check_device, miss, e) (written writes (Bool-cases (device == d)) row e)
      ]
    ]
  where
    refused : device ≡ d → (row : Device) → judge_device u (find_device d db) ≡ ok row → ⊥
    refused same row e =
        let e' : judge_device u (find_device device db) ≡ ok row =
          subst (λ i. judge_device u (find_device i db) ≡ ok row) (sym same) e in
        elim (judge-cut u (find_device device db) cut) [ inl gone ↦ cc | inr gone ↦ cc ]

    written :
        (takes : Bool)
        → ((device == d) ≡ true) ⊎ ((device == d) ≡ false)
        → (row : Device) → judge_device u (find_device d db) ≡ ok row
        → (if takes then set_key u d true cache else cache) uid device ≡ false
    written false split row e = closed
    written true (inl same) row e = elim (refused ((==_iff device d).0 same) row e) [ ]
    written true (inr other) row e = elim (Bool-cases (uid == u)) [
      | inl here ↦
          rw (here, other) (ap (λ i. cache i device) (sym ((==_iff uid u).0 here)) ∙ closed)
      | inr there ↦ rw there closed
    ]

GateStep-IsShut :
    (lib : Proofs) (uid device : ℕ) (a b : Db × Cache)
    → GateStep lib a b
    → IsShut uid device a
    → IsShut uid device b
GateStep-IsShut lib uid device _ _ (GateStep.called a b cache s) (cut, closed) =
    (Steps-IsCutOff lib device a b (Steps.step a b b s (Steps.done b)) cut, closed)
GateStep-IsShut lib uid device _ _ (GateStep.checked reads writes u d db cache) (cut, closed) =
    (cut, checked-closed reads writes uid device u d db cache cut closed)
GateStep-IsShut lib uid device _ _ (GateStep.expired u d db cache) (cut, closed) =
    (cut, ground (arith, closed))

GateSteps-IsShut :
    (lib : Proofs) (uid device : ℕ) (a b : Db × Cache)
    → GateSteps lib a b
    → IsShut uid device a
    → IsShut uid device b
GateSteps-IsShut lib uid device a b (GateSteps.done _) h = h
GateSteps-IsShut lib uid device a b (GateSteps.step _ c _ first rest) h =
    GateSteps-IsShut lib uid device c b rest (GateStep-IsShut lib uid device a c first h)

-- If an account revokes a device and Redis takes the deletion of the cached answer, then a check of
-- the device for the account is refused with 401 or 403, whatever calls on accounts and devices,
-- checks and expiries of cached answers follow, each as a whole, and whether Redis answers or not.
pub revoke_route-IsRefused :
    (lib : Proofs) (device uid : ℕ) (header : Option ℕ) (db : Db) (cache : Cache) (s t : Db × Cache)
    (reads writes : Bool)
    → revoke_route lib true device uid header db cache ≡ ok s
    → GateSteps lib s t
    → IsRefused (check_device reads writes uid device t.0 t.1).0
revoke_route-IsRefused lib device uid header db cache s t reads writes h steps =
    check-IsRefused reads writes uid device t.0 t.1 (
      GateSteps-IsShut lib uid device s t steps
        (revoke_route-IsShut lib device uid header db cache s h))
