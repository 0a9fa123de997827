-- ===== src/Dependencies.antt =====
-- The device check of src/dependencies.py, with its cache in Redis, and the revocation of a device
-- as the route of src/auth/router.py composes it.
pub mod Revocation
pub mod Tests
use rover_tools_orange_copy.Prelude.{
  ℕ, Bool, true, false, Option, none, some, ◌==◌, ◌&&◌, if◌then◌else◌, Reply, ok, err, ◌≡◌, not,
  ◌>>=◌, ◌>>◌,
}
use rover_tools_orange_copy.Store.{Db}
use rover_tools_orange_copy.Store.Accounts.{Device}
use rover_tools_orange_copy.Auth.{Proofs, find_device, revoke_device}
use rover_tools_orange_copy.Realtime.{put}

-- The keys `dev:{user}:{device}` that have not expired.
abbrev pub Cache : Type 0
Cache = ℕ → ℕ → Bool

abbrev pub set_key : ℕ → ℕ → Bool → Cache → Cache
set_key uid device value cache = put uid (put device value (cache uid)) cache

-- `forget_device`: nothing if Redis does not take the deletion.
unfoldable pub forget_device : Bool → ℕ → ℕ → Cache → Cache
forget_device takes uid device cache = if takes then set_key uid device false cache else cache

-- `parse_device_id`: a header that is absent, that is no UUID, or that is one.
unfoldable pub parse_device_id : Option (Option ℕ) → Reply ℕ
parse_device_id none = err 400 "Missing X-Device-Id header"
parse_device_id (some none) = err 400 "Invalid X-Device-Id header"
parse_device_id (some (some device)) = ok device

-- What the row of the device says to the caller.
unfoldable pub judge_device : ℕ → Option Device → Reply Device
judge_device uid none = err 403 "device_unknown"
judge_device uid (some d) =
    if not (d.user_id == uid)
    then err 403 "device_unknown"
    else if d.revoked
    then err 401 "device_revoked"
    else ok d

-- `check_device`, where Redis answers the read and takes the write, or does not.
unfoldable pub check_device : Bool → Bool → ℕ → ℕ → Db → Cache → Reply (Unit {0}) × Cache
unfolding judge_device
check_device reads writes uid device db cache =
    if reads && cache uid device
    then (ok tt, cache)
    else elim (judge_device uid (find_device device db)) [
      | err status detail ↦ (err status detail, cache)
      | ok d ↦ (ok tt, if writes then set_key uid device true cache else cache)
    ]

-- The route that revokes a device, up to the event that it publishes.
unfoldable pub revoke_route : Proofs → Bool → ℕ → ℕ → Option ℕ → Db → Cache → Reply (Db × Cache)
unfolding revoke_device forget_device
revoke_route lib takes device uid header db cache = do
  after ← revoke_device lib device uid header db
  ok (after, forget_device takes uid device cache)
