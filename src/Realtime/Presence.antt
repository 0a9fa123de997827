-- ===== src/Realtime/Presence.antt =====
-- Device presence of src/realtime.py: the sets of devices and the keys with a TTL that Redis holds.
-- A Redis that cannot be reached raises a RedisError at each call, which is `none`.
use rover_tools_orange_copy.Prelude.{
  ==_iff, ◌∙◌, ap, ◌||◌, ◌⊎◌, ℕ, Bool, true, false, Option, none, some, List, [], ◌∷◌, ◌++◌, ◌==◌,
  ◌&&◌, not, if◌then◌else◌, elem, map, any_where, rows_where, delete_where, eq_option, ◌≡◌, refl,
  arith, Bool-cases, inl, inr,
}
use mathlib.Core.Option
use rover_tools_orange_copy.Realtime.{put}

-- `user:{id}:devices` and `presence:{user}:{device}`; a key that has expired is not live.
pub record Redis : Type 0 where
  pub reachable : Bool
  pub devices : ℕ → List ℕ
  pub live : ℕ → ℕ → Bool

-- `_assert_presence`: both keys, whatever was there.
unfoldable pub assert_presence : ℕ → ℕ → Redis → Option Redis
assert_presence uid device redis =
    if redis.reachable
    then some (record redis {
      devices =
          put uid
            (if elem device (redis.devices uid)
              then redis.devices uid
              else device ∷ redis.devices uid)
            redis.devices;
      live = put uid (put device true (redis.live uid)) redis.live;
    })
    else none

-- `user_is_online`
unfoldable pub user_is_online : Redis → ℕ → Option ℕ → Option Bool
user_is_online redis uid exclude =
    if redis.reachable
    then some (
        any_where (λ (d : ℕ). not (eq_option (some d) exclude) && redis.live uid d)
          (redis.devices uid))
    else none

-- `list(dict.fromkeys(user_ids))`
unfoldable pub from_keys : List ℕ → List ℕ
from_keys [] = []
from_keys (u ∷ us) = u ∷ delete_where (λ v. v == u) (from_keys us)

-- The devices of each user, with the user.
unfoldable pub owned : Redis → List ℕ → List (ℕ × ℕ)
owned redis [] = []
owned redis (u ∷ us) = map (λ d. (u, d)) (redis.devices u) ++ owned redis us

-- `presence_for_users`: nobody, if Redis cannot be reached.
unfoldable pub presence_for_users : Redis → List ℕ → List ℕ
unfolding owned from_keys
presence_for_users redis ids =
    if redis.reachable
    then map (λ (o : ℕ × ℕ). o.0)
        (rows_where (λ (o : ℕ × ℕ). redis.live o.0 o.1) (owned redis (from_keys ids)))
    else []

elem-delete_where :
    (u v : ℕ) (us : List ℕ) → elem u (delete_where (λ w. w == v) us) ≡ (elem u us && not (v == u))
elem-delete_where u v [] = refl
elem-delete_where u v (w ∷ us) = ground (arith, elem-delete_where u v us)

elem-from_keys : (u : ℕ) (us : List ℕ) → elem u (from_keys us) ≡ elem u us
unfolding from_keys
elem-from_keys u [] = refl
elem-from_keys u (v ∷ us) =
    ground (arith, elem-delete_where u v (from_keys us), elem-from_keys u us)

abbrev online : Redis → ℕ → Bool
online redis u = any_where (λ (d : ℕ). redis.live u d) (redis.devices u)

-- The users who own a live device among these.
abbrev owners : Redis → List (ℕ × ℕ) → List ℕ
owners redis os = map (λ (o : ℕ × ℕ). o.0) (rows_where (λ (o : ℕ × ℕ). redis.live o.0 o.1) os)

elem-owners_append :
    (redis : Redis) (uid : ℕ) (xs ys : List (ℕ × ℕ))
    → elem uid (owners redis (xs ++ ys))
      ≡ (elem uid (owners redis xs) || elem uid (owners redis ys))
elem-owners_append redis uid [] ys = refl
elem-owners_append redis uid (x ∷ xs) ys = ground (arith, elem-owners_append redis uid xs ys)

elem-owners_one :
    (redis : Redis) (uid u : ℕ) (ds : List ℕ)
    → elem uid (owners redis (map (λ d. (u, d)) ds))
      ≡ (u == uid && any_where (λ (d : ℕ). redis.live u d) ds)
elem-owners_one redis uid u [] = ground arith
elem-owners_one redis uid u (d ∷ ds) = ground (arith, elem-owners_one redis uid u ds)

elem-owners :
    (redis : Redis) (uid : ℕ) (us : List ℕ)
    → elem uid (owners redis (owned redis us)) ≡ (elem uid us && online redis uid)
unfolding owned
elem-owners redis uid [] = refl
elem-owners redis uid (u ∷ us) =
    elem-owners_append redis uid (map (λ d. (u, d)) (redis.devices u)) (owned redis us)
    ∙ ground (
      arith,
      elem-owners_one redis uid u (redis.devices u),
      elem-owners redis uid us,
      same (Bool-cases (u == uid)),
    )
  where
    same :
        ((u == uid) ≡ true) ⊎ ((u == uid) ≡ false)
        → (u == uid && online redis u) ≡ (u == uid && online redis uid)
    same (inl e) = rw e (ap (online redis) ((==_iff u uid).0 e))
    same (inr e) = rw e refl

-- While Redis can be reached, a user is among those that `presence_for_users` finds exactly if it was
-- asked for and `user_is_online` says that it is.
pub presence_for_users-user_is_online :
    (redis : Redis) (ids : List ℕ) (uid : ℕ)
    → redis.reachable ≡ true
    → some (elem uid (presence_for_users redis ids))
      ≡ Option.map (λ b. elem uid ids && b) (user_is_online redis uid none)
unfolding presence_for_users user_is_online
presence_for_users-user_is_online redis ids uid h = rw h (
    ap some (
      elem-owners redis uid (from_keys ids)
      ∙ ap (λ b. b && online redis uid) (elem-from_keys uid ids)))
