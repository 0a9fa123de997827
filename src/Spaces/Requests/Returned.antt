-- ===== src/Spaces/Requests/Returned.antt =====
-- What a decision on a join request has checked when it returns.
use rover_tools_orange_copy.Spaces.Members.{has_id, may_approve, find_space}
use rover_tools_orange_copy.Spaces.Requests.{
  admit, refuse, is_open, is_request_id, role_of, approve, decline, pending_row, require_approver,
}
use rover_tools_orange_copy.Prelude.{
  ◌∙◌, ap, arith, first_where-In, subst, true, first_where, ok, Option, ◌≡◌, ℕ, some, ok-injective,
  >>=-returned, guard-cases, or_err-cases,
}
use rover_tools_orange_copy.Store.{Env, SpaceJoinRequest, Space, Db}

pending_row-returned :
    (space request : ℕ) (db : Db) (r : SpaceJoinRequest)
    → pending_row space request db ≡ ok r
    → (first_where (is_request_id space request) db.join_requests ≡ some r)
      × (is_open r.status ≡ true)
unfolding pending_row
pending_row-returned space request db r h =
    let (x, e, k) =
      or_err-cases (first_where (is_request_id space request) db.join_requests) _ _ _ h in
    let (open_, k1) = guard-cases _ _ _ _ k in
    subst
      (λ z.
        (first_where (is_request_id space request) db.join_requests ≡ some z)
        × (is_open z.status ≡ true))
      (ok-injective k1) (e, open_)

require_approver-returned :
    (space uid : ℕ) (db : Db) (s : Space)
    → require_approver space uid db ≡ ok s
    → (find_space space db ≡ some s) × (may_approve s (role_of space uid db) ≡ true)
unfolding require_approver
require_approver-returned space uid db s h =
    let (x, e, k) = or_err-cases (find_space space db) _ _ _ h in
    let (allowed, k1) = guard-cases _ _ _ _ k in
    subst (λ z. (find_space space db ≡ some z) × (may_approve z (role_of space uid db) ≡ true))
      (ok-injective k1) (e, allowed)

-- What was found before a decision on the row: the space, which the caller may approve for, and
-- the row, which is open.
abbrev pub Checked : ℕ → ℕ → Db → Space → SpaceJoinRequest → Type 0
Checked place uid db s r =
    (s.id ≡ r.space_id)
    × (r.space_id ≡ place)
    × (find_space place db ≡ some s)
    × (may_approve s (role_of place uid db) ≡ true)

checked :
    (place request uid : ℕ) (db : Db) (s : Space) (r : SpaceJoinRequest)
    → require_approver place uid db ≡ ok s
    → pending_row place request db ≡ ok r
    → Checked place uid db s r
      × (first_where (is_request_id r.space_id r.id) db.join_requests ≡ some r)
      × (is_open r.status ≡ true)
checked place request uid db s r e0 e1 =
    let (here, allowed) = require_approver-returned place uid db s e0 in
    let (found, open_) = pending_row-returned place request db r e1 in
    let own = (first_where-In (is_request_id place request) db.join_requests r found).1 in
    let key = (first_where-In (has_id place) db.spaces s here).1 in
    let at : r.space_id ≡ place = ground (arith, own) in
    let id : r.id ≡ request = ground (arith, own) in
    (
      (ground (arith, key, at), at, here, allowed),
      ap (λ sp. first_where (is_request_id sp r.id) db.join_requests) at
          ∙ ap (λ i. first_where (is_request_id place i) db.join_requests) id
          ∙ found,
      open_,
    )

pub approve-returned :
    (place request uid : ℕ) (wrapped : Option ℕ) (env : Env) (db db' : Db)
    → approve place request uid wrapped env db ≡ ok db'
    → (s : Space) × (r : SpaceJoinRequest) × Checked place uid db s r
      × (first_where (is_request_id r.space_id r.id) db.join_requests ≡ some r)
      × (is_open r.status ≡ true)
      × (admit s r uid wrapped env.now db ≡ db')
unfolding approve
approve-returned place request uid wrapped env db db' h =
    let (s, e0, k) = >>=-returned (require_approver place uid db) _ h in
    let (r, e1, k1) = >>=-returned (pending_row place request db) _ k in
    let (a, b, c) = checked place request uid db s r e0 e1 in (s, r, a, b, c, ok-injective k1)

pub decline-returned :
    (place request uid : ℕ) (env : Env) (db db' : Db)
    → decline place request uid env db ≡ ok db'
    → (s : Space) × (r : SpaceJoinRequest) × Checked place uid db s r
      × (first_where (is_request_id r.space_id r.id) db.join_requests ≡ some r)
      × (is_open r.status ≡ true)
      × (refuse r uid env.now db ≡ db')
unfolding decline
decline-returned place request uid env db db' h =
    let (s, e0, k) = >>=-returned (require_approver place uid db) _ h in
    let (r, e1, k1) = >>=-returned (pending_row place request db) _ k in
    let (a, b, c) = checked place request uid db s r e0 e1 in (s, r, a, b, c, ok-injective k1)
