-- ===== src/Spaces/Requests/Unique.antt =====
-- The unique index of the join requests is never hit.
use rover_tools_orange_copy.Spaces.Requests.Returned.{decline-returned, approve-returned}
use rover_tools_orange_copy.Spaces.Requests.Declined.{Step, Steps}
use rover_tools_orange_copy.Prelude.{
  false, true, Option-cases, inr, first_where-none, true, ◌∙◌, ap, is_some, inl, ok-injective,
  guard-cases, refl, ◌&&◌, [], ◌==◌, Bool-cases, arith, or_err-cases, if◌then◌else◌, ◌∷◌, ok,
  update_first, first_where, subst, ◌≡◌, ◌≤◌, List, Bool, count_where, ℕ, none,
}
use rover_tools_orange_copy.Store.{RequestStatus, Env, Text, Db}
use rover_tools_orange_copy.Spaces.Requests.{
  reopened, role_of, declined_row, has_code, approved_row, is_request_id, new_request, JoinStatus,
  is_request, knock_again, knock, request_join,
}

count-update_keeps :
    {A : Type 0} (p q : A → Bool) (f : A → A) (xs : List A)
    → ((x : A) → q (f x) ≡ q x)
    → count_where q (update_first p f xs) ≡ count_where q xs
count-update_keeps p q f [] h = refl
count-update_keeps p q f (x ∷ xs) h = ground (arith, h x, count-update_keeps p q f xs h)

-- At most one row for the account in the space.
abbrev pub IsSingle : ℕ → ℕ → Db → Type 0
IsSingle space who db = count_where (is_request space who) db.join_requests ≤ 1

module _ (space who : ℕ) where
  knock-IsSingle :
      (uid place : ℕ) (env : Env) (db : Db)
      → IsSingle space who db
      → IsSingle space who (knock place uid env db).1
  unfolding knock knock_again
  knock-IsSingle uid place env db one =
      elim (Option-cases (first_where (is_request place uid) db.join_requests)) [
        | inl e ↦ rw (knock, e) (added e)
        | inr (r, e) ↦ rw (knock, e) (again r.status)
      ]
    where
      added :
          first_where (is_request place uid) db.join_requests ≡ none
          → count_where
              (is_request space who)
              (new_request env.new_id place uid env.now ∷ db.join_requests)
            ≤ 1
      added e = elim (Bool-cases (place == space && uid == who)) [
        | inl same ↦
            let none_yet : count_where (is_request space who) db.join_requests ≡ 0 =
              ap (λ p. count_where (is_request p who) db.join_requests) (ground (arith, same))
              ∙ ap (λ u. count_where (is_request place u) db.join_requests) (ground (arith, same))
              ∙ first_where-none (is_request place uid) db.join_requests e in
            ground (arith, none_yet)
        | inr other ↦ rw other (ground (arith, one))
      ]

      again : (t : RequestStatus) → IsSingle space who (knock_again t place uid env.now db).1
      again RequestStatus.pending = one
      again RequestStatus.declined = one
      again RequestStatus.approved =
          rw
            (count-update_keeps (is_request place uid) (is_request space who) (reopened env.now)
              db.join_requests (λ x. refl))
            one

  asked-IsSingle :
      (code : Text) (uid : ℕ) (env : Env) (db db' : Db) (answer : JoinStatus)
      → request_join code uid env db ≡ ok (answer, db')
      → IsSingle space who db
      → IsSingle space who db'
  unfolding request_join
  asked-IsSingle code uid env db db' answer h one =
      let (s, e, k) = or_err-cases (first_where (has_code code) db.spaces) _ _ _ h in
      let (live, k1) = guard-cases _ _ _ _ k in
      subst (λ (z : JoinStatus × Db). IsSingle space who z.1) (ok-injective k1)
        (either (is_some (role_of s.id uid db)) s.id)
    where
      either :
          (b : Bool) (place : ℕ)
          → IsSingle space who
              (if b then (JoinStatus.already_member, db) else knock place uid env db).1
      either true place = one
      either false place = knock-IsSingle uid place env db one

  Step-IsSingle : (a b : Db) → Step a b → IsSingle space who a → IsSingle space who b
  Step-IsSingle a b (Step.asked code uid env _ _ answer h) one =
      asked-IsSingle code uid env a b answer h one
  Step-IsSingle a b (Step.approved place request uid wrapped env _ _ h) one =
      let (s, r, w, found, open_, e) = approve-returned place request uid wrapped env a b h in
      subst (IsSingle space who) e (
        rw
          (count-update_keeps (is_request_id r.space_id r.id) (is_request space who)
            (approved_row uid env.now) a.join_requests (λ x. refl))
          one)
  Step-IsSingle a b (Step.declined place request uid env _ _ h) one =
      let (s, r, w, found, open_, e) = decline-returned place request uid env a b h in
      subst (IsSingle space who) e (
        rw
          (count-update_keeps (is_request_id r.space_id r.id) (is_request space who)
            (declined_row uid env.now) a.join_requests (λ x. refl))
          one)

-- If an account has at most one join request for a space, then this stays so, however many
-- redemptions of codes, approvals and refusals follow.
pub Steps-IsSingle :
    (space who : ℕ) (a b : Db) → Steps a b → IsSingle space who a → IsSingle space who b
Steps-IsSingle space who a b (Steps.done _) one = one
Steps-IsSingle space who a b (Steps.step _ c _ first rest) one =
    Steps-IsSingle space who c b rest (Step-IsSingle space who a c first one)
