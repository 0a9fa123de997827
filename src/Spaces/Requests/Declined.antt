-- ===== src/Spaces/Requests/Declined.antt =====
-- Who was declined stays out: whatever happens to the join requests afterwards.
use rover_tools_orange_copy.Spaces.Members.Joining.{add_membership-other}
use mathlib.Core.Option.{some-injective}
use rover_tools_orange_copy.Spaces.Requests.Returned.{approve-returned, decline-returned}
use rover_tools_orange_copy.Spaces.Members.{membership_of}
use rover_tools_orange_copy.Prelude.{
  Option-cases, ap, is_some, if◌then◌else◌, first_where-In, ◌&&◌, ok-injective, ◌==◌, guard-cases,
  or_err-cases, sym, false≢true, inr, refl, subst, In-update_first, [], inl, Bool-cases, Option,
  arith, ◌∙◌, false, ok, ◌∷◌, ◌≢◌, first_where, true, update_first, In, any_where, ◌≡◌, Bool, List,
  ℕ, none, some,
}
use rover_tools_orange_copy.Store.{RequestStatus, Env, SpaceJoinRequest, Text, Db}
use rover_tools_orange_copy.Spaces.Requests.{
  new_request, reopened, knock_again, role_of, approved_row, declined_row, has_code, is_request_id,
  knock, decline, approve, JoinStatus, is_open, is_request, request_join,
}

-- One call that returned.
pub data Step : Db → Db → Type 0 where
  asked :
      (code : Text) (uid : ℕ) (env : Env) (db db' : Db) (answer : JoinStatus)
      → request_join code uid env db ≡ ok (answer, db')
      → Step db db'
  approved :
      (space request uid : ℕ) (wrapped : Option ℕ) (env : Env) (db db' : Db)
      → approve space request uid wrapped env db ≡ ok db'
      → Step db db'
  declined :
      (space request uid : ℕ) (env : Env) (db db' : Db)
      → decline space request uid env db ≡ ok db'
      → Step db db'

pub data Steps : Db → Db → Type 0 where
  done : (db : Db) → Steps db db
  step : (a b c : Db) → Step a b → Steps b c → Steps a c

-- The rows of the account in the space: there are some, and all of them are declined.
abbrev pub IsShut : ℕ → ℕ → List SpaceJoinRequest → Type 0
IsShut space who rows =
    (any_where (is_request space who) rows ≡ true)
    × ((r : SpaceJoinRequest)
        → In r rows
        → is_request space who r ≡ true
        → r.status ≡ RequestStatus.declined)

-- The account is no member of the space, and its request was declined.
abbrev pub IsOut : ℕ → ℕ → Db → Type 0
IsOut space who db = (membership_of space who db ≡ none) × IsShut space who db.join_requests

any-update_first :
    {A : Type 0} (p q : A → Bool) (f : A → A) (xs : List A)
    → ((x : A) → q (f x) ≡ q x)
    → any_where q (update_first p f xs) ≡ any_where q xs
any-update_first p q f [] h = refl
any-update_first p q f (x ∷ xs) h = ground (arith, h x, any-update_first p q f xs h)

any-first :
    {A : Type 0} (p : A → Bool) (xs : List A) → any_where p xs ≡ true → first_where p xs ≢ none
any-first p [] h e = cc
any-first p (x ∷ xs) h e = ground (arith, any-first p xs)

module _ (space who : ℕ) where
  -- A change that keeps the keys and finds a row of another key.
  update-IsShut :
      (p : SpaceJoinRequest → Bool) (f : SpaceJoinRequest → SpaceJoinRequest)
      (rows : List SpaceJoinRequest)
      → ((x : SpaceJoinRequest) → is_request space who (f x) ≡ is_request space who x)
      → ((x : SpaceJoinRequest) → first_where p rows ≡ some x → is_request space who x ≡ false)
      → IsShut space who rows
      → IsShut space who (update_first p f rows)
  update-IsShut p f rows keeps apart (some_row, all_declined) = (
    any-update_first p (is_request space who) f rows keeps ∙ some_row,
    λ r i h. elim (In-update_first p f rows r i) [
      | inl old ↦ all_declined r old h
      | inr (x, found, same) ↦
          elim (false≢true (
            sym (apart x found)
            ∙ sym (keeps x)
            ∙ subst (λ z. is_request space who z ≡ true) same h)) [ ]
    ],
  )

  -- An open row is not one of theirs.
  open-apart :
      (r : SpaceJoinRequest) (rows : List SpaceJoinRequest)
      → IsShut space who rows
      → In r rows
      → is_open r.status ≡ true
      → is_request space who r ≡ false
  open-apart r rows (some_row, all_declined) i h = elim (Bool-cases (is_request space who r)) [
    | inl e ↦ cc (subst (λ t. is_open t ≡ true) (all_declined r i e) h)
    | inr e ↦ e
  ]

  decided-IsShut :
      (place request : ℕ) (f : SpaceJoinRequest → SpaceJoinRequest) (db : Db) (r : SpaceJoinRequest)
      → ((x : SpaceJoinRequest) → is_request space who (f x) ≡ is_request space who x)
      → first_where (is_request_id place request) db.join_requests ≡ some r
      → is_open r.status ≡ true
      → IsShut space who db.join_requests
      → IsShut space who (update_first (is_request_id place request) f db.join_requests)
  decided-IsShut place request f db r keeps found h shut =
      update-IsShut (is_request_id place request) f db.join_requests keeps
        (λ x e.
          subst (λ z. is_request space who z ≡ false) (some-injective _ _ (sym found ∙ e))
            (open-apart r db.join_requests shut
              (first_where-In (is_request_id place request) db.join_requests r found).0 h))
        shut

module _ (space who : ℕ) where
  declined-IsOut :
      (place request uid : ℕ) (env : Env) (db db' : Db)
      → decline place request uid env db ≡ ok db'
      → IsOut space who db
      → IsOut space who db'
  declined-IsOut place request uid env db db' h (out, shut) =
      let (s, r, w, found, open_, e) = decline-returned place request uid env db db' h in
      subst (IsOut space who) e (
        out,
        decided-IsShut space who r.space_id r.id (declined_row uid env.now) db r (λ x. refl) found
            open_ shut,
      )

  approved-IsOut :
      (place request uid : ℕ) (wrapped : Option ℕ) (env : Env) (db db' : Db)
      → approve place request uid wrapped env db ≡ ok db'
      → IsOut space who db
      → IsOut space who db'
  approved-IsOut place request uid wrapped env db db' h (out, shut) =
      let (s, r, w, found, open_, e) = approve-returned place request uid wrapped env db db' h in
      let apart =
        open-apart space who r db.join_requests shut
          (first_where-In (is_request_id r.space_id r.id) db.join_requests r found).0 open_ in
      subst (IsOut space who) e (
        add_membership-other s r.user_id _ _ _ db space who (rw w.0 apart) ∙ out,
        decided-IsShut space who r.space_id r.id (approved_row uid env.now) db r (λ x. refl) found
            open_ shut,
      )

  knock_first :
      (uid place : ℕ) (env : Env) (db : Db)
      → (place == space && uid == who) ≡ true
      → IsOut space who db
      → IsOut space who (knock place uid env db).1
  unfolding knock knock_again
  knock_first uid place env db same (out, (some_row, all_declined)) =
      elim (Option-cases (first_where (is_request place uid) db.join_requests)) [
        | inl e ↦
            elim (any-first (is_request space who) db.join_requests some_row
              (subst (λ z. first_where z db.join_requests ≡ none) key e)) [ ]
        | inr (r, e) ↦
            let (i, h) = first_where-In (is_request place uid) db.join_requests r e in
            let closed = all_declined r i (subst (λ z. z r ≡ true) key h) in
            rw (knock, e, closed) (out, (some_row, all_declined))
      ]
    where
      key : is_request place uid ≡ is_request space who
      key =
          ap (λ z. is_request z uid) (ground (arith, same))
          ∙ ap (λ z. is_request space z) (ground (arith, same))

  knock_other :
      (uid place : ℕ) (env : Env) (db : Db)
      → (place == space && uid == who) ≡ false
      → IsOut space who db
      → IsOut space who (knock place uid env db).1
  unfolding knock knock_again
  knock_other uid place env db other (out, (some_row, all_declined)) =
      elim (Option-cases (first_where (is_request place uid) db.join_requests)) [
        | inl e ↦ rw (knock, e) (out, added)
        | inr (r, e) ↦ rw (knock, e) (again r.status)
      ]
    where
      added : IsShut space who (new_request env.new_id place uid env.now ∷ db.join_requests)
      added = (
        rw other some_row,
        λ r i h. elim i [
          | inl same ↦
              elim (false≢true
                (sym other ∙ subst (λ z. is_request space who z ≡ true) (sym same) h)) [ ]
          | inr old ↦ all_declined r old h
        ],
      )

      again : (t : RequestStatus) → IsOut space who (knock_again t place uid env.now db).1
      again RequestStatus.pending = (out, (some_row, all_declined))
      again RequestStatus.declined = (out, (some_row, all_declined))
      again RequestStatus.approved = (
        out,
        update-IsShut space who (is_request place uid) (reopened env.now) db.join_requests
            (λ x. refl)
            (λ x f.
              let h = (first_where-In (is_request place uid) db.join_requests x f).1 in
              ground (arith, h, other))
            (some_row, all_declined),
      )

  asked-IsOut :
      (code : Text) (uid : ℕ) (env : Env) (db db' : Db) (answer : JoinStatus)
      → request_join code uid env db ≡ ok (answer, db')
      → IsOut space who db
      → IsOut space who db'
  unfolding request_join
  asked-IsOut code uid env db db' answer h shut =
      let (s, e, k) = or_err-cases (first_where (has_code code) db.spaces) _ _ _ h in
      let (live, k1) = guard-cases _ _ _ _ k in
      subst (λ (z : JoinStatus × Db). IsOut space who z.1) (ok-injective k1)
        (either (is_some (role_of s.id uid db)) s.id)
    where
      knocked : (place : ℕ) → IsOut space who (knock place uid env db).1
      knocked place = elim (Bool-cases (place == space && uid == who)) [
        | inl same ↦ knock_first uid place env db same shut
        | inr other ↦ knock_other uid place env db other shut
      ]

      either :
          (b : Bool) (place : ℕ)
          → IsOut space who
              (if b then (JoinStatus.already_member, db) else knock place uid env db).1
      either true place = shut
      either false place = knocked place

  Step-IsOut : (a b : Db) → Step a b → IsOut space who a → IsOut space who b
  Step-IsOut a b (Step.asked code uid env _ _ answer h) out =
      asked-IsOut code uid env a b answer h out
  Step-IsOut a b (Step.approved place request uid wrapped env _ _ h) out =
      approved-IsOut place request uid wrapped env a b h out
  Step-IsOut a b (Step.declined place request uid env _ _ h) out =
      declined-IsOut place request uid env a b h out

-- If an account is no member of a space and its request was declined, then this stays so, however
-- many redemptions of codes, approvals and refusals follow, by whomever and in any order.
pub Steps-IsOut : (space who : ℕ) (a b : Db) → Steps a b → IsOut space who a → IsOut space who b
Steps-IsOut space who a b (Steps.done _) out = out
Steps-IsOut space who a b (Steps.step _ c _ first rest) out =
    Steps-IsOut space who c b rest (Step-IsOut space who a c first out)
