-- ===== src/Spaces/Keys/Relay.antt =====
-- What a member who is not the owner can and cannot write with `distribute_keys`.
use rover_tools_orange_copy.Spaces.Members.{has_id, find_space, membership_of}
use rover_tools_orange_copy.Prelude.{
  false≢true, sym, some, In, ap, ok-injective, or_err-cases, guard-cases, ◌||◌, is_some, ok, Bool,
  In, Option, true, arith, first_where-In, refl, ==_iff, first_where-update_first,
  first_where-update_other, Bool-cases, inr, [], inl, ◌∙◌, Option-cases, if◌then◌else◌, subst, ◌∷◌,
  false, some, ◌≡◌, first_where, ◌==◌, List, ℕ,
}
use rover_tools_orange_copy.Spaces.Keys.{
  settle, writes_one, distribute_keys, written, set_wrap, may_write, WrappedKeyringEntry,
  write_keyrings, write_one,
}
use rover_tools_orange_copy.Store.{Db, is_member, SpaceMembership, Space}

-- The row of another account after one turn.
write_one-other :
    (s : Space) (uid who : ℕ) (e : WrappedKeyringEntry) (ms : List SpaceMembership)
    → (e.user_id == who) ≡ false
    → first_where (is_member s.id who) (write_one s uid e ms) ≡ first_where (is_member s.id who) ms
unfolding write_one
write_one-other s uid who e ms ne =
    elim (Option-cases (first_where (is_member s.id e.user_id) ms)) [
      | inl e0 ↦ rw (write_one, e0)
      | inr (m, e0) ↦ elim (Bool-cases (may_write s uid m)) [
        | inl b ↦
            rw (write_one, e0, b)
              (first_where-update_other (is_member s.id e.user_id) (is_member s.id who)
                (set_wrap e.wrapped_space_keys uid) ms (λ x h. (ground arith, ground arith)))
        | inr b ↦ rw (write_one, e0, b)
      ]
    ]

-- The row of the entry's own account after one turn.
write_one-own :
    (s : Space) (uid : ℕ) (e : WrappedKeyringEntry) (ms : List SpaceMembership)
    (m : SpaceMembership)
    → first_where (is_member s.id e.user_id) ms ≡ some m
    → first_where (is_member s.id e.user_id) (write_one s uid e ms)
      ≡ some (if may_write s uid m then set_wrap e.wrapped_space_keys uid m else m)
unfolding write_one
write_one-own s uid e ms m f = elim (Bool-cases (may_write s uid m)) [
  | inl b ↦
      rw (write_one, f, b)
        (first_where-update_first (is_member s.id e.user_id) (set_wrap e.wrapped_space_keys uid) ms
          m f (first_where-In (is_member s.id e.user_id) ms m f).1)
  | inr b ↦ rw (write_one, f, b) f
]

write_one-held :
    (s : Space) (uid who : ℕ) (e : WrappedKeyringEntry) (ms : List SpaceMembership)
    (m : SpaceMembership)
    → may_write s uid m ≡ false
    → first_where (is_member s.id who) ms ≡ some m
    → first_where (is_member s.id who) (write_one s uid e ms) ≡ some m
write_one-held s uid who e ms m held f = elim (Bool-cases (e.user_id == who)) [
  | inl same ↦ own who ((==_iff e.user_id who).0 same) f
  | inr other ↦ write_one-other s uid who e ms other ∙ f
]
  where
    own :
        (who : ℕ)
        → e.user_id ≡ who
        → first_where (is_member s.id who) ms ≡ some m
        → first_where (is_member s.id who) (write_one s uid e ms) ≡ some m
    own who same f =
        subst (λ w. first_where (is_member s.id w) (write_one s uid e ms) ≡ some m) same
          (write_one-own s uid e ms m (rw same f) ∙ rw held refl)

write_keyrings-held :
    (s : Space) (uid who : ℕ) (es : List WrappedKeyringEntry) (ms : List SpaceMembership)
    (m : SpaceMembership)
    → may_write s uid m ≡ false
    → first_where (is_member s.id who) ms ≡ some m
    → first_where (is_member s.id who) (write_keyrings s uid es ms) ≡ some m
unfolding write_keyrings
write_keyrings-held s uid who [] ms m held f = f
write_keyrings-held s uid who (e ∷ es) ms m held f =
    write_keyrings-held s uid who es (write_one s uid e ms) m held
      (write_one-held s uid who e ms m held f)

-- The row has the wrap that the call carries for the account, and the caller as its maker.
abbrev pub IsHanded : ℕ → ℕ → List WrappedKeyringEntry → Option SpaceMembership → Type 0
IsHanded uid who sent o =
    (m : SpaceMembership) × (e : WrappedKeyringEntry) × (o ≡ some m)
    × In e sent
    × (e.user_id ≡ who)
    × (m.wrapped_space_keys ≡ some e.wrapped_space_keys)
    × (m.wrapped_by ≡ some uid)

module _ (s : Space) (uid who : ℕ) (sent : List WrappedKeyringEntry) where
  -- One turn hands over its own wrap or leaves what an earlier turn handed over.
  write_one-IsHanded :
      (e : WrappedKeyringEntry) (ms : List SpaceMembership)
      → In e sent
      → IsHanded uid who sent (first_where (is_member s.id who) ms)
      → IsHanded uid who sent (first_where (is_member s.id who) (write_one s uid e ms))
  write_one-IsHanded e ms i h = elim (Bool-cases (e.user_id == who)) [
    | inl same ↦ own h ((==_iff e.user_id who).0 same)
    | inr other ↦ subst (IsHanded uid who sent) (sym (write_one-other s uid who e ms other)) h
  ]
    where
      kept_or_new :
          (m : SpaceMembership) (b : Bool)
          → e.user_id ≡ who
          → IsHanded uid who sent (some m)
          → IsHanded uid who sent (some (if b then set_wrap e.wrapped_space_keys uid m else m))
      kept_or_new m true same h' =
          (set_wrap e.wrapped_space_keys uid m, e, refl, i, same, refl, refl)
      kept_or_new m false same h' = h'

      own :
          IsHanded uid who sent (first_where (is_member s.id who) ms)
          → e.user_id ≡ who
          → IsHanded uid who sent (first_where (is_member s.id who) (write_one s uid e ms))
      own (m, x, f, i', q, w, b) same =
          subst (IsHanded uid who sent)
            (sym (
              subst
                (λ w.
                  first_where (is_member s.id w) (write_one s uid e ms)
                  ≡ some (if may_write s uid m then set_wrap e.wrapped_space_keys uid m else m))
                same (write_one-own s uid e ms m (rw same f))))
            (kept_or_new m (may_write s uid m) same (m, x, refl, i', q, w, b))

  write_keyrings-IsHanded :
      (es : List WrappedKeyringEntry) (ms : List SpaceMembership)
      → ((e : WrappedKeyringEntry) → In e es → In e sent)
      → IsHanded uid who sent (first_where (is_member s.id who) ms)
      → IsHanded uid who sent (first_where (is_member s.id who) (write_keyrings s uid es ms))
  unfolding write_keyrings
  write_keyrings-IsHanded [] ms i h = h
  write_keyrings-IsHanded (e ∷ es) ms i h =
      write_keyrings-IsHanded es (write_one s uid e ms) (λ x m. i x (inr m))
        (write_one-IsHanded e ms (i e (inl refl)) h)

  write_one-writes :
      (e : WrappedKeyringEntry) (ms : List SpaceMembership)
      → In e sent
      → e.user_id ≡ who
      → writes_one s uid e ms ≡ true
      → IsHanded uid who sent (first_where (is_member s.id who) (write_one s uid e ms))
  unfolding writes_one
  write_one-writes e ms i same h = elim (Option-cases (first_where (is_member s.id e.user_id) ms)) [
    | inl e0 ↦ absurd (false≢true (rw (writes_one, e0) at h))
    | inr (m, e0) ↦ (
      set_wrap e.wrapped_space_keys uid m,
      e,
      subst
          (λ w.
            first_where (is_member s.id w) (write_one s uid e ms)
            ≡ some (set_wrap e.wrapped_space_keys uid m))
          same
          (write_one-own s uid e ms m e0
            ∙ ap (λ b. some (if b then set_wrap e.wrapped_space_keys uid m else m))
                (rw (writes_one, e0) at h)),
      i,
      same,
      refl,
      refl,
    )
  ]

  written-IsHanded :
      (es : List WrappedKeyringEntry) (ms : List SpaceMembership)
      → ((e : WrappedKeyringEntry) → In e es → In e sent)
      → In who (written s uid es ms)
      → IsHanded uid who sent (first_where (is_member s.id who) (write_keyrings s uid es ms))
  unfolding write_keyrings written
  written-IsHanded [] ms k i = elim i [ ]
  written-IsHanded (e ∷ es) ms k i = elim (Bool-cases (writes_one s uid e ms)) [
    | inl b ↦
        elim (rw b at i)
          as (λ _.
            IsHanded uid who sent
              (first_where (is_member s.id who) (write_keyrings s uid es (write_one s uid e ms)))) [
                | inl same ↦
                    write_keyrings-IsHanded es (write_one s uid e ms) (λ x m. k x (inr m))
                      (write_one-writes e ms (k e (inl refl)) same b)
                | inr later ↦ written-IsHanded es (write_one s uid e ms) (λ x m. k x (inr m)) later
              ]
    | inr b ↦ written-IsHanded es (write_one s uid e ms) (λ x m. k x (inr m)) (rw b at i)
  ]

-- When a member who is not the owner distributes, then the row of the space stays as it is (its
-- fingerprint and the rekey that is owed included), and so does a membership that holds a wrap
-- already or is the owner's.
pub distribute_keys-relay :
    (space uid : ℕ) (keyrings : List WrappedKeyringEntry) (fingerprint : Option ℕ) (db db' : Db)
    (s : Space) (out : List ℕ)
    → distribute_keys space uid keyrings fingerprint db ≡ ok (out, db')
    → find_space space db ≡ some s
    → (s.owner_id == uid) ≡ false
    → (who : ℕ) (m : SpaceMembership) → membership_of space who db ≡ some m
    → (m.user_id == s.owner_id || is_some m.wrapped_space_keys) ≡ true
    → (find_space space db' ≡ some s) × (membership_of space who db' ≡ some m)
unfolding distribute_keys
distribute_keys-relay space uid keyrings fingerprint db db' s out h f ho who m e held =
    let (inside, k) = guard-cases _ _ _ _ (rw f at h) in
    let wrote = ap (λ p. p.1) (ok-injective k) in
    let found = (first_where-In (has_id space) db.spaces s f).1 in
    let own : s.id ≡ space = ground (arith, found) in
    let change = settle uid fingerprint (write_keyrings s uid keyrings db.memberships) in
    let same : change s ≡ s = rw ho refl in
    (
      subst (λ d. find_space space d ≡ some s) wrote
          (first_where-update_first (has_id space) change db.spaces s f (rw same found)
            ∙ ap some same),
      subst (λ d. membership_of space who d ≡ some m) wrote
          (subst
            (λ sp.
              first_where (is_member sp who) (write_keyrings s uid keyrings db.memberships)
              ≡ some m)
            own
            (write_keyrings-held s uid who keyrings db.memberships m (ground (arith, ho, held))
              (rw own e))),
    )

-- Every account that `distribute_keys` says it wrote ends up with a wrap that the call
-- carries for this account, and with the caller as the one who made it.
pub distribute_keys-written :
    (space uid : ℕ) (keyrings : List WrappedKeyringEntry) (fingerprint : Option ℕ) (db db' : Db)
    (out : List ℕ)
    → distribute_keys space uid keyrings fingerprint db ≡ ok (out, db')
    → (who : ℕ) → In who out
    → IsHanded uid who keyrings (membership_of space who db')
unfolding distribute_keys
distribute_keys-written space uid keyrings fingerprint db db' out h who i =
    let (s, e, k) = or_err-cases (find_space space db) _ _ _ h in
    let (inside, k1) = guard-cases _ _ _ _ k in
    let own : s.id ≡ space = ground (arith, (first_where-In (has_id space) db.spaces s e).1) in
    subst (λ d. IsHanded uid who keyrings (membership_of space who d))
      (ap (λ p. p.1) (ok-injective k1))
      (subst
        (λ sp.
          IsHanded uid who keyrings
            (first_where (is_member sp who) (write_keyrings s uid keyrings db.memberships)))
        own
        (written-IsHanded s uid who keyrings keyrings db.memberships (λ x m. m)
          (subst (In who) (sym (ap (λ p. p.0) (ok-injective k1))) i)))
