-- ===== src/Settings/Swap.antt =====
-- What two writers of the same settings can rely on.
use rover_tools_orange_copy.Prelude.{
  [], ◌∷◌, first_where-In, arith, first_where-update_other, suc, ==_iff, Option,
  first_where-update_first, inr, ◌∙◌, Option-cases, ltb, refl, subst, sym, true, false,
  if◌then◌else◌, inl, ◌&&◌, Bool-cases, List, ◌==◌, ◌≡◌, ◌≤◌, ℕ, none, some,
}
use rover_tools_orange_copy.Store.{UserSettings, Db}
use rover_tools_orange_copy.Settings.{
  owned_by, put_row, Winner, get_settings, SettingsPutRequest, put_all, put_over, write_if,
  put_settings,
}

-- A put by the account itself over a stored row.
put_own :
    (uid : ℕ) (req : SettingsPutRequest) (db : Db) (s : UserSettings)
    → get_settings uid db ≡ some s
    → get_settings uid (put_settings uid req db).1
      ≡ some (if write_if req s then put_row req s else s)
unfolding put_settings put_over
put_own uid req db s f = elim (Bool-cases (write_if req s)) [
  | inl b ↦
      rw (put_settings, f, b)
        (first_where-update_first (owned_by uid) (put_row req) db.user_settings s f
          (first_where-In (owned_by uid) db.user_settings s f).1)
  | inr b ↦ rw (put_settings, f, b) f
]

-- The row of another account.
put_other :
    (uid who : ℕ) (req : SettingsPutRequest) (db : Db)
    → (who == uid) ≡ false
    → get_settings uid (put_settings who req db).1 ≡ get_settings uid db
unfolding put_settings put_over
put_other uid who req db ne = elim (Option-cases (get_settings who db)) [
  | inl e ↦ rw (put_settings, e, ne) refl
  | inr (s, e) ↦ elim (Bool-cases (write_if req s)) [
    | inl b ↦
        rw (put_settings, e, b)
          (first_where-update_other (owned_by who) (owned_by uid) (put_row req) db.user_settings
            (λ x h. (ground (arith, h, ne), ground (arith, h, ne))))
    | inr b ↦ rw (put_settings, e, b) refl
  ]
]

-- Some blob is stored for the account, and none older than this.
abbrev pub IsAtLeast : ℕ → ℕ → Db → Type 0
IsAtLeast uid time db = (s : UserSettings) × (get_settings uid db ≡ some s) × (time ≤ s.updated_at)

write_if-later :
    (req : SettingsPutRequest) (s : UserSettings)
    → s.updated_at ≤ (if write_if req s then put_row req s else s).updated_at
unfolding write_if
write_if-later req s = later req.base_updated_at
  where
    later :
        (base : Option ℕ)
        → s.updated_at
          ≤ (if write_if (record req { base_updated_at = base }) s
              then put_row req s
              else s).updated_at
    later none = ground arith
    later (some b) = ground arith

put-IsAtLeast :
    (uid who time : ℕ) (req : SettingsPutRequest) (db : Db)
    → IsAtLeast uid time db
    → IsAtLeast uid time (put_settings who req db).1
put-IsAtLeast uid who time req db (s, f, le) = elim (Bool-cases (who == uid)) [
  | inl same ↦
      subst (λ w. IsAtLeast uid time (put_settings w req db).1) (sym ((==_iff who uid).0 same))
        (_, put_own uid req db s f, ground (arith, le, write_if-later req s))
  | inr other ↦ (s, put_other uid who req db other ∙ f, le)
]

put_all-IsAtLeast :
    (uid time : ℕ) (puts : List (ℕ × SettingsPutRequest)) (db : Db)
    → IsAtLeast uid time db
    → IsAtLeast uid time (put_all puts db)
unfolding put_all
put_all-IsAtLeast uid time [] db h = h
put_all-IsAtLeast uid time ((who, req) ∷ puts) db h =
    put_all-IsAtLeast uid time puts (put_settings who req db).1
      (put-IsAtLeast uid who time req db h)

put_won :
    (uid : ℕ) (req : SettingsPutRequest) (db : Db) (s : UserSettings)
    → get_settings uid db ≡ some s
    → (put_settings uid req db).0.winner ≡ Winner.client
    → write_if req s ≡ true
unfolding put_settings put_over
put_won uid req db s f won = elim (Bool-cases (write_if req s)) [
  | inl b ↦ b
  | inr b ↦ cc (rw (put_settings, f, b) at won)
]

put_lost :
    (uid : ℕ) (req : SettingsPutRequest) (db : Db) (s : UserSettings)
    → get_settings uid db ≡ some s
    → write_if req s ≡ false
    → ((put_settings uid req db).0.winner ≡ Winner.server) × ((put_settings uid req db).1 ≡ db)
unfolding put_settings put_over
put_lost uid req db s f b = (rw (put_settings, f, b) refl, rw (put_settings, f, b) refl)

write_if-based :
    (req : SettingsPutRequest) (s : UserSettings) (base : ℕ)
    → req.base_updated_at ≡ some base
    → write_if req s ≡ (s.updated_at == base && ltb s.updated_at req.updated_at)
unfolding write_if
write_if-based req s base e = rw (write_if, e) refl

-- Of two puts of an account that were merged from the same stored blob, the second loses if the
-- first was written, whatever puts of any accounts come in between, and the second then changes
-- nothing.
pub put_settings-swap :
    (uid base : ℕ) (one two : SettingsPutRequest) (between : List (ℕ × SettingsPutRequest))
    (db : Db) (s : UserSettings)
    → get_settings uid db ≡ some s
    → one.base_updated_at ≡ some base
    → two.base_updated_at ≡ some base
    → (put_settings uid one db).0.winner ≡ Winner.client
    → ((put_settings uid two (put_all between (put_settings uid one db).1)).0.winner
        ≡ Winner.server)
      × ((put_settings uid two (put_all between (put_settings uid one db).1)).1
          ≡ put_all between (put_settings uid one db).1)
put_settings-swap uid base one two between db s f b1 b2 won =
    let wrote = put_won uid one db s f won in
    let based = sym (write_if-based one s base b1) ∙ wrote in
    let moved : IsAtLeast uid (suc base) (put_settings uid one db).1 =
      (put_row one s, put_own uid one db s f ∙ rw wrote refl, ground (arith, based)) in
    let (s', f', le) = put_all-IsAtLeast uid (suc base) between (put_settings uid one db).1 moved in
    put_lost uid two (put_all between (put_settings uid one db).1) s' f'
      (write_if-based two s' base b2 ∙ ground (arith, le))
