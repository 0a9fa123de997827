-- ===== src/Sync/Pull/Rounds.antt =====
-- One pull answers both streams, complete up to the one cursor.
use rover_tools_orange_copy.Sync.Page.Complete.{page_complete, UpTo}
use rover_tools_orange_copy.Store.{SpaceEntryRemoval, SyncEntry, Db, EntryType}
use rover_tools_orange_copy.Prelude.{
  any_where, ap, rows_where, false, ◌∙◌, min, inl, is_empty, refl, Bool-cases, [], inr, map, sym,
  ◌∷◌, arith, subst, ◌&&◌, ◌⊎◌, In, leb, none, true, ◌≤◌, count_where, some, ◌≡◌, List, Option,
  Bool, ℕ,
}
use rover_tools_orange_copy.Sync.Pull.{
  spaces_in, Pulled, memberships_of, merge_cursors, visible_entries, visible_removals,
  pull_removals, pull_entries, entry_view, views, is_unreadable,
}
use rover_tools_orange_copy.Sync.Pull.Shown.{views-cases, views-shown, shown_or}

-- The rows of the stream up to the cursor have been handed over, and none besides the stream's.
abbrev pub Covers : {A : Type 0} (ts : A → ℕ) → List A → List A → Option ℕ → Type 0
Covers {A} ts q out none = (p : A → Bool) → count_where p out ≡ count_where p q
Covers {A} ts q out (some c) =
    (p : A → Bool)
    → (count_where (λ r. leb (ts r) c && p r) q ≤ count_where p out)
      × (count_where p out ≤ count_where p q)

-- The cursor is the time of some row of one of the streams.
abbrev pub IsTimeOf : {A B : Type 0} (f : A → ℕ) (g : B → ℕ) → List A → List B → Option ℕ → Type 0
IsTimeOf f g xs ys none = Unit {0}
IsTimeOf {A} {B} f g xs ys (some c) =
    ((x : A) × In x xs × (f x ≡ c)) ⊎ ((y : B) × In y ys × (g y ≡ c))

count-le :
    {A : Type 0} (p q : A → Bool) (xs : List A)
    → ((x : A) → p x ≡ true → q x ≡ true)
    → count_where p xs ≤ count_where q xs
count-le p q [] h = omega arith
count-le p q (x ∷ xs) h = ground (arith, h x, count-le p q xs h)

is_empty-eq : {A : Type 0} (xs : List A) → is_empty xs ≡ true → xs ≡ []
is_empty-eq [] h = refl
is_empty-eq (x ∷ xs) h = cc

rows-none :
    {A : Type 0} (p : A → Bool) (xs : List A) → ((x : A) → p x ≡ false) → rows_where p xs ≡ []
rows-none p [] h = refl
rows-none p (x ∷ xs) h = rw (h x) (rows-none p xs h)

-- A cursor that is no later than the stream's own.
UpTo-Covers :
    {A : Type 0} (ts : A → ℕ) (q out : List A) (c m : ℕ)
    → UpTo ts q out (some c)
    → m ≤ c
    → Covers ts q out (some m)
UpTo-Covers ts q out c m up h p = (
  subst (λ n. count_where (λ r. leb (ts r) m && p r) q ≤ n) (sym (up.0 p))
      (count-le (λ r. leb (ts r) m && p r) (λ r. leb (ts r) c && p r) q (λ x e. ground arith)),
  subst (λ n. n ≤ count_where p q) (sym (up.0 p))
      (count-le (λ r. leb (ts r) c && p r) p q (λ x e. ground arith)),
)

UpTo-Covers_all :
    {A : Type 0} (ts : A → ℕ) (q out : List A) (m : ℕ)
    → UpTo ts q out none
    → Covers ts q out (some m)
UpTo-Covers_all ts q out m up p = (
  subst (λ n. count_where (λ r. leb (ts r) m && p r) q ≤ n) (sym (up p))
      (count-le (λ r. leb (ts r) m && p r) p q (λ x e. ground arith)),
  omega (arith, up p),
)

-- The merged cursor keeps both streams complete.
merge-Covers :
    {A B : Type 0} (f : A → ℕ) (g : B → ℕ) (xs out : List A) (ys rem : List B) (a b : Option ℕ)
    → UpTo f xs out a
    → UpTo g ys rem b
    → Covers f xs out (merge_cursors a b)
      × Covers g ys rem (merge_cursors a b)
      × IsTimeOf f g xs ys (merge_cursors a b)
merge-Covers f g xs out ys rem none none u v = (u, v, tt)
merge-Covers f g xs out ys rem none (some b) u v =
    (UpTo-Covers_all f xs out b u, UpTo-Covers g ys rem b b v (omega arith), inr v.1)
merge-Covers f g xs out ys rem (some a) none u v =
    (UpTo-Covers f xs out a a u (omega arith), UpTo-Covers_all g ys rem a v, inl u.1)
merge-Covers f g xs out ys rem (some a) (some b) u v = (
  UpTo-Covers f xs out a (min a b) u (omega arith),
  UpTo-Covers g ys rem b (min a b) v (omega arith),
  elim (Bool-cases (leb a b)) [
    | inl e ↦ inl (u.1.0, u.1.1, u.1.2 ∙ ground arith)
    | inr e ↦ inr (v.1.0, v.1.1, v.1.2 ∙ ground arith)
  ],
)

any-count : {A : Type 0} (p : A → Bool) (xs : List A) → any_where p xs ≡ true → 1 ≤ count_where p xs
any-count p [] h = cc
any-count p (x ∷ xs) h = ground (arith, any-count p xs)

pub count-any :
    {A : Type 0} (p : A → Bool) (xs : List A) → 1 ≤ count_where p xs → any_where p xs ≡ true
count-any p [] h = absurd (omega (arith, h))
count-any p (x ∷ xs) h = ground (arith, h, count-any p xs)

-- A page holds nothing that the stream does not hold.
UpTo-any :
    {A : Type 0} (ts : A → ℕ) (q out : List A) (c : Option ℕ) (p : A → Bool)
    → UpTo ts q out c
    → any_where p out ≡ true
    → any_where p q ≡ true
UpTo-any ts q out none p up h = count-any p q (subst (λ n. 1 ≤ n) (up p) (any-count p out h))
UpTo-any ts q out (some c) p up h = count-any p q (
    omega (
      arith,
      subst (λ n. 1 ≤ n) (up.0 p) (any-count p out h),
      count-le (λ r. leb (ts r) c && p r) p q (λ x e. ground arith),
    ))

module _ (uid after limit : ℕ) (kind : Option EntryType) (db : Db) where
  abbrev pub spaces_of_caller : List ℕ
  spaces_of_caller = spaces_in (memberships_of uid db)

  abbrev pub view : SyncEntry → SyncEntry
  view r = shown_or (entry_view uid spaces_of_caller r) r

  -- The two streams behind a pull's answer.
  pub record Answers (p : Pulled) : Type 0 where
    pub rows : List SyncEntry
    pub shown : views uid spaces_of_caller rows ≡ some p.entries
    pub entries : Covers (λ r. r.server_ts) (visible_entries uid after kind db) rows p.next
    pub removals : Covers (λ r. r.server_ts) (visible_removals uid after kind db) p.removals p.next
    pub time :
        IsTimeOf
          (λ (r : SyncEntry). r.server_ts)
          (λ (r : SpaceEntryRemoval). r.server_ts)
          (visible_entries uid after kind db)
          (visible_removals uid after kind db)
          p.next

  no_removals : is_empty (memberships_of uid db) ≡ true → visible_removals uid after kind db ≡ []
  unfolding visible_removals
  no_removals e = rows-none _ db.removals λ r. rw (is_empty-eq (memberships_of uid db) e) refl

  removals_page :
      1 ≤ limit
      → (out : List SpaceEntryRemoval) × (next : Option ℕ) × (pull_removals uid after limit kind db
          ≡ some (out, next))
        × UpTo (λ r. r.server_ts) (visible_removals uid after kind db) out next
  unfolding pull_removals visible_removals
  removals_page h = elim (Bool-cases (is_empty (memberships_of uid db))) [
    | inl e ↦ ([], none, rw e refl, λ p. ap (count_where p) (sym (no_removals e)))
    | inr e ↦
        let (out, next, k, up) =
          page_complete (λ (r : SpaceEntryRemoval). r.server_ts) (λ r. r.id) limit
            (visible_removals uid after kind db) h in
        (out, next, rw e k, up)
  ]

  pub pull_complete :
      1 ≤ limit
      → ((p : Pulled) × (pull_entries uid after limit kind db ≡ some p) × Answers p)
        ⊎ ((pull_entries uid after limit kind db ≡ none)
            × (any_where (is_unreadable uid) (visible_entries uid after kind db) ≡ true))
  unfolding pull_entries
  pull_complete h =
      let (rows, e, k, up) =
        page_complete (λ (r : SyncEntry). r.server_ts) (λ r. r.id) limit
          (visible_entries uid after kind db) h in
      let (rem, d, l, down) = removals_page h in
      let (a, b, c) = merge-Covers _ _ _ rows _ rem e d up down in
      elim (views-cases uid spaces_of_caller rows) [
        | inl (out, f) ↦ inl (
          record { entries = out; removals = rem; next = merge_cursors e d },
          rw (k, l, f) refl,
          record { rows = rows; shown = f; entries = a; removals = b; time = c },
        )
        | inr (f, bad) ↦ inr (
          rw (k, l, f) refl,
          UpTo-any (λ (r : SyncEntry). r.server_ts) _ rows e (is_unreadable uid) up bad,
        )
      ]

  -- The answer is the views of its rows.
  pub Answers-view : (p : Pulled) (a : Answers p) → p.entries ≡ map view a.rows
  Answers-view p a = views-shown uid spaces_of_caller a.rows p.entries a.shown
