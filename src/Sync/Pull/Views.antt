-- ===== src/Sync/Pull/Views.antt =====
-- What a pull shows of another account's row.
use rover_tools_orange_copy.Sync.Page.{page}
use mathlib.Core.Option
use rover_tools_orange_copy.Store.{SpaceEntryRemoval, Db, EntryType, SyncEntry}
use rover_tools_orange_copy.Prelude.{
  ◌∙◌, none, Option-cases, refl, ap, ==_iff, [], inr, some, subst, sym, arith, inl, ◌⊎◌, rows_where,
  true, ◌==◌, ◌∷◌, Bool-cases, elem, ◌≡◌, Bool, In, Option, List, ℕ,
}
use rover_tools_orange_copy.Store.Wraps.{
  is_space, not_dict, malformed, unreadable, dict, JsonValue, KeyName, WrappedKeys, kept, wrap_of,
  without, trim,
}
use rover_tools_orange_copy.Sync.Pull.{
  pull_removals, visible_entries, merge_cursors, memberships_of, spaces_in, Pulled, entry_view,
  views, pull_entries,
}

elem-rows_where :
    (s : ℕ) (p : ℕ → Bool) (xs : List ℕ)
    → elem s (rows_where p xs) ≡ true
    → (elem s xs ≡ true) × (p s ≡ true)
elem-rows_where s p [] h = cc
elem-rows_where s p (x ∷ xs) h = elim (Bool-cases (p x)) [
  | inl e ↦ elim (Bool-cases (x == s)) [
    | inl same ↦ (ground arith, subst (λ z. p z ≡ true) ((==_iff x s).0 same) e)
    | inr ne ↦ let (a, b) = elem-rows_where s p xs (ground arith) in (ground arith, b)
  ]
  | inr e ↦ let (a, b) = elem-rows_where s p xs (ground arith) in (ground arith, b)
]

In-without :
    (s : ℕ) (x : KeyName × JsonValue) (d : List (KeyName × JsonValue)) → In x (without s d) → In x d
unfolding without
In-without s x [] m = elim m [ ]
In-without s x ((k, v) ∷ d) m = elim (Bool-cases (is_space s k)) [
  | inl e ↦ inr (In-without s x d (rw e at m))
  | inr e ↦ later (In-without s x d) (rw e at m)
]
  where
    later : (In x (without s d) → In x d) → ((k, v) ≡ x) ⊎ In x (without s d) → In x ((k, v) ∷ d)
    later ih (inl q) = inl q
    later ih (inr n) = inr (ih n)

-- Every key of the map is one of the spaces.
abbrev pub IsForSpaces : List ℕ → List (KeyName × JsonValue) → Type 0
IsForSpaces spaces d =
    (x : KeyName × JsonValue)
    → In x d
    → (s : ℕ) × (x.0 ≡ KeyName.of_space s) × (elem s spaces ≡ true)

kept-IsForSpaces :
    (shown : List ℕ) (d : List (KeyName × JsonValue)) → IsForSpaces shown (kept shown d)
unfolding kept
kept-IsForSpaces [] d x m = elim m [ ]
kept-IsForSpaces (s ∷ shown) d x m = elim (Option-cases (wrap_of s d)) [
  | inl e ↦ wider (kept-IsForSpaces shown d x (rw (e, kept) at m))
  | inr (v, e) ↦ first v (kept-IsForSpaces shown d x) (rw (e, kept) at m)
]
  where
    wider :
        ((t : ℕ) × (x.0 ≡ KeyName.of_space t) × (elem t shown ≡ true))
        → (t : ℕ) × (x.0 ≡ KeyName.of_space t) × (elem t (s ∷ shown) ≡ true)
    wider (t, q, k) = (t, q, ground arith)

    first :
        (v : JsonValue)
        → (In x (kept shown d) → (t : ℕ) × (x.0 ≡ KeyName.of_space t) × (elem t shown ≡ true))
        → ((KeyName.of_space s, v) ≡ x) ⊎ In x (without s (kept shown d))
        → (t : ℕ) × (x.0 ≡ KeyName.of_space t) × (elem t (s ∷ shown) ≡ true)
    first v ih (inl q) = (s, sym (ap (λ y. y.0) q), ground arith)
    first v ih (inr n) = wider (ih (In-without s x _ n))

trim-IsForSpaces :
    (shown : List ℕ) (k : WrappedKeys) (k' : WrappedKeys)
    → trim shown k ≡ some k'
    → (d : List (KeyName × JsonValue)) × (k' ≡ dict d) × IsForSpaces shown d
unfolding trim
trim-IsForSpaces shown (malformed t) k' h = ([], cc h, λ x m. elim m [ ])
trim-IsForSpaces shown (unreadable t) k' h = cc h
trim-IsForSpaces shown (not_dict t) k' h = ([], cc h, λ x m. elim m [ ])
trim-IsForSpaces shown (dict d) k' h = (kept shown d, cc h, kept-IsForSpaces shown d)

-- What a row says to a reader: the author's own row, or spaces that the reader is in and that the
-- row carries, with a map of wraps for such spaces alone, so that there is no personal wrap.
pub data IsFit (reader : ℕ) (spaces : List ℕ) (shown : SyncEntry) : Type 0 where
  own : shown.user_id ≡ reader → IsFit reader spaces shown
  shared :
      (d : List (KeyName × JsonValue))
      → ((s : ℕ) → elem s shown.space_ids ≡ true → elem s spaces ≡ true)
      → shown.wrapped_keys ≡ dict d
      → IsForSpaces spaces d
      → IsFit reader spaces shown

pub entry_view-IsFit :
    (reader : ℕ) (spaces : List ℕ) (r x : SyncEntry)
    → entry_view reader spaces r ≡ some x
    → IsFit reader spaces x
unfolding entry_view
entry_view-IsFit reader spaces r x h = elim (Bool-cases (r.user_id == reader)) [
  | inl e ↦ whole (rw e at h) (own ((==_iff r.user_id reader).0 e))
  | inr e ↦ cut (trim shown r.wrapped_keys) (trim-IsForSpaces shown r.wrapped_keys) (rw e at h)
]
  where
    shown : List ℕ
    shown = rows_where (λ s. elem s spaces) r.space_ids

    whole :
        ◌≡◌ {A = Option SyncEntry} (some r) (some x) → IsFit reader spaces r → IsFit reader spaces x
    whole e fit = let same : r ≡ x = cc e in subst (IsFit reader spaces) same fit

    cut :
        (o : Option WrappedKeys)
        → ((k : WrappedKeys)
            → o ≡ some k
            → (d : List (KeyName × JsonValue)) × (k ≡ dict d) × IsForSpaces shown d)
        → Option.map (λ k. record r { space_ids = shown; wrapped_keys = k }) o ≡ some x
        → IsFit reader spaces x
    cut none fits e = cc e
    cut (some k) fits e =
        let (d, q, only) = fits k refl in
        let same : record r { space_ids = shown; wrapped_keys = k } ≡ x = cc e in
        subst (IsFit reader spaces) same (
          shared d (λ s m. (elem-rows_where s (λ t. elem t spaces) r.space_ids m).1) q
            (λ y m.
              let (s, z, g) = only y m in
              (s, z, (elem-rows_where s (λ t. elem t spaces) r.space_ids g).1)))

-- Each of the views of a page is the view of one of its rows.
In-views :
    (reader : ℕ) (spaces : List ℕ) (x : SyncEntry) (rows out : List SyncEntry)
    → views reader spaces rows ≡ some out
    → In x out
    → (r : SyncEntry) × (entry_view reader spaces r ≡ some x)
unfolding views Option.bind
In-views reader spaces x [] out h m = no_entry (subst (In x) same m)
  where
    same : out ≡ []
    same = sym (cc h)

    no_entry : In x [] → (r : SyncEntry) × (entry_view reader spaces r ≡ some x)
    no_entry i = elim i [ ]
In-views reader spaces x (r ∷ rows) out h m =
    split (entry_view reader spaces r) (views reader spaces rows) refl refl
      (In-views reader spaces x rows) h
  where
    split :
        (o : Option SyncEntry) (rest : Option (List SyncEntry))
        → entry_view reader spaces r ≡ o
        → views reader spaces rows ≡ rest
        → ((vs : List SyncEntry)
            → views reader spaces rows ≡ some vs
            → In x vs
            → (r' : SyncEntry) × (entry_view reader spaces r' ≡ some x))
        → Option.bind o (λ v. Option.map (◌∷◌ v) rest) ≡ some out
        → (r' : SyncEntry) × (entry_view reader spaces r' ≡ some x)
    split none rest e f ih k = cc k
    split (some v) none e f ih k = cc k
    split (some v) (some vs) e f ih k =
        let same : out ≡ v ∷ vs = cc k in
        elim (subst (In x) same m) [ inl q ↦ (r, e ∙ ap some q) | inr n ↦ ih vs f n ]

-- Every entry of a pull is the caller's own, or shows only spaces that the caller is in and
-- wraps for those spaces, never another space or the author's personal wrap.
pub pull-IsFit :
    (uid after limit : ℕ) (kind : Option EntryType) (db : Db) (p : Pulled) (x : SyncEntry)
    → pull_entries uid after limit kind db ≡ some p
    → In x p.entries
    → IsFit uid (spaces_in (memberships_of uid db)) x
unfolding pull_entries
pull-IsFit uid after limit kind db p x h m =
    answered
      (page (λ (r : SyncEntry). r.server_ts) (λ r. r.id) limit (visible_entries uid after kind db))
      (pull_removals uid after limit kind db) h
  where
    answered :
        (e : Option (List SyncEntry × Option ℕ)) (r : Option (List SpaceEntryRemoval × Option ℕ))
        → Option.bind e (λ e'. Option.bind r λ r'.
          Option.bind (views uid (spaces_in (memberships_of uid db)) e'.0) λ shown.
            some (record { entries = shown; removals = r'.0; next = merge_cursors e'.1 r'.1 }))
          ≡ some p
        → IsFit uid (spaces_in (memberships_of uid db)) x
    answered none r k = cc
    answered (some e) none k = cc
    answered (some e) (some r) k =
        shown_fit (views uid (spaces_in (memberships_of uid db)) e.0) refl k
      where
        shown_fit :
            (o : Option (List SyncEntry))
            → views uid (spaces_in (memberships_of uid db)) e.0 ≡ o
            → Option.bind o (λ shown.
              some (record { entries = shown; removals = r.0; next = merge_cursors e.1 r.1 }))
              ≡ some p
            → IsFit uid (spaces_in (memberships_of uid db)) x
        shown_fit none q k' = cc k'
        shown_fit (some shown) q k' =
            let same : p.entries ≡ shown = cc k' in
            let (row, seen) =
              In-views uid (spaces_in (memberships_of uid db)) x e.0 shown q
                (subst (In x) same m) in
            entry_view-IsFit uid (spaces_in (memberships_of uid db)) row x seen
