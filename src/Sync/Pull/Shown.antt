-- ===== src/Sync/Pull/Shown.antt =====
-- When the rows of a page can be shown, and what is shown of them.
use rover_tools_orange_copy.Store.Wraps.{
  WrappedKeys, is_readable, trim, malformed, unreadable, not_dict, dict,
}
use rover_tools_orange_copy.Store.{SyncEntry}
use rover_tools_orange_copy.Prelude.{
  Option-cases, Bool-cases, any_where, elem, ◌==◌, ap, rows_where, false, true, arith, refl, inl,
  inr, none, some, [], ◌∷◌, map, sym, ◌∙◌, ◌⊎◌, ◌≡◌, List, Option, ℕ,
}
use rover_tools_orange_copy.Sync.Pull.{entry_view, views, is_unreadable}
use mathlib.Core.Option

module _ (reader : ℕ) (spaces : List ℕ) where
  trim-readable : (shown : List ℕ) (k : WrappedKeys) → (trim shown k ≡ none) → is_readable k ≡ false
  unfolding trim
  trim-readable shown (malformed t) h = cc h
  trim-readable shown (unreadable t) h = refl
  trim-readable shown (not_dict t) h = cc h
  trim-readable shown (dict d) h = cc h

  -- Only another account's row can have no view, and only one whose wraps raise the error.
  no_view : (r : SyncEntry) → entry_view reader spaces r ≡ none → is_unreadable reader r ≡ true
  unfolding entry_view
  no_view r h = elim (Bool-cases (r.user_id == reader)) [
    | inl e ↦ cc (rw e at h)
    | inr e ↦ raised (trim shown r.wrapped_keys) refl (rw e at h)
  ]
    where
      shown : List ℕ
      shown = rows_where (λ s. elem s spaces) r.space_ids

      raised :
          (o : Option WrappedKeys)
          → trim shown r.wrapped_keys ≡ o
          → Option.map (λ k. record r { space_ids = shown; wrapped_keys = k }) o ≡ none
          → is_unreadable reader r ≡ true
      raised none e k = ground (arith, trim-readable shown r.wrapped_keys e)
      raised (some w) e k = cc k

  -- The views of a page, or an error, of which one of its rows is the cause.
  pub views-cases :
      (rows : List SyncEntry)
      → ((out : List SyncEntry) × (views reader spaces rows ≡ some out))
        ⊎ ((views reader spaces rows ≡ none) × (any_where (is_unreadable reader) rows ≡ true))
  unfolding views Option.bind
  views-cases [] = inl ([], refl)
  views-cases (r ∷ rows) = elim (Option-cases (entry_view reader spaces r)) [
    | inl e ↦ inr (rw e refl, ground (arith, no_view r e))
    | inr (v, e) ↦ elim (views-cases rows) [
      | inl (out, f) ↦ inl (v ∷ out, rw (e, f) refl)
      | inr (f, bad) ↦ inr (rw (e, f) refl, ground (arith, bad))
    ]
  ]

-- What a caller sees of a row; a row that has no view stands for itself.
abbrev pub shown_or : Option SyncEntry → SyncEntry → SyncEntry
shown_or none r = r
shown_or (some v) r = v

pub views-shown :
    (reader : ℕ) (spaces : List ℕ) (rows out : List SyncEntry)
    → views reader spaces rows ≡ some out
    → out ≡ map (λ r. shown_or (entry_view reader spaces r) r) rows
unfolding views Option.bind
views-shown reader spaces [] out h = sym (cc h)
views-shown reader spaces (r ∷ rows) out h =
    split (entry_view reader spaces r) (views reader spaces rows) (views-shown reader spaces rows) h
  where
    split :
        (o : Option SyncEntry) (rest : Option (List SyncEntry))
        → ((vs : List SyncEntry)
            → rest ≡ some vs
            → vs ≡ map (λ r'. shown_or (entry_view reader spaces r') r') rows)
        → Option.bind o (λ v. Option.map (◌∷◌ v) rest) ≡ some out
        → out ≡ shown_or o r ∷ map (λ r'. shown_or (entry_view reader spaces r') r') rows
    split none rest ih k = cc k
    split (some v) none ih k = cc k
    split (some v) (some vs) ih k = let same : out ≡ v ∷ vs = cc k in same ∙ ap (◌∷◌ v) (ih vs refl)
