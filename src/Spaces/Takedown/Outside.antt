-- ===== src/Spaces/Takedown/Outside.antt =====
-- What a takedown takes out of a row.
use mathlib.Core.Option
use rover_tools_orange_copy.Store.Wraps.{
  KeyName, JsonValue, WrappedKeys, is_space, without, wrap_of, drop_wrap,
}
use rover_tools_orange_copy.Store.{same_type, EntryType, Space, SyncEntry}
use rover_tools_orange_copy.Spaces.Takedown.{strip}
use rover_tools_orange_copy.Prelude.{
  Option, none, some, [], ◌∷◌, first_where, rows_where, not, ◌==◌, ◌&&◌, ◌||◌, elem, false,
  if◌then◌else◌, Bool-cases, inl, inr, refl, ap, ◌∙◌, ◌≡◌, Bool, List, ℕ,
}

-- A row of the entry in the space that the caller owns or has shared.
abbrev pub is_taken : Space → ℕ → ℕ → EntryType → SyncEntry → Bool
is_taken s uid client t r =
    (r.client_id == client && same_type r.entry_type t && elem s.id r.space_ids)
    && (s.owner_id == uid || r.user_id == uid)

-- The key of the map is the text of the space's id.
abbrev pub names : ℕ → KeyName → Bool
names space KeyName.personal = false
names space (KeyName.of_space s) = s == space
names space (KeyName.other t) = false

-- The map without the space, if the space has a value in it that is not `null`.
abbrev pub without_space :
    ℕ → Option (KeyName × JsonValue) → List (KeyName × JsonValue) → List (KeyName × JsonValue)
without_space space none d = d
without_space space (some (k, JsonValue.null)) d = d
without_space space (some (k, JsonValue.val v)) d = rows_where (λ x. not (names space x.0)) d

-- The wraps without the space's; a text that is no dict stays as it is.
abbrev pub unshared : ℕ → WrappedKeys → WrappedKeys
unshared space (WrappedKeys.malformed t) = WrappedKeys.malformed t
unshared space (WrappedKeys.unreadable t) = WrappedKeys.unreadable t
unshared space (WrappedKeys.not_dict t) = WrappedKeys.not_dict t
unshared space (WrappedKeys.dict d) =
    WrappedKeys.dict (without_space space (first_where (λ x. names space x.0) d) d)

-- The row outside the space, with the time of the takedown.
abbrev pub outside : ℕ → ℕ → SyncEntry → SyncEntry
outside space now r = record r {
  space_ids = rows_where (λ t. not (t == space)) r.space_ids;
  wrapped_keys = unshared space r.wrapped_keys;
  server_ts = now;
}

names-is_space : (space : ℕ) (k : KeyName) → is_space space k ≡ names space k
names-is_space space KeyName.personal = refl
names-is_space space (KeyName.of_space s) = refl
names-is_space space (KeyName.other t) = refl

without-rows_where :
    (space : ℕ) (d : List (KeyName × JsonValue))
    → without space d ≡ rows_where (λ x. not (names space x.0)) d
unfolding without
without-rows_where space [] = refl
without-rows_where space ((k, v) ∷ d) = elim (Bool-cases (names space k)) [
  | inl e ↦ rw (names-is_space space k, e) (without-rows_where space d)
  | inr e ↦ rw (names-is_space space k, e) (ap (λ xs. (k, v) ∷ xs) (without-rows_where space d))
]

wrap_of-first_where :
    (space : ℕ) (d : List (KeyName × JsonValue))
    → wrap_of space d ≡ Option.map (λ x. x.1) (first_where (λ x. names space x.0) d)
unfolding wrap_of
wrap_of-first_where space [] = refl
wrap_of-first_where space ((k, v) ∷ d) = elim (Bool-cases (names space k)) [
  | inl e ↦ rw (names-is_space space k, e) refl
  | inr e ↦ rw (names-is_space space k, e) (wrap_of-first_where space d)
]

drop_wrap-unshared : (space : ℕ) (k : WrappedKeys) → drop_wrap space k ≡ unshared space k
unfolding drop_wrap
drop_wrap-unshared space (WrappedKeys.malformed t) = refl
drop_wrap-unshared space (WrappedKeys.unreadable t) = refl
drop_wrap-unshared space (WrappedKeys.not_dict t) = refl
drop_wrap-unshared space (WrappedKeys.dict d) =
    ap (popped) (wrap_of-first_where space d) ∙ dropped (first_where (λ x. names space x.0) d)
  where
    popped : Option JsonValue → WrappedKeys
    popped o = elim o [
      | none ↦ WrappedKeys.dict d
      | some v ↦ elim v [
        | JsonValue.null ↦ WrappedKeys.dict d
        | JsonValue.val _ ↦ WrappedKeys.dict (without space d)
      ]
    ]

    dropped :
        (o : Option (KeyName × JsonValue))
        → popped (Option.map (λ x. x.1) o) ≡ WrappedKeys.dict (without_space space o d)
    dropped none = refl
    dropped (some (k, JsonValue.null)) = refl
    dropped (some (k, JsonValue.val v)) = ap WrappedKeys.dict (without-rows_where space d)

pub strip-outside :
    (target : SyncEntry → Bool) (space now : ℕ) (o : Option SyncEntry)
    → Option.map (λ r. if target r then strip space now r else r) o
      ≡ Option.map (λ r. if target r then outside space now r else r) o
strip-outside target space now none = refl
strip-outside target space now (some r) =
    ap
      (λ k. some (
        if target r
        then record r {
          space_ids = rows_where (λ t. not (t == space)) r.space_ids;
          wrapped_keys = k;
          server_ts = now;
        }
        else r))
      (drop_wrap-unshared space r.wrapped_keys)
