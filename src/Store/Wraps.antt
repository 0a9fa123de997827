-- ===== src/Store/Wraps.antt =====
-- The `wrapped_keys` column: a JSON text that the server reads only through `json.loads` and
-- writes only through `json.dumps`, so it is modelled by what `json.loads` makes of it.
use rover_tools_orange_copy.Prelude.{
  ℕ, Bool, true, false, Option, none, some, List, [], ◌∷◌, ◌==◌, if◌then◌else◌,
}

-- A key of the map: "personal", the text of a space id, or another text.
pub data KeyName : Type 0 where
  personal : KeyName
  of_space : ℕ → KeyName
  other : ℕ → KeyName

-- A value of the map: `null`, or a value that the server does not look into.
pub data JsonValue : Type 0 where
  null : JsonValue
  val : ℕ → JsonValue

-- What `json.loads` makes of the text: a JSONDecodeError, which every caller catches; another
-- error, which none of them does (a ValueError for a number of more than 4300 digits, a
-- RecursionError for deep nesting); a value that is no dict; or a dict.
pub data WrappedKeys : Type 0 where
  malformed : ℕ → WrappedKeys
  unreadable : ℕ → WrappedKeys
  not_dict : ℕ → WrappedKeys
  dict : List (KeyName × JsonValue) → WrappedKeys

-- `json.loads` raises nothing but what its callers catch.
abbrev pub is_readable : WrappedKeys → Bool
is_readable (malformed _) = true
is_readable (unreadable _) = false
is_readable (not_dict _) = true
is_readable (dict _) = true

-- `"{}"`
abbrev pub no_keys : WrappedKeys
no_keys = dict []

abbrev pub is_space : ℕ → KeyName → Bool
is_space s personal = false
is_space s (of_space t) = t == s
is_space s (other t) = false

-- `keys[str(s)]`, if `str(s) in keys`.
unfoldable pub wrap_of : ℕ → List (KeyName × JsonValue) → Option JsonValue
wrap_of s [] = none
wrap_of s ((k, v) ∷ d) = if is_space s k then some v else wrap_of s d

-- `keys.pop(str(s), None)`: the dict without the key.
unfoldable pub without : ℕ → List (KeyName × JsonValue) → List (KeyName × JsonValue)
without s [] = []
without s ((k, v) ∷ d) = let rest = without s d in if is_space s k then rest else (k, v) ∷ rest

-- `{str(s): keys[str(s)] for s in shown if str(s) in keys}`, a repeated key once.
unfoldable pub kept : List ℕ → List (KeyName × JsonValue) → List (KeyName × JsonValue)
unfolding wrap_of without
kept [] d = []
kept (s ∷ shown) d =
    let rest = kept shown d in
    elim (wrap_of s d) [ none ↦ rest | some v ↦ (of_space s, v) ∷ without s rest ]

-- The map cut down to the spaces shown; a text that is no dict yields no wrap, and `none` is the
-- error that nobody catches.
unfoldable pub trim : List ℕ → WrappedKeys → Option WrappedKeys
unfolding kept
trim shown (malformed _) = some no_keys
trim shown (unreadable _) = none
trim shown (not_dict _) = some no_keys
trim shown (dict d) = some (dict (kept shown d))

-- A space's wrap taken out. The text is rewritten only if the value popped is not `None`. A text
-- that raises is out of reach here: the takedown has ended before.
unfoldable pub drop_wrap : ℕ → WrappedKeys → WrappedKeys
unfolding wrap_of without
drop_wrap s (malformed t) = malformed t
drop_wrap s (unreadable t) = unreadable t
drop_wrap s (not_dict t) = not_dict t
drop_wrap s (dict d) = elim (wrap_of s d) [
  | none ↦ dict d
  | some v ↦ elim v [ null ↦ dict d | val _ ↦ dict (without s d) ]
]
