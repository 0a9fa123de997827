-- ===== src/Blobs/Access.antt =====
-- Who may download a blob.
use mathlib.Core.Logic.{◌↔◌}
use rover_tools_orange_copy.Prelude.{
  is_none, ◌&&◌, eq_option, Option, none, ◌>>◌, guard, ==_iff, ◌==◌, guard-cases, or_err-cases, ◌⊎◌,
  first_where, ap, inr, refl, Bool-cases, In-rows_where, first_where-In, inl, rows_where-In, ◌||◌,
  arith, first_where-any, ◌++◌, In, In-any_where, any_where, elem, rows_where, Bool, List, ◌≡◌, ℕ,
  some, ok, true, false, [], ◌∷◌,
}
use rover_tools_orange_copy.Store.{SpaceMembership, Blob, SyncEntry, Db}
use rover_tools_orange_copy.Blobs.{
  is_confirmed_key, is_shared_by, spaces_of_rows, shares_space_with_blob, get_download_url,
}

elem-append : (a : ℕ) (xs ys : List ℕ) → elem a (xs ++ ys) ≡ (elem a xs || elem a ys)
elem-append a [] ys = refl
elem-append a (x ∷ xs) ys = ground (arith, elem-append a xs ys)

carrier :
    (a : ℕ) (rows : List SyncEntry)
    → elem a (spaces_of_rows rows) ≡ true
    → (r : SyncEntry) × In r rows × (elem a r.space_ids ≡ true)
carrier a [] h = cc
carrier a (r ∷ rows) h = elim (Bool-cases (elem a r.space_ids)) [
  | inl e ↦ (r, inl refl, e)
  | inr e ↦
      let (x, i, f) =
        carrier a rows (ground (arith, e, h, elem-append a r.space_ids (spaces_of_rows rows))) in
      (x, inr i, f)
]

carried :
    (a : ℕ) (r : SyncEntry) (rows : List SyncEntry)
    → In r rows
    → elem a r.space_ids ≡ true
    → elem a (spaces_of_rows rows) ≡ true
carried a r [] i h = elim i [ ]
carried a r (x ∷ rows) (inl same) h =
    rw (elem-append a x.space_ids (spaces_of_rows rows))
      (ground (arith, ap (λ (y : SyncEntry). elem a y.space_ids) same, h))
carried a r (x ∷ rows) (inr i) h =
    rw (elem-append a x.space_ids (spaces_of_rows rows)) (ground (arith, carried a r rows i h))

-- A live entry of the blob's owner carries the blob into a space that the account is a member of.
abbrev pub IsShared : ℕ → Blob → Db → Type 0
IsShared uid b db =
    (r : SyncEntry) × (m : SpaceMembership) × In r db.entries
    × (r.blob_key ≡ some b.key)
    × (r.deleted_at ≡ none)
    × (r.user_id ≡ b.user_id)
    × In m db.memberships
    × (m.user_id ≡ uid)
    × (elem m.space_id r.space_ids ≡ true)

any_where-witness :
    {A : Type 0} (p : A → Bool) (xs : List A)
    → any_where p xs ≡ true
    → (x : A) × In x xs × (p x ≡ true)
any_where-witness p xs h =
    let (x, f) = first_where-any p xs h in let (i, e) = first_where-In p xs x f in (x, i, e)

shared_by-fields :
    (b : Blob) (r : SyncEntry)
    → is_shared_by b r ≡ true
    → (r.blob_key ≡ some b.key) × (r.deleted_at ≡ none) × (r.user_id ≡ b.user_id)
shared_by-fields b r h = named r.blob_key r.deleted_at h
  where
    named :
        (k d : Option ℕ)
        → ((eq_option k (some b.key) && is_none d) && r.user_id == b.user_id) ≡ true
        → (k ≡ some b.key) × (d ≡ none) × (r.user_id ≡ b.user_id)
    named none d e = cc
    named (some x) (some y) e = ground (arith, e)
    named (some x) none e = (ap some (ground (arith, e)), refl, ground (arith, e))

fields-shared_by :
    (b : Blob) (r : SyncEntry)
    → r.blob_key ≡ some b.key
    → r.deleted_at ≡ none
    → r.user_id ≡ b.user_id
    → is_shared_by b r ≡ true
fields-shared_by b r keyed live own = rw (keyed, live, own) (ground arith)

shares_space-IsShared :
    (uid : ℕ) (b : Blob) (db : Db) → shares_space_with_blob uid b db ≡ true → IsShared uid b db
unfolding shares_space_with_blob
shares_space-IsShared uid b db h =
    let (m, i, t) = any_where-witness _ db.memberships h in
    let (r, j, e) =
      carrier m.space_id (rows_where (is_shared_by b) db.entries) (ground (arith, t)) in
    let (k, s) = In-rows_where (is_shared_by b) r db.entries j in
    let (keyed, live, own) = shared_by-fields b r s in
    (r, m, k, keyed, live, own, i, ground (arith, t), e)

IsShared-shares_space :
    (uid : ℕ) (b : Blob) (db : Db) → IsShared uid b db → shares_space_with_blob uid b db ≡ true
unfolding shares_space_with_blob
IsShared-shares_space uid b db (r, m, k, keyed, live, mine, i, own, e) =
    In-any_where _ m db.memberships i (
      ground (
        arith,
        own,
        carried m.space_id r (rows_where (is_shared_by b) db.entries)
            (rows_where-In (is_shared_by b) r db.entries k (fields-shared_by b r keyed live mine))
            e,
      ))

-- A download URL is given exactly when the confirmed blob that is found under the key is the
-- caller's own, or a live entry of its owner carries it into a space that the caller is in.
pub get_download_url_iff :
    (uid key : ℕ) (db : Db)
    → (get_download_url uid key db ≡ ok key) ↔ (
        (b : Blob) × (first_where (is_confirmed_key key) db.blobs ≡ some b)
        × ((b.user_id ≡ uid) ⊎ IsShared uid b db))
unfolding get_download_url
get_download_url_iff uid key db = (given_url, makes_url)
  where
    given_url :
        get_download_url uid key db ≡ ok key
        → (b : Blob) × (first_where (is_confirmed_key key) db.blobs ≡ some b)
          × ((b.user_id ≡ uid) ⊎ IsShared uid b db)
    given_url h =
        let (b, e, k) = or_err-cases (first_where (is_confirmed_key key) db.blobs) _ _ _ h in
        let (allowed, k1) =
          guard-cases (b.user_id == uid || shares_space_with_blob uid b db) 404 "Blob not found"
            (ok key) k in
        (
          b,
          e,
          elim (Bool-cases (b.user_id == uid)) [
            | inl own ↦ inl ((==_iff b.user_id uid).0 own)
            | inr other ↦ inr (shares_space-IsShared uid b db (ground (arith, allowed, other)))
          ],
        )

    either :
        (own shared : Bool)
        → shared ≡ true
        → (guard (own || shared) 404 "Blob not found" >> ok key) ≡ ok key
    either true shared h = refl
    either false true h = refl
    either false false h = cc

    makes_url :
        ((b : Blob) × (first_where (is_confirmed_key key) db.blobs ≡ some b)
          × ((b.user_id ≡ uid) ⊎ IsShared uid b db))
        → get_download_url uid key db ≡ ok key
    makes_url (b, e, inl own) = rw (get_download_url, e, (==_iff b.user_id uid).1 own) refl
    makes_url (b, e, inr shared) =
        rw (get_download_url, e)
          (either (b.user_id == uid) (shares_space_with_blob uid b db)
            (IsShared-shares_space uid b db shared))
