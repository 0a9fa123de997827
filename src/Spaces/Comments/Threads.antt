-- ===== src/Spaces/Comments/Threads.antt =====
-- The counts of the comments agree with the threads.
use rover_tools_orange_copy.Sync.Page.Sorted.{count-sort_by}
use rover_tools_orange_copy.Sync.Page.{sort_by}
use rover_tools_orange_copy.Sync.Recorded.{same_type_refl, same_type-eq}
use rover_tools_orange_copy.Prelude.{
  any_where-none, count-congr, first_where-In, count-rows_where, first_where-update_first,
  first_where-any, first_where-update_other, inr, ok-injective, >>=-returned, any_where, sym, inl,
  max, subst, ◌>>=◌, Bool, Bool-cases, false, rows_where, true, refl, [], arith, ◌∙◌, ◌∷◌, bit,
  ◌&&◌, ◌+◌, ◌==◌, count_where, length, none, ok, first_where, some, ◌≡◌, List, Option, ℕ,
}
use rover_tools_orange_copy.Store.{same_type, EntryType, SpaceComment, Db}
use rover_tools_orange_copy.Spaces.Comments.{
  by_created, in_thread, require_member, count_comment, is_entry, CommentCountOut, list_comments,
  comment_counts, count_comments,
}

-- The number that the groups give for an entry.
abbrev pub counted : Option CommentCountOut → ℕ
counted none = 0
counted (some g) = g.count

types_apart :
    (a b c : EntryType) → same_type a b ≡ true → same_type b c ≡ false → same_type a c ≡ false
types_apart a b c h k = subst (λ z. same_type z c ≡ false) (sym (same_type-eq a b h)) k

bump_own :
    (c : SpaceComment) (gs : List CommentCountOut)
    → counted (first_where (is_entry c.client_id c.entry_type) (count_comment c gs))
      ≡ counted (first_where (is_entry c.client_id c.entry_type) gs) + 1
bump_own c gs = elim (Bool-cases (any_where key gs)) [
  | inl e ↦
      let (g, f) = first_where-any key gs e in
      rw (e, first_where-update_first key grow gs g f (first_where-In key gs g f).1, f) refl
  | inr e ↦ rw (e, any_where-none key gs e, same_type_refl c.entry_type) (ground arith)
]
  where
    key : CommentCountOut → Bool
    key = is_entry c.client_id c.entry_type

    grow : CommentCountOut → CommentCountOut
    grow g = record g { count = g.count + 1; latest_at = max c.created_at g.latest_at }

bump_other :
    (c : SpaceComment) (client : ℕ) (t : EntryType) (gs : List CommentCountOut)
    → (c.client_id == client && same_type c.entry_type t) ≡ false
    → first_where (is_entry client t) (count_comment c gs) ≡ first_where (is_entry client t) gs
bump_other c client t gs h = elim (Bool-cases (any_where key gs)) [
  | inl e ↦
      rw e
        (first_where-update_other key (is_entry client t) grow gs (λ x k. (apart x k, apart x k)))
  | inr e ↦ rw (e, h) refl
]
  where
    key : CommentCountOut → Bool
    key = is_entry c.client_id c.entry_type

    grow : CommentCountOut → CommentCountOut
    grow g = record g { count = g.count + 1; latest_at = max c.created_at g.latest_at }

    apart : (x : CommentCountOut) → key x ≡ true → is_entry client t x ≡ false
    apart x k = ground (arith, k, h, types_apart x.entry_type c.entry_type t)

bump :
    (c : SpaceComment) (client : ℕ) (t : EntryType) (gs : List CommentCountOut)
    → counted (first_where (is_entry client t) (count_comment c gs))
      ≡ counted (first_where (is_entry client t) gs)
        + bit (c.client_id == client && same_type c.entry_type t)
bump c client t gs = elim (Bool-cases (c.client_id == client && same_type c.entry_type t)) [
  | inl same ↦ rw same (
      subst
        (λ n.
          counted (first_where (is_entry n t) (count_comment c gs))
          ≡ counted (first_where (is_entry n t) gs) + 1)
        (ground (arith, same))
        (subst
          (λ u.
            counted (first_where (is_entry c.client_id u) (count_comment c gs))
            ≡ counted (first_where (is_entry c.client_id u) gs) + 1)
          (same_type-eq c.entry_type t (ground (arith, same))) (bump_own c gs)))
  | inr other ↦ rw (other, bump_other c client t gs other) (ground arith)
]

count_comments-count :
    (client : ℕ) (t : EntryType) (cs : List SpaceComment)
    → counted (first_where (is_entry client t) (count_comments cs))
      ≡ count_where (λ (c : SpaceComment). c.client_id == client && same_type c.entry_type t) cs
unfolding count_comments
count_comments-count client t [] = refl
count_comments-count client t (c ∷ cs) =
    bump c client t (count_comments cs) ∙ ground (arith, count_comments-count client t cs)

length-count : {A : Type 0} (xs : List A) → length xs ≡ count_where (λ x. true) xs
length-count [] = refl
length-count (x ∷ xs) = omega (arith, length-count xs)

require_member-returned :
    {A : Type 0} (space uid : ℕ) (db : Db) (a out : A)
    → (require_member space uid db >>= λ s. ok a) ≡ ok out
    → a ≡ out
require_member-returned space uid db a out h =
    let (s, e, k) = >>=-returned (require_member space uid db) _ h in ok-injective k

-- The count that a member is given for an entry is the length of the thread that any member is
-- given for it.
pub comment_counts-length :
    (space uid reader client : ℕ) (t : EntryType) (db : Db) (groups : List CommentCountOut)
    (thread : List SpaceComment)
    → comment_counts space uid db ≡ ok groups
    → list_comments space reader client t db ≡ ok thread
    → counted (first_where (is_entry client t) groups) ≡ length thread
unfolding comment_counts list_comments
comment_counts-length space uid reader client t db groups thread h k =
    let e = require_member-returned space uid db (count_comments here) groups h in
    let f = require_member-returned space reader db (sort_by by_created mine) thread k in
    subst (λ g. counted (first_where (is_entry client t) g) ≡ length thread) e
      (subst (λ l. counted (first_where (is_entry client t) (count_comments here)) ≡ length l) f
        (count_comments-count client t here
          ∙ count-rows_where _ (λ (c : SpaceComment). c.space_id == space) db.comments
          ∙ count-congr _ _ db.comments (λ c i. ground arith)
          ∙ sym (count-rows_where (λ c. true) (in_thread space client t) db.comments)
          ∙ sym (count-sort_by by_created (λ c. true) mine)
          ∙ sym (length-count (sort_by by_created mine))))
  where
    here : List SpaceComment
    here = rows_where (λ (c : SpaceComment). c.space_id == space) db.comments

    mine : List SpaceComment
    mine = rows_where (in_thread space client t) db.comments
