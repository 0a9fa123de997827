-- ===== src/Spaces/Comments.antt =====
-- The comments of src/spaces/service.py: posting, listing, counting and deleting.
pub mod Threads
use rover_tools_orange_copy.Spaces.Members.{membership_of, find_space}
use rover_tools_orange_copy.Sync.Page.{insert_by, sort_by}
use rover_tools_orange_copy.Prelude.{
  leb, ◌>>=◌, ◌>>◌, or_err, guard, ok, is_some, not, any_where, ◌&&◌, ◌||◌, ◌∷◌, max, elem,
  rows_where, Reply, first_where, if◌then◌else◌, ◌==◌, Bool, ℕ, List, [], update_first, ◌+◌,
  delete_where,
}
use rover_tools_orange_copy.Store.{Env, Space, SpaceComment, same_type, Db, EntryType}

-- `_require_member`
unfoldable pub require_member : ℕ → ℕ → Db → Reply Space
require_member space uid db = do
  s ← or_err (find_space space db) 404 "Space not found"
  guard (is_some (membership_of space uid db)) 403 "Not a member"
  ok s

-- `CreateCommentRequest`
pub record CreateCommentRequest : Type 0 where
  pub client_id : ℕ
  pub entry_type : EntryType
  pub encrypted_body : ℕ
  pub wrapped_key : ℕ

abbrev pub new_comment : ℕ → ℕ → CreateCommentRequest → Env → SpaceComment
new_comment space uid req env = record {
  id = env.new_id;
  space_id = space;
  client_id = req.client_id;
  entry_type = req.entry_type;
  author_id = uid;
  encrypted_body = req.encrypted_body;
  wrapped_key = req.wrapped_key;
  created_at = env.now;
}

-- `add_comment`
unfoldable pub add_comment : ℕ → ℕ → CreateCommentRequest → Env → Db → Reply (SpaceComment × Db)
unfolding require_member
add_comment space uid req env db = do
  s ← require_member space uid db
  ok (
    new_comment space uid req env,
    record db { comments = new_comment space uid req env ∷ db.comments },
  )

-- A comment on this entry in this space.
abbrev pub in_thread : ℕ → ℕ → EntryType → SpaceComment → Bool
in_thread space client t c =
    c.space_id == space && c.client_id == client && same_type c.entry_type t

-- `ORDER BY created_at`, which leaves the order of equal times open.
abbrev pub by_created : SpaceComment → SpaceComment → Bool
by_created c d = leb c.created_at d.created_at

-- `list_comments`
unfoldable pub list_comments : ℕ → ℕ → ℕ → EntryType → Db → Reply (List SpaceComment)
unfolding require_member sort_by insert_by
list_comments space uid client t db = do
  s ← require_member space uid db
  ok (sort_by by_created (rows_where (in_thread space client t) db.comments))

-- `CommentCountOut`
pub record CommentCountOut : Type 0 where
  pub client_id : ℕ
  pub entry_type : EntryType
  pub count : ℕ
  pub latest_at : ℕ

abbrev pub is_entry : ℕ → EntryType → CommentCountOut → Bool
is_entry client t g = g.client_id == client && same_type g.entry_type t

-- One more row for `GROUP BY client_id, entry_type`.
abbrev pub count_comment : SpaceComment → List CommentCountOut → List CommentCountOut
count_comment c groups =
    if any_where (is_entry c.client_id c.entry_type) groups
    then update_first (is_entry c.client_id c.entry_type)
        (λ g. record g { count = g.count + 1; latest_at = max c.created_at g.latest_at }) groups
    else record {
      client_id = c.client_id;
      entry_type = c.entry_type;
      count = 1;
      latest_at = c.created_at;
    }
      ∷ groups

unfoldable pub count_comments : List SpaceComment → List CommentCountOut
count_comments [] = []
count_comments (c ∷ cs) = count_comment c (count_comments cs)

-- `comment_counts`
unfoldable pub comment_counts : ℕ → ℕ → Db → Reply (List CommentCountOut)
unfolding require_member count_comments
comment_counts space uid db = do
  s ← require_member space uid db
  ok (count_comments (rows_where (λ (c : SpaceComment). c.space_id == space) db.comments))

-- `delete_comment`: the row as it was.
unfoldable pub delete_comment : ℕ → ℕ → ℕ → Db → Reply (SpaceComment × Db)
unfolding require_member
delete_comment space comment uid db = do
  s ← require_member space uid db
  c ←
      or_err
        (first_where (λ (x : SpaceComment). x.id == comment && x.space_id == space) db.comments) 404
        "Comment not found"
  guard (c.author_id == uid || s.owner_id == uid) 403
      "Only the space owner or the member who wrote this comment can delete it."
  ok (c, record db { comments = delete_where (λ (x : SpaceComment). x.id == comment) db.comments })
