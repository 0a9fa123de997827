-- ===== src/Announcements.antt =====
-- The announcements of src/announcements/service.py: what an account is handed, posting and
-- withdrawing.
use rover_tools_orange_copy.Blobs.{has_profile_id}
use rover_tools_orange_copy.Realtime.{Channel}
use rover_tools_orange_copy.Prelude.{
  ◌>>=◌, err, ok, Reply, ℕ, Bool, true, false, Option, none, some, List, ◌∷◌, ◌==◌, ◌&&◌, ◌||◌,
  if◌then◌else◌, ltb, leb, rows_where, delete_where, any_where, eq_option, is_none, max, ◌-◌, ◌*◌,
  ◌+◌,
}
use rover_tools_orange_copy.Store.{Db, Env}
use rover_tools_orange_copy.Store.Accounts.{Announcement}
use rover_tools_orange_copy.Sync.Page.{sort_by}
use rover_tools_orange_copy.Prelude.Lists.{take}

-- 30 days.
abbrev pub lookback_ms : ℕ
lookback_ms = 30 * 24 * 60 * 60 * 1000

abbrev pub max_returned : ℕ
max_returned = 100

-- `max(since or 0, now - LOOKBACK_MS)`
abbrev pub floor_of : Option ℕ → ℕ → ℕ
floor_of none now = now - lookback_ms
floor_of (some since) now = max since (now - lookback_ms)

-- Addressed to the account or to everyone, after the floor, and not expired.
abbrev pub is_owed : ℕ → ℕ → ℕ → Announcement → Bool
is_owed uid floor now a =
    (eq_option a.user_id (some uid) || is_none a.user_id)
    && ltb floor a.created_at
    && is_current a.expires_at
  where
    is_current : Option ℕ → Bool
    is_current none = true
    is_current (some t) = ltb now t

-- `ORDER BY created_at DESC`, which leaves the order of equal times open.
abbrev pub newest_first : Announcement → Announcement → Bool
newest_first a b = leb b.created_at a.created_at

-- `list_for_user`
unfoldable pub list_for_user : ℕ → Option ℕ → ℕ → Db → List Announcement
unfolding sort_by
list_for_user uid since now db =
    take max_returned
      (sort_by newest_first (rows_where (is_owed uid (floor_of since now) now) db.announcements))

-- `AnnouncementCreateRequest`; a target is absent, a text that is no UUID, or a UUID.
pub record AnnouncementCreateRequest : Type 0 where
  pub title : ℕ
  pub body : ℕ
  pub kind : ℕ
  pub user_id : Option (Option ℕ)
  pub payload : ℕ
  pub ttl_ms : Option ℕ

-- Whom the request addresses, or the ValueError, which the route answers with 400.
abbrev pub target_of : Option (Option ℕ) → Db → Reply (Option ℕ)
target_of none db = ok none
target_of (some none) db = err 400 "user_id is not a uuid"
target_of (some (some uid)) db =
    if any_where (has_profile_id uid) db.profiles then ok (some uid) else err 400 "No such user"

abbrev pub expiry : Option ℕ → ℕ → Option ℕ
expiry none now = none
expiry (some ttl) now = if ttl == 0 then none else some (now + ttl)

abbrev pub new_announcement : Option ℕ → AnnouncementCreateRequest → Env → Announcement
new_announcement target req env = record {
  id = env.new_id;
  user_id = target;
  kind = req.kind;
  title = req.title;
  body = req.body;
  payload = req.payload;
  created_at = env.now;
  expires_at = expiry req.ttl_ms env.now;
}

-- `create`
unfoldable pub create : AnnouncementCreateRequest → Env → Db → Reply (Announcement × Db)
create req env db = do
  target ← target_of req.user_id db
  ok (
    new_announcement target req env,
    record db { announcements = new_announcement target req env ∷ db.announcements },
  )

-- `remove`; an id that is no UUID names no row.
unfoldable pub remove : Option ℕ → Db → Bool × Db
remove none db = (false, db)
remove (some id) db =
    if any_where (λ (a : Announcement). a.id == id) db.announcements
    then (
      true,
      record db {
        announcements = delete_where (λ (a : Announcement). a.id == id) db.announcements;
      },
    )
    else (false, db)

-- The channel of `publish_announcement`.
abbrev pub announcement_channel : Option ℕ → Channel
announcement_channel none = Channel.broadcast
announcement_channel (some uid) = Channel.of_user uid

-- `create_announcement` of the router: the row, and the channel that it is pushed to.
unfoldable pub create_announcement :
    AnnouncementCreateRequest → Env → Db → Reply ((Announcement × Channel) × Db)
unfolding create
create_announcement req env db = do
  made ← create req env db
  ok ((made.0, announcement_channel made.0.user_id), made.1)
