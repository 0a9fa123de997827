-- ===== src/Sync/Account.antt =====
-- `update_cursor` and `account_breakdown` of src/sync/service.py.
pub mod Cursor
pub mod Tally
use rover_tools_orange_copy.Sync.Entry.{is_live}
use rover_tools_orange_copy.Prelude.Int.{◌-ℤ◌, pos, ℤ}
use rover_tools_orange_copy.Store.{same_type, SyncCursor, EntryKind, EntryType, SyncEntry}
use rover_tools_orange_copy.Prelude.{
  ltb, update_first, ◌&&◌, ◌==◌, any_where, some, [], false, if◌then◌else◌, none, true, Bool,
  rows_where, ◌+◌, ◌∷◌, List, Option, ℕ,
}

-- The statement's `ON CONFLICT ... DO UPDATE ... WHERE`: forward only, and on the caller's row only.
unfoldable pub update_cursor : ℕ → ℕ → ℕ → List SyncCursor → List SyncCursor
update_cursor did uid last rows =
    if any_where (λ (c : SyncCursor). c.device_id == did) rows
    then update_first (λ (c : SyncCursor). c.device_id == did)
        (λ c.
          if c.user_id == uid && ltb c.last_server_ts last
          then record c { last_server_ts = last }
          else c)
        rows
    else record { device_id = did; user_id = uid; last_server_ts = last } ∷ rows

-- A row of `GROUP BY entry_type, kind`.
pub record Group : Type 0 where
  pub entry_type : EntryType
  pub kind : Option EntryKind
  pub count : ℕ

abbrev pub same_kind : EntryKind → EntryKind → Bool
same_kind EntryKind.text EntryKind.text = true
same_kind EntryKind.image EntryKind.image = true
same_kind EntryKind.html EntryKind.html = true
same_kind EntryKind.file EntryKind.file = true
same_kind EntryKind.note EntryKind.note = true
same_kind EntryKind.blank EntryKind.blank = true
same_kind _ _ = false

abbrev pub is_kind : EntryKind → Option EntryKind → Bool
is_kind k none = false
is_kind k (some j) = same_kind j k

abbrev pub same_kinds : Option EntryKind → Option EntryKind → Bool
same_kinds none none = true
same_kinds none (some k) = false
same_kinds (some j) none = false
same_kinds (some j) (some k) = same_kind j k

-- One row counted into the groups.
unfoldable pub add_to_groups : SyncEntry → List Group → List Group
add_to_groups r [] = record { entry_type = r.entry_type; kind = r.kind; count = 1 } ∷ []
add_to_groups r (g ∷ gs) =
    let rest = add_to_groups r gs in
    if same_type g.entry_type r.entry_type && same_kinds g.kind r.kind
    then record g { count = g.count + 1 } ∷ gs
    else g ∷ rest

unfoldable pub group_by_kind : List SyncEntry → List Group
unfolding add_to_groups
group_by_kind [] = []
group_by_kind (r ∷ rows) = add_to_groups r (group_by_kind rows)

-- The counters of the loop.
pub record Counts : Type 0 where
  pub notes : ℕ
  pub clipboard : ℕ
  pub image : ℕ
  pub file : ℕ
  pub html : ℕ

unfoldable pub count_group : Group → Counts → Counts
count_group g c = elim g.entry_type [
  | EntryType.note ↦ record c { notes = c.notes + g.count }
  | EntryType.clipboard ↦ record c {
    clipboard = c.clipboard + g.count;
    image = if is_kind EntryKind.image g.kind then c.image + g.count else c.image;
    file = if is_kind EntryKind.file g.kind then c.file + g.count else c.file;
    html = if is_kind EntryKind.html g.kind then c.html + g.count else c.html;
  }
]

unfoldable pub count_groups : List Group → Counts → Counts
unfolding count_group
count_groups [] c = c
count_groups (g ∷ gs) c = count_groups gs (count_group g c)

pub record BreakdownOut : Type 0 where
  pub clipboard : ℕ
  pub notes : ℕ
  pub total : ℕ
  pub text : ℤ
  pub image : ℕ
  pub file : ℕ
  pub html : ℕ

-- `account_breakdown`
unfoldable pub account_breakdown : ℕ → List SyncEntry → BreakdownOut
unfolding count_groups group_by_kind
account_breakdown uid rows =
    let c =
      count_groups (group_by_kind (rows_where (is_live uid) rows))
        (record { notes = 0; clipboard = 0; image = 0; file = 0; html = 0 }) in
    record {
      clipboard = c.clipboard;
      notes = c.notes;
      total = c.clipboard + c.notes;
      text = pos c.clipboard -ℤ pos c.image -ℤ pos c.file -ℤ pos c.html;
      image = c.image;
      file = c.file;
      html = c.html;
    }
