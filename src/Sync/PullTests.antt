-- ===== src/Sync/PullTests.antt =====
-- The pull side of the sync service at concrete inputs: account 2 reads what account 1 shared with
-- space 3, three entries of which two have one time.
use rover_tools_orange_copy.Sync.Page.Complete.{page_complete, UpTo}
use rover_tools_orange_copy.Sync.Account.{account_breakdown, update_cursor}
use rover_tools_orange_copy.Sync.Pull.Everything.{
  pull_all_complete, IsEverything, pull_all, remaining,
}
use rover_tools_orange_copy.Store.{SyncEntry, Db}
use rover_tools_orange_copy.Sync.Account.Tally.{account_breakdown-IsBreakdown, IsBreakdown}
use rover_tools_orange_copy.Sync.Account.Cursor.{update_cursor_moves, cursor_of}
use rover_tools_orange_copy.Sync.Pull.Views.{pull-IsFit, IsFit}
use rover_tools_orange_copy.Prelude.{arith, inl, refl, some, Option, [], ◌≡◌, none, ◌∷◌, List, ℕ}
use rover_tools_orange_copy.Store.Wraps.{
  trim, kept, wrap_of, without, WrappedKeys, KeyName, JsonValue,
}
use rover_tools_orange_copy.Sync.Page.{sort_by, page}
use rover_tools_orange_copy.Sync.Tests.{db, stored, withdrawn_3}
use rover_tools_orange_copy.Sync.Pull.{
  views, entry_view, Pulled, pull_entries, visible_entries, visible_removals,
}

abbrev shared : ℕ → ℕ → SyncEntry
shared i t = record stored { id = i; client_id = i; server_ts = t }

abbrev busy : Db
busy = record db {
  entries = shared 102 12 ∷ stored ∷ shared 101 12 ∷ [];
  removals = record withdrawn_3 { client_id = 9 } ∷ [];
}

-- What account 2 sees of the entry: the one space and its wrap.
abbrev shown_2 : SyncEntry
shown_2 = record stored {
  space_ids = 3 ∷ [];
  wrapped_keys = WrappedKeys.dict ((KeyName.of_space 3, JsonValue.val 2) ∷ []);
}

-- The first page holds one entry: the cursor stops before the two of one time.
first_pull :
    pull_entries 2 0 1 none busy
    ≡ some (record {
      entries = shown_2 ∷ [];
      removals = record withdrawn_3 { client_id = 9 } ∷ [];
      next = some 11;
    })
unfolding pull_entries visible_entries visible_removals page sort_by views entry_view trim kept
    wrap_of without
first_pull = refl

page_complete_example :
    (out : List SyncEntry) × (next : Option ℕ) × (page
        (λ (r : SyncEntry). r.server_ts)
        (λ r. r.id)
        2
        busy.entries
      ≡ some (out, next))
    × UpTo (λ (r : SyncEntry). r.server_ts) busy.entries out next
page_complete_example =
    page_complete (λ (r : SyncEntry). r.server_ts) (λ r. r.id) 2 busy.entries (omega arith)

-- One entry of account 1 whose wraps raise the error fails the pull of account 2, which is in
-- the entry's space.
abbrev spoilt : SyncEntry
spoilt = record stored { wrapped_keys = WrappedKeys.unreadable 1 }

failed_pull : pull_entries 2 0 1 none (record busy { entries = spoilt ∷ [] }) ≡ none
unfolding pull_entries visible_entries visible_removals page sort_by views entry_view trim
failed_pull = refl

-- The author pulls it all the same.
author_pull :
    pull_entries 1 0 2 none (record busy { entries = spoilt ∷ []; removals = [] })
    ≡ some (record { entries = spoilt ∷ []; removals = []; next = none })
unfolding pull_entries visible_entries visible_removals page sort_by views entry_view trim
author_pull = refl

pull_all_complete_example :
    (ps : List Pulled) × (pull_all 2 1 none busy 5 0 ≡ some ps) × IsEverything 2 0 1 none busy ps
unfolding remaining visible_entries visible_removals
pull_all_complete_example = pull_all_complete 2 1 none busy 5 0 (omega arith) refl (omega arith)

pull-IsFit_example : IsFit 2 (3 ∷ []) shown_2
pull-IsFit_example = pull-IsFit 2 0 1 none busy _ shown_2 first_pull (inl refl)

update_cursor_moves_example :
    cursor_of 5
      (update_cursor 5 1 20 (record { device_id = 5; user_id = 1; last_server_ts = 30 } ∷ []))
    ≡ some (record { device_id = 5; user_id = 1; last_server_ts = 30 })
update_cursor_moves_example =
    update_cursor_moves 5 1 20 5 (record { device_id = 5; user_id = 1; last_server_ts = 30 } ∷ [])

account_breakdown-IsBreakdown_example :
    IsBreakdown 1 busy.entries (account_breakdown 1 busy.entries)
account_breakdown-IsBreakdown_example = account_breakdown-IsBreakdown 1 busy.entries
