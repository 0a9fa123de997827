-- ===== src/Sync/Push.antt =====
-- `push_entries` of src/sync/service.py. The proofs are in the modules below.
pub mod Cases
pub mod Budget
pub mod Loop
pub mod Cap
pub mod Rivals
pub mod Rows
pub mod Accepted
pub mod Gaps
use rover_tools_orange_copy.Prelude.Int.{sub_ℕ}
use rover_tools_orange_copy.Prelude.{
  ℕ, suc, ◌*◌, List, [], ◌∷◌, ◌++◌, Reply, ok, err, ◌>>=◌, count_where,
}
use rover_tools_orange_copy.Store.{Db, Env}
use rover_tools_orange_copy.Sync.Entry.{
  Limits, tombstone_cap_factor, PushEntry, AcceptedEntry, ConflictEntry, Outcome, Withdrawal, Room,
  Work, is_live, is_buried, accepted, conflict,
}
use rover_tools_orange_copy.Sync.Upsert.{upsert_entry}

pub record Pushed : Type 0 where
  pub accepted : List AcceptedEntry
  pub conflicts : List ConflictEntry
  pub withdrawals : List Withdrawal

-- One round of the loop of `push_entries` on the three result lists.
abbrev pub note_result : PushEntry → Outcome → List ℕ → Pushed → Pushed
note_result e (accepted a) [] out = record out { accepted = out.accepted ++ a ∷ [] }
note_result e (accepted a) (s ∷ ss) out = record out {
  accepted = out.accepted ++ a ∷ [];
  withdrawals =
      out.withdrawals
      ++ record { client_id = e.client_id; entry_type = e.entry_type; space_ids = s ∷ ss } ∷ [];
}
note_result e (conflict c) dropped out = record out { conflicts = out.conflicts ++ c ∷ [] }

unfoldable pub push_loop :
    Limits → ℕ → ℕ → (ℕ → Env) → ℕ → List PushEntry → Work → Pushed → Reply (Pushed × Work)
push_loop cfg uid did env i [] w out = ok (out, w)
push_loop cfg uid did env i (e ∷ es) w out = upsert_entry cfg uid did e (env i) w >>= λ r.
    push_loop cfg uid did env (suc i) es r.2 (note_result e r.0 r.1 out)

abbrev pub initial_room : Limits → ℕ → Db → Room
initial_room cfg uid db = record {
  live = sub_ℕ cfg.max_entries_per_user (count_where (is_live uid) db.entries);
  tombstones =
      sub_ℕ (cfg.max_entries_per_user * tombstone_cap_factor)
        (count_where (is_buried uid) db.entries);
}

-- The database after the request: the loop's on commit, the old one on rollback.
abbrev pub settle : Db → Reply (Pushed × Work) → Reply Pushed × Db
settle db (ok (out, w)) = (ok out, w.db)
settle db (err s d) = (err s d, db)

-- `push_entries`; `env i` is what the i-th entry's round reads from outside.
unfoldable pub push_entries : Limits → ℕ → ℕ → (ℕ → Env) → List PushEntry → Db → Reply Pushed × Db
unfolding push_loop
push_entries cfg uid did env es db = settle db (
    push_loop cfg uid did env 0 es (record { db = db; room = initial_room cfg uid db })
      (record { accepted = []; conflicts = []; withdrawals = [] }))
