-- ===== src/Sync/Push/Loop.antt =====
-- What every accepted entry keeps, the whole push keeps.
use rover_tools_orange_copy.Sync.Upsert.{upsert_entry}
use rover_tools_orange_copy.Prelude.{refl, suc, >>=-returned, err, ◌∷◌, ok-injective, ok, ◌≡◌}
use rover_tools_orange_copy.Sync.Push.Cases.{upsert-Ends, Ends}
use rover_tools_orange_copy.Sync.Push.{
  note_result, settle, [], Reply, Pushed, initial_room, List, Db, Env, ℕ, push_loop, push_entries,
}
use rover_tools_orange_copy.Sync.Entry.{Limits, PushEntry, Outcome}
use rover_tools_orange_copy.Sync.Entry.{Work}

module _ (cfg : Limits) (uid did : ℕ) (P : Work → Type 0) where
  -- A property of the transaction that each entry's round keeps.
  pub record Kept : Type 0 where
    pub at :
        (e : PushEntry) (env : Env) (w : Work) (r : Outcome × List ℕ × Work)
        → P w
        → Ends cfg uid did e env w r
        → P r.2

  pub loop_induction :
      Kept
      → (env : ℕ → Env) (i : ℕ) (es : List PushEntry) (w : Work) (out : Pushed) (r : Pushed × Work)
      → P w
      → push_loop cfg uid did env i es w out ≡ ok r
      → P r.1
  unfolding push_loop
  loop_induction step env i [] w out r p h = rw (← ok-injective h) p
  loop_induction step env i (e ∷ es) w out r p h =
      let (q, now, later) = >>=-returned (upsert_entry cfg uid did e (env i) w) _ h in
      loop_induction step env (suc i) es q.2 (note_result e q.0 q.1 out) r
        (step.at e (env i) w q p (upsert-Ends cfg uid did e (env i) w q now)) later

  -- The database that a push leaves: a rolled back one is the old one.
  pub push_induction :
      Kept
      → (Q : Db → Type 0) → ((w : Work) → P w → Q w.db)
      → (env : ℕ → Env) (es : List PushEntry) (db : Db)
      → P (record { db = db; room = initial_room cfg uid db })
      → Q (push_entries cfg uid did env es db).1
  unfolding push_entries
  push_induction step Q view env es db p = settled (push_loop cfg uid did env 0 es _ _) refl
    where
      settled :
          (reply : Reply (Pushed × Work))
          → push_loop cfg uid did env 0 es
              (record { db = db; room = initial_room cfg uid db })
              (record { accepted = []; conflicts = []; withdrawals = [] })
            ≡ reply
          → Q (settle db reply).1
      settled (ok r) h = view r.1 (loop_induction step env 0 es _ _ r p h)
      settled (err s d) h = view (record { db = db; room = initial_room cfg uid db }) p
