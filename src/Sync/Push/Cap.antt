-- ===== src/Sync/Push/Cap.antt =====
-- The live-row cap over a whole push.
use rover_tools_orange_copy.Prelude.Int.{sub_ℕ_parts}
use rover_tools_orange_copy.Prelude.{arith, max, ◌≤◌}
use rover_tools_orange_copy.Sync.Push.{Db, List, Env, ℕ, push_entries}
use rover_tools_orange_copy.Sync.Entry.{Limits, PushEntry}
use rover_tools_orange_copy.Sync.Push.Loop.{push_induction}
use rover_tools_orange_copy.Sync.Push.Budget.{Fits, live_rows, upsert-Fits}

module _ (cfg : Limits) (uid did : ℕ) (env : ℕ → Env) (es : List PushEntry) (db : Db) where
  -- Whatever is pushed, and however it ends, an account holds afterwards no more live rows than
  -- the cap, or than it held before if that was more.
  pub push-live-le :
      live_rows uid (push_entries cfg uid did env es db).1
      ≤ max cfg.max_entries_per_user (live_rows uid db)
  push-live-le =
      push_induction cfg uid did (Fits cfg uid (live_rows uid db))
        (record {
          at = λ e v w r p ends. upsert-Fits cfg uid did (live_rows uid db) e v w p r ends;
        })
        (λ d. live_rows uid d ≤ max cfg.max_entries_per_user (live_rows uid db)) (λ w p. p.within)
        env es db
        (record {
          honest = omega (arith, sub_ℕ_parts cfg.max_entries_per_user (live_rows uid db));
          within = omega arith;
        })
