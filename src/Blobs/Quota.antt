-- ===== src/Blobs/Quota.antt =====
-- What an account is charged for stays within its quota, whatever calls and jobs follow.
use rover_tools_orange_copy.Maintenance.{
  is_orphan, is_unreferenced, unless, prune_space_entry_removals, cleanup_orphan_blobs,
  release_unreferenced_blobs, hourly_pass, Faults,
}
use rover_tools_orange_copy.Prelude.{
  ◌&&◌, Reply-cases, ◌∙◌, sym, Option-cases, ap, ok-injective, first_where-In, guard-cases,
  >>=-returned, ltb, or_err-cases, subst, inr, ◌==◌, if◌then◌else◌, inl, ◌+◌, Bool-cases,
  update_first, arith, Option, ◌≤◌, Reply, sum_where, List, first_where, ◌≡◌, Bool, ℕ, none, some,
  ok, err, true, false, ◌∷◌,
}
use rover_tools_orange_copy.Store.{Blob, Db}
use rover_tools_orange_copy.Blobs.{
  new_blob, mismatched, set_confirmed, drop_mismatched, ObjectHead, blob_size, is_charged,
  release_upload, confirm_upload, is_own_blob, used_bytes, Storage, RequestUploadBody, charge,
  judge_upload, quota_bytes, request_upload,
}
use rover_tools_orange_copy.Blobs.Sums.{
  sum-delete_where, sum-unconfirm_where, sum-unconfirm_first, sum-confirm,
}

-- The quota of the account is `quota`, and it is not exceeded.
pub record IsWithin (uid quota : ℕ) (db : Db) : Type 0 where
  pub granted : quota_bytes uid db ≡ ok quota
  pub charged : used_bytes uid db ≤ quota

pub data Step : Db → Db → Type 0 where
  requested :
      (uid : ℕ) (body : RequestUploadBody) (fresh now created key : ℕ) (db db' : Db)
      → request_upload uid body fresh now created db ≡ ok (key, db')
      → Step db db'
  confirmed :
      (store : Storage) (uid key : ℕ) (db : Db) → Step db (confirm_upload store uid key db).1
  released : (uid key : ℕ) (db db' : Db) → release_upload uid key db ≡ ok db' → Step db db'
  maintained :
      (store : Storage) (faults : Faults) (now1 now2 now3 : ℕ) (db : Db)
      → Step db (hourly_pass store faults now1 now2 now3 db)

pub data Steps : Db → Db → Type 0 where
  done : (db : Db) → Steps db db
  step : (a b c : Db) → Step a b → Steps b c → Steps a c

module _ (uid quota : ℕ) where
  -- A change of the blobs alone that charges no more.
  blobs-IsWithin :
      (db : Db) (blobs : List Blob)
      → sum_where (is_charged uid) blob_size blobs ≤ quota
      → IsWithin uid quota db
      → IsWithin uid quota (record db { blobs = blobs })
  unfolding quota_bytes
  blobs-IsWithin db blobs le w = record {
    granted = w.granted;
    charged = omega (arith, le, w.charged);
  }

  charge-IsWithin :
      (actor : ℕ) (b : Blob) (db : Db)
      → first_where (is_own_blob actor b.key) db.blobs ≡ some b
      → IsWithin uid quota db
      → IsWithin uid quota (charge actor b db).1
  unfolding charge
  charge-IsWithin actor b db found w = elim (Reply-cases (quota_bytes actor db)) [
    | inl (status, detail, e) ↦ rw (charge, e) w
    | inr (q, e) ↦ elim (Bool-cases (ltb q (used_bytes actor db + b.size_bytes))) [
      | inl full ↦ rw (charge, e, full) w
      | inr fits ↦ rw (charge, e, fits) (blobs-IsWithin db _ (within q e fits) w)
    ]
  ]
    where
      within :
          (q : ℕ)
          → quota_bytes actor db ≡ ok q
          → ltb q (used_bytes actor db + b.size_bytes) ≡ false
          → sum_where
              (is_charged uid)
              blob_size
              (update_first (is_own_blob actor b.key) (set_confirmed true) db.blobs)
            ≤ quota
      within q e fits = elim (Bool-cases (b.user_id == uid)) [
        | inl mine ↦
            let acts : actor ≡ uid =
              ground (arith, mine, (first_where-In (is_own_blob actor b.key) db.blobs b found).1) in
            let limit : q ≡ quota =
              ok-injective (sym e ∙ ap (λ u. quota_bytes u db) acts ∙ w.granted) in
            ground (
              arith,
              fits,
              limit,
              mine,
              ap (λ u. used_bytes u db) acts,
              sum-confirm uid (is_own_blob actor b.key) db.blobs b found,
            )
        | inr other ↦
            ground
              (arith, other, w.charged, sum-confirm uid (is_own_blob actor b.key) db.blobs b found)
      ]

  judged-IsWithin :
      (store : Storage) (actor : ℕ) (b : Blob) (head : Reply (Option ObjectHead)) (db : Db)
      → first_where (is_own_blob actor b.key) db.blobs ≡ some b
      → IsWithin uid quota db
      → IsWithin uid quota (judge_upload store actor b head db).1
  unfolding judge_upload
  judged-IsWithin store actor b (err status detail) db found w = w
  judged-IsWithin store actor b (ok none) db found w = w
  judged-IsWithin store actor b (ok (some h)) db found w =
      elim (Bool-cases (mismatched store b h)) [
        | inl e ↦ rw e (dropped (store.deletes b.key))
        | inr e ↦ rw e (charge-IsWithin actor b db found w)
      ]
    where
      dropped :
          (deletes : Bool)
          → IsWithin uid quota (drop_mismatched (record store { deletes = λ k. deletes }) b db).1
      dropped true =
          blobs-IsWithin db _
            (omega (
              arith,
              sum-delete_where (is_charged uid) (λ (x : Blob). x.key == b.key) blob_size db.blobs,
              w.charged,
            ))
            w
      dropped false = w

  confirmed-IsWithin :
      (store : Storage) (actor key : ℕ) (db : Db)
      → IsWithin uid quota db
      → IsWithin uid quota (confirm_upload store actor key db).1
  unfolding confirm_upload
  confirmed-IsWithin store actor key db w =
      elim (Option-cases (first_where (is_own_blob actor key) db.blobs)) [
        | inl e ↦ rw (confirm_upload, e) w
        | inr (b, e) ↦ elim (Bool-cases b.confirmed) [
          | inl c ↦ rw (confirm_upload, e, c) w
          | inr c ↦
              rw (confirm_upload, e, c)
                (judged-IsWithin store actor b (store.head b.key) db (own b e) w)
        ]
      ]
    where
      own :
          (b : Blob)
          → first_where (is_own_blob actor key) db.blobs ≡ some b
          → first_where (is_own_blob actor b.key) db.blobs ≡ some b
      own b e =
          subst (λ k. first_where (is_own_blob actor k) db.blobs ≡ some b)
            (ground (arith, (first_where-In (is_own_blob actor key) db.blobs b e).1)) e

  maintained-IsWithin :
      (store : Storage) (faults : Faults) (now1 now2 now3 : ℕ) (db : Db)
      → IsWithin uid quota db
      → IsWithin uid quota (hourly_pass store faults now1 now2 now3 db)
  unfolding hourly_pass release_unreferenced_blobs cleanup_orphan_blobs prune_space_entry_removals
      quota_bytes
  maintained-IsWithin store faults now1 now2 now3 db w =
      pruned faults.prune _ (cleaned faults.cleanup _ (swept faults.release))
    where
      swept :
          (raises : Bool) → IsWithin uid quota (unless raises (release_unreferenced_blobs now1) db)
      swept true = w
      swept false =
          blobs-IsWithin db _
            (omega (arith, sum-unconfirm_where uid (is_unreferenced now1 db) db.blobs, w.charged)) w

      cleaned :
          (raises : Bool) (d : Db)
          → IsWithin uid quota d
          → IsWithin uid quota (unless raises (cleanup_orphan_blobs store now2) d)
      cleaned true d v = v
      cleaned false d v =
          blobs-IsWithin d _
            (omega (
              arith,
              sum-delete_where (is_charged uid)
                  (λ (b : Blob). is_orphan now2 b && store.deletes b.key) blob_size d.blobs,
              v.charged,
            ))
            v

      pruned :
          (raises : Bool) (d : Db)
          → IsWithin uid quota d
          → IsWithin uid quota (unless raises (prune_space_entry_removals now3) d)
      pruned true d v = v
      pruned false d v = record { granted = v.granted; charged = v.charged }

  requested-IsWithin :
      (actor : ℕ) (body : RequestUploadBody) (fresh now created key : ℕ) (db db' : Db)
      → request_upload actor body fresh now created db ≡ ok (key, db')
      → IsWithin uid quota db
      → IsWithin uid quota db'
  unfolding request_upload
  requested-IsWithin actor body fresh now created key db db' h w =
      let (q, e, k) = >>=-returned (quota_bytes actor db) _ h in
      let (fits, k1) = guard-cases _ _ _ _ k in
      subst (IsWithin uid quota) (ap (λ p. p.1) (ok-injective k1)) (
        blobs-IsWithin db (new_blob actor body fresh created ∷ db.blobs) (ground (arith, w.charged))
          w)

  released-IsWithin :
      (actor key : ℕ) (db db' : Db)
      → release_upload actor key db ≡ ok db'
      → IsWithin uid quota db
      → IsWithin uid quota db'
  unfolding release_upload
  released-IsWithin actor key db db' h w =
      let (b, e, k) = or_err-cases (first_where (is_own_blob actor key) db.blobs) _ _ _ h in
      let (free, k1) = guard-cases _ _ _ _ k in
      subst (IsWithin uid quota) (ok-injective k1) (after b.confirmed)
    where
      after :
          (confirmed : Bool)
          → IsWithin uid quota (
              if confirmed
              then record db {
                blobs = update_first (is_own_blob actor key) (set_confirmed false) db.blobs;
              }
              else db)
      after true =
          blobs-IsWithin db _
            (omega (arith, sum-unconfirm_first uid (is_own_blob actor key) db.blobs, w.charged)) w
      after false = w

  Step-IsWithin : (a b : Db) → Step a b → IsWithin uid quota a → IsWithin uid quota b
  Step-IsWithin a b (Step.requested actor body fresh now created key _ _ h) w =
      requested-IsWithin actor body fresh now created key a b h w
  Step-IsWithin a _ (Step.confirmed store actor key _) w = confirmed-IsWithin store actor key a w
  Step-IsWithin a b (Step.released actor key _ _ h) w = released-IsWithin actor key a b h w
  Step-IsWithin a _ (Step.maintained store faults now1 now2 now3 _) w =
      maintained-IsWithin store faults now1 now2 now3 a w

-- If the confirmed blobs of an account fit its quota, then they still do after any sequence of
-- upload requests, confirmations, releases and hourly passes, by whomever, whatever the object
-- store answers and whichever jobs fail.
pub Steps-IsWithin :
    (uid quota : ℕ) (a b : Db) → Steps a b → IsWithin uid quota a → IsWithin uid quota b
Steps-IsWithin uid quota a b (Steps.done _) w = w
Steps-IsWithin uid quota a b (Steps.step _ c _ first rest) w =
    Steps-IsWithin uid quota c b rest (Step-IsWithin uid quota a c first w)
