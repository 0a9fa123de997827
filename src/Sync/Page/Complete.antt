-- ===== src/Sync/Page/Complete.antt =====
-- Pages are complete up to their cursor: no run of equal times is split.
use rover_tools_orange_copy.Sync.Page.Sorted.{
  rows-IsSorted, last?-IsSorted, append-IsSorted, count-sort_by, sort-IsSorted, In-sort_by,
  IsSorted,
}
use rover_tools_orange_copy.Prelude.{
  In-append_right, Option-cases, count-rows_where, inr, rows_where-In, In-rows_where, inl, ◌==◌,
  Bool-cases, In-append_left, count-append, count-congr, refl, ◌∙◌, ◌≤◌, ltb, zero, count-none,
  get_elem?, none, rows_where, subst, sym, ◌≢◌, In, ap, false, last?, ◌&&◌, ◌+◌, ◌<◌, arith, some,
  true, ◌++◌, count_where, suc, take, ◌≡◌, Bool, [], length, Option, leb, ◌∷◌, List, ℕ,
}
use rover_tools_orange_copy.Sync.Page.{by_id, by_time, sort_by, cut, page}

-- The rows of the query up to the cursor, each as often as the query has it; all of them if
-- there is no cursor. A cursor is the time of some row.
abbrev pub UpTo : {A : Type 0} (ts : A → ℕ) → List A → List A → Option ℕ → Type 0
UpTo {A} ts q out none = (p : A → Bool) → count_where p out ≡ count_where p q
UpTo {A} ts q out (some c) =
    ((p : A → Bool) → count_where p out ≡ count_where (λ r. leb (ts r) c && p r) q)
    × ((r : A) × In r q × (ts r ≡ c))

-- A list cut at a length.
data Split {A : Type 0} (n : ℕ) (xs : List A) : Type 0 where
  short : leb (length (take (suc n) xs)) n ≡ true → take (suc n) xs ≡ xs → Split n xs
  long :
      (first : List A) (b : A) (rest : List A)
      → leb (length (take (suc n) xs)) n ≡ false
      → get_elem? (take (suc n) xs) n ≡ some b
      → take n (take (suc n) xs) ≡ first
      → xs ≡ first ++ b ∷ rest
      → (n ≡ length first)
      → Split n xs

split : {A : Type 0} (n : ℕ) (xs : List A) → Split n xs
split zero [] = short refl refl
split zero (x ∷ xs) = long [] x xs refl refl refl refl refl
split (suc n) [] = short (ground arith) refl
split (suc n) (x ∷ xs) = elim (split n xs) [
  | short e t ↦ short (ground arith) (ap (◌∷◌ x) t)
  | long first b rest e g t s l ↦
      long (x ∷ first) b rest (ground arith) g (ap (◌∷◌ x) t) (ap (◌∷◌ x) s) (ap suc l)
]

module _ {A : Type 0} (ts id : A → ℕ) where
  module _ (q first rest : List A) (b : A)
      (same : sort_by (by_time ts id) q ≡ first ++ b ∷ rest) where
    sorted : IsSorted ts id (first ++ b ∷ rest)
    sorted = subst (IsSorted ts id) same (sort-IsSorted ts id q)

    -- A count over the query is one over the two parts of the sorted rows.
    count-parts : (p : A → Bool) → count_where p q ≡ count_where p first + count_where p (b ∷ rest)
    count-parts p =
        sym (count-sort_by (by_time ts id) p q)
        ∙ ap (count_where p) same
        ∙ count-append p first (b ∷ rest)

    stored : (r : A) → In r (first ++ b ∷ rest) → In r q
    stored r m = In-sort_by (by_time ts id) r q (rw same m)

    -- No row from the boundary on is up to an earlier cursor.
    beyond :
        (c : ℕ) (p : A → Bool) → c < ts b → count_where (λ r. leb (ts r) c && p r) (b ∷ rest) ≡ 0
    beyond c p h =
        count-none (λ x. leb (ts x) c && p x) (b ∷ rest)
          λ r m. let late = (append-IsSorted ts id first b rest sorted).2 r m in ground arith

    UpTo-first : (l : A) → last? first ≡ some l → ts l ≢ ts b → UpTo ts q first (some (ts l))
    UpTo-first l e ne =
        let (early, low, high) = append-IsSorted ts id first b rest sorted in
        let (m, top) = last?-IsSorted ts id first l early e in
        let below = low l m in
        (
          (λ p. omega (
            arith,
            count-parts (λ r. leb (ts r) (ts l) && p r),
            beyond (ts l) p (omega arith),
            count-congr p (λ r. leb (ts r) (ts l) && p r) first (λ r n. ground (arith, top r n)),
          )),
          (l, stored l (In-append_left l first (b ∷ rest) m), refl),
        )

    -- Among the first rows, those before the boundary are those up to the last one of them.
    agree :
        (l x : A) (p : A → Bool)
        → ltb (ts l) (ts b) ≡ true
        → ((y : A) → In y (rows_where (λ r. ltb (ts r) (ts b)) first) → ts y ≤ ts l)
        → In x first
        → (ltb (ts x) (ts b) && p x) ≡ (leb (ts x) (ts l) && p x)
    agree l x p less top m = elim (Bool-cases (ltb (ts x) (ts b))) [
      | inl e ↦
          let under = top x (rows_where-In (λ r. ltb (ts r) (ts b)) x first m e) in ground arith
      | inr e ↦ ground arith
    ]

    UpTo-before :
        (l : A)
        → last? (rows_where (λ r. ltb (ts r) (ts b)) first) ≡ some l
        → UpTo ts q (rows_where (λ r. ltb (ts r) (ts b)) first) (some (ts l))
    UpTo-before l e =
        let early = (append-IsSorted ts id first b rest sorted).0 in
        let (m, top) =
          last?-IsSorted ts id _ l (rows-IsSorted ts id (λ r. ltb (ts r) (ts b)) first early) e in
        let (n, less) = In-rows_where (λ r. ltb (ts r) (ts b)) l first m in
        (
          (λ p. omega (
            arith,
            count-parts (λ r. leb (ts r) (ts l) && p r),
            beyond (ts l) p (ground arith),
            count-rows_where p (λ r. ltb (ts r) (ts b)) first,
            count-congr (λ r. ltb (ts r) (ts b) && p r) (λ r. leb (ts r) (ts l) && p r) first
                (λ x k. agree l x p less top k),
          )),
          (l, stored l (In-append_left l first (b ∷ rest) n), refl),
        )

    last?-none : (xs : List A) → last? xs ≡ none → xs ≡ []
    last?-none [] e = refl
    last?-none (x ∷ []) e = cc
    last?-none (x ∷ y ∷ xs) e = absurd (not_both (last?-none (y ∷ xs) e))
      where
        not_both : y ∷ xs ≡ [] → ⊥
        not_both k = cc

    -- With nothing before the boundary, every row is at it or beyond.
    UpTo-run :
        last? (rows_where (λ r. ltb (ts r) (ts b)) first) ≡ none
        → UpTo ts q (sort_by (by_id ts id) (rows_where (λ r. ts r == ts b) q)) (some (ts b))
    UpTo-run e = (
      (λ p.
          count-sort_by (by_id ts id) p (rows_where (λ r. ts r == ts b) q)
          ∙ count-rows_where p (λ r. ts r == ts b) q
          ∙ omega (
            arith,
            count-parts (λ r. ts r == ts b && p r),
            count-parts (λ r. leb (ts r) (ts b) && p r),
            count-congr (λ r. ts r == ts b && p r) (λ r. leb (ts r) (ts b) && p r) first
                (λ x m. at_boundary p x (early x m)),
            count-congr (λ r. ts r == ts b && p r) (λ r. leb (ts r) (ts b) && p r) (b ∷ rest)
                (λ x m. at_boundary p x ((append-IsSorted ts id first b rest sorted).2 x m)),
          )),
      (b, stored b (In-append_right b first (b ∷ rest) (inl refl)), refl),
    )
      where
        at_boundary :
            (p : A → Bool) (x : A)
            → ts b ≤ ts x
            → (ts x == ts b && p x) ≡ (leb (ts x) (ts b) && p x)
        at_boundary p x h = ground arith

        early : (x : A) → In x first → ts b ≤ ts x
        early x m = elim (Bool-cases (ltb (ts x) (ts b))) [
          | inl less ↦ absurd (
              subst (In x) (last?-none _ e) (rows_where-In (λ r. ltb (ts r) (ts b)) x first m less))
          | inr not_less ↦ ground arith
        ]

    last?-some : (xs : List A) → xs ≢ [] → (l : A) × (last? xs ≡ some l)
    last?-some [] h = absurd (h refl)
    last?-some (x ∷ []) h = (x, refl)
    last?-some (x ∷ y ∷ xs) h = last?-some (y ∷ xs) (λ k. cc k)

    cut_result :
        first ≢ []
        → (out : List A) × (next : Option ℕ) × (cut ts id q (ts b) first ≡ some (out, next))
          × UpTo ts q out next
    unfolding cut
    cut_result h =
        let (l, e) = last?-some first h in
        elim (Bool-cases (ts l == ts b)) [
          | inr ne ↦ (first, some (ts l), rw (e, ne, cut) refl, UpTo-first l e (ground arith))
          | inl eq ↦ elim (Option-cases (last? (rows_where (λ r. ltb (ts r) (ts b)) first))) [
            | inr (m, k) ↦ (
              rows_where (λ r. ltb (ts r) (ts b)) first,
              some (ts m),
              rw (e, eq, k, cut) refl,
              UpTo-before m k,
            )
            | inl k ↦ (
              sort_by (by_id ts id) (rows_where (λ r. ts r == ts b) q),
              some (ts b),
              rw (e, eq, k, cut) refl,
              UpTo-run k,
            )
          ]
        ]

  page_cases :
      (limit : ℕ) (q : List A)
      → 1 ≤ limit
      → Split limit (sort_by (by_time ts id) q)
      → (out : List A) × (next : Option ℕ) × (page ts id limit q ≡ some (out, next))
        × UpTo ts q out next
  unfolding page
  page_cases limit q h (short e t) =
      (sort_by (by_time ts id) q, none, rw (e, t) refl, λ p. count-sort_by (by_time ts id) p q)
  page_cases limit q h (long first b rest e g t s l) =
      let (out, next, k, up) =
        cut_result q first rest b s (λ z. absurd (omega (arith, ap length z))) in
      (out, next, rw (e, g, t, page) k, up)

  -- With a limit of at least one a page is always returned. Without a cursor it holds every row
  -- of the query; with the cursor `c` exactly the rows up to time `c`, each as often as the query
  -- does, and `c` is the time of one of them: no run of equal times is split.
  pub page_complete :
      (limit : ℕ) (q : List A)
      → 1 ≤ limit
      → (out : List A) × (next : Option ℕ) × (page ts id limit q ≡ some (out, next))
        × UpTo ts q out next
  page_complete limit q h = page_cases limit q h (split limit (sort_by (by_time ts id) q))
