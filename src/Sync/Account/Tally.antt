-- ===== src/Sync/Account/Tally.antt =====
-- The breakdown adds up.
use rover_tools_orange_copy.Prelude.Int.{pos, ◌-ℤ◌}
use rover_tools_orange_copy.Sync.Recorded.{same_type-eq}
use rover_tools_orange_copy.Sync.Entry.{is_live}
use rover_tools_orange_copy.Prelude.{
  count-rows_where, rows_where, refl, ◌||◌, [], not, arith, bit, if◌then◌else◌, true, ◌&&◌, ◌+◌,
  count_where, ◌∷◌, ◌≡◌, Bool, List, Option, ℕ,
}
use rover_tools_orange_copy.Store.{same_type, SyncEntry, EntryKind, EntryType}
use rover_tools_orange_copy.Sync.Account.{
  BreakdownOut, account_breakdown, is_kind, Counts, Group, same_kinds, count_groups, count_group,
  group_by_kind, add_to_groups,
}

-- What a list of groups counts, by a test on type and kind.
abbrev tally : (EntryType → Option EntryKind → Bool) → List Group → ℕ
tally p [] = 0
tally p (g ∷ gs) = (if p g.entry_type g.kind then g.count else 0) + tally p gs

same_kinds-eq : (a b : Option EntryKind) → same_kinds a b ≡ true → a ≡ b
same_kinds-eq a b h = ground arith

tally-add :
    (p : EntryType → Option EntryKind → Bool) (r : SyncEntry) (gs : List Group)
    → tally p (add_to_groups r gs) ≡ bit (p r.entry_type r.kind) + tally p gs
unfolding add_to_groups
tally-add p r [] = refl
tally-add p r (g ∷ gs) =
    ground
      (arith, same_type-eq g.entry_type r.entry_type, same_kinds-eq g.kind r.kind, tally-add p r gs)

-- The groups count the rows.
tally-group_by_kind :
    (p : EntryType → Option EntryKind → Bool) (rows : List SyncEntry)
    → tally p (group_by_kind rows) ≡ count_where (λ r. p r.entry_type r.kind) rows
unfolding group_by_kind
tally-group_by_kind p [] = refl
tally-group_by_kind p (r ∷ rows) =
    omega (arith, tally-add p r (group_by_kind rows), tally-group_by_kind p rows)

abbrev pub is_note : EntryType → Option EntryKind → Bool
is_note t k = same_type t EntryType.note

abbrev pub is_clip : EntryType → Option EntryKind → Bool
is_clip t k = same_type t EntryType.clipboard

abbrev pub is_clip_of : EntryKind → EntryType → Option EntryKind → Bool
is_clip_of j t k = same_type t EntryType.clipboard && is_kind j k

-- The loop adds the tallies to its counters.
record Adds (gs : List Group) (c d : Counts) : Type 0 where
  notes : d.notes ≡ c.notes + tally is_note gs
  clipboard : d.clipboard ≡ c.clipboard + tally is_clip gs
  image : d.image ≡ c.image + tally (is_clip_of EntryKind.image) gs
  file : d.file ≡ c.file + tally (is_clip_of EntryKind.file) gs
  html : d.html ≡ c.html + tally (is_clip_of EntryKind.html) gs

step-Adds :
    (t : EntryType) (k : Option EntryKind) (n : ℕ) (gs : List Group) (c d : Counts)
    → Adds gs (count_group (record { entry_type = t; kind = k; count = n }) c) d
    → Adds (record { entry_type = t; kind = k; count = n } ∷ gs) c d
unfolding count_group
step-Adds t k n gs c d h = ground arith

count_groups-Adds : (gs : List Group) (c : Counts) → Adds gs c (count_groups gs c)
unfolding count_groups
count_groups-Adds [] c = ground arith
count_groups-Adds (g ∷ gs) c =
    step-Adds g.entry_type g.kind g.count gs c _ (count_groups-Adds gs (count_group g c))

-- A live clipboard row of the account that is no image, file or html row.
abbrev pub is_text_row : ℕ → SyncEntry → Bool
is_text_row uid r =
    is_live uid r
    && (same_type r.entry_type EntryType.clipboard
        && not (
            is_kind EntryKind.image r.kind
            || is_kind EntryKind.file r.kind
            || is_kind EntryKind.html r.kind))

-- Each clipboard row is of exactly one of the four kinds.
kinds-split :
    (rows : List SyncEntry)
    → count_where (λ r. is_clip r.entry_type r.kind) rows
      ≡ count_where (λ r. is_clip_of EntryKind.image r.entry_type r.kind) rows
        + count_where (λ r. is_clip_of EntryKind.file r.entry_type r.kind) rows
        + count_where (λ r. is_clip_of EntryKind.html r.entry_type r.kind) rows
        + count_where
            (λ r.
              same_type r.entry_type EntryType.clipboard
              && not (
                  is_kind EntryKind.image r.kind
                  || is_kind EntryKind.file r.kind
                  || is_kind EntryKind.html r.kind))
            rows
kinds-split [] = refl
kinds-split (r ∷ rows) = ground (arith, kinds-split rows)

types-split :
    (rows : List SyncEntry)
    → count_where (λ _. true) rows
      ≡ count_where (λ r. is_clip r.entry_type r.kind) rows
        + count_where (λ r. is_note r.entry_type r.kind) rows
types-split [] = refl
types-split (r ∷ rows) = ground (arith, types-split rows)

-- The breakdown against the rows of the account that are no tombstones.
pub record IsBreakdown (uid : ℕ) (rows : List SyncEntry) (b : BreakdownOut) : Type 0 where
  pub notes : b.notes ≡ count_where (λ r. is_live uid r && is_note r.entry_type r.kind) rows
  pub clipboard : b.clipboard ≡ count_where (λ r. is_live uid r && is_clip r.entry_type r.kind) rows
  pub total : b.total ≡ count_where (is_live uid) rows
  pub image :
      b.image
      ≡ count_where (λ r. is_live uid r && is_clip_of EntryKind.image r.entry_type r.kind) rows
  pub file :
      b.file
      ≡ count_where (λ r. is_live uid r && is_clip_of EntryKind.file r.entry_type r.kind) rows
  pub html :
      b.html
      ≡ count_where (λ r. is_live uid r && is_clip_of EntryKind.html r.entry_type r.kind) rows
  pub text : b.text ≡ pos (count_where (is_text_row uid) rows)

text_of : (t a b c d : ℕ) → t ≡ a + b + c + d → pos t -ℤ pos a -ℤ pos b -ℤ pos c ≡ pos d
unfolding ◌-ℤ◌
text_of t a b c d h = ground arith

count-true :
    {A : Type 0} (p : A → Bool) (xs : List A)
    → count_where (λ _. true) (rows_where p xs) ≡ count_where p xs
count-true p [] = refl
count-true p (x ∷ xs) = ground (arith, count-true p xs)

-- The breakdown counts exactly the account's live rows: notes, clipboard rows and the total are
-- the numbers of such rows, and text, which takes in every clipboard row that is not an image, a
-- file or html, is what the other three leave of the clipboard rows.
pub account_breakdown-IsBreakdown :
    (uid : ℕ) (rows : List SyncEntry) → IsBreakdown uid rows (account_breakdown uid rows)
unfolding account_breakdown
account_breakdown-IsBreakdown uid rows =
    let live : List SyncEntry = rows_where (is_live uid) rows in
    let sums =
      count_groups-Adds (group_by_kind live)
        (record { notes = 0; clipboard = 0; image = 0; file = 0; html = 0 }) in
    let of = λ (p : EntryType → Option EntryKind → Bool). tally-group_by_kind p live in
    let cut = λ (p : SyncEntry → Bool). count-rows_where p (is_live uid) rows in
    record {
      notes = omega (arith, sums.notes, of is_note, cut (λ r. is_note r.entry_type r.kind));
      clipboard = omega (arith, sums.clipboard, of is_clip, cut (λ r. is_clip r.entry_type r.kind));
      total = omega (
        arith,
        sums.notes,
        of is_note,
        sums.clipboard,
        of is_clip,
        types-split live,
        count-true (is_live uid) rows,
      );
      image = omega (
        arith,
        sums.image,
        of (is_clip_of EntryKind.image),
        cut (λ r. is_clip_of EntryKind.image r.entry_type r.kind),
      );
      file = omega (
        arith,
        sums.file,
        of (is_clip_of EntryKind.file),
        cut (λ r. is_clip_of EntryKind.file r.entry_type r.kind),
      );
      html = omega (
        arith,
        sums.html,
        of (is_clip_of EntryKind.html),
        cut (λ r. is_clip_of EntryKind.html r.entry_type r.kind),
      );
      text = text_of _ _ _ _ _ (
          omega (
            arith,
            sums.clipboard,
            of is_clip,
            sums.image,
            of (is_clip_of EntryKind.image),
            sums.file,
            of (is_clip_of EntryKind.file),
            sums.html,
            of (is_clip_of EntryKind.html),
            kinds-split live,
            cut (λ r.
                same_type r.entry_type EntryType.clipboard
                && not (
                    is_kind EntryKind.image r.kind
                    || is_kind EntryKind.file r.kind
                    || is_kind EntryKind.html r.kind)),
          ));
    }
