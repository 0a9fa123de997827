-- ===== src/Realtime/Members.antt =====
-- Who is in the sets of the hub's index after sockets leave and join channels.
use rover_tools_orange_copy.Prelude.{
  ap, ℕ, Bool, true, false, Option, none, some, List, [], ◌∷◌, ◌==◌, ◌&&◌, ◌||◌, not, eq_option,
  any_where, rows_where, delete_where, ◌≡◌, refl, arith, ◌⊎◌, Bool-cases, inl, inr, ap, sym, ◌∙◌,
}
use rover_tools_orange_copy.Realtime.{
  Channel, same_channel, Member, or_empty, kept_set, is_member, on_channel, leave_one, leave,
  add_member, join_one, join, other_channels,
}
use rover_tools_orange_copy.Spaces.Keys.{given}

abbrev pub holds : (Channel → Option (List Member)) → Channel → ℕ → ℕ → Bool
holds channels c w d = any_where (is_member w (some d)) (or_empty (channels c))

same_channel_eq : (a b : Channel) → same_channel a b ≡ true → a ≡ b
same_channel_eq (Channel.of_user a) (Channel.of_user b) h = ap Channel.of_user (ground (arith, h))
same_channel_eq (Channel.of_user a) (Channel.of_space b) h = cc
same_channel_eq (Channel.of_user a) Channel.broadcast h = cc
same_channel_eq (Channel.of_space a) (Channel.of_user b) h = cc
same_channel_eq (Channel.of_space a) (Channel.of_space b) h =
    ap Channel.of_space (ground (arith, h))
same_channel_eq (Channel.of_space a) Channel.broadcast h = cc
same_channel_eq Channel.broadcast (Channel.of_user b) h = cc
same_channel_eq Channel.broadcast (Channel.of_space b) h = cc
same_channel_eq Channel.broadcast Channel.broadcast h = refl

or_empty-kept_set : {A : Type 0} (xs : List A) → or_empty (kept_set xs) ≡ xs
or_empty-kept_set [] = refl
or_empty-kept_set (x ∷ xs) = refl

any-delete_member :
    (w d ws dev : ℕ) (ms : List Member)
    → any_where (is_member w (some d)) (delete_where (is_member ws (some dev)) ms)
      ≡ (any_where (is_member w (some d)) ms && not (w == ws && d == dev))
any-delete_member w d ws dev [] = refl
any-delete_member w d ws dev (m ∷ ms) = ground (arith, any-delete_member w d ws dev ms)

any-add_member :
    (w d ws dev : ℕ) (ms : List Member)
    → any_where (is_member w (some d)) (add_member ws dev ms)
      ≡ (any_where (is_member w (some d)) ms || (w == ws && d == dev))
any-add_member w d ws dev ms = elim (Bool-cases (any_where (is_member ws (some dev)) ms)) [
  | inl e ↦ rw e (kept (Bool-cases (w == ws && d == dev)) e)
  | inr e ↦ rw e (ground arith)
]
  where
    kept :
        ((w == ws && d == dev) ≡ true) ⊎ ((w == ws && d == dev) ≡ false)
        → any_where (is_member ws (some dev)) ms ≡ true
        → any_where (is_member w (some d)) ms
          ≡ (any_where (is_member w (some d)) ms || (w == ws && d == dev))
    kept (inl same) e =
        let at_w : w ≡ ws = ground (arith, same) in
        let at_d : d ≡ dev = ground (arith, same) in
        let there : any_where (is_member w (some d)) ms ≡ true =
          ap (λ i. any_where (is_member i (some d)) ms) at_w
          ∙ ap (λ i. any_where (is_member ws (some i)) ms) at_d
          ∙ e in
        ground (arith, there)
    kept (inr other) e = ground (arith, other)

holds-leave_one :
    (w d ws dev : ℕ) (c ch : Channel) (channels : Channel → Option (List Member))
    → holds (leave_one ws (some dev) ch channels) c w d
      ≡ (holds channels c w d && not (same_channel c ch && (w == ws && d == dev)))
holds-leave_one w d ws dev c ch channels = elim (Bool-cases (same_channel c ch)) [
  | inl e ↦
      rw (e, or_empty-kept_set (delete_where (is_member ws (some dev)) (or_empty (channels ch))))
        (any-delete_member w d ws dev (or_empty (channels ch))
          ∙ ap (λ i. holds channels i w d && not (w == ws && d == dev))
              (sym (same_channel_eq c ch e)))
  | inr e ↦ rw e (ground arith)
]

holds-join_one :
    (w d ws dev : ℕ) (c ch : Channel) (channels : Channel → Option (List Member))
    → holds (join_one ws dev ch channels) c w d
      ≡ (holds channels c w d || (same_channel c ch && (w == ws && d == dev)))
holds-join_one w d ws dev c ch channels = elim (Bool-cases (same_channel c ch)) [
  | inl e ↦ rw e (
      any-add_member w d ws dev (or_empty (channels ch))
      ∙ ap (λ i. holds channels i w d || (w == ws && d == dev)) (sym (same_channel_eq c ch e)))
  | inr e ↦ rw e (ground arith)
]

pub holds-leave :
    (w d ws dev : ℕ) (c : Channel) (chs : List Channel) (channels : Channel → Option (List Member))
    → holds (leave ws (some dev) chs channels) c w d
      ≡ (holds channels c w d && not (on_channel c chs && (w == ws && d == dev)))
unfolding leave
holds-leave w d ws dev c [] channels = ground arith
holds-leave w d ws dev c (ch ∷ chs) channels = ground (
  arith,
  holds-leave w d ws dev c chs (leave_one ws (some dev) ch channels),
  holds-leave_one w d ws dev c ch channels,
)

pub holds-join :
    (w d ws dev : ℕ) (c : Channel) (chs : List Channel) (channels : Channel → Option (List Member))
    → holds (join ws dev chs channels) c w d
      ≡ (holds channels c w d || (on_channel c chs && (w == ws && d == dev)))
unfolding join
holds-join w d ws dev c [] channels = ground arith
holds-join w d ws dev c (ch ∷ chs) channels = ground (
  arith,
  holds-join w d ws dev c chs (join_one ws dev ch channels),
  holds-join_one w d ws dev c ch channels,
)

pub any-others :
    (w d : ℕ) (origin : Option ℕ) (ms : List Member)
    → any_where
        (is_member w (some d))
        (rows_where (λ (m : Member). not (given origin && eq_option (some m.1) origin)) ms)
      ≡ (any_where (is_member w (some d)) ms && not (given origin && eq_option (some d) origin))
any-others w d none [] = refl
any-others w d (some o) [] = refl
any-others w d none (m ∷ ms) = ground (arith, any-others w d none ms)
any-others w d (some o) (m ∷ ms) = ground (arith, any-others w d (some o) ms)

same-on :
    (c ch : Channel) (wanted : List Channel)
    → (same_channel c ch && not (on_channel ch wanted))
      ≡ (same_channel c ch && not (on_channel c wanted))
same-on c ch wanted = elim (Bool-cases (same_channel c ch)) [
  | inl e ↦ ap (λ i. same_channel c ch && not (on_channel i wanted)) (sym (same_channel_eq c ch e))
  | inr e ↦ ground (arith, e)
]

pub on-other_channels :
    (c : Channel) (old wanted : List Channel)
    → on_channel c (other_channels old wanted) ≡ (on_channel c old && not (on_channel c wanted))
on-other_channels c [] wanted = refl
on-other_channels c (ch ∷ old) wanted = elim (Bool-cases (on_channel ch wanted)) [
  | inl gone ↦ rw gone (ground (arith, on-other_channels c old wanted, same-on c ch wanted, gone))
  | inr stays ↦
      rw stays (ground (arith, on-other_channels c old wanted, same-on c ch wanted, stays))
]
