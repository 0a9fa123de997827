-- ===== src/Realtime/Index.antt =====
-- The index of the hub by channel agrees with the registry.
use rover_tools_orange_copy.Prelude.{
  subst, ==_iff, ap, ℕ, true, false, Option, none, some, List, [], ◌∷◌, ◌==◌, ◌&&◌, ◌||◌, not,
  eq_option, any_where, ◌≡◌, refl, arith, ◌⊎◌, Bool-cases, inl, inr, ap, sym, ◌∙◌,
}
use rover_tools_orange_copy.Realtime.{
  Channel, Hub, empty_hub, or_empty, put, is_member, on_channel, leave, other_channels, bind_locked,
  register, rebind, unregister, targets,
}
use mathlib.Core.Option
use rover_tools_orange_copy.Spaces.Keys.{given}
use rover_tools_orange_copy.Realtime.Registry.{
  Registry, Call, call, asked_again, spec_call, run, spec_run, IsFresh, AreFresh, is_on,
}
use rover_tools_orange_copy.Realtime.Members.{
  holds, holds-leave, holds-join, any-others, on-other_channels,
}

-- The hub answers as the registry does.
pub record Represents (hub : Hub) (reg : Registry) : Type 0 where
  pub device : (w : ℕ) → hub.ws_device w ≡ Option.map (λ e. e.0) (reg w)
  pub asked : (w : ℕ) → hub.ws_channels w ≡ Option.map (λ e. e.1) (reg w)
  pub index : (c : Channel) (w d : ℕ) → holds hub.channels c w d ≡ is_on (reg w) c d

-- A socket that is not on the hub, or is there for this device.
abbrev IsOf : ℕ → ℕ → Registry → Type 0
IsOf ws dev reg = (reg ws ≡ none) ⊎ ((old : List Channel) × (reg ws ≡ some (dev, old)))

put-map :
    {A : Type 0} (f : ℕ × List Channel → A) (ws : ℕ) (o : Option (ℕ × List Channel))
    (g : ℕ → Option A) (reg : Registry)
    → ((w : ℕ) → g w ≡ Option.map f (reg w))
    → (w : ℕ) → put ws (Option.map f o) g w ≡ Option.map f (put ws o reg w)
put-map f ws o g reg h w = elim (Bool-cases (w == ws)) [ inl e ↦ rw e refl | inr e ↦ rw e (h w) ]

bound-Represents :
    (ws dev : ℕ) (wanted : List Channel) (hub : Hub) (reg : Registry)
    → IsOf ws dev reg
    → Represents hub reg
    → Represents (bind_locked ws dev wanted hub) (put ws (some (dev, wanted)) reg)
unfolding bind_locked
bound-Represents ws dev wanted hub reg of r = record {
  device = put-map (λ e. e.0) ws (some (dev, wanted)) hub.ws_device reg r.device;
  asked = put-map (λ e. e.1) ws (some (dev, wanted)) hub.ws_channels reg r.asked;
  index = bound;
}
  where
    old : List Channel
    old = or_empty (hub.ws_channels ws)

    moved :
        (c : Channel) (w d : ℕ)
        → holds (bind_locked ws dev wanted hub).channels c w d ≡ (
            (is_on (reg w) c d
              && not ((on_channel c old && not (on_channel c wanted)) && (w == ws && d == dev)))
            || (on_channel c wanted && (w == ws && d == dev)))
    moved c w d =
        let a =
          holds-join w d ws dev c wanted
            (leave ws (some dev) (other_channels old wanted) hub.channels) in
        let b = holds-leave w d ws dev c (other_channels old wanted) hub.channels in
        ground (arith, a, b, on-other_channels c old wanted, r.index c w d)

    here :
        IsOf ws dev reg
        → (c : Channel) (d : ℕ)
        → ((is_on (reg ws) c d && not ((on_channel c old && not (on_channel c wanted)) && d == dev))
            || (on_channel c wanted && d == dev))
          ≡ (d == dev && on_channel c wanted)
    here (inl e) c d = rw e (ground arith)
    here (inr (chs, e)) c d =
        let k : old ≡ chs = ap or_empty (r.asked ws ∙ ap (Option.map (λ x. x.1)) e) in
        ground (arith, ap (λ o. is_on o c d) e, ap (on_channel c) k)

    bound :
        (c : Channel) (w d : ℕ)
        → holds (bind_locked ws dev wanted hub).channels c w d
          ≡ is_on (put ws (some (dev, wanted)) reg w) c d
    bound c w d = elim (Bool-cases (w == ws)) [
      | inl e ↦ let same : w ≡ ws = (==_iff w ws).0 e in moved c w d ∙ (rw (e, same) (here of c d))
      | inr e ↦ moved c w d ∙ rw e (ground arith)
    ]

pub empty-Represents : Represents empty_hub (λ w. none)
empty-Represents = record { device = λ w. refl; asked = λ w. refl; index = λ c w d. refl }

gone-Represents :
    (ws : ℕ) (hub : Hub) (reg : Registry)
    → Represents hub reg
    → Represents (unregister ws hub).1 (put ws none reg)
unfolding unregister leave
gone-Represents ws hub reg r = record {
  device = put-map (λ e. e.0) ws none hub.ws_device reg r.device;
  asked = put-map (λ e. e.1) ws none hub.ws_channels reg r.asked;
  index = λ c w d. by_entry (reg ws) refl c w d (Bool-cases (w == ws));
}
  where
    by_entry :
        (o : Option (ℕ × List Channel))
        → reg ws ≡ o
        → (c : Channel) (w d : ℕ) → ((w == ws) ≡ true) ⊎ ((w == ws) ≡ false)
        → holds (leave ws (hub.ws_device ws) (or_empty (hub.ws_channels ws)) hub.channels) c w d
          ≡ is_on (put ws none reg w) c d
    by_entry none e c w d split =
        let asked = r.asked ws ∙ ap (Option.map (λ x. x.1)) e in
        let out =
          ap (λ chs. holds (leave ws (hub.ws_device ws) (or_empty chs) hub.channels) c w d) asked in
        out ∙ r.index c w d ∙ absent split
      where
        absent :
            ((w == ws) ≡ true) ⊎ ((w == ws) ≡ false)
            → is_on (reg w) c d ≡ is_on (put ws none reg w) c d
        absent (inl t) =
            rw t (ap (λ x. is_on (reg x) c d) ((==_iff w ws).0 t) ∙ ap (λ x. is_on x c d) e)
        absent (inr f) = rw f refl
    by_entry (some (dev, old)) e c w d split =
        let asked = r.asked ws ∙ ap (Option.map (λ x. x.1)) e in
        let device = r.device ws ∙ ap (Option.map (λ x. x.0)) e in
        ap (λ chs. holds (leave ws (hub.ws_device ws) (or_empty chs) hub.channels) c w d) asked
        ∙ ap (λ x. holds (leave ws x old hub.channels) c w d) device
        ∙ holds-leave w d ws dev c old hub.channels
        ∙ ap (λ x. x && not (on_channel c old && (w == ws && d == dev))) (r.index c w d)
        ∙ cut split
      where
        cut :
            ((w == ws) ≡ true) ⊎ ((w == ws) ≡ false)
            → (is_on (reg w) c d && not (on_channel c old && (w == ws && d == dev)))
              ≡ is_on (put ws none reg w) c d
        cut (inl t) =
            let there : is_on (reg w) c d ≡ (d == dev && on_channel c old) =
              ap (λ x. is_on (reg x) c d) ((==_iff w ws).0 t) ∙ ap (λ x. is_on x c d) e in
            rw t (ground (arith, there))
        cut (inr f) = rw f (ground arith)

call-Represents :
    (c : Call) (hub : Hub) (reg : Registry)
    → IsFresh c reg
    → Represents hub reg
    → Represents (call c hub) (spec_call c reg)
unfolding call register rebind
call-Represents (Call.registered ws device chs) hub reg fresh r =
    bound-Represents ws device chs hub reg (inl fresh) r
call-Represents (Call.rebound ws chs) hub reg fresh r = by_entry (reg ws) refl
  where
    by_entry :
        (o : Option (ℕ × List Channel))
        → reg ws ≡ o
        → Represents (rebind ws chs hub) (spec_call (Call.rebound ws chs) reg)
    by_entry none e =
        let device : hub.ws_device ws ≡ none = r.device ws ∙ ap (Option.map (λ x. x.0)) e in
        subst (λ o. Represents (rebind ws chs hub) (asked_again o ws chs reg)) (sym e)
          (rw (rebind, device) r)
    by_entry (some (dev, old)) e =
        let device : hub.ws_device ws ≡ some dev = r.device ws ∙ ap (Option.map (λ x. x.0)) e in
        subst (λ o. Represents (rebind ws chs hub) (asked_again o ws chs reg)) (sym e)
          (rw (rebind, device) (bound-Represents ws dev chs hub reg (inr (old, e)) r))
call-Represents (Call.unregistered ws) hub reg fresh r = gone-Represents ws hub reg r

pub run-Represents :
    (cs : List Call) (hub : Hub) (reg : Registry)
    → AreFresh cs reg
    → Represents hub reg
    → Represents (run cs hub) (spec_run cs reg)
unfolding run spec_run
run-Represents [] hub reg fresh r = r
run-Represents (c ∷ cs) hub reg (now, later) r =
    run-Represents cs (call c hub) (spec_call c reg) later (call-Represents c hub reg now r)

-- After any sequence of calls of `_register`, `_rebind` and `_unregister`, in which a socket that is
-- registered is not on the hub already, an event on a channel goes to a socket and device exactly
-- if the last call for the socket left it registered for the device and with the channel, and the
-- device is not the one that the event comes from.
pub run-targets :
    (cs : List Call) (ch : Channel) (origin : Option ℕ) (w d : ℕ)
    → AreFresh cs (λ ws. none)
    → any_where (is_member w (some d)) (targets ch origin (run cs empty_hub))
      ≡ (is_on (spec_run cs (λ ws. none) w) ch d && not (given origin && eq_option (some d) origin))
unfolding targets
run-targets cs ch origin w d fresh =
    let r = run-Represents cs empty_hub (λ ws. none) fresh empty-Represents in
    any-others w d origin (or_empty ((run cs empty_hub).channels ch))
    ∙ ap (λ b. b && not (given origin && eq_option (some d) origin)) (r.index ch w d)
