-- ===== src/Realtime/Registry.antt =====
-- What the hub of src/realtime.py promises: `Registry` is a hub that keeps, for each socket, its
-- device and its channels, and nothing else. The calls run on both.
use rover_tools_orange_copy.Prelude.{
  ℕ, Bool, false, Option, none, some, List, [], ◌∷◌, ◌==◌, ◌&&◌, ◌≡◌,
}
use rover_tools_orange_copy.Realtime.{Channel, Hub, put, on_channel, register, rebind, unregister}

abbrev pub Registry : Type 0
Registry = ℕ → Option (ℕ × List Channel)

-- The calls that change the index.
pub data Call : Type 0 where
  registered : ℕ → ℕ → List Channel → Call
  rebound : ℕ → List Channel → Call
  unregistered : ℕ → Call

unfoldable pub call : Call → Hub → Hub
unfolding register rebind unregister
call (Call.registered ws device chs) hub = register ws device chs hub
call (Call.rebound ws chs) hub = rebind ws chs hub
call (Call.unregistered ws) hub = (unregister ws hub).1

abbrev pub asked_again : Option (ℕ × List Channel) → ℕ → List Channel → Registry → Registry
asked_again none ws chs reg = reg
asked_again (some (device, old)) ws chs reg = put ws (some (device, chs)) reg

abbrev pub spec_call : Call → Registry → Registry
spec_call (Call.registered ws device chs) reg = put ws (some (device, chs)) reg
spec_call (Call.rebound ws chs) reg = asked_again (reg ws) ws chs reg
spec_call (Call.unregistered ws) reg = put ws none reg

unfoldable pub run : List Call → Hub → Hub
unfolding call
run [] hub = hub
run (c ∷ cs) hub = run cs (call c hub)

unfoldable pub spec_run : List Call → Registry → Registry
spec_run [] reg = reg
spec_run (c ∷ cs) reg = spec_run cs (spec_call c reg)

-- A socket that is registered is not on the hub already.
abbrev pub IsFresh : Call → Registry → Type 0
IsFresh (Call.registered ws device chs) reg = reg ws ≡ none
IsFresh (Call.rebound ws chs) reg = Unit {0}
IsFresh (Call.unregistered ws) reg = Unit {0}

abbrev pub AreFresh : List Call → Registry → Type 0
AreFresh [] reg = Unit {0}
AreFresh (c ∷ cs) reg = IsFresh c reg × AreFresh cs (spec_call c reg)

-- The socket is registered for the device and asked for the channel.
abbrev pub is_on : Option (ℕ × List Channel) → Channel → ℕ → Bool
is_on none c d = false
is_on (some (device, chs)) c d = d == device && on_channel c chs
