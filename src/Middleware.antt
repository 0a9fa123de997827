-- ===== src/Middleware.antt =====
-- The limit on request bodies of src/middleware.py, `BodySizeLimitMiddleware`.
use rover_tools_orange_copy.Prelude.{
  not, ℕ, Bool, true, false, Option, none, some, List, [], ◌∷◌, ◌||◌, if◌then◌else◌, leb, ltb, ◌+◌,
  ◌≤◌, arith, Bool-cases, inl, inr,
}

-- A message of the receive channel: a part of the body by its length, a disconnect, or another.
pub data Message : Type 0 where
  request : ℕ → Message
  disconnect : Message
  other : ℕ → Message

-- The closure's variables: the bytes read, and whether the 413 has gone out.
pub record Received : Type 0 where
  pub read : ℕ
  pub answered : Bool

-- `counting_receive`: what the application gets for a message, and the variables after it.
unfoldable pub counting_receive : ℕ → Message → Received → Message × Received
counting_receive max_bytes Message.disconnect r = (Message.disconnect, r)
counting_receive max_bytes (Message.other n) r = (Message.other n, r)
counting_receive max_bytes (Message.request n) r =
    if leb (r.read + n) max_bytes || r.answered
    then (Message.request n, record r { read = r.read + n })
    else (Message.disconnect, record { read = r.read + n; answered = true })

-- `guarded_send`: whether the application's answer goes out.
abbrev pub guarded_send : Received → Bool
guarded_send r = not r.answered

-- A message that was delivered, and what follows it if it is no disconnect.
abbrev pub given_one : Message → Received → List Message × Received → List Message × Received
given_one Message.disconnect r later = (Message.disconnect ∷ [], r)
given_one (Message.other n) r later = (Message.other n ∷ later.0, later.1)
given_one (Message.request n) r later = (Message.request n ∷ later.0, later.1)

-- What an application that stops at a disconnect has been given, of what a client sends.
unfoldable pub app_receives : ℕ → List Message → Received → List Message × Received
unfolding counting_receive
app_receives max_bytes [] r = ([], r)
app_receives max_bytes (m ∷ ms) r =
    given_one (counting_receive max_bytes m r).0 (counting_receive max_bytes m r).1
      (app_receives max_bytes ms (counting_receive max_bytes m r).1)

abbrev pub body_bytes : List Message → ℕ
body_bytes [] = 0
body_bytes (Message.disconnect ∷ ms) = body_bytes ms
body_bytes (Message.other n ∷ ms) = body_bytes ms
body_bytes (Message.request n ∷ ms) = n + body_bytes ms

-- `__call__` for a request: the length declared, and what the client sends; whether it is refused,
-- and what the application gets.
unfoldable pub limit_body : ℕ → Option ℕ → List Message → Bool × List Message
unfolding app_receives
limit_body max_bytes none ms =
    let (got, r) = app_receives max_bytes ms (record { read = 0; answered = false }) in
    (r.answered, got)
limit_body max_bytes (some declared) ms =
    if ltb max_bytes declared
    then (true, [])
    else let (got, r) = app_receives max_bytes ms (record { read = 0; answered = false }) in
      (r.answered, got)

app_receives-le :
    (max_bytes : ℕ) (ms : List Message) (n : ℕ)
    → n ≤ max_bytes
    → n + body_bytes (app_receives max_bytes ms (record { read = n; answered = false })).0
      ≤ max_bytes
unfolding app_receives counting_receive
app_receives-le max_bytes [] n h = omega (arith, h)
app_receives-le max_bytes (Message.disconnect ∷ ms) n h = omega (arith, h)
app_receives-le max_bytes (Message.other k ∷ ms) n h = app_receives-le max_bytes ms n h
app_receives-le max_bytes (Message.request k ∷ ms) n h = elim (Bool-cases (leb (n + k) max_bytes)) [
  | inl fits ↦ rw fits (omega (arith, app_receives-le max_bytes ms (n + k) (ground (arith, fits))))
  | inr over ↦ rw over (omega (arith, h))
]

from_start :
    (max_bytes : ℕ) (ms : List Message)
    → body_bytes (app_receives max_bytes ms (record { read = 0; answered = false })).0 ≤ max_bytes
from_start max_bytes ms = omega (arith, app_receives-le max_bytes ms 0 (omega arith))

-- An application that stops at a disconnect is never given more bytes of a body than the limit,
-- whatever length the client declares and whatever it sends.
pub limit_body-le :
    (max_bytes : ℕ) (declared : Option ℕ) (ms : List Message)
    → body_bytes (limit_body max_bytes declared ms).1 ≤ max_bytes
unfolding limit_body
limit_body-le max_bytes none ms = from_start max_bytes ms
limit_body-le max_bytes (some declared) ms = elim (Bool-cases (ltb max_bytes declared)) [
  | inl over ↦ rw over (omega arith)
  | inr fits ↦ rw fits (from_start max_bytes ms)
]
