-- ===== src/Prelude/Replies.antt =====
-- What a handler answers: a value, or an HTTPException with its status code and detail.
use Prim.Native.Nat.{ℕ}
use Prim.Native.String.{String}
use mathlib.Core.Path.{◌≡◌, refl}
use mathlib.Core.Logic.{◌⊎◌, inl, inr}
use mathlib.Core.Bool.{Bool, true, false}
use mathlib.Core.Option.{Option, none, some}

pub data Reply {ℓ} (A : Type ℓ) : Type ℓ where
  ok : A → Reply A
  err : ℕ → String → Reply A

-- What a missing row raises.
abbrev pub or_err {ℓ} : {A : Type ℓ} → Option A → ℕ → String → Reply A
or_err (some a) status detail = ok a
or_err none status detail = err status detail

-- Raises unless the test holds.
abbrev pub guard : Bool → ℕ → String → Reply (Unit {0})
guard true status detail = ok tt
guard false status detail = err status detail

infixl 5 ◌>>=◌ ◌>>◌
abbrev pub ◌>>=◌ {ℓ κ} : {A : Type ℓ} {B : Type κ} → Reply A → (A → Reply B) → Reply B
ok a >>= next = next a
err status detail >>= next = err status detail

abbrev pub ◌>>◌ {ℓ} : {B : Type ℓ} → Reply (Unit {0}) → Reply B → Reply B
first >> next = first >>= λ _. next

-- A guard that let the rest run.
pub guard-cases {ℓ} :
    {A : Type ℓ} (b : Bool) (status : ℕ) (detail : String) (next : Reply A) {a : A}
    → (guard b status detail >> next) ≡ ok a
    → (b ≡ true) × (next ≡ ok a)
guard-cases true status detail next h = (refl, h)
guard-cases false status detail next h = cc

-- A first part that did not raise.
pub >>=-returned {ℓ} :
    {A B : Type ℓ} (first : Reply A) (next : A → Reply B) {b : B}
    → (first >>= next) ≡ ok b
    → (a : A) × (first ≡ ok a) × (next a ≡ ok b)
>>=-returned (err status detail) next h = cc
>>=-returned (ok a) next h = (a, refl, h)

pub ok-injective {ℓ} : {A : Type ℓ} {a b : A} → ok a ≡ ok b → a ≡ b
ok-injective h = cc

-- A row that was found.
pub or_err-cases {ℓ} :
    {A B : Type ℓ} (o : Option A) (status : ℕ) (detail : String) (next : A → Reply B) {b : B}
    → (or_err o status detail >>= next) ≡ ok b
    → (a : A) × (o ≡ some a) × (next a ≡ ok b)
or_err-cases none status detail next h = cc
or_err-cases (some a) status detail next h = (a, refl, h)

-- To split on a reply and keep the equation.
pub Reply-cases {ℓ} :
    {A : Type ℓ} (r : Reply A)
    → ((status : ℕ) × (detail : String) × (r ≡ err status detail)) ⊎ ((a : A) × (r ≡ ok a))
Reply-cases (err status detail) = inl (status, detail, refl)
Reply-cases (ok a) = inr (a, refl)
