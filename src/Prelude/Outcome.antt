-- ===== src/Prelude/Outcome.antt =====
-- Go's `(T, error)`: a value, or an error of the caller's own type.
use mathlib.Core.Path.{◌≡◌, refl}
use mathlib.Core.Bool.{Bool, true, false}
use mathlib.Core.Logic.{◌⊎◌, inl, inr}

pub data Result {ℓ κ} (E : Type ℓ) (A : Type κ) : Type (ℓ ⊔ κ) where
  ok : A → Result E A
  err : E → Result E A

infixl 5 ◌>>=◌ ◌>>◌
abbrev pub ◌>>=◌ {ℓ κ μ} :
    {E : Type ℓ} {A : Type κ} {B : Type μ} → Result E A → (A → Result E B) → Result E B
ok a >>= f = f a
err e >>= f = err e

abbrev pub ◌>>◌ {ℓ κ} : {E : Type ℓ} {B : Type κ} → Result E (Unit {0}) → Result E B → Result E B
m >> k = m >>= λ _. k

-- `if !b { return e }`
abbrev pub require {ℓ} : {E : Type ℓ} → Bool → E → Result E (Unit {0})
require true e = ok tt
require false e = err e

-- A transaction over a state: its writes are kept if it returns, and rolled back if it fails.
abbrev pub transact {ℓ κ μ} :
    {E : Type ℓ} {A : Type κ} {S : Type μ} → S → Result E (A × S) → Result E A × S
transact s (ok (a, s')) = (ok a, s')
transact s (err e) = (err e, s)

-- Which of the database's statements succeed in one call: the environment decides.
pub record Tx : Type 0 where
  pub begins : Bool
  pub queries : Bool
  pub writes : Bool
  pub commits : Bool

abbrev pub healthy : Tx
healthy = record { begins = true; queries = true; writes = true; commits = true }

-- `P` of the value, if there is one.
abbrev pub OnOk {ℓ κ μ} : {E : Type ℓ} {A : Type κ} → (A → Type μ) → Result E A → Type μ
OnOk P (ok a) = P a
OnOk P (err e) = Unit

pub Result-cases {ℓ κ} :
    {E : Type ℓ} {A : Type κ} (r : Result E A) → ((a : A) × (r ≡ ok a)) ⊎ ((e : E) × (r ≡ err e))
Result-cases (ok a) = inl (a, refl)
Result-cases (err e) = inr (e, refl)
