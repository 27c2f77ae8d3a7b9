-- ===== src/Base/Errors.antt =====
-- app/services/exceptions.py: the exceptions of the service layer. A request that raises leaves
-- its session uncommitted, so a service is a value or an error, and the new database is part of
-- the value. Messages for people are left out.
use mathlib.Core.Path.{◌≡◌, refl}
use mathlib.Core.Logic.{◌⊎◌, inl, inr}
use mathlib.Core.Bool.{Bool, true, false}
use mathlib.Core.Option.{Option, none, some}

pub data DomainError : Type 0 where
  conflict auth not_found permission_denied validation : DomainError
  unavailable gone too_many_requests plan_limit : DomainError

pub data Result {ℓ} (A : Type ℓ) : Type ℓ where
  ok : A → Result A
  err : DomainError → Result A

-- The `do` blocks: a raise ends the call.
infixl 5 ◌>>=◌
abbrev pub ◌>>=◌ {ℓ κ} : {A : Type ℓ} {B : Type κ} → Result A → (A → Result B) → Result B
◌>>=◌ r k = elim r [ err raised ↦ err raised | ok value ↦ k value ]

infixl 5 ◌>>◌
abbrev pub ◌>>◌ {ℓ} : {B : Type ℓ} → Result (Unit {0}) → Result B → Result B
◌>>◌ r rest = r >>= λ _. rest

-- `if c: raise e`
abbrev pub raise_if : Bool → DomainError → Result (Unit {0})
raise_if true e = err e
raise_if false e = ok tt

abbrev pub or_raise {ℓ} : {A : Type ℓ} → Option A → DomainError → Result A
or_raise none e = err e
or_raise (some a) e = ok a

-- To split on a call and keep the equation.
pub Result-cases {ℓ} :
    {A : Type ℓ} (r : Result A) → ((e : DomainError) × (r ≡ err e)) ⊎ ((a : A) × (r ≡ ok a))
Result-cases (ok a) = inr (a, refl)
Result-cases (err e) = inl (e, refl)
