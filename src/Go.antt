-- ===== src/Go.antt =====
-- How a Go call ends, and the two monads in which the program's functions are written: `Read`
-- for code that only reads its receiver, `Run` for code that changes it.
pub mod Read
pub mod Run
use ozcoin.Base.{String, ◌≡◌, refl, ◌⊎◌, inl, inr}

-- The pair `(value, error)` that a call into a library returns.
pub data Result (A : Type 0) : Type 0 where
  ok : A → Result A
  err : String → Result A

-- A call of the program's own: it returns a value with a nil error, returns an error, panics, or
-- goes on for ever (the loop's fuel ran out).
pub data Outcome (A : Type 0) : Type 0 where
  returns : A → Outcome A
  fails : String → Outcome A
  panics diverges : Outcome A

abbrev pub of_result : {A : Type 0} → Result A → Outcome A
of_result (ok a) = returns a
of_result (err e) = fails e

-- The call ends with an error.
abbrev pub Fails : {A : Type 0} → Outcome A → Type 0
Fails m = (e : String) × (m ≡ fails e)

pub Result-cases :
    {A : Type 0} (r : Result A) → ((a : A) × (r ≡ ok a)) ⊎ ((e : String) × (r ≡ err e))
Result-cases (ok a) = inl (a, refl)
Result-cases (err e) = inr (e, refl)

pub returns-injective : {A : Type 0} {a b : A} → returns a ≡ returns b → a ≡ b
returns-injective {A} {a} {b} e = cc
