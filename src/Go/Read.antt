-- ===== src/Go/Read.antt =====
-- Sequencing of calls that change nothing: an error, a panic or a loop ends the chain.
use ozcoin.Base.{◌≡◌, refl}
use ozcoin.Go.{Result, ok, err, Outcome, returns, fails, panics, diverges}

infixl 5 ◌>>=◌
abbrev pub ◌>>=◌ : {A B : Type 0} → Outcome A → (A → Outcome B) → Outcome B
returns a >>= f = f a
fails e >>= f = fails e
panics >>= f = panics
diverges >>= f = diverges

-- `x, err := f()` where the code goes on to look at `err` itself.
abbrev pub caught : {A : Type 0} → Outcome A → Outcome (Result A)
caught (returns a) = returns (ok a)
caught (fails e) = returns (err e)
caught panics = panics
caught diverges = diverges

-- A chain that returned has a first step that returned.
pub >>=-eq-returns :
    {A B : Type 0} (m : Outcome A) (f : A → Outcome B) {b : B}
    → (m >>= f) ≡ returns b
    → (a : A) × (m ≡ returns a) × (f a ≡ returns b)
>>=-eq-returns (returns a) f e = (a, refl, e)
>>=-eq-returns (fails x) f e = cc
>>=-eq-returns panics f e = cc
>>=-eq-returns diverges f e = cc
