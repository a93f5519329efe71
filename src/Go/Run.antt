-- ===== src/Go/Run.antt =====
-- Sequencing of calls that change the state `S` of their receiver. What was written before an
-- error or a panic stays written.
use ozcoin.Base.{String, Option, none, some, ◌≡◌, refl, ap, ◌∙◌}
use ozcoin.Go.{Result, ok, err, Outcome, returns, fails, panics, diverges}

abbrev pub Action : Type 0 → Type 0 → Type 0
Action S A = S → Outcome A × S

abbrev pub and_then : {S A B : Type 0} → Outcome A → S → (A → Action S B) → Outcome B × S
and_then (returns a) s f = f a s
and_then (fails e) s f = (fails e, s)
and_then panics s f = (panics, s)
and_then diverges s f = (diverges, s)

infixl 5 ◌>>=◌ ◌>>◌
abbrev pub ◌>>=◌ : {S A B : Type 0} → Action S A → (A → Action S B) → Action S B
◌>>=◌ m f s = let (r, s') = m s in and_then r s' f

abbrev pub ◌>>◌ : {S A B : Type 0} → Action S A → Action S B → Action S B
m >> k = m >>= λ _. k

module _ {S A : Type 0} where
  abbrev pub pure : A → Action S A
  pure a s = (returns a, s)

  abbrev pub throw : String → Action S A
  throw e s = (fails e, s)

  abbrev pub panic : Action S A
  panic s = (panics, s)

  -- A call that reads the state.
  abbrev pub reads : (S → Outcome A) → Action S A
  reads f s = (f s, s)

abbrev pub modify : {S : Type 0} → (S → S) → Action S (Unit {0})
modify f s = (returns tt, f s)

-- A call that returns only an `error`.
abbrev pub of_error : Option String → Outcome (Unit {0})
of_error none = returns tt
of_error (some x) = fails x

abbrev pub checked : {S : Type 0} → (S → Option String × S) → Action S (Unit {0})
checked f s = let (e, s') = f s in (of_error e, s')

-- `x, err := f()` where the code goes on to look at `err` itself.
abbrev pub caught : {S A : Type 0} → Action S A → Action S (Result A)
caught m s =
    let (r, s') = m s in
    (
      elim r [
        | returns a ↦ returns (ok a)
        | fails e ↦ returns (err e)
        | panics ↦ panics
        | diverges ↦ diverges
      ],
      s',
    )

-- A first step that is known to end in some way, and what the chain then does.
module _ {S A B : Type 0} (m : Action S A) (f : A → Action S B) (s : S) {t : S} where
  pub >>=-of_returns : {a : A} → m s ≡ (returns a, t) → (m >>= f) s ≡ f a t
  >>=-of_returns e = ap (λ (q : Outcome A × S). and_then q.0 q.1 f) e

  pub >>=-of_fails : {x : String} → m s ≡ (fails x, t) → (m >>= f) s ≡ (fails x, t)
  >>=-of_fails e = ap (λ (q : Outcome A × S). and_then q.0 q.1 f) e

  pub >>=-of_panics : m s ≡ (panics, t) → (m >>= f) s ≡ (panics, t)
  >>=-of_panics e = ap (λ (q : Outcome A × S). and_then q.0 q.1 f) e

  -- A chain that returned has a first step that returned.
  pub >>=-eq-returns :
      {b : B}
      → (m >>= f) s ≡ (returns b, t)
      → (a : A) × (s' : S) × (m s ≡ (returns a, s')) × (f a s' ≡ (returns b, t))
  >>=-eq-returns e = split (m s) refl e
    where
      split :
          (q : Outcome A × S) {b : B}
          → m s ≡ q
          → and_then q.0 q.1 f ≡ (returns b, t)
          → (a : A) × (s' : S) × (m s ≡ (returns a, s')) × (f a s' ≡ (returns b, t))
      split (returns a, s') p e = (a, s', p, e)
      split (fails x, s') p e = cc
      split (panics, s') p e = cc
      split (diverges, s') p e = cc

pub of_error-eq-returns : (x : Option String) → of_error x ≡ returns tt → x ≡ none
of_error-eq-returns none e = refl
of_error-eq-returns (some x) e = cc

-- The same with the state that the first step leaves.
pub >>=-returned :
    {S A B : Type 0} (m : Action S A) (f : A → Action S B) (s : S) {b : B} {t : S}
    → (m >>= f) s ≡ (returns b, t)
    → (a : A) × ((m s).0 ≡ returns a) × (f a (m s).1 ≡ (returns b, t))
>>=-returned {S} {A} m f s e =
    let (a, s', e1, r) = >>=-eq-returns m f s e in
    (a, ap (λ (q : Outcome A × S). q.0) e1, ap (λ (q : Outcome A × S). f a q.1) e1 ∙ r)
