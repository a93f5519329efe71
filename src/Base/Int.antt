-- ===== src/Base/Int.antt =====
-- `math/big` integers: those operations that the program calls. `negsuc n` is -(n + 1).
use Prim.Native.Nat.{ℕ, zero, suc, ◌+◌, ◌-◌, ◌*◌, ◌/◌, ◌%◌, ◌^◌, ◌<◌, ◌≤◌}
use mathlib.Core.Path.{◌≡◌, refl}
use mathlib.Core.Bool.{Bool, true, false}
use mathlib.Core.List.{List, [], ◌∷◌, ◌++◌}
use native.Mathlib.Omega.{arith}
use native.Mathlib.Nat.{pow-suc}
use ozcoin.Base.Lists.{length, All}
use ozcoin.Base.Tests.{ltb, leb, ◌==◌, if◌then◌else◌}

pub data ℤ : Type 0 where
  pos : ℕ → ℤ
  negsuc : ℕ → ℤ

-- a - b, as an integer.
abbrev pub sub_ℕ : ℕ → ℕ → ℤ
sub_ℕ a b = if leb b a then pos (a - b) else negsuc (b - a - 1)

-- `Int.Neg`
unfoldable pub neg : ℤ → ℤ
neg (pos zero) = pos zero
neg (pos (suc n)) = negsuc n
neg (negsuc n) = pos (suc n)

-- `Int.Add`, `Int.Sub`, `Int.Mul`
infixl 65 ◌+ℤ◌ ◌-ℤ◌
infixl 70 ◌*ℤ◌
unfoldable pub ◌+ℤ◌ : ℤ → ℤ → ℤ
pos a +ℤ pos b = pos (a + b)
pos a +ℤ negsuc b = sub_ℕ a (suc b)
negsuc a +ℤ pos b = sub_ℕ b (suc a)
negsuc a +ℤ negsuc b = negsuc (suc (a + b))

unfoldable pub ◌-ℤ◌ : ℤ → ℤ → ℤ
unfolding ◌+ℤ◌ neg
a -ℤ b = a +ℤ neg b

unfoldable pub ◌*ℤ◌ : ℤ → ℤ → ℤ
unfolding neg
pos a *ℤ pos b = pos (a * b)
pos a *ℤ negsuc b = neg (pos (a * suc b))
negsuc a *ℤ pos b = neg (pos (suc a * b))
negsuc a *ℤ negsuc b = pos (suc a * suc b)

-- `Int.Mod` by a positive modulus: the result is never negative.
unfoldable pub mod_ℤ : ℤ → ℕ → ℤ
mod_ℤ (pos a) n = pos (a % n)
mod_ℤ (negsuc a) n = pos ((n - suc a % n) % n)

-- The absolute value, which is all that `Int.Bytes` writes.
abbrev pub abs_ℤ : ℤ → ℕ
abs_ℤ (pos n) = n
abs_ℤ (negsuc n) = suc n

-- `x.Cmp(y) == 0`
abbrev pub eq_ℤ : ℤ → ℤ → Bool
eq_ℤ (pos a) (pos b) = a == b
eq_ℤ (pos a) (negsuc b) = false
eq_ℤ (negsuc a) (pos b) = false
eq_ℤ (negsuc a) (negsuc b) = a == b

pub eq_ℤ-sound : (a b : ℤ) → eq_ℤ a b ≡ true → a ≡ b
eq_ℤ-sound (pos a) (pos b) h = ground arith
eq_ℤ-sound (pos a) (negsuc b) h = cc
eq_ℤ-sound (negsuc a) (pos b) h = cc
eq_ℤ-sound (negsuc a) (negsuc b) h = ground arith

pub eq_ℤ_refl : (a : ℤ) → eq_ℤ a a ≡ true
eq_ℤ_refl (pos a) = ground arith
eq_ℤ_refl (negsuc a) = ground arith

-- Big-endian bytes with no leading zero, on fuel; the number itself is fuel enough.
be_bytes : ℕ → ℕ → List ℕ
be_bytes zero n = []
be_bytes (suc fuel) n =
    let rest = be_bytes fuel (n / 256) ++ (n % 256) ∷ [] in if n == 0 then [] else rest

-- `Int.Bytes`
unfoldable pub int_bytes : ℤ → List ℕ
unfolding be_bytes
int_bytes z = be_bytes (abs_ℤ z) (abs_ℤ z)

set_bytes_from : ℕ → List ℕ → ℕ
set_bytes_from acc [] = acc
set_bytes_from acc (b ∷ bs) = set_bytes_from (acc * 256 + b) bs

-- `Int.SetBytes`, as a natural number.
unfoldable pub set_bytes : List ℕ → ℕ
unfolding set_bytes_from
set_bytes = set_bytes_from 0

set_bytes_from-snoc :
    (acc b : ℕ) (bs : List ℕ) → set_bytes_from acc (bs ++ b ∷ []) ≡ set_bytes_from acc bs * 256 + b
unfolding set_bytes_from
set_bytes_from-snoc acc b [] = refl
set_bytes_from-snoc acc b (c ∷ bs) = set_bytes_from-snoc (acc * 256 + c) b bs

set_bytes-be_bytes : (fuel n : ℕ) → n ≤ fuel → set_bytes (be_bytes fuel n) ≡ n
unfolding be_bytes set_bytes
set_bytes-be_bytes zero n h = omega arith
set_bytes-be_bytes (suc fuel) n h = ground (
  arith,
  set_bytes_from-snoc 0 (n % 256) (be_bytes fuel (n / 256)),
  set_bytes-be_bytes fuel (n / 256),
)

-- Writing and reading back gives the absolute value.
pub set_bytes-int_bytes : (z : ℤ) → set_bytes (int_bytes z) ≡ abs_ℤ z
unfolding int_bytes
set_bytes-int_bytes z = set_bytes-be_bytes (abs_ℤ z) (abs_ℤ z) (omega arith)

-- `x.Cmp(y) < 0`
abbrev pub ltb_ℤ : ℤ → ℤ → Bool
ltb_ℤ (pos a) (pos b) = ltb a b
ltb_ℤ (pos a) (negsuc b) = false
ltb_ℤ (negsuc a) (pos b) = true
ltb_ℤ (negsuc a) (negsuc b) = ltb b a

shift_digit :
    (acc b p q m n k : ℕ)
    → m ≡ (acc * 256 + b) * p + k
    → n ≡ (0 * 256 + b) * p + k
    → q ≡ p * 256
    → m ≡ acc * q + n
shift_digit acc b p q m n k e f g = rw (e, f, g) (omega arith)

set_bytes_from-eq :
    (acc : ℕ) (bs : List ℕ) → set_bytes_from acc bs ≡ acc * 256 ^ length bs + set_bytes bs
unfolding set_bytes_from set_bytes
set_bytes_from-eq acc [] = omega arith
set_bytes_from-eq acc (b ∷ bs) =
    shift_digit acc b (256 ^ length bs) _ _ _ _ (set_bytes_from-eq (acc * 256 + b) bs)
      (set_bytes_from-eq (0 * 256 + b) bs) (pow-suc 256 (length bs))

-- The first byte is the most significant one.
pub set_bytes-cons : (b : ℕ) (bs : List ℕ) → set_bytes (b ∷ bs) ≡ b * 256 ^ length bs + set_bytes bs
unfolding set_bytes set_bytes_from
set_bytes-cons b bs = omega (arith, set_bytes_from-eq (0 * 256 + b) bs)

pub set_bytes_lt : (bs : List ℕ) → All (λ b. b < 256) bs → set_bytes bs < 256 ^ length bs
unfolding set_bytes set_bytes_from
set_bytes_lt [] h = omega arith
set_bytes_lt (b ∷ bs) (small, rest) =
    let step : set_bytes (b ∷ bs) ≡ b * 256 ^ length bs + set_bytes bs = set_bytes-cons b bs in
    let below : set_bytes bs < 256 ^ length bs = set_bytes_lt bs rest in
    let e : 256 ^ suc (length bs) ≡ 256 ^ length bs * 256 = pow-suc 256 (length bs) in
    grind (arith, step, below, e)
