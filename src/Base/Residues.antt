-- ===== src/Base/Residues.antt =====
-- Sums taken modulo a number, and differences of integers brought back to it.
use Prim.Native.Nat.{ℕ, zero, suc, ◌+◌, ◌-◌, ◌*◌, ◌/◌, ◌%◌, ◌<◌}
use native.Mathlib.Nat.{mod-add-mod, mod-lt, mod-add-div, add-mul-mod_self_left}
use mathlib.Core.Path.{◌≡◌, refl, sym, ap, ◌∙◌}
use mathlib.Core.Bool.{Bool, true, false}
use native.Mathlib.Omega.{arith}
use ozcoin.Base.Tests.{leb, leb→le, if◌then◌else◌}
use ozcoin.Base.Int.{pos, negsuc, ◌-ℤ◌, ◌+ℤ◌, neg, mod_ℤ}

pub add_same : (a b c n : ℕ) → a % n ≡ b % n → (a + c) % n ≡ (b + c) % n
add_same a b c n e = sym (mod-add-mod a n c) ∙ ap (λ m. (m + c) % n) e ∙ mod-add-mod b n c

-- The two ends of a difference, brought back by the modulus.
mod_ahead : (d b y n : ℕ) → d + b ≡ y → (d % n + b) % n ≡ y % n
mod_ahead d b y n e = mod-add-mod d n b ∙ ap (λ m. m % n) e

mod_behind : (k b y n : ℕ) → 0 < n → suc k + y ≡ b → ((n - suc k % n) % n + b) % n ≡ y % n
mod_behind k b y n positive e =
    let m = suc k % n in
    let q = suc k / n in
    let parts : m + n * q ≡ suc k = mod-add-div (suc k) n in
    let lt : m < n = mod-lt (suc k) positive in
    let total : n - m + b ≡ y + n * suc q = ground arith in
    mod-add-mod (n - m) n b ∙ ap (λ v. v % n) total ∙ add-mul-mod_self_left y n (suc q)

-- The difference of two numbers modulo `n`, added to the second, is the first modulo `n`.
pub mod_difference :
    (y b n : ℕ) → 0 < n → (z : ℕ) × (mod_ℤ (pos y -ℤ pos b) n ≡ pos z) × ((z + b) % n ≡ y % n)
unfolding mod_ℤ ◌-ℤ◌ ◌+ℤ◌ neg
mod_difference y zero n positive = ((y + 0) % n, refl, mod_ahead (y + 0) 0 y n (omega arith))
mod_difference y (suc c) n positive = go (leb (suc c) y) refl
  where
    go :
        (t : Bool)
        → leb (suc c) y ≡ t
        → (z : ℕ) × (mod_ℤ (if t then pos (y - suc c) else negsuc (suc c - y - 1)) n ≡ pos z)
          × ((z + suc c) % n ≡ y % n)
    go true e = (
      (y - suc c) % n,
      refl,
      mod_ahead (y - suc c) (suc c) y n (omega (arith, leb→le (suc c) y e)),
    )
    go false e =
        let k = suc c - y - 1 in
        ((n - suc k % n) % n, refl, mod_behind k (suc c) y n positive (ground arith))
