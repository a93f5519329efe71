-- ===== src/Hash/Group.antt =====
-- What the theorems ask of the points that the program computes with, and the commitments of
-- commitment.go under it.
use native.Mathlib.Nat.{mod-add-div}
use ozcoin.Base.{
  ℕ, zero, suc, ◌+◌, ◌*◌, ◌/◌, ◌%◌, ◌<◌, ◌≡◌, sym, ap, ◌∙◌, arith, pos, set_bytes, int_bytes,
}
use ozcoin.Types.{Bytes, Point}
use ozcoin.Env.{Env, Curve}
use ozcoin.Hash.{neg_y, h_point, pedersen_sum, pedersen_sum_pk, pedersen_diff_pk}

-- The multiples `at k` of the generator: "ScalarMult returns k*(Bx,By) where k is a number in
-- big-endian form", "ScalarBaseMult returns k*G", "Add returns the sum"; a point with its `Y`
-- negated is subtracted, and the multiple 0 is the point at infinity, (0, 0).
pub record GroupLaws (curve : Curve) : Type 0 where
  pub at : ℕ → Point
  pub zero_at : at 0 ≡ record { x = pos 0; y = pos 0 }
  pub base_at : (b : Bytes) → curve.scalar_base_mult b ≡ at (set_bytes b)
  pub mult_at : (j : ℕ) (b : Bytes) → curve.scalar_mult (at j) b ≡ at (j * set_bytes b)
  pub add_at : (j k : ℕ) → curve.add (at j) (at k) ≡ at (j + k)
  pub sub_at : (j k : ℕ) → curve.add (at (j + k)) (neg_y (at k)) ≡ at j

module _ (env : Env) (laws : GroupLaws env.curve) where
  open laws use {at}

  -- The multiple of the generator that `H` is.
  abbrev pub h_log : ℕ
  h_log = set_bytes (int_bytes (pos 11235))

  pub pedersen_sum_at :
      (blind amt : Bytes)
      → pedersen_sum env blind amt ≡ at (set_bytes blind + h_log * set_bytes amt)
  unfolding pedersen_sum pedersen_sum_pk h_point
  pedersen_sum_at blind amt = rw (
    laws.base_at (int_bytes (pos 11235)),
    pedersen_sum_pk,
    laws.base_at blind,
    laws.mult_at h_log amt,
    laws.add_at (set_bytes blind) (h_log * set_bytes amt),
  )

  pub pedersen_diff_at :
      (blind amt : Bytes) (b k : ℕ)
      → set_bytes blind ≡ k + b * set_bytes amt
      → pedersen_diff_pk env blind amt (at b) ≡ at k
  unfolding pedersen_diff_pk
  pedersen_diff_at blind amt b k e = rw (
    pedersen_diff_pk,
    laws.base_at blind,
    laws.mult_at b amt,
    e,
    laws.sub_at k (b * set_bytes amt),
  )

-- "N: the order of the base point": that multiple is the point at infinity.
pub record OrderLaws (curve : Curve) (laws : GroupLaws curve) : Type 0 where
  pub order_pos : 0 < curve.order
  pub order_at : laws.at curve.order ≡ laws.at 0

module _ (curve : Curve) (laws : GroupLaws curve) (order : OrderLaws curve laws) where
  open laws use {at}

  at_turns : (k q : ℕ) → at (k + curve.order * q) ≡ at k
  at_turns k zero = ap at (omega arith)
  at_turns k (suc q) =
      ap at (turn curve.order)
      ∙ sym (laws.add_at (k + curve.order * q) curve.order)
      ∙ ap (curve.add (at (k + curve.order * q))) order.order_at
      ∙ laws.add_at (k + curve.order * q) 0
      ∙ ap at (omega arith)
      ∙ at_turns k q
    where
      turn : (n : ℕ) → k + n * suc q ≡ k + n * q + n
      turn n = grind arith

  -- Multiples that are the same modulo the order are the same point.
  pub at_same : (j k : ℕ) → j % curve.order ≡ k % curve.order → at j ≡ at k
  at_same j k e = reduced j ∙ ap at e ∙ sym (reduced k)
    where
      reduced : (k : ℕ) → at k ≡ at (k % curve.order)
      reduced k =
          ap at (sym (mod-add-div k curve.order)) ∙ at_turns (k % curve.order) (k / curve.order)
