-- ===== src/Tests/Payments.antt =====
-- A payment that is made, signed, received and decrypted.
use ozcoin.Base.{
  ℕ, zero, suc, ◌+◌, ◌-◌, ◌*◌, ◌^◌, ◌<◌, ◌≡◌, ◌≢◌, refl, sym, ap, ◌∙◌, arith, ℤ, pos, neg, ◌+ℤ◌,
  ◌*ℤ◌, le→leb, [], ◌∷◌, replicate, some, true, int_bytes, set_bytes, set_bytes-int_bytes,
  if◌then◌else◌,
}
use native.Mathlib.Nat.{pow-suc}
use ozcoin.Go.{returns}
use ozcoin.Types.{Point, stored, Output, Txn}
use ozcoin.Env.{Env, Curve}
use ozcoin.Hash.{deref, neg_y}
use ozcoin.Hash.Group.{GroupLaws, OrderLaws, h_log}
use ozcoin.Output.{belongs_to_me, compute_txn_private_key}
use ozcoin.Output.Received.{wallet}
use ozcoin.Ring.{infinity, deref_all, commits_of}
use ozcoin.Txn.{dest_keys, verify_signatures}
use ozcoin.Payment.{Draws, OutputPlaintext, build_output, compute_blinding_factor, decrypt, new_txn}
use ozcoin.Payment.Signed.{new_txn_verifies}
use ozcoin.Payment.Received.{payment_received}
use ozcoin.Tests.Toy.{toy_curve, origin}
use ozcoin.Tests.Data.{toy, coin, there}
use ozcoin.Tests.Signing.{toy_group_laws}

-- A point is a multiple of the generator, as its second coordinate.
abbrev on_line : ℕ → Point
on_line k = record { x = pos 0; y = pos k }

abbrev line : Curve
line = record {
  add = λ p q. record { x = pos 0; y = p.y +ℤ q.y };
  scalar_mult = λ p k. record { x = pos 0; y = p.y *ℤ pos (set_bytes k) };
  scalar_base_mult = λ k. on_line (set_bytes k);
  order = 7;
}

line_subtracts : (j k : ℕ) → pos (j + k) +ℤ neg (pos k) ≡ pos j
unfolding ◌+ℤ◌ neg
line_subtracts j zero = ap pos (omega arith)
line_subtracts j (suc k) =
    ap (λ b. if b then pos (j + suc k - suc k) else ℤ.negsuc (suc k - (j + suc k) - 1))
      (le→leb (suc k) (j + suc k) (omega arith))
    ∙ ap pos (omega arith)

multiplies :
    (j n : ℕ) → ◌≡◌ {A = Point} (record { x = pos 0; y = pos j *ℤ pos n }) (on_line (j * n))
unfolding ◌*ℤ◌
multiplies j n = refl

adds : (j k : ℕ) → ◌≡◌ {A = Point} (record { x = pos 0; y = pos j +ℤ pos k }) (on_line (j + k))
unfolding ◌+ℤ◌
adds j k = refl

subtracts : (j k : ℕ) → line.add (on_line (j + k)) (neg_y (on_line k)) ≡ on_line j
unfolding neg_y
subtracts j k = ap (λ y. record { x = pos 0; y = y }) (line_subtracts j k)

abbrev line_laws : GroupLaws line
line_laws = record {
  at = on_line;
  zero_at = refl;
  base_at = λ b. refl;
  mult_at = λ j b. multiplies j (set_bytes b);
  add_at = λ j k. adds j k;
  sub_at = subtracts;
}

abbrev on_line_env : Env
on_line_env = record toy { curve = line }

pos-injective : {m n : ℕ} → pos m ≡ pos n → m ≡ n
pos-injective e = cc

h_is : h_log on_line_env line_laws ≡ 11235
h_is = set_bytes-int_bytes (pos 11235)

power_positive : (j : ℕ) → 0 < 11235 * 2 ^ j
power_positive zero = omega arith
power_positive (suc j) = rw (pow-suc 2 j) (omega (arith, power_positive j))

amounts_apart : (j : ℕ) → j < 34 → on_line (h_log on_line_env line_laws * 2 ^ j) ≢ infinity
amounts_apart j lt e =
    let z : 11235 * 2 ^ j ≡ 0 =
      ap (λ h. h * 2 ^ j) (sym h_is) ∙ pos-injective (ap (λ (p : Point). p.y) e) in
    omega (arith, power_positive j)

abbrev drawn : Draws
drawn = record { r = 3 ∷ []; q = int_bytes (pos 2); k = λ i. i + 40; s = λ i. i + 50 }

payment_received_example :
    let priv = wallet on_line_env line_laws 3 5 in
    (o : Output) × (blind x : ℤ) × (op : OutputPlaintext) × (build_output on_line_env 12
        priv.tracking_key.public_key drawn
      ≡ returns (o, blind))
    × (belongs_to_me on_line_env o priv.tracking_key ≡ returns true)
    × (compute_txn_private_key on_line_env o priv ≡ returns x)
    × (o.dest_key ≡ stored (on_line_env.curve.scalar_base_mult (int_bytes x)))
    × (compute_blinding_factor on_line_env o priv ≡ returns blind)
    × (decrypt on_line_env (λ b. b) o priv ≡ returns (some op))
    × (op.amount ≡ 2 ^ 34 - 1 - 12)
payment_received_example =
    payment_received on_line_env line_laws (λ b. b) 3 5 12 drawn amounts_apart (omega arith) seeded
  where
    seeded : on_line (set_bytes (int_bytes (pos 2))) ≢ infinity
    seeded e = omega (arith, set_bytes-int_bytes (pos 2), pos-injective (ap (λ (p : Point). p.y) e))

abbrev toy_order_laws : OrderLaws toy_curve toy_group_laws
toy_order_laws = record { order_pos = omega arith; order_at = refl }

keys_opened : deref_all (dest_keys (replicate 8 coin)) ≡ returns (replicate 8 origin)
unfolding deref_all dest_keys deref
keys_opened = refl

commits_opened : deref_all (commits_of (replicate 8 coin)) ≡ returns (replicate 8 origin)
unfolding deref_all commits_of deref
commits_opened = refl

new_txn_verifies_example :
    (t : Txn) × (new_txn toy
        (λ i. drawn)
        6
        8
        (λ i. i)
        (λ i. i)
        (some (replicate 8 coin))
        (pos 4)
        (pos 9)
        (pos 2)
        (some (5 ∷ 6 ∷ []))
        (some (record { tpk = there; ppk = there } ∷ record { tpk = there; ppk = there } ∷ []))
        3
      ≡ returns (some t))
    × (verify_signatures toy t (replicate 8 coin) ≡ returns true)
new_txn_verifies_example =
    new_txn_verifies toy toy_group_laws toy_order_laws (λ i. drawn) 6 8 (λ i. i) (λ i. i)
      (replicate 8 coin) 4 9 2 (5 ∷ 6 ∷ [])
      (record { tpk = there; ppk = there } ∷ record { tpk = there; ppk = there } ∷ []) 3
      (replicate 8 origin) (replicate 8 origin) refl (omega arith) keys_opened commits_opened refl
      refl (omega arith, (omega arith, tt)) ((origin, origin, refl), ((origin, origin, refl), tt))
      (omega arith)
