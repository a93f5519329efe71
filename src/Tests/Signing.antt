-- ===== src/Tests/Signing.antt =====
-- A range proof and a ring signature that are made and checked.
use ozcoin.Base.{ℕ, ◌+◌, ◌≡◌, refl, pos, ◌-ℤ◌, mod_ℤ, replicate, true, ◌∷◌, [], arith, neg, ◌+ℤ◌}
use ozcoin.Go.{returns}
use ozcoin.Types.{Point}
use ozcoin.Hash.{hash, deref}
use ozcoin.Hash.Group.{GroupLaws}
use ozcoin.RangeProof.{verify, stored_rows, range_sign}
use ozcoin.Base.{some, get_elem?}
use ozcoin.Hash.{sum_int}
use ozcoin.RangeProof.{compute_blinds}
use ozcoin.RangeProof.Blinds.{compute_blinds_public}
use ozcoin.RangeProof.Complete.{verify-range_sign}
use ozcoin.Ring.{verify_ozrs, ring_sign, deref_all, commits_of, commit_differences, tabulate}
use ozcoin.Ring.Complete.{verify_ozrs-ring_sign}
use ozcoin.Types.{Txn, Output, stored, u64_mod}
use ozcoin.Base.{ℤ, int_bytes, ◌%◌}
use ozcoin.Chain.{coinbase_value}
use ozcoin.Txn.{verify_coinbase_txn}
use ozcoin.Output.{belongs_to_me, compute_txn_private_key, new_coinbase_txn}
use ozcoin.Output.Received.{wallet, new_coinbase_txn_received}
use ozcoin.Tests.Toy.{toy_curve, origin, flat}
use ozcoin.Tests.Data.{toy, spend, spend_inputs}

abbrev pub toy_group_laws : GroupLaws toy_curve
toy_group_laws = record {
  at = λ k. origin;
  zero_at = refl;
  base_at = λ b. refl;
  mult_at = λ j b. refl;
  add_at = λ j k. refl;
  sub_at = λ j k. refl;
}

abbrev draw : ℕ → ℕ
draw i = i + 40

verify-range_sign_example :
    verify toy
      (stored_rows (range_sign toy 5 draw draw (pos 9)).0 (range_sign toy 5 draw draw (pos 9)).1)
    ≡ returns true
verify-range_sign_example = verify-range_sign toy toy_group_laws 5 draw draw (pos 9)

abbrev one_point : ℕ → Point
one_point i = origin

opened : deref_all (commits_of spend.body.outputs) ≡ returns (origin ∷ origin ∷ [])
unfolding deref_all commits_of deref
opened = refl

differences :
    commit_differences toy (origin ∷ origin ∷ []) 3 (replicate 8 origin) ≡ tabulate 8 0 one_point
unfolding commit_differences tabulate
differences = refl

blinds : mod_ℤ (pos 5 -ℤ pos 3) 7 ≡ pos 2
unfolding ◌-ℤ◌ ◌+ℤ◌ neg mod_ℤ
blinds = refl

verify_ozrs-ring_sign_example :
    verify_ozrs toy
      (record spend {
        sig =
            ring_sign toy
              (pos 4)
              (pos 5)
              (pos 3)
              6
              8
              draw
              draw
              (hash toy (3 ∷ flat spend_inputs))
              one_point
              one_point
              2;
      })
      (tabulate 8 0 one_point)
      (replicate 8 origin)
    ≡ returns true
verify_ozrs-ring_sign_example =
    verify_ozrs-ring_sign toy toy_group_laws spend (origin ∷ origin ∷ []) (replicate 8 origin)
      one_point one_point 4 2 6 8 (pos 5) (pos 3) draw draw 2 opened differences (omega arith) refl
      refl blinds

new_coinbase_txn_received_example :
    let priv = wallet toy toy_group_laws 3 5 in
    (t : Txn) × (o : Output) × (x : ℤ) × (new_coinbase_txn toy priv.tracking_key.public_key 1 7
        (2 ∷ [])
      ≡ returns t)
    × (t.body.outputs ≡ o ∷ [])
    × (belongs_to_me toy o priv.tracking_key ≡ returns true)
    × (compute_txn_private_key toy o priv ≡ returns x)
    × (o.dest_key ≡ stored (toy.curve.scalar_base_mult (int_bytes x)))
    × (verify_coinbase_txn toy t ((coinbase_value 1 + 7) % u64_mod) ≡ returns true)
new_coinbase_txn_received_example = new_coinbase_txn_received toy toy_group_laws 3 5 1 7 (2 ∷ [])

compute_blinds_public_example :
    get_elem? (compute_blinds toy (pos 12345)) 7 ≡ some (sum_int (hash toy []))
compute_blinds_public_example = compute_blinds_public toy (pos 12345) 7 (omega arith) (omega arith)
