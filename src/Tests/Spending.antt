-- ===== src/Tests/Spending.antt =====
-- The checks of txns.
use ozcoin.Base.{◌≡◌, ◌↔◌, ◌<◌, refl, ◌∷◌, [], none, true, length, All}
use ozcoin.Go.{returns}
use ozcoin.Types.{zero_sum, max_block_size}
use ozcoin.Hash.{preimage_hash, deref, point_bytes, neg_y}
use ozcoin.Base.{int_bytes}
use ozcoin.Chain.{coinbase_value}
use ozcoin.Txn.{valid_txn, verify_txns, verify_coinbase_txn}
use ozcoin.Txn.Valid.{valid_txn_iff, IsComplete}
use ozcoin.Txn.Spends.{verify_txns_repeated, fees_added}
use ozcoin.Tests.Data.{toy, light, first_header, reward_txn, spend}
use ozcoin.Tests.Extending.{spend_verifies}

valid_txn_iff_example : (valid_txn toy spend ≡ true) ↔ (
    (length spend.body.inputs ≡ 8)
    × (length spend.body.outputs ≡ 2)
    × (length (toy.txn_json.encode spend) < max_block_size)
    × All IsComplete spend.body.outputs)
valid_txn_iff_example = valid_txn_iff toy spend

paid_twice : verify_coinbase_txn toy reward_txn (fees_added 2 3 (coinbase_value 1)) ≡ returns true
unfolding verify_coinbase_txn deref neg_y
paid_twice = refl

verify_txns_repeated_example :
    verify_txns toy light
      (record { header = first_header; txns = reward_txn ∷ spend ∷ spend ∷ [] })
      none
      none
    ≡ returns true
verify_txns_repeated_example =
    verify_txns_repeated toy light 2 first_header reward_txn spend spend_verifies paid_twice

a_preimage : preimage_hash toy spend ≡ returns zero_sum
unfolding preimage_hash deref point_bytes int_bytes
a_preimage = refl
