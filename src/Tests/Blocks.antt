-- ===== src/Tests/Blocks.antt =====
-- Proof of work, the Merkle hash and the coinbase schedule on a block.
use ozcoin.Base.{set_bytes, ◌≡◌, refl, ◌∷◌, [], true, ◌≤◌, ◌*◌, length, bytes_eq}
use ozcoin.Go.{returns}
use ozcoin.Hash.{txn_hash, header_hash}
use ozcoin.Block.{valid_pow, merkle_slots, slots_for, merkle_hash, verify_merkle_hash}
use ozcoin.Block.Pow.{valid_pow_lem}
use ozcoin.Block.Merkle.{merkle_slots_one, verify_merkle_hash_first}
use ozcoin.Chain.Coinbase.{issued, issued_bound}
use ozcoin.Tests.Toy.{toy_env-ShaLaws, toy_net}
use ozcoin.Tests.Data.{toy, first_header, first_block, reward_txn, spend, coin}

valid_pow_lem_example : valid_pow toy first_header ≡ returns true
unfolding header_hash set_bytes
valid_pow_lem_example =
    valid_pow_lem toy first_header (toy_env-ShaLaws (toy_net first_header first_block spend coin))

merkle_slots_one_example : (length (merkle_slots toy first_block) ≡ 1) × (2 ≤ slots_for 2 2 1)
merkle_slots_one_example = merkle_slots_one toy first_block

verify_merkle_hash_first_example :
    (merkle_hash toy first_block ≡ txn_hash toy reward_txn)
    × (verify_merkle_hash toy first_block
        ≡ bytes_eq (txn_hash toy reward_txn) first_block.header.merkle_root)
verify_merkle_hash_first_example =
    verify_merkle_hash_first toy first_block reward_txn (spend ∷ []) refl

issued_bound_example : issued 5 ≤ 2100000 * 100000000
issued_bound_example = issued_bound 5
