-- ===== src/Tests/Making.antt =====
-- Blocks that are made and mined.
use ozcoin.Base.{◌<◌, ◌≡◌, refl, arith, pos, [], ◌∷◌, length, All, true, some, none}
use ozcoin.Go.{returns}
use ozcoin.Types.{Block, Txn, WalletPublicKey, zero_header, max_block_size}
use ozcoin.Hash.{header_hash, deref}
use ozcoin.Base.{bytes_eq}
use ozcoin.Client.{Client}
use ozcoin.Block.{valid_pow, check_pow, verify_merkle_hash}
use ozcoin.Chain.{compute_difficulty, coinbase_value}
use ozcoin.Txn.{
  prevalid_block, post_valid_block, txns_from_pool, pool_from, pool_entry, valid_txn,
  verify_coinbase_txn,
}
use ozcoin.Output.{new_coinbase_txn}
use ozcoin.Mining.{fees_of, new_block, genesis_block, mine, with_root, with_difficulty}
use ozcoin.Mining.Accepted.{new_block_accepted}
use ozcoin.Mining.Genesis.{genesis_block_valid}
use ozcoin.Consensus.Main.{write_block}
use ozcoin.Store.{write_pimg, write_txn_pool}
use ozcoin.Store.Maps.{put_map_to_block}
use ozcoin.Consensus.Resolve.{mined_block_fits}
use ozcoin.Miner.{Miner, or_panic, search_nonce, next_block, begin_mining, begun}
use ozcoin.Miner.Found.{found_block_fits}
use ozcoin.Tests.Data.{toy, lonely, there}
use ozcoin.Tests.Signing.{toy_group_laws}

abbrev address : WalletPublicKey
address = record { tpk = there; ppk = there }

built : (b : Block) × (new_block toy lonely zero_header address (2 ∷ []) (pos 5) ≡ returns b)
unfolding new_block txns_from_pool pool_from pool_entry valid_txn fees_of new_coinbase_txn deref
    compute_difficulty with_root with_difficulty
built = (_, refl)

small : 33 < max_block_size
small = omega arith

built_small : All (λ t. length (toy.txn_json.encode t) < max_block_size) built.0.txns
unfolding built with_root with_difficulty
built_small = (small, tt)

new_block_accepted_example :
    (prevalid_block toy built.0 ≡ true)
    × (post_valid_block toy lonely built.0 none none ≡ returns true)
new_block_accepted_example =
    new_block_accepted toy toy_group_laws lonely zero_header address (2 ∷ []) (pos 5) built.0
      built.1 built_small

genesis : (b : Block) × (genesis_block toy 1 address (2 ∷ []) (pos 5) ≡ returns b)
unfolding genesis_block new_coinbase_txn deref with_root mine valid_pow check_pow header_hash
genesis = (_, refl)

genesis_small : All (λ t. length (toy.txn_json.encode t) < max_block_size) genesis.0.txns
unfolding genesis with_root
genesis_small = (small, tt)

genesis_block_valid_example :
    (t : Txn) × (genesis.0.txns ≡ t ∷ [])
    × (valid_pow toy genesis.0.header ≡ returns true)
    × (prevalid_block toy genesis.0 ≡ true)
    × (genesis.0.header.seq_num ≡ 0)
    × (verify_coinbase_txn toy t (coinbase_value 0) ≡ returns true)
genesis_block_valid_example =
    genesis_block_valid toy toy_group_laws 1 address (2 ∷ []) (pos 5) genesis.0 genesis.1
      genesis_small

-- The miner after its start, on a client with no txns.
begun_mining :
    (m : Miner) × (c : Client toy) × (begin_mining toy 1 address
        (2 ∷ [])
        (3 ∷ [])
        (pos 5)
        (pos 6)
        lonely
      ≡ (returns m, c))
unfolding begin_mining genesis_block new_coinbase_txn deref with_root mine valid_pow check_pow
    header_hash new_block txns_from_pool pool_from pool_entry valid_txn fees_of compute_difficulty
    with_difficulty or_panic write_block write_pimg put_map_to_block write_txn_pool
begun_mining = (_, _, refl)

-- A round in which the last header is another one: a new block is made, and its hash is good.
searched_block :
    (n : Miner) × (b : Block) × (search_nonce toy lonely address (2 ∷ []) (pos 5) begun_mining.0
      ≡ returns (n, some b))
unfolding begun_mining search_nonce next_block new_coinbase_txn deref with_root valid_pow check_pow
    header_hash new_block txns_from_pool pool_from pool_entry valid_txn fees_of compute_difficulty
    with_difficulty bytes_eq
searched_block = (_, _, refl)

found_block_fits_example :
    (valid_pow toy searched_block.1.header ≡ returns true)
    × (verify_merkle_hash toy searched_block.1 ≡ true)
    × (searched_block.1.header.prev_hash ≡ header_hash toy lonely.last_header)
    × (mined_block_fits toy lonely searched_block.1 ≡ true)
found_block_fits_example =
    found_block_fits toy address begun_mining.0 searched_block.0 lonely (2 ∷ []) (pos 5)
      searched_block.1
      (begun 1 (2 ∷ []) (3 ∷ []) (pos 5) (pos 6) lonely begun_mining.1 begun_mining.0
        begun_mining.2)
      searched_block.2
