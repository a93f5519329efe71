-- ===== src/Tests/Reading.antt =====
-- Reads of the databases and of a peer.
use ozcoin.Base.{◌≡◌, refl, ◌∷◌, [], bytes_eq}
use ozcoin.Go.{returns, Fails}
use ozcoin.Hash.{header_hash, output_hash}
use ozcoin.Block.{merkle_hash, verify_merkle_hash, merkle_slots}
use ozcoin.Store.{get_side_header, get_orphan_header, get_side_block, get_orphan_block}
use ozcoin.Store.Reads.{side_reads_fail}
use ozcoin.Gossip.{fetch_block, fetch_output, dial_peer}
use ozcoin.Gossip.Answers.{fetch_block_checked}
use ozcoin.Tests.Toy.{toy_ldb-DbLaws, header_codec-RejectsNil, block_codec-RejectsNil}
use ozcoin.Tests.Data.{toy, light, first_hash, first_block, coin, coin_hash}

side_reads_fail_example :
    Fails (get_side_header toy light first_hash)
    × Fails (get_orphan_header toy light first_hash)
    × Fails (get_side_block toy light first_hash)
    × Fails (get_orphan_block toy light first_hash)
side_reads_fail_example =
    side_reads_fail toy toy_ldb-DbLaws light first_hash header_codec-RejectsNil
      block_codec-RejectsNil

fetched : fetch_block toy light first_hash (1 ∷ []) ≡ returns first_block
unfolding fetch_block header_hash verify_merkle_hash merkle_hash merkle_slots dial_peer bytes_eq
fetched = refl

fetch_block_checked_example :
    (header_hash toy first_block.header ≡ first_hash)
    × (merkle_hash toy first_block ≡ first_block.header.merkle_root)
fetch_block_checked_example = fetch_block_checked toy light first_hash (1 ∷ []) first_block fetched

fetched_coin : fetch_output toy light coin_hash (1 ∷ []) ≡ returns coin
unfolding fetch_output output_hash dial_peer bytes_eq
fetched_coin = refl
