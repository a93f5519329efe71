-- ===== src/Tests/Swapping.antt =====
-- `SwapMainFork` on a client that has the blocks of both paths.
use ozcoin.Base.{◌≡◌, refl, false, none, some, inl, inr, [], ◌∷◌, String, if◌then◌else◌}
use ozcoin.Go.{ok, err, returns, fails, Fails}
use ozcoin.Types.{Sha256Sum, zero_sum}
use ozcoin.Env.{Env, put}
use ozcoin.Env.Laws.{after}
use ozcoin.Hash.{preimage_hash, deref, point_bytes, header_hash, output_hash}
use ozcoin.Base.{int_bytes, bytes_eq}
use ozcoin.Block.{verify_merkle_hash, merkle_hash, merkle_slots}
use ozcoin.Client.{Client, blockchain_client, is_blockchain}
use ozcoin.Gossip.{fetch_block, dial_peer}
use ozcoin.Load.{find_block, load_block}
use ozcoin.Store.{
  get_header, get_block, get_side_block, get_orphan_block, write_pimg, write_txn_pool, write_map,
}
use ozcoin.Store.Maps.{
  put_map_to_block, delete_map_to_block, map_changes, txn_changes, output_changes,
}
use ozcoin.Txn.{has_sum, verify_txn}
use ozcoin.Consensus.Swap.{
  swap_main_fork, path_headers, path_blocks, put_headers, put_blocks, over_blocks, leaving, joining,
  write_headers, write_side_headers, write_blocks, write_side_blocks, write_both, each_block,
  on_block, inform_of_swap,
}
use ozcoin.Consensus.Swap.Headers.{swap_main_fork_headers}
use ozcoin.Consensus.Swap.Spent.{swap_main_fork-no_respend}
use ozcoin.Consensus.Swap.Refused.{swap_main_fork_refused}
use ozcoin.Tests.Toy.{
  toy_ldb-DbLaws, header_codec-ReadsBack, header_codec-KeepsTarget, reading, encode_header, fit,
}
use ozcoin.Tests.Data.{toy, light, first_header, first_block, first_hash, spend}

-- Every stored block reads as the first one, with its txns.
abbrev whole : Env
whole = record toy {
  block_json = reading (λ b. encode_header b.header) (λ z b. ok (some first_block));
}

abbrev side_hash : Sha256Sum
side_hash = fit 32 (5 ∷ [])

-- A client with both blocks, and a peer that has the first one.
abbrev forked : Client whole
forked = record {
  type = blockchain_client;
  last_header = first_header;
  update_wallet = false;
  address = light.address;
  spawned = [];
  dbm = record (light.dbm) {
    header_db =
        put first_hash (encode_header first_header)
        ∷ put side_hash (encode_header first_header)
        ∷ [];
    block_db = put first_hash [] ∷ put side_hash [] ∷ [];
  };
}

abbrev swapped : Client whole
swapped = (swap_main_fork whole (first_hash ∷ []) (side_hash ∷ []) forked).1

succeeds : (swap_main_fork whole (first_hash ∷ []) (side_hash ∷ []) forked).0 ≡ returns tt
unfolding swap_main_fork path_headers path_blocks put_headers put_blocks over_blocks leaving joining
    write_headers write_side_headers write_blocks write_side_blocks write_both each_block on_block
    inform_of_swap write_pimg write_txn_pool write_map put_map_to_block delete_map_to_block
    map_changes txn_changes output_changes find_block load_block fetch_block dial_peer get_header
    get_block get_side_block get_orphan_block is_blockchain preimage_hash deref point_bytes
    int_bytes output_hash header_hash verify_merkle_hash merkle_hash merkle_slots after bytes_eq
succeeds = refl

swaps : swap_main_fork whole (first_hash ∷ []) (side_hash ∷ []) forked ≡ (returns tt, swapped)
swaps i = (succeeds i, swapped)

swap_main_fork_headers_example :
    (get_header whole swapped first_hash ≡ (
      if has_sum first_hash (side_hash ∷ [])
      then get_header whole forked first_hash
      else if has_sum first_hash (first_hash ∷ [])
      then fails "leveldb: not found"
      else get_header whole forked first_hash))
    × (whole.ldb.get swapped.dbm.side_header_db first_hash ≡ (
        if has_sum first_hash (side_hash ∷ [])
        then whole.ldb.get swapped.dbm.header_db first_hash
        else if has_sum first_hash (first_hash ∷ [])
        then err "leveldb: not found"
        else whole.ldb.get forked.dbm.side_header_db first_hash))
swap_main_fork_headers_example =
    swap_main_fork_headers whole (first_hash ∷ []) (side_hash ∷ []) forked swapped toy_ldb-DbLaws
      header_codec-ReadsBack swaps first_hash

stored_side : get_block whole forked side_hash ≡ returns (some first_block)
unfolding get_block after bytes_eq
stored_side = refl

zero_preimage : preimage_hash whole spend ≡ returns zero_sum
unfolding preimage_hash deref point_bytes int_bytes
zero_preimage = refl

swap_main_fork-no_respend_example : verify_txn whole swapped spend none ≡ returns false
swap_main_fork-no_respend_example =
    swap_main_fork-no_respend whole (first_hash ∷ []) (side_hash ∷ []) forked swapped side_hash
      first_block spend spend zero_sum none toy_ldb-DbLaws swaps (inl refl) stored_side
      (inr (inl refl)) zero_preimage zero_preimage refl

unstored : Fails (get_header toy light first_hash)
unfolding get_header after
unstored = ("leveldb: not found", refl)

swap_main_fork_refused_example :
    (x : String) × (swap_main_fork toy [] (first_hash ∷ []) light ≡ (fails x, light))
unfolding has_sum bytes_eq
swap_main_fork_refused_example =
    swap_main_fork_refused toy toy_ldb-DbLaws header_codec-KeepsTarget [] (first_hash ∷ []) light
      first_hash refl unstored
