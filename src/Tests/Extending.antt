-- ===== src/Tests/Extending.antt =====
-- `ExtendMainChain`, `AddOrOrphanHelper` and `ExtendSideChain` on a block.
use ozcoin.Base.{
  replicate, ◌≡◌, refl, none, some, inl, true, false, if◌then◌else◌, bytes_eq, String,
}
use ozcoin.Go.{Outcome, returns, fails}
use ozcoin.Types.{Sha256Sum, Block, zero_sum}
use ozcoin.Hash.{header_hash, preimage_hash}
use ozcoin.Client.{Client}
use ozcoin.Block.{valid_header}
use ozcoin.Load.{load_or_fetch_block}
use ozcoin.Store.{get_header}
use ozcoin.Txn.{prevalid_block, post_valid_block, verify_txn}
use ozcoin.Consensus.Main.{extend_main_chain}
use ozcoin.Consensus.Adopt.{add_or_orphan_helper, extend_side_chain}
use ozcoin.Consensus.Extend.{extend_main_chain-no_respend, extend_main_chain_effect}
use ozcoin.Consensus.Tip.{zero_parent_extends, adopted_is_tip}
use ozcoin.Consensus.Grown.{Grows, unmoved, adopt, Grows-refines}
use ozcoin.Chain.Listed.{difficulty_of}
use ozcoin.Chain.{nth_ancestor_header}
use ozcoin.Consensus.Side.{extend_side_chain_fails}
use ozcoin.Base.{int_bytes, [], ◌∷◌, sym}
use ozcoin.Chain.{valid_difficulty, compute_difficulty, fork_txns_and_preimages, coinbase_value}
use ozcoin.Txn.{
  verify_txns, verify_rest, preimage_refused, gather_inputs, verify_signatures, verify_coinbase_txn,
  verify_proofs, input_refused, dest_keys,
}
use ozcoin.Hash.{deref, point_bytes, neg_y, output_hash, hash}
use ozcoin.Load.{find_output}
use ozcoin.Gossip.{fetch_output}
use ozcoin.Ring.{
  verify_ozrs, ring_hash, ring_rows, deref_all, commits_of, commit_differences, compute_e3,
}
use ozcoin.RangeProof.{verify, open_rows, verify_rows, hash_pks, ring_bytes, keys_of, deref_int}
use ozcoin.Store.{get_preimage, map_to_block}
use ozcoin.Env.Laws.{after}
use ozcoin.Tests.Toy.{
  origin, toy_ldb-DbLaws, header_codec-ReadsBack, header_codec-RejectsNil, block_codec-RejectsNil,
}
use ozcoin.Txn.Spends.{no_fork}
use ozcoin.Consensus.Main.{
  write_block, write_if_blockchain, preimages_of, behind_first, record_all, delete_all,
  inform_wallet,
}
use ozcoin.Client.{is_blockchain}
use ozcoin.Store.{put_header, write_pimg, write_txn_pool, write_map}
use ozcoin.Store.Maps.{put_map_to_block, map_changes, txn_changes, output_changes}
use ozcoin.Load.{load_block}
use ozcoin.Gossip.{fetch_block, dial_peer}
use ozcoin.Block.{verify_merkle_hash, merkle_hash, merkle_slots, valid_pow, check_pow}
use ozcoin.Txn.{valid_txns, valid_coinbase_txn, valid_txn}
use ozcoin.Base.{◌+ℤ◌, Bool, ap, ◌∙◌}
use ozcoin.Tests.Data.{
  coin, proof, toy, light, first_header, first_block, first_request, first_hash, spend, reward_txn,
}

coin_good : verify toy proof ≡ returns true
unfolding verify open_rows verify_rows hash_pks ring_bytes keys_of deref_int deref point_bytes
    int_bytes hash bytes_eq
coin_good = refl

signed : verify_ozrs toy spend (replicate 8 origin) (replicate 8 origin) ≡ returns true
unfolding verify_ozrs ring_hash ring_rows deref_all commits_of commit_differences compute_e3
    deref_int deref point_bytes int_bytes hash bytes_eq
signed = refl

pub found_all :
    gather_inputs toy light (some no_fork) spend.body.inputs ≡ returns (some (replicate 8 coin))
unfolding gather_inputs find_output fetch_output map_to_block after output_hash input_refused
    bytes_eq
found_all = refl

pub fresh : preimage_refused toy light (some no_fork) zero_sum ≡ false
unfolding preimage_refused get_preimage after bytes_eq
fresh = refl

pub spend_verifies : verify_txn toy light spend (some (no_fork, no_fork)) ≡ returns true
unfolding verify_txn preimage_hash verify_signatures dest_keys deref_all commits_of deref
    verify_proofs point_bytes int_bytes verify bytes_eq
spend_verifies = rw (fresh, found_all, signed, coin_good)

pub paid : verify_coinbase_txn toy reward_txn 5000000003 ≡ returns true
unfolding verify_coinbase_txn deref neg_y
paid = refl

validates : post_valid_block toy light first_block none none ≡ returns true
unfolding post_valid_block valid_difficulty compute_difficulty verify_txns fork_txns_and_preimages
    verify_rest coinbase_value
validates = rw (spend_verifies, paid)

-- The client after the block.
abbrev pub extended : Client toy
extended = (extend_main_chain toy first_header first_block light).1

succeeds : (extend_main_chain toy first_header first_block light).0 ≡ returns true
unfolding extend_main_chain write_block write_if_blockchain preimages_of behind_first record_all
    delete_all is_blockchain inform_wallet put_header write_pimg write_txn_pool write_map
    put_map_to_block map_changes txn_changes output_changes output_hash preimage_hash deref
    point_bytes int_bytes
succeeds = rw validates

extends : extend_main_chain toy first_header first_block light ≡ (returns true, extended)
extends i = (succeeds i, extended)

zero_preimage : preimage_hash toy spend ≡ returns zero_sum
unfolding preimage_hash deref point_bytes int_bytes
zero_preimage = refl

extend_main_chain-no_respend_example : verify_txn toy extended spend none ≡ returns false
unfolding behind_first
extend_main_chain-no_respend_example =
    extend_main_chain-no_respend toy first_header first_block light extended spend spend zero_sum
      none toy_ldb-DbLaws extends (inl refl) zero_preimage zero_preimage refl

extend_main_chain_effect_example :
    (post_valid_block toy light first_block none none ≡ returns true)
    × (extended.last_header ≡ first_header)
    × ((key : Sha256Sum)
        → get_header toy extended key ≡ (
            if bytes_eq key (header_hash toy first_header)
            then returns (some first_header)
            else get_header toy light key))
extend_main_chain_effect_example =
    extend_main_chain_effect toy first_header first_block light extended toy_ldb-DbLaws
      header_codec-ReadsBack extends

loads : load_or_fetch_block toy light first_request ≡ returns first_block
unfolding load_or_fetch_block load_block is_blockchain fetch_block header_hash verify_merkle_hash
    merkle_hash merkle_slots dial_peer bytes_eq
loads = refl

timely : valid_header toy first_header ≡ returns true
unfolding valid_header valid_pow check_pow header_hash bytes_eq ◌+ℤ◌
timely = refl

valid : prevalid_block toy first_block ≡ true
unfolding prevalid_block valid_txns valid_coinbase_txn valid_txn verify_merkle_hash merkle_hash
    merkle_slots bytes_eq
valid = refl

adopts : (add_or_orphan_helper toy 1 first_request light).0 ≡ returns true
adopts =
    ap (λ (q : Outcome Bool × Client toy). q.0)
      (zero_parent_extends toy 0 first_request light first_block loads timely valid refl)
    ∙ succeeds

adopted_is_tip_example :
    (b : Block) × (load_or_fetch_block toy light first_request ≡ returns b)
    × (valid_header toy b.header ≡ returns true)
    × (prevalid_block toy b ≡ true)
    × ((add_or_orphan_helper toy 1 first_request light).1.last_header ≡ b.header)
adopted_is_tip_example =
    adopted_is_tip toy toy_ldb-DbLaws header_codec-RejectsNil block_codec-RejectsNil 1 first_request
      light adopts

extend_side_chain_fails_example :
    (x : String) × (extend_side_chain toy 5 first_header first_block light ≡ (fails x, light))
extend_side_chain_fails_example =
    extend_side_chain_fails toy toy_ldb-DbLaws header_codec-RejectsNil block_codec-RejectsNil 5
      first_header first_block light

grown : Grows toy light (first_header ∷ []) extended
unfolding header_hash
grown =
    adopt 0 first_request first_block unmoved loads refl
      (zero_parent_extends toy 0 first_request light first_block loads timely valid refl ∙ extends)

last_is_first : extended.last_header ≡ first_header
last_is_first =
    (extend_main_chain_effect toy first_header first_block light extended toy_ldb-DbLaws
      header_codec-ReadsBack extends).1

abbrev next_block : Block
next_block = record first_block {
  header = record first_header { seq_num = 2; prev_hash = first_hash };
}

Grows-refines_example :
    (extended.last_header ≡ first_header)
    × (nth_ancestor_header toy extended (header_hash toy extended.last_header) 1
        ≡ returns first_header)
    × (compute_difficulty toy extended next_block ≡ returns 16)
unfolding difficulty_of header_hash
Grows-refines_example =
    Grows-refines toy light extended (first_header ∷ []) next_block 0 16 first_header toy_ldb-DbLaws
      header_codec-ReadsBack grown (tt, tt) refl (ap (header_hash toy) (sym last_is_first)) refl
