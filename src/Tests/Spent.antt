-- ===== src/Tests/Spent.antt =====
-- Two payments of one output.
use ozcoin.Base.{
  ℕ, ◌≡◌, refl, pos, true, false, some, none, inl, [], ◌∷◌, replicate, int_bytes, bytes_eq,
}
use ozcoin.Go.{returns}
use ozcoin.Types.{Txn, Block, zero_sum}
use ozcoin.Hash.{deref, point_bytes, output_hash, preimage_hash}
use ozcoin.Client.{Client}
use ozcoin.Ring.{verify_ozrs, deref_all, commits_of}
use ozcoin.RangeProof.{verify}
use ozcoin.Txn.{
  gather_inputs, post_valid_block, verify_txn, verify_txns, verify_rest, verify_signatures,
  verify_proofs, dest_keys,
}
use ozcoin.Txn.Spends.{no_fork}
use ozcoin.Client.{is_blockchain}
use ozcoin.Store.{put_header, write_pimg, write_txn_pool, write_map}
use ozcoin.Store.Maps.{put_map_to_block, map_changes, txn_changes, output_changes}
use ozcoin.Consensus.Main.{
  extend_main_chain, write_block, write_if_blockchain, preimages_of, behind_first, record_all,
  delete_all, inform_wallet,
}
use ozcoin.Chain.{valid_difficulty, compute_difficulty, fork_txns_and_preimages, coinbase_value}
use ozcoin.Payment.{Draws, new_txn}
use ozcoin.Payment.Linked.{spent_once}
use ozcoin.Tests.Toy.{origin, toy_net, toy_env-ShaLaws, toy_ldb-DbLaws}
use ozcoin.Tests.Data.{toy, coin, spend, first_block, light, first_header, reward_txn}
use ozcoin.Tests.Wallets.{key}
use ozcoin.Tests.Extending.{found_all, fresh, paid}

abbrev chance : ℕ → Draws
chance i = record { r = 3 ∷ []; q = 2 ∷ []; k = λ j. j; s = λ j. j }

one :
    (t : Txn) × (new_txn toy chance 1 2
        (λ i. i)
        (λ i. i)
        (some (replicate 8 coin))
        (pos 3)
        (pos 4)
        (pos 2)
        (some (1 ∷ 2 ∷ []))
        (some (key.tracking_key.public_key ∷ key.tracking_key.public_key ∷ []))
        3
      ≡ returns (some t))
unfolding new_txn
one = (_, refl)

one_signed : verify_ozrs toy one.0 (replicate 8 origin) (replicate 8 origin) ≡ returns true
unfolding one new_txn verify_ozrs bytes_eq
one_signed = refl

one_proofs : verify_proofs toy one.0.body.outputs ≡ returns true
unfolding one new_txn verify_proofs verify bytes_eq point_bytes int_bytes
one_proofs = refl

image : preimage_hash toy one.0 ≡ returns zero_sum
unfolding one new_txn preimage_hash deref point_bytes int_bytes
image = refl

ring_found :
    gather_inputs toy light (some no_fork) one.0.body.inputs ≡ returns (some (replicate 8 coin))
unfolding one new_txn output_hash
ring_found = found_all

one_verifies : verify_txn toy light one.0 (some (no_fork, no_fork)) ≡ returns true
unfolding verify_txn verify_signatures dest_keys deref_all commits_of deref
one_verifies = rw (image, fresh, ring_found, one_signed, one_proofs) refl

abbrev spending_block : Block
spending_block = record { header = first_header; txns = reward_txn ∷ one.0 ∷ [] }

fee_of_one : one.0.body.fee ≡ 3
unfolding one new_txn
fee_of_one = refl

validates : post_valid_block toy light spending_block none none ≡ returns true
unfolding post_valid_block valid_difficulty compute_difficulty verify_txns fork_txns_and_preimages
    verify_rest coinbase_value
validates = rw (one_verifies, fee_of_one, paid) refl

abbrev after_block : Client toy
after_block = (extend_main_chain toy first_header spending_block light).1

succeeds : (extend_main_chain toy first_header spending_block light).0 ≡ returns true
unfolding extend_main_chain write_block write_if_blockchain preimages_of behind_first record_all
    delete_all is_blockchain inform_wallet put_header write_pimg write_txn_pool write_map
    put_map_to_block map_changes txn_changes output_changes output_hash
succeeds = rw (validates, image) refl

-- The other payment has a smaller ring index, other amounts and another fee.
other :
    (t : Txn) × (new_txn toy chance 5 6
        (λ i. 9)
        (λ i. i)
        (some (replicate 8 coin))
        (pos 3)
        (pos 4)
        (pos 1)
        (some (6 ∷ 1 ∷ []))
        (some (key.tracking_key.public_key ∷ key.tracking_key.public_key ∷ []))
        8
      ≡ returns (some t))
unfolding new_txn
other = (_, refl)

spent_once_example : verify_txn toy after_block other.0 none ≡ returns false
unfolding behind_first deref
spent_once_example =
    spent_once toy toy_ldb-DbLaws (toy_env-ShaLaws (toy_net first_header first_block spend coin))
      (pos 3) coin origin one.0 other.0 first_header spending_block light after_block none refl
      (record {
        draws = chance;
        k1 = 1;
        k2 = 2;
        r = λ i. i;
        s = λ i. i;
        inputs = replicate 8 coin;
        yi = pos 4;
        idx = 2;
        amts = 1 ∷ 2 ∷ [];
        rcpts = key.tracking_key.public_key ∷ key.tracking_key.public_key ∷ [];
        fee = 3;
        made = one.1;
        spends = refl;
      })
      (record {
        draws = chance;
        k1 = 5;
        k2 = 6;
        r = λ i. 9;
        s = λ i. i;
        inputs = replicate 8 coin;
        yi = pos 4;
        idx = 1;
        amts = 6 ∷ 1 ∷ [];
        rcpts = key.tracking_key.public_key ∷ key.tracking_key.public_key ∷ [];
        fee = 8;
        made = other.1;
        spends = refl;
      })
      (λ i. (succeeds i, after_block)) (inl refl)
