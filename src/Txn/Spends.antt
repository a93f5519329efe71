-- ===== src/Txn/Spends.antt =====
-- Spending twice within a block, and an input that cannot be found.
use ozcoin.Base.{
  ℕ, zero, suc, replicate, ◌+◌, ◌%◌, ◌≡◌, refl, arith, true, false, none, some, List, [], ◌∷◌,
}
use ozcoin.Go.{returns, panics}
use ozcoin.Types.{Sha256Sum, Txn, BlockHeader, u64_mod}
use ozcoin.Env.{Env}
use ozcoin.Hash.{preimage_hash}
use ozcoin.Client.{Client, svp_client}
use ozcoin.Store.{map_to_block, get_preimage}
use ozcoin.Chain.{Fork, coinbase_value, fork_txns_and_preimages}
use ozcoin.Load.{find_output}
use ozcoin.Txn.{
  verify_txn, verify_rest, verify_coinbase_txn, verify_txns, gather_inputs, preimage_refused,
}

abbrev pub no_fork : Fork
no_fork = record { txns = []; pimgs = [] }

-- The coinbase after the fee of a txn has been added `n` times, as the code adds it.
abbrev pub fees_added : ℕ → ℕ → ℕ → ℕ
fees_added zero fee coinbase = coinbase
fees_added (suc n) fee coinbase = fees_added n fee ((coinbase + fee) % u64_mod)

module _ (env : Env) (c : Client env) where
  verify_rest-replicate :
      (n : ℕ) (t : Txn) (coinbase : ℕ)
      → verify_txn env c t (some (no_fork, no_fork)) ≡ returns true
      → verify_rest env c (no_fork, no_fork) coinbase (replicate n t)
        ≡ returns (some (fees_added n t.body.fee coinbase))
  unfolding verify_rest
  verify_rest-replicate zero t coinbase good = refl
  verify_rest-replicate (suc n) t coinbase good =
      rw good (verify_rest-replicate n t ((coinbase + t.body.fee) % u64_mod) good)

  -- A txn that verifies may stand in one block any number of times: outside a fork the block
  -- verifies, provided that its coinbase output is the reward with the fee added as many times.
  pub verify_txns_repeated :
      (n : ℕ) (h : BlockHeader) (first t : Txn)
      → verify_txn env c t (some (no_fork, no_fork)) ≡ returns true
      → verify_coinbase_txn env first (fees_added n t.body.fee (coinbase_value h.seq_num))
        ≡ returns true
      → verify_txns env c (record { header = h; txns = first ∷ replicate n t }) none none
        ≡ returns true
  unfolding verify_txns fork_txns_and_preimages
  verify_txns_repeated n h first t good paid =
      rw (verify_rest-replicate n t (coinbase_value h.seq_num) good) paid

  -- On a client that keeps no blocks and knows no peer, and whose iterator ends without an error,
  -- a txn with a fresh preimage whose first input is a known output makes the check panic: the
  -- output is looked for and is a nil pointer.
  verify_txn_nil_output :
      (t : Txn) (p key at : Sha256Sum) (keys : List Sha256Sum)
      → c.type ≡ svp_client
      → env.ldb.entries c.dbm.peer_db ≡ []
      → env.ldb.iter_error c.dbm.peer_db ≡ none
      → preimage_hash env t ≡ returns p
      → get_preimage env c p ≡ false
      → t.body.inputs ≡ key ∷ keys
      → map_to_block env c key ≡ returns at
      → verify_txn env c t none ≡ panics
  unfolding verify_txn gather_inputs find_output preimage_refused
  verify_txn_nil_output t p key at keys light alone quiet hp fresh inputs known = ground arith
