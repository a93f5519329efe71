-- ===== src/Mining.antt =====
-- `NewBlock` and `GenesisBlock` of block.go, and the miner of miner.go. What is drawn at random and
-- the readings of the clock are arguments.
pub mod Accepted
pub mod Genesis
use ozcoin.Base.{
  ℕ, zero, suc, ◌+◌, ◌%◌, ℤ, Bool, true, false, not, Option, none, some, List, [], ◌∷◌, bytes_eq,
  if◌then◌else◌,
}
use ozcoin.Go.{Outcome, returns, fails, panics, diverges}
use ozcoin.Go.Read.{◌>>=◌}
use ozcoin.Types.{
  Bytes, Sha256Sum, zero_sum, BlockHeader, Block, Txn, WalletPublicKey, u64_mod, initial_difficulty,
}
use ozcoin.Env.{Env}
use ozcoin.Hash.{header_hash}
use ozcoin.Block.{valid_pow, merkle_hash}
use ozcoin.Client.{Client}
use ozcoin.Chain.{compute_difficulty}
use ozcoin.Txn.{txns_from_pool}
use ozcoin.Output.{new_coinbase_txn}

-- The loop that adds the fees of the txns.
unfoldable pub fees_of : ℕ → List Txn → ℕ
fees_of fees [] = fees
fees_of fees (t ∷ ts) = fees_of ((fees + t.body.fee) % u64_mod) ts

unfoldable pub next_nonce : BlockHeader → BlockHeader
next_nonce h = record h { nonce = (h.nonce + 1) % u64_mod }

module _ (env : Env) where
  -- `block.Header.MerkleRoot = block.MerkleHash()`
  unfoldable pub with_root : Block → Block
  with_root b = record b { header = record (b.header) { merkle_root = merkle_hash env b } }

  unfoldable pub with_difficulty : ℕ → Block → Block
  with_difficulty d b = record b { header = record (b.header) { difficulty = d } }

  -- `NewBlock`, at the time `now`, with the random bytes `r` of the coinbase txn.
  unfoldable pub new_block : Client env → BlockHeader → WalletPublicKey → Bytes → ℤ → Outcome Block
  unfolding fees_of with_root with_difficulty
  new_block c prev address r now = do
    let seq_num = (prev.seq_num + 1) % u64_mod
    txns ← txns_from_pool env c
    coinbase_txn ← new_coinbase_txn env address seq_num (fees_of 0 txns) r
    let block : Block = record {
      header = record {
        seq_num = seq_num;
        prev_hash = header_hash env prev;
        merkle_root = zero_sum;
        time = now;
        difficulty = initial_difficulty;
        nonce = 0;
      };
      txns = coinbase_txn ∷ txns;
    }
    d ← compute_difficulty env c (with_root block)
    returns (with_difficulty d (with_root block))

  -- The loop of `GenesisBlock`, on fuel.
  unfoldable pub mine : ℕ → BlockHeader → Outcome BlockHeader
  unfolding next_nonce
  mine zero h = diverges
  mine (suc fuel) h = do
    pow ← valid_pow env h
    elim pow [ true ↦ returns h | false ↦ mine fuel (next_nonce h) ]

  -- `GenesisBlock`
  unfoldable pub genesis_block : ℕ → WalletPublicKey → Bytes → ℤ → Outcome Block
  unfolding with_root mine
  genesis_block fuel address r now = do
    coinbase_txn ← new_coinbase_txn env address 0 0 r
    let block : Block = with_root (record {
      header = record {
        seq_num = 0;
        prev_hash = zero_sum;
        merkle_root = zero_sum;
        time = now;
        difficulty = initial_difficulty;
        nonce = 0;
      };
      txns = coinbase_txn ∷ [];
    })
    header ← mine fuel block.header
    returns (record block { header = header })
