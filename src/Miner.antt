-- ===== src/Miner.antt =====
-- miner.go. What is drawn at random, the readings of the clock and the tracking key that the wallet
-- answers with are arguments. The client changes between the rounds of the loop; a round reads it
-- once. The request to the wallet that each update makes ("for testing") has no effect here.
pub mod Found
use ozcoin.Base.{
  ℕ, ◌+◌, ◌%◌, ◌≡◌, ℤ, Bool, true, false, not, Option, none, some, bytes_eq, if◌then◌else◌,
}
use ozcoin.Go.{Result, ok, err, Outcome, returns}
use ozcoin.Go.Read.{◌>>=◌}
use ozcoin.Go.Run
use ozcoin.Go.Run.{Action}
use ozcoin.Types.{Bytes, Sha256Sum, BlockHeader, Block, WalletPublicKey}
use ozcoin.Env.{Env}
use ozcoin.Hash.{header_hash}
use ozcoin.Block.{valid_pow}
use ozcoin.Client.{Client}
use ozcoin.Chain.{compute_difficulty}
use ozcoin.Mining.{next_nonce, with_difficulty, new_block, genesis_block}
use ozcoin.Consensus.Main.{write_block}

-- The variables of the loop of `Miner.run`.
pub record Miner : Type 0 where
  pub last : Sha256Sum
  pub block : Block
  pub recently_updated : Bool

-- A call whose error is handed to `panic`.
unfoldable pub or_panic : {S A : Type 0} → Action S A → Action S A
or_panic m = Run.◌>>=◌ (Run.caught m) λ r. elim r [ err _ ↦ Run.panic | ok a ↦ Run.pure a ]

module _ (env : Env) where
  -- `Miner.run` up to its loop: the genesis block is written, and its header is the client's last
  -- one; `fuel` bounds the search for its nonce.
  unfoldable pub begin_mining :
      ℕ → WalletPublicKey → (r r' : Bytes) (now now' : ℤ) → Action (Client env) Miner
  begin_mining fuel address r r' now now' =
      Run.◌>>=◌ (Run.reads λ c. genesis_block env fuel address r now) λ gblock.
        Run.◌>>=◌ (or_panic (write_block env gblock)) λ _.
          Run.◌>>=◌ (Run.modify λ c. record c { last_header = gblock.header }) λ _. Run.reads λ c.
            do
              block ← new_block env c c.last_header address r' now'
              returns (record {
                last = header_hash env c.last_header;
                block = block;
                recently_updated = false;
              })

  -- The case of the `select` that sets the block's time.
  unfoldable pub update_time : Client env → ℤ → Miner → Outcome Miner
  unfolding with_difficulty
  update_time c now m =
      if m.recently_updated then returns (record m { recently_updated = false }) else (do
        let block : Block = record (m.block) { header = record (m.block.header) { time = now } }
        d ← compute_difficulty env c block
        returns (record m { block = with_difficulty env d block; recently_updated = false }))

  -- The block that the other case goes on with: a new one where the client's last header changed,
  -- the next nonce where it did not.
  unfoldable pub next_block : Client env → WalletPublicKey → Bytes → ℤ → Miner → Outcome Miner
  unfolding next_nonce
  next_block c address r now m =
      if not (bytes_eq m.last (header_hash env c.last_header))
      then (do
        block ← new_block env c c.last_header address r now
        returns (record {
          last = header_hash env c.last_header;
          block = block;
          recently_updated = true;
        }))
      else returns (record m { block = record (m.block) { header = next_nonce m.block.header } })

  -- The other case, with the block that is sent on the client's channel, if any.
  unfoldable pub search_nonce :
      Client env → WalletPublicKey → Bytes → ℤ → Miner → Outcome (Miner × Option Block)
  unfolding next_block
  search_nonce c address r now m = do
    n ← next_block c address r now m
    pow ← valid_pow env n.block.header
    returns (n, if pow then some n.block else none)

  -- The miner after any number of rounds, with the client that each of them met.
  pub data Mines (address : WalletPublicKey) : Miner → Type 0 where
    begun :
        (fuel : ℕ) (r r' : Bytes) (now now' : ℤ) (c c' : Client env) (m : Miner)
        → begin_mining fuel address r r' now now' c ≡ (returns m, c')
        → Mines address m
    updated :
        (c : Client env) (now : ℤ) (m n : Miner)
        → Mines address m
        → update_time c now m ≡ returns n
        → Mines address n
    searched :
        (c : Client env) (r : Bytes) (now : ℤ) (m n : Miner) (sent : Option Block)
        → Mines address m
        → search_nonce c address r now m ≡ returns (n, sent)
        → Mines address n
