-- ===== src/Consensus/Side.antt =====
-- No block ever joins a side chain.
use ozcoin.Base.{ℕ, arith, ◌≡◌, String}
use ozcoin.Go.{fails, Fails}
use ozcoin.Types.{Sha256Sum, BlockHeader, Block}
use ozcoin.Env.{Env}
use ozcoin.Env.Laws.{DbLaws, RejectsNil}
use ozcoin.Hash.{header_hash}
use ozcoin.Client.{Client}
use ozcoin.Store.Reads.{side_reads_fail}
use ozcoin.Consensus.Paths.{find_fork_paths}
use ozcoin.Consensus.Adopt.{extend_side_chain}

module _ (env : Env) (laws : DbLaws env.ldb) (headers : RejectsNil env.header_json)
    (blocks : RejectsNil env.block_json) where
  find_fork_paths-Fails :
      (fuel : ℕ) (c : Client env) (key : Sha256Sum) → Fails (find_fork_paths env fuel c key)
  unfolding find_fork_paths
  find_fork_paths-Fails fuel c key =
      let (x, e) = (side_reads_fail env laws c key headers blocks).0 in (x, rw e)

  -- With databases and JSON that behave as documented, `ExtendSideChain` adopts no block: with any
  -- fuel and on any stored data it returns an error and leaves the client as it was, because it
  -- looks its own header up among the side headers first. So neither a side chain nor a swap of the
  -- main chain ever comes about.
  pub extend_side_chain_fails :
      (fuel : ℕ) (header : BlockHeader) (b : Block) (c : Client env)
      → (x : String) × (extend_side_chain env fuel header b c ≡ (fails x, c))
  unfolding extend_side_chain
  extend_side_chain_fails fuel header b c =
      let (x, e) = find_fork_paths-Fails fuel c (header_hash env header) in (x, ground arith)
