-- ===== src/Gossip/Answers.antt =====
-- What a peer's answer can be.
use ozcoin.Base.{◌≡◌, arith, bytes_eq_iff}
use ozcoin.Go.{returns, of_result}
use ozcoin.Go.Read
use ozcoin.Types.{Bytes, Sha256Sum, Block, Output}
use ozcoin.Env.{Env}
use ozcoin.Hash.{header_hash, output_hash}
use ozcoin.Block.{merkle_hash, verify_merkle_hash}
use ozcoin.Client.{Client}
use ozcoin.Gossip.{fetch_block, fetch_output, dial_peer, new_hash_msg}

module _ (env : Env) (c : Client env) (key : Sha256Sum) (address : Bytes) where
  -- Whatever the peer answers, a block that is accepted from it has the hash that was asked for,
  -- and its Merkle hash is that of its header.
  pub fetch_block_checked :
      (b : Block)
      → fetch_block env c key address ≡ returns b
      → (header_hash env b.header ≡ key) × (merkle_hash env b ≡ b.header.merkle_root)
  unfolding fetch_block verify_merkle_hash
  fetch_block_checked b e =
      let (peer, _, e1) = Read.>>=-eq-returns (dial_peer env address) _ e in
      let (res, _, e2) =
        Read.>>=-eq-returns (of_result (env.net.call_fetch_block address (new_hash_msg env c key)))
          _ e1 in
      ground (
        arith,
        e2,
        bytes_eq_iff (header_hash env res.block.header) key,
        bytes_eq_iff (merkle_hash env res.block) res.block.header.merkle_root,
      )

  -- Whatever the peer answers, an output that is accepted from it has the hash that was asked for.
  pub fetch_output_checked :
      (o : Output) → fetch_output env c key address ≡ returns o → output_hash env o ≡ key
  unfolding fetch_output
  fetch_output_checked o e =
      let (peer, _, e1) = Read.>>=-eq-returns (dial_peer env address) _ e in
      let (res, _, e2) =
        Read.>>=-eq-returns (of_result (env.net.call_fetch_output address (new_hash_msg env c key)))
          _ e1 in
      ground (arith, e2, bytes_eq_iff (output_hash env res.output) key)
