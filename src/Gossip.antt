-- ===== src/Gossip.antt =====
-- gossip.go: what is fetched from a peer, with the checks of the answer.
pub mod Answers
use ozcoin.Base.{Bool, true, false, not, Option, none, some, if◌then◌else◌, bytes_eq}
use ozcoin.Go.{Outcome, returns, fails, of_result}
use ozcoin.Go.Read.{◌>>=◌}
use ozcoin.Types.{Bytes, Sha256Sum, BlockHeader, Block, Txn, Output, HashMsg}
use ozcoin.Env.{Env, Net}
use ozcoin.Hash.{header_hash, txn_hash, output_hash}
use ozcoin.Block.{verify_merkle_hash}
use ozcoin.Client.{Client}

-- `HashMsg.NewHash`
unfoldable pub new_hash : HashMsg → Sha256Sum → HashMsg
new_hash msg key = record msg { hash = key }

module _ (env : Env) where
  open env use {net}

  -- `Client.NewHashMsg`
  unfoldable pub new_hash_msg : Client env → Sha256Sum → HashMsg
  new_hash_msg c key = record { address = c.address; hash = key }

  -- `dialPeer`
  unfoldable pub dial_peer : Bytes → Outcome (Unit {0})
  dial_peer address = elim (net.dial address) [ none ↦ returns tt | some e ↦ fails e ]

  unfoldable pub fetch_header : Client env → Sha256Sum → Bytes → Outcome BlockHeader
  unfolding dial_peer new_hash_msg header_hash
  fetch_header c key address = do
    peer ← dial_peer address
    res ← of_result (net.call_fetch_header address (new_hash_msg c key))
    if not (bytes_eq (header_hash env res.header) key)
        then fails "Wrong header"
        else returns res.header

  unfoldable pub fetch_block : Client env → Sha256Sum → Bytes → Outcome Block
  unfolding dial_peer new_hash_msg
  fetch_block c key address = do
    peer ← dial_peer address
    res ← of_result (net.call_fetch_block address (new_hash_msg c key))
    if not (bytes_eq (header_hash env res.block.header) key)
        then fails "Wrong block"
        else if not (verify_merkle_hash env res.block)
        then fails "Wrong block"
        else returns res.block

  unfoldable pub fetch_txn : Client env → Sha256Sum → Bytes → Outcome Txn
  unfolding dial_peer new_hash_msg
  fetch_txn c key address = do
    peer ← dial_peer address
    res ← of_result (net.call_fetch_txn address (new_hash_msg c key))
    if not (bytes_eq (txn_hash env res.txn) key) then fails "Wrong txn" else returns res.txn

  unfoldable pub fetch_output : Client env → Sha256Sum → Bytes → Outcome Output
  unfolding dial_peer new_hash_msg
  fetch_output c key address = do
    peer ← dial_peer address
    res ← of_result (net.call_fetch_output address (new_hash_msg c key))
    if not (bytes_eq (output_hash env res.output) key)
        then fails "Wrong output"
        else returns res.output
