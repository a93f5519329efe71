-- ===== src/Rpc.antt =====
-- gossip.go: what a client answers to the calls of its peers, and `sendBcast`, which calls them.
pub mod Served
use ozcoin.Base.{Bool, true, false, not, Option, none, some, List, if◌then◌else◌, bytes_eq}
use ozcoin.Go.{Outcome, returns, fails, panics, of_result}
use ozcoin.Go.Run.{Action, ◌>>=◌, ◌>>◌, pure, reads, panic, checked}
use ozcoin.Types.{
  Bytes, Sha256Sum, zero_sum, zero_header, BlockHeader, Block, Txn, HashMsg, HeaderMsg, BlockMsg,
  TxnMsg, OutputMsg,
}
use ozcoin.Env.{Env, LevelDb, Codec}
use ozcoin.Client.{Client, DbManager}
use ozcoin.Store.{put_peer, slice}
use ozcoin.Load.{load_block, load_txn, load_output}
use ozcoin.Gossip.{new_hash_msg}

-- The use of a nil pointer panics.
abbrev pointee : {S A : Type 0} → Option A → Action S A
pointee none = panic
pointee (some a) = pure a

module _ (env : Env) where
  open env use {ldb, net}

  -- `Client.HandleRPC`: the address of the request becomes a peer, and the answer has the client's.
  unfoldable pub handle_rpc : Bytes → Action (Client env) Bytes
  handle_rpc address = do put_peer env address; reads λ c. returns c.address

  -- `BcastBlockRPC` and `BcastTxnRPC`: what is sent on the client's channel, if anything.
  unfoldable pub bcast_rpc : HashMsg → Action (Client env) (Option HashMsg)
  unfolding handle_rpc
  bcast_rpc req = do
    address ← handle_rpc req.address
    pure (if not (bytes_eq req.hash zero_sum) then some req else none)

  -- `FetchHeaderRPC`: the header is read into a fresh one.
  unfoldable pub fetch_header_rpc : HashMsg → Action (Client env) HeaderMsg
  unfolding handle_rpc
  fetch_header_rpc req = do
    address ← handle_rpc req.address
    bytes ← reads λ c. of_result (ldb.get c.dbm.header_db req.hash)
    read ← reads λ c. of_result (env.header_json.decode (some zero_header) (slice bytes))
    header ← pointee read
    pure (record { address = address; header = header })

  -- `FetchBlockRPC`
  unfoldable pub fetch_block_rpc : HashMsg → Action (Client env) BlockMsg
  unfolding handle_rpc
  fetch_block_rpc req = do
    address ← handle_rpc req.address
    loaded ← reads λ c. load_block env c req.hash
    block ← pointee loaded
    pure (record { address = address; block = block })

  -- `FetchTxnRPC`
  unfoldable pub fetch_txn_rpc : HashMsg → Action (Client env) TxnMsg
  unfolding handle_rpc
  fetch_txn_rpc req = do
    address ← handle_rpc req.address
    loaded ← reads λ c. load_txn env c req.hash
    txn ← pointee loaded
    pure (record { address = address; txn = txn })

  -- `FetchOutputRPC`
  unfoldable pub fetch_output_rpc : HashMsg → Action (Client env) OutputMsg
  unfolding handle_rpc
  fetch_output_rpc req = do
    address ← handle_rpc req.address
    output ← reads λ c. load_output env c req.hash
    pure (record { address = address; output = output })

  -- `Client.sendBcast`: what the peer is called with. A peer that cannot be reached is deleted; errors
  -- of the database and of the call are logged.
  unfoldable pub send_bcast_to : Bytes → Sha256Sum → Client env → Option HashMsg × Client env
  unfolding new_hash_msg
  send_bcast_to address key c = elim (net.dial address) [
    | none ↦ (some (new_hash_msg env c key), c)
    | some x ↦
        (none, record c { dbm = record (c.dbm) { peer_db = (ldb.delete c.dbm.peer_db address).1 } })
  ]
