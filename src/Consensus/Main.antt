-- ===== src/Consensus/Main.antt =====
-- `WriteBlock`, `ExtendMainChain` and the broadcasts to the peers.
use ozcoin.Base.{Bool, true, false, none, some, List, [], ◌∷◌, if◌then◌else◌}
use ozcoin.Go.{Outcome, returns, fails}
use ozcoin.Go.Read
use ozcoin.Go.Run.{Action, ◌>>=◌, ◌>>◌, pure, reads, modify}
use ozcoin.Types.{Bytes, Sha256Sum, BlockHeader, Block, Txn}
use ozcoin.Env.{Env, Change, put, delete}
use ozcoin.Hash.{preimage_hash}
use ozcoin.Client.{
  Client, is_blockchain, Method, bcast_block_rpc, bcast_txn_rpc, send_bcast, wallet_new_block,
  spawn,
}
use ozcoin.Store.{put_block, put_header, write_pimg, write_txn_pool}
use ozcoin.Store.Maps.{put_map_to_block}
use ozcoin.Txn.{post_valid_block}

-- `batch.Put(p, p)` for each, and `batch.Delete(p)` for each.
unfoldable pub record_all : List Sha256Sum → List Change
record_all [] = []
record_all (p ∷ ps) = put p p ∷ record_all ps

unfoldable pub delete_all : List Sha256Sum → List Change
delete_all [] = []
delete_all (p ∷ ps) = delete p ∷ delete_all ps

unfoldable pub behind_first : List Txn → List Txn
behind_first [] = []
behind_first (t ∷ ts) = ts

module _ (env : Env) where
  open env use {ldb}

  -- The hashes of the preimages of the txns, in order.
  unfoldable pub preimages_of : List Txn → Outcome (List Sha256Sum)
  unfolding preimage_hash
  preimages_of [] = returns []
  preimages_of (t ∷ ts) =
      Read.◌>>=◌ (preimage_hash env t) λ p. Read.◌>>=◌ (preimages_of ts) λ ps. returns (p ∷ ps)

  unfoldable pub write_if_blockchain : Block → Action (Client env) (Unit {0})
  unfolding is_blockchain
  write_if_blockchain b c = (if is_blockchain c.type then put_block env b else pure tt) c

  -- `WriteBlock`: the batches hold the preimages of the txns behind the coinbase txn.
  unfoldable pub write_block : Block → Action (Client env) (Unit {0})
  unfolding write_if_blockchain preimages_of behind_first record_all delete_all
  write_block b = do
    write_if_blockchain b
    pimgs ← reads λ c. preimages_of (behind_first b.txns)
    write_pimg env (record_all pimgs)
    put_map_to_block env b
    write_txn_pool env (delete_all pimgs)

  unfoldable pub inform_wallet : Block → Client env → Client env
  unfolding spawn
  inform_wallet b c = if c.update_wallet then spawn (wallet_new_block b) c else c

  -- `ExtendMainChain`
  unfoldable pub extend_main_chain : BlockHeader → Block → Action (Client env) Bool
  unfolding inform_wallet
  extend_main_chain header b = do
    good ← reads λ c. post_valid_block env c b none none
    elim good [
      | false ↦ pure false
      | true ↦ do
        put_header env header
        write_block b
        modify (inform_wallet b)
        modify (λ c. record c { last_header = header })
        pure true
    ]

  spawn_for : Method → Sha256Sum → List (Bytes × Bytes) → Client env → Client env
  unfolding spawn
  spawn_for method key [] c = c
  spawn_for method key ((address, _) ∷ peers) c =
      spawn_for method key peers (spawn (send_bcast method address key) c)

  bcast : Method → Sha256Sum → Action (Client env) (Unit {0})
  unfolding spawn_for
  bcast method key = do
    modify λ c. spawn_for method key (ldb.entries c.dbm.peer_db) c
    reads λ c. elim (ldb.iter_error c.dbm.peer_db) [ none ↦ returns tt | some e ↦ fails e ]

  -- `BcastBlock`
  unfoldable pub bcast_block : Sha256Sum → Action (Client env) (Unit {0})
  unfolding bcast
  bcast_block = bcast bcast_block_rpc

  -- `BcastTxn`
  unfoldable pub bcast_txn : Sha256Sum → Action (Client env) (Unit {0})
  unfolding bcast
  bcast_txn = bcast bcast_txn_rpc
