-- ===== src/Client.antt =====
-- client.go and db.go: the client's fields and its databases. The fields for paths and channels
-- are not kept; `spawned` lists the goroutines that the client has started, oldest last.
use ozcoin.Base.{Bool, List, ◌∷◌}
use ozcoin.Types.{Bytes, Sha256Sum, BlockHeader, Block}
use ozcoin.Env.{Env, LevelDb}

pub data ClientType : Type 0 where
  blockchain_client svp_client : ClientType

unfoldable pub is_blockchain : ClientType → Bool
is_blockchain blockchain_client = Bool.true
is_blockchain svp_client = Bool.false

pub record DbManager (ldb : LevelDb) : Type 0 where
  pub header_db : ldb.Db
  pub side_header_db : ldb.Db
  pub orphan_header_db : ldb.Db
  pub block_db : ldb.Db
  pub side_block_db : ldb.Db
  pub orphan_block_db : ldb.Db
  pub map_db : ldb.Db
  pub pimg_db : ldb.Db
  pub peer_db : ldb.Db
  pub txn_pool_db : ldb.Db

-- The remote procedures that are called by `sendBcast`.
pub data Method : Type 0 where
  bcast_block_rpc bcast_txn_rpc : Method

pub data Goroutine : Type 0 where
  send_bcast : Method → Bytes → Sha256Sum → Goroutine
  wallet_new_block : Block → Goroutine
  wallet_swap : List Block → List Block → Goroutine

pub record Client (env : Env) : Type 0 where
  pub type : ClientType
  pub last_header : BlockHeader
  pub update_wallet : Bool
  pub address : Bytes
  pub dbm : DbManager env.ldb
  pub spawned : List Goroutine

-- The `go` statement.
unfoldable pub spawn : {env : Env} → Goroutine → Client env → Client env
spawn g c = record c { spawned = g ∷ c.spawned }
