-- ===== src/Store.antt =====
-- db.go: what the client reads from its databases and writes to them. A read changes nothing.
pub mod Reads
pub mod Maps
use ozcoin.Base.{
  ℕ, String, Bool, true, false, Option, none, some, List, [], ◌∷◌, ◌++◌, ◌==◌, if◌then◌else◌,
  bytes_eq, length,
}
use ozcoin.Go.{Result, ok, err, Outcome, returns, fails, panics, of_result}
use ozcoin.Go.Read.{◌>>=◌}
use ozcoin.Go.Run.{Action, checked}
use ozcoin.Types.{
  Bytes, Sha256Sum, sha256_sum_length, BlockHeader, Block, Txn, Output, zero_header, zero_block,
  zero_txn,
}
use ozcoin.Env.{Env, Codec, LevelDb, Change, put, delete}
use ozcoin.Hash.{header_hash, txn_hash, output_hash, preimage_hash}
use ozcoin.Client.{Client, DbManager}

-- A nil slice has the length 0.
abbrev pub slice : Option Bytes → Bytes
slice none = []
slice (some b) = b

module _ (env : Env) where
  open env use {ldb}

  -- The body of `GetHeader`, `GetSideHeader` and `GetOrphanHeader`: `target` is the pointer that
  -- is handed to `json.Unmarshal`.
  read_header : Option BlockHeader → ldb.Db → Sha256Sum → Outcome (Option BlockHeader)
  read_header target db key = do
    bytes ← of_result (ldb.get db key)
    elim bytes [ none ↦ returns none | some b ↦ of_result (env.header_json.decode target b) ]

  read_block : Option Block → ldb.Db → Sha256Sum → Outcome (Option Block)
  read_block target db key = do
    bytes ← of_result (ldb.get db key)
    of_result (env.block_json.decode target (slice bytes))

  unfoldable pub get_header : Client env → Sha256Sum → Outcome (Option BlockHeader)
  unfolding read_header
  get_header c key = read_header (some zero_header) c.dbm.header_db key

  -- Here and in `get_orphan_header` the code declares `var header *BlockHeader`, a nil pointer.
  unfoldable pub get_side_header : Client env → Sha256Sum → Outcome (Option BlockHeader)
  unfolding read_header
  get_side_header c key = read_header none c.dbm.side_header_db key

  unfoldable pub get_orphan_header : Client env → Sha256Sum → Outcome (Option BlockHeader)
  unfolding read_header
  get_orphan_header c key = read_header none c.dbm.orphan_header_db key

  unfoldable pub get_block : Client env → Sha256Sum → Outcome (Option Block)
  unfolding read_block
  get_block c key = read_block (some zero_block) c.dbm.block_db key

  unfoldable pub get_side_block : Client env → Sha256Sum → Outcome (Option Block)
  unfolding read_block
  get_side_block c key = read_block none c.dbm.side_block_db key

  unfoldable pub get_orphan_block : Client env → Sha256Sum → Outcome (Option Block)
  unfolding read_block
  get_orphan_block c key = read_block none c.dbm.orphan_block_db key

  -- `GetPreimage`
  unfoldable pub get_preimage : Client env → Sha256Sum → Bool
  get_preimage c key = elim (ldb.get c.dbm.pimg_db key) [
    | err e ↦ false
    | ok bytes ↦
        if length (slice bytes) == sha256_sum_length then bytes_eq key (slice bytes) else false
  ]

  -- `MapToBlock`
  unfoldable pub map_to_block : Client env → Sha256Sum → Outcome Sha256Sum
  map_to_block c key = do
    bytes ← of_result (ldb.get c.dbm.map_db key)
    if length (slice bytes) == sha256_sum_length
        then returns (slice bytes)
        else fails "Invalid hash length"

  -- `GetTxnPool`
  unfoldable pub get_txn_pool : Client env → Sha256Sum → Outcome (Option Txn)
  get_txn_pool c key = do
    bytes ← of_result (ldb.get c.dbm.txn_pool_db key)
    of_result (env.txn_json.decode (some zero_txn) (slice bytes))

  unfoldable pub put_header : BlockHeader → Action (Client env) (Unit {0})
  put_header h = checked λ c.
      let (e, d) = ldb.put c.dbm.header_db (header_hash env h) (env.header_json.encode h) in
      (e, record c { dbm = record (c.dbm) { header_db = d } })

  -- `ExtendHeader`: no function of the program calls it.
  unfoldable pub extend_header : BlockHeader → Action (Client env) (Unit {0})
  extend_header h = checked λ c.
      let batch = put (header_hash env h) (env.header_json.encode h) ∷ delete h.prev_hash ∷ [] in
      let (e, d) = ldb.write c.dbm.header_db batch in
      (e, record c { dbm = record (c.dbm) { header_db = d } })

  unfoldable pub put_side_header : BlockHeader → Action (Client env) (Unit {0})
  put_side_header h = checked λ c.
      let (e, d) = ldb.put c.dbm.side_header_db (header_hash env h) (env.header_json.encode h) in
      (e, record c { dbm = record (c.dbm) { side_header_db = d } })

  unfoldable pub put_orphan_header : BlockHeader → Action (Client env) (Unit {0})
  put_orphan_header h = checked λ c.
      let (e, d) = ldb.put c.dbm.orphan_header_db (header_hash env h) (env.header_json.encode h) in
      (e, record c { dbm = record (c.dbm) { orphan_header_db = d } })

  unfoldable pub put_block : Block → Action (Client env) (Unit {0})
  put_block b = checked λ c.
      let (e, d) = ldb.put c.dbm.block_db (header_hash env b.header) (env.block_json.encode b) in
      (e, record c { dbm = record (c.dbm) { block_db = d } })

  unfoldable pub put_side_block : Block → Action (Client env) (Unit {0})
  put_side_block b = checked λ c.
      let (e, d) =
        ldb.put c.dbm.side_block_db (header_hash env b.header) (env.block_json.encode b) in
      (e, record c { dbm = record (c.dbm) { side_block_db = d } })

  unfoldable pub put_orphan_block : Block → Action (Client env) (Unit {0})
  put_orphan_block b = checked λ c.
      let (e, d) =
        ldb.put c.dbm.orphan_block_db (header_hash env b.header) (env.block_json.encode b) in
      (e, record c { dbm = record (c.dbm) { orphan_block_db = d } })

  unfoldable pub put_preimage : Sha256Sum → Action (Client env) (Unit {0})
  put_preimage key = checked λ c.
      let (e, d) = ldb.put c.dbm.pimg_db key key in
      (e, record c { dbm = record (c.dbm) { pimg_db = d } })

  unfoldable pub put_peer : Bytes → Action (Client env) (Unit {0})
  put_peer address = checked λ c.
      let (e, d) = ldb.put c.dbm.peer_db address [] in
      (e, record c { dbm = record (c.dbm) { peer_db = d } })

  unfoldable pub put_txn_pool : Txn → Action (Client env) (Unit {0})
  put_txn_pool t = checked λ c.
      let (e, d) = ldb.put c.dbm.txn_pool_db (txn_hash env t) (env.txn_json.encode t) in
      (e, record c { dbm = record (c.dbm) { txn_pool_db = d } })

  unfoldable pub delete_txn_pool : Txn → Action (Client env) (Unit {0})
  delete_txn_pool t = checked λ c.
      let (e, d) = ldb.delete c.dbm.txn_pool_db (txn_hash env t) in
      (e, record c { dbm = record (c.dbm) { txn_pool_db = d } })

  -- One write of a batch to a database of the client.
  unfoldable pub write_map : List Change → Action (Client env) (Unit {0})
  write_map batch = checked λ c.
      let (e, d) = ldb.write c.dbm.map_db batch in
      (e, record c { dbm = record (c.dbm) { map_db = d } })

  unfoldable pub write_pimg : List Change → Action (Client env) (Unit {0})
  write_pimg batch = checked λ c.
      let (e, d) = ldb.write c.dbm.pimg_db batch in
      (e, record c { dbm = record (c.dbm) { pimg_db = d } })

  unfoldable pub write_txn_pool : List Change → Action (Client env) (Unit {0})
  write_txn_pool batch = checked λ c.
      let (e, d) = ldb.write c.dbm.txn_pool_db batch in
      (e, record c { dbm = record (c.dbm) { txn_pool_db = d } })
