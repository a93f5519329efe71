-- ===== src/Load.antt =====
-- The parts of block.go, output.go and txn.go that look for a block, an output or a txn: in the
-- databases first, then at the peers.
pub mod Pooled
use ozcoin.Base.{Bool, true, false, not, Option, none, some, List, [], ◌∷◌, if◌then◌else◌, bytes_eq}
use ozcoin.Go.{Result, ok, err, Outcome, returns, fails, panics, of_result}
use ozcoin.Go.Read.{◌>>=◌, caught}
use ozcoin.Types.{Bytes, Sha256Sum, Block, Txn, Output, HashMsg}
use ozcoin.Env.{Env, LevelDb}
use ozcoin.Hash.{output_hash, preimage_hash}
use ozcoin.Client.{Client, is_blockchain}
use ozcoin.Store.{get_block, get_side_block, get_orphan_block, map_to_block, get_txn_pool}
use ozcoin.Gossip.{fetch_block, fetch_txn, fetch_output}

module _ (env : Env) where
  open env use {ldb}

  -- What the iterator over the peers ends with when no peer answered: its error, or a nil pointer
  -- and no error.
  unfoldable pub no_peer : {A : Type 0} → Client env → Outcome (Option A)
  no_peer c = elim (ldb.iter_error c.dbm.peer_db) [ none ↦ returns none | some e ↦ fails e ]

  -- `LoadBlock`
  unfoldable pub load_block : Client env → Sha256Sum → Outcome (Option Block)
  unfolding is_blockchain
  load_block c key = if not (is_blockchain c.type) then fails "Not BLOCKCHAIN_CLIENT" else (do
    main ← caught (get_block env c key)
    elim main [
      | ok b ↦ returns b
      | err _ ↦ do
        side ← caught (get_side_block env c key)
        elim side [ ok b ↦ returns b | err _ ↦ get_orphan_block env c key ]
    ])

  -- `LoadOrFetchBlock`
  unfoldable pub load_or_fetch_block : Client env → HashMsg → Outcome Block
  unfolding load_block
  load_or_fetch_block c req = do
    loaded ← caught (load_block c req.hash)
    elim loaded [
      | ok none ↦ fails "Unable to load block"
      | ok (some b) ↦ returns b
      | err _ ↦ fetch_block env c req.hash req.address
    ]

  block_at_peers : Client env → Sha256Sum → List (Bytes × Bytes) → Outcome (Option Block)
  unfolding no_peer
  block_at_peers c key [] = no_peer c
  block_at_peers c key ((address, _) ∷ peers) = do
    fetched ← caught (fetch_block env c key address)
    elim fetched [ ok b ↦ returns (some b) | err _ ↦ block_at_peers c key peers ]

  -- `FindBlock`
  unfoldable pub find_block : Client env → Sha256Sum → Outcome (Option Block)
  unfolding load_block block_at_peers
  find_block c key = do
    loaded ← caught (load_block c key)
    elim loaded [ ok b ↦ returns b | err _ ↦ block_at_peers c key (ldb.entries c.dbm.peer_db) ]

  output_among : Sha256Sum → List Output → Option Output
  unfolding output_hash
  output_among key [] = none
  output_among key (o ∷ os) =
      if bytes_eq (output_hash env o) key then some o else output_among key os

  output_in_txns : Sha256Sum → List Txn → Option Output
  unfolding output_among
  output_in_txns key [] = none
  output_in_txns key (t ∷ ts) =
      let rest = output_in_txns key ts in
      elim (output_among key t.body.outputs) [ some o ↦ some o | none ↦ rest ]

  -- `LoadOutput`; the use of a nil block panics.
  unfoldable pub load_output : Client env → Sha256Sum → Outcome Output
  unfolding is_blockchain map_to_block load_block output_in_txns
  load_output c key = if not (is_blockchain c.type) then fails "Not BLOCKCHAIN_CLIENT" else (do
    block_hash ← map_to_block env c key
    block ← load_block c block_hash
    elim block [
      | none ↦ panics
      | some b ↦ elim (output_in_txns key b.txns) [
        | some o ↦ returns o
        | none ↦ fails "Could not load output"
      ]
    ])

  output_at_peers : Client env → Sha256Sum → List (Bytes × Bytes) → Outcome (Option Output)
  unfolding no_peer
  output_at_peers c key [] = no_peer c
  output_at_peers c key ((address, _) ∷ peers) = do
    fetched ← caught (fetch_output env c key address)
    elim fetched [ ok o ↦ returns (some o) | err _ ↦ output_at_peers c key peers ]

  -- `FindOutput`
  unfoldable pub find_output : Client env → Sha256Sum → Outcome (Option Output)
  unfolding load_output output_at_peers
  find_output c key = do
    loaded ← caught (load_output c key)
    elim loaded [
      | ok o ↦ returns (some o)
      | err _ ↦ output_at_peers c key (ldb.entries c.dbm.peer_db)
    ]

  -- The last loop of `LoadTxn`. A txn that fits is written through the nil pointer that
  -- `GetTxnPool` has returned, which panics.
  txn_among : Sha256Sum → List Txn → Outcome (Option Txn)
  unfolding preimage_hash
  txn_among key [] = fails "Could not load txn"
  txn_among key (t ∷ ts) = do
    p ← preimage_hash env t
    elim (bytes_eq key p) [ true ↦ panics | false ↦ txn_among key ts ]

  -- The part of `LoadTxn` that is reached when the pool does not have the txn.
  txn_in_block : Client env → Sha256Sum → Outcome (Option Txn)
  unfolding is_blockchain txn_among
  txn_in_block c key = if not (is_blockchain c.type) then fails "Not BLOCKCHAIN_CLIENT" else (do
    block_hash ← map_to_block env c key
    block ← get_block env c block_hash
    elim block [ none ↦ panics | some b ↦ txn_among key b.txns ])

  -- `LoadTxn`
  unfoldable pub load_txn : Client env → Sha256Sum → Outcome (Option Txn)
  unfolding txn_in_block
  load_txn c key = do
    pooled ← caught (get_txn_pool env c key)
    elim pooled [ ok t ↦ returns t | err _ ↦ txn_in_block c key ]

  -- `LoadOrFetchTxn`
  unfoldable pub load_or_fetch_txn : Client env → HashMsg → Outcome Txn
  unfolding load_txn
  load_or_fetch_txn c req = do
    loaded ← caught (load_txn c req.hash)
    elim loaded [
      | ok none ↦ fails "Unable to load txn"
      | ok (some t) ↦ returns t
      | err _ ↦ fetch_txn env c req.hash req.address
    ]
