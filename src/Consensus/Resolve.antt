-- ===== src/Consensus/Resolve.antt =====
-- The bodies of the client's goroutines, `AddOrOrphan` and `AddToTxnPool` of consensus.go and
-- `AdoptTxn` and `AdoptMinedBlock` of client.go, between the wait for `startChan` and the send on
-- `doneChan`; and `FilterBlock` and `FilterTxn`. An error is logged there, which is not kept.
use ozcoin.Base.{ℕ, Bool, true, false, not, ◌&&◌, ◌||◌, ◌==◌, if◌then◌else◌, bytes_eq}
use ozcoin.Go.{Result, ok, err, Outcome, returns, fails}
use ozcoin.Go.Read
use ozcoin.Go.Run.{Action, ◌>>=◌, ◌>>◌, pure, throw, reads, caught}
use ozcoin.Types.{Block, Txn, HashMsg}
use ozcoin.Env.{Env}
use ozcoin.Hash.{header_hash, txn_hash}
use ozcoin.Block.{valid_header}
use ozcoin.Client.{Client}
use ozcoin.Store.{
  get_header, get_side_header, get_orphan_header, get_txn_pool, get_preimage, put_txn_pool,
}
use ozcoin.Load.{load_or_fetch_txn}
use ozcoin.Txn.{valid_txn, valid_coinbase_txn, prevalid_block}
use ozcoin.Consensus.Main.{extend_main_chain, bcast_block, bcast_txn}
use ozcoin.Consensus.Adopt.{add_or_orphan_helper}

-- `success` after `success, err := f()`: it is false where there is an error.
abbrev succeeded : Result Bool → Bool
succeeded (ok b) = b
succeeded (err e) = false

-- A call whose error is logged and dropped.
abbrev logged : {S A : Type 0} → Action S A → Action S (Unit {0})
logged m = do r ← caught m; pure tt

module _ (env : Env) where
  -- `AddOrOrphan`
  unfoldable pub add_or_orphan : ℕ → HashMsg → Action (Client env) (Unit {0})
  add_or_orphan fuel req = do
    r ← caught (add_or_orphan_helper env fuel req)
    if succeeded r then logged (bcast_block env req.hash) else pure tt

  -- `AddToTxnPoolHelper`
  unfoldable pub add_to_txn_pool_helper : HashMsg → Action (Client env) Bool
  add_to_txn_pool_helper req = do
    t ← reads λ c. load_or_fetch_txn env c req
    if not (valid_txn env t) && not (valid_coinbase_txn env t)
        then throw "Invalid txn"
        else (do put_txn_pool env t; pure true)

  -- `AddToTxnPool`
  unfoldable pub add_to_txn_pool : HashMsg → Action (Client env) (Unit {0})
  add_to_txn_pool req = do
    r ← caught (add_to_txn_pool_helper req)
    if succeeded r then logged (bcast_txn env req.hash) else pure tt

  -- `AdoptTxn`
  unfoldable pub adopt_txn : Txn → Action (Client env) (Unit {0})
  adopt_txn t = if not (valid_txn env t) && not (valid_coinbase_txn env t) then pure tt else (do
    r ← caught (put_txn_pool env t)
    elim r [ err _ ↦ pure tt | ok _ ↦ logged (bcast_txn env (txn_hash env t)) ])

  -- The checks of `AdoptMinedBlock`.
  unfoldable pub mined_block_fits : Client env → Block → Bool
  mined_block_fits c b =
      (b.header.seq_num == 0) || bytes_eq (header_hash env c.last_header) b.header.prev_hash

  -- `AdoptMinedBlock`
  unfoldable pub adopt_mined_block : Block → Action (Client env) (Unit {0})
  unfolding mined_block_fits
  adopt_mined_block b = do
    fits ← reads λ c. returns (mined_block_fits c b)
    if not fits then pure tt else (do
      timely ← reads λ c. valid_header env b.header
      if not timely || not (prevalid_block env b) then pure tt else (do
        r ← caught (extend_main_chain env b.header b)
        if succeeded r then logged (bcast_block env (header_hash env b.header)) else pure tt))

  -- `FilterBlock`: no error where the header is known.
  unfoldable pub filter_block : Client env → HashMsg → Outcome (Unit {0})
  filter_block c req = Read.◌>>=◌ (Read.caught (get_header env c req.hash)) λ main. elim main [
    | ok _ ↦ returns tt
    | err _ ↦ Read.◌>>=◌ (Read.caught (get_side_header env c req.hash)) λ side. elim side [
      | ok _ ↦ returns tt
      | err _ ↦ Read.◌>>=◌ (get_orphan_header env c req.hash) λ _. returns tt
    ]
  ]

  -- `FilterTxn`: no error where the txn is pooled, or its hash is a recorded preimage.
  unfoldable pub filter_txn : Client env → HashMsg → Outcome (Unit {0})
  filter_txn c req = Read.◌>>=◌ (Read.caught (get_txn_pool env c req.hash)) λ pooled. elim pooled [
    | ok _ ↦ returns tt
    | err e ↦ if get_preimage env c req.hash then returns tt else fails e
  ]
