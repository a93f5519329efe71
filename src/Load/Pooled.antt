-- ===== src/Load/Pooled.antt =====
-- What `LoadTxn` and `FindOutput` can return.
use ozcoin.Base.{◌≡◌, arith, Option, none, some, List, [], ◌∷◌, Bool-cases, inl, inr, ◌≢◌}
use ozcoin.Go.{returns, panics}
use ozcoin.Go.Read
use ozcoin.Types.{Sha256Sum, Block, Txn}
use ozcoin.Env.{Env}
use ozcoin.Client.{Client, is_blockchain}
use ozcoin.Store.{get_txn_pool, map_to_block, get_block}
use ozcoin.Load.{load_txn, txn_in_block, txn_among}

module _ (env : Env) where
  -- The search of a block's txns never returns one.
  txn_among-ne-returns :
      (key : Sha256Sum) (ts : List Txn) (t : Option Txn) → txn_among env key ts ≢ returns t
  unfolding txn_among
  txn_among-ne-returns key [] t = λ e. cc
  txn_among-ne-returns key (u ∷ ts) t = λ e. ground (arith, txn_among-ne-returns key ts t)

  txn_in_block-ne-returns :
      (c : Client env) (key : Sha256Sum) (t : Option Txn) → txn_in_block env c key ≢ returns t
  unfolding txn_in_block
  txn_in_block-ne-returns c key t e = elim (Bool-cases (is_blockchain c.type)) [
    | inl full ↦
        let e' = rw full at e in
        let (h, _, e1) = Read.>>=-eq-returns (map_to_block env c key) _ e' in
        let (b, _, e2) = Read.>>=-eq-returns (get_block env c h) _ e1 in no_block b e2
    | inr light ↦ let e' = rw light at e in cc
  ]
    where
      no_block :
          (b : Option Block)
          → elim b [ none ↦ panics | some k ↦ txn_among env key k.txns ] ≢ returns t
      no_block none = λ e. cc
      no_block (some k) = txn_among-ne-returns key k.txns t

  -- `LoadTxn` returns a txn only from the pool: its search of a stored block can end with an error
  -- or a panic alone.
  load_txn_pooled :
      (c : Client env) (key : Sha256Sum) (t : Option Txn)
      → load_txn env c key ≡ returns t
      → get_txn_pool env c key ≡ returns t
  unfolding load_txn
  load_txn_pooled c key t e = ground (arith, txn_in_block-ne-returns c key t)
