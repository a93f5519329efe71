-- ===== src/Store/Maps.antt =====
-- db.go: the map from outputs and preimages to the block that holds them.
use ozcoin.Base.{List, [], ◌∷◌, ◌++◌}
use ozcoin.Go.{Outcome, returns}
use ozcoin.Go.Read
use ozcoin.Go.Run.{Action, ◌>>=◌, reads}
use ozcoin.Types.{Bytes, Block, Txn, Output}
use ozcoin.Env.{Env, Change, put, delete}
use ozcoin.Hash.{header_hash, output_hash, preimage_hash}
use ozcoin.Client.{Client}
use ozcoin.Store.{write_map}

module _ (env : Env) where
  -- One change, made by `change`, for each output.
  unfoldable pub output_changes : (Bytes → Change) → List Output → List Change
  unfolding output_hash
  output_changes change [] = []
  output_changes change (o ∷ os) = change (output_hash env o) ∷ output_changes change os

  -- The changes for the txns behind the first: one for the preimage, then those of the outputs.
  unfoldable pub txn_changes : (Bytes → Change) → List Txn → Outcome (List Change)
  unfolding preimage_hash output_changes
  txn_changes change [] = returns []
  txn_changes change (t ∷ ts) = Read.◌>>=◌ (preimage_hash env t) λ p.
      Read.◌>>=◌ (txn_changes change ts)
        λ rest. returns (change p ∷ (output_changes change t.body.outputs ++ rest))

  -- The batch of `PutMapToBlock` and of `DeleteMapToBlock`.
  unfoldable pub map_changes : (Bytes → Change) → List Txn → Outcome (List Change)
  unfolding output_changes txn_changes
  map_changes change [] = returns []
  map_changes change (t ∷ ts) =
      Read.◌>>=◌ (txn_changes change ts)
        λ rest. returns (output_changes change t.body.outputs ++ rest)

  unfoldable pub put_map_to_block : Block → Action (Client env) (Unit {0})
  unfolding map_changes write_map
  put_map_to_block b = do
    batch ← reads λ c. map_changes (λ k. put k (header_hash env b.header)) b.txns
    write_map env batch

  unfoldable pub delete_map_to_block : Block → Action (Client env) (Unit {0})
  unfolding map_changes write_map
  delete_map_to_block b = do batch ← reads λ c. map_changes delete b.txns; write_map env batch
