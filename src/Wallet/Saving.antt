-- ===== src/Wallet/Saving.antt =====
-- wallet-server.go: the outputs that a block gives to the wallet, and those that it takes back.
pub mod Mined
pub mod Taken
use ozcoin.Base.{ℕ, zero, suc, not, Option, none, some, List, [], ◌∷◌, if◌then◌else◌}
use ozcoin.Go.{Outcome, returns}
use ozcoin.Go.Read
use ozcoin.Go.Run.{Action, ◌>>=◌, ◌>>◌, pure, reads, checked}
use ozcoin.Types.{Block, Txn, Output, WalletPrivateKey}
use ozcoin.Env.{Env}
use ozcoin.Hash.{output_hash}
use ozcoin.Chain.{coinbase_value}
use ozcoin.Output.{belongs_to_me}
use ozcoin.Mining.{fees_of}
use ozcoin.Payment.{OutputPlaintext, decrypt_coinbase, decrypt}
use ozcoin.Wallet.{WalletEnv, WalletServer}

module _ (env : Env) (wallet : WalletEnv) where
  open env use {ldb}

  -- The plaintext of an output of the txn at index `i` that belongs to the key.
  unfoldable pub plaintext_of : ℕ → ℕ → WalletPrivateKey → Output → Outcome (Option OutputPlaintext)
  unfolding decrypt_coinbase decrypt
  plaintext_of zero coinbase priv o =
      Read.◌>>=◌ (decrypt_coinbase env wallet.base64 o)
        λ op. returns (some (record op { amount = coinbase }))
  plaintext_of (suc i) coinbase priv o = decrypt env wallet.base64 o priv

  -- What `saveMyTxns` does with one output and one key.
  unfoldable pub save_output :
      Block → ℕ → ℕ → WalletPrivateKey → Output → Action (WalletServer env) (Unit {0})
  unfolding plaintext_of output_hash
  save_output b coinbase i priv o = do
    mine ← reads λ ws. belongs_to_me env o priv.tracking_key
    if not mine then pure tt else (do
      plain ← reads λ ws. plaintext_of i coinbase priv o
      elim plain [
        | none ↦ pure tt
        | some op ↦ checked λ ws.
            let named = record op {
              time = wallet.time_string b.header.time;
              height = b.header.seq_num;
            } in
            let (e, d) = ldb.put ws.txn_db (output_hash env o) (wallet.plaintext_json named) in
            (e, record ws { txn_db = d })
      ])

  save_outputs :
      Block → ℕ → ℕ → WalletPrivateKey → List Output → Action (WalletServer env) (Unit {0})
  unfolding save_output
  save_outputs b coinbase i priv [] = pure tt
  save_outputs b coinbase i priv (o ∷ os) = do
    save_output b coinbase i priv o
    save_outputs b coinbase i priv os

  save_for_keys :
      Block → ℕ → ℕ → List WalletPrivateKey → List Output → Action (WalletServer env) (Unit {0})
  unfolding save_outputs
  save_for_keys b coinbase i [] os = pure tt
  save_for_keys b coinbase i (priv ∷ privs) os = do
    save_outputs b coinbase i priv os
    save_for_keys b coinbase i privs os

  -- The loop over the txns, at index `i`.
  save_txns : Block → ℕ → ℕ → List Txn → Action (WalletServer env) (Unit {0})
  unfolding save_for_keys
  save_txns b coinbase i [] = pure tt
  save_txns b coinbase i (t ∷ ts) = do
    λ ws. save_for_keys b coinbase i ws.privs t.body.outputs ws
    save_txns b coinbase (suc i) ts

  -- `WalletServer.saveMyTxns`
  unfoldable pub save_my_txns : Block → Action (WalletServer env) (Unit {0})
  unfolding save_txns fees_of
  save_my_txns b = save_txns b (fees_of (coinbase_value b.header.seq_num) b.txns) 0 b.txns

  delete_outputs : List Output → Action (WalletServer env) (Unit {0})
  unfolding output_hash
  delete_outputs [] = pure tt
  delete_outputs (o ∷ os) = do
    checked
        λ ws. let (e, d) = ldb.delete ws.txn_db (output_hash env o) in (e, record ws { txn_db = d })
    delete_outputs os

  -- `WalletServer.deleteTxns`
  unfoldable pub delete_txns : List Txn → Action (WalletServer env) (Unit {0})
  unfolding delete_outputs
  delete_txns [] = pure tt
  delete_txns (t ∷ ts) = do delete_outputs t.body.outputs; delete_txns ts
