-- ===== src/Wallet/Saving/Mined.antt =====
-- What `saveMyTxns` does with a block that was mined for the wallet's key.
use ozcoin.Base.{
  ℕ, zero, suc, ◌≡◌, refl, sym, ap, ◌∙◌, subst, true, false, Option, none, some, List, [], ◌∷◌, All,
}
use ozcoin.Go.{Outcome, returns}
use ozcoin.Go.Read
use ozcoin.Go.Run
use ozcoin.Go.Run.{Action, of_error-eq-returns, reads}
use ozcoin.Types.{Block, BlockHeader, Txn, Output, WalletPrivateKey}
use ozcoin.Env.{Env}
use ozcoin.Hash.{output_hash}
use ozcoin.Chain.{coinbase_value}
use ozcoin.Output.{belongs_to_me}
use ozcoin.Mining.{fees_of}
use ozcoin.Payment.{OutputPlaintext, decrypt_coinbase}
use ozcoin.Wallet.{WalletEnv, WalletServer}
use ozcoin.Wallet.Saving.{
  plaintext_of, save_output, save_outputs, save_for_keys, save_txns, save_my_txns,
}

module _ (env : Env) (wallet : WalletEnv) where
  -- An output that the key does not own.
  abbrev pub NotMine : WalletPrivateKey → Output → Type 0
  NotMine priv o = belongs_to_me env o priv.tracking_key ≡ returns false

  -- What was written for an output.
  pub record Saved (amount : ℕ) (o : Output) (ws ws' : WalletServer env) : Type 0 where
    pub plain : OutputPlaintext
    pub has_amount : plain.amount ≡ amount
    pub wrote : (env.ldb.put ws.txn_db (output_hash env o) (wallet.plaintext_json plain)).0 ≡ none
    pub written : ws' ≡ record ws {
      txn_db = (env.ldb.put ws.txn_db (output_hash env o) (wallet.plaintext_json plain)).1;
    }

  skip_outputs :
      (b : Block) (coinbase i : ℕ) (priv : WalletPrivateKey) (os : List Output)
      (ws : WalletServer env)
      → All (NotMine priv) os
      → save_outputs env wallet b coinbase i priv os ws ≡ (returns tt, ws)
  unfolding save_outputs save_output
  skip_outputs b coinbase i priv [] ws none_mine = refl
  skip_outputs b coinbase i priv (o ∷ os) ws (e, none_mine) =
      rw e (skip_outputs b coinbase i priv os ws none_mine)

  for_one_key :
      (b : Block) (coinbase i : ℕ) (priv : WalletPrivateKey) (os : List Output)
      (ws ws' : WalletServer env)
      → ws.privs ≡ priv ∷ []
      → save_outputs env wallet b coinbase i priv os ws ≡ (returns tt, ws')
      → save_for_keys env wallet b coinbase i ws.privs os ws ≡ (returns tt, ws')
  unfolding save_for_keys
  for_one_key b coinbase i priv os ws ws' keys e =
      subst (λ ps. save_for_keys env wallet b coinbase i ps os ws ≡ (returns tt, ws')) (sym keys)
        (Run.>>=-of_returns (save_outputs env wallet b coinbase i priv os) _ ws e)

  skip_txns :
      (b : Block) (coinbase i : ℕ) (priv : WalletPrivateKey) (ts : List Txn) (ws : WalletServer env)
      → ws.privs ≡ priv ∷ []
      → All (λ (t : Txn). All (NotMine priv) t.body.outputs) ts
      → save_txns env wallet b coinbase i ts ws ≡ (returns tt, ws)
  unfolding save_txns
  skip_txns b coinbase i priv [] ws keys none_mine = refl
  skip_txns b coinbase i priv (t ∷ ts) ws keys (e, none_mine) =
      Run.>>=-of_returns (λ ws. save_for_keys env wallet b coinbase i ws.privs t.body.outputs ws) _
        ws
        (for_one_key b coinbase i priv t.body.outputs ws ws keys
          (skip_outputs b coinbase i priv t.body.outputs ws e))
      ∙ skip_txns b coinbase (suc i) priv ts ws keys none_mine

  plaintext_of-decrypt_coinbase :
      (coinbase : ℕ) (priv : WalletPrivateKey) (o : Output) (op : OutputPlaintext)
      → decrypt_coinbase env wallet.base64 o ≡ returns op
      → plaintext_of env wallet zero coinbase priv o
        ≡ returns (some (record op { amount = coinbase }))
  unfolding plaintext_of
  plaintext_of-decrypt_coinbase coinbase priv o op d = rw d refl

  save_output-Saved :
      (b : Block) (coinbase : ℕ) (priv : WalletPrivateKey) (o : Output) (ws ws' : WalletServer env)
      → belongs_to_me env o priv.tracking_key ≡ returns true
      → save_output env wallet b coinbase zero priv o ws ≡ (returns tt, ws')
      → Saved coinbase o ws ws'
  unfolding save_output plaintext_of
  save_output-Saved b coinbase priv o ws ws' mine e =
      let r1 =
        sym (
          Run.>>=-of_returns
            (reads {S = WalletServer env} λ ws. belongs_to_me env o priv.tracking_key) _ ws
            (λ i. (mine i, ws)))
        ∙ e in
      let (plain, ws1, e2, _) =
        Run.>>=-eq-returns
          (reads {S = WalletServer env} λ ws. plaintext_of env wallet zero coinbase priv o) _ ws
          r1 in
      let (op, d, _) =
        Read.>>=-eq-returns (decrypt_coinbase env wallet.base64 o) _
          (ap (λ (q : Outcome (Option OutputPlaintext) × WalletServer env). q.0) e2) in
      let is_plain = plaintext_of-decrypt_coinbase coinbase priv o op d in
      let r2 =
        sym (
          Run.>>=-of_returns
            (reads {S = WalletServer env} λ ws. plaintext_of env wallet zero coinbase priv o) _ ws
            (λ i. (is_plain i, ws)))
        ∙ r1 in
      record {
        plain = record op {
          amount = coinbase;
          time = wallet.time_string b.header.time;
          height = b.header.seq_num;
        };
        has_amount = refl;
        wrote = of_error-eq-returns _ (ap (λ (q : Outcome (Unit {0}) × WalletServer env). q.0) r2);
        written = ap (λ (q : Outcome (Unit {0}) × WalletServer env). q.1) (sym r2);
      }

  pub save_my_txns-Saved :
      (h : BlockHeader) (t : Txn) (ts : List Txn) (o : Output) (priv : WalletPrivateKey)
      (ws ws' : WalletServer env)
      → let b : Block = record { header = h; txns = t ∷ ts } in
        ws.privs ≡ priv ∷ []
        → t.body.outputs ≡ o ∷ []
        → belongs_to_me env o priv.tracking_key ≡ returns true
        → All (λ (u : Txn). All (NotMine priv) u.body.outputs) ts
        → save_my_txns env wallet b ws ≡ (returns tt, ws')
        → Saved (fees_of (coinbase_value h.seq_num) (t ∷ ts)) o ws ws'
  unfolding save_my_txns save_txns save_for_keys save_outputs
  save_my_txns-Saved h t ts o priv ws ws' keys single mine none_mine e =
      let b : Block = record { header = h; txns = t ∷ ts } in
      let coinbase = fees_of (coinbase_value h.seq_num) (t ∷ ts) in
      let (_, ws1, e1, r1) =
        Run.>>=-eq-returns
          (λ ws. save_for_keys env wallet b coinbase zero ws.privs t.body.outputs ws) _ ws e in
      let first : save_for_keys env wallet b coinbase zero (priv ∷ []) (o ∷ []) ws
          ≡ (returns tt, ws1) =
        subst (λ os. save_for_keys env wallet b coinbase zero (priv ∷ []) os ws ≡ (returns tt, ws1))
          single
          (subst
            (λ ps.
              save_for_keys env wallet b coinbase zero ps t.body.outputs ws ≡ (returns tt, ws1))
            keys e1) in
      let (_, ws2, e2, r2) =
        Run.>>=-eq-returns (save_outputs env wallet b coinbase zero priv (o ∷ [])) _ ws first in
      let (_, ws3, e3, r3) =
        Run.>>=-eq-returns (save_output env wallet b coinbase zero priv o) _ ws e2 in
      let saved = save_output-Saved b coinbase priv o ws ws3 mine e3 in
      let same : ws3 ≡ ws1 =
        ap (λ (q : Outcome (Unit {0}) × WalletServer env). q.1) r3
        ∙ ap (λ (q : Outcome (Unit {0}) × WalletServer env). q.1) r2 in
      let keys1 : ws1.privs ≡ priv ∷ [] =
        ap (λ (w : WalletServer env). w.privs) (sym same ∙ saved.written) ∙ keys in
      let left : ws1 ≡ ws' =
        ap (λ (q : Outcome (Unit {0}) × WalletServer env). q.1)
          (sym (skip_txns b coinbase (suc zero) priv ts ws1 keys1 none_mine) ∙ r1) in
      subst (Saved coinbase o ws) (same ∙ left) saved
