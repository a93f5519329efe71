-- ===== src/Wallet/Credited.antt =====
-- A block that was mined for the wallet, and the balance before and after it.
use ozcoin.Base.{ℕ, ◌+◌, ◌%◌, ◌≡◌, refl, sym, ap, ◌∙◌, subst, true, List, [], ◌∷◌, All}
use mathlib.Core.List.{Permᴰ}
use ozcoin.Go.{Result, ok, returns}
use ozcoin.Types.{Bytes, Block, BlockHeader, Txn, Output, WalletPrivateKey, u64_mod}
use ozcoin.Env.{Env}
use ozcoin.Env.Laws.{EntriesLaws}
use ozcoin.Hash.{output_hash}
use ozcoin.Chain.{coinbase_value}
use ozcoin.Output.{belongs_to_me}
use ozcoin.Mining.{fees_of}
use ozcoin.Payment.{OutputPlaintext}
use ozcoin.Wallet.{WalletEnv, WalletServer, accepted}
use ozcoin.Wallet.Handlers.{handle_new_block, handle_delete_block}
use ozcoin.Wallet.Saving.{save_my_txns, delete_txns}
use ozcoin.Wallet.Saving.Mined.{NotMine, Saved, save_my_txns-Saved}
use ozcoin.Wallet.Saving.Taken.{Leaves, AreFresh, delete_txns-Leaves}
use ozcoin.Wallet.Ledger.{IsFresh, without_fresh, worth, worth-Perm, amount_of}
use ozcoin.Wallet.Balance.{Answers, Reports, balance_worth, Answers-Leaves, handler_runs}

-- A stored plaintext is read with the amount that it was written with.
abbrev pub KeepsAmount : WalletEnv → Type 0
KeepsAmount wallet =
    (op : OutputPlaintext)
    → (found : OutputPlaintext) × (wallet.read_plaintext (wallet.plaintext_json op) ≡ ok found)
      × (found.amount ≡ op.amount)

module _ (env : Env) (wallet : WalletEnv) (laws : EntriesLaws env.ldb)
    (json : KeepsAmount wallet) where
  Saved-Leaves :
      (amount : ℕ) (o : Output) (ws ws' : WalletServer env)
      → Saved env wallet amount o ws ws'
      → IsFresh (output_hash env o) (env.ldb.entries ws.txn_db)
      → (op : OutputPlaintext) × (op.amount ≡ amount)
        × Leaves env
            ((output_hash env o, wallet.plaintext_json op) ∷ env.ldb.entries ws.txn_db)
            ws
            ws'
  Saved-Leaves amount o ws ws' saved fresh =
      let k = output_hash env o in
      let v = wallet.plaintext_json saved.plain in
      let entries = env.ldb.entries ws.txn_db in
      let written : Permᴰ (env.ldb.entries (env.ldb.put ws.txn_db k v).1) ((k, v) ∷ entries) =
        subst (λ es. Permᴰ (env.ldb.entries (env.ldb.put ws.txn_db k v).1) ((k, v) ∷ es))
          (without_fresh k entries fresh) (laws.entries_put ws.txn_db k v saved.wrote) in
      (
        saved.plain,
        saved.has_amount,
        subst (Leaves env ((k, v) ∷ entries) ws) (sym saved.written)
            (record { left = written; same_auth = refl; same_priv = refl }),
      )

  -- With a database whose iterator goes over what was put and not deleted, and JSON that keeps
  -- amounts: take a wallet with one key that answers a request, and a block whose first txn has one
  -- output, the key's, and no other output of it is the key's. Where none of its outputs is in the
  -- database, the requests with the block that are accepted do to the balance what they are for: a
  -- new block adds the coinbase value and the fees of the block to it, modulo 2^64, and deleting the
  -- block brings the balance back to what it was.
  pub mined_block_credited :
      (cookie : Result Bytes) (priv : WalletPrivateKey) (h : BlockHeader) (t : Txn) (ts : List Txn)
      (o : Output) (ws ws1 ws2 : WalletServer env)
      → let b : Block = record { header = h; txns = t ∷ ts } in
        let entries = env.ldb.entries ws.txn_db in
        let held = worth wallet.read_plaintext entries in
        Answers env wallet cookie (priv ∷ []) ws
        → t.body.outputs ≡ o ∷ []
        → belongs_to_me env o priv.tracking_key ≡ returns true
        → All (λ (u : Txn). All (NotMine env wallet priv) u.body.outputs) ts
        → IsFresh (output_hash env o) entries
        → All (λ (u : Txn). AreFresh env u.body.outputs entries) ts
        → handle_new_block env wallet cookie (ok b) ws ≡ (returns accepted, ws1)
        → handle_delete_block env wallet cookie (ok b) ws1 ≡ (returns accepted, ws2)
        → Reports env wallet cookie (held % u64_mod) ws
          × Reports env wallet cookie
              ((fees_of (coinbase_value h.seq_num) (t ∷ ts) + held) % u64_mod)
              ws1
          × Reports env wallet cookie (held % u64_mod) ws2
  unfolding handle_new_block handle_delete_block
  mined_block_credited cookie priv h t ts o ws ws1 ws2 a single mine others fresh fresh_rest e1 e2 =
      let b : Block = record { header = h; txns = t ∷ ts } in
      let read = wallet.read_plaintext in
      let entries = env.ldb.entries ws.txn_db in
      let (os, saves) =
        handler_runs env wallet cookie (priv ∷ []) (save_my_txns env wallet b) ws ws1 a e1 in
      let r = record ws { privs = priv ∷ []; outputs = os } in
      let (op, amount, l1) =
        Saved-Leaves (fees_of (coinbase_value h.seq_num) (t ∷ ts)) o r ws1
          (save_my_txns-Saved env wallet h t ts o priv r ws1 refl single mine others saves) fresh in
      let v = wallet.plaintext_json op in
      let (found, read_as, kept) = json op in
      let l1' : Leaves env ((output_hash env o, v) ∷ entries) ws ws1 = record {
        left = l1.left;
        same_auth = l1.same_auth;
        same_priv = l1.same_priv;
      } in
      let a1 =
        Answers-Leaves env wallet cookie (priv ∷ []) ((output_hash env o, v) ∷ entries) ws ws1 a
          ((found, read_as), a.readable) l1' in
      let (os1, deletes) =
        handler_runs env wallet cookie (priv ∷ []) (delete_txns env wallet (t ∷ ts)) ws1 ws2 a1
          e2 in
      let r1 = record ws1 { privs = priv ∷ []; outputs = os1 } in
      let l2 =
        delete_txns-Leaves env wallet laws t ts o v entries r1 ws2 single l1.left fresh fresh_rest
          deletes in
      let l2' : Leaves env entries ws1 ws2 = record {
        left = l2.left;
        same_auth = l2.same_auth;
        same_priv = l2.same_priv;
      } in
      let a2 = Answers-Leaves env wallet cookie (priv ∷ []) entries ws1 ws2 a1 a.readable l2' in
      let credit : worth read (env.ldb.entries ws1.txn_db)
          ≡ fees_of (coinbase_value h.seq_num) (t ∷ ts) + worth read entries =
        worth-Perm read l1.left
        ∙ ap (λ n. n + worth read entries) (ap amount_of read_as ∙ kept ∙ amount) in
      (
        balance_worth env wallet cookie (priv ∷ []) ws a,
        subst (λ n. Reports env wallet cookie (n % u64_mod) ws1) credit
            (balance_worth env wallet cookie (priv ∷ []) ws1 a1),
        subst (λ n. Reports env wallet cookie (n % u64_mod) ws2) (worth-Perm read l2.left)
            (balance_worth env wallet cookie (priv ∷ []) ws2 a2),
      )
