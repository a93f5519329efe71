-- ===== src/Wallet/Saving/Taken.antt =====
-- What `deleteTxns` leaves of the entries.
use ozcoin.Base.{◌≡◌, refl, ap, ◌∙◌, subst, none, List, [], ◌∷◌, All, bytes_eq_refl}
use mathlib.Core.List.{Permᴰ}
use mathlib.Core.List.Permᴰ
use ozcoin.Go.{Outcome, returns}
use ozcoin.Go.Run
use ozcoin.Go.Run.{Action, checked, of_error-eq-returns}
use ozcoin.Types.{Bytes, Txn, Output}
use ozcoin.Env.{Env}
use ozcoin.Env.Laws.{EntriesLaws, without}
use ozcoin.Hash.{output_hash}
use ozcoin.Wallet.{WalletEnv, WalletServer}
use ozcoin.Wallet.Ledger.{IsFresh, without_fresh, without-Perm}
use ozcoin.Wallet.Saving.{delete_outputs, delete_txns}

module _ (env : Env) where
  -- The same server, but for the entries of the txn database.
  pub record Leaves (entries : List (Bytes × Bytes)) (ws ws' : WalletServer env) : Type 0 where
    pub left : Permᴰ (env.ldb.entries ws'.txn_db) entries
    pub same_auth : ws'.auth_db ≡ ws.auth_db
    pub same_priv : ws'.priv_db ≡ ws.priv_db

  -- None of the outputs is in the database.
  abbrev pub AreFresh : List Output → List (Bytes × Bytes) → Type 0
  AreFresh os entries = All (λ (o : Output). IsFresh (output_hash env o) entries) os

module _ (env : Env) (wallet : WalletEnv) (laws : EntriesLaws env.ldb) where
  delete_one : Bytes → Action (WalletServer env) (Unit {0})
  delete_one k =
      checked λ ws. let (e, d) = env.ldb.delete ws.txn_db k in (e, record ws { txn_db = d })

  delete_one-Leaves :
      (k : Bytes) (ws ws' : WalletServer env)
      → delete_one k ws ≡ (returns tt, ws')
      → Leaves env (without k (env.ldb.entries ws.txn_db)) ws ws'
  unfolding delete_one
  delete_one-Leaves k ws ws' e =
      let gone : (env.ldb.delete ws.txn_db k).0 ≡ none =
        of_error-eq-returns _ (ap (λ (q : Outcome (Unit {0}) × WalletServer env). q.0) e) in
      subst (Leaves env (without k (env.ldb.entries ws.txn_db)) ws)
        (ap (λ (q : Outcome (Unit {0}) × WalletServer env). q.1) e)
        (record { left = laws.entries_delete ws.txn_db k gone; same_auth = refl; same_priv = refl })

  -- One step after another.
  then_Leaves :
      (xs ys : List (Bytes × Bytes)) (ws ws1 ws2 : WalletServer env)
      → Leaves env xs ws ws1
      → Leaves env ys ws1 ws2
      → Leaves env ys ws ws2
  then_Leaves xs ys ws ws1 ws2 a b = record {
    left = b.left;
    same_auth = b.same_auth ∙ a.same_auth;
    same_priv = b.same_priv ∙ a.same_priv;
  }

  delete_outputs-fresh :
      (os : List Output) (entries : List (Bytes × Bytes)) (ws ws' : WalletServer env)
      → Permᴰ (env.ldb.entries ws.txn_db) entries
      → AreFresh env os entries
      → delete_outputs env wallet os ws ≡ (returns tt, ws')
      → Leaves env entries ws ws'
  unfolding delete_outputs delete_one
  delete_outputs-fresh [] entries ws ws' d fresh e =
      subst (Leaves env entries ws) (ap (λ (q : Outcome (Unit {0}) × WalletServer env). q.1) e)
        (record { left = d; same_auth = refl; same_priv = refl })
  delete_outputs-fresh (o ∷ os) entries ws ws' d (fresh, rest) e =
      let k = output_hash env o in
      let (_, ws1, e1, r1) = Run.>>=-eq-returns (delete_one k) _ ws e in
      let a = delete_one-Leaves k ws ws1 e1 in
      let still : Permᴰ (without k (env.ldb.entries ws.txn_db)) entries =
        subst (Permᴰ (without k (env.ldb.entries ws.txn_db))) (without_fresh k entries fresh)
          (without-Perm k d) in
      then_Leaves (without k (env.ldb.entries ws.txn_db)) entries ws ws1 ws' a
        (delete_outputs-fresh os entries ws1 ws' (Permᴰ.trans a.left still) rest r1)

  delete_txns-fresh :
      (ts : List Txn) (entries : List (Bytes × Bytes)) (ws ws' : WalletServer env)
      → Permᴰ (env.ldb.entries ws.txn_db) entries
      → All (λ (t : Txn). AreFresh env t.body.outputs entries) ts
      → delete_txns env wallet ts ws ≡ (returns tt, ws')
      → Leaves env entries ws ws'
  unfolding delete_txns
  delete_txns-fresh [] entries ws ws' d fresh e =
      subst (Leaves env entries ws) (ap (λ (q : Outcome (Unit {0}) × WalletServer env). q.1) e)
        (record { left = d; same_auth = refl; same_priv = refl })
  delete_txns-fresh (t ∷ ts) entries ws ws' d (fresh, rest) e =
      let (_, ws1, e1, r1) = Run.>>=-eq-returns (delete_outputs env wallet t.body.outputs) _ ws e in
      let a = delete_outputs-fresh t.body.outputs entries ws ws1 d fresh e1 in
      then_Leaves entries entries ws ws1 ws' a (delete_txns-fresh ts entries ws1 ws' a.left rest r1)

  -- The one output of the first txn goes, and the others were not there.
  pub delete_txns-Leaves :
      (t : Txn) (ts : List Txn) (o : Output) (v : Bytes) (entries : List (Bytes × Bytes))
      (ws ws' : WalletServer env)
      → t.body.outputs ≡ o ∷ []
      → Permᴰ (env.ldb.entries ws.txn_db) ((output_hash env o, v) ∷ entries)
      → IsFresh (output_hash env o) entries
      → All (λ (u : Txn). AreFresh env u.body.outputs entries) ts
      → delete_txns env wallet (t ∷ ts) ws ≡ (returns tt, ws')
      → Leaves env entries ws ws'
  unfolding delete_txns delete_outputs delete_one
  delete_txns-Leaves t ts o v entries ws ws' single d fresh rest e =
      let k = output_hash env o in
      let (_, ws1, e1, r1) = Run.>>=-eq-returns (delete_outputs env wallet t.body.outputs) _ ws e in
      let only : delete_outputs env wallet (o ∷ []) ws ≡ (returns tt, ws1) =
        subst (λ os. delete_outputs env wallet os ws ≡ (returns tt, ws1)) single e1 in
      let (_, ws2, e2, r2) = Run.>>=-eq-returns (delete_one k) _ ws only in
      let same : ws2 ≡ ws1 = ap (λ (q : Outcome (Unit {0}) × WalletServer env). q.1) r2 in
      let a =
        subst (Leaves env (without k (env.ldb.entries ws.txn_db)) ws) same
          (delete_one-Leaves k ws ws2 e2) in
      let left : Permᴰ (env.ldb.entries ws1.txn_db) entries = Permᴰ.trans a.left (
        Permᴰ.trans (without-Perm k d) (
          subst (Permᴰ (without k ((k, v) ∷ entries)))
            (rw (bytes_eq_refl k) (without_fresh k entries fresh)) (Permᴰ.refl _))) in
      then_Leaves (without k (env.ldb.entries ws.txn_db)) entries ws ws1 ws' a
        (delete_txns-fresh ts entries ws1 ws' left rest r1)
