-- ===== src/Wallet/Balance.antt =====
-- The balance that the server reports, and the requests that it accepts.
use ozcoin.Base.{ℕ, ◌%◌, ◌≡◌, refl, sym, ap, ◌∙◌, arith, none, List, map}
use native.Mathlib.Nat.{zero-add}
use mathlib.Core.List.Permᴰ
use ozcoin.Go.{Result, ok, err, Outcome, returns, fails, panics, diverges}
use ozcoin.Go.Run
use ozcoin.Go.Run.{Action, reads, caught}
use ozcoin.Types.{Bytes, WalletPrivateKey, u64_mod}
use ozcoin.Env.{Env}
use ozcoin.Payment.{OutputPlaintext}
use ozcoin.Wallet.{
  WalletEnv, WalletServer, Reply, balance_reply, accepted, http_error, read_all, refresh,
  authenticate_token,
}
use ozcoin.Wallet.Handlers.{authenticated, after_check, handle_balance, total_of, light_output}
use ozcoin.Wallet.Saving.Taken.{Leaves}
use ozcoin.Wallet.Ledger.{IsReadable, worth, IsReadable-Perm, total_of-worth}

module _ (env : Env) (wallet : WalletEnv) where
  -- A server that answers a request: the cookie is accepted, its keys are these, and its entries
  -- can be read.
  pub record Answers (cookie : Result Bytes) (privs : List WalletPrivateKey) (ws : WalletServer env)
      : Type 0 where
    pub has_token : authenticate_token env wallet cookie ws ≡ returns none
    pub has_keys : read_all wallet.read_private (env.ldb.entries ws.priv_db) ≡ returns privs
    pub readable : IsReadable wallet.read_plaintext (env.ldb.entries ws.txn_db)

  -- The balance that the server reports.
  abbrev pub Reports : Result Bytes → ℕ → WalletServer env → Type 0
  Reports cookie n ws =
      (os : List OutputPlaintext) × ((handle_balance env wallet cookie ws).0
        ≡ returns (balance_reply n os))

  refresh_reads :
      (ws : WalletServer env) (privs : List WalletPrivateKey) (os : List OutputPlaintext)
      → read_all wallet.read_private (env.ldb.entries ws.priv_db) ≡ returns privs
      → read_all wallet.read_plaintext (env.ldb.entries ws.txn_db) ≡ returns os
      → refresh env wallet ws ≡ (returns tt, record ws { privs = privs; outputs = os })
  unfolding refresh
  refresh_reads ws privs os p o = rw (p, o) refl

  authenticated_runs :
      (cookie : Result Bytes) (rest : Action (WalletServer env) Reply) (ws ws' : WalletServer env)
      → authenticate_token env wallet cookie ws ≡ returns none
      → refresh env wallet ws ≡ (returns tt, ws')
      → authenticated env wallet cookie rest ws ≡ rest ws'
  unfolding authenticated after_check
  authenticated_runs cookie rest ws ws' token e =
      Run.>>=-of_returns
        (reads {S = WalletServer env} λ ws. authenticate_token env wallet cookie ws)
        (after_check env wallet rest) ws (λ i. (token i, ws))
      ∙ Run.>>=-of_returns (caught (refresh env wallet)) _ ws
          (ap (λ (q : Outcome (Unit {0}) × WalletServer env). caught (λ _. q) ws) e)

  pub balance_worth :
      (cookie : Result Bytes) (privs : List WalletPrivateKey) (ws : WalletServer env)
      → Answers cookie privs ws
      → Reports cookie (worth wallet.read_plaintext (env.ldb.entries ws.txn_db) % u64_mod) ws
  unfolding handle_balance
  balance_worth cookie privs ws a =
      let (os, listed, sum) =
        total_of-worth wallet.read_plaintext (env.ldb.entries ws.txn_db) 0 (omega arith)
          a.readable in
      let run =
        authenticated_runs cookie
          (reads
            λ ws. returns (balance_reply (total_of 0 ws.outputs) (map light_output ws.outputs)))
          ws (record ws { privs = privs; outputs = os }) a.has_token
          (refresh_reads ws privs os a.has_keys listed) in
      (
        map light_output os,
        ap (λ (q : Outcome Reply × WalletServer env). q.0) run
            ∙ ap (λ n. returns (balance_reply n (map light_output os)))
                (sum
                  ∙ ap (λ n. n % u64_mod)
                      (zero-add (worth wallet.read_plaintext (env.ldb.entries ws.txn_db)))),
      )

  -- A handler ends with a call whose error it answers: the answer of success says that it returned.
  accepted-returns :
      (m : Action (WalletServer env) (Unit {0})) (ws ws' : WalletServer env)
      → (Run.◌>>=◌
            (caught m)
            λ done. elim done [ err x ↦ Run.pure (http_error 500 x) | ok _ ↦ Run.pure accepted ])
          ws
        ≡ (returns accepted, ws')
      → m ws ≡ (returns tt, ws')
  accepted-returns m ws ws' e = go (m ws) refl e
    where
      go :
          (q : Outcome (Unit {0}) × WalletServer env)
          → m ws ≡ q
          → (Run.◌>>=◌ (caught (λ _. q)) λ done. elim done [
            | err x ↦ Run.pure (http_error 500 x)
            | ok _ ↦ Run.pure accepted
          ])
              ws
            ≡ (returns accepted, ws')
          → m ws ≡ (returns tt, ws')
      go (returns _, w) p r = p ∙ ap (λ (u : Outcome Reply × WalletServer env). (returns tt, u.1)) r
      go (fails x, w) p r = cc
      go (panics, w) p r = cc
      go (diverges, w) p r = cc

  token_of_auth :
      (cookie : Result Bytes) (ws ws' : WalletServer env)
      → ws'.auth_db ≡ ws.auth_db
      → authenticate_token env wallet cookie ws' ≡ authenticate_token env wallet cookie ws
  unfolding authenticate_token
  token_of_auth cookie ws ws' e =
      ap (λ d. authenticate_token env wallet cookie (record ws { auth_db = d })) e

  pub Answers-Leaves :
      (cookie : Result Bytes) (privs : List WalletPrivateKey) (entries : List (Bytes × Bytes))
      (ws ws' : WalletServer env)
      → Answers cookie privs ws
      → IsReadable wallet.read_plaintext entries
      → Leaves env entries ws ws'
      → Answers cookie privs ws'
  Answers-Leaves cookie privs entries ws ws' a readable l = record {
    has_token = token_of_auth cookie ws ws' l.same_auth ∙ a.has_token;
    has_keys = ap (λ d. read_all wallet.read_private (env.ldb.entries d)) l.same_priv ∙ a.has_keys;
    readable = IsReadable-Perm wallet.read_plaintext (Permᴰ.symm l.left) readable;
  }

  -- A handler that is let in runs on the refreshed server.
  pub handler_runs :
      (cookie : Result Bytes) (privs : List WalletPrivateKey)
      (m : Action (WalletServer env) (Unit {0})) (ws ws' : WalletServer env)
      → Answers cookie privs ws
      → authenticated env wallet cookie
          (Run.◌>>=◌
            (caught m)
            λ done. elim done [ err x ↦ Run.pure (http_error 500 x) | ok _ ↦ Run.pure accepted ])
          ws
        ≡ (returns accepted, ws')
      → (os : List OutputPlaintext) × (m (record ws { privs = privs; outputs = os })
          ≡ (returns tt, ws'))
  handler_runs cookie privs m ws ws' a e =
      let (os, listed, _) =
        total_of-worth wallet.read_plaintext (env.ldb.entries ws.txn_db) 0 (omega arith)
          a.readable in
      let r = record ws { privs = privs; outputs = os } in
      (
        os,
        accepted-returns m r ws' (
            sym (
              authenticated_runs cookie _ ws r a.has_token
                (refresh_reads ws privs os a.has_keys listed))
            ∙ e),
      )
