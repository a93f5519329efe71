-- ===== src/Start/Ready.antt =====
-- A wallet server that starts again on the files of an earlier one.
use ozcoin.Base.{◌≡◌, refl, sym, ap, ◌∙◌, subst, false, bytes_eq}
use ozcoin.Go.{ok, Outcome, returns, returns-injective, Result}
use ozcoin.Go.Run
use ozcoin.Go.Run.{reads}
use ozcoin.Types.{Bytes, Sha256Sum, zero_sum}
use ozcoin.Env.{Env}
use ozcoin.Env.Laws.{DbLaws, ShaLaws}
use ozcoin.Wallet.{
  WalletEnv, WalletServer, Secrets, authenticate_password, authenticate_token, refresh, read_all,
}
use ozcoin.Wallet
use ozcoin.Wallet.Handlers.{SignDraws}
use ozcoin.WalletClient.{Http, Messages, Session, open_wallet}
use ozcoin.WalletClient.Server.{Carries, TokenJson}
use ozcoin.WalletClient.Served.{open_wallet-opens}
use ozcoin.Start.{Machine, begin_serving, new_wallet_server}
use ozcoin.Start.Begun.{FilesLaws, Started, begin_serving-Started, left_by-returns}

module _ (env : Env) (wallet : WalletEnv) where
  authenticate_password-same :
      (ws ws' : WalletServer env) (password : Bytes)
      → ws'.auth_db ≡ ws.auth_db
      → authenticate_password env wallet ws' password ≡ authenticate_password env wallet ws password
  unfolding authenticate_password
  authenticate_password-same ws ws' password e =
      ap (λ d. authenticate_password env wallet (record ws { auth_db = d }) password) e

  authenticate_token-same :
      (ws ws' : WalletServer env) (cookie : Result Bytes)
      → ws'.auth_db ≡ ws.auth_db
      → authenticate_token env wallet cookie ws' ≡ authenticate_token env wallet cookie ws
  unfolding authenticate_token
  authenticate_token-same ws ws' cookie e =
      ap (λ d. authenticate_token env wallet cookie (record ws { auth_db = d })) e

  -- The databases and the client of the server are as they were.
  abbrev Kept : WalletServer env → WalletServer env → Type 0
  Kept ws ws' =
      (ws'.client ≡ ws.client)
      × (ws'.auth_db ≡ ws.auth_db)
      × (ws'.priv_db ≡ ws.priv_db)
      × (ws'.txn_db ≡ ws.txn_db)

  refresh-Kept :
      (ws ws' : WalletServer env) → refresh env wallet ws ≡ (returns tt, ws') → Kept ws ws'
  unfolding refresh
  refresh-Kept ws ws' e =
      let (privs, e1, r1) =
        Run.>>=-returned
          (reads
            (λ (k : WalletServer env). read_all wallet.read_private (env.ldb.entries k.priv_db)))
          _ ws e in
      let (outputs, e2, r2) =
        Run.>>=-returned
          (reads
            (λ (k : WalletServer env). read_all wallet.read_plaintext (env.ldb.entries k.txn_db)))
          _ (record ws { privs = privs }) r1 in
      subst (λ (q : Outcome (Unit {0}) × WalletServer env). Kept ws q.1) r2 (refl, refl, refl, refl)

  -- `Open` with a password that is known writes nothing, and returns the token that there is.
  open_wallet-known :
      (drawn : Secrets) (password : Bytes) (ws ws' : WalletServer env) (known token : Sha256Sum)
      → authenticate_password env wallet ws password ≡ returns known
      → bytes_eq known zero_sum ≡ false
      → Wallet.open_wallet env wallet drawn password ws ≡ (returns token, ws')
      → (token ≡ known) × Kept ws ws'
  unfolding Wallet.open_wallet
  open_wallet-known drawn password ws ws' known token has nonzero e =
      let refreshes : Wallet.open_wallet env wallet drawn password ws
          ≡ Run.◌>>=◌ (refresh env wallet) (λ _. Run.pure known) ws =
        rw (has, nonzero) refl in
      let (a, s, e1, r1) = Run.>>=-eq-returns (refresh env wallet) _ ws (sym refreshes ∙ e) in
      (
        sym (returns-injective (ap (λ (q : Outcome Sha256Sum × WalletServer env). q.0) r1)),
        subst (Kept ws) (ap (λ (q : Outcome Sha256Sum × WalletServer env). q.1) r1)
            (refresh-Kept ws s e1),
      )

module _ (env : Env) (machine : Machine env) (files : FilesLaws env machine) (wallet : WalletEnv)
    (msgs : Messages) (drawn : Secrets) (d : SignDraws) (http : Http (WalletServer env))
    (carries : Carries env wallet msgs drawn d http) where
  -- With a database that gives back what was written, SHA-256 sums of 32 bytes, JSON that is read
  -- back, files that keep their databases, and a connection that carries the answers: let the wallet's
  -- three files hold the databases of an earlier server, which knew the password, with a token that is
  -- not zero. Once `NewWalletServer` has returned with that password, it has that token and those
  -- databases, and it treats every cookie as the earlier server did. Its own client is an SPV client
  -- that informs its wallet and has forgotten its last header; each of its databases is that of its
  -- file, with the miner as a peer more.
  pub new_wallet_server-restarts :
      (db : DbLaws env.ldb) (sha : ShaLaws env) (json : TokenJson env wallet msgs drawn)
      (mining_address svp_address wallet_address password text : Bytes) (f f' : machine.Files)
      (earlier : WalletServer env) (token : Sha256Sum) (s : Session (WalletServer env))
      (cookie : Result Bytes)
      → msgs.password_json password ≡ ok text
      → msgs.read_password text ≡ ok password
      → files.content f "db/wallet-auth.db" ≡ earlier.auth_db
      → files.content f "db/wallet-priv.db" ≡ earlier.priv_db
      → files.content f "db/wallet-txn.db" ≡ earlier.txn_db
      → authenticate_password env wallet earlier password ≡ returns token
      → bytes_eq token zero_sum ≡ false
      → new_wallet_server env machine wallet msgs http mining_address svp_address wallet_address
          password f
        ≡ (returns s, f')
      → (s.client.wallet_token ≡ token)
        × (s.server.auth_db ≡ earlier.auth_db)
        × (s.server.priv_db ≡ earlier.priv_db)
        × (s.server.txn_db ≡ earlier.txn_db)
        × (authenticate_token env wallet cookie s.server
            ≡ authenticate_token env wallet cookie earlier)
        × Started env machine files f mining_address svp_address s.server.client
  unfolding new_wallet_server
  new_wallet_server-restarts db sha json mining_address svp_address wallet_address password text f
        f' earlier token s cookie written read_it auth priv txn has nonzero e =
      let (start, f1, e1, r1) =
        Run.>>=-eq-returns (begin_serving env machine mining_address svp_address wallet_address) _ f
          e in
      let (_, called) =
        left_by-returns (open_wallet env wallet http msgs password) start s
          (ap (λ (q : Outcome (Session (WalletServer env)) × machine.Files). q.0) r1) in
      let opens =
        open_wallet-opens env wallet msgs drawn d http carries db sha json password text start s
          written read_it called in
      let (begun, auth1, priv1, txn1) =
        begin_serving-Started env machine files db mining_address svp_address wallet_address f f1
          start e1 in
      let knows =
        authenticate_password-same env wallet earlier start.server password (auth1 ∙ auth) ∙ has in
      let (same, (client, auth2, priv2, txn2)) =
        open_wallet-known env wallet drawn password start.server s.server token
          s.client.wallet_token knows nonzero opens in
      (
        same,
        auth2 ∙ auth1 ∙ auth,
        priv2 ∙ priv1 ∙ priv,
        txn2 ∙ txn1 ∙ txn,
        authenticate_token-same env wallet earlier s.server cookie (auth2 ∙ auth1 ∙ auth),
        subst (Started env machine files f mining_address svp_address) (sym client) begun,
      )
