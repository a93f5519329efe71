-- ===== src/WalletClient/Served.antt =====
-- wallet-client.go at the server of wallet-server.go.
use ozcoin.Base.{
  bytes_eq, if◌then◌else◌, Option, none, some, ◌≡◌, String, length, ◌++◌, sym, ap, ◌∙◌, subst, refl,
  Bool, true, false, Among, inl,
}
use ozcoin.Go.{
  Result, ok, err, Outcome, returns, fails, panics, diverges, of_result, returns-injective,
}
use ozcoin.Go.Run.{Action, ◌>>=◌, pure, of_error, caught, reads}
use ozcoin.Go.Run
use ozcoin.Types.{Bytes, Sha256Sum, zero_sum}
use ozcoin.Env.{Env}
use ozcoin.Env.Laws.{DbLaws, ShaLaws}
use ozcoin.Wallet.{
  WalletEnv, WalletServer, Secrets, Reply, authenticate_password, authenticate_token, http_error,
  token_reply, balance_reply, keys_reply, txn_reply, accepted,
}
use ozcoin.Wallet.Handlers.{SignDraws, handle_open}
use ozcoin.Wallet
use ozcoin.Wallet.Opened.{length-opened, opened_authenticates}
use ozcoin.WalletClient.Server.{cookie_of, route, serve, routes, Carries, TokenJson}
use ozcoin.WalletClient.{
  HttpResponse, Http, Messages, Session, post, post_request, do_request, open_wallet, marshal_token,
  scheme, open_url,
}

pub of_result-eq-returns : {A : Type 0} (r : Result A) (a : A) → of_result r ≡ returns a → r ≡ ok a
of_result-eq-returns (ok b) a e = ap ok (returns-injective e)
of_result-eq-returns (err x) a e = cc

pub ok-injective : {A : Type 0} {a b : A} → ok a ≡ ok b → a ≡ b
ok-injective {A} {a} {b} e = cc

pub body_of :
    {S : Type 0} {made resp : HttpResponse} {s t : S}
    → ◌≡◌ {A = Outcome HttpResponse × S} (returns made, s) (returns resp, t)
    → made.body ≡ resp.body
body_of {S} e =
    ap (λ (r : HttpResponse). r.body)
      (returns-injective (ap (λ (q : Outcome HttpResponse × S). q.0) e))

caught-eq-ok :
    {S A : Type 0} (m : Action S A) (s : S) {a : A} {t : S}
    → caught m s ≡ (returns (ok a), t)
    → m s ≡ (returns a, t)
caught-eq-ok {S} {A} m s {a} {t} e = go (m s) refl e
  where
    go :
        (q : Outcome A × S)
        → m s ≡ q
        → caught (λ _. q) s ≡ (returns (ok a), t)
        → m s ≡ (returns a, t)
    go (returns b, u) known p = cc
    go (fails x, u) known p = cc
    go (panics, u) known p = cc
    go (diverges, u) known p = cc

caught-eq-err :
    {S A : Type 0} (m : Action S A) (s : S) {x : String} {t : S}
    → caught m s ≡ (returns (err x), t)
    → m s ≡ (fails x, t)
caught-eq-err {S} {A} m s {x} {t} e = go (m s) refl e
  where
    go :
        (q : Outcome A × S)
        → m s ≡ q
        → caught (λ _. q) s ≡ (returns (err x), t)
        → m s ≡ (fails x, t)
    go (returns b, u) known p = cc
    go (fails y, u) known p = cc
    go (panics, u) known p = cc
    go (diverges, u) known p = cc

pub past_result :
    {S A B : Type 0} (r : Result A) (s : S) (f : A → Action S B) {b : B} {t : S}
    → Run.and_then (of_result r) s f ≡ (returns b, t)
    → (a : A) × (r ≡ ok a) × (f a s ≡ (returns b, t))
past_result (ok a) s f e = (a, refl, e)
past_result (err x) s f e = cc

past_error :
    {S B : Type 0} (x : Option String) (s : S) (f : Unit {0} → Action S B) {b : B} {t : S}
    → Run.and_then (of_error x) s f ≡ (returns b, t)
    → f tt s ≡ (returns b, t)
past_error none s f e = e
past_error (some x) s f e = cc

module _ (env : Env) (wallet : WalletEnv) (msgs : Messages) (drawn : Secrets) (d : SignDraws)
    (http : Http (WalletServer env)) (carries : Carries env wallet msgs drawn d http) where
  -- An answer that arrived: the server handled the request, and sent this.
  do_request_served :
      (relative_url : Bytes) (payload : Option Bytes) (s s' : Session (WalletServer env))
      (resp : HttpResponse)
      → Among relative_url routes
      → do_request env wallet http msgs (post_request wallet s.client relative_url payload) s
        ≡ (returns resp, s')
      → (serve env wallet msgs drawn d (post_request wallet s.client relative_url payload) s.server
          ≡ (returns resp, s'.server))
        × (s'.client ≡ s.client)
  unfolding do_request
  do_request_served relative_url payload s s' resp known e =
      let req = post_request wallet s.client relative_url payload in
      let came : (http.send req s.server).0 ≡ ok resp =
        of_result-eq-returns (http.send req s.server).0 resp
          (ap (λ (q : Outcome HttpResponse × Session (WalletServer env)). q.0) e) in
      let left : (http.send req s.server).1 ≡ s'.server =
        ap (λ (q : Outcome HttpResponse × Session (WalletServer env)). q.1.server) e in
      let kept : s.client ≡ s'.client =
        ap (λ (q : Outcome HttpResponse × Session (WalletServer env)). q.1.client) e in
      (
        carries.answers s.client relative_url payload s.server resp known came ∙ λ i.
            (returns resp, left i),
        sym kept,
      )

  -- The body of the reply is what `POST` returns.
  pub post_served :
      (relative_url : Bytes) (payload : Option Bytes) (s s' : Session (WalletServer env))
      (bytes : Bytes)
      → Among relative_url routes
      → post env wallet http msgs relative_url payload s ≡ (returns bytes, s')
      → (reply : Reply) × (route env wallet msgs drawn d
            (post_request wallet s.client relative_url payload)
            s.server
          ≡ (returns reply, s'.server))
        × (msgs.reply_body reply ≡ bytes)
        × (s'.client ≡ s.client)
  unfolding post serve
  post_served relative_url payload s s' bytes known e =
      let req = post_request wallet s.client relative_url payload in
      let (resp, s2, e2, r2) =
        Run.>>=-eq-returns (do_request env wallet http msgs req) _ s
          (past_error (http.new_request (scheme ++ s.client.address ++ relative_url)) s _ e) in
      let (served, kept) = do_request_served relative_url payload s s2 resp known e2 in
      let (reply, ws, e3, r3) =
        Run.>>=-eq-returns (route env wallet msgs drawn d req) _ s.server served in
      let same : s2 ≡ s' = ap (λ (q : Outcome Bytes × Session (WalletServer env)). q.1) r2 in
      let body : ok (msgs.reply_body reply) ≡ ok bytes =
        body_of r3
        ∙ of_result-eq-returns resp.body bytes
            (ap (λ (q : Outcome Bytes × Session (WalletServer env)). q.0) r2) in
      let left : ws ≡ s'.server =
        ap (λ (q : Outcome HttpResponse × WalletServer env). q.1) r3 ∙ ap (λ t. t.server) same in
      (
        reply,
        subst (λ w. route env wallet msgs drawn d req s.server ≡ (returns reply, w)) left e3,
        ok-injective body,
        ap (λ t. t.client) (sym same) ∙ kept,
      )

  -- What follows the server's `Open`.
  handle_open-token :
      (db : DbLaws env.ldb) (sha : ShaLaws env) (json : TokenJson env wallet msgs drawn)
      (password : Bytes) (ws ws' : WalletServer env) (reply : Reply) (token : Sha256Sum)
      → handle_open env wallet drawn (ok password) ws ≡ (returns reply, ws')
      → msgs.read_token (msgs.reply_body reply) ≡ ok token
      → Wallet.open_wallet env wallet drawn password ws ≡ (returns token, ws')
  unfolding handle_open
  handle_open-token db sha json password ws ws' reply token e decoded =
      let (opened, ws1, e1, r1) =
        Run.>>=-eq-returns (caught (Wallet.open_wallet env wallet drawn password)) _ ws e in
      go opened ws1 e1 r1
    where
      keeps :
          (b : Bool) (t : Sha256Sum) (ws1 : WalletServer env)
          → Wallet.open_wallet env wallet drawn password ws ≡ (returns t, ws1)
          → (if b then Run.panic {A = Reply} else pure {S = WalletServer env} (token_reply t)) ws1
            ≡ (returns reply, ws')
          → Wallet.open_wallet env wallet drawn password ws ≡ (returns token, ws')
      keeps true t ws1 opens r = cc
      keeps false t ws1 opens r =
          let replied : token_reply t ≡ reply =
            returns-injective (ap (λ (q : Outcome Reply × WalletServer env). q.0) r) in
          let left : ws1 ≡ ws' = ap (λ (q : Outcome Reply × WalletServer env). q.1) r in
          let same : t ≡ token = ok-injective (
            sym (json.read_back t (length-opened env wallet db sha drawn password ws ws1 t opens))
            ∙ ap (λ q. msgs.read_token (msgs.reply_body q)) replied
            ∙ decoded) in
          opens ∙ λ i. (returns (same i), left i)

      go :
          (opened : Result Sha256Sum) (ws1 : WalletServer env)
          → caught (Wallet.open_wallet env wallet drawn password) ws ≡ (returns opened, ws1)
          → (elim opened as (λ _. Action (WalletServer env) Reply) [
            | err x ↦ pure (http_error 500 x)
            | ok t ↦ if bytes_eq t zero_sum then Run.panic else pure (token_reply t)
          ])
              ws1
            ≡ (returns reply, ws')
          → Wallet.open_wallet env wallet drawn password ws ≡ (returns token, ws')
      go (err x) ws1 opens r = absurd (
          json.no_token password ws ws1 x token
            (caught-eq-err (Wallet.open_wallet env wallet drawn password) ws opens)
            (ap (λ q. msgs.read_token (msgs.reply_body q))
                (returns-injective (ap (λ (q : Outcome Reply × WalletServer env). q.0) r))
              ∙ decoded))
      go (ok t) ws1 opens r =
          keeps (bytes_eq t zero_sum) t ws1
            (caught-eq-ok (Wallet.open_wallet env wallet drawn password) ws opens) r

  -- The server's `Open` has returned the token that the client then has.
  pub open_wallet-opens :
      (db : DbLaws env.ldb) (sha : ShaLaws env) (json : TokenJson env wallet msgs drawn)
      (password text : Bytes) (s s' : Session (WalletServer env))
      → msgs.password_json password ≡ ok text
      → msgs.read_password text ≡ ok password
      → open_wallet env wallet http msgs password s ≡ (returns tt, s')
      → Wallet.open_wallet env wallet drawn password s.server
        ≡ (returns s'.client.wallet_token, s'.server)
  unfolding open_wallet post_request route bytes_eq
  open_wallet-opens db sha json password text s s' written read_it e =
      let (given, g, r0) = past_result (msgs.password_json password) s _ e in
      let (bytes, s1, e1, r1) =
        Run.>>=-eq-returns (post env wallet http msgs open_url (some given)) _ s r0 in
      let (token, decoded, r2) = past_result (msgs.read_token bytes) s1 _ r1 in
      let (reply, served, body, _) = post_served open_url (some given) s s1 bytes (inl refl) e1 in
      let read : msgs.read_password given ≡ ok password =
        ap msgs.read_password (ok-injective (sym g ∙ written)) ∙ read_it in
      let asks : handle_open env wallet drawn (ok password) s.server ≡ (returns reply, s1.server) =
        subst (λ m. handle_open env wallet drawn m s.server ≡ (returns reply, s1.server)) read
          served in
      let opens =
        handle_open-token db sha json password s.server s1.server reply token asks
          (ap msgs.read_token body ∙ decoded) in
      subst
        (λ (t : Session (WalletServer env)).
          Wallet.open_wallet env wallet drawn password s.server
          ≡ (returns t.client.wallet_token, t.server))
        (ap (λ (q : Outcome (Unit {0}) × Session (WalletServer env)). q.1) r2) opens

  -- With a database that gives back what was written, SHA-256 sums of 32 bytes, base64 and JSON that
  -- are read back, and a connection that carries the answers: once `WalletClient.OpenWallet` has
  -- returned without an error, the server and the client are in a state in which the server knows the
  -- password, with the client's token, and accepts the cookie of any request that the client makes
  -- in it, but one for /open.
  pub open_wallet-accepted :
      (db : DbLaws env.ldb) (sha : ShaLaws env) (json : TokenJson env wallet msgs drawn)
      (password text : Bytes) (s s' : Session (WalletServer env)) (relative_url : Bytes)
      (payload : Option Bytes)
      → ((token : Bytes) → length token ≡ 32 → wallet.from_base64 (wallet.base64 token) ≡ ok token)
      → msgs.password_json password ≡ ok text
      → msgs.read_password text ≡ ok password
      → bytes_eq relative_url open_url ≡ false
      → open_wallet env wallet http msgs password s ≡ (returns tt, s')
      → (authenticate_password env wallet s'.server password ≡ returns s'.client.wallet_token)
        × (authenticate_token env wallet
              (cookie_of (post_request wallet s'.client relative_url payload))
              s'.server
            ≡ returns none)
  unfolding post_request marshal_token
  open_wallet-accepted db sha json password text s s' relative_url payload base written read_it
        other e =
      let token = s'.client.wallet_token in
      let opens = open_wallet-opens db sha json password text s s' written read_it e in
      let len = length-opened env wallet db sha drawn password s.server s'.server token opens in
      let (known, accepts) =
        opened_authenticates env wallet db sha drawn password (wallet.base64 token) s.server
          s'.server token opens (base token len) in
      (known, rw other accepts)
