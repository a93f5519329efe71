-- ===== src/WalletClient/Server.antt =====
-- wallet-server.go: the routes, and what the server sends back to wallet-client.go.
use ozcoin.Base.{
  ℕ, bytes_eq, if◌then◌else◌, none, some, Option, ◌≡◌, ◌≢◌, String, length, List, [], ◌∷◌, Among,
}
use ozcoin.Go.{Result, ok, err, returns, fails}
use ozcoin.Go.Run.{Action, ◌>>=◌, pure}
use ozcoin.Types.{Bytes, Sha256Sum, WalletTrackingKey}
use ozcoin.Env.{Env}
use ozcoin.Store.{slice}
use ozcoin.Wallet.{
  WalletEnv, WalletServer, Secrets, Reply, http_error, token_reply, balance_reply, keys_reply,
  txn_reply, accepted, open_wallet,
}
use ozcoin.Wallet.Handlers.{
  SignDraws, handle_open, handle_tracking, handle, balance, tracking, sign, new_block, delete_block,
}
use ozcoin.WalletClient.{
  HttpRequest, HttpResponse, Http, Messages, WalletClient, post_request, open_url, tracking_url,
  balance_url, sign_url, new_block_url, delete_block_url,
}

-- `r.Cookie("X-Wallet-Token")`
abbrev pub cookie_of : HttpRequest → Result Bytes
cookie_of req = elim req.cookie [
  | none ↦ err "http: named cookie not present"
  | some value ↦ ok value
]

-- The paths that `NewWalletServer` registers.
abbrev pub routes : List Bytes
routes = open_url ∷ tracking_url ∷ balance_url ∷ sign_url ∷ new_block_url ∷ delete_block_url ∷ []

-- `http.StatusAccepted`, which the handlers of blocks write.
abbrev pub status_accepted : ℕ
status_accepted = 202

-- The status of a reply: that of `http.Error`, or 200 with what `jsonWrite` writes.
unfoldable pub status_of : Reply → ℕ
status_of (http_error code x) = code
status_of (token_reply t) = 200
status_of (balance_reply b os) = 200
status_of (keys_reply ks) = 200
status_of (txn_reply t) = 200
status_of accepted = status_accepted

module _ (env : Env) (wallet : WalletEnv) (msgs : Messages) (drawn : Secrets) (d : SignDraws) where
  -- The handler of a path, as `NewWalletServer` registers them.
  unfoldable pub route : HttpRequest → Action (WalletServer env) Reply
  unfolding handle_open handle
  route req =
      if bytes_eq req.path open_url
      then handle_open env wallet drawn (msgs.read_password (slice req.body))
      else if bytes_eq req.path tracking_url
      then handle env wallet tracking (cookie_of req)
      else if bytes_eq req.path balance_url
      then handle env wallet balance (cookie_of req)
      else if bytes_eq req.path sign_url
      then handle env wallet (sign d (msgs.read_sign (slice req.body))) (cookie_of req)
      else if bytes_eq req.path new_block_url
      then handle env wallet (new_block (msgs.read_block (slice req.body))) (cookie_of req)
      else if bytes_eq req.path delete_block_url
      then handle env wallet (delete_block (msgs.read_block (slice req.body))) (cookie_of req)
      else pure (http_error 404 "404 page not found")

  -- What the server sends back: the status and the body of the handler's reply.
  unfoldable pub serve : HttpRequest → Action (WalletServer env) HttpResponse
  unfolding route status_of
  serve req = do
    reply ← route req
    pure (record { status = status_of reply; body = ok (msgs.reply_body reply) })

  -- A connection to the server. A response that arrives, to a request that `POST` makes for one of the
  -- routes, is what the server sends back, and the server has handled the request; none may arrive.
  pub record Carries (http : Http (WalletServer env)) : Type 0 where
    pub answers :
        (wc : WalletClient) (relative_url : Bytes) (payload : Option Bytes) (ws : WalletServer env)
        (resp : HttpResponse)
        → Among relative_url routes
        → (http.send (post_request wallet wc relative_url payload) ws).0 ≡ ok resp
        → serve (post_request wallet wc relative_url payload) ws
          ≡ (returns resp, (http.send (post_request wallet wc relative_url payload) ws).1)

-- The JSON of a token is read back, and the text of an error of `Open` is not that of a token.
pub record TokenJson (env : Env) (wallet : WalletEnv) (msgs : Messages) (drawn : Secrets)
    : Type 0 where
  pub read_back :
      (t : Sha256Sum) → length t ≡ 32 → msgs.read_token (msgs.reply_body (token_reply t)) ≡ ok t
  pub no_token :
      (password : Bytes) (ws ws' : WalletServer env) (x : String) (t : Sha256Sum)
      → open_wallet env wallet drawn password ws ≡ (fails x, ws')
      → msgs.read_token (msgs.reply_body (http_error 500 x)) ≢ ok t

-- The same of the tracking keys: the text of an error that `handleTracking` answers with is not that
-- of a list of keys.
pub record KeysJson (env : Env) (wallet : WalletEnv) (msgs : Messages) : Type 0 where
  pub read_back :
      (ks : List WalletTrackingKey) → msgs.read_keys (msgs.reply_body (keys_reply ks)) ≡ ok ks
  pub no_keys :
      (cookie : Result Bytes) (ws ws' : WalletServer env) (code : ℕ) (x : String)
      (ks : List WalletTrackingKey)
      → handle_tracking env wallet cookie ws ≡ (returns (http_error code x), ws')
      → msgs.read_keys (msgs.reply_body (http_error code x)) ≢ ok ks
