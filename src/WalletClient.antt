-- ===== src/WalletClient.antt =====
-- wallet-client.go: the requests of a client to its wallet server. net/http and the JSON of the
-- messages are parameters.
pub mod Server
pub mod Served
pub mod Refused
use ozcoin.Base.{
  ℕ, String, not, Option, none, some, List, [], ◌∷◌, ◌++◌, bytes_eq, if◌then◌else◌, Bool, true,
  false,
}
use ozcoin.Go.{Result, ok, err, Outcome, returns, of_result}
use ozcoin.Go.Run.{Action, ◌>>=◌, ◌>>◌, pure, reads, modify, of_error}
use ozcoin.Types.{Bytes, Sha256Sum, Block, Txn, WalletPublicKey, WalletTrackingKey}
use ozcoin.Env.{Env}
use ozcoin.Payment.{OutputPlaintext}
use ozcoin.Wallet.{WalletEnv, Reply}
use ozcoin.Wallet.Handlers.{SignMsg}

-- "http://" and the routes
abbrev pub scheme : Bytes
scheme = 104 ∷ 116 ∷ 116 ∷ 112 ∷ 58 ∷ 47 ∷ 47 ∷ []

abbrev pub open_url : Bytes
open_url = 47 ∷ 111 ∷ 112 ∷ 101 ∷ 110 ∷ []

abbrev pub tracking_url : Bytes
tracking_url = 47 ∷ 116 ∷ 114 ∷ 97 ∷ 99 ∷ 107 ∷ 105 ∷ 110 ∷ 103 ∷ []

abbrev pub balance_url : Bytes
balance_url = 47 ∷ 98 ∷ 97 ∷ 108 ∷ 97 ∷ 110 ∷ 99 ∷ 101 ∷ []

abbrev pub sign_url : Bytes
sign_url = 47 ∷ 115 ∷ 105 ∷ 103 ∷ 110 ∷ []

abbrev pub new_block_url : Bytes
new_block_url = 47 ∷ 110 ∷ 101 ∷ 119 ∷ 45 ∷ 98 ∷ 108 ∷ 111 ∷ 99 ∷ 107 ∷ []

abbrev pub delete_block_url : Bytes
delete_block_url = 47 ∷ 100 ∷ 101 ∷ 108 ∷ 101 ∷ 116 ∷ 101 ∷ 45 ∷ 98 ∷ 108 ∷ 111 ∷ 99 ∷ 107 ∷ []

-- A request: `cookie` is the value of X-Wallet-Token, `json` whether the content type is set.
pub record HttpRequest : Type 0 where
  pub address : Bytes
  pub path : Bytes
  pub cookie : Option Bytes
  pub json : Bool
  pub body : Option Bytes

-- A response: its status, and what reading its body comes to.
pub record HttpResponse : Type 0 where
  pub status : ℕ
  pub body : Result Bytes

-- net/http. `new_request` is the error of a URL that does not parse. `send` is given the state
-- of the server.
pub record Http (Server : Type 0) : Type 0 where
  pub new_request : Bytes → Option String
  pub send : HttpRequest → Server → Result HttpResponse × Server

-- The JSON of the messages, and the body that the server writes with a reply.
pub record Messages : Type 0 where
  pub password_json : Bytes → Result Bytes
  pub read_password : Bytes → Result Bytes
  pub sign_json : SignMsg → Result Bytes
  pub read_sign : Bytes → Result SignMsg
  pub read_block : Bytes → Result Block
  pub reply_body : Reply → Bytes
  pub read_token : Bytes → Result Sha256Sum
  pub read_keys : Bytes → Result (List WalletTrackingKey)
  pub read_txn : Bytes → Result Txn
  pub read_balance : Bytes → Result (ℕ × List OutputPlaintext)

pub record WalletClient : Type 0 where
  pub address : Bytes
  pub wallet_token : Sha256Sum
  pub keys : List WalletTrackingKey
  pub outputs : List OutputPlaintext

-- A client and the server that it calls.
pub record Session (Server : Type 0) : Type 0 where
  pub client : WalletClient
  pub server : Server

-- `WalletClient.MarshalToken`
unfoldable pub marshal_token : WalletEnv → WalletClient → Bytes
marshal_token wallet wc = wallet.base64 wc.wallet_token

-- The request of `POST`: all but the first carry the token.
unfoldable pub post_request : WalletEnv → WalletClient → Bytes → Option Bytes → HttpRequest
unfolding marshal_token
post_request wallet wc relative_url payload = record {
  address = wc.address;
  path = relative_url;
  cookie = if not (bytes_eq relative_url open_url) then some (marshal_token wallet wc) else none;
  json = elim payload [ none ↦ false | some _ ↦ true ];
  body = payload;
}

module _ (env : Env) (wallet : WalletEnv) {Server : Type 0} (http : Http Server)
    (msgs : Messages) where
  -- `client.Do`
  unfoldable pub do_request : HttpRequest → Action (Session Server) HttpResponse
  do_request req s =
      let (resp, server) = http.send req s.server in (of_result resp, record s { server = server })

  -- `WalletClient.POST`
  unfoldable pub post : Bytes → Option Bytes → Action (Session Server) Bytes
  unfolding post_request do_request
  post relative_url payload = do
    wc ← reads λ s. returns s.client
    reads λ s. of_error (http.new_request (scheme ++ wc.address ++ relative_url))
    resp ← do_request (post_request wallet wc relative_url payload)
    reads λ s. of_result resp.body

  -- `WalletClient.OpenWallet`
  unfoldable pub open_wallet : Bytes → Action (Session Server) (Unit {0})
  unfolding post
  open_wallet password = do
    serialized_password ← reads λ s. of_result (msgs.password_json password)
    bytes ← post open_url (some serialized_password)
    token ← reads λ s. of_result (msgs.read_token bytes)
    modify λ s. record s { client = record s.client { wallet_token = token } }

  -- `WalletClient.TrackingKeys`
  unfoldable pub tracking_keys : Action (Session Server) (List WalletTrackingKey)
  unfolding post
  tracking_keys = do bytes ← post tracking_url none; reads λ s. of_result (msgs.read_keys bytes)

  -- `WalletClient.NewBlock`
  unfoldable pub new_block : Block → Action (Session Server) (Unit {0})
  unfolding post
  new_block b = do post new_block_url (some (env.block_json.encode b)); pure tt

  -- `WalletClient.DeleteBlock`
  unfoldable pub delete_block : Block → Action (Session Server) (Unit {0})
  unfolding post
  delete_block b = do post delete_block_url (some (env.block_json.encode b)); pure tt

  -- `WalletClient.SignTxn`
  unfoldable pub sign_txn : WalletPublicKey → ℕ → ℕ → Action (Session Server) Txn
  unfolding post
  sign_txn addr amt fee = do
    b ← reads λ s. of_result (msgs.sign_json (record { address = addr; amount = amt; fee = fee }))
    bytes ← post sign_url (some b)
    reads λ s. of_result (msgs.read_txn bytes)

  -- `WalletClient.Balance`
  unfoldable pub balance : Action (Session Server) (ℕ × List OutputPlaintext)
  unfolding post
  balance = do bytes ← post balance_url none; reads λ s. of_result (msgs.read_balance bytes)
