-- ===== src/Wallet/Handlers.antt =====
-- wallet-server.go: the handlers. A handler takes the cookie of its request and its body as they
-- were read: an error, or a value.
use ozcoin.Base.{
  ℕ, ◌+◌, ◌-◌, ◌%◌, ◌^◌, ◌==◌, pos, leb, ◌||◌, Option, none, some, List, [], ◌∷◌, map, bytes_eq,
  if◌then◌else◌,
}
use ozcoin.Go.{Result, ok, err, Outcome, returns, panics}
use ozcoin.Go.Read
use ozcoin.Go.Run.{Action, ◌>>=◌, pure, panic, reads, caught}
use ozcoin.Types.{
  Bytes, zero_sum, empty, Block, Output, WalletPublicKey, WalletPrivateKey, u64_mod,
  range_proof_length,
}
use ozcoin.Env.{Env}
use ozcoin.Output.{compute_txn_private_key}
use ozcoin.Payment.{OutputPlaintext, Draws, compute_blinding_factor, new_txn}
use ozcoin.Wallet.{
  WalletEnv, WalletServer, Secrets, Reply, http_error, token_reply, balance_reply, keys_reply,
  txn_reply, accepted, refresh, open_wallet, authenticate_token,
}
use ozcoin.Wallet.Funding.{find_funding_txn, random_outputs}
use ozcoin.Wallet.Saving.{save_my_txns, delete_txns}

pub record SignMsg : Type 0 where
  pub address : WalletPublicKey
  pub amount : ℕ
  pub fee : ℕ

-- What `NewTxn` draws, and the fuel of `RandomOutputs`.
pub record SignDraws : Type 0 where
  pub fuel : ℕ
  pub draws : ℕ → Draws
  pub k1 : ℕ
  pub k2 : ℕ
  pub r : ℕ → ℕ
  pub s : ℕ → ℕ

-- The amounts and recipients of a payment, with the change where there is some.
unfoldable pub shares :
    SignMsg → ℕ → ℕ → List WalletPrivateKey → Outcome (List ℕ × List WalletPublicKey)
shares req total funds privs =
    if total == funds then returns (req.amount ∷ [], req.address ∷ []) else (elim privs [
      | [] ↦ panics
      | priv ∷ _ ↦
          returns
            (req.amount ∷ (funds - total) ∷ [], req.address ∷ priv.tracking_key.public_key ∷ [])
    ])

-- `inputs[0] = *fundingTxn.Output`
unfoldable pub put_first : Output → List Output → Outcome (List Output)
put_first o [] = panics
put_first o (_ ∷ os) = returns (o ∷ os)

unfoldable pub total_of : ℕ → List OutputPlaintext → ℕ
total_of balance [] = balance
total_of balance (o ∷ os) = total_of ((balance + o.amount) % u64_mod) os

unfoldable pub light_output : OutputPlaintext → OutputPlaintext
light_output o = record o { output = none; height = 0 }

module _ (env : Env) (wallet : WalletEnv) where
  -- What follows the check of the token: its refusal, or `Refresh` and the rest of the handler.
  unfoldable pub after_check :
      Action (WalletServer env) Reply → Option Reply → Action (WalletServer env) Reply
  unfolding refresh
  after_check rest (some reply) = pure reply
  after_check rest none = do
    refreshed ← caught (refresh env wallet)
    elim refreshed [ err x ↦ pure (http_error 500 x) | ok _ ↦ rest ]

  -- The handlers begin with the token and with `Refresh`.
  unfoldable pub authenticated :
      Result Bytes → Action (WalletServer env) Reply → Action (WalletServer env) Reply
  unfolding authenticate_token after_check
  authenticated cookie rest = do
    refused ← reads λ ws. authenticate_token env wallet cookie ws
    after_check rest refused

  -- `handleOpen`: `err.Error()` with a nil error panics.
  unfoldable pub handle_open : Secrets → Result Bytes → Action (WalletServer env) Reply
  unfolding open_wallet
  handle_open drawn body = elim body [
    | err x ↦ pure (http_error 400 x)
    | ok password ↦ do
      opened ← caught (open_wallet env wallet drawn password)
      elim opened [
        | err x ↦ pure (http_error 500 x)
        | ok token ↦ if bytes_eq token zero_sum then panic else pure (token_reply token)
      ]
  ]

  -- `handleBalance`
  unfoldable pub handle_balance : Result Bytes → Action (WalletServer env) Reply
  unfolding authenticated total_of light_output
  handle_balance cookie =
      authenticated cookie
        (reads λ ws. returns (balance_reply (total_of 0 ws.outputs) (map light_output ws.outputs)))

  -- `handleTracking`
  unfoldable pub handle_tracking : Result Bytes → Action (WalletServer env) Reply
  unfolding authenticated
  handle_tracking cookie = authenticated cookie (
      reads λ ws. elim ws.privs [
        | [] ↦ returns (http_error 500 "No private keys")
        | priv ∷ privs ↦
            returns (keys_reply (map (λ (k : WalletPrivateKey). k.tracking_key) (priv ∷ privs)))
      ])

  -- What `handleSign` does with a txn that funds the payment.
  unfoldable pub sign_with :
      SignDraws
      → SignMsg
      → List Output
      → OutputPlaintext
      → WalletPrivateKey
      → WalletServer env
      → Outcome Reply
  unfolding put_first compute_txn_private_key compute_blinding_factor shares new_txn
  sign_with d req inputs funding priv ws = elim funding.output [
    | none ↦ panics
    | some o ↦ Read.◌>>=◌ (put_first o inputs) λ ring.
        Read.◌>>=◌ (compute_txn_private_key env o priv) λ sk.
          Read.◌>>=◌ (compute_blinding_factor env o priv) λ yi.
            Read.◌>>=◌ (shares req ((req.amount + req.fee) % u64_mod) funding.amount ws.privs)
              λ parts.
                Read.◌>>=◌
                  (new_txn env d.draws d.k1 d.k2 d.r d.s (some ring) sk yi (pos 0) (some parts.0)
                    (some parts.1) req.fee)
                  λ txn. elim txn [ none ↦ panics | some t ↦ returns (txn_reply t) ]
  ]

  -- `handleSign`. The txn of its reply is sent on the client's channel, too. `err.Error()` with a nil
  -- error panics.
  unfoldable pub handle_sign :
      SignDraws → Result Bytes → Result SignMsg → Action (WalletServer env) Reply
  unfolding authenticated empty find_funding_txn random_outputs sign_with
  handle_sign d cookie body = authenticated cookie (elim body [
    | err x ↦ pure (http_error 400 x)
    | ok req ↦
        if empty req.address.ppk || empty req.address.tpk || leb (2 ^ range_proof_length) req.amount
        then panic
        else (do
          funding ← reads λ ws. find_funding_txn env wallet ((req.amount + req.fee) % u64_mod) ws
          elim funding [
            | none ↦ pure (http_error 422 "Cannot find funding txn")
            | some (o, priv) ↦ do
              gathered ← caught (reads λ ws. random_outputs env wallet d.fuel ws.client)
              elim gathered [
                | err x ↦ pure (http_error 500 x)
                | ok inputs ↦ reads λ ws. sign_with d req inputs o priv ws
              ]
          ])
  ])

  -- `handleNewBlock`
  unfoldable pub handle_new_block : Result Bytes → Result Block → Action (WalletServer env) Reply
  unfolding authenticated save_my_txns
  handle_new_block cookie body = authenticated cookie (elim body [
    | err x ↦ pure (http_error 400 x)
    | ok b ↦ do
      saved ← caught (save_my_txns env wallet b)
      elim saved [ err x ↦ pure (http_error 500 x) | ok _ ↦ pure accepted ]
  ])

  -- `handleDeleteBlock`
  unfoldable pub handle_delete_block : Result Bytes → Result Block → Action (WalletServer env) Reply
  unfolding authenticated delete_txns
  handle_delete_block cookie body = authenticated cookie (elim body [
    | err x ↦ pure (http_error 400 x)
    | ok b ↦ do
      deleted ← caught (delete_txns env wallet b.txns)
      elim deleted [ err x ↦ pure (http_error 500 x) | ok _ ↦ pure accepted ]
  ])

  -- The requests that need a token.
  pub data Request : Type 0 where
    balance tracking : Request
    sign : SignDraws → Result SignMsg → Request
    new_block delete_block : Result Block → Request

  -- The routes of `NewWalletServer`.
  unfoldable pub handle : Request → Result Bytes → Action (WalletServer env) Reply
  unfolding handle_balance handle_tracking handle_sign handle_new_block handle_delete_block
  handle balance cookie = handle_balance cookie
  handle tracking cookie = handle_tracking cookie
  handle (sign d body) cookie = handle_sign d cookie body
  handle (new_block body) cookie = handle_new_block cookie body
  handle (delete_block body) cookie = handle_delete_block cookie body
