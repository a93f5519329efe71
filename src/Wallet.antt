-- ===== src/Wallet.antt =====
-- wallet-server.go: the server's databases, its password and its token. What the program calls here
-- and not elsewhere is a parameter, `WalletEnv`.
pub mod Funding
pub mod Saving
pub mod Handlers
pub mod Access
pub mod Admitted
pub mod Opened
pub mod Chosen
pub mod Ledger
pub mod Balance
pub mod Credited
use ozcoin.Base.{
  ℕ, zero, suc, ◌+◌, ◌%◌, ◌^◌, ◌==◌, ℤ, pos, leb, ltb, Bool, true, false, not, ◌||◌, ◌&&◌, String,
  Option, none, some, List, [], ◌∷◌, ◌++◌, length, take, int_bytes, bytes_eq, if◌then◌else◌,
}
use ozcoin.Go.{Result, ok, err, Outcome, returns, fails, panics, diverges, of_result}
use ozcoin.Go.Read
use ozcoin.Go.Run.{Action, ◌>>=◌, ◌>>◌, pure, throw, reads, modify, checked, of_error}
use ozcoin.Types.{
  Bytes, Sha256Sum, zero_sum, sha256_sum_length, Block, Txn, Output, WalletPublicKey,
  WalletTrackingKey, WalletPrivateKey, u64_mod, txn_num_inputs,
}
use ozcoin.Env.{Env, LevelDb}
use ozcoin.Hash.{hash, output_hash}
use ozcoin.Client.{Client}
use ozcoin.Chain.{coinbase_value}
use ozcoin.Load.{find_block}
use ozcoin.Output.{belongs_to_me}
use ozcoin.Store.{slice}
use ozcoin.Mining.{fees_of}
use ozcoin.Payment.{OutputPlaintext, new_private_key, decrypt_coinbase, decrypt}

-- JSON of keys and of plaintexts, base64, and `Time.String`. A stored key has its numbers.
pub record WalletEnv : Type 0 where
  pub public_json : WalletPublicKey → Bytes
  pub private_json : WalletPrivateKey → Bytes
  pub read_private : Bytes → Result WalletPrivateKey
  pub plaintext_json : OutputPlaintext → Bytes
  pub read_plaintext : Bytes → Result OutputPlaintext
  pub base64 : Bytes → Bytes
  pub from_base64 : Bytes → Result Bytes
  pub time_string : ℤ → Bytes

-- "password", "salt" and "token"
abbrev pub password_key : Bytes
password_key = 112 ∷ 97 ∷ 115 ∷ 115 ∷ 119 ∷ 111 ∷ 114 ∷ 100 ∷ []

abbrev pub salt_key : Bytes
salt_key = 115 ∷ 97 ∷ 108 ∷ 116 ∷ []

abbrev pub token_key : Bytes
token_key = 116 ∷ 111 ∷ 107 ∷ 101 ∷ 110 ∷ []

pub record WalletServer (env : Env) : Type 0 where
  pub client : Client env
  pub auth_db : env.ldb.Db
  pub priv_db : env.ldb.Db
  pub txn_db : env.ldb.Db
  pub privs : List WalletPrivateKey
  pub outputs : List OutputPlaintext

-- What `Create` draws.
pub record Secrets : Type 0 where
  pub salt : ℕ
  pub seed : ℕ
  pub tsk : ℕ
  pub psk : ℕ

-- What a handler writes: an error with its code, a value, or success with no body.
pub data Reply : Type 0 where
  http_error : ℕ → String → Reply
  token_reply : Sha256Sum → Reply
  balance_reply : ℕ → List OutputPlaintext → Reply
  keys_reply : List WalletTrackingKey → Reply
  txn_reply : Txn → Reply
  accepted : Reply

-- The loop that compares the password's hash: whether it came to the end, or behind 32 bytes.
unfoldable pub compare_hash : Bytes → Sha256Sum → Outcome Bool
compare_hash [] h = returns true
compare_hash (b ∷ bs) [] = returns false
compare_hash (b ∷ bs) (c ∷ h) =
    if b == c then compare_hash bs h else fails "Authentication unsucessful"

-- The loop that compares tokens: an index behind the stored one panics.
unfoldable pub compare_token : Bytes → Bytes → Outcome Bool
compare_token [] stored = returns true
compare_token (b ∷ bs) [] = panics
compare_token (b ∷ bs) (c ∷ stored) = if b == c then compare_token bs stored else returns false

-- The first 32 bytes, where there are as many.
unfoldable pub first_bytes : ℕ → Bytes → Outcome Bytes
first_bytes zero b = returns []
first_bytes (suc n) [] = panics
first_bytes (suc n) (c ∷ b) = Read.◌>>=◌ (first_bytes n b) λ rest. returns (c ∷ rest)

unfoldable pub read_all :
    {A : Type 0} → (Bytes → Result A) → List (Bytes × Bytes) → Outcome (List A)
read_all read [] = returns []
read_all read ((_, b) ∷ entries) =
    Read.◌>>=◌ (of_result (read b))
      λ a. Read.◌>>=◌ (read_all read entries) λ rest. returns (a ∷ rest)

module _ (env : Env) (wallet : WalletEnv) where
  open env use {ldb}

  -- `WalletServer.AuthenicatePassword`
  unfoldable pub authenticate_password : WalletServer env → Bytes → Outcome Sha256Sum
  unfolding hash compare_hash first_bytes
  authenticate_password ws password = Read.◌>>=◌ (of_result (ldb.get ws.auth_db salt_key)) λ salt.
      Read.◌>>=◌ (of_result (ldb.get ws.auth_db password_key)) λ stored. elim salt [
        | none ↦ fails "No wallet credentials in database"
        | some s ↦ elim stored [
          | none ↦ fails "No wallet credentials in database"
          | some h ↦ Read.◌>>=◌ (compare_hash h (hash env (s ++ password))) λ compared.
              if not compared
              then returns zero_sum
              else (Read.◌>>=◌ (of_result (ldb.get ws.auth_db token_key))
                  λ token. first_bytes sha256_sum_length (slice token))
        ]
      ]

  unfoldable pub put_auth : Bytes → Bytes → Action (WalletServer env) (Unit {0})
  put_auth key value =
      checked λ ws. let (e, d) = ldb.put ws.auth_db key value in (e, record ws { auth_db = d })

  unfoldable pub put_priv : Bytes → Bytes → Action (WalletServer env) (Unit {0})
  put_priv key value =
      checked λ ws. let (e, d) = ldb.put ws.priv_db key value in (e, record ws { priv_db = d })

  -- `WalletServer.Refresh`
  unfoldable pub refresh : Action (WalletServer env) (Unit {0})
  unfolding read_all
  refresh = do
    privs ← reads λ ws. read_all wallet.read_private (ldb.entries ws.priv_db)
    modify λ ws. record ws { privs = privs }
    outputs ← reads λ ws. read_all wallet.read_plaintext (ldb.entries ws.txn_db)
    modify λ ws. record ws { outputs = outputs }

  -- `WalletServer.Create`
  unfoldable pub create : Secrets → Bytes → Action (WalletServer env) Sha256Sum
  unfolding hash put_auth put_priv refresh new_private_key
  create drawn password = do
    let token = hash env (int_bytes (pos drawn.seed))
    let address = new_private_key env drawn.tsk drawn.psk
    put_auth password_key (hash env (int_bytes (pos drawn.salt) ++ password))
    put_auth salt_key (int_bytes (pos drawn.salt))
    put_auth token_key token
    put_priv (hash env (wallet.public_json address.tracking_key.public_key))
        (wallet.private_json address)
    refresh
    pure token

  -- `WalletServer.Open`
  unfoldable pub open_wallet : Secrets → Bytes → Action (WalletServer env) Sha256Sum
  unfolding authenticate_password create refresh
  open_wallet drawn password = do
    authenticated ← reads λ ws. Read.caught (authenticate_password ws password)
    elim authenticated [
      | err _ ↦ create drawn password
      | ok token ↦
          if bytes_eq token zero_sum then create drawn password else (do refresh; pure token)
    ]

  -- `WalletServer.authenticateToken`, on the cookie that the request has: what is replied where it
  -- refuses.
  unfoldable pub authenticate_token : Result Bytes → WalletServer env → Outcome (Option Reply)
  unfolding compare_token
  authenticate_token cookie ws = elim cookie [
    | err x ↦ returns (some (http_error 401 x))
    | ok value ↦ elim (wallet.from_base64 value) [
      | err x ↦ returns (some (http_error 401 x))
      | ok token ↦
          if not (length token == sha256_sum_length)
          then returns (some (http_error 401 "Invalid token length"))
          else (elim (ldb.get ws.auth_db token_key) [
            | err x ↦ returns (some (http_error 500 x))
            | ok stored ↦
                Read.◌>>=◌ (compare_token token (slice stored))
                  λ same. returns (if same then none else some (http_error 401 "Invalid token"))
          ])
    ]
  ]
