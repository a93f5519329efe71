-- ===== src/Wallet/Funding.antt =====
-- wallet-server.go: the output that pays for a txn, and the outputs among which it is hidden.
use ozcoin.Base.{
  ℕ, zero, suc, ◌==◌, leb, ltb, Bool, true, false, not, ◌||◌, ◌&&◌, Option, none, some, List, [],
  ◌∷◌, ◌++◌, length, bytes_eq, if◌then◌else◌,
}
use ozcoin.Go.{ok, err, Outcome, returns, fails, panics, diverges}
use ozcoin.Go.Read
use ozcoin.Types.{Bytes, sha256_sum_length, Txn, Output, WalletPrivateKey, txn_num_inputs}
use ozcoin.Env.{Env}
use ozcoin.Hash.{output_hash}
use ozcoin.Client.{Client}
use ozcoin.Load.{find_block}
use ozcoin.Output.{belongs_to_me}
use ozcoin.Payment.{OutputPlaintext}
use ozcoin.Wallet.{WalletEnv, WalletServer}

unfoldable pub last_key : WalletPrivateKey → List WalletPrivateKey → WalletPrivateKey
last_key k [] = k
last_key k (j ∷ privs) = last_key j privs

module _ (env : Env) (wallet : WalletEnv) where
  open env use {ldb}

  -- Whether one of the keys owns the output. A nil output panics where there is a key.
  unfoldable pub any_owns : Option Output → List WalletPrivateKey → Outcome Bool
  any_owns o [] = returns false
  any_owns none (priv ∷ privs) = panics
  any_owns (some o) (priv ∷ privs) =
      Read.◌>>=◌ (belongs_to_me env o priv.tracking_key)
        λ mine. Read.◌>>=◌ (any_owns (some o) privs) λ rest. returns (mine || rest)

  -- The inner loop of `findFundingTxn`: `&priv` is the loop's variable, which holds the last key when
  -- the loop has ended.
  unfoldable pub funding_key :
      Option Output → List WalletPrivateKey → Outcome (Option WalletPrivateKey)
  unfolding any_owns last_key
  funding_key o privs = Read.◌>>=◌ (any_owns o privs) λ owned.
      returns
        (elim privs [ [] ↦ none | priv ∷ rest ↦ if owned then some (last_key priv rest) else none ])

  -- Whether a txn takes the place of the one found so far.
  unfoldable pub is_better :
      ℕ → OutputPlaintext → Option (OutputPlaintext × Option WalletPrivateKey) → Bool
  is_better amount o none = leb amount o.amount
  is_better amount o (some (best, key)) = leb amount o.amount && ltb o.amount best.amount

  -- The outer loop, with what was found so far.
  unfoldable pub fund_from :
      ℕ
      → List WalletPrivateKey
      → Option (OutputPlaintext × Option WalletPrivateKey)
      → List OutputPlaintext
      → Outcome (Option (OutputPlaintext × Option WalletPrivateKey))
  unfolding is_better funding_key
  fund_from amount privs best [] = returns best
  fund_from amount privs best (o ∷ os) = elim (is_better amount o best) [
    | false ↦ fund_from amount privs best os
    | true ↦
        Read.◌>>=◌ (funding_key o.output privs) λ key. fund_from amount privs (some (o, key)) os
  ]

  -- `WalletServer.findFundingTxn`
  unfoldable pub find_funding_txn :
      ℕ → WalletServer env → Outcome (Option (OutputPlaintext × WalletPrivateKey))
  unfolding fund_from
  find_funding_txn amount ws = Read.◌>>=◌ (fund_from amount ws.privs none ws.outputs) λ found.
      returns (elim found [
        | none ↦ none
        | some (o, key) ↦ elim key [ none ↦ none | some sk ↦ some (o, sk) ]
      ])

  -- The loop at the label `NextOutput` over the outputs of a txn, with what was gathered so far: an
  -- output with another hash starts it again. The flag tells whether 8 were gathered.
  unfoldable pub scan_outputs :
      ℕ → Bytes → List Output → List Output → List Output → Outcome (List Output × Bool)
  unfolding output_hash
  scan_outputs zero key whole os acc = diverges
  scan_outputs (suc fuel) key whole [] acc = returns (acc, false)
  scan_outputs (suc fuel) key whole (o ∷ os) acc = elim (bytes_eq key (output_hash env o)) [
    | false ↦ scan_outputs fuel key whole whole acc
    | true ↦ elim (length (acc ++ o ∷ []) == txn_num_inputs) [
      | true ↦ returns (acc ++ o ∷ [], true)
      | false ↦ scan_outputs fuel key whole os (acc ++ o ∷ [])
    ]
  ]

  unfoldable pub scan_txns : ℕ → Bytes → List Txn → List Output → Outcome (List Output × Bool)
  unfolding scan_outputs
  scan_txns fuel key [] acc = returns (acc, false)
  scan_txns fuel key (t ∷ ts) acc =
      Read.◌>>=◌ (scan_outputs fuel key t.body.outputs t.body.outputs acc) λ scanned.
        elim (scanned.1) [ true ↦ returns scanned | false ↦ scan_txns fuel key ts scanned.0 ]

  -- The loop over the map's entries.
  unfoldable pub gather_outputs :
      ℕ → Client env → List (Bytes × Bytes) → List Output → Outcome (List Output)
  unfolding scan_txns find_block
  gather_outputs fuel c [] acc = fails "Not enough txns found"
  gather_outputs fuel c ((key, value) ∷ entries) acc =
      elim (not (length key == sha256_sum_length) || not (length value == sha256_sum_length)) [
        | true ↦ gather_outputs fuel c entries acc
        | false ↦ Read.◌>>=◌ (Read.caught (find_block env c value)) λ found. elim found [
          | err _ ↦ gather_outputs fuel c entries acc
          | ok none ↦ panics
          | ok (some b) ↦ Read.◌>>=◌ (scan_txns fuel key b.txns acc) λ scanned. elim (scanned.1) [
            | true ↦ returns scanned.0
            | false ↦ gather_outputs fuel c entries scanned.0
          ]
        ]
      ]

  -- `Client.RandomOutputs`; `fuel` bounds each of its innermost loops.
  unfoldable pub random_outputs : ℕ → Client env → Outcome (List Output)
  unfolding gather_outputs
  random_outputs fuel c = gather_outputs fuel c (ldb.entries c.dbm.map_db) []
