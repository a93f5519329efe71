-- ===== src/Txn.antt =====
-- txn.go: the checks of txns, alone, in the context of the stored chain and in a block; the two
-- stages of a block's validation in block.go; and the txns of the pool in db.go.
pub mod Valid
pub mod Spends
use ozcoin.Base.{
  ℕ, zero, suc, ◌+◌, ◌%◌, pos, eq_ℤ, Bool, true, false, not, ◌&&◌, ◌||◌, Option, none, some, List,
  [], ◌∷◌, length, ltb, leb, ◌==◌, if◌then◌else◌, bytes_eq,
}
use ozcoin.Go.{Result, ok, err, Outcome, returns, fails, panics, of_result}
use ozcoin.Go.Read.{◌>>=◌, caught}
use ozcoin.Types.{
  Bytes, Sha256Sum, EccPoint, Point, empty, Block, Txn, Output, zero_sum, zero_txn, txn_num_inputs,
  txn_num_outputs, max_block_size, u64_mod,
}
use ozcoin.Env.{Env, Curve, LevelDb}
use ozcoin.Hash.{deref, uint_bytes, neg_y, h_point, output_hash, preimage_hash}
use ozcoin.RangeProof.{verify}
use ozcoin.Ring.{infinity, deref_all, commits_of, verify_ozrs}
use ozcoin.Block.{verify_merkle_hash}
use ozcoin.Client.{Client}
use ozcoin.Store.{get_preimage, map_to_block, slice}
use ozcoin.Chain.{Fork, coinbase_value, fork_txns_and_preimages, valid_difficulty}
use ozcoin.Load.{find_output}

-- The test for `Missing data`.
unfoldable pub is_complete : Output → Bool
unfolding empty
is_complete o =
    not (empty o.public_key || empty o.dest_key || empty o.blind_seed || empty o.commit.point)

all_complete : List Output → Bool
unfolding is_complete
all_complete [] = true
all_complete (o ∷ os) = is_complete o && all_complete os

unfoldable pub dest_keys : List Output → List EccPoint
dest_keys [] = []
dest_keys (o ∷ os) = o.dest_key ∷ dest_keys os

-- `_, ok := m[key]`
unfoldable pub has_key : {A : Type 0} → Sha256Sum → List (Sha256Sum × A) → Bool
has_key key [] = false
has_key key ((j, _) ∷ m) = bytes_eq key j || has_key key m

unfoldable pub has_sum : Sha256Sum → List Sha256Sum → Bool
has_sum key [] = false
has_sum key (j ∷ m) = bytes_eq key j || has_sum key m

module _ (env : Env) where
  open env use {curve, ldb}

  -- `ValidTxn`
  unfoldable pub valid_txn : Txn → Bool
  unfolding all_complete
  valid_txn t =
      if not (length t.body.inputs == txn_num_inputs)
      then false
      else if not (length t.body.outputs == txn_num_outputs)
      then false
      else if leb max_block_size (length (env.txn_json.encode t))
      then false
      else all_complete t.body.outputs

  -- The part of `ValidCoinbaseTxn` behind the test of the input.
  coinbase_outputs : Txn → List Output → Bool
  unfolding is_complete
  coinbase_outputs t (o ∷ []) =
      if leb max_block_size (length (env.txn_json.encode t)) then false else is_complete o
  coinbase_outputs t _ = false

  coinbase_inputs : Txn → List Sha256Sum → Bool
  unfolding coinbase_outputs
  coinbase_inputs t (input ∷ []) =
      if not (bytes_eq input zero_sum) then false else coinbase_outputs t t.body.outputs
  coinbase_inputs t _ = false

  -- `ValidCoinbaseTxn`
  unfoldable pub valid_coinbase_txn : Txn → Bool
  unfolding coinbase_inputs
  valid_coinbase_txn t = coinbase_inputs t t.body.inputs

  unfoldable pub all_valid : List Txn → Bool
  unfolding valid_txn
  all_valid [] = true
  all_valid (t ∷ ts) = valid_txn t && all_valid ts

  -- `ValidTxns`
  unfoldable pub valid_txns : List Txn → Bool
  unfolding valid_coinbase_txn all_valid
  valid_txns [] = true
  valid_txns (t ∷ ts) = valid_coinbase_txn t && all_valid ts

  is_empty : List Txn → Bool
  is_empty [] = true
  is_empty (t ∷ ts) = false

  -- `PrevalidBlock`
  unfoldable pub prevalid_block : Block → Bool
  unfolding is_empty valid_txns
  prevalid_block b =
      if is_empty b.txns
      then false
      else if not (valid_txns b.txns)
      then false
      else if not (verify_merkle_hash env b)
      then false
      else true

  -- `VerifyCoinbaseTxn`: the commitment less `coinbase` times `H` is the point at infinity.
  unfoldable pub verify_coinbase_txn : Txn → ℕ → Outcome Bool
  unfolding deref uint_bytes neg_y h_point
  verify_coinbase_txn t coinbase = elim t.body.outputs [
    | [] ↦ panics
    | o ∷ _ ↦ do
      commit ← deref o.commit.point
      let value = neg_y (curve.scalar_mult (h_point env) (uint_bytes coinbase))
      let c = curve.add commit value
      returns (eq_ℤ (pos 0) c.x && eq_ℤ (pos 0) c.y)
  ]

  -- Whether the input may not be spent: its output has no block, or stands in the main fork that
  -- is left. `fork` is nil outside a fork.
  unfoldable pub input_refused : Option Fork → Sha256Sum → Result Sha256Sum → Bool
  unfolding has_key
  input_refused fork key (err e) = true
  input_refused none key (ok _) = false
  input_refused (some main) key (ok _) = has_key key main.txns

  -- The loop `Get inputs` of `VerifyTxn`: `none` where it returns false.
  unfoldable pub gather_inputs :
      Client env → Option Fork → List Sha256Sum → Outcome (Option (List Output))
  unfolding input_refused
  gather_inputs c fork [] = returns (some [])
  gather_inputs c fork (key ∷ keys) = do
    found ← caught (find_output env c key)
    elim found [
      | err _ ↦ returns none
      | ok output ↦ do
        mapped ← caught (map_to_block env c key)
        elim (input_refused fork key mapped) [
          | true ↦ returns none
          | false ↦ elim output [
            | none ↦ panics
            | some o ↦ do
              rest ← gather_inputs c fork keys
              elim rest [ none ↦ returns none | some os ↦ returns (some (o ∷ os)) ]
          ]
        ]
    ]

  unfoldable pub verify_proofs : List Output → Outcome Bool
  verify_proofs [] = returns true
  verify_proofs (o ∷ os) = do
    good ← verify env o.commit.range_proof
    elim good [ false ↦ returns false | true ↦ verify_proofs os ]

  -- The two signature checks of `VerifyTxn`, on the outputs that the inputs name.
  unfoldable pub verify_signatures : Txn → List Output → Outcome Bool
  unfolding deref_all commits_of dest_keys verify_proofs
  verify_signatures t inputs = do
    ics ← deref_all (commits_of inputs)
    pks ← deref_all (dest_keys inputs)
    signed ← verify_ozrs env t pks ics
    elim signed [ false ↦ returns false | true ↦ verify_proofs t.body.outputs ]

  -- Whether the preimage was used: it is recorded, or stands in the main fork.
  unfoldable pub preimage_refused : Client env → Option Fork → Sha256Sum → Bool
  unfolding has_sum get_preimage
  preimage_refused c none p = get_preimage env c p
  preimage_refused c (some main) p = get_preimage env c p || has_sum p main.pimgs

  -- `VerifyTxn`. The four maps are nil together, or are those of the two forks; those of the side
  -- fork are handed over and not read.
  unfoldable pub verify_txn : Client env → Txn → Option (Fork × Fork) → Outcome Bool
  verify_txn c t forks = do
    let main : Option Fork = elim forks [ none ↦ none | some (m, _) ↦ some m ]
    p ← preimage_hash env t
    if preimage_refused c main p then returns false else (do
      inputs ← gather_inputs c main t.body.inputs
      elim inputs [ none ↦ returns false | some os ↦ verify_signatures t os ])

  -- The loop of `VerifyTxns` behind the first txn: the coinbase with all fees, or `none` where it
  -- returns false.
  unfoldable pub verify_rest : Client env → Fork × Fork → ℕ → List Txn → Outcome (Option ℕ)
  verify_rest c forks coinbase [] = returns (some coinbase)
  verify_rest c forks coinbase (t ∷ ts) = do
    good ← verify_txn c t (some forks)
    elim good [
      | false ↦ returns none
      | true ↦ verify_rest c forks ((coinbase + t.body.fee) % u64_mod) ts
    ]

  -- A nil path has no entries.
  path_of : Option (List Sha256Sum) → List Sha256Sum
  path_of none = []
  path_of (some l) = l

  both_or_neither : {A : Type 0} → Option A → Option A → Bool
  both_or_neither none none = true
  both_or_neither (some a) (some b) = true
  both_or_neither _ _ = false

  -- `VerifyTxns`
  unfoldable pub verify_txns :
      Client env → Block → Option (List Sha256Sum) → Option (List Sha256Sum) → Outcome Bool
  unfolding both_or_neither path_of
  verify_txns c b main_path side_path =
      if not (both_or_neither main_path side_path) then panics else (do
        main ← caught (fork_txns_and_preimages env c (path_of main_path))
        elim main [
          | err _ ↦ returns false
          | ok m ↦ do
            side ← caught (fork_txns_and_preimages env c (path_of side_path))
            elim side [
              | err _ ↦ returns false
              | ok s ↦ elim b.txns [
                | [] ↦ panics
                | first ∷ rest ↦ do
                  total ← verify_rest c (m, s) (coinbase_value b.header.seq_num) rest
                  elim total [
                    | none ↦ returns false
                    | some coinbase ↦ verify_coinbase_txn first coinbase
                  ]
              ]
            ]
        ])

  -- `PostValidBlock`
  unfoldable pub post_valid_block :
      Client env → Block → Option (List Sha256Sum) → Option (List Sha256Sum) → Outcome Bool
  post_valid_block c b main_path side_path = do
    good ← valid_difficulty env c b
    elim good [ false ↦ returns false | true ↦ verify_txns c b main_path side_path ]

  -- One round of the loop of `TxnsFromPool`: the txn that is appended, or `none` where it continues.
  unfoldable pub pool_entry : Client env → Bytes → Outcome (Option Txn)
  pool_entry c bytes = elim (env.txn_json.decode (some zero_txn) bytes) [
    | err _ ↦ returns none
    | ok none ↦ returns none
    | ok (some t) ↦ elim (valid_txn t) [
      | false ↦ returns none
      | true ↦ do good ← verify_txn c t none; returns (if good then some t else none)
    ]
  ]

  unfoldable pub pool_from : Client env → List (Bytes × Bytes) → Outcome (List Txn)
  pool_from c [] = returns []
  pool_from c ((_, bytes) ∷ entries) = do
    found ← pool_entry c bytes
    rest ← pool_from c entries
    returns (elim found [ none ↦ rest | some t ↦ t ∷ rest ])

  -- `TxnsFromPool`
  unfoldable pub txns_from_pool : Client env → Outcome (List Txn)
  unfolding pool_from
  txns_from_pool c = pool_from c (ldb.entries c.dbm.txn_pool_db)
