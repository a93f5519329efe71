-- ===== src/Txn/Valid.antt =====
-- Which txns pass the checks that look at a txn alone.
use ozcoin.Base.{◌≡◌, ◌≢◌, refl, arith, ◌↔◌, ◌<◌, true, false, none, List, [], ◌∷◌, All, length}
use ozcoin.Types.{EccPoint, empty, Output, Txn, max_block_size}
use ozcoin.Env.{Env}
use ozcoin.Txn.{is_complete, all_complete, valid_txn}

-- Both coordinates are there.
abbrev pub IsThere : EccPoint → Type 0
IsThere p = (p.x ≢ none) × (p.y ≢ none)

-- The four points of an output are there; nothing is asked of its range proof.
abbrev pub IsComplete : Output → Type 0
IsComplete o =
    IsThere o.public_key × IsThere o.dest_key × IsThere o.blind_seed × IsThere o.commit.point

empty_iff : (p : EccPoint) → (empty p ≡ false) ↔ IsThere p
unfolding empty
empty_iff p = ground arith

is_complete_iff : (o : Output) → (is_complete o ≡ true) ↔ IsComplete o
unfolding is_complete
is_complete_iff o = ground (
  arith,
  empty_iff o.public_key,
  empty_iff o.dest_key,
  empty_iff o.blind_seed,
  empty_iff o.commit.point,
)

all_complete_iff : (os : List Output) → (all_complete os ≡ true) ↔ All IsComplete os
unfolding all_complete
all_complete_iff [] = (λ _. tt, λ _. refl)
all_complete_iff (o ∷ os) = ground (arith, is_complete_iff o, all_complete_iff os)

module _ (env : Env) where
  -- `ValidTxn` passes exactly the txns with 8 inputs, 2 outputs whose points are all there, and
  -- less than 2 GiB of JSON.
  pub valid_txn_iff :
      (t : Txn)
      → (valid_txn env t ≡ true) ↔ (
          (length t.body.inputs ≡ 8)
          × (length t.body.outputs ≡ 2)
          × (length (env.txn_json.encode t) < max_block_size)
          × All IsComplete t.body.outputs)
  unfolding valid_txn
  valid_txn_iff t = ground (arith, all_complete_iff t.body.outputs)
