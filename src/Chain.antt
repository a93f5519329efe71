-- ===== src/Chain.antt =====
-- chain.go: the coinbase schedule, the difficulty of a block, and walks along stored headers.
pub mod Coinbase
pub mod Difficulty
pub mod Totals
pub mod Listed
use ozcoin.Base.{
  ℕ, zero, suc, ◌+◌, ◌-◌, ◌*◌, ◌/◌, ◌%◌, ◌^◌, ℤ, pos, negsuc, ◌-ℤ◌, Bool, Option, none, some, List,
  [], ◌∷◌, ◌++◌, ltb, leb, ◌==◌, if◌then◌else◌,
}
use ozcoin.Go.{Outcome, returns, fails, panics, diverges, Result, ok, err}
use ozcoin.Go.Read.{◌>>=◌, caught}
use ozcoin.Types.{
  Sha256Sum, BlockHeader, Block, Txn, Output, zero_header, u64_mod, initial_difficulty,
  difficulty_spacing,
}
use ozcoin.Env.{Env}
use ozcoin.Hash.{header_hash, output_hash, preimage_hash}
use ozcoin.Client.{Client}
use ozcoin.Store.{get_header, get_side_header, get_block, get_side_block}

-- `CoinbaseValue`: a right shift is a division by a power of 2.
unfoldable pub coinbase_value : ℕ → ℕ
coinbase_value seqnum = 50 * 100000000 / 2 ^ (seqnum / 21000)

-- `Time.Unix`: whole seconds, rounded down.
unfoldable pub unix : ℤ → ℤ
unix (pos n) = pos (n / 1000000000)
unix (negsuc n) = negsuc (n / 1000000000)

-- The two bounds on the new target in `ComputeDifficulty`.
unfoldable pub clamp_target : ℕ → ℕ → ℕ
clamp_target old_target new_target =
    let lower_bound = if ltb 0 old_target then old_target - 1 else 0 in
    let upper_bound = (old_target + 1) % u64_mod in
    let raised = if ltb new_target lower_bound then lower_bound else new_target in
    if ltb upper_bound raised then upper_bound else raised

-- The maps that `ForkTxnsAndPreimages` fills: outputs by their hash, and hashes of preimages.
pub record Fork : Type 0 where
  pub txns : List (Sha256Sum × Output)
  pub pimgs : List Sha256Sum

module _ (env : Env) where
  -- The loop of `MainChainTotalDifficulty`, on fuel.
  main_total : ℕ → Client env → ℕ → Sha256Sum → Outcome ℕ
  unfolding get_header
  main_total zero c total prev_hash = diverges
  main_total (suc fuel) c total prev_hash = do
    header ← get_header env c prev_hash
    elim header [
      | none ↦ returns total
      | some h ↦ main_total fuel c ((total + h.difficulty) % u64_mod) h.prev_hash
    ]

  unfoldable pub main_chain_total_difficulty : ℕ → Client env → Outcome ℕ
  unfolding main_total
  main_chain_total_difficulty fuel c = main_total fuel c 0 (header_hash env c.last_header)

  -- The loop of `SideChainTotalDifficulty`, on fuel.
  side_total : ℕ → Client env → ℕ → Sha256Sum → Outcome ℕ
  unfolding get_header get_side_header
  side_total zero c total prev_hash = diverges
  side_total (suc fuel) c total prev_hash = do
    header ← get_header env c prev_hash
    elim header [
      | some h ↦ side_total fuel c ((total + h.difficulty) % u64_mod) h.prev_hash
      | none ↦ do
        side ← get_side_header env c prev_hash
        elim side [ some h ↦ returns ((total + h.difficulty) % u64_mod) | none ↦ returns total ]
    ]

  unfoldable pub side_chain_total_difficulty : ℕ → Client env → Sha256Sum → Outcome ℕ
  unfolding side_total
  side_chain_total_difficulty fuel c key = side_total fuel c 0 key

  -- One round of the loop of `NthAncestorHeader`: the header, from the main database or else from
  -- the side database.
  ancestor_header : Client env → Sha256Sum → Outcome (Option BlockHeader)
  unfolding get_header get_side_header
  ancestor_header c key = do
    r ← caught (get_header env c key)
    elim r [ ok h ↦ returns h | err e ↦ get_side_header env c key ]

  -- The loop with `n` rounds left. A nil header panics.
  nth_ancestor_from : ℕ → Client env → Sha256Sum → BlockHeader → Outcome BlockHeader
  unfolding ancestor_header
  nth_ancestor_from zero c prev_hash prev_header = returns prev_header
  nth_ancestor_from (suc n) c prev_hash prev_header = do
    header ← ancestor_header c prev_hash
    elim header [ none ↦ panics | some h ↦ nth_ancestor_from n c h.prev_hash h ]

  unfoldable pub nth_ancestor_header : Client env → Sha256Sum → ℕ → Outcome BlockHeader
  unfolding nth_ancestor_from
  nth_ancestor_header c key n = nth_ancestor_from n c key zero_header

  unfoldable pub compute_difficulty : Client env → Block → Outcome ℕ
  unfolding nth_ancestor_header unix clamp_target
  compute_difficulty c b =
      if leb b.header.seq_num difficulty_spacing then returns initial_difficulty else (do
        r ← caught (nth_ancestor_header c b.header.prev_hash difficulty_spacing)
        elim r [
          | err e ↦ returns (2 ^ 63)
          | ok last ↦
              let actual_time = unix b.header.time -ℤ unix last.time in
              returns (clamp_target last.difficulty (env.retarget last.difficulty actual_time))
        ])

  unfoldable pub valid_difficulty : Client env → Block → Outcome Bool
  unfolding compute_difficulty
  valid_difficulty c b = do d ← compute_difficulty c b; returns (b.header.difficulty == d)

  add_outputs : List Output → List (Sha256Sum × Output) → List (Sha256Sum × Output)
  add_outputs [] txns = txns
  add_outputs (o ∷ os) txns = add_outputs os ((output_hash env o, o) ∷ txns)

  -- The loop over the txns of one block; the coinbase txn is not left out.
  add_txns : List Txn → Fork → Outcome Fork
  unfolding add_outputs preimage_hash
  add_txns [] f = returns f
  add_txns (t ∷ ts) f = do
    p ← preimage_hash env t
    add_txns ts (record { txns = add_outputs t.body.outputs f.txns; pimgs = p ∷ f.pimgs })

  fork_block : Client env → Sha256Sum → Outcome Block
  unfolding get_block get_side_block
  fork_block c key = do
    b ← get_block env c key
    elim b [
      | some block ↦ returns block
      | none ↦ do
        side ← get_side_block env c key
        elim side [ some block ↦ returns block | none ↦ fails "Path does not exist" ]
    ]

  fork_from : Client env → List Sha256Sum → Fork → Outcome Fork
  unfolding fork_block add_txns
  fork_from c [] f = returns f
  fork_from c (key ∷ path) f = do b ← fork_block c key; g ← add_txns b.txns f; fork_from c path g

  unfoldable pub fork_txns_and_preimages : Client env → List Sha256Sum → Outcome Fork
  unfolding fork_from
  fork_txns_and_preimages c path = fork_from c path (record { txns = []; pimgs = [] })
