-- ===== src/Consensus/Adopt.antt =====
-- `ExtendSideChain`, `AddOrOrphanHelper` and `AddToTxnPoolHelper` of consensus.go, `AdoptTxn`,
-- `AdoptMinedBlock`, `FilterBlock` and `FilterTxn` of client.go. The channels on which a call waits
-- for its turn and reports its end are not modelled: a call is run to its end before the next one.
use ozcoin.Base.{
  ℕ, zero, suc, ◌+◌, ◌%◌, Bool, true, false, not, ◌||◌, Option, none, some, List, ltb,
  if◌then◌else◌, bytes_eq,
}
use ozcoin.Go.{Result, ok, err, diverges}
use ozcoin.Go.Run.{Action, ◌>>=◌, ◌>>◌, pure, throw, panic, reads, modify, caught}
use ozcoin.Types.{Sha256Sum, zero_sum, BlockHeader, Block, HashMsg, u64_mod}
use ozcoin.Env.{Env}
use ozcoin.Hash.{header_hash}
use ozcoin.Block.{valid_header}
use ozcoin.Client.{Client, is_blockchain}
use ozcoin.Store.{
  get_header, get_side_header, put_side_header, put_side_block, put_orphan_header, put_orphan_block,
}
use ozcoin.Chain.{main_chain_total_difficulty, side_chain_total_difficulty}
use ozcoin.Gossip.{new_hash}
use ozcoin.Load.{load_or_fetch_block}
use ozcoin.Txn.{prevalid_block, post_valid_block}
use ozcoin.Consensus.Main.{extend_main_chain}
use ozcoin.Consensus.Paths.{find_fork_paths}
use ozcoin.Consensus.Swap.{swap_main_fork}

-- The two paths, nil together.
abbrev main_of : Option (List Sha256Sum × List Sha256Sum) → Option (List Sha256Sum)
main_of none = none
main_of (some (main, side)) = some main

abbrev side_of : Option (List Sha256Sum × List Sha256Sum) → Option (List Sha256Sum)
side_of none = none
side_of (some (main, side)) = some side

abbrev path_list : Option (List Sha256Sum) → List Sha256Sum
path_list none = List.[]
path_list (some l) = l

-- Whether a call that looks a hash up has found it: `err == nil`.
abbrev pub found : {A : Type 0} → Result A → Bool
found (ok a) = true
found (err e) = false

module _ (env : Env) where
  -- `ExtendSideChain`; `fuel` bounds its loops.
  unfoldable pub extend_side_chain : ℕ → BlockHeader → Block → Action (Client env) Bool
  extend_side_chain fuel header b = do
    paths ← reads λ c. find_fork_paths env fuel c (header_hash env header)
    main_diff ← reads λ c. main_chain_total_difficulty env fuel c
    side_base ← reads λ c. side_chain_total_difficulty env fuel c header.prev_hash
    let side_diff = (side_base + header.difficulty) % u64_mod
    elim (ltb side_diff main_diff) [
      | true ↦ do
        good ← reads λ c. post_valid_block env c b (main_of paths) (side_of paths)
        elim good [
          | false ↦ pure false
          | true ↦ do put_side_header env header; put_side_block env b; pure true
        ]
      | false ↦ do
        swap_main_fork env (path_list (main_of paths)) (path_list (side_of paths))
        modify λ c. record c { last_header = header }
        pure true
    ]

  -- What `AddOrOrphanHelper` does with a block whose parent was not adopted.
  unfoldable pub cache_orphan : Block → Action (Client env) Bool
  cache_orphan b = do
    put_orphan_header env b.header
    λ c. (if is_blockchain c.type then put_orphan_block env b else pure tt) c
    pure false

  -- What it does once the parent was adopted.
  unfoldable pub after_parent : ℕ → Block → Action (Client env) Bool
  after_parent fuel b = do
    main ← caught (reads λ c. get_header env c b.header.prev_hash)
    elim (found main) [
      | true ↦ extend_main_chain env b.header b
      | false ↦ do
        side ← caught (reads λ c. get_side_header env c b.header.prev_hash)
        elim (found side) [ false ↦ extend_side_chain fuel b.header b | true ↦ panic ]
    ]

  -- What it does with a block that does not extend the main chain; `adopt_parent` is its call of
  -- itself.
  unfoldable pub place_elsewhere : ℕ → Action (Client env) Bool → Block → Action (Client env) Bool
  place_elsewhere fuel adopt_parent b = do
    main ← caught (reads λ c. get_header env c b.header.prev_hash)
    side ← caught (reads λ c. get_side_header env c b.header.prev_hash)
    elim (found main || found side) [
      | true ↦ extend_side_chain fuel b.header b
      | false ↦ do
        success ← adopt_parent
        elim success [ false ↦ cache_orphan b | true ↦ after_parent fuel b ]
    ]

  -- What it does with a block that is valid in itself.
  unfoldable pub place_block : ℕ → Action (Client env) Bool → Block → Action (Client env) Bool
  place_block fuel adopt_parent b c =
      (if bytes_eq b.header.prev_hash (header_hash env c.last_header)
            || bytes_eq b.header.prev_hash zero_sum
          then extend_main_chain env b.header b
          else place_elsewhere fuel adopt_parent b)
        c

  -- `AddOrOrphanHelper`; `fuel` bounds the chain of blocks that are fetched, and the loops.
  unfoldable pub add_or_orphan_helper : ℕ → HashMsg → Action (Client env) Bool
  unfolding new_hash
  add_or_orphan_helper zero req = λ c. (diverges, c)
  add_or_orphan_helper (suc fuel) req = do
    loaded ← caught (reads λ c. load_or_fetch_block env c req)
    elim loaded [
      | err _ ↦ throw "Unable to load previous block"
      | ok b ↦ do
        timely ← reads λ c. valid_header env b.header
        if not timely || not (prevalid_block env b)
            then pure false
            else place_block fuel (add_or_orphan_helper fuel (new_hash req b.header.prev_hash)) b
    ]
