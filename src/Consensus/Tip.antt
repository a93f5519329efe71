-- ===== src/Consensus/Tip.antt =====
-- What `AddOrOrphanHelper` and `AdoptMinedBlock` do to the tip of the main chain.
use ozcoin.Base.{
  ℕ, zero, suc, ◌≡◌, ◌≢◌, refl, ap, sym, ◌∙◌, arith, Bool, true, false, ◌||◌, bytes_eq_refl,
}
use ozcoin.Go.{Outcome, returns, fails, panics, diverges}
use ozcoin.Go.Run.{Action, ◌>>=◌, reads, caught, >>=-eq-returns}
use ozcoin.Types.{zero_sum, BlockHeader, Block, HashMsg}
use ozcoin.Env.{Env}
use ozcoin.Env.Laws.{DbLaws, RejectsNil}
use ozcoin.Block.{valid_header}
use ozcoin.Client.{Client}
use ozcoin.Store.{get_header, get_side_header}
use ozcoin.Gossip.{new_hash}
use ozcoin.Load.{load_or_fetch_block}
use ozcoin.Txn.{prevalid_block}
use ozcoin.Consensus.Main.{extend_main_chain}
use ozcoin.Consensus.Adopt.{
  found, place_block, place_elsewhere, after_parent, cache_orphan, extend_side_chain,
  add_or_orphan_helper,
}
use ozcoin.Consensus.Extend.{extend_main_chain_steps}
use ozcoin.Consensus.Side.{extend_side_chain_fails}

module _ (env : Env) where
  extend_main_chain_last :
      (h : BlockHeader) (b : Block) (c : Client env)
      → (extend_main_chain env h b c).0 ≡ returns true
      → (extend_main_chain env h b c).1.last_header ≡ h
  extend_main_chain_last h b c e =
      let c' = (extend_main_chain env h b c).1 in
      let (c1, c2, good, e1, e2, e3) = extend_main_chain_steps env h b c c' (λ i. (e i, c')) in
      ap (λ (k : Client env). k.last_header) e3

  -- A valid block that names no parent extends the main chain whatever the chain is: a client at
  -- any height takes it as if it were the first block.
  pub zero_parent_extends :
      (fuel : ℕ) (req : HashMsg) (c : Client env) (b : Block)
      → load_or_fetch_block env c req ≡ returns b
      → valid_header env b.header ≡ returns true
      → prevalid_block env b ≡ true
      → b.header.prev_hash ≡ zero_sum
      → add_or_orphan_helper env (suc fuel) req c ≡ extend_main_chain env b.header b c
  unfolding add_or_orphan_helper place_block
  zero_parent_extends fuel req c b load timely valid parent = ground (arith, bytes_eq_refl zero_sum)

  pub adopted_loads :
      (fuel : ℕ) (req : HashMsg) (c : Client env)
      → (add_or_orphan_helper env (suc fuel) req c).0 ≡ returns true
      → (b : Block) × (load_or_fetch_block env c req ≡ returns b)
        × (valid_header env b.header ≡ returns true)
        × (prevalid_block env b ≡ true)
  unfolding add_or_orphan_helper
  adopted_loads fuel req c e = go (load_or_fetch_block env c req) refl
    where
      go :
          (r : Outcome Block)
          → load_or_fetch_block env c req ≡ r
          → (b : Block) × (load_or_fetch_block env c req ≡ returns b)
            × (valid_header env b.header ≡ returns true)
            × (prevalid_block env b ≡ true)
      go (returns b) p = (b, p, ground arith, ground arith)
      go (fails x) p = ground arith
      go panics p = ground arith
      go diverges p = ground arith

module _ (env : Env) (laws : DbLaws env.ldb) (headers : RejectsNil env.header_json)
    (blocks : RejectsNil env.block_json) where
  extend_side_chain-ne-true :
      (fuel : ℕ) (h : BlockHeader) (b : Block) (c : Client env)
      → (extend_side_chain env fuel h b c).0 ≢ returns true
  extend_side_chain-ne-true fuel h b c e =
      let (x, p) = extend_side_chain_fails env laws headers blocks fuel h b c in
      let q = ap (λ (r : Outcome Bool × Client env). r.0) p in cc

  after_parent_adopts :
      (fuel : ℕ) (b : Block) (c : Client env)
      → (after_parent env fuel b c).0 ≡ returns true
      → (after_parent env fuel b c).1.last_header ≡ b.header
  unfolding after_parent
  after_parent_adopts fuel b c e =
      ground (
        arith,
        extend_main_chain_last env b.header b c,
        extend_side_chain-ne-true fuel b.header b c,
      )

  -- `cache_orphan` adopts nothing.
  cache_orphan-ne-true : (b : Block) (c : Client env) → (cache_orphan env b c).0 ≢ returns true
  unfolding cache_orphan
  cache_orphan-ne-true b c e = ground arith

  placed_last :
      (fuel : ℕ) (m : Action (Client env) Bool) (b : Block) (c c' : Client env)
      → place_elsewhere env fuel m b c ≡ (returns true, c')
      → c'.last_header ≡ b.header
  unfolding place_elsewhere
  placed_last fuel m b c c' e =
      let (main, c1, e1, r1) =
        >>=-eq-returns (caught (reads (λ (k : Client env). get_header env k b.header.prev_hash))) _
          c e in
      let (side, c2, e2, r2) =
        >>=-eq-returns
          (caught (reads (λ (k : Client env). get_side_header env k b.header.prev_hash))) _ c1 r1 in
      placed (found main || found side) c2 r2
    where
      placed :
          (known : Bool) (k : Client env)
          → (elim known as (λ x. Action (Client env) Bool) [
            | true ↦ extend_side_chain env fuel b.header b
            | false ↦ do
              success ← m
              elim success [ false ↦ cache_orphan env b | true ↦ after_parent env fuel b ]
          ])
              k
            ≡ (returns true, c')
          → c'.last_header ≡ b.header
      placed true k r = absurd (
          extend_side_chain-ne-true fuel b.header b k
            (ap (λ (q : Outcome Bool × Client env). q.0) r))
      placed false k r = let (success, k', e1, r1) = >>=-eq-returns m _ k r in adopted success k' r1
        where
          adopted :
              (success : Bool) (k' : Client env)
              → (elim success as (λ x. Action (Client env) Bool) [
                | false ↦ cache_orphan env b
                | true ↦ after_parent env fuel b
              ])
                  k'
                ≡ (returns true, c')
              → c'.last_header ≡ b.header
          adopted false k' r =
              absurd (cache_orphan-ne-true b k' (ap (λ (q : Outcome Bool × Client env). q.0) r))
          adopted true k' r =
              ap (λ (q : Outcome Bool × Client env). q.1.last_header) (sym r)
              ∙ after_parent_adopts fuel b k' (ap (λ (q : Outcome Bool × Client env). q.0) r)

  place_block_last :
      (fuel : ℕ) (m : Action (Client env) Bool) (b : Block) (c : Client env)
      → (place_block env fuel m b c).0 ≡ returns true
      → (place_block env fuel m b c).1.last_header ≡ b.header
  unfolding place_block
  place_block_last fuel m b c e = ground (
    arith,
    extend_main_chain_last env b.header b c,
    λ (p : (place_elsewhere env fuel m b c).0 ≡ returns true).
        placed_last fuel m b c (place_elsewhere env fuel m b c).1
          (λ i. (p i, (place_elsewhere env fuel m b c).1)),
  )

  no_fuel :
      (req : HashMsg) (c : Client env) → (add_or_orphan_helper env zero req c).0 ≢ returns true
  unfolding add_or_orphan_helper
  no_fuel req c e = cc

  adopted_last :
      (fuel : ℕ) (req : HashMsg) (c : Client env) (b : Block)
      → load_or_fetch_block env c req ≡ returns b
      → (add_or_orphan_helper env (suc fuel) req c).0 ≡ returns true
      → (add_or_orphan_helper env (suc fuel) req c).1.last_header ≡ b.header
  unfolding add_or_orphan_helper
  adopted_last fuel req c b load e =
      let parent = add_or_orphan_helper env fuel (new_hash req b.header.prev_hash) in
      ground (arith, place_block_last fuel parent b c)

  -- With databases and JSON that behave as documented, on any fuel: when `AddOrOrphanHelper`
  -- returns true, the block that it was asked for was found and is valid in itself, and it is the
  -- tip of the main chain, whatever blocks were adopted before it.
  pub adopted_is_tip :
      (fuel : ℕ) (req : HashMsg) (c : Client env)
      → (add_or_orphan_helper env fuel req c).0 ≡ returns true
      → (b : Block) × (load_or_fetch_block env c req ≡ returns b)
        × (valid_header env b.header ≡ returns true)
        × (prevalid_block env b ≡ true)
        × ((add_or_orphan_helper env fuel req c).1.last_header ≡ b.header)
  adopted_is_tip zero req c e = absurd (no_fuel req c e)
  adopted_is_tip (suc fuel) req c e =
      let (b, load, timely, valid) = adopted_loads env fuel req c e in
      (b, load, timely, valid, adopted_last fuel req c b load e)
