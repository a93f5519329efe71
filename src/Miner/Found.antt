-- ===== src/Miner/Found.antt =====
-- The blocks that the miner finds.
use ozcoin.Base.{
  ℕ, ◌+◌, ◌%◌, ◌∷◌, ℤ, ◌≡◌, refl, sym, ap, ◌∙◌, subst, arith, Bool, true, false, not, Option, none,
  some, bytes_eq, bytes_eq_iff, if◌then◌else◌,
}
use ozcoin.Go.{Outcome, returns, returns-injective}
use ozcoin.Go.Read
use ozcoin.Go.Run
use ozcoin.Types.{Bytes, BlockHeader, Block, WalletPublicKey, u64_mod, zero_sum, initial_difficulty}
use ozcoin.Env.{Env}
use ozcoin.Hash.{header_hash}
use ozcoin.Block.{valid_pow, merkle_hash, verify_merkle_hash}
use ozcoin.Client.{Client}
use ozcoin.Chain.{compute_difficulty}
use ozcoin.Txn.{txns_from_pool}
use ozcoin.Output.{new_coinbase_txn}
use ozcoin.Consensus.Main.{write_block}
use ozcoin.Mining.{fees_of, genesis_block, next_nonce, with_difficulty, with_root, new_block}
use ozcoin.Mining.Accepted.{verify_merkle_hash-with_root}
use ozcoin.Consensus.Resolve.{mined_block_fits}
use ozcoin.Miner.{
  Miner, or_panic, begin_mining, update_time, next_block, search_nonce, Mines, begun, updated,
  searched,
}

module _ (env : Env) where
  abbrev BuildsOnLast : Miner → Type 0
  BuildsOnLast m = (m.block.header.prev_hash ≡ m.last) × (verify_merkle_hash env m.block ≡ true)

  new_block_builds :
      (c : Client env) (prev : BlockHeader) (address : WalletPublicKey) (r : Bytes) (now : ℤ)
      (b : Block)
      → new_block env c prev address r now ≡ returns b
      → (b.header.prev_hash ≡ header_hash env prev) × (verify_merkle_hash env b ≡ true)
  unfolding new_block with_root with_difficulty
  new_block_builds c prev address r now b e =
      let seq_num = (prev.seq_num + 1) % u64_mod in
      let (ts, _, r1) = Read.>>=-eq-returns (txns_from_pool env c) _ e in
      let (first, _, r2) =
        Read.>>=-eq-returns (new_coinbase_txn env address seq_num (fees_of 0 ts) r) _ r1 in
      let made : Block = record {
        header = record {
          seq_num = seq_num;
          prev_hash = header_hash env prev;
          merkle_root = zero_sum;
          time = now;
          difficulty = initial_difficulty;
          nonce = 0;
        };
        txns = first ∷ ts;
      } in
      let (d, _, r3) = Read.>>=-eq-returns (compute_difficulty env c (with_root env made)) _ r2 in
      let same : with_difficulty env d (with_root env made) ≡ b = returns-injective r3 in
      (
        ap (λ (k : Block). k.header.prev_hash) (sym same),
        subst (λ k. verify_merkle_hash env k ≡ true) same (verify_merkle_hash-with_root env made d),
      )

  begin_mining-BuildsOnLast :
      (fuel : ℕ) (address : WalletPublicKey) (r r' : Bytes) (now now' : ℤ) (c c' : Client env)
      (m : Miner)
      → begin_mining env fuel address r r' now now' c ≡ (returns m, c')
      → BuildsOnLast m
  unfolding begin_mining
  begin_mining-BuildsOnLast fuel address r r' now now' c c' m e =
      let (gblock, c1, _, e1) =
        Run.>>=-eq-returns (Run.reads λ c. genesis_block env fuel address r now) _ c e in
      let (_, c2, _, e2) = Run.>>=-eq-returns (or_panic (write_block env gblock)) _ c1 e1 in
      let c3 : Client env = record c2 { last_header = gblock.header } in
      let e3 : begin_last c3 ≡ returns m = ap (λ (q : Outcome Miner × Client env). q.0) e2 in
      let (b, made, e4) =
        Read.>>=-eq-returns (new_block env c3 c3.last_header address r' now') _ e3 in
      subst BuildsOnLast (returns-injective e4)
        (new_block_builds c3 c3.last_header address r' now' b made)
    where
      begin_last : Client env → Outcome Miner
      begin_last c = Read.◌>>=◌ (new_block env c c.last_header address r' now') λ block.
          returns (record {
            last = header_hash env c.last_header;
            block = block;
            recently_updated = false;
          })

  update_time-BuildsOnLast :
      (c : Client env) (now : ℤ) (m n : Miner)
      → update_time env c now m ≡ returns n
      → BuildsOnLast m
      → BuildsOnLast n
  unfolding update_time with_difficulty verify_merkle_hash merkle_hash
  update_time-BuildsOnLast c now m n e (builds, merkle) = go m.recently_updated e
    where
      timed : Miner → Block
      timed m = record (m.block) { header = record (m.block.header) { time = now } }

      go :
          (b : Bool)
          → (if b
              then returns (record m { recently_updated = false })
              else (Read.◌>>=◌ (compute_difficulty env c (timed m)) λ d.
                  returns (record m {
                    block = with_difficulty env d (timed m);
                    recently_updated = false;
                  })))
            ≡ returns n
          → BuildsOnLast n
      go true p = subst BuildsOnLast (returns-injective p) (builds, merkle)
      go false p =
          let (d, _, q) = Read.>>=-eq-returns (compute_difficulty env c (timed m)) _ p in
          subst BuildsOnLast (returns-injective q) (builds, merkle)

  next_block-BuildsOnLast :
      (c : Client env) (address : WalletPublicKey) (r : Bytes) (now : ℤ) (m n : Miner)
      → next_block env c address r now m ≡ returns n
      → BuildsOnLast m
      → BuildsOnLast n × (n.last ≡ header_hash env c.last_header)
  unfolding next_block next_nonce verify_merkle_hash merkle_hash
  next_block-BuildsOnLast c address r now m n e (builds, merkle) =
      go (bytes_eq m.last (header_hash env c.last_header)) refl e
    where
      go :
          (b : Bool)
          → bytes_eq m.last (header_hash env c.last_header) ≡ b
          → (if not b
              then (Read.◌>>=◌ (new_block env c c.last_header address r now) λ block.
                  returns (record {
                    last = header_hash env c.last_header;
                    block = block;
                    recently_updated = true;
                  }))
              else returns
                  (record m { block = record (m.block) { header = next_nonce m.block.header } }))
            ≡ returns n
          → BuildsOnLast n × (n.last ≡ header_hash env c.last_header)
      go true same p =
          subst (λ (k : Miner). BuildsOnLast k × (k.last ≡ header_hash env c.last_header))
            (returns-injective p)
            ((builds, merkle), (bytes_eq_iff m.last (header_hash env c.last_header)).0 same)
      go false changed p =
          let (b, made, q) =
            Read.>>=-eq-returns (new_block env c c.last_header address r now) _ p in
          subst (λ (k : Miner). BuildsOnLast k × (k.last ≡ header_hash env c.last_header))
            (returns-injective q) (new_block_builds c c.last_header address r now b made, refl)

  Mines-BuildsOnLast :
      {address : WalletPublicKey} {m : Miner} → Mines env address m → BuildsOnLast m
  unfolding search_nonce
  Mines-BuildsOnLast {address} (begun fuel r r' now now' c c' m e) =
      begin_mining-BuildsOnLast fuel address r r' now now' c c' m e
  Mines-BuildsOnLast (updated c now m n h e) =
      update_time-BuildsOnLast c now m n e (Mines-BuildsOnLast h)
  Mines-BuildsOnLast {address} (searched c r now m n sent h e) =
      let (k, next, e1) = Read.>>=-eq-returns (next_block env c address r now m) _ e in
      let (pow, _, e2) = Read.>>=-eq-returns (valid_pow env k.block.header) _ e1 in
      subst BuildsOnLast (ap (λ (q : Miner × Option Block). q.0) (returns-injective e2))
        (next_block-BuildsOnLast c address r now m k next (Mines-BuildsOnLast h)).0

  sent_when :
      (pow : Bool) (k b : Block)
      → valid_pow env k.header ≡ returns pow
      → (if pow then some k else none) ≡ some b
      → (k ≡ b) × (valid_pow env k.header ≡ returns true)
  sent_when true k b worked e = (cc, worked)
  sent_when false k b worked e = cc

  fits_on :
      (c : Client env) (b : Block)
      → bytes_eq (header_hash env c.last_header) b.header.prev_hash ≡ true
      → mined_block_fits env c b ≡ true
  unfolding mined_block_fits
  fits_on c b e = ground arith

  -- A block that the miner sends after any number of rounds, whatever the client's last header was
  -- in each of them, passes `ValidPoW`, has the Merkle hash of its txns, and is built on the client's
  -- last header of that round, so that `AdoptMinedBlock` does not reject it for its parent while
  -- that header is the last one.
  pub found_block_fits :
      (address : WalletPublicKey) (m n : Miner) (c : Client env) (r : Bytes) (now : ℤ) (b : Block)
      → Mines env address m
      → search_nonce env c address r now m ≡ returns (n, some b)
      → (valid_pow env b.header ≡ returns true)
        × (verify_merkle_hash env b ≡ true)
        × (b.header.prev_hash ≡ header_hash env c.last_header)
        × (mined_block_fits env c b ≡ true)
  unfolding search_nonce mined_block_fits
  found_block_fits address m n c r now b h e =
      let (k, next, e1) = Read.>>=-eq-returns (next_block env c address r now m) _ e in
      let (pow, worked, e2) = Read.>>=-eq-returns (valid_pow env k.block.header) _ e1 in
      let ((builds, merkle), last) =
        next_block-BuildsOnLast c address r now m k next (Mines-BuildsOnLast h) in
      let (same, good) =
        sent_when pow k.block b worked
          (ap (λ (q : Miner × Option Block). q.1) (returns-injective e2)) in
      let on_last : k.block.header.prev_hash ≡ header_hash env c.last_header = builds ∙ last in
      let fits : mined_block_fits env c k.block ≡ true =
        fits_on c k.block (
          (bytes_eq_iff (header_hash env c.last_header) k.block.header.prev_hash).1
            (sym on_last)) in
      subst
        (λ (u : Block).
          (valid_pow env u.header ≡ returns true)
          × (verify_merkle_hash env u ≡ true)
          × (u.header.prev_hash ≡ header_hash env c.last_header)
          × (mined_block_fits env c u ≡ true))
        same (good, merkle, on_last, fits)
