-- ===== src/Mining/Accepted.antt =====
-- The blocks that `NewBlock` makes are accepted.
use ozcoin.Base.{
  ℕ, ◌+◌, ◌%◌, ◌<◌, ◌≤◌, ◌≡◌, refl, sym, ap, ◌∙◌, subst, arith, ℤ, pos, true, Option, none, some,
  List, [], ◌∷◌, length, bytes_eq, bytes_eq_refl, ==_iff, All, not, leb, eq_ℤ, ◌&&◌,
}
use ozcoin.Go.{Outcome, returns, returns-injective}
use ozcoin.Go.Read
use ozcoin.Types.{
  Point, Bytes, Sha256Sum, zero_sum, BlockHeader, Block, Txn, WalletPublicKey, u64_mod,
  max_block_size, initial_difficulty,
}
use ozcoin.Env.{Env}
use ozcoin.Hash.{header_hash, deref}
use ozcoin.Hash.Group.{GroupLaws}
use ozcoin.Block.{merkle_hash, merkle_slots, verify_merkle_hash}
use ozcoin.Client.{Client}
use ozcoin.Chain.Coinbase.{coinbase_halves}
use ozcoin.Chain.{coinbase_value, compute_difficulty, valid_difficulty, fork_txns_and_preimages}
use ozcoin.Txn.{
  valid_txn, valid_coinbase_txn, valid_txns, all_valid, prevalid_block, is_complete, verify_txn,
  verify_rest, verify_txns, verify_coinbase_txn, post_valid_block, pool_entry, pool_from,
  txns_from_pool, gather_inputs, input_refused, preimage_refused, has_key, has_sum,
}
use ozcoin.Txn.Spends.{no_fork}
use ozcoin.Output.{new_coinbase_txn}
use ozcoin.Output.Received.{cancels}
use ozcoin.Mining.{fees_of, with_root, with_difficulty, new_block}

module _ (env : Env) (c : Client env) where
  -- Outside a fork, as in a fork of two empty paths.
  gather_inputs-no_fork :
      (keys : List Sha256Sum)
      → gather_inputs env c (some no_fork) keys ≡ gather_inputs env c none keys
  unfolding gather_inputs input_refused has_key
  gather_inputs-no_fork [] = refl
  gather_inputs-no_fork (key ∷ keys) = ground (arith, gather_inputs-no_fork keys)

  verify_txn-no_fork :
      (t : Txn) → verify_txn env c t (some (no_fork, no_fork)) ≡ verify_txn env c t none
  unfolding verify_txn preimage_refused has_sum
  verify_txn-no_fork t = ground (arith, gather_inputs-no_fork t.body.inputs)

  -- What `TxnsFromPool` lists is valid and verifies.
  abbrev Verified : List Txn → Type 0
  Verified [] = Unit
  Verified (t ∷ ts) =
      (valid_txn env t ≡ true)
      × (verify_txn env c t (some (no_fork, no_fork)) ≡ returns true)
      × Verified ts

  all_valid_of_Verified : (ts : List Txn) → Verified ts → all_valid env ts ≡ true
  unfolding all_valid
  all_valid_of_Verified [] v = refl
  all_valid_of_Verified (t ∷ ts) v = ground (arith, all_valid_of_Verified ts)

  pool_entry-Verified :
      (bytes : Bytes) (t : Txn)
      → pool_entry env c bytes ≡ returns (some t)
      → (valid_txn env t ≡ true) × (verify_txn env c t (some (no_fork, no_fork)) ≡ returns true)
  unfolding pool_entry
  pool_entry-Verified bytes t e = ground (arith, verify_txn-no_fork t)

  pool_from-Verified :
      (entries : List (Bytes × Bytes)) (ts : List Txn)
      → pool_from env c entries ≡ returns ts
      → Verified ts
  unfolding pool_from
  pool_from-Verified [] ts e = subst Verified (returns-injective e) tt
  pool_from-Verified ((key, bytes) ∷ entries) ts e =
      let (found, e1, r1) = Read.>>=-eq-returns (pool_entry env c bytes) _ e in
      let (rest, e2, r2) = Read.>>=-eq-returns (pool_from env c entries) _ r1 in
      appended found e1 rest (pool_from-Verified entries rest e2) r2
    where
      appended :
          (found : Option Txn)
          → pool_entry env c bytes ≡ returns found
          → (rest : List Txn) → Verified rest
          → ◌≡◌ {A = Outcome (List Txn)}
              (returns (elim found [ none ↦ rest | some t ↦ t ∷ rest ]))
              (returns ts)
          → Verified ts
      appended none e1 rest v r = subst Verified (returns-injective r) v
      appended (some t) e1 rest v r =
          let (fine, good) = pool_entry-Verified bytes t e1 in
          subst Verified (returns-injective r) (fine, good, v)

  pub txns_from_pool-Verified : (ts : List Txn) → txns_from_pool env c ≡ returns ts → Verified ts
  unfolding txns_from_pool
  txns_from_pool-Verified ts e = pool_from-Verified (env.ldb.entries c.dbm.txn_pool_db) ts e

  verify_rest-Verified :
      (ts : List Txn) (coinbase : ℕ)
      → Verified ts
      → verify_rest env c (no_fork, no_fork) coinbase ts ≡ returns (some (fees_of coinbase ts))
  unfolding verify_rest fees_of
  verify_rest-Verified [] coinbase v = refl
  verify_rest-Verified (t ∷ ts) coinbase (_, good, v) =
      rw good (verify_rest-Verified ts ((coinbase + t.body.fee) % u64_mod) v)

-- The order of the additions does not matter.
fees_of-add :
    (ts : List Txn) (a b : ℕ)
    → fees_of ((a + b) % u64_mod) ts ≡ (a + fees_of (b % u64_mod) ts) % u64_mod
unfolding fees_of
fees_of-add [] a b = omega arith
fees_of-add (t ∷ ts) a b =
    ap (λ n. fees_of n ts) (omega arith) ∙ fees_of-add ts a (b % u64_mod + t.body.fee)

fees_of-coinbase :
    (n : ℕ) (ts : List Txn)
    → fees_of (coinbase_value n) ts ≡ (coinbase_value n + fees_of 0 ts) % u64_mod
fees_of-coinbase n ts =
    let small : coinbase_value n ≤ 5000000000 = (coinbase_halves n).2 in
    ap (λ m. fees_of m ts) (omega arith) ∙ fees_of-add ts (coinbase_value n) 0

module _ (env : Env) where
  pub verify_merkle_hash-with_root :
      (b : Block) (d : ℕ) → verify_merkle_hash env (with_difficulty env d (with_root env b)) ≡ true
  unfolding verify_merkle_hash merkle_hash merkle_slots with_root with_difficulty
  verify_merkle_hash-with_root b d = bytes_eq_refl (merkle_hash env b)

module _ (env : Env) (laws : GroupLaws env.curve) where
  -- What the checks say of a coinbase txn that was made.
  pub new_coinbase_txn_checked :
      (address : WalletPublicKey) (seq_num fee : ℕ) (r : Bytes) (t : Txn)
      → new_coinbase_txn env address seq_num fee r ≡ returns t
      → (valid_coinbase_txn env t ≡ not (leb max_block_size (length (env.txn_json.encode t))))
        × (verify_coinbase_txn env t ((coinbase_value seq_num + fee) % u64_mod) ≡ returns true)
  unfolding new_coinbase_txn valid_coinbase_txn verify_coinbase_txn deref bytes_eq is_complete
  new_coinbase_txn_checked address seq_num fee r t e =
      let (tpk, e1, r1) = Read.>>=-eq-returns (deref address.tpk) _ e in
      let (ppk, e2, r2) = Read.>>=-eq-returns (deref address.ppk) _ r1 in
      subst
        (λ u.
          (valid_coinbase_txn env u ≡ not (leb max_block_size (length (env.txn_json.encode u))))
          × (verify_coinbase_txn env u ((coinbase_value seq_num + fee) % u64_mod) ≡ returns true))
        (returns-injective r2)
        (
          ground arith,
          ap (λ (p : Point). returns (eq_ℤ (pos 0) p.x && eq_ℤ (pos 0) p.y))
              (cancels env laws ((coinbase_value seq_num + fee) % u64_mod)),
        )

  pub is_small : (n : ℕ) → n < max_block_size → not (leb max_block_size n) ≡ true
  is_small n small = ground arith

  valid_difficulty-with_difficulty :
      (c : Client env) (b : Block) (d : ℕ)
      → compute_difficulty env c b ≡ returns d
      → valid_difficulty env c (with_difficulty env d b) ≡ returns true
  unfolding valid_difficulty compute_difficulty with_difficulty
  valid_difficulty-with_difficulty c b d e = rw e (ap returns ((==_iff d d).1 refl))

  verify_txns_assembled :
      (c : Client env) (h : BlockHeader) (first : Txn) (ts : List Txn)
      → Verified env c ts
      → verify_coinbase_txn env first (fees_of (coinbase_value h.seq_num) ts) ≡ returns true
      → verify_txns env c (record { header = h; txns = first ∷ ts }) none none ≡ returns true
  unfolding verify_txns fork_txns_and_preimages
  verify_txns_assembled c h first ts v paid =
      rw (verify_rest-Verified env c ts (coinbase_value h.seq_num) v) paid

  assembled :
      (c : Client env) (h : BlockHeader) (first : Txn) (ts : List Txn) (d : ℕ)
      → Verified env c ts
      → valid_coinbase_txn env first ≡ true
      → verify_coinbase_txn env first (fees_of (coinbase_value h.seq_num) ts) ≡ returns true
      → compute_difficulty env c (with_root env (record { header = h; txns = first ∷ ts }))
        ≡ returns d
      → let b = with_difficulty env d (with_root env (record { header = h; txns = first ∷ ts })) in
        (prevalid_block env b ≡ true) × (post_valid_block env c b none none ≡ returns true)
  unfolding prevalid_block valid_txns with_root with_difficulty post_valid_block
  assembled c h first ts d v coinbase paid diff =
      let b : Block = record { header = h; txns = first ∷ ts } in
      (
        rw (coinbase, all_valid_of_Verified env c ts v, verify_merkle_hash-with_root env b d),
        rw (
          valid_difficulty-with_difficulty c (with_root env b) d diff,
          verify_txns_assembled c (with_difficulty env d (with_root env b)).header first ts v paid,
        ),
      )

  -- With points that obey the laws of a group: a block that `NewBlock` makes, of txns whose JSON is
  -- less than 2 GiB, passes `PrevalidBlock`, and passes `PostValidBlock` outside a fork on the
  -- client that made it.
  pub new_block_accepted :
      (c : Client env) (prev : BlockHeader) (address : WalletPublicKey) (r : Bytes) (now : ℤ)
      (b : Block)
      → new_block env c prev address r now ≡ returns b
      → All (λ t. length (env.txn_json.encode t) < max_block_size) b.txns
      → (prevalid_block env b ≡ true) × (post_valid_block env c b none none ≡ returns true)
  unfolding new_block with_root with_difficulty
  new_block_accepted c prev address r now b e small =
      let seq_num = (prev.seq_num + 1) % u64_mod in
      let (ts, e1, r1) = Read.>>=-eq-returns (txns_from_pool env c) _ e in
      let fees = fees_of 0 ts in
      let (first, e2, r2) =
        Read.>>=-eq-returns (new_coinbase_txn env address seq_num fees r) _ r1 in
      let h : BlockHeader = record {
        seq_num = seq_num;
        prev_hash = header_hash env prev;
        merkle_root = zero_sum;
        time = now;
        difficulty = initial_difficulty;
        nonce = 0;
      } in
      let (d, e3, r3) =
        Read.>>=-eq-returns
          (compute_difficulty env c (with_root env (record { header = h; txns = first ∷ ts }))) _
          r2 in
      let same : with_difficulty env d (with_root env (record { header = h; txns = first ∷ ts }))
          ≡ b =
        returns-injective r3 in
      let (valid, paid) = new_coinbase_txn_checked address seq_num fees r first e2 in
      let fit : All (λ (t : Txn). length (env.txn_json.encode t) < max_block_size) (first ∷ ts) =
        subst
          (λ (k : Block). All (λ (t : Txn). length (env.txn_json.encode t) < max_block_size) k.txns)
          (sym same) small in
      let sums : fees_of (coinbase_value seq_num) ts ≡ (coinbase_value seq_num + fees) % u64_mod =
        fees_of-coinbase seq_num ts in
      subst
        (λ (k : Block).
          (prevalid_block env k ≡ true) × (post_valid_block env c k none none ≡ returns true))
        same
        (assembled c h first ts d (txns_from_pool-Verified env c ts e1)
          (valid ∙ is_small (length (env.txn_json.encode first)) fit.0)
          (ap (verify_coinbase_txn env first) sums ∙ paid) e3)
