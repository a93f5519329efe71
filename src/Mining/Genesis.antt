-- ===== src/Mining/Genesis.antt =====
-- The block that `GenesisBlock` makes.
use ozcoin.Base.{
  ℕ, zero, suc, ◌+◌, ◌%◌, ◌<◌, ◌≡◌, refl, sym, ap, ◌∙◌, subst, ℤ, Bool, true, false, [], ◌∷◌,
  length, All, bytes_eq_refl,
}
use ozcoin.Go.{returns, returns-injective}
use ozcoin.Go.Read
use ozcoin.Types.{
  Bytes, BlockHeader, Block, Txn, WalletPublicKey, u64_mod, max_block_size, zero_sum,
  initial_difficulty,
}
use ozcoin.Env.{Env}
use ozcoin.Hash.Group.{GroupLaws}
use ozcoin.Block.{valid_pow, merkle_hash, merkle_slots, verify_merkle_hash}
use ozcoin.Chain.{coinbase_value}
use ozcoin.Txn.{prevalid_block, valid_txns, valid_coinbase_txn, all_valid, verify_coinbase_txn}
use ozcoin.Output.{new_coinbase_txn}
use ozcoin.Mining.{with_root, mine, next_nonce, genesis_block}
use ozcoin.Mining.Accepted.{new_coinbase_txn_checked, is_small}

module _ (env : Env) where
  -- The same header but for the nonce.
  abbrev SameWork : BlockHeader → BlockHeader → Type 0
  SameWork h h' = h' ≡ record h { nonce = h'.nonce }

  mine-eq-returns :
      (fuel : ℕ) (h h' : BlockHeader)
      → mine env fuel h ≡ returns h'
      → (valid_pow env h' ≡ returns true) × SameWork h h'
  unfolding mine next_nonce
  mine-eq-returns zero h h' e = cc
  mine-eq-returns (suc fuel) h h' e =
      let (pow, worked, rest) = Read.>>=-eq-returns (valid_pow env h) _ e in
      go pow worked rest (mine-eq-returns fuel (next_nonce h) h')
    where
      go :
          (pow : Bool)
          → valid_pow env h ≡ returns pow
          → elim pow [ true ↦ returns h | false ↦ mine env fuel (next_nonce h) ] ≡ returns h'
          → (mine env fuel (next_nonce h) ≡ returns h'
              → (valid_pow env h' ≡ returns true) × SameWork (next_nonce h) h')
          → (valid_pow env h' ≡ returns true) × SameWork h h'
      go true worked p later = (
        subst (λ k. valid_pow env k ≡ returns true) (returns-injective p) worked,
        subst (SameWork h) (returns-injective p) refl,
      )
      go false worked p later = later p

  -- The block that is mined.
  abbrev unmined : Txn → ℤ → Block
  unmined t now = with_root env (record {
    header = record {
      seq_num = 0;
      prev_hash = zero_sum;
      merkle_root = zero_sum;
      time = now;
      difficulty = initial_difficulty;
      nonce = 0;
    };
    txns = t ∷ [];
  })

  mined_prevalid :
      (t : Txn) (now : ℤ) (h : BlockHeader)
      → SameWork (unmined t now).header h
      → valid_coinbase_txn env t ≡ true
      → (prevalid_block env (record { header = h; txns = t ∷ [] }) ≡ true) × (h.seq_num ≡ 0)
  unfolding prevalid_block valid_txns all_valid verify_merkle_hash with_root merkle_hash
      merkle_slots
  mined_prevalid t now h same valid = (
    subst (λ (k : BlockHeader). prevalid_block env (record { header = k; txns = t ∷ [] }) ≡ true)
        (sym same) (rw (valid, bytes_eq_refl (merkle_hash env (unmined t now))) refl),
    ap (λ (k : BlockHeader). k.seq_num) same,
  )

  first_value : coinbase_value 0 ≡ (coinbase_value 0 + 0) % u64_mod
  unfolding coinbase_value
  first_value = refl

  -- With points that obey the laws of a group: a block that `GenesisBlock` returns, whose txn has
  -- less than 2 GiB of JSON, has a hash that passes `ValidPoW`; the block passes `PrevalidBlock`, and
  -- its one txn passes `VerifyCoinbaseTxn` for the first coinbase value.
  pub genesis_block_valid :
      (laws : GroupLaws env.curve) (fuel : ℕ) (address : WalletPublicKey) (r : Bytes) (now : ℤ)
      (b : Block)
      → genesis_block env fuel address r now ≡ returns b
      → All (λ t. length (env.txn_json.encode t) < max_block_size) b.txns
      → (t : Txn) × (b.txns ≡ t ∷ [])
        × (valid_pow env b.header ≡ returns true)
        × (prevalid_block env b ≡ true)
        × (b.header.seq_num ≡ 0)
        × (verify_coinbase_txn env t (coinbase_value 0) ≡ returns true)
  unfolding genesis_block with_root
  genesis_block_valid laws fuel address r now b e small =
      let (t, made, e1) = Read.>>=-eq-returns (new_coinbase_txn env address 0 0 r) _ e in
      let (h, mined, e2) = Read.>>=-eq-returns (mine env fuel _) _ e1 in
      let (valid, paid) = new_coinbase_txn_checked env laws address 0 0 r t made in
      let (pow, same) = mine-eq-returns fuel _ h mined in
      let same_block : record { header = h; txns = t ∷ [] } ≡ b = returns-injective e2 in
      let fit : All (λ (u : Txn). length (env.txn_json.encode u) < max_block_size) (t ∷ []) =
        subst
          (λ (k : Block). All (λ (u : Txn). length (env.txn_json.encode u) < max_block_size) k.txns)
          (sym same_block) small in
      let (prevalid, first) =
        mined_prevalid t now h same
          (valid ∙ is_small env laws (length (env.txn_json.encode t)) fit.0) in
      (
        t,
        ap (λ (k : Block). k.txns) (sym same_block),
        subst (λ (k : Block). valid_pow env k.header ≡ returns true) same_block pow,
        subst (λ (k : Block). prevalid_block env k ≡ true) same_block prevalid,
        subst (λ (k : Block). k.header.seq_num ≡ 0) same_block first,
        ap (verify_coinbase_txn env t) first_value ∙ paid,
      )
