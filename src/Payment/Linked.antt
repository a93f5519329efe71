-- ===== src/Payment/Linked.antt =====
-- Two payments of one output.
use ozcoin.Base.{
  ℕ, zero, suc, ◌≡◌, refl, sym, ap, ◌∙◌, ℤ, pos, true, false, Option, none, some, List, [], ◌∷◌,
  get_elem?, get_or, length, Among, ltb, map, Bool, if◌then◌else◌,
}
use ozcoin.Go.{Outcome, returns, panics, returns-injective}
use ozcoin.Go.Read
use ozcoin.Types.{
  Sha256Sum, Point, Output, Txn, TxnBody, WalletPublicKey, BlockHeader, Block, txn_num_inputs,
}
use ozcoin.Env.{Env}
use ozcoin.Env.Laws.{DbLaws, ShaLaws}
use ozcoin.Hash.{hash, output_hash, deref, point_bytes, preimage_hash}
use ozcoin.Client.{Client}
use ozcoin.Chain.{Fork}
use ozcoin.Ring.{preimage, ring_sign, deref_all, commits_of, infinity, commit_differences}
use ozcoin.Txn.{dest_keys, verify_txn}
use ozcoin.Payment.{Draws, build_outputs, new_txn_of, new_txn}
use ozcoin.Consensus.Main.{behind_first, extend_main_chain}
use ozcoin.Consensus.Extend.{extend_main_chain-no_respend}

some-injective : {A : Type 0} {x y : A} → some x ≡ some y → x ≡ y
some-injective {A} {x} {y} e = cc

get_or-deref_all :
    (inputs : List Output) (idx : ℕ) (o : Output) (p d : Point) (ps : List Point)
    → deref_all (dest_keys inputs) ≡ returns ps
    → get_elem? inputs idx ≡ some o
    → deref o.dest_key ≡ returns p
    → get_or ps idx d ≡ p
unfolding deref_all dest_keys
get_or-deref_all [] idx o p d ps e found here = cc
get_or-deref_all (i ∷ is) zero o p d ps e found here =
    let (q, e1, r1) = Read.>>=-eq-returns (deref i.dest_key) _ e in
    let (rest, e2, r2) = Read.>>=-eq-returns (deref_all (dest_keys is)) _ r1 in
    let first : q ≡ p =
      returns-injective
        (sym e1 ∙ ap (λ (x : Output). deref x.dest_key) (some-injective found) ∙ here) in
    ap (λ l. get_or l zero d) (sym (returns-injective r2)) ∙ first
get_or-deref_all (i ∷ is) (suc idx) o p d ps e found here =
    let (q, e1, r1) = Read.>>=-eq-returns (deref i.dest_key) _ e in
    let (rest, e2, r2) = Read.>>=-eq-returns (deref_all (dest_keys is)) _ r1 in
    ap (λ l. get_or l (suc idx) d) (sym (returns-injective r2))
    ∙ get_or-deref_all is idx o p d rest e2 found here

past_panics :
    {A : Type 0} {x y : A} (b : Bool) → (if b then panics else returns x) ≡ returns y → x ≡ y
past_panics true e = cc
past_panics false e = returns-injective e

module _ (env : Env) where
  -- A txn that `NewTxn` made to spend an output with a secret: the output stands at the signer's
  -- index of the ring, and the rest is whatever it is.
  pub record Spends (sk : ℤ) (o : Output) (t : Txn) : Type 0 where
    pub draws : ℕ → Draws
    pub k1 : ℕ
    pub k2 : ℕ
    pub r : ℕ → ℕ
    pub s : ℕ → ℕ
    pub inputs : List Output
    pub yi : ℤ
    pub idx : ℕ
    pub amts : List ℕ
    pub rcpts : List WalletPublicKey
    pub fee : ℕ
    pub made :
        new_txn env draws k1 k2 r s (some inputs) sk yi (pos idx) (some amts) (some rcpts) fee
        ≡ returns (some t)
    pub spends : get_elem? inputs idx ≡ some o

  -- What the signature shows of the key.
  key_image : ℤ → Point → Sha256Sum
  key_image sk p = env.sha256 (point_bytes (preimage env p (some sk)))

  preimage_hash-ring_sign :
      (sk yi y_out : ℤ) (k1 k2 : ℕ) (r s : ℕ → ℕ) (hash_m : Sha256Sum) (diffs pks : ℕ → Point)
      (idx : ℕ) (body : TxnBody)
      → preimage_hash env
          (record { body = body; sig = ring_sign env sk yi y_out k1 k2 r s hash_m diffs pks idx })
        ≡ returns (key_image sk (pks idx))
  unfolding preimage_hash ring_sign key_image deref
  preimage_hash-ring_sign sk yi y_out k1 k2 r s hash_m diffs pks idx body = refl

  new_txn_of-preimage_hash :
      (draws : ℕ → Draws) (k1 k2 : ℕ) (r s : ℕ → ℕ) (inputs : List Output) (sk yi : ℤ) (idx : ℕ)
      (amts : List ℕ) (rcpts : List WalletPublicKey) (fee : ℕ) (o : Output) (p : Point) (t : Txn)
      → new_txn_of env draws k1 k2 r s inputs sk yi idx amts rcpts fee ≡ returns t
      → get_elem? inputs idx ≡ some o
      → deref o.dest_key ≡ returns p
      → preimage_hash env t ≡ returns (key_image sk p)
  unfolding new_txn_of
  new_txn_of-preimage_hash draws k1 k2 r s inputs sk yi idx amts rcpts fee o p t e found here =
      let (built, e1, r1) = Read.>>=-eq-returns (build_outputs env draws amts rcpts) _ e in
      let (pks, e2, r2) = Read.>>=-eq-returns (deref_all (dest_keys inputs)) _ r1 in
      let (ics, e3, r3) = Read.>>=-eq-returns (deref_all (commits_of inputs)) _ r2 in
      let (outs, e4, r4) = Read.>>=-eq-returns (deref_all (commits_of built.0)) _ r3 in
      let key : get_or pks idx infinity ≡ p =
        get_or-deref_all inputs idx o p infinity pks e2 found here in
      let body : TxnBody = record {
        inputs = map (output_hash env) inputs;
        outputs = built.0;
        fee = fee;
      } in
      ap (preimage_hash env) (sym (past_panics (ltb (length inputs) txn_num_inputs) r4))
      ∙ preimage_hash-ring_sign sk yi built.1 k1 k2 r s (hash env (env.body_json.encode body))
          (λ i. get_or (commit_differences env outs fee ics) i infinity)
          (λ i. get_or pks i infinity) idx body
      ∙ ap (λ q. returns (key_image sk q)) key

  preimage_hash-Spends :
      (sk : ℤ) (o : Output) (p : Point) (t : Txn)
      → Spends sk o t
      → deref o.dest_key ≡ returns p
      → preimage_hash env t ≡ returns (key_image sk p)
  unfolding new_txn
  preimage_hash-Spends sk o p t w here = go (ltb w.idx txn_num_inputs) w.made
    where
      open w use {draws, k1, k2, r, s, inputs, yi, idx, amts, rcpts, fee}

      payment : Outcome Txn
      payment = new_txn_of env draws k1 k2 r s inputs sk yi idx amts rcpts fee

      go :
          (b : Bool)
          → (if b then (Read.◌>>=◌ payment λ u. returns (some u)) else returns none)
            ≡ returns (some t)
          → preimage_hash env t ≡ returns (key_image sk p)
      go true e =
          let (u, e1, r1) = Read.>>=-eq-returns payment _ e in
          new_txn_of-preimage_hash draws k1 k2 r s inputs sk yi idx amts rcpts fee o p t
            (e1 ∙ ap returns (some-injective (returns-injective r1))) w.spends here
      go false e = cc

  -- With databases that read back what was written, and SHA-256 sums of 32 bytes: of two txns that
  -- `NewTxn` makes to spend one output with one secret, whatever the rings, the amounts and the draws
  -- of each, once `ExtendMainChain` has returned true for a block with the first of them behind its
  -- coinbase txn, the other is refused by `VerifyTxn` on the client's state, in a fork or outside.
  pub spent_once :
      (db : DbLaws env.ldb) (sha : ShaLaws env) (sk : ℤ) (o : Output) (p : Point) (t u : Txn)
      (h : BlockHeader) (b : Block) (c c' : Client env) (forks : Option (Fork × Fork))
      → deref o.dest_key ≡ returns p
      → Spends sk o t
      → Spends sk o u
      → extend_main_chain env h b c ≡ (returns true, c')
      → Among t (behind_first b.txns)
      → verify_txn env c' u forks ≡ returns false
  unfolding key_image
  spent_once db sha sk o p t u h b c c' forks here one other e among =
      extend_main_chain-no_respend env h b c c' t u (key_image sk p) forks db e among
        (preimage_hash-Spends sk o p t one here) (preimage_hash-Spends sk o p u other here)
        (sha.sha_length (point_bytes (preimage env p (some sk))))
