-- ===== src/Output/Received.antt =====
-- The receiver of a coinbase txn.
use ozcoin.Base.{
  ◌&&◌, ℕ, ◌+◌, ◌*◌, ◌%◌, ◌≡◌, refl, sym, ap, ◌∙◌, arith, ℤ, pos, ◌+ℤ◌, eq_ℤ, eq_ℤ_refl, int_bytes,
  set_bytes, set_bytes-int_bytes, true, [], ◌∷◌,
}
use ozcoin.Go.{returns}
use ozcoin.Types.{Bytes, Point, stored, Output, Txn, WalletPrivateKey, u64_mod}
use ozcoin.Env.{Env}
use ozcoin.Hash.{deref, point_bytes, uint_bytes, sum_int, hash, pedersen_sum, h_point, neg_y}
use ozcoin.Hash.Group.{GroupLaws, h_log, pedersen_sum_at}
use ozcoin.Chain.{coinbase_value}
use ozcoin.Txn.{verify_coinbase_txn}
use ozcoin.Output.{hash_shared_secret, belongs_to_me, compute_txn_private_key, new_coinbase_txn}

module _ (env : Env) (laws : GroupLaws env.curve) where
  open laws use {at}

  -- The keys of a wallet with the secrets `tsk` and `psk`.
  abbrev pub wallet : ℕ → ℕ → WalletPrivateKey
  wallet tsk psk = record {
    tracking_key = record {
      public_key = record { tpk = stored (at tsk); ppk = stored (at psk) };
      tsk = pos tsk;
    };
    psk = pos psk;
  }

  -- Sender and receiver compute the same point.
  pub shared_point :
      (tsk : ℕ) (r : Bytes)
      → env.curve.scalar_mult (env.curve.scalar_base_mult r) (int_bytes (pos tsk))
        ≡ env.curve.scalar_mult (at tsk) r
  shared_point tsk r =
      ap (λ p. env.curve.scalar_mult p (int_bytes (pos tsk))) (laws.base_at r)
      ∙ laws.mult_at (set_bytes r) (int_bytes (pos tsk))
      ∙ ap at (ap (λ v. set_bytes r * v) (set_bytes-int_bytes (pos tsk)) ∙ grind arith)
      ∙ sym (laws.mult_at tsk r)

  pub spends_key :
      (psk : ℕ) (h : Bytes)
      → env.curve.add (env.curve.scalar_base_mult h) (at psk)
        ≡ env.curve.scalar_base_mult (int_bytes (sum_int h +ℤ pos psk))
  unfolding sum_int ◌+ℤ◌
  spends_key psk h =
      ap (λ p. env.curve.add p (at psk)) (laws.base_at h)
      ∙ laws.add_at (set_bytes h) psk
      ∙ sym (
          laws.base_at (int_bytes (pos (set_bytes h + psk)))
          ∙ ap at (set_bytes-int_bytes (pos (set_bytes h + psk))))

  pub cancels :
      (v : ℕ)
      → env.curve.add
          (pedersen_sum env (int_bytes (pos 0)) (uint_bytes v))
          (neg_y (env.curve.scalar_mult (h_point env) (uint_bytes v)))
        ≡ record { x = pos 0; y = pos 0 }
  unfolding h_point
  cancels v =
      let h = h_log env laws in
      let value = set_bytes (uint_bytes v) in
      ap (λ p. env.curve.add p (neg_y (env.curve.scalar_mult (h_point env) (uint_bytes v))))
        (pedersen_sum_at env laws (int_bytes (pos 0)) (uint_bytes v))
      ∙ ap (λ p. env.curve.add (at (set_bytes (int_bytes (pos 0)) + h * value)) (neg_y p))
          (ap (λ q. env.curve.scalar_mult q (uint_bytes v)) (laws.base_at (int_bytes (pos 11235)))
            ∙ laws.mult_at h (uint_bytes v))
      ∙ laws.sub_at (set_bytes (int_bytes (pos 0))) (h * value)
      ∙ ap at (set_bytes-int_bytes (pos 0))
      ∙ laws.zero_at

  -- On points that obey the laws of a group, the txn that `NewCoinbaseTxn` makes for the public key
  -- of a wallet, whatever it draws, has one output. The output belongs to the wallet, whose private
  -- keys give the key that spends it, and the txn passes `VerifyCoinbaseTxn` for the coinbase value
  -- with the fee.
  pub new_coinbase_txn_received :
      (tsk psk seq_num fee : ℕ) (r : Bytes)
      → let priv = wallet tsk psk in
        (t : Txn) × (o : Output) × (x : ℤ) × (new_coinbase_txn env priv.tracking_key.public_key
            seq_num fee r
          ≡ returns t)
        × (t.body.outputs ≡ o ∷ [])
        × (belongs_to_me env o priv.tracking_key ≡ returns true)
        × (compute_txn_private_key env o priv ≡ returns x)
        × (o.dest_key ≡ stored (env.curve.scalar_base_mult (int_bytes x)))
        × (verify_coinbase_txn env t ((coinbase_value seq_num + fee) % u64_mod) ≡ returns true)
  unfolding new_coinbase_txn belongs_to_me compute_txn_private_key hash_shared_secret deref
      verify_coinbase_txn
  new_coinbase_txn_received tsk psk seq_num fee r =
      let h = hash env (point_bytes (env.curve.scalar_mult (at tsk) r)) in
      let dest = env.curve.add (env.curve.scalar_base_mult h) (at psk) in
      let same : hash env (
            point_bytes
              (env.curve.scalar_mult (env.curve.scalar_base_mult r) (int_bytes (pos tsk))))
          ≡ h =
        ap (λ p. hash env (point_bytes p)) (shared_point tsk r) in
      (
        _,
        _,
        _,
        refl,
        refl,
        rw (same, eq_ℤ_refl dest.x, eq_ℤ_refl dest.y),
        ap (λ k. returns (sum_int k +ℤ pos psk)) same,
        ap stored (spends_key psk h),
        ap (λ (p : Point). returns (eq_ℤ (pos 0) p.x && eq_ℤ (pos 0) p.y))
            (cancels ((coinbase_value seq_num + fee) % u64_mod)),
      )
