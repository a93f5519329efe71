-- ===== src/Payment/Received.antt =====
-- The receiver of an output that `BuildOutputs` makes.
use ozcoin.Base.{
  ℕ, ◌-◌, ◌*◌, ◌^◌, ◌<◌, ◌≡◌, ◌≢◌, refl, sym, ap, ◌∙◌, ℤ, pos, ◌+ℤ◌, eq_ℤ_refl, true, some, [],
  int_bytes, set_bytes,
}
use ozcoin.Go.{returns}
use ozcoin.Types.{Bytes, stored, Output}
use ozcoin.Env.{Env}
use ozcoin.Hash.{deref, point_bytes, sum_int, hash}
use ozcoin.Hash.Group.{GroupLaws, h_log}
use ozcoin.Output.{hash_shared_secret, belongs_to_me, compute_txn_private_key}
use ozcoin.Output.Received.{wallet, shared_point, spends_key}
use ozcoin.Ring.{infinity}
use ozcoin.Payment.{
  Draws, OutputPlaintext, build_output, compute_blinding_factor, decrypt_coinbase, decrypt,
}
use ozcoin.Payment.Amounts.{is_infinity-false, decrypted_complement}
use ozcoin.Payment.Signed.{blind_for, output_for, build_output-for}

module _ (env : Env) (laws : GroupLaws env.curve) where
  open laws use {at}

  blinding_factor_shared :
      (tsk psk amt : ℕ) (d : Draws)
      → at (set_bytes d.q) ≢ infinity
      → compute_blinding_factor env
          (output_for env amt (at tsk) (at psk) d)
          (wallet env laws tsk psk)
        ≡ returns (pos (blind_for env (at psk) d))
  unfolding compute_blinding_factor deref sum_int output_for blind_for
  blinding_factor_shared tsk psk amt d apart =
      rw
        (is_infinity-false (env.curve.scalar_base_mult d.q)
          (λ e. apart (sym (laws.base_at d.q) ∙ e)))
        (ap (λ p. returns (pos (set_bytes (hash env (point_bytes p)))))
          (shared_point env laws psk d.q))

  belongs_to_receiver :
      (tsk psk amt : ℕ) (d : Draws)
      → let priv = wallet env laws tsk psk in
        let o = output_for env amt (at tsk) (at psk) d in
        (x : ℤ) × (belongs_to_me env o priv.tracking_key ≡ returns true)
        × (compute_txn_private_key env o priv ≡ returns x)
        × (o.dest_key ≡ stored (env.curve.scalar_base_mult (int_bytes x)))
  unfolding belongs_to_me compute_txn_private_key hash_shared_secret deref output_for
  belongs_to_receiver tsk psk amt d =
      let h = hash env (point_bytes (env.curve.scalar_mult (at tsk) d.r)) in
      let dest = env.curve.add (env.curve.scalar_base_mult h) (at psk) in
      let same : hash env (
            point_bytes
              (env.curve.scalar_mult (env.curve.scalar_base_mult d.r) (int_bytes (pos tsk))))
          ≡ h =
        ap (λ p. hash env (point_bytes p)) (shared_point env laws tsk d.r) in
      (
        _,
        rw (same, eq_ℤ_refl dest.x, eq_ℤ_refl dest.y) refl,
        ap (λ k. returns (sum_int k +ℤ pos psk)) same,
        ap stored (spends_key env laws psk h),
      )

  -- With points that obey the laws of a group, in which the amount of no bit is the point at
  -- infinity: an output that `BuildOutputs` makes for a wallet's public key and an amount
  -- below 2^34, whatever it draws but a blind seed at infinity, belongs to the wallet. The wallet's
  -- keys give the key that spends it and the blinding factor that `BuildOutputs` used; and `Decrypt`
  -- returns the complement of the amount, 2^34 - 1 minus the amount.
  pub payment_received :
      (base64 : Bytes → Bytes) (tsk psk amt : ℕ) (d : Draws)
      → ((j : ℕ) → j < 34 → at (h_log env laws * 2 ^ j) ≢ infinity)
      → amt < 2 ^ 34
      → at (set_bytes d.q) ≢ infinity
      → let priv = wallet env laws tsk psk in
        (o : Output) × (blind x : ℤ) × (op : OutputPlaintext) × (build_output env amt
            priv.tracking_key.public_key d
          ≡ returns (o, blind))
        × (belongs_to_me env o priv.tracking_key ≡ returns true)
        × (compute_txn_private_key env o priv ≡ returns x)
        × (o.dest_key ≡ stored (env.curve.scalar_base_mult (int_bytes x)))
        × (compute_blinding_factor env o priv ≡ returns blind)
        × (decrypt env base64 o priv ≡ returns (some op))
        × (op.amount ≡ 2 ^ 34 - 1 - amt)
  unfolding decrypt decrypt_coinbase output_for deref
  payment_received base64 tsk psk amt d apart small seeded =
      let priv = wallet env laws tsk psk in
      let o = output_for env amt (at tsk) (at psk) d in
      let blind = blind_for env (at psk) d in
      let (x, mine, key, spends) = belongs_to_receiver tsk psk amt d in
      let factor = blinding_factor_shared tsk psk amt d seeded in
      let amount = decrypted_complement env laws amt (pos blind) d.k d.s o apart small refl in
      (
        o,
        pos blind,
        x,
        record {
          output = some o;
          hash_pub = base64 (hash env (point_bytes (env.curve.scalar_base_mult d.r)));
          time = [];
          amount = 2 ^ 34 - 1 - amt;
          height = 0;
        },
        build_output-for env amt (at tsk) (at psk) priv.tracking_key.public_key d refl,
        mine,
        key,
        spends,
        factor,
        rw (factor, amount) refl,
        refl,
      )
