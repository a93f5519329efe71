-- ===== src/Output.antt =====
-- output.go: whom an output belongs to, and the key that spends it; and `NewCoinbaseTxn` of txn.go,
-- which makes one.
pub mod Received
use ozcoin.Base.{
  ℕ, ◌+◌, ◌%◌, pos, ◌+ℤ◌, ℤ, eq_ℤ, int_bytes, Bool, true, false, some, none, [], ◌∷◌, replicate,
  if◌then◌else◌,
}
use ozcoin.Go.{Outcome, returns, panics}
use ozcoin.Go.Read.{◌>>=◌}
use ozcoin.Types.{
  Bytes, Sha256Sum, Point, stored, nil_point, Output, Txn, WalletPublicKey, WalletTrackingKey,
  WalletPrivateKey, zero_sum, txn_num_inputs, range_proof_length, u64_mod,
}
use ozcoin.Env.{Env}
use ozcoin.Hash.{deref, point_bytes, uint_bytes, sum_int, hash, pedersen_sum}
use ozcoin.Chain.{coinbase_value}

module _ (env : Env) where
  open env use {curve}

  -- `Output.HashSharedSecret`
  unfoldable pub hash_shared_secret : Output → WalletTrackingKey → Outcome Sha256Sum
  unfolding deref
  hash_shared_secret o addr = do
    r ← deref o.public_key
    returns (hash env (point_bytes (curve.scalar_mult r (int_bytes addr.tsk))))

  -- `Output.BelongsToMe`: the second coordinate is compared only where the first is equal.
  unfoldable pub belongs_to_me : Output → WalletTrackingKey → Outcome Bool
  unfolding hash_shared_secret
  belongs_to_me o addr = do
    h ← hash_shared_secret o addr
    ppk ← deref addr.public_key.ppk
    let dk = curve.add (curve.scalar_base_mult h) ppk
    elim o.dest_key.x [
      | none ↦ panics
      | some x ↦
          if eq_ℤ dk.x x
          then (elim o.dest_key.y [ none ↦ panics | some y ↦ returns (eq_ℤ dk.y y) ])
          else returns false
    ]

  -- `Output.ComputeTxnPrivateKey`
  unfoldable pub compute_txn_private_key : Output → WalletPrivateKey → Outcome ℤ
  unfolding hash_shared_secret sum_int
  compute_txn_private_key o addr = do
    h ← hash_shared_secret o addr.tracking_key
    returns (sum_int h +ℤ addr.psk)

  -- `NewCoinbaseTxn`, with its random bytes `r`.
  unfoldable pub new_coinbase_txn : WalletPublicKey → ℕ → ℕ → Bytes → Outcome Txn
  unfolding deref pedersen_sum uint_bytes
  new_coinbase_txn address seq_num fee r = do
    tpk ← deref address.tpk
    ppk ← deref address.ppk
    let coinbase = (coinbase_value seq_num + fee) % u64_mod
    let commit = pedersen_sum env (int_bytes (pos 0)) (uint_bytes coinbase)
    let h = hash env (point_bytes (curve.scalar_mult tpk r))
    let zero_point : Point = record { x = pos 0; y = pos 0 }
    returns (record {
      body = record {
        inputs = zero_sum ∷ [];
        outputs =
            record {
              public_key = stored (curve.scalar_base_mult r);
              dest_key = stored (curve.add (curve.scalar_base_mult h) ppk);
              blind_seed = stored zero_point;
              commit = record {
                point = stored commit;
                range_proof = record {
                  e = zero_sum;
                  ss = replicate range_proof_length (some (pos 0), some (pos 0));
                  pks = replicate range_proof_length (nil_point, nil_point);
                };
              };
            }
            ∷ [];
        fee = 0;
      };
      sig = record {
        preimage = nil_point;
        e = zero_sum;
        rs = replicate txn_num_inputs (some (pos 0));
        ss = replicate txn_num_inputs (some (pos 0));
      };
    })
