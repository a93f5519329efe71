-- ===== src/RangeProof/Blinds.antt =====
-- The blinding factors of `ComputeBlinds`.
use ozcoin.Base.{
  ℕ, zero, suc, ◌+◌, ◌<◌, ◌≡◌, arith, ℤ, pos, int_bytes, false, some, [], ◌==◌, get_elem?,
}
use ozcoin.Env.{Env}
use ozcoin.Hash.{hash, sum_int}
use ozcoin.RangeProof.{blinds_from, compute_blinds}

module _ (env : Env) where
  blinds_from_at :
      (target : ℤ) (n i j : ℕ) (sum_blind : ℤ)
      → j < n
      → 0 < i + j
      → i + j < 33
      → get_elem? (blinds_from env target n i sum_blind) j ≡ some (sum_int (hash env []))
  unfolding blinds_from int_bytes
  blinds_from_at target zero i j sum_blind lt low high = absurd (omega arith)
  blinds_from_at target (suc n) i zero sum_blind lt low high =
      let not_first : (i == 0) ≡ false = ground arith in
      let not_last : (i == 33) ≡ false = ground arith in rw (not_first, not_last)
  blinds_from_at target (suc n) i (suc j) sum_blind lt low high =
      blinds_from_at target n (i + 1) j _ (omega arith) (omega arith) (omega arith)

  -- All blinding factors of a range proof but the first and the last are one public number, whatever
  -- the amount and the blinding factor of the commitment.
  pub compute_blinds_public :
      (target : ℤ) (i : ℕ)
      → 0 < i
      → i < 33
      → get_elem? (compute_blinds env target) i ≡ some (sum_int (hash env []))
  unfolding compute_blinds
  compute_blinds_public target i low high =
      blinds_from_at target 34 0 i (pos 0) (omega arith) (omega arith) (omega arith)
