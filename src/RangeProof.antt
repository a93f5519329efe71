-- ===== src/RangeProof.antt =====
-- rangeproof.go: a borromean ring signature for each of the 34 bits of an amount.
pub mod Complete
pub mod Blinds
use ozcoin.Base.{
  ℕ, zero, suc, ◌+◌, ◌-◌, ◌^◌, ◌*◌, ◌/◌, ◌%◌, ℤ, pos, ◌+ℤ◌, ◌-ℤ◌, ◌*ℤ◌, mod_ℤ, int_bytes, Bool,
  Option, none, some, List, [], ◌∷◌, ◌++◌, ltb, ◌==◌, if◌then◌else◌, bytes_eq,
}
use ozcoin.Go.{Outcome, returns, panics}
use ozcoin.Go.Read.{◌>>=◌}
use ozcoin.Types.{Bytes, Sha256Sum, EccPoint, Point, stored, RangeProof, range_proof_length}
use ozcoin.Env.{Env}
use ozcoin.Hash.{
  point_bytes, deref, uint_bytes, sum_int, neg_y, hash, hash_pt, pedersen_sum, pedersen_diff_pk,
}

-- One row of the arrays `Ss` and `PKs`, with nothing nil.
pub record Row : Type 0 where
  pub s0 : ℤ
  pub s1 : ℤ
  pub pk0 : Point
  pub pk1 : Point

unfoldable pub deref_int : Option ℤ → Outcome ℤ
deref_int none = panics
deref_int (some z) = returns z

-- The rows of a proof. The code reads every entry, so a nil anywhere panics.
unfoldable pub open_rows :
    List (Option ℤ × Option ℤ) → List (EccPoint × EccPoint) → Outcome (List Row)
unfolding deref deref_int
open_rows [] pks = returns []
open_rows (s ∷ ss) [] = returns []
open_rows ((a, b) ∷ ss) ((p, q) ∷ pks) = do
  p' ← deref p
  q' ← deref q
  a' ← deref_int a
  b' ← deref_int b
  rest ← open_rows ss pks
  returns (record { s0 = a'; s1 = b'; pk0 = p'; pk1 = q' } ∷ rest)

unfoldable pub stored_scalars : List Row → List (Option ℤ × Option ℤ)
stored_scalars [] = []
stored_scalars (r ∷ rs) = (some r.s0, some r.s1) ∷ stored_scalars rs

unfoldable pub stored_keys : List Row → List (EccPoint × EccPoint)
stored_keys [] = []
stored_keys (r ∷ rs) = (stored r.pk0, stored r.pk1) ∷ stored_keys rs

-- The proof that stores such rows.
unfoldable pub stored_rows : Sha256Sum → List Row → RangeProof
unfolding stored_scalars stored_keys
stored_rows e rows = record { e = e; ss = stored_scalars rows; pks = stored_keys rows }

-- `timeTravel`
unfoldable pub time_travel : ℤ → ℤ → Sha256Sum → ℤ
unfolding sum_int
time_travel blind k e = sum_int e *ℤ blind +ℤ k

-- `value & amt`, where `value` is `1 << i`: the bit `i` of `amt`, in its place.
unfoldable pub masked : ℕ → ℕ → ℕ
masked amt i = 2 ^ i * (amt / 2 ^ i % 2)

-- `value&amt > 0`
unfoldable pub sign_non_zero : ℕ → ℕ → Bool
unfolding masked
sign_non_zero amt i = ltb 0 (masked amt i)

module _ (env : Env) where
  open env use {sha256, curve}

  -- `computeR`
  unfoldable pub compute_r : ℤ → Sha256Sum → Point → Point
  unfolding pedersen_diff_pk
  compute_r s e pk = pedersen_diff_pk env (int_bytes s) e pk

  -- `computeE`
  unfoldable pub compute_e : Sha256Sum → ℤ → Sha256Sum → Point → Sha256Sum
  unfolding compute_r hash_pt
  compute_e hash_m s e pk = hash_pt env hash_m (compute_r s e pk)

  key_bytes : List (Point × Point) → Bytes
  key_bytes [] = []
  key_bytes ((p, q) ∷ rest) = point_bytes p ++ (point_bytes q ++ key_bytes rest)

  -- `RangeProof.HashPKs`
  unfoldable pub hash_pks : List (Point × Point) → Sha256Sum
  unfolding key_bytes
  hash_pks keys = sha256 (key_bytes keys)

  -- The points `r2` that the loop of `Verify` hashes.
  unfoldable pub ring_bytes : Sha256Sum → Sha256Sum → List Row → Bytes
  unfolding compute_e compute_r
  ring_bytes hash_m e [] = []
  ring_bytes hash_m e (r ∷ rows) =
      let e1 = compute_e hash_m r.s0 e r.pk0 in
      point_bytes (compute_r r.s1 e1 r.pk1) ++ ring_bytes hash_m e rows

  unfoldable pub keys_of : List Row → List (Point × Point)
  keys_of [] = []
  keys_of (r ∷ rows) = (r.pk0, r.pk1) ∷ keys_of rows

  unfoldable pub verify_rows : Sha256Sum → List Row → Bool
  unfolding hash_pks ring_bytes keys_of hash
  verify_rows e rows =
      let hash_m = hash_pks (keys_of rows) in
      bytes_eq e (hash env (hash_m ++ ring_bytes hash_m e rows))

  -- `RangeProof.Verify`
  unfoldable pub verify : RangeProof → Outcome Bool
  unfolding open_rows verify_rows
  verify p = do rows ← open_rows p.ss p.pks; returns (verify_rows p.e rows)

  -- The loop of `ComputeBlinds` with `n` rounds left, at round `i`.
  unfoldable pub blinds_from : ℤ → ℕ → ℕ → ℤ → List ℤ
  unfolding sum_int hash
  blinds_from target zero i sum_blind = []
  blinds_from target (suc n) i sum_blind =
      let r : ℤ = if i == 0 then target else pos 0 in
      let hashed : ℤ = sum_int (hash env (int_bytes r)) in
      let last : ℤ = mod_ℤ (target -ℤ sum_blind) curve.order in
      let blind : ℤ = if i == range_proof_length - 1 then last else hashed in
      blind ∷ blinds_from target n (i + 1) (sum_blind +ℤ blind)

  -- `ComputeBlinds`
  unfoldable pub compute_blinds : ℤ → List ℤ
  unfolding blinds_from
  compute_blinds target = blinds_from target range_proof_length 0 (pos 0)

  -- `PKsForAmt`
  unfoldable pub pks_for_amt : ℕ → ℕ → ℤ → Point × Point
  unfolding uint_bytes pedersen_sum neg_y masked
  pks_for_amt amt bit blind =
      let value = 2 ^ bit in
      let diff = neg_y (pedersen_sum env (int_bytes (pos 0)) (uint_bytes value)) in
      let c0 = pedersen_sum env (int_bytes blind) (uint_bytes (masked amt bit)) in
      (c0, curve.add c0 diff)

  unfoldable pub pks_from : ℕ → ℕ → List ℤ → List (Point × Point)
  unfolding pks_for_amt
  pks_from amt i [] = []
  pks_from amt i (b ∷ bs) = pks_for_amt amt i b ∷ pks_from amt (i + 1) bs

  -- The rest of `RangeSign`: `k i` is the random `ks[i]`, `s i` the random entry of `Ss[i]`, which
  -- is `Ss[i][0]` where the bit is set and `Ss[i][1]` where it is not.
  module _ (amt : ℕ) (k s : ℕ → ℕ) where
    forward_point : Sha256Sum → ℕ → Point → Point
    unfolding sign_non_zero hash_pt compute_r
    forward_point hash_m i pk1 =
        let k_g = curve.scalar_base_mult (int_bytes (pos (k i))) in
        if sign_non_zero amt i then k_g else compute_r (pos (s i)) (hash_pt env hash_m k_g) pk1

    unfoldable pub forward_bytes : Sha256Sum → ℕ → List (Point × Point) → Bytes
    unfolding forward_point
    forward_bytes hash_m i [] = []
    forward_bytes hash_m i ((p, q) ∷ pks) =
        point_bytes (forward_point hash_m i q) ++ forward_bytes hash_m (i + 1) pks

    unfoldable pub sign_row : Sha256Sum → Sha256Sum → ℕ → ℤ → Point × Point → Row
    unfolding sign_non_zero compute_e time_travel
    sign_row hash_m e i blind (p, q) =
        if sign_non_zero amt i
        then record {
          s0 = pos (s i);
          s1 = time_travel blind (pos (k i)) (compute_e hash_m (pos (s i)) e p);
          pk0 = p;
          pk1 = q;
        }
        else record { s0 = time_travel blind (pos (k i)) e; s1 = pos (s i); pk0 = p; pk1 = q }

    unfoldable pub sign_rows : Sha256Sum → Sha256Sum → ℕ → List ℤ → List (Point × Point) → List Row
    unfolding sign_row
    sign_rows hash_m e i [] pks = []
    sign_rows hash_m e i (b ∷ bs) [] = []
    sign_rows hash_m e i (b ∷ bs) (pk ∷ pks) =
        sign_row hash_m e i b pk ∷ sign_rows hash_m e (i + 1) bs pks

    -- `RangeSign`: the hash `E` and the rows.
    unfoldable pub range_sign : ℤ → Sha256Sum × List Row
    unfolding pks_from compute_blinds hash_pks forward_bytes sign_rows
    range_sign target =
        let blinds = compute_blinds target in
        let pks = pks_from amt 0 blinds in
        let hash_m = hash_pks pks in
        let e = sha256 (hash_m ++ forward_bytes hash_m 0 pks) in
        (e, sign_rows hash_m e 0 blinds pks)
