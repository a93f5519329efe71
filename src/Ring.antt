-- ===== src/Ring.antt =====
-- ozrs.go: the one-out-of-many ring signature of a txn, over 8 inputs.
pub mod Complete
use ozcoin.Base.{
  ℕ, zero, suc, ◌+◌, ◌%◌, ℤ, pos, ◌-ℤ◌, mod_ℤ, int_bytes, Bool, Option, none, some, List, [], ◌∷◌,
  ◌++◌, ◌==◌, if◌then◌else◌, bytes_eq, map,
}
use ozcoin.Go.{Outcome, returns, panics}
use ozcoin.Go.Read.{◌>>=◌}
use ozcoin.Types.{Sha256Sum, EccPoint, Point, stored, Txn, Ozrs, Output, txn_num_inputs, zero_sum}
use ozcoin.Env.{Env}
use ozcoin.Hash.{
  point_bytes, deref, uint_bytes, neg_y, hash, hash_to_pt, pedersen_sum, pedersen_diff_pk2,
}
use ozcoin.RangeProof.{deref_int, time_travel, compute_r}

-- The point at infinity, `&big.Int{}, &big.Int{}`.
abbrev pub infinity : Point
infinity = record { x = pos 0; y = pos 0 }

-- What the ring holds at one index.
pub record RingRow : Type 0 where
  pub r : ℤ
  pub s : ℤ
  pub diff : Point
  pub pk : Point

-- The first `n` entries of the arrays and slices; a nil or an index out of range panics.
unfoldable pub ring_rows :
    ℕ → List (Option ℤ) → List (Option ℤ) → List Point → List Point → Outcome (List RingRow)
unfolding deref_int
ring_rows zero rs ss diffs pks = returns []
ring_rows (suc n) (r ∷ rs) (s ∷ ss) (d ∷ diffs) (pk ∷ pks) = do
  r' ← deref_int r
  s' ← deref_int s
  rest ← ring_rows n rs ss diffs pks
  returns (record { r = r'; s = s'; diff = d; pk = pk } ∷ rest)
ring_rows (suc n) _ _ _ _ = panics

unfoldable pub deref_all : List EccPoint → Outcome (List Point)
unfolding deref
deref_all [] = returns []
deref_all (p ∷ ps) = do p' ← deref p; rest ← deref_all ps; returns (p' ∷ rest)

unfoldable pub commits_of : List Output → List EccPoint
commits_of [] = []
commits_of (o ∷ os) = o.commit.point ∷ commits_of os

-- Writes one entry of an array.
unfoldable pub update {ℓ} : {A : Type ℓ} → (ℕ → A) → ℕ → A → ℕ → A
update f i a j = if j == i then a else f j

unfoldable pub tabulate {ℓ} : {A : Type ℓ} → ℕ → ℕ → (ℕ → A) → List A
tabulate zero i f = []
tabulate (suc n) i f = f i ∷ tabulate n (i + 1) f

module _ (env : Env) where
  open env use {sha256, curve}

  -- `Preimage`
  unfoldable pub preimage : Point → Option ℤ → Point
  unfolding hash_to_pt
  preimage pk none = hash_to_pt env (point_bytes pk)
  preimage pk (some sk) = curve.scalar_mult (hash_to_pt env (point_bytes pk)) (int_bytes sk)

  -- `computeR2`
  unfoldable pub compute_r2 : ℤ → Sha256Sum → Point → Point → Point
  unfolding pedersen_diff_pk2
  compute_r2 s e base pk = pedersen_diff_pk2 env (int_bytes s) e base pk

  -- `computeE3`
  unfoldable pub compute_e3 : Sha256Sum → ℤ → ℤ → Sha256Sum → Point → Point → Point → Sha256Sum
  unfolding hash preimage compute_r compute_r2
  compute_e3 hash_m r s e1 di pki img =
      let e2 = hash env e1 in
      let imgi = preimage pki none in
      let r1 = compute_r env r e1 di in
      let r2 = compute_r env s e2 pki in
      let r3 = compute_r2 s e2 imgi img in
      hash env (hash_m ++ (point_bytes r1 ++ (point_bytes r2 ++ point_bytes r3)))

  unfoldable pub sum_points : Point → List Point → Point
  sum_points acc [] = acc
  sum_points acc (p ∷ ps) = sum_points (curve.add acc p) ps

  -- `Txn.commitDifferences`
  unfoldable pub commit_differences : List Point → ℕ → List Point → List Point
  unfolding sum_points neg_y pedersen_sum uint_bytes
  commit_differences outs fee ics =
      let feec = pedersen_sum env (int_bytes (pos 0)) (uint_bytes fee) in
      let oc = neg_y (curve.add (sum_points infinity outs) feec) in map (λ c. curve.add c oc) ics

  -- The hash that goes round the ring once.
  unfoldable pub ring_hash : Sha256Sum → Point → Sha256Sum → List RingRow → Sha256Sum
  unfolding compute_e3
  ring_hash hash_m pimg e [] = e
  ring_hash hash_m pimg e (w ∷ rows) =
      ring_hash hash_m pimg (compute_e3 hash_m w.r w.s e w.diff w.pk pimg) rows

  -- `Txn.VerifyOZRS`
  unfoldable pub verify_ozrs : Txn → List Point → List Point → Outcome Bool
  unfolding hash deref_all commits_of commit_differences deref ring_rows ring_hash
  verify_ozrs t pks ics = do
    let hash_m = hash env (env.body_json.encode t.body)
    outs ← deref_all (commits_of t.body.outputs)
    let diffs = commit_differences outs t.body.fee ics
    pimg ← deref t.sig.preimage
    rows ← ring_rows txn_num_inputs t.sig.rs t.sig.ss diffs pks
    returns (bytes_eq t.sig.e (ring_hash hash_m pimg t.sig.e rows))

  -- The secrets and the random draws of `OZRSSign`: `r i` and `s i` are drawn at index `i`.
  module _ (sk yi y_out : ℤ) (k1 k2 : ℕ) (r s : ℕ → ℕ) where
    -- The loop `Compute forward in ring` with `n` rounds left, at index `i`, over the array `es`.
    forward :
        Sha256Sum → Point → (ℕ → Point) → (ℕ → Point) → ℕ → ℕ → (ℕ → Sha256Sum) → ℕ → Sha256Sum
    unfolding update compute_e3
    forward hash_m pimg diffs pks zero i es = es
    forward hash_m pimg diffs pks (suc n) i es =
        let next = (i + 1) % txn_num_inputs in
        let e = compute_e3 hash_m (pos (r i)) (pos (s i)) (es i) (diffs i) (pks i) pimg in
        forward hash_m pimg diffs pks n next (update es next e)

    -- `Txn.OZRSSign`, from the keys and the commitment differences of the 8 inputs.
    unfoldable pub ring_sign : Sha256Sum → (ℕ → Point) → (ℕ → Point) → ℕ → Ozrs
    unfolding preimage forward update time_travel hash tabulate
    ring_sign hash_m diffs pks idx =
        let pimg = preimage (pks idx) (some sk) in
        let next = (idx + 1) % txn_num_inputs in
        let k1_g = curve.scalar_base_mult (int_bytes (pos k1)) in
        let k2_g = curve.scalar_base_mult (int_bytes (pos k2)) in
        let k2_hp = preimage (pks idx) (some (pos k2)) in
        let start =
          hash env (hash_m ++ (point_bytes k1_g ++ (point_bytes k2_g ++ point_bytes k2_hp))) in
        let es = forward hash_m pimg diffs pks 7 next (update (λ j. zero_sum) next start) in
        let e1 = es idx in
        let e2 = hash env e1 in
        let z = mod_ℤ (yi -ℤ y_out) curve.order in
        record {
          preimage = stored pimg;
          e = es 0;
          rs =
              tabulate txn_num_inputs 0
                (update (λ j. some (pos (r j))) idx (some (time_travel z (pos k1) e1)));
          ss =
              tabulate txn_num_inputs 0
                (update (λ j. some (pos (s j))) idx (some (time_travel sk (pos k2) e2)));
        }
