-- ===== src/Hash.antt =====
-- hash.go, eccpoint.go, commitment.go and the hashes of headers, txns and outputs.
pub mod Group
use ozcoin.Base.{ℕ, ℤ, pos, neg, int_bytes, set_bytes, none, some, ◌++◌}
use ozcoin.Go.{Outcome, returns, panics}
use ozcoin.Types.{Bytes, Sha256Sum, EccPoint, Point, BlockHeader, Txn, Output}
use ozcoin.Env.{Env}

-- `ECCPoint.Bytes`, where both coordinates are there.
unfoldable pub point_bytes : Point → Bytes
point_bytes p = int_bytes p.x ++ int_bytes p.y

-- The use of a point whose coordinate is nil panics.
unfoldable pub deref : EccPoint → Outcome Point
deref p = elim p.x [
  | none ↦ panics
  | some a ↦ elim p.y [ none ↦ panics | some b ↦ returns (record { x = a; y = b }) ]
]

-- `UIntBytes`
unfoldable pub uint_bytes : ℕ → Bytes
uint_bytes n = int_bytes (pos n)

-- `SHA256Sum.Int`
unfoldable pub sum_int : Sha256Sum → ℤ
sum_int h = pos (set_bytes h)

-- The same point with its `Y` negated in place.
unfoldable pub neg_y : Point → Point
neg_y p = record p { y = neg p.y }

module _ (env : Env) where
  open env use {sha256, curve}

  unfoldable pub hash : Bytes → Sha256Sum
  hash data' = sha256 data'

  unfoldable pub hash_to_pt : Bytes → Point
  unfolding hash
  hash_to_pt data' = curve.scalar_base_mult (hash data')

  unfoldable pub hash_pt : Bytes → Point → Sha256Sum
  hash_pt m p = sha256 (m ++ int_bytes p.x ++ int_bytes p.y)

  -- `BlockHeader.Hash`
  unfoldable pub header_hash : BlockHeader → Sha256Sum
  header_hash h = sha256 (env.header_json.encode h)

  -- `Txn.Hash`
  unfoldable pub txn_hash : Txn → Sha256Sum
  txn_hash t = sha256 (env.txn_json.encode t)

  -- `Output.Hash`
  unfoldable pub output_hash : Output → Sha256Sum
  output_hash o = sha256 (env.output_json.encode o)

  -- `Hash(txn.Sig.Preimage.Bytes())`
  unfoldable pub preimage_hash : Txn → Outcome Sha256Sum
  preimage_hash t = elim (deref t.sig.preimage) [
    | returns p ↦ returns (sha256 (point_bytes p))
    | _ ↦ panics
  ]

  -- The second generator, `computeH`.
  unfoldable pub h_point : Point
  h_point = curve.scalar_base_mult (int_bytes (pos 11235))

  unfoldable pub pedersen_sum_pk : Bytes → Bytes → Point → Point
  pedersen_sum_pk blind amt pk = curve.add (curve.scalar_base_mult blind) (curve.scalar_mult pk amt)

  unfoldable pub pedersen_sum : Bytes → Bytes → Point
  unfolding pedersen_sum_pk h_point
  pedersen_sum blind amt = pedersen_sum_pk blind amt h_point

  unfoldable pub pedersen_diff_pk : Bytes → Bytes → Point → Point
  pedersen_diff_pk blind amt pk =
      curve.add (curve.scalar_base_mult blind) (neg_y (curve.scalar_mult pk amt))

  unfoldable pub pedersen_diff : Bytes → Bytes → Point
  unfolding pedersen_diff_pk h_point
  pedersen_diff blind amt = pedersen_diff_pk blind amt h_point

  -- `PedersenDiffPK2`, over a base of the caller's.
  unfoldable pub pedersen_diff_pk2 : Bytes → Bytes → Point → Point → Point
  pedersen_diff_pk2 blind amt base pk =
      curve.add (curve.scalar_mult base blind) (neg_y (curve.scalar_mult pk amt))
