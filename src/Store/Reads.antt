-- ===== src/Store/Reads.antt =====
-- Which reads of the databases can succeed.
use ozcoin.Base.{Bool, true, false, if◌then◌else◌, ◌≡◌, refl, ◌≢◌, ◌⊎◌, inl, inr, none, some}
use ozcoin.Go.{ok, err, fails, returns, Fails, Result-cases, of_result}
use ozcoin.Types.{Bytes, Sha256Sum, BlockHeader, zero_header}
use ozcoin.Env.{Env}
use ozcoin.Env.Laws.{DbLaws, RejectsNil, KeepsTarget, ReadsBack}
use ozcoin.Client.{Client}
use ozcoin.Store.{
  get_header, get_side_header, get_orphan_header, get_side_block, get_orphan_block, read_header,
  read_block, slice,
}

module _ (env : Env) (laws : DbLaws env.ldb) where
  open env use {ldb}

  read_header-nil-Fails :
      (db : ldb.Db) (key : Sha256Sum)
      → RejectsNil env.header_json
      → Fails (read_header env none db key)
  unfolding read_header
  read_header-nil-Fails db key nil = elim (Result-cases (ldb.get db key)) [
    | inl (none, e) ↦ absurd (laws.get_not_nil db key e)
    | inl (some b, e) ↦ let (x, p) = nil b in (x, rw (e, p))
    | inr (x, e) ↦ (x, rw e)
  ]

  read_block-nil-Fails :
      (db : ldb.Db) (key : Sha256Sum)
      → RejectsNil env.block_json
      → Fails (read_block env none db key)
  unfolding read_block
  read_block-nil-Fails db key nil = elim (Result-cases (ldb.get db key)) [
    | inl (found, e) ↦ let (x, p) = nil (slice found) in (x, rw (e, p))
    | inr (x, e) ↦ (x, rw e)
  ]

  -- With databases and JSON that behave as documented: every read of a header or a block from them
  -- returns an error, whatever they hold: the code hands a nil pointer to `json.Unmarshal`.
  pub side_reads_fail :
      (c : Client env) (key : Sha256Sum)
      → RejectsNil env.header_json
      → RejectsNil env.block_json
      → Fails (get_side_header env c key)
        × Fails (get_orphan_header env c key)
        × Fails (get_side_block env c key)
        × Fails (get_orphan_block env c key)
  unfolding get_side_header get_orphan_header get_side_block get_orphan_block
  side_reads_fail c key headers blocks = (
    read_header-nil-Fails c.dbm.side_header_db key headers,
    read_header-nil-Fails c.dbm.orphan_header_db key headers,
    read_block-nil-Fails c.dbm.side_block_db key blocks,
    read_block-nil-Fails c.dbm.orphan_block_db key blocks,
  )

  -- A header that is read is there: no nil pointer comes back without an error.
  pub get_header_ne_nil :
      (c : Client env) (key : Sha256Sum)
      → KeepsTarget env.header_json
      → get_header env c key ≢ returns none
  unfolding get_header read_header
  get_header_ne_nil c key keeps = elim (Result-cases (ldb.get c.dbm.header_db key)) [
    | inl (none, e) ↦ absurd (laws.get_not_nil c.dbm.header_db key e)
    | inl (some b, e) ↦ rw e (decoded b)
    | inr (x, e) ↦ rw e (λ h. cc)
  ]
    where
      decoded : (b : Bytes) → of_result (env.header_json.decode (some zero_header) b) ≢ returns none
      decoded b = elim (Result-cases (env.header_json.decode (some zero_header) b)) [
        | inl (none, e) ↦ absurd (keeps zero_header b e)
        | inl (some h, e) ↦ rw e (λ p. cc)
        | inr (x, e) ↦ rw e (λ p. cc)
      ]

module _ (env : Env) where
  open env use {ldb}

  -- A header that was put is read back, and other reads are as they were.
  pub get_header_of_put :
      (c c' : Client env) (key : Sha256Sum) (h : BlockHeader) (same : Bool)
      → ReadsBack env.header_json
      → ldb.get c'.dbm.header_db key
        ≡ (if same then ok (some (env.header_json.encode h)) else ldb.get c.dbm.header_db key)
      → get_header env c' key ≡ (if same then returns (some h) else get_header env c key)
  unfolding get_header read_header
  get_header_of_put c c' key h true back e = rw e (rw (back zero_header h))
  get_header_of_put c c' key h false back e = rw e

  -- A header that was deleted is not found, and other reads are as they were.
  pub get_header_or_missing :
      (c c' : Client env) (key : Sha256Sum) (gone : Bool)
      → ldb.get c'.dbm.header_db key
        ≡ (if gone then err "leveldb: not found" else ldb.get c.dbm.header_db key)
      → get_header env c' key ≡ (if gone then fails "leveldb: not found" else get_header env c key)
  unfolding get_header read_header
  get_header_or_missing c c' key true e = rw e refl
  get_header_or_missing c c' key false e = rw e refl

module _ (env : Env) (laws : DbLaws env.ldb) (keeps : KeepsTarget env.header_json) where
  -- The read of a header returns one, or an error.
  pub get_header-cases :
      (c : Client env) (key : Sha256Sum)
      → Fails (get_header env c key)
        ⊎ ((h : BlockHeader) × (get_header env c key ≡ returns (some h)))
  unfolding get_header read_header
  get_header-cases c key = elim (Result-cases (env.ldb.get c.dbm.header_db key)) [
    | inl (none, e) ↦ absurd (laws.get_not_nil c.dbm.header_db key e)
    | inl (some b, e) ↦ elim (Result-cases (env.header_json.decode (some zero_header) b)) [
      | inl (none, d) ↦ absurd (keeps zero_header b d)
      | inl (some h, d) ↦ inr (h, rw (e, d) refl)
      | inr (x, d) ↦ inl (x, rw (e, d) refl)
    ]
    | inr (x, e) ↦ inl (x, rw e refl)
  ]
