-- ===== src/Block.antt =====
-- block.go: proof of work, the checks of a header, and the Merkle hash of the txns.
pub mod Pow
pub mod Merkle
use ozcoin.Base.{
  ℕ, zero, suc, ◌+◌, ◌-◌, ◌*◌, ◌/◌, ◌%◌, ◌^◌, ℤ, pos, ◌+ℤ◌, ltb_ℤ, Bool, true, false, ◌&&◌, not,
  Option, none, some, List, [], ◌∷◌, ◌++◌, map, replicate, length, get_elem?, get_or, take, ltb,
  ◌==◌, if◌then◌else◌, bytes_eq,
}
use ozcoin.Go.{Outcome, returns, panics}
use ozcoin.Go.Read.{◌>>=◌}
use ozcoin.Types.{Bytes, Sha256Sum, zero_sum, BlockHeader, Block, Txn}
use ozcoin.Env.{Env}
use ozcoin.Hash.{hash, header_hash, txn_hash}

-- The first loop of `ValidPoW`: the bytes before `zero_bytes` are 0. It breaks at that index.
zeros_before : ℕ → ℕ → Bytes → Bool
zeros_before i zero_bytes [] = true
zeros_before i zero_bytes (c ∷ h) =
    let rest = zeros_before (i + 1) zero_bytes h in
    if ltb i zero_bytes then (if c == 0 then rest else false) else true

-- The second loop, with `n` rounds left: the `bit_offset` upper bits of `c` are 0. `x & 1` is the
-- remainder by 2.
bits_before : ℕ → ℕ → ℕ → ℕ → Bool
bits_before zero j bit_offset c = true
bits_before (suc n) j bit_offset c =
    let rest = bits_before n (j + 1) bit_offset c in
    if ltb j bit_offset then (if c / 2 ^ (7 - j) % 2 == 0 then rest else false) else true

-- `ValidPoW` on the header's hash and difficulty. The index `h[zeroBytes]` may be out of range.
unfoldable pub check_pow : Bytes → ℕ → Outcome Bool
unfolding zeros_before bits_before
check_pow h difficulty =
    let zero_bytes = difficulty / 8 in
    let bit_offset = difficulty % 8 in
    if zeros_before 0 zero_bytes h
    then elim (get_elem? h zero_bytes) [
      | none ↦ panics
      | some c ↦ returns (bits_before 8 0 bit_offset c)
    ]
    else returns false

abbrev pub two_hours : ℤ
two_hours = pos (2 * 60 * 60 * 1000000000)

-- `for numSlots < len(b.Txns) { numSlots *= 2 }`, on fuel.
pub slots_for : ℕ → ℕ → ℕ → ℕ
slots_for zero n num_slots = num_slots
slots_for (suc fuel) n num_slots =
    let more = slots_for fuel n (num_slots * 2) in if ltb num_slots n then more else num_slots

module _ (env : Env) where
  -- `BlockHeader.ValidPoW`
  unfoldable pub valid_pow : BlockHeader → Outcome Bool
  unfolding check_pow
  valid_pow bh = check_pow (header_hash env bh) bh.difficulty

  -- `ValidHeader`
  unfoldable pub valid_header : BlockHeader → Outcome Bool
  unfolding valid_pow
  valid_header bh = do
    pow ← valid_pow bh
    returns (
        if not pow
        then false
        else if ltb_ℤ (bh.time +ℤ two_hours) (env.now bh)
        then false
        else if (bh.seq_num == 0) && not (bytes_eq bh.prev_hash zero_sum)
        then false
        else true)

  -- The slots of `MerkleHash`: the hashes of the txns, then zero hashes.
  txn_slots : ℕ → List Txn → List Sha256Sum
  unfolding txn_hash
  txn_slots zero txns = []
  txn_slots (suc n) [] = zero_sum ∷ txn_slots n []
  txn_slots (suc n) (t ∷ txns) = txn_hash env t ∷ txn_slots n txns

  -- `newSlots`: the hashes of the pairs of neighbours.
  unfoldable pub combine : List Sha256Sum → List Sha256Sum
  unfolding hash
  combine [] = []
  combine (a ∷ []) = []
  combine (a ∷ b ∷ slots) = hash env (a ++ b) ∷ combine slots

  -- The loop `Combine and reduce`, on fuel. The code computes `newSlots` and then keeps
  -- `slots[:numNewSlots]`.
  reduce : ℕ → List Sha256Sum → List Sha256Sum
  unfolding combine
  reduce zero slots = slots
  reduce (suc fuel) slots =
      let new_slots = combine slots in
      let num_new_slots = length slots / 2 in
      let rest = reduce fuel (take num_new_slots slots) in
      if ltb 1 (length slots) then rest else slots

  -- The slots that are left when `MerkleHash` leaves its last loop.
  unfoldable pub merkle_slots : Block → List Sha256Sum
  unfolding txn_slots reduce slots_for
  merkle_slots b =
      let n = length b.txns in
      let num_slots = slots_for n n 1 in reduce num_slots (txn_slots num_slots b.txns)

  -- `Block.MerkleHash`
  unfoldable pub merkle_hash : Block → Sha256Sum
  unfolding merkle_slots
  merkle_hash b = get_or (merkle_slots b) 0 zero_sum

  -- `Block.VerifyMerkleHash`
  unfoldable pub verify_merkle_hash : Block → Bool
  unfolding merkle_hash
  verify_merkle_hash b = bytes_eq (merkle_hash b) b.header.merkle_root
