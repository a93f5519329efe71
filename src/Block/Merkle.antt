-- ===== src/Block/Merkle.antt =====
-- What `MerkleHash` computes.
use ozcoin.Base.{
  ◌∙◌, ℕ, zero, suc, ◌+◌, ◌*◌, ◌/◌, ◌≤◌, ◌≡◌, refl, List, [], ◌∷◌, length, get_or, take, arith,
  bytes_eq,
}
use ozcoin.Types.{Sha256Sum, zero_sum, Block, Txn}
use ozcoin.Env.{Env}
use ozcoin.Hash.{txn_hash}
use ozcoin.Block.{slots_for, txn_slots, reduce, merkle_slots, merkle_hash, verify_merkle_hash}

length-take_half : (l : List Sha256Sum) (k : ℕ) → k ≤ length l → length (take k l) ≡ k
length-take_half l zero h = refl
length-take_half [] (suc k) h = elim h [ ]
length-take_half (x ∷ l) (suc k) h = omega (arith, length-take_half l k (omega arith))

-- The first slot stays, since the slots are cut from the end.
head-take :
    (l : List Sha256Sum) (k : ℕ) → 1 ≤ k → get_or (take k l) 0 zero_sum ≡ get_or l 0 zero_sum
head-take l zero h = elim h [ ]
head-take [] (suc k) h = refl
head-take (x ∷ l) (suc k) h = refl

module _ (env : Env) where
  head-reduce :
      (fuel : ℕ) (l : List Sha256Sum) → get_or (reduce env fuel l) 0 zero_sum ≡ get_or l 0 zero_sum
  unfolding reduce
  head-reduce zero l = refl
  head-reduce (suc fuel) l =
      ground (arith, head-take l (length l / 2), head-reduce fuel (take (length l / 2) l))

  length-reduce :
      (fuel : ℕ) (l : List Sha256Sum)
      → length l ≤ fuel
      → 1 ≤ length l
      → length (reduce env fuel l) ≡ 1
  unfolding reduce
  length-reduce zero l h p = absurd (omega arith)
  length-reduce (suc fuel) l h p =
      ground (arith, length-take_half l (length l / 2), length-reduce fuel (take (length l / 2) l))

  length-txn_slots : (n : ℕ) (txns : List Txn) → length (txn_slots env n txns) ≡ n
  unfolding txn_slots
  length-txn_slots zero txns = refl
  length-txn_slots (suc n) [] = omega (arith, length-txn_slots n [])
  length-txn_slots (suc n) (t ∷ txns) = omega (arith, length-txn_slots n txns)

slots_for_pos : (fuel n s : ℕ) → 1 ≤ s → 1 ≤ slots_for fuel n s
unfolding slots_for
slots_for_pos zero n s h = h
slots_for_pos (suc fuel) n s h = ground (arith, slots_for_pos fuel n (s * 2))

-- Doubling reaches any length that the fuel counts.
slots_for_ge : (fuel n s : ℕ) → 1 ≤ s → n ≤ s + fuel → n ≤ slots_for fuel n s
unfolding slots_for
slots_for_ge zero n s h k = omega arith
slots_for_ge (suc fuel) n s h k = ground (arith, slots_for_ge fuel n (s * 2))

module _ (env : Env) where
  -- The loop of `MerkleHash` that combines slots ends with exactly one slot, for every block, and
  -- the slots that were filled before it are no fewer than the txns.
  pub merkle_slots_one :
      (b : Block)
      → (length (merkle_slots env b) ≡ 1)
        × (length b.txns ≤ slots_for (length b.txns) (length b.txns) 1)
  unfolding merkle_slots
  merkle_slots_one b =
      let n = length b.txns in
      let s = slots_for n n 1 in
      (
        length-reduce env s (txn_slots env s b.txns) (omega (arith, length-txn_slots env s b.txns))
            (omega (arith, length-txn_slots env s b.txns, slots_for_pos n n 1)),
        slots_for_ge n n 1 (omega arith) (omega arith),
      )

  head-txn_slots :
      (n : ℕ) (t : Txn) (ts : List Txn)
      → 1 ≤ n
      → get_or (txn_slots env n (t ∷ ts)) 0 zero_sum ≡ txn_hash env t
  unfolding txn_slots
  head-txn_slots zero t ts h = elim h [ ]
  head-txn_slots (suc n) t ts h = refl

  -- The Merkle hash of a block is the hash of its first txn, whatever txns follow it;
  -- so the check against the header's root says nothing of the
  -- other txns.
  pub verify_merkle_hash_first :
      (b : Block) (t : Txn) (ts : List Txn)
      → b.txns ≡ t ∷ ts
      → (merkle_hash env b ≡ txn_hash env t)
        × (verify_merkle_hash env b ≡ bytes_eq (txn_hash env t) b.header.merkle_root)
  unfolding merkle_hash merkle_slots verify_merkle_hash
  verify_merkle_hash_first b t ts e = (first, rw first)
    where
      first : merkle_hash env b ≡ txn_hash env t
      first = rw e (
          head-reduce env (slots_for (length (t ∷ ts)) (length (t ∷ ts)) 1)
            (txn_slots env (slots_for (length (t ∷ ts)) (length (t ∷ ts)) 1) (t ∷ ts))
          ∙ head-txn_slots (slots_for (length (t ∷ ts)) (length (t ∷ ts)) 1) t ts
              (slots_for_pos (length (t ∷ ts)) (length (t ∷ ts)) 1 (omega arith)))
