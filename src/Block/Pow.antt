-- ===== src/Block/Pow.antt =====
-- What `ValidPoW` decides: the hash, read as a number, is below 2^(256 - difficulty).
use ozcoin.Base.{
  ℕ, zero, suc, ◌+◌, ◌-◌, ◌*◌, ◌/◌, ◌%◌, ◌^◌, ◌≤◌, ◌<◌, ◌≡◌, refl, ◌↔◌, [], ◌∷◌, length, get_elem?,
  ltb, ◌==◌, arith, Bool-cases, Bool, inl, inr, true, false, some, none, set_bytes, set_bytes-cons,
  set_bytes_lt, All, get_or, lt→ltb, ltb→lt, ltb→le, ◌≢◌, if◌then◌else◌,
}
use native.Mathlib.Nat.{pow-suc, zero-add}
use native.Mathlib.Numerals.{towards_suc}
use mathlib.Core.Bool.{false≢true}
use ozcoin.Go.{Outcome, returns, panics}
use ozcoin.Types.{Bytes, BlockHeader}
use ozcoin.Env.{Env}
use ozcoin.Env.Laws.{ShaLaws}
use ozcoin.Hash.{header_hash}
use ozcoin.Block.{zeros_before, bits_before, check_pow, valid_pow}

bits_before_table :
    (off c : ℕ) → off < 8 → c < 256 → (bits_before 8 0 off c ≡ true) ↔ (c < 2 ^ (8 - off))
unfolding bits_before
bits_before_table zero c h k = ground arith
bits_before_table (suc zero) c h k = ground arith
bits_before_table (suc (suc zero)) c h k = ground arith
bits_before_table (suc (suc (suc zero))) c h k = ground arith
bits_before_table (suc (suc (suc (suc zero)))) c h k = ground arith
bits_before_table (suc (suc (suc (suc (suc zero))))) c h k = ground arith
bits_before_table (suc (suc (suc (suc (suc (suc zero)))))) c h k = ground arith
bits_before_table (suc (suc (suc (suc (suc (suc (suc zero))))))) c h k = ground arith
bits_before_table (suc (suc (suc (suc (suc (suc (suc (suc off)))))))) c h k = absurd (omega arith)

-- The test of one more byte against a power of 256 that bounds the bytes behind it.
byte_lt : (c p q v : ℕ) → v < p → (c < q) ↔ (c * p + v < q * p)
byte_lt c p q v h = (λ l. grind arith, λ l. grind arith)

pow_256_step : (e k : ℕ) → 256 ^ e * 256 ≤ 256 ^ (suc (k + e))
pow_256_step e zero =
    let p : 256 ^ suc e ≡ 256 ^ e * 256 = pow-suc 256 e in rw (zero-add e) (omega (arith, p))
pow_256_step e (suc k) =
    let p : 256 ^ suc (suc k + e) ≡ 256 ^ (suc k + e) * 256 = pow-suc 256 (suc k + e) in
    let e' : suc k + e ≡ suc (k + e) = omega arith in
    let ih : 256 ^ e * 256 ≤ 256 ^ suc (k + e) = pow_256_step e k in rw p (rw e' (omega arith))

top_bits_le : (off : ℕ) → off < 8 → 2 ^ (8 - off) ≤ 256
top_bits_le zero h = omega arith
top_bits_le (suc zero) h = omega arith
top_bits_le (suc (suc zero)) h = omega arith
top_bits_le (suc (suc (suc zero))) h = omega arith
top_bits_le (suc (suc (suc (suc zero)))) h = omega arith
top_bits_le (suc (suc (suc (suc (suc zero))))) h = omega arith
top_bits_le (suc (suc (suc (suc (suc (suc zero)))))) h = omega arith
top_bits_le (suc (suc (suc (suc (suc (suc (suc zero))))))) h = omega arith
top_bits_le (suc (suc (suc (suc (suc (suc (suc (suc off)))))))) h = absurd (omega arith)

-- A byte other than 0 before the last one that is tested puts the number above the bound.
too_large :
    (c v q e k n : ℕ) → c ≢ 0 → q ≤ 256 → n ≡ suc (k + e) → ¬ (c * 256 ^ n + v < q * 256 ^ e)
too_large c v q e k n nz le en lt =
    let step : 256 ^ e * 256 ≤ 256 ^ n = rw en (pow_256_step e k) in
    let first : 256 ^ n ≤ c * 256 ^ n = times_ge c (256 ^ n) nz in
    let bound : q * 256 ^ e ≤ 256 * 256 ^ e = mul_le q 256 (256 ^ e) le in absurd (omega arith)
  where
    times_ge : (c p : ℕ) → c ≢ 0 → p ≤ c * p
    times_ge zero p h = absurd (h refl)
    times_ge (suc c) p h = grind arith

    mul_le : (a b p : ℕ) → a ≤ b → a * p ≤ b * p
    mul_le a b p h = grind arith

-- Both loops pass exactly when the number is below the bound, from any index on.
loops_iff :
    (h : Bytes) (i k zb off e : ℕ)
    → All (λ b. b < 256) h
    → off < 8
    → zb ≡ i + k
    → k + 1 + e ≡ length h
    → ((zeros_before i zb h ≡ true) × (bits_before 8 0 off (get_or h k 0) ≡ true))
      ↔ (set_bytes h < 2 ^ (8 - off) * 256 ^ e)
unfolding zeros_before
loops_iff [] i k zb off e bs o z n = absurd (omega arith)
loops_iff (c ∷ h) i zero zb off e (b, bs) o z n =
    let len : e ≡ length h = omega arith in
    let table : (bits_before 8 0 off c ≡ true) ↔ (c < 2 ^ (8 - off)) =
      bits_before_table off c o b in
    let value : set_bytes (c ∷ h) ≡ c * 256 ^ length h + set_bytes h = set_bytes-cons c h in
    let one : (c < 2 ^ (8 - off))
        ↔ (c * 256 ^ length h + set_bytes h < 2 ^ (8 - off) * 256 ^ length h) =
      byte_lt c (256 ^ length h) (2 ^ (8 - off)) (set_bytes h) (set_bytes_lt h bs) in
    rw (value, len) (λ p. one.0 (table.0 p.1), λ l. (ground arith, table.1 (one.1 l)))
loops_iff (c ∷ h) i (suc k) zb off e (b, bs) o z n =
    let ih : ((zeros_before (i + 1) zb h ≡ true) × (bits_before 8 0 off (get_or h k 0) ≡ true))
        ↔ (set_bytes h < 2 ^ (8 - off) * 256 ^ e) =
      loops_iff h (i + 1) k zb off e bs o (omega arith) (omega arith) in
    let value : set_bytes (c ∷ h) ≡ c * 256 ^ length h + set_bytes h = set_bytes-cons c h in
    let inside : ltb i zb ≡ true = lt→ltb i zb (omega arith) in
    elim (Bool-cases (c == 0)) [
      | inl is_zero ↦
          let c0 : c ≡ 0 = ground arith in
          let same : set_bytes (c ∷ h) ≡ set_bytes h = rw (value, c0) (omega arith) in
          rw (inside, is_zero, same) ih
      | inr nz ↦
          rw (inside, nz)
            (
              λ p. cc,
              λ l. absurd (
                  too_large c (set_bytes h) (2 ^ (8 - off)) e k (length h) (ground arith)
                    (top_bits_le off o) (omega arith) (rw value at l)),
            )
    ]

pow_bits : (m e : ℕ) → 2 ^ (m + 8 * e) ≡ 2 ^ m * 256 ^ e
pow_bits m zero = let z : m + 8 * 0 ≡ m = omega arith in rw z (omega arith)
pow_bits m (suc e) =
    let ih : 2 ^ (m + 8 * e) ≡ 2 ^ m * 256 ^ e = pow_bits m e in
    let shift : m + 8 * suc e ≡ (m + 8 * e) + 8 = omega arith in
    let up : 2 ^ ((m + 8 * e) + 8) ≡ 256 * 2 ^ (m + 8 * e) = simp towards_suc (omega arith) in
    let p : 256 ^ suc e ≡ 256 ^ e * 256 = pow-suc 256 e in
    rw (shift, up, ih, p) (times_swap (2 ^ m) (256 ^ e))
  where
    times_swap : (a b : ℕ) → 256 * (a * b) ≡ a * (b * 256)
    times_swap a b = omega arith

-- Where the difficulty asks for more bytes than there are, the first loop tests for the number 0.
zeros_before-All :
    (h : Bytes) (i zb : ℕ)
    → All (λ b. b < 256) h
    → i + length h ≤ zb
    → zeros_before i zb h ≡ (set_bytes h == 0)
unfolding zeros_before
zeros_before-All [] i zb bs l = unfold set_bytes in refl
zeros_before-All (c ∷ h) i zb (b, bs) l =
    let ih : zeros_before (i + 1) zb h ≡ (set_bytes h == 0) =
      zeros_before-All h (i + 1) zb bs (omega arith) in
    let value : set_bytes (c ∷ h) ≡ c * 256 ^ length h + set_bytes h = set_bytes-cons c h in
    let inside : ltb i zb ≡ true = lt→ltb i zb (omega arith) in
    let pos_pow : 1 ≤ 256 ^ length h = pow_pos (length h) in
    elim (Bool-cases (c == 0)) [
      | inl is_zero ↦
          let c0 : c ≡ 0 = ground arith in
          let same : set_bytes (c ∷ h) ≡ set_bytes h = rw (value, c0) (omega arith) in
          rw (inside, is_zero, same) ih
      | inr nz ↦
          let big : 1 ≤ c * 256 ^ length h = times_pos c (256 ^ length h) (ground arith) pos_pow in
          rw (inside, nz, value) (ground arith)
    ]
  where
    pow_pos : (n : ℕ) → 1 ≤ 256 ^ n
    pow_pos zero = omega arith
    pow_pos (suc n) = rw (pow-suc 256 n) (omega (arith, pow_pos n))

    times_pos : (c p : ℕ) → c ≢ 0 → 1 ≤ p → 1 ≤ c * p
    times_pos zero p h k = absurd (h refl)
    times_pos (suc c) p h k = grind arith

get_elem?-get_or : (h : Bytes) (k : ℕ) → k < length h → get_elem? h k ≡ some (get_or h k 0)
get_elem?-get_or [] k l = elim l [ ]
get_elem?-get_or (c ∷ h) zero l = refl
get_elem?-get_or (c ∷ h) (suc k) l = get_elem?-get_or h k (omega arith)

get_elem?-none : (h : Bytes) (k : ℕ) → length h ≤ k → get_elem? h k ≡ none
get_elem?-none [] k l = refl
get_elem?-none (c ∷ h) zero l = elim l [ ]
get_elem?-none (c ∷ h) (suc k) l = get_elem?-none h k (omega arith)

check_pow_small :
    (h : Bytes) (d : ℕ)
    → length h ≡ 32
    → All (λ b. b < 256) h
    → d < 256
    → check_pow h d ≡ returns (ltb (set_bytes h) (2 ^ (256 - d)))
unfolding check_pow
check_pow_small h d len bs small =
    let found : get_elem? h (d / 8) ≡ some (get_or h (d / 8) 0) =
      get_elem?-get_or h (d / 8) (omega arith) in
    let bound : 2 ^ (256 - d) ≡ 2 ^ (8 - d % 8) * 256 ^ (31 - d / 8) = split_power in
    let iff : ((zeros_before 0 (d / 8) h ≡ true)
          × (bits_before 8 0 (d % 8) (get_or h (d / 8) 0) ≡ true))
        ↔ (set_bytes h < 2 ^ (8 - d % 8) * 256 ^ (31 - d / 8)) =
      loops_iff h 0 (d / 8) (d / 8) (d % 8) (31 - d / 8) bs (omega arith) (omega arith)
        (omega arith) in
    rw (found, bound)
      (decide_loops (zeros_before 0 (d / 8) h) (bits_before 8 0 (d % 8) (get_or h (d / 8) 0))
        (set_bytes h) (2 ^ (8 - d % 8) * 256 ^ (31 - d / 8)) iff)
  where
    split_power : 2 ^ (256 - d) ≡ 2 ^ (8 - d % 8) * 256 ^ (31 - d / 8)
    split_power =
        let e : 256 - d ≡ (8 - d % 8) + 8 * (31 - d / 8) = omega arith in
        rw e (pow_bits (8 - d % 8) (31 - d / 8))

    decide_loops :
        (z b : Bool) (v n : ℕ)
        → ((z ≡ true) × (b ≡ true)) ↔ (v < n)
        → ◌≡◌ {A = Outcome Bool} (if z then returns b else returns false) (returns (ltb v n))
    decide_loops true true v n iff = rw (lt→ltb v n (iff.0 (refl, refl)))
    decide_loops true false v n iff = elim (Bool-cases (ltb v n)) [
      | inl lt ↦ absurd (false≢true ((iff.1 (ltb→lt v n lt)).1))
      | inr ge ↦ rw ge
    ]
    decide_loops false b v n iff = elim (Bool-cases (ltb v n)) [
      | inl lt ↦ absurd (false≢true ((iff.1 (ltb→lt v n lt)).0))
      | inr ge ↦ rw ge
    ]

check_pow_large :
    (h : Bytes) (d : ℕ)
    → length h ≡ 32
    → All (λ b. b < 256) h
    → 256 ≤ d
    → check_pow h d ≡ (if set_bytes h == 0 then panics else returns false)
unfolding check_pow
check_pow_large h d len bs large =
    let missing : get_elem? h (d / 8) ≡ none = get_elem?-none h (d / 8) (omega arith) in
    let loop : zeros_before 0 (d / 8) h ≡ (set_bytes h == 0) =
      zeros_before-All h 0 (d / 8) bs (omega arith) in
    rw (missing, loop) refl

-- `ValidPoW` on every difficulty, for a hash of 32 bytes. Below 256 it never panics, and accepts
-- exactly the hashes that are, as big-endian numbers, below 2^(256 - difficulty). From 256 on it
-- rejects every hash but 0, at which the index behind the last byte panics.
pub valid_pow_lem :
    (env : Env) (bh : BlockHeader)
    → ShaLaws env
    → valid_pow env bh ≡ (
        let v = set_bytes (header_hash env bh) in
        if ltb bh.difficulty 256
        then returns (ltb v (2 ^ (256 - bh.difficulty)))
        else if v == 0
        then panics
        else returns false)
unfolding valid_pow header_hash
valid_pow_lem env bh laws = elim (Bool-cases (ltb bh.difficulty 256)) [
  | inl small ↦ rw small (
      check_pow_small (header_hash env bh) bh.difficulty (laws.sha_length _) (laws.sha_bytes _)
        (ltb→lt _ _ small))
  | inr large ↦ rw large (
      check_pow_large (header_hash env bh) bh.difficulty (laws.sha_length _) (laws.sha_bytes _)
        (ltb→le _ _ large))
]
