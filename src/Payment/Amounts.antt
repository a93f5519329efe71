-- ===== src/Payment/Amounts.antt =====
-- What `DecryptAmount` gives for the amounts that `RangeCommit` commits to.
use native.Mathlib.Nat.{pow-suc, div-div-eq-div-mul}
use ozcoin.Base.{
  ℕ, zero, suc, ◌+◌, ◌-◌, ◌*◌, ◌/◌, ◌%◌, ◌^◌, ◌<◌, ◌≡◌, ◌≢◌, refl, sym, ap, ◌∙◌, subst, arith, ℤ,
  pos, eq_ℤ, eq_ℤ-sound, ◌&&◌, true, false, List, [], ◌∷◌, map, length, length-map, ltb→lt, ltb→le,
  Bool-cases, inl, inr, int_bytes,
}
use ozcoin.Go.{returns}
use ozcoin.Types.{EccPoint, Point, stored, Output, Commitment, range_proof_length, u64_mod}
use ozcoin.Env.{Env}
use ozcoin.Hash.{deref, neg_y}
use ozcoin.Hash.Group.{GroupLaws, h_log}
use ozcoin.RangeProof.{
  Row, stored_keys, stored_rows, keys_of, masked, sign_non_zero, pks_for_amt, pks_from,
  compute_blinds, blinds_from, range_sign, hash_pks,
}
use ozcoin.RangeProof.Complete.{
  base_of, commit_of, keys_clear, keys_set, keys_of-sign_rows, blinds_from_pos, masked_set,
}
use ozcoin.Ring.{infinity}
use ozcoin.Payment.{range_commit, opens, decrypt_from, decrypt_amount}

stored_pairs : List (Point × Point) → List (EccPoint × EccPoint)
stored_pairs [] = []
stored_pairs ((p, q) ∷ ps) = (stored p, stored q) ∷ stored_pairs ps

pub is_infinity-false : (p : Point) → p ≢ infinity → (eq_ℤ (pos 0) p.x && eq_ℤ (pos 0) p.y) ≡ false
is_infinity-false p apart = elim (Bool-cases (eq_ℤ (pos 0) p.x && eq_ℤ (pos 0) p.y)) [
  | inl here ↦ absurd (
      apart (λ i. record {
        x = sym (eq_ℤ-sound (pos 0) p.x (ground arith)) i;
        y = sym (eq_ℤ-sound (pos 0) p.y (ground arith)) i;
      }))
  | inr away ↦ away
]

two_pow_pos : (n : ℕ) → 0 < 2 ^ n
two_pow_pos zero = omega arith
two_pow_pos (suc n) = rw (pow-suc 2 n) (omega (arith, two_pow_pos n))

pub halved : (amt i : ℕ) → amt / 2 ^ (i + 1) ≡ amt / 2 ^ i / 2
halved amt i =
    let e : 2 ^ (i + 1) ≡ 2 ^ i * 2 = ap (λ n. 2 ^ n) (omega arith) ∙ pow-suc 2 i in
    ap (λ d. amt / d) e ∙ sym (div-div-eq-div-mul amt (2 ^ i) 2)

bit_of : (amt i : ℕ) → (sign_non_zero amt i ≡ true) → amt / 2 ^ i % 2 ≡ 1
unfolding sign_non_zero masked
bit_of amt i e = go (amt / 2 ^ i % 2) (omega arith) refl
  where
    go : (b : ℕ) → b < 2 → amt / 2 ^ i % 2 ≡ b → b ≡ 1
    go zero lt p =
        absurd (omega (arith, ltb→lt 0 (2 ^ i * (amt / 2 ^ i % 2)) e, ap (λ v. 2 ^ i * v) p))
    go (suc zero) lt p = refl
    go (suc (suc b)) lt p = absurd (omega arith)

no_bit_of : (amt i : ℕ) → (sign_non_zero amt i ≡ false) → amt / 2 ^ i % 2 ≡ 0
unfolding sign_non_zero masked
no_bit_of amt i e = go (amt / 2 ^ i % 2) (omega arith) refl
  where
    go : (b : ℕ) → b < 2 → amt / 2 ^ i % 2 ≡ b → b ≡ 0
    go zero lt p = refl
    go (suc zero) lt p = absurd (
        omega (arith, two_pow_pos i, ltb→le 0 (2 ^ i * (amt / 2 ^ i % 2)) e, ap (λ v. 2 ^ i * v) p))
    go (suc (suc b)) lt p = absurd (omega arith)

-- The part of the complement that the bits from `i` on make up, and the bits behind `i`.
left_over : (amt i n : ℕ) → ℕ
left_over amt i n = 2 ^ i * (2 ^ n - 1 - amt / 2 ^ i)

left_over_clear :
    (amt i n : ℕ)
    → amt / 2 ^ i < 2 ^ suc n
    → amt / 2 ^ i % 2 ≡ 0
    → left_over amt i (suc n) ≡ 2 ^ i + left_over amt (i + 1) n
unfolding left_over
left_over_clear amt i n small bit =
    let e : 2 ^ (i + 1) ≡ 2 ^ i * 2 = ap (λ n. 2 ^ n) (omega arith) ∙ pow-suc 2 i in
    rw (halved amt i, e, pow-suc 2 n)
      (shares (2 ^ i) (2 ^ n) (amt / 2 ^ i) (subst (λ m. amt / 2 ^ i < m) (pow-suc 2 n) small) bit)
  where
    shares : (p q a : ℕ) → a < q * 2 → a % 2 ≡ 0 → p * (q * 2 - 1 - a) ≡ p + p * 2 * (q - 1 - a / 2)
    shares p q a lt z =
        let m = a / 2 in
        let x = q - 1 - m in
        let total : q * 2 - 1 - a ≡ suc (2 * x) = omega arith in rw total (grind arith)

left_over_set :
    (amt i n : ℕ)
    → amt / 2 ^ i < 2 ^ suc n
    → amt / 2 ^ i % 2 ≡ 1
    → left_over amt i (suc n) ≡ left_over amt (i + 1) n
unfolding left_over
left_over_set amt i n small bit =
    let e : 2 ^ (i + 1) ≡ 2 ^ i * 2 = ap (λ n. 2 ^ n) (omega arith) ∙ pow-suc 2 i in
    rw (halved amt i, e, pow-suc 2 n)
      (shares (2 ^ i) (2 ^ n) (amt / 2 ^ i) (subst (λ m. amt / 2 ^ i < m) (pow-suc 2 n) small) bit)
  where
    shares : (p q a : ℕ) → a < q * 2 → a % 2 ≡ 1 → p * (q * 2 - 1 - a) ≡ p * 2 * (q - 1 - a / 2)
    shares p q a lt z =
        let m = a / 2 in
        let x = q - 1 - m in
        let total : q * 2 - 1 - a ≡ 2 * x = omega arith in rw total (grind arith)

pub half_small : (amt i n : ℕ) → amt / 2 ^ i < 2 ^ suc n → amt / 2 ^ (i + 1) < 2 ^ n
half_small amt i n small =
    let p : 2 ^ suc n ≡ 2 ^ n * 2 = pow-suc 2 n in omega (arith, halved amt i)

module _ (env : Env) (laws : GroupLaws env.curve) where
  open laws use {at}

  stored_keys-keys_of : (rows : List Row) → stored_keys rows ≡ stored_pairs (keys_of env rows)
  unfolding stored_keys keys_of stored_pairs
  stored_keys-keys_of [] = refl
  stored_keys-keys_of (r ∷ rows) =
      ap (λ ks. (stored r.pk0, stored r.pk1) ∷ ks) (stored_keys-keys_of rows)

  length-blinds_from :
      (target : ℤ) (n i : ℕ) (sum_blind : ℤ) → length (blinds_from env target n i sum_blind) ≡ n
  unfolding blinds_from
  length-blinds_from target zero i sum_blind = refl
  length-blinds_from target (suc n) i sum_blind = ap suc (length-blinds_from target n (i + 1) _)

  opens_at :
      (j b : ℕ)
      → opens env (neg_y (env.curve.scalar_base_mult (int_bytes (pos b)))) (stored (at (j + b)))
        ≡ returns (eq_ℤ (pos 0) (at j).x && eq_ℤ (pos 0) (at j).y)
  unfolding opens deref
  opens_at j b =
      ap (λ (p : Point). returns (eq_ℤ (pos 0) p.x && eq_ℤ (pos 0) p.y))
        (ap (λ q. env.curve.add (at (j + b)) (neg_y q)) (base_of env laws b) ∙ laws.sub_at j b)

  opens_blind :
      (p : Point) (b : ℕ)
      → p ≡ at b
      → opens env (neg_y (env.curve.scalar_base_mult (int_bytes (pos b)))) (stored p) ≡ returns true
  opens_blind p b e =
      let same : p ≡ at (0 + b) = e ∙ ap at (omega arith) in
      ap (λ q. opens env (neg_y (env.curve.scalar_base_mult (int_bytes (pos b)))) (stored q)) same
      ∙ opens_at 0 b
      ∙ ap (λ (q : Point). returns (eq_ℤ (pos 0) q.x && eq_ℤ (pos 0) q.y)) laws.zero_at

  -- The first key of a bit that is set is the blind's multiple with an amount.
  not_opens_set :
      (amt i b : ℕ)
      → at (h_log env laws * 2 ^ i) ≢ infinity
      → sign_non_zero amt i ≡ true
      → opens env
          (neg_y (env.curve.scalar_base_mult (int_bytes (pos b))))
          (stored (pks_for_amt env amt i (pos b)).0)
        ≡ returns false
  unfolding pks_for_amt
  not_opens_set amt i b apart set =
      let same : (pks_for_amt env amt i (pos b)).0 ≡ at (h_log env laws * 2 ^ i + b) =
        commit_of env laws b (masked amt i)
        ∙ ap (λ m. at (b + h_log env laws * m)) (masked_set amt i set)
        ∙ ap at (omega arith) in
      ap (λ q. opens env (neg_y (env.curve.scalar_base_mult (int_bytes (pos b)))) (stored q)) same
      ∙ opens_at (h_log env laws * 2 ^ i) b
      ∙ ap returns (is_infinity-false (at (h_log env laws * 2 ^ i)) apart)

  module _ (i total b : ℕ) (p q : Point) (bs : List ℤ) (pks : List (EccPoint × EccPoint)) where
    first_opens :
        opens env (neg_y (env.curve.scalar_base_mult (int_bytes (pos b)))) (stored p) ≡ returns true
        → decrypt_from env i total (pos b ∷ bs) ((stored p, stored q) ∷ pks)
          ≡ decrypt_from env (i + 1) ((total + 2 ^ i * 1) % u64_mod) bs pks
    unfolding decrypt_from
    first_opens e = rw e refl

    second_opens :
        opens env (neg_y (env.curve.scalar_base_mult (int_bytes (pos b)))) (stored p)
          ≡ returns false
        → opens env (neg_y (env.curve.scalar_base_mult (int_bytes (pos b)))) (stored q)
          ≡ returns true
        → decrypt_from env i total (pos b ∷ bs) ((stored p, stored q) ∷ pks)
          ≡ decrypt_from env (i + 1) ((total + 2 ^ i * 0) % u64_mod) bs pks
    unfolding decrypt_from
    second_opens e f = rw (e, f) refl

  decrypts :
      (amt : ℕ) (ns : List ℕ) (i total : ℕ)
      → ((j : ℕ) → j < i + length ns → at (h_log env laws * 2 ^ j) ≢ infinity)
      → amt / 2 ^ i < 2 ^ length ns
      → total < u64_mod
      → decrypt_from env i total (map pos ns) (stored_pairs (pks_from env amt i (map pos ns)))
        ≡ returns ((total + left_over amt i (length ns)) % u64_mod)
  unfolding decrypt_from pks_from stored_pairs left_over
  decrypts amt [] i total apart small lt =
      ap returns (none_left total (amt / 2 ^ i) (2 ^ i) small lt)
    where
      none_left : (t a p : ℕ) → a < 1 → t < u64_mod → t ≡ (t + p * (2 ^ 0 - 1 - a)) % u64_mod
      none_left t a p z lt = let gone : 2 ^ 0 - 1 - a ≡ 0 = omega arith in rw gone (omega arith)
  decrypts amt (b ∷ ns) i total apart small lt =
      let keys = pks_for_amt env amt i (pos b) in
      let rest = stored_pairs (pks_from env amt (i + 1) (map pos ns)) in
      let later : (t : ℕ)
          → t < u64_mod
          → decrypt_from env (i + 1) t (map pos ns) rest
            ≡ returns ((t + left_over amt (i + 1) (length ns)) % u64_mod) =
        λ t lt.
          decrypts amt ns (i + 1) t (λ j below. apart j (omega arith))
            (half_small amt i (length ns) small) lt in
      elim (Bool-cases (sign_non_zero amt i)) [
        | inl set ↦
            second_opens i total b keys.0 keys.1 (map pos ns) rest
              (not_opens_set amt i b (apart i (omega arith)) set)
              (opens_blind keys.1 b (keys_set env laws amt i b set))
            ∙ later ((total + 2 ^ i * 0) % u64_mod) (omega arith)
            ∙ ap returns (
                sums_set total (2 ^ i) _ _
                  (left_over_set amt i (length ns) small (bit_of amt i set)))
        | inr clear ↦
            first_opens i total b keys.0 keys.1 (map pos ns) rest
              (opens_blind keys.0 b (keys_clear env laws amt i b clear))
            ∙ later ((total + 2 ^ i * 1) % u64_mod) (omega arith)
            ∙ ap returns (
                sums_clear total (2 ^ i) _ _
                  (left_over_clear amt i (length ns) small (no_bit_of amt i clear)))
      ]
    where
      sums_set : (t p l r : ℕ) → l ≡ r → ((t + p * 0) % u64_mod + r) % u64_mod ≡ (t + l) % u64_mod
      sums_set t p l r e = omega arith

      sums_clear :
          (t p l r : ℕ) → l ≡ p + r → ((t + p * 1) % u64_mod + r) % u64_mod ≡ (t + l) % u64_mod
      sums_clear t p l r e = omega arith

  -- Of an output whose commitment `RangeCommit` made for an amount below 2^34, `DecryptAmount` with
  -- its blinding factor gives the complement of the amount, 2^34 - 1 minus the amount; with points
  -- that obey the laws of a group, in which the amount of no bit is the point at infinity.
  pub decrypted_complement :
      (amt : ℕ) (target : ℤ) (k s : ℕ → ℕ) (o : Output)
      → ((j : ℕ) → j < 34 → at (h_log env laws * 2 ^ j) ≢ infinity)
      → amt < 2 ^ 34
      → o.commit ≡ range_commit env amt target k s
      → decrypt_amount env o target ≡ returns (2 ^ 34 - 1 - amt)
  unfolding decrypt_amount range_commit range_sign stored_rows compute_blinds left_over
  decrypted_complement amt target k s o apart small made =
      let (ns, blinds) = blinds_from_pos env laws target range_proof_length 0 (pos 0) in
      let len : length ns ≡ 34 =
        sym (length-map ns pos) ∙ ap length (sym blinds) ∙ length-blinds_from target 34 0 (pos 0) in
      let signed = range_sign env amt k s target in
      let keys : stored_keys signed.1 ≡ stored_pairs (pks_from env amt 0 (map pos ns)) =
        stored_keys-keys_of signed.1
        ∙ ap stored_pairs (
            keys_of-sign_rows env laws amt k s
              (hash_pks env (pks_from env amt 0 (compute_blinds env target))) signed.0
              (compute_blinds env target) 0
            ∙ ap (pks_from env amt 0) blinds) in
      ap (λ (c : Commitment). decrypt_from env 0 0 (compute_blinds env target) c.range_proof.pks)
        made
      ∙ ap (λ bs. decrypt_from env 0 0 bs (stored_keys signed.1)) blinds
      ∙ ap (decrypt_from env 0 0 (map pos ns)) keys
      ∙ decrypts amt ns 0 0 (λ j below. apart j (omega (arith, len)))
          (subst (λ n. amt / 2 ^ 0 < 2 ^ n) (sym len) (omega arith)) (omega arith)
      ∙ ap (λ n. returns ((0 + left_over amt 0 n) % u64_mod)) len
      ∙ ap returns (whole amt small)
    where
      whole :
          (a : ℕ) → a < 2 ^ 34 → (0 + 2 ^ 0 * (2 ^ 34 - 1 - a / 2 ^ 0)) % u64_mod ≡ 2 ^ 34 - 1 - a
      whole a lt = omega arith
