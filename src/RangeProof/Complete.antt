-- ===== src/RangeProof/Complete.antt =====
-- Range proofs that `RangeSign` makes pass `Verify`.
use ozcoin.Base.{
  ℕ, zero, suc, subst, ◌-◌, ◌+◌, ◌*◌, ◌/◌, ◌%◌, ◌^◌, ◌≡◌, refl, sym, ap, ◌∙◌, ◌⊎◌, inl, inr, arith,
  ℤ, pos, negsuc, ◌+ℤ◌, ◌-ℤ◌, ◌*ℤ◌, mod_ℤ, int_bytes, set_bytes, set_bytes-int_bytes, Bool, true,
  false, Bool-cases, List, [], ◌∷◌, ◌++◌, map, ◌==◌, if◌then◌else◌, bytes_eq, bytes_eq_refl,
}
use ozcoin.Go.{returns}
use ozcoin.Go.Read.{◌>>=◌}
use ozcoin.Types.{Sha256Sum, Point, range_proof_length}
use ozcoin.Env.{Env}
use ozcoin.Hash.{point_bytes, deref, sum_int, hash, hash_pt, pedersen_sum, uint_bytes}
use ozcoin.Hash.Group.{GroupLaws, h_log, pedersen_sum_at, pedersen_diff_at}
use ozcoin.RangeProof.{
  Row, deref_int, open_rows, stored_scalars, stored_keys, stored_rows, masked, sign_non_zero,
  time_travel, compute_r, compute_e, hash_pks, ring_bytes, keys_of, verify_rows, verify,
  blinds_from, compute_blinds, pks_for_amt, pks_from, forward_point, forward_bytes, sign_row,
  sign_rows, range_sign,
}

mod_ℤ_pos : (z : ℤ) (n : ℕ) → (m : ℕ) × (mod_ℤ z n ≡ pos m)
unfolding mod_ℤ
mod_ℤ_pos (pos a) n = (_, refl)
mod_ℤ_pos (negsuc a) n = (_, refl)

pub masked_set : (amt i : ℕ) → sign_non_zero amt i ≡ true → masked amt i ≡ 2 ^ i
unfolding sign_non_zero masked
masked_set amt i h = elim (bit (amt / 2 ^ i)) [
  | inl z ↦ let none_set : masked amt i ≡ 0 = rw (masked, z) (omega arith) in ground arith
  | inr o ↦ rw (masked, o) (omega arith)
]
  where
    bit : (n : ℕ) → (n % 2 ≡ 0) ⊎ (n % 2 ≡ 1)
    bit n = ground arith

masked_clear : (amt i : ℕ) → sign_non_zero amt i ≡ false → masked amt i ≡ 0
unfolding sign_non_zero
masked_clear amt i h = ground arith

open_rows-stored :
    (rows : List Row) → open_rows (stored_scalars rows) (stored_keys rows) ≡ returns rows
unfolding open_rows stored_scalars stored_keys deref deref_int
open_rows-stored [] = refl
open_rows-stored (r ∷ rows) = rw (open_rows-stored rows)

module _ (env : Env) (laws : GroupLaws env.curve) where
  open laws use {at}

  -- What `timeTravel` closes: the point that was drawn comes back.
  pub compute_r-time_travel :
      (b k : ℕ) (e : Sha256Sum) → compute_r env (time_travel (pos b) (pos k) e) e (at b) ≡ at k
  unfolding compute_r time_travel sum_int ◌+ℤ◌ ◌*ℤ◌
  compute_r-time_travel b k e =
      pedersen_diff_at env laws (int_bytes (pos (set_bytes e * b + k))) e b k
        (set_bytes-int_bytes (pos (set_bytes e * b + k)) ∙ grind arith)

  pub base_of : (k : ℕ) → env.curve.scalar_base_mult (int_bytes (pos k)) ≡ at k
  base_of k = laws.base_at (int_bytes (pos k)) ∙ ap at (set_bytes-int_bytes (pos k))

  pub commit_of :
      (b m : ℕ) → pedersen_sum env (int_bytes (pos b)) (uint_bytes m) ≡ at (b + h_log env laws * m)
  unfolding uint_bytes
  commit_of b m =
      pedersen_sum_at env laws (int_bytes (pos b)) (int_bytes (pos m))
      ∙ rw (set_bytes-int_bytes (pos b), set_bytes-int_bytes (pos m))

  pub commit_of_zero :
      (m : ℕ) → pedersen_sum env (int_bytes (pos 0)) (uint_bytes m) ≡ at (h_log env laws * m)
  commit_of_zero m = commit_of 0 m ∙ ap at (omega arith)

  -- Of the two keys of a bit, the one that the signer has to sign for is the blind's multiple of
  -- the generator.
  pub keys_clear :
      (amt i b : ℕ) → sign_non_zero amt i ≡ false → (pks_for_amt env amt i (pos b)).0 ≡ at b
  unfolding pks_for_amt
  keys_clear amt i b h =
      commit_of b (masked amt i)
      ∙ ap (λ m. at (b + h_log env laws * m)) (masked_clear amt i h)
      ∙ ap at (omega arith)

  pub keys_set :
      (amt i b : ℕ) → sign_non_zero amt i ≡ true → (pks_for_amt env amt i (pos b)).1 ≡ at b
  unfolding pks_for_amt
  keys_set amt i b h =
      rw (commit_of b (masked amt i), commit_of_zero (2 ^ i), masked_set amt i h)
        (laws.sub_at b (h_log env laws * 2 ^ i))

  module _ (amt : ℕ) (k s : ℕ → ℕ) (hash_m e : Sha256Sum) where
    -- What `Verify` computes from the row of a bit is what `RangeSign` hashed for it.
    row_closes :
        (i b : ℕ)
        → let pks = pks_for_amt env amt i (pos b) in
          let r = sign_row env amt k s hash_m e i (pos b) pks in
          compute_r env r.s1 (compute_e env hash_m r.s0 e r.pk0) r.pk1
          ≡ forward_point env amt k s hash_m i pks.1
    unfolding sign_row forward_point
    row_closes i b = elim (Bool-cases (sign_non_zero amt i)) [
      | inl set ↦
          let e1 = compute_e env hash_m (pos (s i)) e (pks_for_amt env amt i (pos b)).0 in
          rw (set, base_of (k i))
            (ap (compute_r env (time_travel (pos b) (pos (k i)) e1) e1) (keys_set amt i b set)
              ∙ compute_r-time_travel b (k i) e1)
      | inr clear ↦
          rw (clear, base_of (k i))
            (ap
              (λ q.
                compute_r env (pos (s i)) (hash_pt env hash_m q) (pks_for_amt env amt i (pos b)).1)
              (ap (compute_r env (time_travel (pos b) (pos (k i)) e) e) (keys_clear amt i b clear)
                ∙ compute_r-time_travel b (k i) e))
    ]

    ring_bytes-sign_rows :
        (ns : List ℕ) (i : ℕ)
        → let pks = pks_from env amt i (map pos ns) in
          ring_bytes env hash_m e (sign_rows env amt k s hash_m e i (map pos ns) pks)
          ≡ forward_bytes env amt k s hash_m i pks
    unfolding pks_from ring_bytes sign_rows forward_bytes
    ring_bytes-sign_rows [] i = refl
    ring_bytes-sign_rows (n ∷ ns) i =
        let pks = pks_from env amt (i + 1) (map pos ns) in
        ap
          (λ r.
            point_bytes r
            ++ ring_bytes env hash_m e (sign_rows env amt k s hash_m e (i + 1) (map pos ns) pks))
          (row_closes i n)
        ∙ ap
            (λ r.
              point_bytes (forward_point env amt k s hash_m i (pks_for_amt env amt i (pos n)).1)
              ++ r)
            (ring_bytes-sign_rows ns (i + 1))

    sign_row_keys :
        (i : ℕ) (b : ℤ) (p q : Point)
        → let r = sign_row env amt k s hash_m e i b (p, q) in
          ◌≡◌ {A = Point × Point} (r.pk0, r.pk1) (p, q)
    unfolding sign_row
    sign_row_keys i b p q = elim (Bool-cases (sign_non_zero amt i)) [
      | inl set ↦ rw set
      | inr clear ↦ rw clear
    ]

    pub keys_of-sign_rows :
        (bs : List ℤ) (i : ℕ)
        → let pks = pks_from env amt i bs in
          keys_of env (sign_rows env amt k s hash_m e i bs pks) ≡ pks
    unfolding pks_from keys_of sign_rows
    keys_of-sign_rows [] i = refl
    keys_of-sign_rows (b ∷ bs) i =
        let pks = pks_from env amt (i + 1) bs in
        let (p, q) = pks_for_amt env amt i b in
        ap (λ pq. pq ∷ keys_of env (sign_rows env amt k s hash_m e (i + 1) bs pks))
          (sign_row_keys i b p q)
        ∙ ap (λ r. pks_for_amt env amt i b ∷ r) (keys_of-sign_rows bs (i + 1))

  pub blinds_from_pos :
      (target : ℤ) (n i : ℕ) (sum_blind : ℤ)
      → (ns : List ℕ) × (blinds_from env target n i sum_blind ≡ map pos ns)
  unfolding blinds_from sum_int
  blinds_from_pos target zero i sum_blind = ([], refl)
  blinds_from_pos target (suc n) i sum_blind =
      let r : ℤ = if i == 0 then target else pos 0 in
      let hashed = sum_int (hash env (int_bytes r)) in
      let last = mod_ℤ (target -ℤ sum_blind) env.curve.order in
      let blind = if i == range_proof_length - 1 then last else hashed in
      let (m, e) =
        either_pos (i == range_proof_length - 1) (target -ℤ sum_blind) env.curve.order
          (set_bytes (hash env (int_bytes r))) in
      let (ns, e') = blinds_from_pos target n (i + 1) (sum_blind +ℤ blind) in
      (
        m ∷ ns,
        ap (λ z. z ∷ blinds_from env target n (i + 1) (sum_blind +ℤ blind)) e
            ∙ ap (λ zs. pos m ∷ zs) e',
      )
    where
      either_pos :
          (c : Bool) (z : ℤ) (n h : ℕ) → (m : ℕ) × ((if c then mod_ℤ z n else pos h) ≡ pos m)
      either_pos true z n h = mod_ℤ_pos z n
      either_pos false z n h = (h, refl)

  -- With blinds that are not negative the hash goes round.
  signed_closes :
      (amt : ℕ) (k s : ℕ → ℕ) (ns : List ℕ)
      → let pks = pks_from env amt 0 (map pos ns) in
        let hash_m = hash_pks env pks in
        let e = env.sha256 (hash_m ++ forward_bytes env amt k s hash_m 0 pks) in
        verify_rows env e (sign_rows env amt k s hash_m e 0 (map pos ns) pks) ≡ true
  unfolding verify_rows hash
  signed_closes amt k s ns =
      let pks = pks_from env amt 0 (map pos ns) in
      let hash_m = hash_pks env pks in
      let e = env.sha256 (hash_m ++ forward_bytes env amt k s hash_m 0 pks) in
      let rows = sign_rows env amt k s hash_m e 0 (map pos ns) pks in
      ap
        (λ keys.
          bytes_eq e (env.sha256 (hash_pks env keys ++ ring_bytes env (hash_pks env keys) e rows)))
        (keys_of-sign_rows amt k s hash_m e (map pos ns) 0)
      ∙ ap (λ r. bytes_eq e (env.sha256 (hash_m ++ r))) (ring_bytes-sign_rows amt k s hash_m e ns 0)
      ∙ bytes_eq_refl e

  verify-stored_rows :
      (e : Sha256Sum) (rows : List Row)
      → verify env (stored_rows e rows) ≡ returns (verify_rows env e rows)
  unfolding verify stored_rows
  verify-stored_rows e rows =
      ap (λ m. m >>= λ rows. returns (verify_rows env e rows)) (open_rows-stored rows)

  -- On points that obey the laws of a group, a range proof that `RangeSign` makes passes `Verify`,
  -- for every amount, blinding factor and random draws.
  pub verify-range_sign :
      (amt : ℕ) (k s : ℕ → ℕ) (target : ℤ)
      → let signed = range_sign env amt k s target in
        verify env (stored_rows signed.0 signed.1) ≡ returns true
  unfolding range_sign compute_blinds
  verify-range_sign amt k s target =
      let (ns, blinds) = blinds_from_pos target range_proof_length 0 (pos 0) in
      let signed = range_sign env amt k s target in
      let closes : verify_rows env signed.0 signed.1 ≡ true =
        subst
          (λ (bs : List ℤ).
            let pks = pks_from env amt 0 bs in
            let hash_m = hash_pks env pks in
            let e = env.sha256 (hash_m ++ forward_bytes env amt k s hash_m 0 pks) in
            verify_rows env e (sign_rows env amt k s hash_m e 0 bs pks) ≡ true)
          (sym blinds) (signed_closes amt k s ns) in
      verify-stored_rows signed.0 signed.1 ∙ ap returns closes
