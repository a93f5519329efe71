-- ===== src/Ring/Complete.antt =====
-- Ring signatures that `OZRSSign` makes pass `VerifyOZRS`.
use ozcoin.Base.{
  ℕ, zero, suc, ◌+◌, ◌*◌, ◌<◌, ◌≡◌, refl, sym, ap, ◌∙◌, arith, ℤ, pos, ◌-ℤ◌, ◌+ℤ◌, ◌*ℤ◌, mod_ℤ,
  int_bytes, set_bytes, set_bytes-int_bytes, true, some, List, ◌++◌, bytes_eq_refl,
}
use ozcoin.Go.{returns, returns-injective}
use ozcoin.Go.Read.{◌>>=◌, >>=-eq-returns}
use ozcoin.Types.{Sha256Sum, Point, Txn, Ozrs}
use ozcoin.Env.{Env}
use ozcoin.Hash.{point_bytes, deref, sum_int, hash, hash_to_pt, pedersen_diff_pk2}
use ozcoin.Hash.Group.{GroupLaws}
use ozcoin.RangeProof.{deref_int, time_travel, compute_r}
use ozcoin.RangeProof.Complete.{compute_r-time_travel}
use ozcoin.Ring.{
  ring_rows, deref_all, commits_of, update, tabulate, preimage, compute_r2, compute_e3,
  commit_differences, ring_hash, verify_ozrs, forward, ring_sign,
}

module _ (env : Env) (laws : GroupLaws env.curve) where
  open laws use {at}

  -- What `timeTravel` closes over the base of a preimage.
  compute_r2-time_travel :
      (h sk k : ℕ) (e : Sha256Sum)
      → compute_r2 env (time_travel (pos sk) (pos k) e) e (at h) (at (h * sk)) ≡ at (h * k)
  unfolding compute_r2 pedersen_diff_pk2 time_travel sum_int ◌+ℤ◌ ◌*ℤ◌
  compute_r2-time_travel h sk k e =
      let s = set_bytes e * sk + k in
      let value : h * set_bytes (int_bytes (pos s)) ≡ h * k + h * sk * set_bytes e =
        ap (λ v. h * v) (set_bytes-int_bytes (pos s)) ∙ grind arith in
      rw (
        pedersen_diff_pk2,
        laws.mult_at h (int_bytes (pos s)),
        laws.mult_at (h * sk) e,
        value,
        laws.sub_at (h * k) (h * sk * set_bytes e),
      )

  preimage_at :
      (p : Point) (k : ℕ)
      → preimage env p (some (pos k)) ≡ at (set_bytes (hash env (point_bytes p)) * k)
  unfolding preimage hash_to_pt
  preimage_at p k = rw (
    preimage,
    hash_to_pt,
    laws.base_at (hash env (point_bytes p)),
    laws.mult_at (set_bytes (hash env (point_bytes p))) (int_bytes (pos k)),
    set_bytes-int_bytes (pos k),
  )

  module _ (hash_m : Sha256Sum) (pk d : Point) (sk z k1 k2 : ℕ) where
    -- The row of the signer leads from any hash to the one with which it began.
    row_closes :
        (e : Sha256Sum)
        → pk ≡ at sk
        → d ≡ at z
        → compute_e3 env hash_m
            (time_travel (pos z) (pos k1) e)
            (time_travel (pos sk) (pos k2) (hash env e))
            e
            d
            pk
            (preimage env pk (some (pos sk)))
          ≡ hash env (
              hash_m
              ++ (point_bytes (env.curve.scalar_base_mult (int_bytes (pos k1)))
                  ++ (point_bytes (env.curve.scalar_base_mult (int_bytes (pos k2)))
                      ++ point_bytes (preimage env pk (some (pos k2))))))
    unfolding compute_e3 preimage hash_to_pt
    row_closes e key diff =
        let h = set_bytes (hash env (point_bytes pk)) in
        let base_of : (k : ℕ) → env.curve.scalar_base_mult (int_bytes (pos k)) ≡ at k =
          λ k. laws.base_at (int_bytes (pos k)) ∙ ap at (set_bytes-int_bytes (pos k)) in
        let r1 : compute_r env (time_travel (pos z) (pos k1) e) e d
            ≡ env.curve.scalar_base_mult (int_bytes (pos k1)) =
          ap (compute_r env (time_travel (pos z) (pos k1) e) e) diff
          ∙ compute_r-time_travel env laws z k1 e
          ∙ sym (base_of k1) in
        let e2 = hash env e in
        let r2 : compute_r env (time_travel (pos sk) (pos k2) e2) e2 pk
            ≡ env.curve.scalar_base_mult (int_bytes (pos k2)) =
          ap (compute_r env (time_travel (pos sk) (pos k2) e2) e2) key
          ∙ compute_r-time_travel env laws sk k2 e2
          ∙ sym (base_of k2) in
        let r3 : compute_r2 env (time_travel (pos sk) (pos k2) e2) e2
              (hash_to_pt env (point_bytes pk)) (preimage env pk (some (pos sk)))
            ≡ preimage env pk (some (pos k2)) =
          ap
            (λ b.
              compute_r2 env (time_travel (pos sk) (pos k2) e2) e2 b
                (preimage env pk (some (pos sk))))
            (laws.base_at (hash env (point_bytes pk)))
          ∙ ap (compute_r2 env (time_travel (pos sk) (pos k2) e2) e2 (at h)) (preimage_at pk sk)
          ∙ compute_r2-time_travel h sk k2 e2
          ∙ sym (preimage_at pk k2) in
        λ i. hash env (hash_m ++ (point_bytes (r1 i) ++ (point_bytes (r2 i) ++ point_bytes (r3 i))))

  module _ (hash_m : Sha256Sum) (pk d : ℕ → Point) (sk z k1 k2 : ℕ) (yi y_out : ℤ)
      (r s : ℕ → ℕ) where
    abbrev sig_at : ℕ → Ozrs
    sig_at idx = ring_sign env (pos sk) yi y_out k1 k2 r s hash_m d pk idx

    -- The hash goes round the ring that was signed at `idx`, and comes back to where it began.
    ring_closes :
        (idx : ℕ)
        → idx < 8
        → pk idx ≡ at sk
        → d idx ≡ at z
        → mod_ℤ (yi -ℤ y_out) env.curve.order ≡ pos z
        → (ring_rows 8 (sig_at idx).rs (sig_at idx).ss (tabulate 8 0 d) (tabulate 8 0 pk)
            >>= λ rows.
                returns (
                  ring_hash env hash_m (preimage env (pk idx) (some (pos sk))) (sig_at idx).e rows))
          ≡ returns (sig_at idx).e
    unfolding ring_sign forward update tabulate ring_rows deref_int ring_hash
    ring_closes zero lt key diff zeq =
        rw zeq (simp (λ (e : Sha256Sum). row_closes hash_m (pk 0) (d 0) sk z k1 k2 e key diff))
    ring_closes (suc zero) lt key diff zeq =
        rw zeq (simp (λ (e : Sha256Sum). row_closes hash_m (pk 1) (d 1) sk z k1 k2 e key diff))
    ring_closes (suc (suc zero)) lt key diff zeq =
        rw zeq (simp (λ (e : Sha256Sum). row_closes hash_m (pk 2) (d 2) sk z k1 k2 e key diff))
    ring_closes (suc (suc (suc zero))) lt key diff zeq =
        rw zeq (simp (λ (e : Sha256Sum). row_closes hash_m (pk 3) (d 3) sk z k1 k2 e key diff))
    ring_closes (suc (suc (suc (suc zero)))) lt key diff zeq =
        rw zeq (simp (λ (e : Sha256Sum). row_closes hash_m (pk 4) (d 4) sk z k1 k2 e key diff))
    ring_closes (suc (suc (suc (suc (suc zero))))) lt key diff zeq =
        rw zeq (simp (λ (e : Sha256Sum). row_closes hash_m (pk 5) (d 5) sk z k1 k2 e key diff))
    ring_closes (suc (suc (suc (suc (suc (suc zero)))))) lt key diff zeq =
        rw zeq (simp (λ (e : Sha256Sum). row_closes hash_m (pk 6) (d 6) sk z k1 k2 e key diff))
    ring_closes (suc (suc (suc (suc (suc (suc (suc zero))))))) lt key diff zeq =
        rw zeq (simp (λ (e : Sha256Sum). row_closes hash_m (pk 7) (d 7) sk z k1 k2 e key diff))
    ring_closes (suc (suc (suc (suc (suc (suc (suc (suc n)))))))) lt key diff zeq =
        absurd (omega arith)

  verify_ozrs_of_ring :
      (t : Txn) (pks ics outs ds : List Point) (pimg : Point)
      → deref_all (commits_of t.body.outputs) ≡ returns outs
      → commit_differences env outs t.body.fee ics ≡ ds
      → deref t.sig.preimage ≡ returns pimg
      → (ring_rows 8 t.sig.rs t.sig.ss ds pks >>= λ rows.
          returns (ring_hash env (hash env (env.body_json.encode t.body)) pimg t.sig.e rows))
        ≡ returns t.sig.e
      → verify_ozrs env t pks ics ≡ returns true
  unfolding verify_ozrs
  verify_ozrs_of_ring t pks ics outs ds pimg opened diffs there closes =
      let (rows, e1, e2) = >>=-eq-returns (ring_rows 8 t.sig.rs t.sig.ss ds pks) _ closes in
      rw (opened, diffs, there, e1, returns-injective e2, bytes_eq_refl t.sig.e)

  deref-ring_sign :
      (hash_m : Sha256Sum) (pk d : ℕ → Point) (sk : ℤ) (k1 k2 : ℕ) (yi y_out : ℤ) (r s : ℕ → ℕ)
      (idx : ℕ)
      → deref (ring_sign env sk yi y_out k1 k2 r s hash_m d pk idx).preimage
        ≡ returns (preimage env (pk idx) (some sk))
  unfolding ring_sign deref
  deref-ring_sign hash_m pk d sk k1 k2 yi y_out r s idx = refl

  -- On points that obey the laws of a group, a signature that `OZRSSign` makes for a txn with the
  -- ring of 8 keys passes `VerifyOZRS`, whatever it draws, if the secret key is that of the key at
  -- the signer's index, and the commitment difference there is the multiple of the generator by the
  -- difference of the blinding factors.
  pub verify_ozrs-ring_sign :
      (t : Txn) (outs ics : List Point) (pk d : ℕ → Point) (sk z k1 k2 : ℕ) (yi y_out : ℤ)
      (r s : ℕ → ℕ) (idx : ℕ)
      → deref_all (commits_of t.body.outputs) ≡ returns outs
      → commit_differences env outs t.body.fee ics ≡ tabulate 8 0 d
      → idx < 8
      → pk idx ≡ at sk
      → d idx ≡ at z
      → mod_ℤ (yi -ℤ y_out) env.curve.order ≡ pos z
      → let hash_m = hash env (env.body_json.encode t.body) in
        verify_ozrs env
          (record t { sig = ring_sign env (pos sk) yi y_out k1 k2 r s hash_m d pk idx })
          (tabulate 8 0 pk)
          ics
        ≡ returns true
  verify_ozrs-ring_sign t outs ics pk d sk z k1 k2 yi y_out r s idx opened diffs lt key diff zeq =
      let hash_m = hash env (env.body_json.encode t.body) in
      verify_ozrs_of_ring
        (record t { sig = ring_sign env (pos sk) yi y_out k1 k2 r s hash_m d pk idx })
        (tabulate 8 0 pk) ics outs (tabulate 8 0 d) (preimage env (pk idx) (some (pos sk))) opened
        diffs (deref-ring_sign hash_m pk d (pos sk) k1 k2 yi y_out r s idx)
        (ring_closes hash_m pk d sk z k1 k2 yi y_out r s idx lt key diff zeq)
