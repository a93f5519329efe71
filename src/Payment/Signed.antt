-- ===== src/Payment/Signed.antt =====
-- The txns that `NewTxn` makes pass the signature checks of `VerifyTxn`.
use ozcoin.Base.{
  ℕ, zero, suc, ◌+◌, ◌*◌, ◌%◌, ◌^◌, ◌<◌, ◌≤◌, ◌≡◌, refl, sym, ap, ◌∙◌, subst, arith, ℤ, pos, ◌+ℤ◌,
  mod_ℤ, true, false, some, List, [], ◌∷◌, map, length, All, get_or, ltb, le→ltb, lt→ltb, int_bytes,
  mod_difference, add_same, set_bytes, length-map,
}
use native.Mathlib.Nat.{mod-add-mod}
use ozcoin.Go.{Outcome, returns, returns-injective}
use ozcoin.Go.Read
use ozcoin.Types.{EccPoint, Point, stored, Output, Txn, TxnBody, WalletPublicKey}
use ozcoin.Env.{Env}
use ozcoin.Hash.{deref, sum_int, hash, point_bytes, neg_y, pedersen_sum, uint_bytes, output_hash}
use ozcoin.Hash.Group.{GroupLaws, OrderLaws, h_log, at_same}
use ozcoin.RangeProof.{verify}
use ozcoin.RangeProof.Complete.{commit_of_zero, verify-range_sign}
use ozcoin.Ring.{
  infinity, sum_points, commits_of, deref_all, commit_differences, ring_sign, tabulate, verify_ozrs,
}
use ozcoin.Ring.Complete.{verify_ozrs-ring_sign}
use ozcoin.Txn.{dest_keys, verify_proofs, verify_signatures}
use ozcoin.Payment.{
  Draws, range_commit, build_output, build_from, build_outputs, new_txn, new_txn_of,
}
use ozcoin.Payment.Commits.{add_up, range_commit_at}

-- A recipient whose two points are there.
abbrev pub HasKeys : WalletPublicKey → Type 0
HasKeys w = (p : Point) × (q : Point) × (w ≡ record { tpk = stored p; ppk = stored q })

-- A list of 8 as an array.
tabulate-shift :
    {A : Type 0} (n i : ℕ) (f : ℕ → A) → tabulate n (suc i) f ≡ tabulate n i (λ j. f (suc j))
unfolding tabulate
tabulate-shift zero i f = refl
tabulate-shift (suc n) i f =
    ap (λ j. f (suc i) ∷ tabulate n j f) (omega arith)
    ∙ ap (λ l. f (suc i) ∷ l) (tabulate-shift n (i + 1) f)

tabulate-get_or :
    {A : Type 0} (xs : List A) (d : A) → tabulate (length xs) 0 (λ i. get_or xs i d) ≡ xs
unfolding tabulate
tabulate-get_or [] d = refl
tabulate-get_or (x ∷ xs) d =
    ap (λ l. x ∷ l) (tabulate-shift (length xs) 0 (λ i. get_or (x ∷ xs) i d) ∙ tabulate-get_or xs d)

get_or-map :
    {A B : Type 0} (f : A → B) (xs : List A) (i : ℕ) (d : A) (d' : B)
    → i < length xs
    → get_or (map f xs) i d' ≡ f (get_or xs i d)
get_or-map f [] i d d' lt = absurd (omega arith)
get_or-map f (x ∷ xs) zero d d' lt = refl
get_or-map f (x ∷ xs) (suc i) d d' lt = get_or-map f xs i d d' (omega arith)

deref_all_stored :
    (e : EccPoint) (p : Point) (es : List EccPoint) (ps : List Point)
    → e ≡ stored p
    → deref_all es ≡ returns ps
    → deref_all (e ∷ es) ≡ returns (p ∷ ps)
unfolding deref_all deref
deref_all_stored e p es ps same opened = ap (λ u. deref_all (u ∷ es)) same ∙ rw opened refl

length-deref_all :
    (es : List EccPoint) (ps : List Point) → deref_all es ≡ returns ps → length ps ≡ length es
unfolding deref_all
length-deref_all [] ps e = ap length (sym (returns-injective e))
length-deref_all (p ∷ es) ps e =
    let (q, _, e1) = Read.>>=-eq-returns (deref p) _ e in
    let (qs, opened, e2) = Read.>>=-eq-returns (deref_all es) _ e1 in
    ap length (sym (returns-injective e2)) ∙ ap suc (length-deref_all es qs opened)

length-dest_keys : (os : List Output) → length (dest_keys os) ≡ length os
unfolding dest_keys
length-dest_keys [] = refl
length-dest_keys (o ∷ os) = ap suc (length-dest_keys os)

length-commits_of : (os : List Output) → length (commits_of os) ≡ length os
unfolding commits_of
length-commits_of [] = refl
length-commits_of (o ∷ os) = ap suc (length-commits_of os)

tabulate_eight : (xs : List Point) → length xs ≡ 8 → tabulate 8 0 (λ i. get_or xs i infinity) ≡ xs
tabulate_eight xs e =
    subst (λ n. tabulate n 0 (λ i. get_or xs i infinity) ≡ xs) e (tabulate-get_or xs infinity)

-- What `BuildOutputs` makes for a recipient with the points `p` and `q`.
module _ (env : Env) where
  unfoldable pub blind_for : Point → Draws → ℕ
  blind_for q d = set_bytes (hash env (point_bytes (env.curve.scalar_mult q d.q)))

  unfoldable pub output_for : ℕ → Point → Point → Draws → Output
  output_for amt p q d = record {
    public_key = stored (env.curve.scalar_base_mult d.r);
    dest_key = stored (
        env.curve.add
          (env.curve.scalar_base_mult (hash env (point_bytes (env.curve.scalar_mult p d.r)))) q);
    blind_seed = stored (env.curve.scalar_base_mult d.q);
    commit = range_commit env amt (pos (blind_for q d)) d.k d.s;
  }

  pub build_output-for :
      (amt : ℕ) (p q : Point) (w : WalletPublicKey) (d : Draws)
      → w ≡ record { tpk = stored p; ppk = stored q }
      → build_output env amt w d ≡ returns (output_for amt p q d, pos (blind_for q d))
  unfolding build_output deref sum_int output_for blind_for
  build_output-for amt p q w d e = ap (λ u. build_output env amt u d) e

module _ (env : Env) (laws : GroupLaws env.curve) (order : OrderLaws env.curve laws) where
  open laws use {at}

  range_commit_verifies :
      (amt blind : ℕ) (d : Draws)
      → verify env (range_commit env amt (pos blind) d.k d.s).range_proof ≡ returns true
  unfolding range_commit
  range_commit_verifies amt blind d = verify-range_sign env laws amt d.k d.s (pos blind)

  -- What `BuildOutputs` makes for amounts below 2^34 and recipients with keys: the outputs' points
  -- add up to a commitment to the sum of the amounts, with the blinding factor that it returns.
  abbrev Built : Outcome (List Output × ℤ) → ℕ → ℕ → Type 0
  Built made sum value =
      (os : List Output) × (bs : ℕ) × (ps : List Point) × (total : ℕ) × (made
        ≡ returns (os, pos bs))
      × (bs % env.curve.order ≡ (sum + total) % env.curve.order)
      × (deref_all (commits_of os) ≡ returns ps)
      × ((a : ℕ) → sum_points env (at a) ps ≡ at (a + total + h_log env laws * value))
      × (verify_proofs env os ≡ returns true)

  build_from-Built :
      (draws : ℕ → Draws) (i sum : ℕ) (amts : List ℕ) (rcpts : List WalletPublicKey)
      → All (λ a. a < 2 ^ 34) amts
      → All HasKeys rcpts
      → length amts ≤ length rcpts
      → Built (build_from env draws i (pos sum) amts rcpts) sum (add_up amts)
  unfolding build_from add_up deref_all commits_of sum_points verify_proofs deref mod_ℤ ◌+ℤ◌
      output_for
  build_from-Built draws i sum [] rcpts small keyed enough = (
    [],
    sum,
    [],
    0,
    refl,
    ap (λ v. v % env.curve.order) (omega arith),
    refl,
    λ a. ap at (omega arith),
    refl,
  )
  build_from-Built draws i sum (amt ∷ amts) [] small keyed enough = absurd (omega arith)
  build_from-Built draws i sum (amt ∷ amts) (w ∷ rcpts) (s, small) ((p, q, key), keyed) enough =
      let d = draws i in
      let blind = blind_for env q d in
      let (os, bs, ps, total, made, same, opened, adds, proved) =
        build_from-Built draws (i + 1) ((sum + blind) % env.curve.order) amts rcpts small keyed
          (omega arith) in
      let here = range_commit_at env laws order amt blind d.k d.s s in
      let h = h_log env laws in
      (
        output_for env amt p q d ∷ os,
        bs,
        at (blind + h * amt) ∷ ps,
        blind + total,
        rw (build_output-for env amt p q w d key, made) refl,
        same
            ∙ mod-add-mod (sum + blind) env.curve.order total
            ∙ ap (λ v. v % env.curve.order) (omega arith),
        deref_all_stored (output_for env amt p q d).commit.point (at (blind + h * amt))
            (commits_of os) ps here opened,
        λ a.
            ap (λ p. sum_points env p ps) (laws.add_at a (blind + h * amt))
            ∙ adds (a + (blind + h * amt))
            ∙ ap at (regroup a blind h amt total (add_up amts)),
        rw (range_commit_verifies amt blind d) proved,
      )
    where
      regroup : (a b h m t v : ℕ) → a + (b + h * m) + t + h * v ≡ a + (b + t) + h * (m + v)
      regroup a b h m t v = grind arith

  -- The difference of commitments at the signer's index is the multiple of the generator by the
  -- difference of the blinding factors.
  difference_at :
      (ps ics : List Point) (idx yi z bs total value fee : ℕ)
      → idx < length ics
      → get_or ics idx infinity ≡ at (yi + h_log env laws * (value + fee))
      → ((a : ℕ) → sum_points env (at a) ps ≡ at (a + total + h_log env laws * value))
      → bs % env.curve.order ≡ (0 + total) % env.curve.order
      → (z + bs) % env.curve.order ≡ yi % env.curve.order
      → get_or (commit_differences env ps fee ics) idx infinity ≡ at z
  unfolding commit_differences
  difference_at ps ics idx yi z bs total value fee lt commit adds same diff =
      let h = h_log env laws in
      let n = env.curve.order in
      let k = 0 + total + h * value + h * fee in
      let feec = pedersen_sum env (int_bytes (pos 0)) (uint_bytes fee) in
      let outs : env.curve.add (sum_points env infinity ps) feec ≡ at k =
        ap (λ p. env.curve.add (sum_points env p ps) feec) (sym laws.zero_at)
        ∙ ap (λ p. env.curve.add p feec) (adds 0)
        ∙ ap (env.curve.add (at (0 + total + h * value))) (commit_of_zero env laws fee)
        ∙ laws.add_at (0 + total + h * value) (h * fee) in
      let turned : (yi + h * (value + fee)) % n ≡ (z + k) % n =
        add_same yi (z + bs) (h * (value + fee)) n (sym diff)
        ∙ ap (λ v. v % n) (to_front z bs (h * (value + fee)))
        ∙ add_same bs (0 + total) (z + h * (value + fee)) n same
        ∙ ap (λ v. v % n) (to_back z total h value fee) in
      get_or-map (λ c. env.curve.add c (neg_y (env.curve.add (sum_points env infinity ps) feec)))
        ics idx infinity infinity lt
      ∙ ap (λ p. env.curve.add (get_or ics idx infinity) (neg_y p)) outs
      ∙ ap (λ c. env.curve.add c (neg_y (at k)))
          (commit ∙ at_same env.curve laws order (yi + h * (value + fee)) (z + k) turned)
      ∙ laws.sub_at z k
    where
      to_front : (z b x : ℕ) → z + b + x ≡ b + (z + x)
      to_front z b x = omega arith

      to_back : (z t h v f : ℕ) → 0 + t + (z + h * (v + f)) ≡ z + (0 + t + h * v + h * f)
      to_back z t h v f = grind arith

  -- With points that obey the laws of a group with an order: for 8 inputs whose points are there, of
  -- which the one at the index has the public key of the secret `sk` and commits with the blinding
  -- factor `yi` to the sum of the amounts and the fee, and for amounts below 2^34 with as many
  -- recipients that have keys, `NewTxn` makes a txn, whatever it draws, and the txn passes the ring
  -- signature and the range proofs of `VerifyTxn`.
  pub new_txn_verifies :
      (draws : ℕ → Draws) (k1 k2 : ℕ) (r s : ℕ → ℕ) (inputs : List Output) (sk yi idx : ℕ)
      (amts : List ℕ) (rcpts : List WalletPublicKey) (fee : ℕ) (pks ics : List Point)
      → length inputs ≡ 8
      → idx < 8
      → deref_all (dest_keys inputs) ≡ returns pks
      → deref_all (commits_of inputs) ≡ returns ics
      → get_or pks idx infinity ≡ at sk
      → get_or ics idx infinity ≡ at (yi + h_log env laws * (add_up amts + fee))
      → All (λ a. a < 2 ^ 34) amts
      → All HasKeys rcpts
      → length amts ≤ length rcpts
      → (t : Txn) × (new_txn env draws k1 k2 r s
            (some inputs)
            (pos sk)
            (pos yi)
            (pos idx)
            (some amts)
            (some rcpts)
            fee
          ≡ returns (some t))
        × (verify_signatures env t inputs ≡ returns true)
  unfolding new_txn new_txn_of build_outputs verify_signatures
  new_txn_verifies draws k1 k2 r s inputs sk yi idx amts rcpts fee pks ics eight below keys commits
        key commit small keyed enough =
      let (os, bs, ps, total, made, same, opened, adds, proved) =
        build_from-Built draws 0 0 amts rcpts small keyed enough in
      let (z, blinds, diff) = mod_difference yi bs env.curve.order order.order_pos in
      let eight_ics : length ics ≡ 8 =
        length-deref_all (commits_of inputs) ics commits ∙ length-commits_of inputs ∙ eight in
      let eight_pks : length pks ≡ 8 =
        length-deref_all (dest_keys inputs) pks keys ∙ length-dest_keys inputs ∙ eight in
      let diffs = commit_differences env ps fee ics in
      let body : TxnBody = record {
        inputs = map (output_hash env) inputs;
        outputs = os;
        fee = fee;
      } in
      let d : ℕ → Point = λ i. get_or diffs i infinity in
      let pk : ℕ → Point = λ i. get_or pks i infinity in
      let t : Txn = record {
        body = body;
        sig =
            ring_sign env (pos sk) (pos yi) (pos bs) k1 k2 r s
              (hash env (env.body_json.encode body)) d pk idx;
      } in
      let enough_inputs : ltb (length inputs) 8 ≡ false =
        le→ltb (length inputs) 8 (omega (arith, eight)) in
      let signed : verify_ozrs env t pks ics ≡ returns true =
        subst (λ ks. verify_ozrs env t ks ics ≡ returns true) (tabulate_eight pks eight_pks)
          (verify_ozrs-ring_sign env laws t ps ics pk d sk z k1 k2 (pos yi) (pos bs) r s idx opened
            (sym (tabulate_eight diffs (length-differences ps fee ics ∙ eight_ics))) below key
            (difference_at ps ics idx yi z bs total (add_up amts) fee (omega (arith, eight_ics))
              commit adds same diff)
            blinds) in
      (
        t,
        rw (lt→ltb idx 8 below, made, keys, commits, opened, enough_inputs) refl,
        rw (commits, keys, signed) proved,
      )
    where
      length-differences :
          (ps : List Point) (fee : ℕ) (ics : List Point)
          → length (commit_differences env ps fee ics) ≡ length ics
      length-differences ps fee ics = length-map ics _
