-- ===== src/Payment/Commits.antt =====
-- The point that `RangeCommit` makes.
use native.Mathlib.Nat.{pow-suc}
use ozcoin.Base.{
  ℕ, zero, suc, ◌+◌, ◌*◌, ◌/◌, ◌%◌, ◌^◌, ◌<◌, ◌≡◌, refl, sym, ap, ◌∙◌, subst, arith, ℤ, pos, ◌+ℤ◌,
  true, false, List, [], ◌∷◌, map, int_bytes, ◌==◌, length, if◌then◌else◌, mod_difference, add_same,
  set_bytes,
}
use ozcoin.Types.{Point, stored}
use ozcoin.Env.{Env}
use ozcoin.Hash.{sum_int, hash}
use ozcoin.Hash.Group.{GroupLaws, OrderLaws, h_log, at_same}
use ozcoin.RangeProof.{
  Row, keys_of, masked, pks_for_amt, pks_from, compute_blinds, blinds_from, range_sign, hash_pks,
}
use ozcoin.RangeProof.Complete.{commit_of, keys_of-sign_rows}
use ozcoin.Ring.{infinity, sum_points}
use ozcoin.Payment.{range_commit, row_commits}
use ozcoin.Payment.Amounts.{halved, half_small}

swap : (a z : ℕ) → a + (z + 0) ≡ z + a
swap a z = omega arith

assoc : (a b c : ℕ) → a + (b + c) ≡ a + b + c
assoc a b c = omega arith

unfoldable pub add_up : List ℕ → ℕ
add_up [] = 0
add_up (n ∷ ns) = n + add_up ns

firsts : List (Point × Point) → List Point
firsts [] = []
firsts ((p, q) ∷ ps) = p ∷ firsts ps

-- The amount's bits from `i` on, in their places.
bits_from : ℕ → ℕ → List ℕ → ℕ
unfolding masked
bits_from amt i [] = 0
bits_from amt i (n ∷ ns) = masked amt i + bits_from amt (i + 1) ns

module _ (env : Env) (laws : GroupLaws env.curve) where
  open laws use {at}

  row_commits-keys_of : (rows : List Row) → row_commits rows ≡ firsts (keys_of env rows)
  unfolding row_commits keys_of firsts
  row_commits-keys_of [] = refl
  row_commits-keys_of (r ∷ rows) = ap (λ ps. r.pk0 ∷ ps) (row_commits-keys_of rows)

  sum_of_keys :
      (amt : ℕ) (ns : List ℕ) (i a : ℕ)
      → sum_points env (at a) (firsts (pks_from env amt i (map pos ns)))
        ≡ at (a + add_up ns + h_log env laws * bits_from amt i ns)
  unfolding sum_points firsts pks_from pks_for_amt add_up bits_from
  sum_of_keys amt [] i a = ap at (omega arith)
  sum_of_keys amt (n ∷ ns) i a =
      let h = h_log env laws in
      let m = masked amt i in
      let rest = firsts (pks_from env amt (i + 1) (map pos ns)) in
      let step : env.curve.add (at a) (pks_for_amt env amt i (pos n)).0 ≡ at (a + (n + h * m)) =
        ap (env.curve.add (at a)) (commit_of env laws n m) ∙ laws.add_at a (n + h * m) in
      ap (λ p. sum_points env p rest) step
      ∙ sum_of_keys amt ns (i + 1) (a + (n + h * m))
      ∙ ap at (regroup a n h m (add_up ns) (bits_from amt (i + 1) ns))
    where
      regroup : (a n h m s b : ℕ) → a + (n + h * m) + s + h * b ≡ a + (n + s) + h * (m + b)
      regroup a n h m s b = grind arith

  -- The blinding factors add up to the one that `RangeCommit` was given, modulo the order.
  blinds_add_up :
      (target n i sum : ℕ)
      → 0 < env.curve.order
      → i + suc n ≡ 34
      → (ns : List ℕ) × (blinds_from env (pos target) (suc n) i (pos sum) ≡ map pos ns)
        × (length ns ≡ suc n)
        × ((sum + add_up ns) % env.curve.order ≡ target % env.curve.order)
  unfolding blinds_from add_up sum_int ◌+ℤ◌
  blinds_add_up target zero i sum positive last =
      let is_last : (i == 33) ≡ true = ground arith in
      let (z, e, same) = mod_difference target sum env.curve.order positive in
      (z ∷ [], rw (is_last, e) refl, refl, ap (λ v. v % env.curve.order) (swap sum z) ∙ same)
  blinds_add_up target (suc n) i sum positive more =
      let not_last : (i == 33) ≡ false = ground arith in
      let r : ℤ = if i == 0 then pos target else pos 0 in
      let m = set_bytes (hash env (int_bytes r)) in
      let (ns, e, len, same) = blinds_add_up target n (i + 1) (sum + m) positive (omega arith) in
      (
        m ∷ ns,
        rw not_last (ap (λ zs. pos m ∷ zs) e),
        ap suc len,
        ap (λ v. v % env.curve.order) (assoc sum m (add_up ns)) ∙ same,
      )

  -- All bits of an amount add up to it.
  bits_add_up :
      (amt : ℕ) (ns : List ℕ) (i : ℕ)
      → amt / 2 ^ i < 2 ^ length ns
      → bits_from amt i ns ≡ 2 ^ i * (amt / 2 ^ i)
  unfolding bits_from masked
  bits_add_up amt [] i small = nothing (amt / 2 ^ i) (2 ^ i) small
    where
      nothing : (a p : ℕ) → a < 1 → 0 ≡ p * a
      nothing a p lt = let z : a ≡ 0 = omega arith in rw z (omega arith)
  bits_add_up amt (n ∷ ns) i small =
      let double : 2 ^ (i + 1) ≡ 2 ^ i * 2 = ap (λ n. 2 ^ n) (omega arith) ∙ pow-suc 2 i in
      ap (λ v. 2 ^ i * (amt / 2 ^ i % 2) + v)
        (bits_add_up amt ns (i + 1) (half_small amt i (length ns) small)
          ∙ ap (λ v. 2 ^ (i + 1) * v) (halved amt i)
          ∙ ap (λ v. v * (amt / 2 ^ i / 2)) double)
      ∙ halves (2 ^ i) (amt / 2 ^ i)
    where
      halves : (p a : ℕ) → p * (a % 2) + p * 2 * (a / 2) ≡ p * a
      halves p a =
          let e : a ≡ a % 2 + 2 * (a / 2) = omega arith in
          let d : p * (a % 2) + p * 2 * (a / 2) ≡ p * (a % 2 + 2 * (a / 2)) = grind arith in
          d ∙ ap (λ v. p * v) (sym e)

  -- `RangeCommit` commits to the amount with the blinding factor that it is given.
  pub range_commit_at :
      (order : OrderLaws env.curve laws) (amt target : ℕ) (k s : ℕ → ℕ)
      → amt < 2 ^ 34
      → (range_commit env amt (pos target) k s).point ≡ stored (at (target + h_log env laws * amt))
  unfolding range_commit range_sign compute_blinds
  range_commit_at order amt target k s small =
      let (ns, blinds, len, same) = blinds_add_up target 33 0 0 order.order_pos (omega arith) in
      let signed = range_sign env amt k s (pos target) in
      let bs = compute_blinds env (pos target) in
      let h = h_log env laws in
      let keys : row_commits signed.1 ≡ firsts (pks_from env amt 0 (map pos ns)) =
        row_commits-keys_of signed.1
        ∙ ap firsts (
            keys_of-sign_rows env laws amt k s (hash_pks env (pks_from env amt 0 bs)) signed.0 bs 0
            ∙ ap (pks_from env amt 0) blinds) in
      let amount : bits_from amt 0 ns ≡ amt =
        bits_add_up amt ns 0 (subst (λ n. amt / 2 ^ 0 < 2 ^ n) (sym len) (omega arith))
        ∙ omega arith in
      ap stored (
        ap (sum_points env infinity) keys
        ∙ ap (λ p. sum_points env p (firsts (pks_from env amt 0 (map pos ns)))) (sym laws.zero_at)
        ∙ sum_of_keys amt ns 0 0
        ∙ ap (λ b. at (0 + add_up ns + h * b)) amount
        ∙ at_same env.curve laws order (0 + add_up ns + h * amt) (target + h * amt)
            (add_same (0 + add_up ns) target (h * amt) env.curve.order same))
