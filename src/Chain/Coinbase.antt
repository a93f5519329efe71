-- ===== src/Chain/Coinbase.antt =====
-- The schedule of new coins: halvings, and a bound on all coins that are ever issued.
use native.Mathlib.Nat.{pow-suc, div-div-eq-div-mul}
use ozcoin.Base.{
  ℕ, zero, suc, ◌+◌, ◌-◌, ◌*◌, ◌/◌, ◌%◌, ◌^◌, ◌≤◌, ◌<◌, ◌≡◌, refl, sym, ◌∙◌, ap, arith, Bool-cases,
  ◌==◌, inl, inr,
}
use ozcoin.Chain.{coinbase_value}

reward : ℕ → ℕ
reward era = 5000000000 / 2 ^ era

reward-suc : (era : ℕ) → reward (suc era) ≡ reward era / 2
unfolding reward
reward-suc era = rw (pow-suc 2 era) (sym (div-div-eq-div-mul 5000000000 (2 ^ era) 2))

coinbase_value-reward : (n : ℕ) → coinbase_value n ≡ reward (n / 21000)
unfolding coinbase_value reward
coinbase_value-reward n = refl

-- The reward of a block is half that of the block 21000 before it, rounded down; the first one is
-- 50 coins of 100000000 units, and so no reward is above that.
pub coinbase_halves :
    (n : ℕ)
    → (coinbase_value (n + 21000) ≡ coinbase_value n / 2)
      × (coinbase_value (n % 21000) ≡ 5000000000)
      × (coinbase_value n ≤ 5000000000)
unfolding reward
coinbase_halves n = (
  (let e : (n + 21000) / 21000 ≡ suc (n / 21000) = omega arith in
      coinbase_value-reward (n + 21000)
      ∙ ap reward e
      ∙ reward-suc (n / 21000)
      ∙ ap (λ v. v / 2) (sym (coinbase_value-reward n))),
  (let z : n % 21000 / 21000 ≡ 0 = omega arith in
      rw (coinbase_value-reward (n % 21000), z) (omega arith)),
  rw coinbase_value-reward (div_le 5000000000 (2 ^ (n / 21000))),
)
  where
    div_le : (a b : ℕ) → a / b ≤ a
    div_le a b = grind arith

-- The coins of the blocks before block `n`.
pub issued : ℕ → ℕ
issued zero = 0
issued (suc n) = issued n + coinbase_value n

-- What is issued, and what would be if the era of block `n` ran to its end and for one era more.
issued_potential : (n : ℕ) → issued n + (42000 - n % 21000) * coinbase_value n ≤ 42000 * 5000000000
unfolding issued
issued_potential zero = rw (coinbase_value-reward 0) (unfold reward in omega arith)
issued_potential (suc n) = elim (Bool-cases (n % 21000 == 20999)) [
  | inl last ↦
      let r : n % 21000 ≡ 20999 = ground arith in
      let era : suc n / 21000 ≡ suc (n / 21000) = omega arith in
      let r' : suc n % 21000 ≡ 0 = omega arith in
      let ih : issued n + (42000 - n % 21000) * coinbase_value n ≤ 42000 * 5000000000 =
        issued_potential n in
      let half : coinbase_value (suc n) ≡ coinbase_value n / 2 =
        coinbase_value-reward (suc n)
        ∙ ap reward era
        ∙ reward-suc (n / 21000)
        ∙ ap (λ v. v / 2) (sym (coinbase_value-reward n)) in
      new_era (issued n) (coinbase_value n) (coinbase_value (suc n)) (n % 21000) (suc n % 21000) ih
        r r' half
  | inr more ↦
      let same_era : suc n / 21000 ≡ n / 21000 = ground arith in
      let r' : suc n % 21000 ≡ suc (n % 21000) = ground arith in
      let ih : issued n + (42000 - n % 21000) * coinbase_value n ≤ 42000 * 5000000000 =
        issued_potential n in
      let same : coinbase_value (suc n) ≡ coinbase_value n =
        coinbase_value-reward (suc n) ∙ ap reward same_era ∙ sym (coinbase_value-reward n) in
      old_era (issued n) (coinbase_value n) (coinbase_value (suc n)) (n % 21000) (suc n % 21000) ih
        (omega arith) r' same
]
  where
    step : (i v w : ℕ) → i + suc w * v ≤ 42000 * 5000000000 → i + v + w * v ≤ 42000 * 5000000000
    step i v w h = grind arith

    new_era :
        (i v v' r r' : ℕ)
        → i + (42000 - r) * v ≤ 42000 * 5000000000
        → r ≡ 20999
        → r' ≡ 0
        → v' ≡ v / 2
        → i + v + (42000 - r') * v' ≤ 42000 * 5000000000
    new_era i v v' r r' ih e e' h =
        let ih' : i + 21001 * v ≤ 42000 * 5000000000 = rw e at ih in rw e' (omega arith)

    old_era :
        (i v v' r r' : ℕ)
        → i + (42000 - r) * v ≤ 42000 * 5000000000
        → r < 21000
        → r' ≡ suc r
        → v' ≡ v
        → i + v + (42000 - r') * v' ≤ 42000 * 5000000000
    old_era i v v' r r' ih l e h =
        let split : 42000 - r ≡ suc (42000 - suc r) = omega arith in
        let ih' : i + suc (42000 - suc r) * v ≤ 42000 * 5000000000 = rw split at ih in
        rw (e, h) (step i v (42000 - suc r) ih')

-- However long the chain is, no more than 2100000 coins are issued, so the sum fits a uint64.
pub issued_bound : (n : ℕ) → issued n ≤ 2100000 * 100000000
issued_bound n =
    let p : issued n + (42000 - n % 21000) * coinbase_value n ≤ 42000 * 5000000000 =
      issued_potential n in
    omega arith
