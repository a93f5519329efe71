-- ===== src/Chain/Totals.antt =====
-- No total difficulty is ever returned.
use ozcoin.Base.{
  ℕ, zero, suc, ◌+◌, ◌%◌, ◌≡◌, ◌≢◌, refl, inl, inr, String, Option, none, some, List, [], ◌∷◌,
  length, ◌⊎◌,
}
use ozcoin.Go.{Outcome, returns, fails, panics, diverges}
use ozcoin.Types.{Sha256Sum, BlockHeader, u64_mod}
use ozcoin.Env.{Env}
use ozcoin.Env.Laws.{DbLaws, KeepsTarget}
use ozcoin.Hash.{header_hash}
use ozcoin.Client.{Client}
use ozcoin.Store.{get_header}
use ozcoin.Store.Reads.{get_header_ne_nil}
use ozcoin.Chain.{main_total, side_total, main_chain_total_difficulty, side_chain_total_difficulty}
use ozcoin.Chain.Difficulty.{LinkedTo}

-- Every way in which reading a header can end when it never gives nil.
Header-cases :
    (m : Outcome (Option BlockHeader))
    → m ≢ returns none
    → ((h : BlockHeader) × (m ≡ returns (some h)))
      ⊎ ((e : String) × (m ≡ fails e))
      ⊎ (m ≡ panics)
      ⊎ (m ≡ diverges)
Header-cases (returns none) n = absurd (n refl)
Header-cases (returns (some h)) n = inl (h, refl)
Header-cases (fails e) n = inr (inl (e, refl))
Header-cases panics n = inr (inr (inl refl))
Header-cases diverges n = inr (inr (inr refl))

module _ (env : Env) (laws : DbLaws env.ldb) (keeps : KeepsTarget env.header_json) where
  main_total-ne-returns :
      (fuel : ℕ) (c : Client env) (total : ℕ) (key : Sha256Sum) (d : ℕ)
      → main_total env fuel c total key ≢ returns d
  unfolding main_total
  main_total-ne-returns zero c total key d = λ h. cc
  main_total-ne-returns (suc fuel) c total key d =
      elim (Header-cases (get_header env c key) (get_header_ne_nil env laws c key keeps)) [
        | inl (h, e) ↦
            rw e (main_total-ne-returns fuel c ((total + h.difficulty) % u64_mod) h.prev_hash d)
        | inr (inl (x, e)) ↦ rw e (λ h. cc)
        | inr (inr (inl e)) ↦ rw e (λ h. cc)
        | inr (inr (inr e)) ↦ rw e (λ h. cc)
      ]

  side_total-ne-returns :
      (fuel : ℕ) (c : Client env) (total : ℕ) (key : Sha256Sum) (d : ℕ)
      → side_total env fuel c total key ≢ returns d
  unfolding side_total
  side_total-ne-returns zero c total key d = λ h. cc
  side_total-ne-returns (suc fuel) c total key d =
      elim (Header-cases (get_header env c key) (get_header_ne_nil env laws c key keeps)) [
        | inl (h, e) ↦
            rw e (side_total-ne-returns fuel c ((total + h.difficulty) % u64_mod) h.prev_hash d)
        | inr (inl (x, e)) ↦ rw e (λ h. cc)
        | inr (inr (inl e)) ↦ rw e (λ h. cc)
        | inr (inr (inr e)) ↦ rw e (λ h. cc)
      ]

  main_total-linked :
      (hs : List BlockHeader) (c : Client env) (total : ℕ) (key stop : Sha256Sum) (x : String)
      → LinkedTo env c key hs stop
      → get_header env c stop ≡ fails x
      → main_total env (suc (length hs)) c total key ≡ fails x
  unfolding main_total
  main_total-linked [] c total key stop x l missing = rw (l, missing)
  main_total-linked (h ∷ hs) c total key stop x (e, l) missing =
      rw e (main_total-linked hs c ((total + h.difficulty) % u64_mod) h.prev_hash stop x l missing)

  -- With databases and JSON that behave as documented: on a chain of stored headers that ends where
  -- the next one is missing, as it does below the genesis block, the main chain's total difficulty
  -- is that error; and whatever is stored, and with any fuel, neither it nor the side chain's
  -- returns a number.
  pub total_difficulty_fails :
      (c : Client env) (hs : List BlockHeader) (stop : Sha256Sum) (x : String)
      → LinkedTo env c (header_hash env c.last_header) hs stop
      → get_header env c stop ≡ fails x
      → (main_chain_total_difficulty env (suc (length hs)) c ≡ fails x)
        × ((fuel d : ℕ) → main_chain_total_difficulty env fuel c ≢ returns d)
        × ((fuel d : ℕ) (key : Sha256Sum) → side_chain_total_difficulty env fuel c key ≢ returns d)
  unfolding main_chain_total_difficulty side_chain_total_difficulty
  total_difficulty_fails c hs stop x l missing = (
    main_total-linked hs c 0 (header_hash env c.last_header) stop x l missing,
    λ fuel d. main_total-ne-returns fuel c 0 (header_hash env c.last_header) d,
    λ fuel d key. side_total-ne-returns fuel c 0 key d,
  )
