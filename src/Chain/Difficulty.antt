-- ===== src/Chain/Difficulty.antt =====
-- What a retarget may do to the difficulty, and which header it is measured against.
use ozcoin.Base.{
  ℕ, ◌+◌, ◌≤◌, ◌<◌, ◌≡◌, refl, arith, leb, some, List, [], ◌∷◌, length, ◌-ℤ◌, subst, false,
}
use ozcoin.Go.{returns}
use ozcoin.Types.{Sha256Sum, BlockHeader, Block, zero_header, u64_mod, difficulty_spacing}
use ozcoin.Env.{Env}
use ozcoin.Client.{Client}
use ozcoin.Store.{get_header}
use ozcoin.Chain.{
  unix, clamp_target, ancestor_header, nth_ancestor_from, nth_ancestor_header, compute_difficulty,
}

-- Headers of the main database, each the one that the hash in the header before it names: the first
-- is stored under `key`, and the last one names `stop`.
abbrev pub LinkedTo : (env : Env) → Client env → Sha256Sum → List BlockHeader → Sha256Sum → Type 0
LinkedTo env c key [] stop = key ≡ stop
LinkedTo env c key (h ∷ hs) stop =
    (get_header env c key ≡ returns (some h)) × LinkedTo env c h.prev_hash hs stop

abbrev pub last_of : BlockHeader → List BlockHeader → BlockHeader
last_of h [] = h
last_of h (g ∷ hs) = last_of g hs

module _ (env : Env) (c : Client env) where
  nth_ancestor_from-linked :
      (hs : List BlockHeader) (key stop : Sha256Sum) (prev : BlockHeader)
      → LinkedTo env c key hs stop
      → nth_ancestor_from env (length hs) c key prev ≡ returns (last_of prev hs)
  unfolding nth_ancestor_from ancestor_header
  nth_ancestor_from-linked [] key stop prev l = refl
  nth_ancestor_from-linked (h ∷ hs) key stop prev (e, l) =
      rw e (nth_ancestor_from-linked hs h.prev_hash stop h l)

  clamp_target_bounds :
      (old new : ℕ)
      → old + 1 < u64_mod
      → (clamp_target old new ≤ old + 1)
        × (old ≤ clamp_target old new + 1)
        × (old ≤ new + 1 → new ≤ old + 1 → clamp_target old new ≡ new)
  unfolding clamp_target
  clamp_target_bounds old new h = ground arith

  -- Above height 2016, with the 2016 headers before a block in the main database, its difficulty is
  -- computed, if the difficulty of the oldest of the 2016 is not the greatest uint64: it differs by
  -- at most 1 from that of the oldest of the 2016, whatever the floating point computation gives,
  -- and is the computed target where that differs by at most 1.
  pub compute_difficulty_step :
      (b : Block) (h : BlockHeader) (hs : List BlockHeader) (stop : Sha256Sum)
      → difficulty_spacing < b.header.seq_num
      → LinkedTo env c b.header.prev_hash (h ∷ hs) stop
      → length (h ∷ hs) ≡ difficulty_spacing
      → (last_of h hs).difficulty + 1 < u64_mod
      → let old = (last_of h hs).difficulty in
        let new = env.retarget old (unix b.header.time -ℤ unix (last_of h hs).time) in
        (d : ℕ) × (compute_difficulty env c b ≡ returns d)
        × (d ≤ old + 1)
        × (old ≤ d + 1)
        × (old ≤ new + 1 → new ≤ old + 1 → d ≡ new)
  unfolding compute_difficulty nth_ancestor_header
  compute_difficulty_step b h hs stop high linked count small =
      let old = (last_of h hs).difficulty in
      let new = env.retarget old (unix b.header.time -ℤ unix (last_of h hs).time) in
      let above : leb b.header.seq_num difficulty_spacing ≡ false = ground arith in
      let found : nth_ancestor_from env difficulty_spacing c b.header.prev_hash zero_header
          ≡ returns (last_of h hs) =
        subst
          (λ n. nth_ancestor_from env n c b.header.prev_hash zero_header ≡ returns (last_of h hs))
          count (nth_ancestor_from-linked (h ∷ hs) b.header.prev_hash stop zero_header linked) in
      let bounds = clamp_target_bounds old new small in
      (clamp_target old new, rw (above, found), bounds.0, bounds.1, bounds.2)
