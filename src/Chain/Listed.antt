-- ===== src/Chain/Listed.antt =====
-- The main chain as a list of headers, the newest first, and what chain.go reads of it.
use ozcoin.Base.{
  ℕ, zero, suc, ◌≡◌, refl, ap, ◌∙◌, subst, false, Bool-cases, inl, inr, leb, Option, none, some,
  some-injective, List, [], ◌∷◌, All, get_elem?, bytes_eq, ◌-ℤ◌, if◌then◌else◌, sym,
}
use ozcoin.Go.{returns}
use ozcoin.Types.{
  Sha256Sum, BlockHeader, Block, zero_header, initial_difficulty, difficulty_spacing,
}
use ozcoin.Env.{Env}
use ozcoin.Hash.{header_hash}
use ozcoin.Client.{Client}
use ozcoin.Store.{get_header}
use ozcoin.Chain.{
  unix, clamp_target, ancestor_header, nth_ancestor_from, nth_ancestor_header, compute_difficulty,
}

-- The chain on top of a header that is not in the list, the newest header first.
abbrev pub tip : BlockHeader → List BlockHeader → BlockHeader
tip base [] = base
tip base (h ∷ hs) = h

module _ (env : Env) where
  -- The difficulty that the chain asks of the next block: a constant at first, and then measured
  -- against the header 2016 before it, where the chain has that.
  unfoldable pub difficulty_of : List BlockHeader → Block → Option ℕ
  difficulty_of hs b =
      if leb b.header.seq_num difficulty_spacing
      then some initial_difficulty
      else (elim (get_elem? hs 2015) [
        | none ↦ none
        | some last ↦ some (
            clamp_target last.difficulty
              (env.retarget last.difficulty (unix b.header.time -ℤ unix last.time)))
      ])

  -- No two headers have the same hash.
  abbrev pub IsDistinct : List BlockHeader → Type 0
  IsDistinct [] = Unit
  IsDistinct (h ∷ hs) =
      All (λ g. bytes_eq (header_hash env g) (header_hash env h) ≡ false) hs × IsDistinct hs

  -- The headers in the main database, each under its hash, down to one that names `stop`.
  abbrev pub Stored : Client env → Sha256Sum → List BlockHeader → Sha256Sum → Type 0
  Stored c key [] stop = key ≡ stop
  Stored c key (h ∷ hs) stop =
      (key ≡ header_hash env h)
      × (get_header env c key ≡ returns (some h))
      × Stored c h.prev_hash hs stop

  pub Stored-kept :
      (c c' : Client env) (h : BlockHeader) (key stop : Sha256Sum) (hs : List BlockHeader)
      → ((k : Sha256Sum)
          → get_header env c' k
            ≡ (if bytes_eq k (header_hash env h) then returns (some h) else get_header env c k))
      → All (λ g. bytes_eq (header_hash env g) (header_hash env h) ≡ false) hs
      → Stored c key hs stop
      → Stored c' key hs stop
  Stored-kept c c' h key stop [] reads_as fresh e = e
  Stored-kept c c' h key stop (g ∷ hs) reads_as (other, fresh) (named, e, below) = (
    named,
    reads_as key ∙ rw (named, other) (subst (λ j. get_header env c j ≡ returns (some g)) named e),
    Stored-kept c c' h g.prev_hash stop hs reads_as fresh below,
  )

  pub Stored-same :
      (c c' : Client env) (key stop : Sha256Sum) (hs : List BlockHeader)
      → ((k : Sha256Sum) → get_header env c' k ≡ get_header env c k)
      → Stored c key hs stop
      → Stored c' key hs stop
  Stored-same c c' key stop [] same e = e
  Stored-same c c' key stop (g ∷ hs) same (named, e, below) =
      (named, same key ∙ e, Stored-same c c' g.prev_hash stop hs same below)

  pub get_header_same :
      (c c' : Client env) (k : Sha256Sum)
      → c'.dbm.header_db ≡ c.dbm.header_db
      → get_header env c' k ≡ get_header env c k
  unfolding get_header
  get_header_same c c' k e =
      ap (λ d. get_header env (record c { dbm = record c.dbm { header_db = d } }) k) e

  nth_ancestor_from-Stored :
      (c : Client env) (hs : List BlockHeader) (n : ℕ) (key stop : Sha256Sum) (prev h : BlockHeader)
      → Stored c key hs stop
      → get_elem? hs n ≡ some h
      → nth_ancestor_from env (suc n) c key prev ≡ returns h
  unfolding nth_ancestor_from ancestor_header
  nth_ancestor_from-Stored c [] n key stop prev h s e = cc
  nth_ancestor_from-Stored c (g ∷ hs) zero key stop prev h (named, e, below) p =
      rw e (ap returns (some-injective p))
  nth_ancestor_from-Stored c (g ∷ hs) (suc n) key stop prev h (named, e, below) p =
      rw e (nth_ancestor_from-Stored c hs n g.prev_hash stop g h below p)

  -- The walk of `NthAncestorHeader`, on the list.
  pub nth_ancestor_header-Stored :
      (c : Client env) (hs : List BlockHeader) (n : ℕ) (key stop : Sha256Sum) (h : BlockHeader)
      → Stored c key hs stop
      → get_elem? hs n ≡ some h
      → nth_ancestor_header env c key (suc n) ≡ returns h
  unfolding nth_ancestor_header
  nth_ancestor_header-Stored c hs n key stop h s e =
      nth_ancestor_from-Stored c hs n key stop zero_header h s e

  pub compute_difficulty-Stored :
      (c : Client env) (hs : List BlockHeader) (b : Block) (stop : Sha256Sum) (d : ℕ)
      → Stored c b.header.prev_hash hs stop
      → difficulty_of hs b ≡ some d
      → compute_difficulty env c b ≡ returns d
  unfolding difficulty_of compute_difficulty
  compute_difficulty-Stored c hs b stop d s e =
      elim (Bool-cases (leb b.header.seq_num difficulty_spacing)) [
        | inl low ↦
            let asked : difficulty_of hs b ≡ some initial_difficulty = rw low refl in
            rw low (ap returns (some-injective (sym asked ∙ e)))
        | inr high ↦ go high (get_elem? hs 2015) refl
      ]
    where
      go :
          leb b.header.seq_num difficulty_spacing ≡ false
          → (m : Option BlockHeader) → get_elem? hs 2015 ≡ m
          → compute_difficulty env c b ≡ returns d
      go high none p = let asked : difficulty_of hs b ≡ none = rw (high, p) refl in cc
      go high (some last) p =
          let found = nth_ancestor_header-Stored c hs 2015 b.header.prev_hash stop last s p in
          let d' =
            clamp_target last.difficulty
              (env.retarget last.difficulty (unix b.header.time -ℤ unix last.time)) in
          let asked : difficulty_of hs b ≡ some d' = rw (high, p) refl in
          rw (high, found) (ap returns (some-injective (sym asked ∙ e)))
