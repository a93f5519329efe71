-- ===== src/Consensus/Grown.antt =====
-- The main chain that adopted blocks make.
use ozcoin.Base.{
  ℕ, suc, ◌≡◌, refl, sym, ap, ◌∙◌, subst, arith, Bool, true, some, List, [], ◌∷◌, get_elem?,
  bytes_eq, bytes_eq_refl,
}
use ozcoin.Go.{Outcome, returns, returns-injective}
use ozcoin.Types.{BlockHeader, Block, HashMsg}
use ozcoin.Env.{Env}
use ozcoin.Env.Laws.{DbLaws, ReadsBack}
use ozcoin.Hash.{header_hash}
use ozcoin.Client.{Client}
use ozcoin.Store.{get_header}
use ozcoin.Chain.{nth_ancestor_header, compute_difficulty}
use ozcoin.Chain.Listed.{
  tip, IsDistinct, difficulty_of, Stored, Stored-kept, Stored-same, get_header_same,
  nth_ancestor_header-Stored, compute_difficulty-Stored,
}
use ozcoin.Load.{load_or_fetch_block}
use ozcoin.Block.{valid_header}
use ozcoin.Txn.{prevalid_block}
use ozcoin.Consensus.Main.{extend_main_chain}
use ozcoin.Consensus.Adopt.{place_block, add_or_orphan_helper}
use ozcoin.Consensus.Tip.{adopted_loads}
use ozcoin.Consensus.Extend.{extend_main_chain_effect}

module _ (env : Env) where
  -- What becomes of a client: blocks are adopted on its last header, and between them it does
  -- what leaves its headers alone.
  pub data Grows (start : Client env) : List BlockHeader → Client env → Type 0 where
    unmoved : Grows start [] start
    aside :
        {hs : List BlockHeader} {c c' : Client env}
        → Grows start hs c
        → c'.last_header ≡ c.last_header
        → c'.dbm.header_db ≡ c.dbm.header_db
        → Grows start hs c'
    adopt :
        {hs : List BlockHeader} {c c' : Client env} (fuel : ℕ) (req : HashMsg) (b : Block)
        → Grows start hs c
        → load_or_fetch_block env c req ≡ returns b
        → b.header.prev_hash ≡ header_hash env c.last_header
        → add_or_orphan_helper env (suc fuel) req c ≡ (returns true, c')
        → Grows start (b.header ∷ hs) c'

  -- A block on the last header is given to `ExtendMainChain`.
  linked_extends :
      (fuel : ℕ) (req : HashMsg) (c c' : Client env) (b : Block)
      → load_or_fetch_block env c req ≡ returns b
      → b.header.prev_hash ≡ header_hash env c.last_header
      → add_or_orphan_helper env (suc fuel) req c ≡ (returns true, c')
      → extend_main_chain env b.header b c ≡ (returns true, c')
  unfolding add_or_orphan_helper place_block
  linked_extends fuel req c c' b load parent e =
      let (found, load', timely, valid) =
        adopted_loads env fuel req c (ap (λ (q : Outcome Bool × Client env). q.0) e) in
      let same : found ≡ b = returns-injective (sym load' ∙ load) in
      let timely' : valid_header env b.header ≡ returns true =
        subst (λ (k : Block). valid_header env k.header ≡ returns true) same timely in
      let valid' : prevalid_block env b ≡ true =
        subst (λ k. prevalid_block env k ≡ true) same valid in
      let next : bytes_eq b.header.prev_hash (header_hash env c.last_header) ≡ true =
        rw parent (bytes_eq_refl (header_hash env c.last_header)) in
      let run : add_or_orphan_helper env (suc fuel) req c ≡ extend_main_chain env b.header b c =
        ground arith in
      sym run ∙ e

  -- The list is what the client has stored.
  Grows-Stored :
      (start c : Client env) (hs : List BlockHeader)
      → DbLaws env.ldb
      → ReadsBack env.header_json
      → Grows start hs c
      → IsDistinct env hs
      → (c.last_header ≡ tip start.last_header hs)
        × Stored env c (header_hash env c.last_header) hs (header_hash env start.last_header)
  Grows-Stored start c hs laws back unmoved distinct = (refl, refl)
  Grows-Stored start c hs laws back (aside {c = k} g last headers) distinct =
      let (top, stored) = Grows-Stored start k hs laws back g distinct in
      (
        last ∙ top,
        Stored-same env k c (header_hash env c.last_header) (header_hash env start.last_header) hs
            (λ key. get_header_same env k c key headers)
            (subst (λ h. Stored env k (header_hash env h) hs (header_hash env start.last_header))
              (sym last) stored),
      )
  Grows-Stored start c (_ ∷ _) laws back (adopt {hs = hs} {c = k} fuel req b g load parent e)
        (fresh, distinct) =
      let (top, stored) = Grows-Stored start k hs laws back g distinct in
      let stop = header_hash env start.last_header in
      let (_, last, reads_as) =
        extend_main_chain_effect env b.header b k c laws back
          (linked_extends fuel req k c b load parent e) in
      let below : Stored env c b.header.prev_hash hs stop =
        Stored-kept env k c b.header b.header.prev_hash stop hs reads_as fresh
          (subst (λ key. Stored env k key hs stop) (sym parent) stored) in
      let here : get_header env c (header_hash env b.header) ≡ returns (some b.header) =
        reads_as (header_hash env b.header) ∙ rw (bytes_eq_refl (header_hash env b.header)) refl in
      (
        last,
        subst (λ h. Stored env c (header_hash env h) (b.header ∷ hs) stop) (sym last)
            (refl, here, below),
      )

  -- With databases and JSON that read back what was written: from any client on, adopt blocks one
  -- after the other, each on the last header, with anything between them that leaves the last header
  -- and the headers' database alone. If no two of the headers have the same hash, the client is what
  -- the list of the adopted headers says, the newest first: the last header is the first of the
  -- list, `NthAncestorHeader` of its hash reads the list, and `ComputeDifficulty` of a block on it
  -- is the difficulty that the list asks for, where it is long enough to ask for one.
  pub Grows-refines :
      (start c : Client env) (hs : List BlockHeader) (b : Block) (n d : ℕ) (h : BlockHeader)
      → DbLaws env.ldb
      → ReadsBack env.header_json
      → Grows start hs c
      → IsDistinct env hs
      → get_elem? hs n ≡ some h
      → b.header.prev_hash ≡ header_hash env c.last_header
      → difficulty_of env hs b ≡ some d
      → (c.last_header ≡ tip start.last_header hs)
        × (nth_ancestor_header env c (header_hash env c.last_header) (suc n) ≡ returns h)
        × (compute_difficulty env c b ≡ returns d)
  Grows-refines start c hs b n d h laws back g distinct listed parent asked =
      let (top, stored) = Grows-Stored start c hs laws back g distinct in
      let stop = header_hash env start.last_header in
      (
        top,
        nth_ancestor_header-Stored env c hs n (header_hash env c.last_header) stop h stored listed,
        compute_difficulty-Stored env c hs b stop d
            (subst (λ key. Stored env c key hs stop) (sym parent) stored) asked,
      )
