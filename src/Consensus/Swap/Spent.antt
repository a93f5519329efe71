-- ===== src/Consensus/Swap/Spent.antt =====
-- The preimages after `SwapMainFork`.
use ozcoin.Base.{
  ◌≡◌, refl, sym, ◌∙◌, ap, subst, inl, inr, false, Option, none, some, some-injective, List, [],
  ◌∷◌, ◌++◌, length, Among,
}
use ozcoin.Go.{Outcome, returns, fails, panics, diverges, returns-injective}
use ozcoin.Go.Read
use ozcoin.Types.{Sha256Sum, Block, Txn}
use ozcoin.Env.{Env, Change, put}
use ozcoin.Env.Laws.{DbLaws, after}
use ozcoin.Hash.{preimage_hash}
use ozcoin.Client.{Client}
use ozcoin.Chain.{Fork}
use ozcoin.Store.{get_block}
use ozcoin.Txn.{verify_txn}
use ozcoin.Consensus.Main.{record_all, preimages_of}
use ozcoin.Consensus.Written.{after-append, after-record_all, Among-preimages_of}
use ozcoin.Consensus.Extend.{get_preimage_stored, verify_txn_refuses}
use ozcoin.Consensus.Swap.{values_of, path_blocks, joining, over_blocks, swap_main_fork}
use ozcoin.Consensus.Swap.Effect.{swap_main_fork-Swapped, with_headers}

Among-append_left : {A : Type 0} (a : A) (xs ys : List A) → Among a xs → Among a (xs ++ ys)
Among-append_left a [] ys m = absurd m
Among-append_left a (x ∷ xs) ys (inl e) = inl e
Among-append_left a (x ∷ xs) ys (inr m) = inr (Among-append_left a xs ys m)

Among-append_right : {A : Type 0} (a : A) (xs ys : List A) → Among a ys → Among a (xs ++ ys)
Among-append_right a [] ys m = m
Among-append_right a (x ∷ xs) ys m = inr (Among-append_right a xs ys m)

record_all-append :
    (ps qs : List Sha256Sum) → record_all (ps ++ qs) ≡ record_all ps ++ record_all qs
unfolding record_all
record_all-append [] qs = refl
record_all-append (p ∷ ps) qs = ap (λ l. put p p ∷ l) (record_all-append ps qs)

module _ (env : Env) where
  open env use {ldb}

  -- The block of each hash of a path is among those that were read.
  Among-path_blocks :
      (c : Client env) (key : Sha256Sum) (b : Block) (path : List Sha256Sum)
      (l : List (Sha256Sum × Block))
      → path_blocks env c path ≡ returns l
      → Among key path
      → get_block env c key ≡ returns (some b)
      → Among b (values_of l)
  unfolding path_blocks
  Among-path_blocks c key b [] l e m found = absurd m
  Among-path_blocks c key b (k ∷ path) l e m found =
      go (get_block env c k) refl e (Among-path_blocks c key b path) m
    where
      go :
          (q : Outcome (Option Block))
          → get_block env c k ≡ q
          → (elim q as (λ r. Outcome (List (Sha256Sum × Block))) [
            | returns (some a) ↦ Read.◌>>=◌ (path_blocks env c path) λ rest. returns ((k, a) ∷ rest)
            | diverges ↦ diverges
            | _ ↦ panics
          ])
            ≡ returns l
          → ((rest : List (Sha256Sum × Block))
              → path_blocks env c path ≡ returns rest
              → Among key path
              → get_block env c key ≡ returns (some b)
              → Among b (values_of rest))
          → Among key (k ∷ path)
          → Among b (values_of l)
      go (returns (some a)) read r later at =
          let (rest, e1, r1) = Read.>>=-eq-returns (path_blocks env c path) _ r in
          subst (λ xs. Among b (values_of xs)) (returns-injective r1)
            (elim at [
              | inl same ↦ inl (
                  some-injective (returns-injective (sym found ∙ ap (get_block env c) same ∙ read)))
              | inr more ↦ inr (later rest e1 more found)
            ])
      go (returns none) read r later at = cc
      go (fails x) read r later at = cc
      go panics read r later at = cc
      go diverges read r later at = cc

  -- The txns of a block that joins have their preimages recorded.
  joining_records :
      (ts : List Txn) (made : List Change × List Change)
      → joining env ts ≡ returns made
      → (ps : List Sha256Sum) × (preimages_of env ts ≡ returns ps) × (made.0 ≡ record_all ps)
  unfolding joining preimages_of record_all
  joining_records [] made e =
      ([], refl, ap (λ (m : List Change × List Change). m.0) (sym (returns-injective e)))
  joining_records (t ∷ ts) made e =
      let (p, e1, r1) = Read.>>=-eq-returns (preimage_hash env t) _ e in
      let (rest, e2, r2) = Read.>>=-eq-returns (joining env ts) _ r1 in
      let (ps, read, is) = joining_records ts rest e2 in
      (
        p ∷ ps,
        rw (e1, read) refl,
        ap (λ (m : List Change × List Change). m.0) (sym (returns-injective r2))
            ∙ ap (λ l. put p p ∷ l) is,
      )

  over_blocks_record :
      (t : Txn) (p : Sha256Sum) (b : Block) (bs : List Block) (made : List Change × List Change)
      → over_blocks env (joining env) bs ≡ returns made
      → preimage_hash env t ≡ returns p
      → Among t b.txns
      → (ps : List Sha256Sum) × (made.0 ≡ record_all ps) × (Among b bs → Among p ps)
  unfolding over_blocks record_all
  over_blocks_record t p b [] made e h m = (
    [],
    ap (λ (k : List Change × List Change). k.0) (sym (returns-injective e)),
    λ none_there. none_there,
  )
  over_blocks_record t p b (a ∷ bs) made e h m =
      let (one, e1, r1) = Read.>>=-eq-returns (joining env a.txns) _ e in
      let (rest, e2, r2) = Read.>>=-eq-returns (over_blocks env (joining env) bs) _ r1 in
      let (ps, listed, is) = joining_records a.txns one e1 in
      let (qs, later_is, later) = over_blocks_record t p b bs rest e2 h m in
      (
        ps ++ qs,
        ap (λ (k : List Change × List Change). k.0) (sym (returns-injective r2))
            ∙ ap (λ l. l ++ rest.0) is
            ∙ ap (λ l. record_all ps ++ l) later_is
            ∙ sym (record_all-append ps qs),
        λ at. elim at [
          | inl same ↦ Among-append_left p ps qs (
              Among-preimages_of env a.txns t ps p listed
                (subst (λ (x : Block). Among t x.txns) same m) h)
          | inr more ↦ Among-append_right p ps qs (later more)
        ],
      )

  -- With a database that reads back what was written: once `SwapMainFork` has returned, no txn whose
  -- preimage is that of a txn of a block of the side path passes `VerifyTxn` on the client's state,
  -- in a fork or outside. The preimage's hash has 32 bytes.
  pub swap_main_fork-no_respend :
      (main_path side_path : List Sha256Sum) (c c' : Client env) (key : Sha256Sum) (b : Block)
      (t u : Txn) (p : Sha256Sum) (forks : Option (Fork × Fork))
      → DbLaws env.ldb
      → swap_main_fork env main_path side_path c ≡ (returns tt, c')
      → Among key side_path
      → get_block env c key ≡ returns (some b)
      → Among t b.txns
      → preimage_hash env t ≡ returns p
      → preimage_hash env u ≡ returns p
      → length p ≡ 32
      → verify_txn env c' u forks ≡ returns false
  unfolding get_block
  swap_main_fork-no_respend main_path side_path c c' key b t u p forks laws e at found m ht hu len =
      let s = swap_main_fork-Swapped env main_path side_path c c' e in
      let there =
        Among-path_blocks (with_headers env s.batch c) key b side_path s.sides s.sides_read at
          found in
      let (ps, is, among) = over_blocks_record t p b (values_of s.sides) s.into s.into_made ht m in
      let stored =
        ap (λ db. ldb.get db p) s.pimgs_written
        ∙ laws.get_write c.dbm.pimg_db (s.gone ++ s.into.0) p s.pimgs_good
        ∙ after-append (ldb.get c.dbm.pimg_db p) p s.gone s.into.0
        ∙ ap (after (after (ldb.get c.dbm.pimg_db p) p s.gone) p) is
        ∙ after-record_all ps p (after (ldb.get c.dbm.pimg_db p) p s.gone) (among there) in
      verify_txn_refuses env c' u p forks hu (get_preimage_stored env c' p len stored)
