-- ===== src/Consensus/Extend.antt =====
-- What `ExtendMainChain` has done when it returns true.
use ozcoin.Base.{
  ◌≡◌, sym, ◌∙◌, ap, arith, Bool, true, false, Option, none, some, length, Among, bytes_eq,
  bytes_eq_refl, if◌then◌else◌,
}
use ozcoin.Go.{ok, Outcome, returns}
use ozcoin.Go.Run.{Action, ◌>>◌, pure, reads, modify, of_error-eq-returns, >>=-eq-returns}
use ozcoin.Types.{Bytes, Sha256Sum, BlockHeader, Block, Txn}
use ozcoin.Env.{Env}
use ozcoin.Env.Laws.{DbLaws, ReadsBack}
use ozcoin.Hash.{header_hash, preimage_hash}
use ozcoin.Client.{Client, DbManager}
use ozcoin.Chain.{Fork}
use ozcoin.Store.{get_header, get_preimage, put_header}
use ozcoin.Store.Reads.{get_header_of_put}
use ozcoin.Txn.{post_valid_block, verify_txn, preimage_refused}
use ozcoin.Consensus.Main.{behind_first, write_block, inform_wallet, extend_main_chain}
use ozcoin.Consensus.Written.{after-record_all, Among-preimages_of, write_block_effect}

module _ (env : Env) where
  open env use {ldb}

  -- The steps of an `ExtendMainChain` that returned true.
  pub extend_main_chain_steps :
      (h : BlockHeader) (b : Block) (c c' : Client env)
      → extend_main_chain env h b c ≡ (returns true, c')
      → (c1 : Client env) × (c2 : Client env) × (post_valid_block env c b none none ≡ returns true)
        × (put_header env h c ≡ (returns tt, c1))
        × (write_block env b c1 ≡ (returns tt, c2))
        × (c' ≡ record (inform_wallet env b c2) { last_header = h })
  unfolding extend_main_chain
  extend_main_chain_steps h b c c' e =
      let (good, s, e1, r1) =
        >>=-eq-returns (reads (λ (k : Client env). post_valid_block env k b none none)) _ c e in
      go good s e1 r1
    where
      accept : Action (Client env) Bool
      accept = do
        put_header env h
        write_block env b
        modify (inform_wallet env b)
        modify (λ c. record c { last_header = h })
        pure true

      go :
          (good : Bool) (s : Client env)
          → ◌≡◌ {A = Outcome Bool × Client env}
              (post_valid_block env c b none none, c)
              (returns good, s)
          → (elim good as (λ g. Action (Client env) Bool) [ false ↦ pure false | true ↦ accept ]) s
            ≡ (returns true, c')
          → (c1 : Client env) × (c2 : Client env) × (post_valid_block env c b none none
              ≡ returns true)
            × (put_header env h c ≡ (returns tt, c1))
            × (write_block env b c1 ≡ (returns tt, c2))
            × (c' ≡ record (inform_wallet env b c2) { last_header = h })
      go false s e1 r1 = cc
      go true s e1 r1 =
          let start : c ≡ s = ap (λ (q : Outcome Bool × Client env). q.1) e1 in
          let (a1, c1, e2, r2) = >>=-eq-returns (put_header env h) _ s r1 in
          let (a2, c2, e3, r3) = >>=-eq-returns (write_block env b) _ c1 r2 in
          (
            c1,
            c2,
            ap (λ (q : Outcome Bool × Client env). q.0) e1,
            ap (put_header env h) start ∙ e2,
            e3,
            sym (ap (λ (q : Outcome Bool × Client env). q.1) r3),
          )

  inform_wallet_frame : (b : Block) (c : Client env) → (inform_wallet env b c).dbm ≡ c.dbm
  unfolding inform_wallet
  inform_wallet_frame b c = ground arith

  pub get_preimage_stored :
      (c : Client env) (p : Sha256Sum)
      → length p ≡ 32
      → ldb.get c.dbm.pimg_db p ≡ ok (some p)
      → get_preimage env c p ≡ true
  unfolding get_preimage
  get_preimage_stored c p len e = ground (arith, bytes_eq_refl p)

  pub verify_txn_refuses :
      (c : Client env) (u : Txn) (p : Sha256Sum) (forks : Option (Fork × Fork))
      → preimage_hash env u ≡ returns p
      → get_preimage env c p ≡ true
      → verify_txn env c u forks ≡ returns false
  unfolding verify_txn preimage_refused
  verify_txn_refuses c u p none h g = rw h (rw g)
  verify_txn_refuses c u p (some forks) h g = rw h (rw g)

  -- With databases that read back what was written: once `ExtendMainChain` has returned true for a
  -- block, no txn whose preimage is that of a txn of the block, other than its first, passes
  -- `VerifyTxn` on the client's state, in a fork or outside. The preimage's hash has 32 bytes.
  pub extend_main_chain-no_respend :
      (h : BlockHeader) (b : Block) (c c' : Client env) (t u : Txn) (p : Sha256Sum)
      (forks : Option (Fork × Fork))
      → DbLaws env.ldb
      → extend_main_chain env h b c ≡ (returns true, c')
      → Among t (behind_first b.txns)
      → preimage_hash env t ≡ returns p
      → preimage_hash env u ≡ returns p
      → length p ≡ 32
      → verify_txn env c' u forks ≡ returns false
  extend_main_chain-no_respend h b c c' t u p forks laws e m ht hu len =
      let (c1, c2, good, e1, e2, e3) = extend_main_chain_steps h b c c' e in
      let (ps, listed, reads_as, kept) = write_block_effect env b c1 c2 laws e2 in
      let among : Among p ps = Among-preimages_of env (behind_first b.txns) t ps p listed m ht in
      let same_db : c'.dbm ≡ c2.dbm =
        ap (λ (k : Client env). k.dbm) e3 ∙ inform_wallet_frame b c2 in
      let stored : ldb.get c'.dbm.pimg_db p ≡ ok (some p) =
        ap (λ (d : DbManager ldb). ldb.get d.pimg_db p) same_db
        ∙ reads_as p
        ∙ after-record_all ps p (ldb.get c1.dbm.pimg_db p) among in
      verify_txn_refuses c' u p forks hu (get_preimage_stored c' p len stored)

  put_header_effect :
      (h : BlockHeader) (c c' : Client env)
      → DbLaws env.ldb
      → put_header env h c ≡ (returns tt, c')
      → (j : Bytes)
      → ldb.get c'.dbm.header_db j ≡ (
          if bytes_eq j (header_hash env h)
          then ok (some (env.header_json.encode h))
          else ldb.get c.dbm.header_db j)
  unfolding put_header
  put_header_effect h c c' laws e j =
      let wrote = of_error-eq-returns _ (ap (λ (q : Outcome (Unit {0}) × Client env). q.0) e) in
      ap (λ db. ldb.get db j)
        (sym (ap (λ (q : Outcome (Unit {0}) × Client env). q.1.dbm.header_db) e))
      ∙ laws.get_put c.dbm.header_db (header_hash env h) (env.header_json.encode h) j wrote

  -- With databases and JSON that read back what was written: `ExtendMainChain` returns true only
  -- for a block that passes its validation. The header is then the last one, it can be read back by
  -- its hash, and every header that could be read under another hash still can.
  pub extend_main_chain_effect :
      (h : BlockHeader) (b : Block) (c c' : Client env)
      → DbLaws env.ldb
      → ReadsBack env.header_json
      → extend_main_chain env h b c ≡ (returns true, c')
      → (post_valid_block env c b none none ≡ returns true)
        × (c'.last_header ≡ h)
        × ((key : Sha256Sum)
            → get_header env c' key ≡ (
                if bytes_eq key (header_hash env h)
                then returns (some h)
                else get_header env c key))
  extend_main_chain_effect h b c c' laws back e =
      let (c1, c2, good, e1, e2, e3) = extend_main_chain_steps h b c c' e in
      let (ps, listed, reads_as, kept) = write_block_effect env b c1 c2 laws e2 in
      let same_db : c'.dbm ≡ c2.dbm =
        ap (λ (k : Client env). k.dbm) e3 ∙ inform_wallet_frame b c2 in
      let same : c'.dbm.header_db ≡ c1.dbm.header_db =
        ap (λ (d : DbManager ldb). d.header_db) same_db ∙ kept in
      (
        good,
        ap (λ (k : Client env). k.last_header) e3,
        λ key.
            get_header_of_put env c c' key h (bytes_eq key (header_hash env h)) back
              (ap (λ db. ldb.get db key) same ∙ put_header_effect h c c1 laws e1 key),
      )
