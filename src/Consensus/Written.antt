-- ===== src/Consensus/Written.antt =====
-- What `WriteBlock` has done when it returns.
use ozcoin.Base.{
  ◌≡◌, refl, sym, ◌∙◌, ap, subst, arith, inl, inr, Option, none, some, List, [], ◌∷◌, ◌++◌, Among,
  Bool-cases, bytes_eq, bytes_eq_refl, bytes_eq_iff, if◌then◌else◌,
}
use ozcoin.Go.{Result, ok, err, Outcome, returns, returns-injective}
use ozcoin.Go.Read
use ozcoin.Go.Run.{reads, of_error-eq-returns, >>=-eq-returns}
use ozcoin.Types.{Bytes, Sha256Sum, Block, Txn}
use ozcoin.Env.{Env, Change, put, delete}
use ozcoin.Env.Laws.{DbLaws, after}
use ozcoin.Hash.{preimage_hash}
use ozcoin.Client.{Client, is_blockchain}
use ozcoin.Store.{put_block, write_pimg, write_map, write_txn_pool}
use ozcoin.Store.Maps.{put_map_to_block}
use ozcoin.Consensus.Main.{record_all, behind_first, preimages_of, write_if_blockchain, write_block}

pub after-append :
    (found : Result (Option Bytes)) (k : Bytes) (first second : List Change)
    → after found k (first ++ second) ≡ after (after found k first) k second
unfolding after
after-append found k [] second = refl
after-append found k (put j v ∷ first) second =
    after-append (if bytes_eq k j then ok (some v) else found) k first second
after-append found k (delete j ∷ first) second =
    after-append (if bytes_eq k j then err "leveldb: not found" else found) k first second

-- What is recorded is found: each preimage is stored under itself.
pub after-record_all_found :
    (ps : List Sha256Sum) (p : Sha256Sum) → after (ok (some p)) p (record_all ps) ≡ ok (some p)
unfolding after record_all
after-record_all_found [] p = refl
after-record_all_found (q ∷ ps) p = elim (Bool-cases (bytes_eq p q)) [
  | inl same ↦
      rw (same, after)
        (subst (λ x. after (ok (some x)) p (record_all ps) ≡ ok (some p))
          ((bytes_eq_iff p q).0 same) (after-record_all_found ps p))
  | inr other ↦ rw (other, after) (after-record_all_found ps p)
]

pub after-record_all :
    (ps : List Sha256Sum) (p : Sha256Sum) (found : Result (Option Bytes))
    → Among p ps
    → after found p (record_all ps) ≡ ok (some p)
unfolding after record_all
after-record_all [] p found m = absurd m
after-record_all (q ∷ ps) p found (inl e) =
    rw (← e, bytes_eq_refl p, after) (after-record_all_found ps p)
after-record_all (q ∷ ps) p found (inr m) =
    after-record_all ps p (if bytes_eq p q then ok (some q) else found) m

module _ (env : Env) where
  open env use {ldb}

  -- The preimage of each txn is among those of the list.
  pub Among-preimages_of :
      (ts : List Txn) (t : Txn) (ps : List Sha256Sum) (p : Sha256Sum)
      → preimages_of env ts ≡ returns ps
      → Among t ts
      → preimage_hash env t ≡ returns p
      → Among p ps
  unfolding preimages_of
  Among-preimages_of [] t ps p e m h = absurd m
  Among-preimages_of (u ∷ ts) t ps p e m h =
      let (q, eq, e') = Read.>>=-eq-returns (preimage_hash env u) _ e in
      let (qs, eqs, e'') = Read.>>=-eq-returns (preimages_of env ts) _ e' in
      let cons : q ∷ qs ≡ ps = returns-injective e'' in
      elim m [
        | inl same ↦
            subst (Among p) cons
              (inl (returns-injective (sym h ∙ ap (preimage_hash env) same ∙ eq)))
        | inr later ↦ subst (Among p) cons (inr (Among-preimages_of ts t qs p eqs later h))
      ]

  -- The other writes of `WriteBlock` leave the preimages and the headers alone.
  write_if_blockchain_frame :
      (b : Block) (c : Client env)
      → ((write_if_blockchain env b c).1.dbm.pimg_db ≡ c.dbm.pimg_db)
        × ((write_if_blockchain env b c).1.dbm.header_db ≡ c.dbm.header_db)
  unfolding write_if_blockchain put_block
  write_if_blockchain_frame b c = elim (Bool-cases (is_blockchain c.type)) [
    | inl full ↦ rw full (refl, refl)
    | inr light ↦ rw light (refl, refl)
  ]

  put_map_to_block_frame :
      (b : Block) (c : Client env)
      → ((put_map_to_block env b c).1.dbm.pimg_db ≡ c.dbm.pimg_db)
        × ((put_map_to_block env b c).1.dbm.header_db ≡ c.dbm.header_db)
  unfolding put_map_to_block write_map
  put_map_to_block_frame b c = ground arith

  -- What `WriteBlock` has done to the preimages and the headers when it returns.
  pub write_block_effect :
      (b : Block) (c c' : Client env)
      → DbLaws env.ldb
      → write_block env b c ≡ (returns tt, c')
      → (ps : List Sha256Sum) × (preimages_of env (behind_first b.txns) ≡ returns ps)
        × ((j : Bytes)
            → ldb.get c'.dbm.pimg_db j ≡ after (ldb.get c.dbm.pimg_db j) j (record_all ps))
        × (c'.dbm.header_db ≡ c.dbm.header_db)
  unfolding write_block write_pimg write_txn_pool
  write_block_effect b c c' laws e =
      let (a1, c1, e1, r1) = >>=-eq-returns (write_if_blockchain env b) _ c e in
      let (ps, c2, e2, r2) =
        >>=-eq-returns (reads (λ (k : Client env). preimages_of env (behind_first b.txns))) _ c1
          r1 in
      let (a3, c3, e3, r3) = >>=-eq-returns (write_pimg env (record_all ps)) _ c2 r2 in
      let (a4, c4, e4, r4) = >>=-eq-returns (put_map_to_block env b) _ c3 r3 in
      let batch = record_all ps in
      let before : c2.dbm.pimg_db ≡ c.dbm.pimg_db =
        sym (ap (λ (q : Outcome (List Sha256Sum) × Client env). q.1.dbm.pimg_db) e2)
        ∙ sym (ap (λ (q : Outcome (Unit {0}) × Client env). q.1.dbm.pimg_db) e1)
        ∙ (write_if_blockchain_frame b c).0 in
      let wrote : (ldb.write c2.dbm.pimg_db batch).0 ≡ none =
        of_error-eq-returns _ (ap (λ (q : Outcome (Unit {0}) × Client env). q.0) e3) in
      let then_on : c'.dbm.pimg_db ≡ (ldb.write c2.dbm.pimg_db batch).1 =
        sym (ap (λ (q : Outcome (Unit {0}) × Client env). q.1.dbm.pimg_db) r4)
        ∙ sym (ap (λ (q : Outcome (Unit {0}) × Client env). q.1.dbm.pimg_db) e4)
        ∙ (put_map_to_block_frame b c3).0
        ∙ sym (ap (λ (q : Outcome (Unit {0}) × Client env). q.1.dbm.pimg_db) e3) in
      let headers : c'.dbm.header_db ≡ c.dbm.header_db =
        sym (ap (λ (q : Outcome (Unit {0}) × Client env). q.1.dbm.header_db) r4)
        ∙ sym (ap (λ (q : Outcome (Unit {0}) × Client env). q.1.dbm.header_db) e4)
        ∙ (put_map_to_block_frame b c3).1
        ∙ sym (ap (λ (q : Outcome (Unit {0}) × Client env). q.1.dbm.header_db) e3)
        ∙ sym (ap (λ (q : Outcome (List Sha256Sum) × Client env). q.1.dbm.header_db) e2)
        ∙ sym (ap (λ (q : Outcome (Unit {0}) × Client env). q.1.dbm.header_db) e1)
        ∙ (write_if_blockchain_frame b c).1 in
      (
        ps,
        ap (λ (q : Outcome (List Sha256Sum) × Client env). q.0) e2,
        λ j.
            ap (λ db. ldb.get db j) then_on
            ∙ laws.get_write c2.dbm.pimg_db batch j wrote
            ∙ ap (λ db. after (ldb.get db j) j batch) before,
        headers,
      )
