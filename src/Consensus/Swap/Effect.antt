-- ===== src/Consensus/Swap/Effect.antt =====
-- What `SwapMainFork` has done when it returns, and when it cannot.
use ozcoin.Base.{
  ◌≡◌, refl, ◌∙◌, subst, arith, Bool, true, false, Option, none, some, List, [], ◌∷◌, ◌++◌,
  if◌then◌else◌,
}
use ozcoin.Go.{Outcome, returns}
use ozcoin.Go.Run.{
  Action, ◌>>=◌, ◌>>◌, pure, reads, modify, >>=-eq-returns, >>=-returned, of_error-eq-returns,
}
use ozcoin.Types.{Sha256Sum, BlockHeader, Block}
use ozcoin.Env.{Env, Change}
use ozcoin.Client.{Client, is_blockchain}
use ozcoin.Store.{write_pimg, write_txn_pool, write_map}
use ozcoin.Store.Maps.{put_map_to_block, delete_map_to_block}
use ozcoin.Load.{find_block}
use ozcoin.Consensus.Swap.{
  delete_keys, values_of, path_headers, path_blocks, put_headers, put_blocks, leaving, joining,
  over_blocks, write_headers, write_side_headers, write_blocks, write_side_blocks, write_both,
  each_block, on_block, inform_of_swap, swap_main_fork,
}

module _ (env : Env) where
  open env use {ldb}

  -- The headers and the preimages are as they were.
  abbrev Kept : (c c' : Client env) → Type 0
  Kept c c' =
      (c'.dbm.header_db ≡ c.dbm.header_db)
      × (c'.dbm.side_header_db ≡ c.dbm.side_header_db)
      × (c'.dbm.pimg_db ≡ c.dbm.pimg_db)

  Kept-trans : (c c1 c2 : Client env) → Kept c c1 → Kept c1 c2 → Kept c c2
  Kept-trans c c1 c2 (h, s, p) (h', s', p') = (h' ∙ h, s' ∙ s, p' ∙ p)

  write_both-Kept :
      (mains sides : List (Sha256Sum × Block)) (c c' : Client env)
      → write_both env mains sides c ≡ (returns tt, c')
      → Kept c c'
  unfolding write_both write_blocks write_side_blocks
  write_both-Kept mains sides c c' e = go (is_blockchain c.type) e
    where
      write : Action (Client env) (Unit {0})
      write = do
        write_blocks env (delete_keys mains ++ put_blocks env sides)
        write_side_blocks env (put_blocks env mains ++ delete_keys sides)

      go : (full : Bool) → (if full then write else pure tt) c ≡ (returns tt, c') → Kept c c'
      go true e =
          let (a, c1, e1, r) =
            >>=-eq-returns (write_blocks env (delete_keys mains ++ put_blocks env sides)) _ c e in
          Kept-trans c c1 c'
            (subst (λ (q : Outcome (Unit {0}) × Client env). Kept c q.1) e1 (refl, refl, refl))
            (subst (λ (q : Outcome (Unit {0}) × Client env). Kept c1 q.1) r (refl, refl, refl))
      go false e = subst (λ (q : Outcome (Unit {0}) × Client env). Kept c q.1) e (refl, refl, refl)

  delete_map_to_block-Kept : (b : Block) (c : Client env) → Kept c (delete_map_to_block env b c).1
  unfolding delete_map_to_block write_map
  delete_map_to_block-Kept b c = ground arith

  put_map_to_block-Kept : (b : Block) (c : Client env) → Kept c (put_map_to_block env b c).1
  unfolding put_map_to_block write_map
  put_map_to_block-Kept b c = ground arith

  each_block-Kept :
      (f : Block → Action (Client env) (Unit {0}))
      → ((b : Block) (c : Client env) → Kept c (f b c).1)
      → (keys : List Sha256Sum) (c c' : Client env) → each_block env f keys c ≡ (returns tt, c')
      → Kept c c'
  unfolding each_block on_block
  each_block-Kept f keeps [] c c' e =
      subst (λ (q : Outcome (Unit {0}) × Client env). Kept c q.1) e (refl, refl, refl)
  each_block-Kept f keeps (key ∷ keys) c c' e =
      let (b, e1, r1) = >>=-returned (reads (λ (k : Client env). find_block env k key)) _ c e in
      go (each_block-Kept f keeps keys) b r1
    where
      go :
          (later : (d d' : Client env) → each_block env f keys d ≡ (returns tt, d') → Kept d d')
          (b : Option Block)
          → (on_block env f b >>= λ _. each_block env f keys) c ≡ (returns tt, c')
          → Kept c c'
      go later none r = cc
      go later (some b) r =
          let (a, c1, e2, r2) = >>=-eq-returns (f b) _ c r in
          Kept-trans c c1 c'
            (subst (λ (q : Outcome (Unit {0}) × Client env). Kept c q.1) e2 (keeps b c))
            (later c1 c' r2)

  inform_of_swap-Kept :
      (gone added : List Block) (c : Client env) → Kept c (inform_of_swap env gone added c)
  unfolding inform_of_swap
  inform_of_swap-Kept gone added c = ground arith

  -- What comes behind the last write to the preimages and the pool.
  finish :
      (main_path side_path : List Sha256Sum) (mains sides : List (Sha256Sum × Block))
      → Action (Client env) (Unit {0})
  finish main_path side_path mains sides = do
    write_both env mains sides
    each_block env (delete_map_to_block env) main_path
    each_block env (put_map_to_block env) side_path
    modify (inform_of_swap env (values_of mains) (values_of sides))

  finish-Kept :
      (main_path side_path : List Sha256Sum) (mains sides : List (Sha256Sum × Block))
      (c c' : Client env)
      → finish main_path side_path mains sides c ≡ (returns tt, c')
      → Kept c c'
  unfolding finish
  finish-Kept main_path side_path mains sides c c' e =
      let (a1, c1, e1, r1) = >>=-eq-returns (write_both env mains sides) _ c e in
      let (a2, c2, e2, r2) =
        >>=-eq-returns (each_block env (delete_map_to_block env) main_path) _ c1 r1 in
      let (a3, c3, e3, r3) =
        >>=-eq-returns (each_block env (put_map_to_block env) side_path) _ c2 r2 in
      Kept-trans c c1 c' (write_both-Kept mains sides c c1 e1) (
        Kept-trans c1 c2 c'
          (each_block-Kept (delete_map_to_block env) delete_map_to_block-Kept main_path c1 c2 e2)
          (Kept-trans c2 c3 c'
            (each_block-Kept (put_map_to_block env) put_map_to_block-Kept side_path c2 c3 e3)
            (subst (λ (q : Outcome (Unit {0}) × Client env). Kept c3 q.1) r3
              (inform_of_swap-Kept (values_of mains) (values_of sides) c3))))

  -- The batch of the header databases.
  abbrev pub header_batch :
      List (Sha256Sum × BlockHeader) → List (Sha256Sum × BlockHeader) → List Change
  header_batch mh sh = delete_keys mh ++ put_headers env sh

  -- The client after its two header databases were written.
  abbrev pub with_headers : List Change → Client env → Client env
  with_headers batch c = record c {
    dbm = record (c.dbm) {
      header_db = (ldb.write c.dbm.header_db batch).1;
      side_header_db = (ldb.write c.dbm.side_header_db batch).1;
    };
  }

  -- What a `SwapMainFork` that returned has read and written.
  pub record Swapped (main_path side_path : List Sha256Sum) (c c' : Client env) : Type 0 where
    pub main_headers : List (Sha256Sum × BlockHeader)
    pub side_headers : List (Sha256Sum × BlockHeader)
    pub sides : List (Sha256Sum × Block)
    pub gone : List Change
    pub into : List Change × List Change
    pub batch : List Change
    pub batch_is : batch ≡ header_batch main_headers side_headers
    pub main_read : path_headers env c main_path ≡ returns main_headers
    pub side_read : path_headers env c side_path ≡ returns side_headers
    pub sides_read : path_blocks env (with_headers batch c) side_path ≡ returns sides
    pub into_made : over_blocks env (joining env) (values_of sides) ≡ returns into
    pub headers_good : (ldb.write c.dbm.header_db batch).0 ≡ none
    pub side_headers_good : (ldb.write c.dbm.side_header_db batch).0 ≡ none
    pub pimgs_good : (ldb.write c.dbm.pimg_db (gone ++ into.0)).0 ≡ none
    pub headers_written : c'.dbm.header_db ≡ (ldb.write c.dbm.header_db batch).1
    pub side_headers_written : c'.dbm.side_header_db ≡ (ldb.write c.dbm.side_header_db batch).1
    pub pimgs_written : c'.dbm.pimg_db ≡ (ldb.write c.dbm.pimg_db (gone ++ into.0)).1

  pub swap_main_fork-Swapped :
      (main_path side_path : List Sha256Sum) (c c' : Client env)
      → swap_main_fork env main_path side_path c ≡ (returns tt, c')
      → Swapped main_path side_path c c'
  unfolding swap_main_fork finish write_headers write_side_headers write_pimg write_txn_pool
  swap_main_fork-Swapped main_path side_path c c' e =
      let (mh, e1, r1) =
        >>=-returned (reads (λ (k : Client env). path_headers env k main_path)) _ c e in
      let (sh, e2, r2) =
        >>=-returned (reads (λ (k : Client env). path_headers env k side_path)) _ c r1 in
      let batch = header_batch mh sh in
      let (a3, e3, r3) = >>=-returned (write_headers env batch) _ c r2 in
      let c3 = (write_headers env batch c).1 in
      let (a4, e4, r4) = >>=-returned (write_side_headers env batch) _ c3 r3 in
      let c4 = with_headers batch c in
      let (mains, e5, r5) =
        >>=-returned (reads (λ (k : Client env). path_blocks env k main_path)) _ c4 r4 in
      let (out, e6, r6) =
        >>=-returned (reads (λ (k : Client env). over_blocks env (leaving env k) (values_of mains)))
          _ c4 r5 in
      let (sides, e7, r7) =
        >>=-returned (reads (λ (k : Client env). path_blocks env k side_path)) _ c4 r6 in
      let (into, e8, r8) =
        >>=-returned (reads (λ (k : Client env). over_blocks env (joining env) (values_of sides))) _
          c4 r7 in
      let pimgs = out.0 ++ into.0 in
      let (a9, e9, r9) = >>=-returned (write_pimg env pimgs) _ c4 r8 in
      let c9 = (write_pimg env pimgs c4).1 in
      let (a10, e10, r10) = >>=-returned (write_txn_pool env (out.1 ++ into.1)) _ c9 r9 in
      let c10 = (write_txn_pool env (out.1 ++ into.1) c9).1 in
      let kept = finish-Kept main_path side_path mains sides c10 c' r10 in
      record {
        main_headers = mh;
        side_headers = sh;
        sides = sides;
        gone = out.0;
        into = into;
        batch = batch;
        batch_is = refl;
        main_read = e1;
        side_read = e2;
        sides_read = e7;
        into_made = e8;
        headers_good = of_error-eq-returns _ e3;
        side_headers_good = of_error-eq-returns _ e4;
        pimgs_good = of_error-eq-returns _ e9;
        headers_written = kept.0;
        side_headers_written = kept.1;
        pimgs_written = kept.2;
      }
