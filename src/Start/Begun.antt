-- ===== src/Start/Begun.antt =====
-- What a wallet server has opened before it calls itself.
use ozcoin.Base.{◌≡◌, refl, sym, ap, ◌∙◌, subst, true, String, some, [], bytes_eq, if◌then◌else◌}
use ozcoin.Go.{ok, Outcome, returns, fails, panics, diverges, of_result, returns-injective}
use ozcoin.Go.Run
use ozcoin.Go.Run.{Action, reads, of_error-eq-returns}
use ozcoin.Types.{Bytes, zero_header}
use ozcoin.Env.{Env}
use ozcoin.Env.Laws.{DbLaws}
use ozcoin.Client.{Client, DbManager, svp_client}
use ozcoin.Store.{put_peer}
use ozcoin.Miner.{or_panic}
use ozcoin.Wallet.{WalletServer}
use ozcoin.WalletClient.{Session, WalletClient}
use ozcoin.WalletClient.Served.{of_result-eq-returns}
use ozcoin.Start.{
  Machine, left_by, open_path, open_header_db, open_side_header_db, open_orphan_header_db,
  open_block_db, open_side_block_db, open_orphan_block_db, open_map_db, open_preimage_db,
  open_peer_db, open_txn_pool_db, open_databases, serve, client_paths, new_client, new_svp,
  open_auth_db, open_priv_db, open_txn_db, begin_serving,
}

pub or_panic-returns :
    {S A : Type 0} (m : Action S A) (s s' : S) (a : A)
    → or_panic m s ≡ (returns a, s')
    → m s ≡ (returns a, s')
unfolding or_panic
or_panic-returns {S} {A} m s s' a e = go (m s) refl e
  where
    go :
        (q : Outcome A × S)
        → m s ≡ q
        → or_panic (λ _. q) s ≡ (returns a, s')
        → m s ≡ (returns a, s')
    go (returns b, t) p r = p ∙ r
    go (fails x, t) p r = cc
    go (panics, t) p r = cc
    go (diverges, t) p r = cc

pub left_by-returns :
    {S A : Type 0} (m : Action S A) (s s' : S)
    → left_by (or_panic m) s ≡ returns s'
    → (a : A) × (m s ≡ (returns a, s'))
unfolding left_by or_panic
left_by-returns {S} {A} m s s' e = go (m s) refl e
  where
    go :
        (q : Outcome A × S)
        → m s ≡ q
        → left_by (or_panic λ _. q) s ≡ returns s'
        → (a : A) × (m s ≡ (returns a, s'))
    go (returns a, t) p r = (a, p ∙ ap (λ u. (returns a, u)) (returns-injective r))
    go (fails x, t) p r = cc
    go (panics, t) p r = cc
    go (diverges, t) p r = cc

-- The files hold a database under each path. Opening one gives it, and changes what none holds;
-- neither does a socket.
pub record FilesLaws (env : Env) (machine : Machine env) : Type 0 where
  pub content : machine.Files → String → env.ldb.Db
  pub opened :
      (path : String) (f f' : machine.Files) (db : env.ldb.Db)
      → machine.open_file path f ≡ (ok db, f')
      → (db ≡ content f path) × ((q : String) → content f' q ≡ content f q)
  pub listened :
      (address : Bytes) (f : machine.Files) (q : String)
      → content (machine.listen address f).1 q ≡ content f q

module _ (env : Env) (machine : Machine env) (files : FilesLaws env machine) where
  open machine use {Files}

  -- The files hold the same.
  abbrev Same : Files → Files → Type 0
  Same f f' = (q : String) → files.content f' q ≡ files.content f q

  open_path-opened :
      (path : String) (f f' : Files) (db : env.ldb.Db)
      → open_path env machine path f ≡ (returns db, f')
      → (db ≡ files.content f path) × Same f f'
  unfolding open_path
  open_path-opened path f f' db e =
      let e1 =
        or_panic-returns (λ g. let (r, g') = machine.open_file path g in (of_result r, g')) f f' db
          e in
      let good =
        of_result-eq-returns (machine.open_file path f).0 db
          (ap (λ (q : Outcome env.ldb.Db × Files). q.0) e1) in
      let left = ap (λ (q : Outcome env.ldb.Db × Files). q.1) e1 in
      files.opened path f f' db (λ i. (good i, left i))

  -- What follows for a chain that opens a database first, on files that hold what they held at the
  -- start.
  opens_first :
      {B P : Type 0} {start f f' : Files} (path : String) {rest : env.ldb.Db → Action Files B}
      {b : B}
      → Same start f
      → Run.◌>>=◌ (open_path env machine path) rest f ≡ (returns b, f')
      → ((db : env.ldb.Db) (f1 : Files)
          → db ≡ files.content start path
          → Same start f1
          → rest db f1 ≡ (returns b, f')
          → P)
      → P
  opens_first {f = f} path {rest = rest} same e k =
      let (db, f1, e1, r1) = Run.>>=-eq-returns (open_path env machine path) rest f e in
      let (held, kept) = open_path-opened path f f1 db e1 in
      k db f1 (held ∙ same path) (λ q. kept q ∙ same q) r1

  -- The ten databases of a client, each from its file.
  pub record FromFiles (f : Files) (d : DbManager env.ldb) : Type 0 where
    pub header : d.header_db ≡ files.content f "db/header.db"
    pub side_header : d.side_header_db ≡ files.content f "db/side-header.db"
    pub orphan_header : d.orphan_header_db ≡ files.content f "db/orphan-header.db"
    pub block : d.block_db ≡ files.content f "db/block.db"
    pub side_block : d.side_block_db ≡ files.content f "db/side-block.db"
    pub orphan_block : d.orphan_block_db ≡ files.content f "db/orphan-block.db"
    pub map : d.map_db ≡ files.content f "db/map.db"
    pub pimg : d.pimg_db ≡ files.content f "db/pimg.db"
    pub txn_pool : d.txn_pool_db ≡ files.content f "db/txn-pool.db"

  open_databases-FromFiles :
      (f f' : Files) (d : DbManager env.ldb)
      → open_databases env machine (client_paths env machine) f ≡ (returns d, f')
      → FromFiles f d × (d.peer_db ≡ files.content f "db/peer.db") × Same f f'
  unfolding open_databases open_header_db open_side_header_db open_orphan_header_db open_block_db
      open_side_block_db open_orphan_block_db open_map_db open_preimage_db open_peer_db
      open_txn_pool_db
  open_databases-FromFiles f f' d e =
      opens_first "db/header.db" (λ q. refl) e
        λ d1 f1 p1 s1 r1. opens_first "db/side-header.db" s1 r1 λ d2 f2 p2 s2 r2.
          opens_first "db/orphan-header.db" s2 r2 λ d3 f3 p3 s3 r3.
            opens_first "db/block.db" s3 r3 λ d4 f4 p4 s4 r4.
              opens_first "db/side-block.db" s4 r4 λ d5 f5 p5 s5 r5.
                opens_first "db/orphan-block.db" s5 r5 λ d6 f6 p6 s6 r6.
                  opens_first "db/map.db" s6 r6 λ d7 f7 p7 s7 r7.
                    opens_first "db/pimg.db" s7 r7 λ d8 f8 p8 s8 r8.
                      opens_first "db/peer.db" s8 r8 λ d9 f9 p9 s9 r9.
                        opens_first "db/txn-pool.db" s9 r9 λ d10 f10 p10 s10 r10.
                          let made =
                            returns-injective
                              (ap (λ (q : Outcome (DbManager env.ldb) × Files). q.0) r10) in
                          let last = ap (λ (q : Outcome (DbManager env.ldb) × Files). q.1) r10 in
                          (
                            subst (FromFiles f) made (record {
                              header = p1;
                              side_header = p2;
                              orphan_header = p3;
                              block = p4;
                              side_block = p5;
                              orphan_block = p6;
                              map = p7;
                              pimg = p8;
                              txn_pool = p10;
                            }),
                            ap (λ (m : DbManager env.ldb). m.peer_db) (sym made) ∙ p9,
                            subst (Same f) last s10,
                          )

  -- The client of a wallet server that has started on the files: it keeps no blocks, informs its
  -- wallet, has a miner among its peers, and every database is that of its file.
  pub record Started (f : Files) (mining_address svp_address : Bytes) (c : Client env)
      : Type 0 where
    pub light : c.type ≡ svp_client
    pub informs : c.update_wallet ≡ true
    pub listens_at : c.address ≡ svp_address
    pub unread : c.last_header ≡ zero_header
    pub from_files : FromFiles f c.dbm
    pub peers :
        (j : Bytes)
        → env.ldb.get c.dbm.peer_db j ≡ (
            if bytes_eq j mining_address
            then ok (some [])
            else env.ldb.get (files.content f "db/peer.db") j)

  new_svp-opened :
      (svp_address wallet_address : Bytes) (f f' : Files) (made : Client env × WalletClient)
      → new_svp env machine svp_address wallet_address f ≡ (returns made, f')
      → (d : DbManager env.ldb) × FromFiles f d
        × (d.peer_db ≡ files.content f "db/peer.db")
        × Same f f'
        × (made.0 ≡ record {
          type = svp_client;
          last_header = zero_header;
          update_wallet = true;
          address = svp_address;
          dbm = d;
          spawned = [];
        })
  unfolding new_svp new_client serve
  new_svp-opened svp_address wallet_address f f' made e =
      let (d, f1, e1, r1) =
        Run.>>=-eq-returns (open_databases env machine (client_paths env machine)) _ f e in
      let (a, f2, e2, r2) = Run.>>=-eq-returns (or_panic (serve env machine svp_address)) _ f1 r1 in
      let (held, peer, same) = open_databases-FromFiles f f1 d e1 in
      let listening =
        ap (λ (q : Outcome (Unit {0}) × Files). q.1)
          (or_panic-returns (serve env machine svp_address) f1 f2 a e2) in
      let last = listening ∙ ap (λ (q : Outcome (Client env × WalletClient) × Files). q.1) r2 in
      let is =
        returns-injective (ap (λ (q : Outcome (Client env × WalletClient) × Files). q.0) r2) in
      (
        d,
        held,
        peer,
        subst (Same f) last (λ q. files.listened svp_address f1 q ∙ same q),
        ap (λ (m : Client env × WalletClient). m.0) (sym is),
      )

  -- What a wallet server holds before it calls itself.
  pub begin_serving-Started :
      (db : DbLaws env.ldb) (mining_address svp_address wallet_address : Bytes) (f f' : Files)
      (start : Session (WalletServer env))
      → begin_serving env machine mining_address svp_address wallet_address f ≡ (returns start, f')
      → Started f mining_address svp_address start.server.client
        × (start.server.auth_db ≡ files.content f "db/wallet-auth.db")
        × (start.server.priv_db ≡ files.content f "db/wallet-priv.db")
        × (start.server.txn_db ≡ files.content f "db/wallet-txn.db")
  unfolding begin_serving put_peer open_auth_db open_priv_db open_txn_db
  begin_serving-Started db mining_address svp_address wallet_address f f' start e =
      let (made, f1, e1, r1) =
        Run.>>=-eq-returns (new_svp env machine svp_address wallet_address) _ f e in
      let (c, f2, e2, r2) =
        Run.>>=-eq-returns
          (reads λ (g : Files). left_by (or_panic (put_peer env mining_address)) made.0) _ f1 r1 in
      let (d, held, peer, same, is) = new_svp-opened svp_address wallet_address f f1 made e1 in
      let t2 : Same f f2 =
        subst (Same f) (ap (λ (q : Outcome (Client env) × Files). q.1) e2) same in
      opens_first "db/wallet-auth.db" t2 r2 λ auth f3 p3 s3 r3.
        opens_first "db/wallet-priv.db" s3 r3 λ priv f4 p4 s4 r4.
          opens_first "db/wallet-txn.db" s4 r4 λ txn f5 p5 s5 r5.
            let begun =
              returns-injective
                (ap (λ (q : Outcome (Session (WalletServer env)) × Files). q.0) r5) in
            (
              subst
                  (λ (s : Session (WalletServer env)).
                    Started f mining_address svp_address s.server.client)
                  begun
                  (registered d made.0 c held peer is
                    (ap (λ (q : Outcome (Client env) × Files). q.0) e2)),
              ap (λ (s : Session (WalletServer env)). s.server.auth_db) (sym begun) ∙ p3,
              ap (λ (s : Session (WalletServer env)). s.server.priv_db) (sym begun) ∙ p4,
              ap (λ (s : Session (WalletServer env)). s.server.txn_db) (sym begun) ∙ p5,
            )
    where
      registered :
          (d : DbManager env.ldb) (before c : Client env)
          → FromFiles f d
          → d.peer_db ≡ files.content f "db/peer.db"
          → before ≡ record {
            type = svp_client;
            last_header = zero_header;
            update_wallet = true;
            address = svp_address;
            dbm = d;
            spawned = [];
          }
          → left_by (or_panic (put_peer env mining_address)) before ≡ returns c
          → Started f mining_address svp_address c
      registered d before c held peer is left =
          let fresh : Client env = record {
            type = svp_client;
            last_header = zero_header;
            update_wallet = true;
            address = svp_address;
            dbm = d;
            spawned = [];
          } in
          let (a, put_it) = left_by-returns (put_peer env mining_address) fresh c (
            subst
              (λ (b : Client env). left_by (or_panic (put_peer env mining_address)) b ≡ returns c)
              is left) in
          let good =
            of_error-eq-returns (env.ldb.put d.peer_db mining_address []).0
              (ap (λ (q : Outcome (Unit {0}) × Client env). q.0) put_it) in
          subst (Started f mining_address svp_address)
            (ap (λ (q : Outcome (Unit {0}) × Client env). q.1) put_it)
            (record {
              light = refl;
              informs = refl;
              listens_at = refl;
              unread = refl;
              from_files = record {
                header = held.header;
                side_header = held.side_header;
                orphan_header = held.orphan_header;
                block = held.block;
                side_block = held.side_block;
                orphan_block = held.orphan_block;
                map = held.map;
                pimg = held.pimg;
                txn_pool = held.txn_pool;
              };
              peers = λ j.
                  db.get_put d.peer_db mining_address [] j good
                  ∙ ap
                      (λ (x : env.ldb.Db).
                        if bytes_eq j mining_address then ok (some []) else env.ldb.get x j)
                      peer;
            })
