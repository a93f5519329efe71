-- ===== src/Rpc/Served.antt =====
-- Two clients, one of which calls the other.
use ozcoin.Base.{◌≡◌, refl, ap, ◌∙◌, true, none, some, [], bytes_eq_refl, if◌then◌else◌}
use ozcoin.Go.{ok, Outcome, returns}
use ozcoin.Go.Run
use ozcoin.Go.Run.{reads, of_error}
use ozcoin.Types.{Bytes, Block, HashMsg, BlockMsg}
use ozcoin.Env.{Env}
use ozcoin.Env.Laws.{DbLaws}
use ozcoin.Hash.{header_hash}
use ozcoin.Block.{verify_merkle_hash}
use ozcoin.Client.{Client, is_blockchain}
use ozcoin.Store.{get_block, put_peer}
use ozcoin.Load.{load_block}
use ozcoin.Gossip.{fetch_block, dial_peer, new_hash_msg}
use ozcoin.Rpc.{handle_rpc, fetch_block_rpc}

module _ (env : Env) where
  -- "Call invokes the named function, waits for it to complete, and returns its error status": what
  -- the function answers comes to the caller.
  abbrev pub CarriesBlocks : Client env → Type 0
  CarriesBlocks server =
      (req : HashMsg) (res : BlockMsg)
      → (fetch_block_rpc env req server).0 ≡ returns res
      → env.net.call_fetch_block server.address req ≡ ok res

  -- The client with a peer more.
  abbrev pub with_peer : Bytes → Client env → Client env
  with_peer address c = record c {
    dbm = record (c.dbm) { peer_db = (env.ldb.put c.dbm.peer_db address []).1 };
  }

  handles :
      (address : Bytes) (c : Client env)
      → (env.ldb.put c.dbm.peer_db address []).0 ≡ none
      → handle_rpc env address c ≡ (returns c.address, with_peer address c)
  unfolding handle_rpc put_peer
  handles address c saved =
      Run.>>=-of_returns (put_peer env address) _ c (λ i. (of_error (saved i), with_peer address c))

  serves_block :
      (server : Client env) (req : HashMsg) (b : Block)
      → (env.ldb.put server.dbm.peer_db req.address []).0 ≡ none
      → is_blockchain server.type ≡ true
      → get_block env server req.hash ≡ returns (some b)
      → fetch_block_rpc env req server
        ≡ (returns (record { address = server.address; block = b }), with_peer req.address server)
  unfolding fetch_block_rpc put_peer load_block get_block
  serves_block server req b saved full has =
      Run.>>=-of_returns (handle_rpc env req.address) _ server (handles req.address server saved)
      ∙ Run.>>=-of_returns (reads λ c. load_block env c req.hash) _ (with_peer req.address server)
          (λ i. (loads i, with_peer req.address server))
    where
      loads : load_block env (with_peer req.address server) req.hash ≡ returns (some b)
      loads = rw (full, has) refl

  -- A full client that has a block serves it: another one that calls it, over a connection that
  -- carries the answers, gets that block from `FetchBlock`, if the block has the hash that was asked
  -- for and its Merkle hash; and the one that was called has the caller among its peers.
  pub served_block_fetched :
      (server c : Client env) (b : Block)
      → DbLaws env.ldb
      → CarriesBlocks server
      → env.net.dial server.address ≡ none
      → (env.ldb.put server.dbm.peer_db c.address []).0 ≡ none
      → is_blockchain server.type ≡ true
      → get_block env server (header_hash env b.header) ≡ returns (some b)
      → verify_merkle_hash env b ≡ true
      → (fetch_block env c (header_hash env b.header) server.address ≡ returns b)
        × ((fetch_block_rpc env (new_hash_msg env c (header_hash env b.header)) server).1
            ≡ with_peer c.address server)
        × (env.ldb.get (with_peer c.address server).dbm.peer_db c.address ≡ ok (some []))
  unfolding fetch_block dial_peer new_hash_msg put_peer
  served_block_fetched server c b db carries reached saved full has merkle =
      let key = header_hash env b.header in
      let req = new_hash_msg env c key in
      let served = serves_block server req b saved full has in
      let answer : env.net.call_fetch_block server.address req
          ≡ ok (record { address = server.address; block = b }) =
        carries req (record { address = server.address; block = b })
          (ap (λ (q : Outcome BlockMsg × Client env). q.0) served) in
      (
        rw (dial_peer, reached, new_hash_msg, answer, bytes_eq_refl key, merkle) refl,
        ap (λ (q : Outcome BlockMsg × Client env). q.1) served,
        db.get_put server.dbm.peer_db c.address [] c.address saved
            ∙ ap (λ z. if z then ok (some []) else env.ldb.get server.dbm.peer_db c.address)
                (bytes_eq_refl c.address),
      )
