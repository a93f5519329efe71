-- ===== src/Start.antt =====
-- How the programs start: the opening of the databases (db.go, wallet-server.go), newClient of
-- client.go, Serve of gossip.go, NewMiner of miner.go and NewWalletServer of wallet-server.go.
pub mod Begun
pub mod Ready
pub mod Address
use ozcoin.Base.{ℕ, Bool, true, false, String, Option, List, [], ◌∷◌}
use ozcoin.Go.{Result, Outcome, returns, fails, panics, diverges, of_result}
use ozcoin.Go.Run.{Action, ◌>>=◌, ◌>>◌, pure, panic, reads, checked}
use ozcoin.Types.{Bytes, WalletPublicKey, zero_header, zero_sum}
use ozcoin.Env.{Env}
use ozcoin.Client.{Client, ClientType, blockchain_client, svp_client, DbManager}
use ozcoin.Store.{put_peer}
use ozcoin.Miner.{or_panic}
use ozcoin.Wallet.{WalletEnv, WalletServer}
use ozcoin.WalletClient.{WalletClient, Http, Messages, Session, open_wallet, tracking_keys}

-- The files and sockets of a machine: `leveldb.OpenFile` with no options, and `net.Listen` on TCP.
pub record Machine (env : Env) : Type 1 where
  pub Files : Type 0
  pub open_file : String → Files → Result env.ldb.Db × Files
  pub listen : Bytes → Files → Option String × Files

-- The paths of a client's databases.
pub record Paths : Type 0 where
  pub header : String
  pub side_header : String
  pub orphan_header : String
  pub block : String
  pub side_block : String
  pub orphan_block : String
  pub map : String
  pub pimg : String
  pub peer : String
  pub txn_pool : String

-- The state that a call leaves, where it returns.
unfoldable pub left_by : {S A : Type 0} → Action S A → S → Outcome S
left_by m s =
    let (r, s') = m s in
    elim r [ returns _ ↦ returns s' | fails x ↦ fails x | panics ↦ panics | diverges ↦ diverges ]

-- A client with nothing but the address of its wallet.
unfoldable pub wallet_at : Bytes → WalletClient
wallet_at address = record { address = address; wallet_token = zero_sum; keys = []; outputs = [] }

module _ (env : Env) (machine : Machine env) where
  open machine use {Files}

  -- A database whose error is handed to `panic`.
  open_path : String → Action Files env.ldb.Db
  unfolding or_panic
  open_path path = or_panic λ f. let (r, f') = machine.open_file path f in (of_result r, f')

  unfoldable pub open_header_db : Paths → Action Files env.ldb.Db
  unfolding open_path
  open_header_db p = open_path p.header

  unfoldable pub open_side_header_db : Paths → Action Files env.ldb.Db
  unfolding open_path
  open_side_header_db p = open_path p.side_header

  unfoldable pub open_orphan_header_db : Paths → Action Files env.ldb.Db
  unfolding open_path
  open_orphan_header_db p = open_path p.orphan_header

  unfoldable pub open_block_db : Paths → Action Files env.ldb.Db
  unfolding open_path
  open_block_db p = open_path p.block

  unfoldable pub open_side_block_db : Paths → Action Files env.ldb.Db
  unfolding open_path
  open_side_block_db p = open_path p.side_block

  unfoldable pub open_orphan_block_db : Paths → Action Files env.ldb.Db
  unfolding open_path
  open_orphan_block_db p = open_path p.orphan_block

  unfoldable pub open_map_db : Paths → Action Files env.ldb.Db
  unfolding open_path
  open_map_db p = open_path p.map

  unfoldable pub open_preimage_db : Paths → Action Files env.ldb.Db
  unfolding open_path
  open_preimage_db p = open_path p.pimg

  unfoldable pub open_peer_db : Paths → Action Files env.ldb.Db
  unfolding open_path
  open_peer_db p = open_path p.peer

  unfoldable pub open_txn_pool_db : Paths → Action Files env.ldb.Db
  unfolding open_path
  open_txn_pool_db p = open_path p.txn_pool

  -- `OpenDatabases` and `OpenConnections`
  unfoldable pub open_databases : Paths → Action Files (DbManager env.ldb)
  unfolding open_header_db open_side_header_db open_orphan_header_db open_block_db
      open_side_block_db open_orphan_block_db open_map_db open_preimage_db open_peer_db
      open_txn_pool_db
  open_databases p = do
    header_db ← open_header_db p
    side_header_db ← open_side_header_db p
    orphan_header_db ← open_orphan_header_db p
    block_db ← open_block_db p
    side_block_db ← open_side_block_db p
    orphan_block_db ← open_orphan_block_db p
    map_db ← open_map_db p
    pimg_db ← open_preimage_db p
    peer_db ← open_peer_db p
    txn_pool_db ← open_txn_pool_db p
    pure (record {
      header_db = header_db;
      side_header_db = side_header_db;
      orphan_header_db = orphan_header_db;
      block_db = block_db;
      side_block_db = side_block_db;
      orphan_block_db = orphan_block_db;
      map_db = map_db;
      pimg_db = pimg_db;
      peer_db = peer_db;
      txn_pool_db = txn_pool_db;
    })

  -- `Client.Serve`: the goroutine that accepts calls is the caller of Rpc.
  unfoldable pub serve : Bytes → Action Files (Unit {0})
  serve address = checked (machine.listen address)

  -- The paths that `newClient` sets.
  abbrev pub client_paths : Paths
  client_paths = record {
    header = "db/header.db";
    side_header = "db/side-header.db";
    orphan_header = "db/orphan-header.db";
    block = "db/block.db";
    side_block = "db/side-block.db";
    orphan_block = "db/orphan-block.db";
    map = "db/map.db";
    pimg = "db/pimg.db";
    peer = "db/peer.db";
    txn_pool = "db/txn-pool.db";
  }

  -- `newClient`: the client, and its wallet client. The goroutine that it starts is in Frontier.
  unfoldable pub new_client :
      ClientType
      → (client_address wallet_address : Bytes) → Bool
      → Action Files (Client env × WalletClient)
  unfolding open_databases serve wallet_at or_panic
  new_client t client_address wallet_address update_wallet = do
    dbm ← open_databases client_paths
    or_panic (serve client_address)
    pure (
      record {
        type = t;
        last_header = zero_header;
        update_wallet = update_wallet;
        address = client_address;
        dbm = dbm;
        spawned = [];
      },
      wallet_at wallet_address,
    )

  unfoldable pub new_blockchain :
      (client_address wallet_address : Bytes) → Action Files (Client env × WalletClient)
  unfolding new_client
  new_blockchain client_address wallet_address =
      new_client blockchain_client client_address wallet_address false

  unfoldable pub new_svp :
      (client_address wallet_address : Bytes) → Action Files (Client env × WalletClient)
  unfolding new_client
  new_svp client_address wallet_address = new_client svp_client client_address wallet_address true

  unfoldable pub open_auth_db : Action Files env.ldb.Db
  unfolding open_path
  open_auth_db = open_path "db/wallet-auth.db"

  unfoldable pub open_priv_db : Action Files env.ldb.Db
  unfolding open_path
  open_priv_db = open_path "db/wallet-priv.db"

  unfoldable pub open_txn_db : Action Files env.ldb.Db
  unfolding open_path
  open_txn_db = open_path "db/wallet-txn.db"

  -- `NewWalletServer`, up to the call of its own /open: the client's peer is the miner, and no key
  -- and no output is loaded. The broadcast that it makes after five seconds is not run.
  unfoldable pub begin_serving :
      (mining_address svp_address wallet_address : Bytes)
      → Action Files (Session (WalletServer env))
  unfolding new_svp put_peer left_by or_panic open_auth_db open_priv_db open_txn_db
  begin_serving mining_address svp_address wallet_address = do
    made ← new_svp svp_address wallet_address
    client ← reads λ f. left_by (or_panic (put_peer env mining_address)) made.0
    auth_db ← open_auth_db
    priv_db ← open_priv_db
    txn_db ← open_txn_db
    pure (record {
      client = made.1;
      server = record {
        client = client;
        auth_db = auth_db;
        priv_db = priv_db;
        txn_db = txn_db;
        privs = [];
        outputs = [];
      };
    })

module _ (env : Env) (machine : Machine env) (wallet : WalletEnv) (msgs : Messages) where
  open machine use {Files}

  -- `NewWalletServer`: its client opens the wallet over HTTP at the server itself.
  unfoldable pub new_wallet_server :
      Http (WalletServer env)
      → (mining_address svp_address wallet_address password : Bytes)
      → Action Files (Session (WalletServer env))
  unfolding begin_serving left_by or_panic open_wallet
  new_wallet_server http mining_address svp_address wallet_address password = do
    s ← begin_serving env machine mining_address svp_address wallet_address
    reads λ f. left_by (or_panic (open_wallet env wallet http msgs password)) s

  module _ {Server : Type 0} (http : Http Server) where
    -- `NewMiner`, at the wallet server that it finds.
    unfoldable pub new_miner :
        (mining_addr wallet_addr password : Bytes)
        → Server
        → Action Files (Client env × Session Server)
    unfolding new_blockchain left_by or_panic open_wallet
    new_miner mining_addr wallet_addr password server = do
      made ← new_blockchain env machine mining_addr wallet_addr
      s ← reads λ f.
          left_by (or_panic (open_wallet env wallet http msgs password))
            (record { client = made.1; server = server })
      pure (made.0, s)

module _ (env : Env) (wallet : WalletEnv) {Server : Type 0} (http : Http Server)
    (msgs : Messages) where
  -- The key that `Miner.run` mines for: the first one that the wallet answers with.
  unfoldable pub mining_address : Action (Session Server) WalletPublicKey
  unfolding or_panic tracking_keys
  mining_address = do
    addresses ← or_panic (tracking_keys env wallet http msgs)
    elim addresses [ [] ↦ panic | k ∷ _ ↦ pure k.public_key ]
