-- ===== src/Consensus/Swap.antt =====
-- `SwapMainFork`: the main path gives way to the side path.
pub mod Effect
pub mod Headers
pub mod Spent
pub mod Refused
use ozcoin.Base.{Option, none, some, List, [], ◌∷◌, ◌++◌, if◌then◌else◌}
use ozcoin.Go.{Outcome, returns, panics, diverges}
use ozcoin.Go.Read
use ozcoin.Go.Run.{Action, ◌>>=◌, ◌>>◌, pure, panic, reads, modify, checked}
use ozcoin.Types.{Sha256Sum, BlockHeader, Block, Txn}
use ozcoin.Env.{Env, Change, put, delete}
use ozcoin.Hash.{preimage_hash}
use ozcoin.Client.{Client, is_blockchain, wallet_swap, spawn}
use ozcoin.Store.{get_header, get_block, write_pimg, write_txn_pool}
use ozcoin.Store.Maps.{put_map_to_block, delete_map_to_block}
use ozcoin.Load.{find_block}

abbrev delete_keys : {A : Type 0} → List (Sha256Sum × A) → List Change
delete_keys [] = []
delete_keys ((key, _) ∷ l) = delete key ∷ delete_keys l

abbrev values_of : {A : Type 0} → List (Sha256Sum × A) → List A
values_of [] = []
values_of ((_, a) ∷ l) = a ∷ values_of l

module _ (env : Env) where
  open env use {ldb}

  -- The headers of a path, all from the main database. A nil header panics.
  unfoldable pub path_headers :
      Client env → List Sha256Sum → Outcome (List (Sha256Sum × BlockHeader))
  unfolding get_header
  path_headers c [] = returns []
  path_headers c (key ∷ keys) = Read.◌>>=◌ (get_header env c key) λ header. elim header [
    | none ↦ panics
    | some h ↦ Read.◌>>=◌ (path_headers c keys) λ rest. returns ((key, h) ∷ rest)
  ]

  -- The blocks of a path, all from the main database. Any error panics.
  unfoldable pub path_blocks : Client env → List Sha256Sum → Outcome (List (Sha256Sum × Block))
  unfolding get_block
  path_blocks c [] = returns []
  path_blocks c (key ∷ keys) = elim (get_block env c key) [
    | returns (some b) ↦ Read.◌>>=◌ (path_blocks c keys) λ rest. returns ((key, b) ∷ rest)
    | diverges ↦ diverges
    | _ ↦ panics
  ]

  unfoldable pub put_headers : List (Sha256Sum × BlockHeader) → List Change
  put_headers [] = []
  put_headers ((key, h) ∷ l) = put key (env.header_json.encode h) ∷ put_headers l

  unfoldable pub put_blocks : List (Sha256Sum × Block) → List Change
  put_blocks [] = []
  put_blocks ((key, b) ∷ l) = put key (env.block_json.encode b) ∷ put_blocks l

  -- The changes of one txn to the preimages and to the pool: of a block that leaves the main chain,
  -- and of one that joins it. The coinbase txn is not left out.
  unfoldable pub leaving : Client env → List Txn → Outcome (List Change × List Change)
  unfolding preimage_hash is_blockchain
  leaving c [] = returns ([], [])
  leaving c (t ∷ ts) = Read.◌>>=◌ (preimage_hash env t) λ p. Read.◌>>=◌ (leaving c ts) λ rest.
      let (pimgs, pool) = rest in
      returns (
        delete p ∷ pimgs,
        if is_blockchain c.type then put p (env.txn_json.encode t) ∷ pool else pool,
      )

  unfoldable pub joining : List Txn → Outcome (List Change × List Change)
  unfolding preimage_hash
  joining [] = returns ([], [])
  joining (t ∷ ts) = Read.◌>>=◌ (preimage_hash env t) λ p.
      Read.◌>>=◌ (joining ts)
        λ rest. let (pimgs, pool) = rest in returns (put p p ∷ pimgs, delete p ∷ pool)

  -- The same over all blocks of a path.
  unfoldable pub over_blocks :
      (List Txn → Outcome (List Change × List Change))
      → List Block
      → Outcome (List Change × List Change)
  over_blocks f [] = returns ([], [])
  over_blocks f (b ∷ bs) =
      Read.◌>>=◌ (f b.txns)
        λ one. Read.◌>>=◌ (over_blocks f bs) λ rest. returns (one.0 ++ rest.0, one.1 ++ rest.1)

  unfoldable pub write_headers : List Change → Action (Client env) (Unit {0})
  write_headers batch = checked λ c.
      let (e, d) = ldb.write c.dbm.header_db batch in
      (e, record c { dbm = record (c.dbm) { header_db = d } })

  unfoldable pub write_side_headers : List Change → Action (Client env) (Unit {0})
  write_side_headers batch = checked λ c.
      let (e, d) = ldb.write c.dbm.side_header_db batch in
      (e, record c { dbm = record (c.dbm) { side_header_db = d } })

  unfoldable pub write_blocks : List Change → Action (Client env) (Unit {0})
  write_blocks batch = checked λ c.
      let (e, d) = ldb.write c.dbm.block_db batch in
      (e, record c { dbm = record (c.dbm) { block_db = d } })

  unfoldable pub write_side_blocks : List Change → Action (Client env) (Unit {0})
  write_side_blocks batch = checked λ c.
      let (e, d) = ldb.write c.dbm.side_block_db batch in
      (e, record c { dbm = record (c.dbm) { side_block_db = d } })

  -- The use of a nil block panics.
  unfoldable pub on_block :
      (Block → Action (Client env) (Unit {0})) → Option Block → Action (Client env) (Unit {0})
  on_block f none = panic
  on_block f (some b) = f b

  -- One of the last two loops: the map of each block of a path is torn down, or built.
  unfoldable pub each_block :
      (Block → Action (Client env) (Unit {0})) → List Sha256Sum → Action (Client env) (Unit {0})
  unfolding find_block on_block
  each_block f [] = pure tt
  each_block f (key ∷ keys) = do
    b ← reads λ c. find_block env c key
    on_block f b
    each_block f keys

  -- Blocks are kept by a blockchain client alone.
  unfoldable pub write_both :
      List (Sha256Sum × Block) → List (Sha256Sum × Block) → Action (Client env) (Unit {0})
  unfolding is_blockchain write_blocks write_side_blocks put_blocks
  write_both mains sides c =
      (if is_blockchain c.type
          then (do
            write_blocks (delete_keys mains ++ put_blocks sides)
            write_side_blocks (put_blocks mains ++ delete_keys sides))
          else pure tt)
        c

  unfoldable pub inform_of_swap : List Block → List Block → Client env → Client env
  unfolding spawn
  inform_of_swap gone added c = if c.update_wallet then spawn (wallet_swap gone added) c else c

  -- `SwapMainFork`. The code also builds `sideHeaderBatch`, and then writes `headerBatch` to both
  -- header databases.
  unfoldable pub swap_main_fork : List Sha256Sum → List Sha256Sum → Action (Client env) (Unit {0})
  unfolding path_headers put_headers write_headers write_side_headers path_blocks over_blocks
      leaving joining write_both each_block inform_of_swap
  swap_main_fork main_path side_path = do
    main_headers ← reads λ c. path_headers c main_path
    side_headers ← reads λ c. path_headers c side_path
    write_headers (delete_keys main_headers ++ put_headers side_headers)
    write_side_headers (delete_keys main_headers ++ put_headers side_headers)
    mains ← reads λ c. path_blocks c main_path
    out ← reads λ c. over_blocks (leaving c) (values_of mains)
    sides ← reads λ c. path_blocks c side_path
    into ← reads λ c. over_blocks joining (values_of sides)
    write_pimg env (out.0 ++ into.0)
    write_txn_pool env (out.1 ++ into.1)
    write_both mains sides
    each_block (delete_map_to_block env) main_path
    each_block (put_map_to_block env) side_path
    modify (inform_of_swap (values_of mains) (values_of sides))
