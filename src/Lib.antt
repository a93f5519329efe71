-- ===== src/Lib.antt =====
-- OZcoin: a Go program for a currency on a chain of blocks, in which a txn is signed by a ring of
-- 8 outputs and an amount is a Pedersen commitment with a range proof.
--
-- The parts, and how they meet. A client (client.go) keeps ten goleveldb databases (db.go) and its
-- last header. Blocks and txns come from peers (gossip.go) or from its own miner and wallet, and
-- are loaded from the databases or fetched (block.go, txn.go, output.go). consensus.go decides
-- whether a block extends the main chain, joins a side chain or is kept as an orphan; block.go
-- checks headers and blocks, txn.go checks txns by the ring signature of ozrs.go and the range
-- proofs of rangeproof.go, and chain.go gives the difficulty and the coinbase value. The miner
-- (miner.go) makes blocks from the txn pool and sends them to its client; the wallet server
-- (wallet-server.go) keeps the keys and the outputs that belong to them, and signs payments. A
-- client reaches its wallet server over HTTP (wallet-client.go), with the token of its password.
--
-- The files:
--   Types          the structs of block.go, txn.go, output.go, commitment.go, rangeproof.go,
--                  ozrs.go, eccpoint.go and address.go, messages of gossip.go, constants of common.go
--   Env            SHA-256, P-256, JSON, goleveldb, the peers and the clock, as one parameter;
--                  Env/Laws and Hash/Group hold what the theorems ask of them
--   Go             how a call ends (a value, an error, a panic, or no end), and two monads: Go/Read
--                  for code that reads the client, Go/Run for code that changes it
--   Hash           hash.go, commitment.go, and the Hash methods
--   RangeProof     rangeproof.go        Ring       ozrs.go
--   Client         client.go (state)    Store      db.go
--   Block          block.go (checks)    Chain      chain.go
--   Gossip         gossip.go (fetching) Load       LoadBlock, FindBlock, LoadOutput, FindOutput, LoadTxn
--   Rpc            gossip.go (the handlers of calls, and sendBcast)
--   Frontier       Client.run of client.go, as a step relation
--   Mining         NewBlock and GenesisBlock of block.go
--   Miner          miner.go
--   Payment        BuildOutputs and NewTxn of txn.go, RangeCommit, NewPrivateKey, and the decryption
--                  of output.go
--   Wallet         wallet-server.go: the password and the token; Wallet/Funding and Wallet/Saving for
--                  the outputs, Wallet/Handlers for the requests
--                  Wallet/Ledger, Wallet/Balance and Wallet/Saving/ for what the database is worth
--   Start          the opening of the databases, newClient, Serve, NewMiner and NewWalletServer
--   WalletClient   wallet-client.go; WalletClient/Server has the routes of wallet-server.go
--   Txn            txn.go (checks), PrevalidBlock and PostValidBlock of block.go
--   Output         output.go (ownership, the key that spends), NewCoinbaseTxn of txn.go
--   Consensus      consensus.go, WriteBlock and BcastBlock of block.go, BcastTxn of txn.go, AdoptTxn,
--                  AdoptMinedBlock, FilterBlock and FilterTxn of client.go
--   Base           lists, tests and integers over the native numbers
--   Tests          a small instance of Env, and runs
-- A function keeps its name, in snake case: ExtendMainChain is extend_main_chain. A method of
-- *Client that writes is an action, from a client to an outcome and a client; what was written
-- before an error or a panic stays written. Logging is left out.
--
-- Bounds and fuel. A uint64 sum is taken modulo 2^64; big.Int is ℤ, and Bytes gives the bytes of its
-- absolute value. The loops of MerkleHash have fuel that is shown to be enough. Loops that follow stored
-- hashes (the total difficulties, FindForkPaths, AddOrOrphanHelper) may go on for ever on some
-- stored data: when the fuel ends the outcome is `diverges`, which is not a value, and the theorems on
-- them hold with any fuel.
--
-- The loop of Client.run hands its work to goroutines that wait for each other's signals; Frontier
-- has their turns as steps, and each turn is a call of Consensus that runs to its end. A read that
-- the loop makes meanwhile is taken to come before or after that call. What is drawn at random, the
-- clock, and the body and the cookie of a request are arguments of the functions that read them. The
-- source is older than Go 1.22: a loop has one variable for all its rounds.
--
-- Not modelled: the goroutines that tell the wallet and the peers are listed in `spawned` and not run
-- (sendBcast is there by itself); miner/run.go and wallet/run.go, which call NewMiner and
-- NewWalletServer with constants. Files, sockets and JSON are parameters, as are the floating point
-- quotient of ComputeDifficulty and what is drawn at random; a stored wallet key has its numbers.
pub mod Base
pub mod Go
pub mod Types
pub mod Env
pub mod Hash
pub mod RangeProof
pub mod Ring
pub mod Client
pub mod Store
pub mod Block
pub mod Chain
pub mod Gossip
pub mod Load
pub mod Txn
pub mod Output
pub mod Mining
pub mod Consensus
pub mod Frontier
pub mod Rpc
pub mod Miner
pub mod Payment
pub mod Wallet
pub mod WalletClient
pub mod Start
pub mod Tests
