-- ===== src/Frontier.antt =====
-- `Client.run` of client.go: the loop that hands hashes, blocks and txns to goroutines of their own,
-- and lets these change the client one at a time, as a step relation. A goroutine waits at
-- `<-startChan`, is past it, or waits to send to `doneChan`. A read that `FilterBlock` or
-- `FilterTxn` makes while a goroutine is past `<-startChan` is taken to come before or after what
-- that goroutine writes.
pub mod Turns
pub mod Drain
use ozcoin.Base.{
  ℕ, suc, ◌≡◌, Bool, true, false, String, List, [], ◌∷◌, ◌++◌, bytes_eq, if◌then◌else◌,
}
use ozcoin.Go.{Result, ok, err, Outcome, returns}
use ozcoin.Go.Read.{◌>>=◌, caught}
use ozcoin.Go.Run.{Action}
use ozcoin.Types.{Sha256Sum, Block, Txn, HashMsg}
use ozcoin.Env.{Env}
use ozcoin.Hash.{header_hash, txn_hash}
use ozcoin.Client.{Client}
use ozcoin.Txn.{has_sum}
use ozcoin.Consensus.Resolve.{
  add_or_orphan, add_to_txn_pool, adopt_mined_block, adopt_txn, filter_block, filter_txn,
}

-- What the loop starts with `go`.
pub data Task : Type 0 where
  resolve_block resolve_txn : HashMsg → Task
  mined_block : Block → Task
  new_txn : Txn → Task

-- `delete(frontier, hash)`
unfoldable pub delete_sum : Sha256Sum → List Sha256Sum → List Sha256Sum
delete_sum key [] = []
delete_sum key (k ∷ ks) = let rest = delete_sum key ks in if bytes_eq key k then rest else k ∷ rest

-- `frontier[hash] = SIGNAL`
unfoldable pub insert_sum : Sha256Sum → List Sha256Sum → List Sha256Sum
insert_sum key ks = if has_sum key ks then ks else key ∷ ks

-- `signals` counts the goroutines that send to `startChan`.
pub record Loop (env : Env) : Type 0 where
  pub client : Client env
  pub frontier : List Sha256Sum
  pub waiting : List Task
  pub running : List Task
  pub finished : List Sha256Sum
  pub signals : ℕ

module _ (env : Env) where
  -- The hash that the goroutine sends to `doneChan`.
  unfoldable pub task_hash : Task → Sha256Sum
  task_hash (resolve_block req) = req.hash
  task_hash (resolve_txn req) = req.hash
  task_hash (mined_block b) = header_hash env b.header
  task_hash (new_txn t) = txn_hash env t

  -- What the goroutine does with the client once it is past `<-startChan`.
  unfoldable pub perform : ℕ → Task → Action (Client env) (Unit {0})
  perform fuel (resolve_block req) = add_or_orphan env fuel req
  perform fuel (resolve_txn req) = add_to_txn_pool env req
  perform fuel (mined_block b) = adopt_mined_block env b
  perform fuel (new_txn t) = adopt_txn env t

  -- The loop's start, with the goroutine that sends the first signal.
  unfoldable pub run_start : Client env → Loop env
  run_start c = record {
    client = c;
    frontier = [];
    waiting = [];
    running = [];
    finished = [];
    signals = 1;
  }

  -- `frontier[hash] = SIGNAL` and the `go` statement.
  unfoldable pub launch : Task → Loop env → Loop env
  unfolding task_hash insert_sum
  launch t l = record l { frontier = insert_sum (task_hash t) l.frontier; waiting = t ∷ l.waiting }

  -- The first two cases of the `select`, with the filter's answer.
  unfoldable pub resolve_unknown : Task → Outcome (Unit {0}) → Loop env → Outcome (Loop env)
  unfolding task_hash launch
  resolve_unknown t filtered l = if has_sum (task_hash t) l.frontier then returns l else (do
    known ← caught filtered
    elim known [ ok u ↦ returns l | err e ↦ returns (launch t l) ])

  unfoldable pub on_block_hash : HashMsg → Loop env → Outcome (Loop env)
  unfolding resolve_unknown
  on_block_hash req l = resolve_unknown (resolve_block req) (filter_block env l.client req) l

  unfoldable pub on_txn_hash : HashMsg → Loop env → Outcome (Loop env)
  unfolding resolve_unknown
  on_txn_hash req l = resolve_unknown (resolve_txn req) (filter_txn env l.client req) l

  -- What a goroutine does: it takes a signal, changes the client, and reports its end, on which the
  -- loop sends the next signal.
  pub data Turn (fuel : ℕ) : Loop env → Loop env → Type 0 where
    start :
        (l : Loop env) (n : ℕ) (before : List Task) (t : Task) (rest : List Task)
        → l.signals ≡ suc n
        → l.waiting ≡ before ++ t ∷ rest
        → Turn fuel l (record l { signals = n; waiting = before ++ rest; running = t ∷ l.running })
    work :
        (l : Loop env) (before : List Task) (t : Task) (rest : List Task) (c : Client env)
        → l.running ≡ before ++ t ∷ rest
        → perform fuel t l.client ≡ (returns tt, c)
        → Turn fuel l
            (record l { client = c; running = before ++ rest; finished = task_hash t ∷ l.finished })
    finish :
        (l : Loop env) (before : List Sha256Sum) (key : Sha256Sum) (rest : List Sha256Sum)
        → l.finished ≡ before ++ key ∷ rest
        → Turn fuel l (record l {
          frontier = delete_sum key l.frontier;
          finished = before ++ rest;
          signals = suc l.signals;
        })

  -- One step of the program: what arrives on the four channels, or a goroutine's turn.
  pub data Step (fuel : ℕ) : Loop env → Loop env → Type 0 where
    block_hash :
        (l l' : Loop env) (req : HashMsg) → on_block_hash req l ≡ returns l' → Step fuel l l'
    txn_hash_in :
        (l l' : Loop env) (req : HashMsg) → on_txn_hash req l ≡ returns l' → Step fuel l l'
    block : (l : Loop env) (b : Block) → Step fuel l (launch (mined_block b) l)
    txn : (l : Loop env) (t : Txn) → Step fuel l (launch (new_txn t) l)
    turn : {l l' : Loop env} → Turn fuel l l' → Step fuel l l'

  -- What the loop may come to.
  pub data Reachable (fuel : ℕ) : Loop env → Type 0 where
    started : (c : Client env) → Reachable fuel (run_start c)
    later : {l l' : Loop env} → Reachable fuel l → Step fuel l l' → Reachable fuel l'
