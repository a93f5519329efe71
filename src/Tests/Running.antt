-- ===== src/Tests/Running.antt =====
-- A running client, and two clients that call each other.
use ozcoin.Base.{◌≡◌, refl, ap, false, Bool-cases, inl, inr, ◌⊎◌, some, [], ◌∷◌, bytes_eq, String}
use ozcoin.Go.{ok, returns, fails, returns-injective}
use ozcoin.Env.{Env, put}
use ozcoin.Env.Laws.{after}
use ozcoin.Hash.{header_hash}
use ozcoin.Block.{verify_merkle_hash, merkle_hash, merkle_slots}
use ozcoin.Client.{Client, blockchain_client, is_blockchain}
use ozcoin.Store.{get_block, get_side_block, get_orphan_block, put_peer}
use ozcoin.Gossip.{fetch_block, new_hash_msg}
use ozcoin.Load.{load_block}
use ozcoin.Frontier.{Loop, Reachable, started, later, txn, run_start, launch, new_txn}
use ozcoin.Frontier.Turns.{HasTurn, IsTracked, one_at_a_time}
use ozcoin.Frontier.Drain.{Turns, IsIdle, IsStuck, run_drains}
use ozcoin.Rpc.{fetch_block_rpc, handle_rpc}
use ozcoin.Rpc.Served.{CarriesBlocks, with_peer, served_block_fetched}
use ozcoin.Tests.Toy.{toy_ldb-DbLaws, reading, encode_header}
use ozcoin.Tests.Data.{toy, lonely, spend, first_block, first_header, first_hash, databases}

abbrev sent : Loop toy
sent = launch toy (new_txn spend) (run_start toy lonely)

sent-Reachable : Reachable toy 1 sent
sent-Reachable = later (started lonely) (txn (run_start toy lonely) spend)

one_at_a_time_example : HasTurn toy sent × IsTracked toy sent
one_at_a_time_example = one_at_a_time toy sent-Reachable

run_drains_example : ∥ ((m : Loop toy) × Turns toy sent m × (IsIdle toy m ⊎ IsStuck toy m)) ∥₁
run_drains_example = run_drains toy sent-Reachable

-- A store of blocks that reads every one as the first block.
abbrev keeper : Env
keeper = record toy {
  block_json = reading (λ b. encode_header b.header) (λ z b. ok (some first_block));
}

abbrev server : Client keeper
server = record {
  type = blockchain_client;
  last_header = first_header;
  update_wallet = false;
  address = 1 ∷ [];
  dbm = record (databases [] [] []) { block_db = put first_hash [] ∷ [] };
  spawned = [];
}

abbrev caller : Client keeper
caller = record server { address = 9 ∷ [] }

carries : CarriesBlocks keeper server
unfolding fetch_block_rpc handle_rpc put_peer load_block is_blockchain get_block get_side_block
    get_orphan_block after
carries req res e = elim (Bool-cases (bytes_eq req.hash first_hash)) [
  | inl same ↦ let p = rw same at e in ap ok (returns-injective p)
  | inr other ↦ let p = rw other at e in absurd (no p)
]
  where
    no : {x : String} → fails x ≡ returns res → ⊥
    no q = cc

holds : get_block keeper server first_hash ≡ returns (some first_block)
unfolding get_block after bytes_eq
holds = refl

served_block_fetched_example :
    (fetch_block keeper caller first_hash (1 ∷ []) ≡ returns first_block)
    × ((fetch_block_rpc keeper (new_hash_msg keeper caller first_hash) server).1
        ≡ with_peer keeper (9 ∷ []) server)
    × (keeper.ldb.get (with_peer keeper (9 ∷ []) server).dbm.peer_db (9 ∷ []) ≡ ok (some []))
unfolding verify_merkle_hash merkle_hash merkle_slots bytes_eq is_blockchain header_hash
served_block_fetched_example =
    served_block_fetched keeper server caller first_block toy_ldb-DbLaws carries refl refl refl
      holds refl
