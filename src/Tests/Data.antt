-- ===== src/Tests/Data.antt =====
-- Txns, blocks and clients of the runs.
use ozcoin.Base.{◌∷◌, [], List, pos, some, replicate, false}
use ozcoin.Types.{
  Sha256Sum, EccPoint, RangeProof, Output, Txn, BlockHeader, Block, HashMsg, stored, zero_sum,
  zero_header,
}
use ozcoin.Env.{Env, Change, put}
use ozcoin.Client.{Client, svp_client, DbManager}
use ozcoin.Tests.Toy.{toy_env, toy_net, toy_ldb, origin, fit, flat, encode_header}

abbrev pub there : EccPoint
there = stored origin

abbrev pub proof : RangeProof
proof = record {
  e = zero_sum;
  ss = replicate 34 (some (pos 0), some (pos 0));
  pks = replicate 34 (there, there);
}

abbrev pub coin : Output
coin = record {
  public_key = there;
  dest_key = there;
  blind_seed = there;
  commit = record { point = there; range_proof = proof };
}

-- The hash of every output, as `output_json` gives it.
abbrev pub coin_hash : Sha256Sum
coin_hash = fit 32 (7 ∷ 7 ∷ [])

abbrev pub spend_inputs : List Sha256Sum
spend_inputs = replicate 8 coin_hash

-- A txn whose ring signature and proofs are accepted.
abbrev pub spend : Txn
spend = record {
  body = record { inputs = spend_inputs; outputs = coin ∷ coin ∷ []; fee = 3 };
  sig = record {
    preimage = there;
    e = fit 32 (3 ∷ flat spend_inputs);
    rs = replicate 8 (some (pos 0));
    ss = replicate 8 (some (pos 0));
  };
}

abbrev pub reward_txn : Txn
reward_txn = record {
  body = record { inputs = zero_sum ∷ []; outputs = coin ∷ []; fee = 0 };
  sig = record {
    preimage = there;
    e = zero_sum;
    rs = replicate 8 (some (pos 0));
    ss = replicate 8 (some (pos 0));
  };
}

abbrev pub first_header : BlockHeader
first_header = record {
  seq_num = 1;
  prev_hash = zero_sum;
  merkle_root = zero_sum;
  time = pos 0;
  difficulty = 16;
  nonce = 0;
}

abbrev pub first_block : Block
first_block = record { header = first_header; txns = reward_txn ∷ spend ∷ [] }

abbrev pub first_hash : Sha256Sum
first_hash = fit 32 (encode_header first_header)

abbrev pub toy : Env
toy = toy_env (toy_net first_header first_block spend coin)

abbrev pub databases : List Change → List Change → List Change → DbManager toy_ldb
databases headers map peers = record {
  header_db = headers;
  side_header_db = [];
  orphan_header_db = [];
  block_db = [];
  side_block_db = [];
  orphan_block_db = [];
  map_db = map;
  pimg_db = [];
  peer_db = peers;
  txn_pool_db = put coin_hash [] ∷ [];
}

abbrev pub first_request : HashMsg
first_request = record { address = 1 ∷ []; hash = first_hash }

-- A header whose hash is zero.
abbrev pub root : BlockHeader
root = record zero_header { prev_hash = []; merkle_root = []; time = pos 0 }

-- A client that keeps no blocks, with one peer.
abbrev pub light : Client toy
light = record {
  type = svp_client;
  last_header = root;
  update_wallet = false;
  address = 9 ∷ [];
  dbm = databases [] (put coin_hash zero_sum ∷ []) (put (1 ∷ []) [] ∷ []);
  spawned = [];
}

-- The same with no peer.
abbrev pub lonely : Client toy
lonely = record light { dbm = databases [] (put coin_hash zero_sum ∷ []) [] }

-- A client whose last header is stored.
abbrev pub started : Client toy
started = record light {
  last_header = first_header;
  dbm = databases (put first_hash (encode_header first_header) ∷ []) [] [];
}
