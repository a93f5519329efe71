-- ===== src/Types.antt =====
-- The data of the program: eccpoint.go, commitment.go, rangeproof.go, ozrs.go, output.go, txn.go,
-- block.go, address.go, the messages of gossip.go and the constants of common.go.
-- A byte is a number below 256; a `*big.Int` is an `Option ℤ` where the program can meet nil; a
-- Go array or slice is a list; a `uint64` is a number below 2^64. A `time.Time` is the instant in
-- nanoseconds since the Unix epoch.
use ozcoin.Base.{ℕ, ℤ, ◌*◌, ◌^◌, Bool, Option, some, none, List, [], replicate, ◌||◌, true, false}

abbrev pub Bytes : Type 0
Bytes = List ℕ

abbrev pub Sha256Sum : Type 0
Sha256Sum = List ℕ

abbrev pub sha256_sum_length : ℕ
sha256_sum_length = 32

-- `SHA256Sum{}`
abbrev pub zero_sum : Sha256Sum
zero_sum = replicate sha256_sum_length 0

abbrev pub txn_num_inputs : ℕ
txn_num_inputs = 8

abbrev pub txn_num_outputs : ℕ
txn_num_outputs = 2

abbrev pub range_proof_length : ℕ
range_proof_length = 34

abbrev pub max_block_size : ℕ
max_block_size = 2 * 1024 * 1024 * 1024

abbrev pub two_weeks_sec : ℕ
two_weeks_sec = 14 * 24 * 60 * 60

abbrev pub initial_difficulty : ℕ
initial_difficulty = 16

abbrev pub difficulty_spacing : ℕ
difficulty_spacing = 2016

-- `uint64` arithmetic wraps.
abbrev pub u64_mod : ℕ
u64_mod = 2 ^ 64

pub record EccPoint : Type 0 where
  pub x : Option ℤ
  pub y : Option ℤ

-- A point both of whose coordinates are there.
pub record Point : Type 0 where
  pub x : ℤ
  pub y : ℤ

abbrev pub stored : Point → EccPoint
stored p = record { x = some p.x; y = some p.y }

abbrev pub nil_point : EccPoint
nil_point = record { x = none; y = none }

abbrev is_nil : Option ℤ → Bool
is_nil none = true
is_nil (some z) = false

-- `ECCPoint.Empty`
unfoldable pub empty : EccPoint → Bool
empty p = is_nil p.x || is_nil p.y

pub record RangeProof : Type 0 where
  pub e : Sha256Sum
  pub ss : List (Option ℤ × Option ℤ)
  pub pks : List (EccPoint × EccPoint)

pub record Commitment : Type 0 where
  pub point : EccPoint
  pub range_proof : RangeProof

pub record Output : Type 0 where
  pub public_key : EccPoint
  pub dest_key : EccPoint
  pub blind_seed : EccPoint
  pub commit : Commitment

pub record Ozrs : Type 0 where
  pub preimage : EccPoint
  pub e : Sha256Sum
  pub rs : List (Option ℤ)
  pub ss : List (Option ℤ)

pub record TxnBody : Type 0 where
  pub inputs : List Sha256Sum
  pub outputs : List Output
  pub fee : ℕ

pub record Txn : Type 0 where
  pub body : TxnBody
  pub sig : Ozrs

pub record BlockHeader : Type 0 where
  pub seq_num : ℕ
  pub prev_hash : Sha256Sum
  pub merkle_root : Sha256Sum
  pub time : ℤ
  pub difficulty : ℕ
  pub nonce : ℕ

pub record Block : Type 0 where
  pub header : BlockHeader
  pub txns : List Txn

-- `BlockHeader{}`, `Block{}` and `Txn{}`, into which JSON is read. The zero `time.Time` is the
-- first of January of year 1.
abbrev pub zero_header : BlockHeader
zero_header = record {
  seq_num = 0;
  prev_hash = zero_sum;
  merkle_root = zero_sum;
  time = ℤ.negsuc 62135596799999999999;
  difficulty = 0;
  nonce = 0;
}

abbrev pub zero_block : Block
zero_block = record { header = zero_header; txns = [] }

abbrev pub zero_txn : Txn
zero_txn = record {
  body = record { inputs = []; outputs = []; fee = 0 };
  sig = record {
    preimage = nil_point;
    e = zero_sum;
    rs = replicate txn_num_inputs none;
    ss = replicate txn_num_inputs none;
  };
}

pub record WalletPublicKey : Type 0 where
  pub tpk : EccPoint
  pub ppk : EccPoint

pub record WalletTrackingKey : Type 0 where
  pub public_key : WalletPublicKey
  pub tsk : ℤ

pub record WalletPrivateKey : Type 0 where
  pub tracking_key : WalletTrackingKey
  pub psk : ℤ

-- A Go string is a sequence of bytes.
pub record HashMsg : Type 0 where
  pub address : Bytes
  pub hash : Sha256Sum

pub record HeaderMsg : Type 0 where
  pub address : Bytes
  pub header : BlockHeader

pub record BlockMsg : Type 0 where
  pub address : Bytes
  pub block : Block

pub record TxnMsg : Type 0 where
  pub address : Bytes
  pub txn : Txn

pub record OutputMsg : Type 0 where
  pub address : Bytes
  pub output : Output
