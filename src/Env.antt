-- ===== src/Env.antt =====
-- What the program calls and does not implement, as one parameter of the model: SHA-256 and the
-- P-256 operations of the standard library, JSON, the goleveldb databases, the RPC peers and the
-- clock. The laws that the theorems need of them are named hypotheses, in Env/Laws.
pub mod Laws
use ozcoin.Base.{ℕ, ℤ, String, Option, List}
use ozcoin.Go.{Result}
use ozcoin.Types.{
  Bytes, Sha256Sum, Point, BlockHeader, Block, TxnBody, Txn, Output, HashMsg, HeaderMsg, BlockMsg,
  TxnMsg, OutputMsg,
}

-- `json.Marshal` of a type, and `json.Unmarshal` into a pointer to it: `decode none` reads into a
-- nil pointer. What is returned is the pointer after the call.
pub record Codec (A : Type 0) : Type 0 where
  pub encode : A → Bytes
  pub decode : Option A → Bytes → Result (Option A)

-- `elliptic.CurveParams`: scalars are big-endian bytes.
pub record Curve : Type 0 where
  pub add : Point → Point → Point
  pub scalar_mult : Point → Bytes → Point
  pub scalar_base_mult : Bytes → Point
  pub order : ℕ

pub data Change : Type 0 where
  put : Bytes → Bytes → Change
  delete : Bytes → Change

-- `leveldb.DB`. `get` may return a nil slice as far as its type tells; a write returns its error.
pub record LevelDb : Type 1 where
  pub Db : Type 0
  pub get : Db → Bytes → Result (Option Bytes)
  pub put : Db → Bytes → Bytes → Option String × Db
  pub delete : Db → Bytes → Option String × Db
  pub write : Db → List Change → Option String × Db
  pub entries : Db → List (Bytes × Bytes)
  pub iter_error : Db → Option String

-- `net.DialTimeout` and `rpc.Client.Call`, by the address that is called. `dial` is the error.
pub record Net : Type 0 where
  pub dial : Bytes → Option String
  pub call_fetch_header : Bytes → HashMsg → Result HeaderMsg
  pub call_fetch_block : Bytes → HashMsg → Result BlockMsg
  pub call_fetch_txn : Bytes → HashMsg → Result TxnMsg
  pub call_fetch_output : Bytes → HashMsg → Result OutputMsg

-- `now h` is the reading of `time.Now` when the header `h` is checked. `retarget d t` is
-- `uint64(float64(d) * (float64(TWO_WEEKS_SEC) / float64(t)))`.
pub record Env : Type 1 where
  pub sha256 : Bytes → Sha256Sum
  pub header_json : Codec BlockHeader
  pub block_json : Codec Block
  pub body_json : Codec TxnBody
  pub txn_json : Codec Txn
  pub output_json : Codec Output
  pub curve : Curve
  pub ldb : LevelDb
  pub net : Net
  pub now : BlockHeader → ℤ
  pub retarget : ℕ → ℤ → ℕ
