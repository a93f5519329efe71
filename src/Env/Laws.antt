-- ===== src/Env/Laws.antt =====
-- What the theorems ask of the code that the program calls: documented behaviour, taken as named
-- hypotheses.
use ozcoin.Base.{
  ◌<◌, ◌≡◌, ◌≢◌, String, Option, none, some, List, [], ◌∷◌, length, All, if◌then◌else◌, bytes_eq,
}
use mathlib.Core.List.{Permᴰ}
use ozcoin.Go.{Result, ok, err}
use ozcoin.Types.{Bytes}
use ozcoin.Env.{Env, Codec, LevelDb, Change, put, delete}

-- A SHA-256 sum has 32 bytes.
pub record ShaLaws (env : Env) : Type 0 where
  pub sha_length : (b : Bytes) → length (env.sha256 b) ≡ 32
  pub sha_bytes : (b : Bytes) → All (λ c. c < 256) (env.sha256 b)

-- "If v is nil or not a pointer, Unmarshal returns an InvalidUnmarshalError."
abbrev pub RejectsNil : {A : Type 0} → Codec A → Type 0
RejectsNil {A} codec = (b : Bytes) → (e : String) × (codec.decode none b ≡ err e)

-- A pointer that is not nil is still that pointer after the call.
abbrev pub KeepsTarget : {A : Type 0} → Codec A → Type 0
KeepsTarget {A} codec = (zero : A) (b : Bytes) → codec.decode (some zero) b ≢ ok none

-- What was marshalled is read back into a fresh value.
abbrev pub ReadsBack : {A : Type 0} → Codec A → Type 0
ReadsBack {A} codec = (zero a : A) → codec.decode (some zero) (codec.encode a) ≡ ok (some a)

-- What a read finds after the changes of a batch, which are made in order.
unfoldable pub after : Result (Option Bytes) → Bytes → List Change → Result (Option Bytes)
after found k [] = found
after found k (put j v ∷ batch) = after (if bytes_eq k j then ok (some v) else found) k batch
after found k (delete j ∷ batch) =
    after (if bytes_eq k j then err "leveldb: not found" else found) k batch

-- "Get gets the value for the given key. It returns ErrNotFound if the DB does not contains the
-- key." A write that reports no error is seen by every later read.
pub record DbLaws (ldb : LevelDb) : Type 0 where
  pub get_not_nil : (db : ldb.Db) (k : Bytes) → ldb.get db k ≢ ok none
  pub get_put :
      (db : ldb.Db) (k v j : Bytes)
      → (ldb.put db k v).0 ≡ none
      → ldb.get (ldb.put db k v).1 j ≡ (if bytes_eq j k then ok (some v) else ldb.get db j)
  pub get_write :
      (db : ldb.Db) (batch : List Change) (j : Bytes)
      → (ldb.write db batch).0 ≡ none
      → ldb.get (ldb.write db batch).1 j ≡ after (ldb.get db j) j batch

-- The entries but those of a key.
abbrev pub without : Bytes → List (Bytes × Bytes) → List (Bytes × Bytes)
without k [] = []
without k ((j, v) ∷ entries) =
    let rest = without k entries in if bytes_eq j k then rest else (j, v) ∷ rest

-- "NewIterator returns an iterator for the latest snapshot of the underlying DB": it goes over each
-- key that is there once, in an order that is left open here.
pub record EntriesLaws (ldb : LevelDb) : Type 0 where
  pub entries_put :
      (db : ldb.Db) (k v : Bytes)
      → (ldb.put db k v).0 ≡ none
      → Permᴰ (ldb.entries (ldb.put db k v).1) ((k, v) ∷ without k (ldb.entries db))
  pub entries_delete :
      (db : ldb.Db) (k : Bytes)
      → (ldb.delete db k).0 ≡ none
      → Permᴰ (ldb.entries (ldb.delete db k).1) (without k (ldb.entries db))
