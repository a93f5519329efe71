-- ===== src/Tests/Toy.antt =====
-- A small instance of what the program calls. A database is the log of its changes, a hash is the
-- first 32 bytes, the curve has one point, and one peer answers with what it was given.
use ozcoin.Base.{
  ℕ, zero, suc, ◌+◌, ◌%◌, ◌≡◌, ◌≢◌, refl, ap, arith, ℤ, pos, negsuc, Option, none, some, List, [],
  ◌∷◌, ◌++◌, length, take, All, bytes_eq, if◌then◌else◌, ◌<◌, sym, subst,
}
use mathlib.Core.List.{Permᴰ}
use mathlib.Core.List.Permᴰ
use ozcoin.Go.{Result, ok, err}
use ozcoin.Types.{Bytes, Sha256Sum, Point, BlockHeader, Block, Txn, Output}
use ozcoin.Env.{Env, Codec, Curve, Change, put, delete, LevelDb, Net}
use ozcoin.Consensus.Written.{after-append}
use ozcoin.Env.Laws.{
  DbLaws, EntriesLaws, without, ShaLaws, RejectsNil, KeepsTarget, ReadsBack, after,
}

-- What a log of changes leaves of the entries.
abbrev pub contents : List (Bytes × Bytes) → List Change → List (Bytes × Bytes)
contents entries [] = entries
contents entries (put k v ∷ log) = contents ((k, v) ∷ without k entries) log
contents entries (delete k ∷ log) = contents (without k entries) log

contents-append :
    (entries : List (Bytes × Bytes)) (log batch : List Change)
    → contents entries (log ++ batch) ≡ contents (contents entries log) batch
contents-append entries [] batch = refl
contents-append entries (put k v ∷ log) batch =
    contents-append ((k, v) ∷ without k entries) log batch
contents-append entries (delete k ∷ log) batch = contents-append (without k entries) log batch

abbrev pub toy_ldb : LevelDb
toy_ldb = record {
  Db = List Change;
  get = λ db k. after (err "leveldb: not found") k db;
  put = λ db k v. (none, db ++ put k v ∷ []);
  delete = λ db k. (none, db ++ delete k ∷ []);
  write = λ db batch. (none, db ++ batch);
  entries = contents [];
  iter_error = λ db. none;
}

after_ne_nil :
    (found : Result (Option Bytes)) (k : Bytes) (db : List Change)
    → found ≢ ok none
    → after found k db ≢ ok none
unfolding after
after_ne_nil found k [] h = h
after_ne_nil found k (put j v ∷ db) h =
    after_ne_nil (if bytes_eq k j then ok (some v) else found) k db (λ e. ground arith)
after_ne_nil found k (delete j ∷ db) h =
    after_ne_nil (if bytes_eq k j then err "leveldb: not found" else found) k db (λ e. ground arith)

pub toy_ldb-DbLaws : DbLaws toy_ldb
unfolding after
toy_ldb-DbLaws = record {
  get_not_nil = λ db k. after_ne_nil (err "leveldb: not found") k db (λ e. cc);
  get_put = λ db k v j e. after-append (err "leveldb: not found") j db (put k v ∷ []);
  get_write = λ db batch j e. after-append (err "leveldb: not found") j db batch;
}

pub toy_ldb-EntriesLaws : EntriesLaws toy_ldb
toy_ldb-EntriesLaws = record {
  entries_put = λ log k v e.
      subst (λ es. Permᴰ es ((k, v) ∷ without k (contents [] log)))
        (sym (contents-append [] log (put k v ∷ []))) (Permᴰ.refl _);
  entries_delete = λ log k e.
      subst (λ es. Permᴰ es (without k (contents [] log)))
        (sym (contents-append [] log (delete k ∷ []))) (Permᴰ.refl _);
}

-- The first `n` bytes, with zeros where there are none.
abbrev pub fit : ℕ → Bytes → Bytes
fit zero b = []
fit (suc n) [] = 0 ∷ fit n []
fit (suc n) (c ∷ b) = c % 256 ∷ fit n b

length-fit : (n : ℕ) (b : Bytes) → length (fit n b) ≡ n
length-fit zero b = refl
length-fit (suc n) [] = ap suc (length-fit n [])
length-fit (suc n) (c ∷ b) = ap suc (length-fit n b)

fit_bytes : (n : ℕ) (b : Bytes) → All (λ c. c < 256) (fit n b)
fit_bytes zero b = tt
fit_bytes (suc n) [] = (omega arith, fit_bytes n [])
fit_bytes (suc n) (c ∷ b) = (omega arith, fit_bytes n b)

abbrev drop : ℕ → Bytes → Bytes
drop zero b = b
drop (suc n) [] = []
drop (suc n) (c ∷ b) = drop n b

abbrev time_bytes : ℤ → Bytes → Bytes
time_bytes (pos n) rest = 0 ∷ n ∷ rest
time_bytes (negsuc n) rest = 1 ∷ n ∷ rest

-- The nonce comes first, then a zero: a header with the nonce 0 has a hash with 16 leading zeros.
abbrev pub encode_header : BlockHeader → Bytes
encode_header h =
    h.nonce
    ∷ 0
    ∷ h.seq_num
    ∷ h.difficulty
    ∷ time_bytes h.time (length h.prev_hash ∷ (h.prev_hash ++ h.merkle_root))

abbrev decode_fields : ℕ → ℕ → ℕ → ℤ → Bytes → Result (Option BlockHeader)
decode_fields nonce seq difficulty time [] = err "unexpected end of JSON input"
decode_fields nonce seq difficulty time (l ∷ rest) = ok (
    some (record {
      seq_num = seq;
      prev_hash = take l rest;
      merkle_root = drop l rest;
      time = time;
      difficulty = difficulty;
      nonce = nonce;
    }))

abbrev decode_header : Bytes → Result (Option BlockHeader)
decode_header (nonce ∷ _ ∷ seq ∷ difficulty ∷ zero ∷ n ∷ rest) =
    decode_fields nonce seq difficulty (pos n) rest
decode_header (nonce ∷ _ ∷ seq ∷ difficulty ∷ suc _ ∷ n ∷ rest) =
    decode_fields nonce seq difficulty (negsuc n) rest
decode_header _ = err "unexpected end of JSON input"

-- What is read into nil is an error.
abbrev pub reading : {A : Type 0} → (A → Bytes) → (A → Bytes → Result (Option A)) → Codec A
reading encode decode = record {
  encode = encode;
  decode = λ target b. elim target [
    | none ↦ err "json: Unmarshal(nil)"
    | some zero_value ↦ decode zero_value b
  ];
}

take-append : (s t : Bytes) → take (length s) (s ++ t) ≡ s
take-append [] [] = refl
take-append [] (c ∷ t) = refl
take-append (c ∷ s) t = ap (λ r. c ∷ r) (take-append s t)

drop-append : (s t : Bytes) → drop (length s) (s ++ t) ≡ t
drop-append [] t = refl
drop-append (c ∷ s) t = drop-append s t

abbrev pub header_codec : Codec BlockHeader
header_codec = reading encode_header (λ z b. decode_header b)

pub header_codec-ReadsBack : ReadsBack header_codec
header_codec-ReadsBack z h = go h.time refl
  where
    go : (t : ℤ) → h.time ≡ t → decode_header (encode_header h) ≡ ok (some h)
    go (pos n) e =
        rw (e, take-append h.prev_hash h.merkle_root, drop-append h.prev_hash h.merkle_root)
    go (negsuc n) e =
        rw (e, take-append h.prev_hash h.merkle_root, drop-append h.prev_hash h.merkle_root)

pub header_codec-RejectsNil : RejectsNil header_codec
header_codec-RejectsNil b = ("json: Unmarshal(nil)", refl)

decode_fields_ne_nil :
    (nonce seq difficulty : ℕ) (t : ℤ) (b : Bytes)
    → decode_fields nonce seq difficulty t b ≢ ok none
decode_fields_ne_nil nonce seq difficulty t [] e = cc
decode_fields_ne_nil nonce seq difficulty t (l ∷ rest) e = cc

pub header_codec-KeepsTarget : KeepsTarget header_codec
header_codec-KeepsTarget z b = go b
  where
    go : (b : Bytes) → decode_header b ≢ ok none
    go [] e = cc
    go (a1 ∷ []) e = cc
    go (a1 ∷ a2 ∷ []) e = cc
    go (a1 ∷ a2 ∷ a3 ∷ []) e = cc
    go (a1 ∷ a2 ∷ a3 ∷ a4 ∷ []) e = cc
    go (a1 ∷ a2 ∷ a3 ∷ a4 ∷ zero ∷ []) e = cc
    go (a1 ∷ a2 ∷ a3 ∷ a4 ∷ suc s ∷ []) e = cc
    go (a1 ∷ a2 ∷ a3 ∷ a4 ∷ zero ∷ n ∷ rest) e = decode_fields_ne_nil a1 a3 a4 (pos n) rest e
    go (a1 ∷ a2 ∷ a3 ∷ a4 ∷ suc s ∷ n ∷ rest) e = decode_fields_ne_nil a1 a3 a4 (negsuc n) rest e

-- Blocks are read with no txns.
abbrev pub block_codec : Codec Block
block_codec =
    reading (λ b. encode_header b.header)
      (λ z b. elim (decode_header b) [
        | ok (some h) ↦ ok (some (record { header = h; txns = [] }))
        | ok none ↦ err "unexpected end of JSON input"
        | err e ↦ err e
      ])

pub block_codec-RejectsNil : RejectsNil block_codec
block_codec-RejectsNil b = ("json: Unmarshal(nil)", refl)

abbrev pub flat : List Sha256Sum → Bytes
flat [] = []
flat (k ∷ ks) = k ++ flat ks

abbrev pub origin : Point
origin = record { x = pos 0; y = pos 0 }

abbrev pub toy_curve : Curve
toy_curve = record {
  add = λ p q. origin;
  scalar_mult = λ p k. origin;
  scalar_base_mult = λ k. origin;
  order = 7;
}

-- The peers answer every request with these.
abbrev pub toy_net : BlockHeader → Block → Txn → Output → Net
toy_net h b t o = record {
  dial = λ a. none;
  call_fetch_header = λ a m. ok (record { address = a; header = h });
  call_fetch_block = λ a m. ok (record { address = a; block = b });
  call_fetch_txn = λ a m. ok (record { address = a; txn = t });
  call_fetch_output = λ a m. ok (record { address = a; output = o });
}

abbrev pub toy_env : Net → Env
toy_env net = record {
  sha256 = fit 32;
  header_json = header_codec;
  block_json = block_codec;
  body_json = reading (λ t. t.fee ∷ flat t.inputs) (λ z b. ok (some z));
  txn_json = reading (λ t. t.body.fee ∷ flat t.body.inputs) (λ z b. ok (some z));
  output_json = reading (λ o. 7 ∷ 7 ∷ []) (λ z b. ok (some z));
  curve = toy_curve;
  ldb = toy_ldb;
  net = net;
  now = λ h. h.time;
  retarget = λ d t. d + 5;
}

pub toy_env-ShaLaws : (net : Net) → ShaLaws (toy_env net)
toy_env-ShaLaws net = record { sha_length = length-fit 32; sha_bytes = fit_bytes 32 }
