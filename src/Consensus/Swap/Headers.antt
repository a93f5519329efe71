-- ===== src/Consensus/Swap/Headers.antt =====
-- The headers after `SwapMainFork`.
use ozcoin.Base.{
  ◌≡◌, refl, sym, ◌∙◌, ap, subst, arith, inl, inr, Bool, true, false, Option, none, some,
  some-injective, List, [], ◌∷◌, ◌++◌, Bool-cases, bytes_eq, bytes_eq_iff, if◌then◌else◌, ◌||◌,
}
use ozcoin.Go.{Result, ok, err, Outcome, returns, fails, panics, returns-injective}
use ozcoin.Go.Read
use ozcoin.Types.{Bytes, Sha256Sum, BlockHeader}
use ozcoin.Env.{Env, Change}
use ozcoin.Env.Laws.{DbLaws, ReadsBack, after}
use ozcoin.Client.{Client}
use ozcoin.Txn.{has_sum}
use ozcoin.Store.{get_header}
use ozcoin.Store.Reads.{get_header_of_put, get_header_or_missing}
use ozcoin.Consensus.Swap.{delete_keys, path_headers, put_headers, swap_main_fork}
use ozcoin.Consensus.Swap.Effect.{Swapped, swap_main_fork-Swapped}

either :
    {A : Type 0} (a b : Bool) (x y : A)
    → (if b then x else (if a then x else y)) ≡ (if a || b then x else y)
either true true x y = refl
either true false x y = refl
either false true x y = refl
either false false x y = refl

or_false : (a b : Bool) → (a || b) ≡ false → (a ≡ false) × (b ≡ false)
or_false a b e = ground arith

or_true : (a b : Bool) → (a || b) ≡ true → b ≡ false → a ≡ true
or_true a b e f = ground arith

module _ (env : Env) where
  open env use {ldb}

  path_headers-split :
      (c : Client env) (key : Sha256Sum) (keys : List Sha256Sum)
      (l : List (Sha256Sum × BlockHeader))
      → path_headers env c (key ∷ keys) ≡ returns l
      → (h : BlockHeader) × (rest : List (Sha256Sum × BlockHeader)) × (get_header env c key
          ≡ returns (some h))
        × (path_headers env c keys ≡ returns rest)
        × ((key, h) ∷ rest ≡ l)
  unfolding path_headers
  path_headers-split c key keys l e =
      let (found, e1, r1) = Read.>>=-eq-returns (get_header env c key) _ e in go found e1 r1
    where
      go :
          (found : Option BlockHeader)
          → get_header env c key ≡ returns found
          → (elim found as (λ g. Outcome (List (Sha256Sum × BlockHeader))) [
            | none ↦ panics
            | some h ↦ Read.◌>>=◌ (path_headers env c keys) λ rest. returns ((key, h) ∷ rest)
          ])
            ≡ returns l
          → (h : BlockHeader) × (rest : List (Sha256Sum × BlockHeader)) × (get_header env c key
              ≡ returns (some h))
            × (path_headers env c keys ≡ returns rest)
            × ((key, h) ∷ rest ≡ l)
      go none e1 r = cc
      go (some h) e1 r =
          let (rest, e2, r2) = Read.>>=-eq-returns (path_headers env c keys) _ r in
          (h, rest, e1, e2, returns-injective r2)

  -- The keys of the main path are deleted.
  after-delete_keys :
      (c : Client env) (key : Sha256Sum) (path : List Sha256Sum)
      (l : List (Sha256Sum × BlockHeader)) (found : Result (Option Bytes)) (more : List Change)
      → path_headers env c path ≡ returns l
      → after found key (delete_keys l ++ more)
        ≡ after (if has_sum key path then err "leveldb: not found" else found) key more
  unfolding path_headers after has_sum
  after-delete_keys c key [] l found more e =
      subst (λ m. after found key (delete_keys m ++ more) ≡ after found key more)
        (returns-injective e) refl
  after-delete_keys c key (k ∷ path) l found more e =
      let (h, rest, e1, e2, e3) = path_headers-split c k path l e in
      let gone = err "leveldb: not found" in
      subst
        (λ m.
          after found key (delete_keys m ++ more)
          ≡ after (if bytes_eq key k || has_sum key path then gone else found) key more)
        e3
        (after-delete_keys c key path rest (if bytes_eq key k then gone else found) more e2
          ∙ ap (λ r. after r key more) (either (bytes_eq key k) (has_sum key path) gone found))

  -- Headers of other keys change nothing.
  after-put_headers_other :
      (c : Client env) (key : Sha256Sum) (path : List Sha256Sum)
      (l : List (Sha256Sum × BlockHeader)) (found : Result (Option Bytes))
      → path_headers env c path ≡ returns l
      → has_sum key path ≡ false
      → after found key (put_headers env l) ≡ found
  unfolding path_headers put_headers after has_sum
  after-put_headers_other c key [] l found e absent =
      subst (λ m. after found key (put_headers env m) ≡ found) (returns-injective e) refl
  after-put_headers_other c key (k ∷ path) l found e absent =
      let (h, rest, e1, e2, e3) = path_headers-split c k path l e in
      let (other, later) = or_false (bytes_eq key k) (has_sum key path) absent in
      subst (λ m. after found key (put_headers env m) ≡ found) e3
        (rw (other, after) (after-put_headers_other c key path rest found e2 later))

  -- A header of the side path is there afterwards, as it was read.
  after-put_headers :
      (c : Client env) (key : Sha256Sum) (path : List Sha256Sum)
      (l : List (Sha256Sum × BlockHeader)) (found : Result (Option Bytes))
      → path_headers env c path ≡ returns l
      → has_sum key path ≡ true
      → (h : BlockHeader) × (get_header env c key ≡ returns (some h))
        × (after found key (put_headers env l) ≡ ok (some (env.header_json.encode h)))
  unfolding path_headers put_headers after has_sum
  after-put_headers c key [] l found e among = cc
  after-put_headers c key (k ∷ path) l found e among =
      let (h, rest, e1, e2, e3) = path_headers-split c k path l e in
      let stored = ok (some (env.header_json.encode h)) in
      elim (Bool-cases (has_sum key path)) [
        | inl later ↦
            let (g, read, there) =
              after-put_headers c key path rest (if bytes_eq key k then stored else found) e2
                later in
            (
              g,
              read,
              subst
                  (λ m. after found key (put_headers env m) ≡ ok (some (env.header_json.encode g)))
                  e3 there,
            )
        | inr last ↦
            let same = or_true (bytes_eq key k) (has_sum key path) among last in
            (
              h,
              ap (get_header env c) ((bytes_eq_iff key k).0 same) ∙ e1,
              subst (λ m. after found key (put_headers env m) ≡ stored) e3
                  (rw (same, after) (after-put_headers_other c key path rest stored e2 last)),
            )
      ]

  -- What a read of a database finds to which the batch was written.
  batch_found :
      (main_path side_path : List Sha256Sum) (c c' : Client env) (db db' : ldb.Db) (key : Sha256Sum)
      (s : Swapped env main_path side_path c c')
      → DbLaws env.ldb
      → (ldb.write db s.batch).0 ≡ none
      → db' ≡ (ldb.write db s.batch).1
      → ldb.get db' key
        ≡ after
            (if has_sum key main_path then err "leveldb: not found" else ldb.get db key)
            key
            (put_headers env s.side_headers)
  batch_found main_path side_path c c' db db' key s laws good wrote =
      ap (λ d. ldb.get d key) wrote
      ∙ laws.get_write db s.batch key good
      ∙ ap (after (ldb.get db key) key) s.batch_is
      ∙ after-delete_keys c key main_path s.main_headers (ldb.get db key)
          (put_headers env s.side_headers) s.main_read

  -- With databases and JSON that read back what was written: once `SwapMainFork` has returned, a
  -- header of the side path reads from the main database as before, one of the main path alone is
  -- not found there, and every other reads as before. The side database was written with the same
  -- batch: it has the headers of the side path too, and those of the main path alone are not found
  -- in it either.
  pub swap_main_fork_headers :
      (main_path side_path : List Sha256Sum) (c c' : Client env)
      → DbLaws env.ldb
      → ReadsBack env.header_json
      → swap_main_fork env main_path side_path c ≡ (returns tt, c')
      → (key : Sha256Sum)
      → (get_header env c' key ≡ (
          if has_sum key side_path
          then get_header env c key
          else if has_sum key main_path
          then fails "leveldb: not found"
          else get_header env c key))
        × (ldb.get c'.dbm.side_header_db key ≡ (
            if has_sum key side_path
            then ldb.get c'.dbm.header_db key
            else if has_sum key main_path
            then err "leveldb: not found"
            else ldb.get c.dbm.side_header_db key))
  swap_main_fork_headers main_path side_path c c' laws back e key =
      let s = swap_main_fork-Swapped env main_path side_path c c' e in
      let gone = err "leveldb: not found" in
      let in_main = has_sum key main_path in
      let main_found =
        batch_found main_path side_path c c' c.dbm.header_db c'.dbm.header_db key s laws
          s.headers_good s.headers_written in
      let side_found =
        batch_found main_path side_path c c' c.dbm.side_header_db c'.dbm.side_header_db key s laws
          s.side_headers_good s.side_headers_written in
      let put_on = after-put_headers c key side_path s.side_headers in
      let left = after-put_headers_other c key side_path s.side_headers in
      elim (Bool-cases (has_sum key side_path)) [
        | inl among ↦
            let (h, read, there) =
              put_on (if in_main then gone else ldb.get c.dbm.header_db key) s.side_read among in
            let (g, read', there') =
              put_on (if in_main then gone else ldb.get c.dbm.side_header_db key) s.side_read
                among in
            let same : g ≡ h = some-injective (returns-injective (sym read' ∙ read)) in
            rw among (
              get_header_of_put env c c' key h true back (main_found ∙ there) ∙ sym read,
              side_found
                  ∙ there'
                  ∙ ap (λ (k : BlockHeader). ok (some (env.header_json.encode k))) same
                  ∙ sym (main_found ∙ there),
            )
        | inr absent ↦ rw absent (
          get_header_or_missing env c c' key in_main (
              main_found
              ∙ left (if in_main then gone else ldb.get c.dbm.header_db key) s.side_read absent),
          side_found
              ∙ left (if in_main then gone else ldb.get c.dbm.side_header_db key) s.side_read
                  absent,
        )
      ]
