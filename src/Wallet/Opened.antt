-- ===== src/Wallet/Opened.antt =====
-- What `Open` gives.
use ozcoin.Base.{
  ◌≡◌, refl, sym, ap, ◌∙◌, subst, pos, Bool, true, false, not, Option, none, some, List, ◌++◌,
  length, int_bytes, bytes_eq, bytes_eq_iff, if◌then◌else◌, inl, inr, ◌==◌, ==_iff, ◌⊎◌,
}
use ozcoin.Go.{
  Result, ok, err, Outcome, returns, fails, panics, diverges, returns-injective, of_result,
}
use ozcoin.Go.Read
use ozcoin.Go.Run
use ozcoin.Go.Run.{Action, reads, modify, checked, of_error, of_error-eq-returns}
use ozcoin.Types.{Bytes, Sha256Sum, zero_sum, WalletPrivateKey}
use ozcoin.Env.{Env}
use ozcoin.Env.Laws.{DbLaws, ShaLaws}
use ozcoin.Hash.{hash}
use ozcoin.Store.{slice}
use ozcoin.Payment.{new_private_key, OutputPlaintext}
use ozcoin.Wallet.{
  WalletEnv, WalletServer, Secrets, password_key, salt_key, token_key, compare_hash, first_bytes,
  read_all, authenticate_password, put_auth, put_priv, refresh, create, open_wallet,
  authenticate_token,
}
use ozcoin.Wallet.Access.{compare_token-first_bytes, first_bytes_all, compare_hash_refl}

module _ (env : Env) (wallet : WalletEnv) (db : DbLaws env.ldb) where
  -- What the authentication database holds.
  abbrev Reads : WalletServer env → Bytes → Result (Option Bytes)
  Reads ws key = env.ldb.get ws.auth_db key

  put_auth-get :
      (key value : Bytes) (ws ws' : WalletServer env) {u : Unit {0}}
      → put_auth env wallet key value ws ≡ (returns u, ws')
      → (j : Bytes) → Reads ws' j ≡ (if bytes_eq j key then ok (some value) else Reads ws j)
  unfolding put_auth
  put_auth-get key value ws ws' e j =
      let saved : (env.ldb.put ws.auth_db key value).0 ≡ none =
        of_error-eq-returns _ (ap (λ (q : Outcome (Unit {0}) × WalletServer env). q.0) e) in
      ap (λ (q : Outcome (Unit {0}) × WalletServer env). Reads q.1 j) (sym e)
      ∙ db.get_put ws.auth_db key value j saved

  put_priv-auth :
      (key value : Bytes) (ws ws' : WalletServer env) {u : Unit {0}}
      → put_priv env wallet key value ws ≡ (returns u, ws')
      → ws'.auth_db ≡ ws.auth_db
  unfolding put_priv
  put_priv-auth key value ws ws' e =
      ap (λ (q : Outcome (Unit {0}) × WalletServer env). q.1.auth_db) (sym e)

  refresh-auth :
      (ws ws' : WalletServer env) {u : Unit {0}}
      → refresh env wallet ws ≡ (returns u, ws')
      → ws'.auth_db ≡ ws.auth_db
  unfolding refresh
  refresh-auth ws ws' e =
      ap (λ (q : Outcome (Unit {0}) × WalletServer env). q.1.auth_db) (sym e)
      ∙ go (read_all wallet.read_private (env.ldb.entries ws.priv_db))
    where
      load_outputs : Action (WalletServer env) (Unit {0})
      load_outputs =
          Run.◌>>=◌ (reads λ ws. read_all wallet.read_plaintext (env.ldb.entries ws.txn_db))
            λ outputs. modify λ ws. record ws { outputs = outputs }

      later :
          (n : Outcome (List OutputPlaintext)) (w : WalletServer env)
          → (Run.and_then n w λ outputs. modify λ ws. record ws { outputs = outputs }).1.auth_db
            ≡ w.auth_db
      later (returns outputs) w = refl
      later (fails x) w = refl
      later panics w = refl
      later diverges w = refl

      go :
          (m : Outcome (List WalletPrivateKey))
          → (Run.and_then m ws
              λ privs. Run.◌>>◌ (modify λ ws. record ws { privs = privs }) load_outputs).1.auth_db
            ≡ ws.auth_db
      go (returns privs) =
          later (read_all wallet.read_plaintext (env.ldb.entries ws.txn_db))
            (record ws { privs = privs })
      go (fails x) = refl
      go panics = refl
      go diverges = refl

  -- The password and the token with which the server may be used.
  record Credentials (ws : WalletServer env) (password : Bytes) (token : Sha256Sum) : Type 0 where
    has_password : authenticate_password env wallet ws password ≡ returns token
    stored : Option Bytes
    has_token : Reads ws token_key ≡ ok stored
    is_token : first_bytes 32 (slice stored) ≡ returns token

  knows_password :
      (ws : WalletServer env) (password salt hashed token : Bytes)
      → hashed ≡ hash env (salt ++ password)
      → Reads ws salt_key ≡ ok (some salt)
      → Reads ws password_key ≡ ok (some hashed)
      → Reads ws token_key ≡ ok (some token)
      → first_bytes 32 token ≡ returns token
      → authenticate_password env wallet ws password ≡ returns token
  unfolding authenticate_password
  knows_password ws password salt hashed token h s p t whole =
      let compared : compare_hash hashed (hash env (salt ++ password)) ≡ returns true =
        ap (compare_hash hashed) (sym h) ∙ compare_hash_refl hashed in
      rw (s, p, compared, t) whole

  create-Credentials :
      (sha : ShaLaws env) (drawn : Secrets) (password : Bytes) (ws ws' : WalletServer env)
      (token : Sha256Sum)
      → create env wallet drawn password ws ≡ (returns token, ws')
      → Credentials ws' password token
  unfolding create bytes_eq
  create-Credentials sha drawn password ws ws' token e =
      let salt = int_bytes (pos drawn.salt) in
      let hashed = hash env (salt ++ password) in
      let made = hash env (int_bytes (pos drawn.seed)) in
      let address = new_private_key env drawn.tsk drawn.psk in
      let (_, ws1, e1, r1) = Run.>>=-eq-returns (put_auth env wallet password_key hashed) _ ws e in
      let (_, ws2, e2, r2) = Run.>>=-eq-returns (put_auth env wallet salt_key salt) _ ws1 r1 in
      let (_, ws3, e3, r3) = Run.>>=-eq-returns (put_auth env wallet token_key made) _ ws2 r2 in
      let (_, ws4, e4, r4) =
        Run.>>=-eq-returns
          (put_priv env wallet (hash env (wallet.public_json address.tracking_key.public_key))
            (wallet.private_json address))
          _ ws3 r3 in
      let (_, ws5, e5, r5) = Run.>>=-eq-returns (refresh env wallet) _ ws4 r4 in
      let same : ws5.auth_db ≡ ws3.auth_db =
        refresh-auth ws4 ws5 e5 ∙ put_priv-auth _ _ ws3 ws4 e4 in
      let reads5 : (j : Bytes) → Reads ws5 j ≡ Reads ws3 j = λ j. ap (λ d. env.ldb.get d j) same in
      let reads3 = put_auth-get token_key made ws2 ws3 e3 in
      let reads2 = put_auth-get salt_key salt ws1 ws2 e2 in
      let reads1 = put_auth-get password_key hashed ws ws1 e1 in
      let token_read : Reads ws5 token_key ≡ ok (some made) = reads5 token_key ∙ reads3 token_key in
      let salt_read : Reads ws5 salt_key ≡ ok (some salt) =
        reads5 salt_key ∙ reads3 salt_key ∙ reads2 salt_key in
      let password_read : Reads ws5 password_key ≡ ok (some hashed) =
        reads5 password_key ∙ reads3 password_key ∙ reads2 password_key ∙ reads1 password_key in
      let whole : first_bytes 32 made ≡ returns made =
        subst (λ n. first_bytes n made ≡ returns made) (sha.sha_length (int_bytes (pos drawn.seed)))
          (first_bytes_all made) in
      let ready : Credentials ws5 password made = record {
        has_password =
            knows_password ws5 password salt hashed made refl salt_read password_read token_read
              whole;
        stored = some made;
        has_token = token_read;
        is_token = whole;
      } in
      subst (Credentials ws' password)
        (returns-injective (ap (λ (q : Outcome Sha256Sum × WalletServer env). q.0) r5))
        (subst (λ (q : Outcome Sha256Sum × WalletServer env). Credentials q.1 password made) r5
          ready)

  -- The token of a password that is known, unless it is the zero one, is the stored token.
  token_of_password :
      (ws : WalletServer env) (password token : Bytes)
      → authenticate_password env wallet ws password ≡ returns token
      → (token ≡ zero_sum) ⊎ Credentials ws password token
  unfolding authenticate_password
  token_of_password ws password token e =
      let (salt, e1, r1) = Read.>>=-eq-returns (of_result (Reads ws salt_key)) _ e in
      let (stored, e2, r2) = Read.>>=-eq-returns (of_result (Reads ws password_key)) _ r1 in
      go salt stored r2
    where
      looked_up :
          (m : Result (Option Bytes))
          → Reads ws token_key ≡ m
          → (Read.◌>>=◌ (of_result m) λ found. first_bytes 32 (slice found)) ≡ returns token
          → (token ≡ zero_sum) ⊎ Credentials ws password token
      looked_up (ok found) r p =
          inr (record { has_password = e; stored = found; has_token = r; is_token = p })
      looked_up (err x) r p = cc

      matched :
          (b : Bool)
          → (if not b
              then returns zero_sum
              else Read.◌>>=◌
                  (of_result (Reads ws token_key))
                  λ found. first_bytes 32 (slice found))
            ≡ returns token
          → (token ≡ zero_sum) ⊎ Credentials ws password token
      matched true p = looked_up (Reads ws token_key) refl p
      matched false p = inl (sym (returns-injective p))

      go :
          (salt stored : Option Bytes)
          → elim salt [
            | none ↦ fails "No wallet credentials in database"
            | some s ↦ elim stored [
              | none ↦ fails "No wallet credentials in database"
              | some h ↦ Read.◌>>=◌ (compare_hash h (hash env (s ++ password))) λ compared.
                  if not compared
                  then returns zero_sum
                  else (Read.◌>>=◌
                      (of_result (Reads ws token_key))
                      λ token. first_bytes 32 (slice token))
            ]
          ]
            ≡ returns token
          → (token ≡ zero_sum) ⊎ Credentials ws password token
      go none stored p = cc
      go (some s) none p = cc
      go (some s) (some h) p =
          let (b, _, q) = Read.>>=-eq-returns (compare_hash h (hash env (s ++ password))) _ p in
          matched b q

  accepted_of_Credentials :
      (ws : WalletServer env) (password value token : Bytes)
      → Credentials ws password token
      → wallet.from_base64 value ≡ ok token
      → authenticate_token env wallet (ok value) ws ≡ returns none
  unfolding authenticate_token
  accepted_of_Credentials ws password value token c decoded =
      let (same, len) = compare_token-first_bytes 32 (slice c.stored) token c.is_token in
      let l : (length token == 32) ≡ true = (==_iff (length token) 32).1 len in
      rw (authenticate_token, decoded, l, c.has_token, same) refl

  Credentials-same :
      (ws ws' : WalletServer env) (password token : Bytes)
      → ws'.auth_db ≡ ws.auth_db
      → Credentials ws password token
      → Credentials ws' password token
  unfolding authenticate_password
  Credentials-same ws ws' password token e c = record {
    has_password =
        ap (λ d. authenticate_password env wallet (record ws { auth_db = d }) password) e
        ∙ c.has_password;
    stored = c.stored;
    has_token = ap (λ d. env.ldb.get d token_key) e ∙ c.has_token;
    is_token = c.is_token;
  }

  opened-Credentials :
      (sha : ShaLaws env) (drawn : Secrets) (password : Bytes) (ws ws' : WalletServer env)
      (token : Sha256Sum)
      → open_wallet env wallet drawn password ws ≡ (returns token, ws')
      → Credentials ws' password token
  unfolding open_wallet
  opened-Credentials sha drawn password ws ws' token e =
      let (found, ws1, e1, r) =
        Run.>>=-eq-returns (reads λ ws. Read.caught (authenticate_password env wallet ws password))
          _ ws e in
      let same : ws1 ≡ ws =
        ap (λ (q : Outcome (Result Sha256Sum) × WalletServer env). q.1) (sym e1) in
      go found ws1 (ap (λ (q : Outcome (Result Sha256Sum) × WalletServer env). q.0) e1) same r
    where
      kept :
          (b : Bool) (t : Sha256Sum) (ws1 : WalletServer env)
          → authenticate_password env wallet ws password ≡ returns t
          → ws1 ≡ ws
          → bytes_eq t zero_sum ≡ b
          → (if b
                then create env wallet drawn password
                else (Run.◌>>=◌ (refresh env wallet) λ _. Run.pure t))
              ws1
            ≡ (returns token, ws')
          → Credentials ws' password token
      kept true t ws1 known same z p = create-Credentials sha drawn password ws1 ws' token p
      kept false t ws1 known same z p =
          let (_, ws2, e2, r2) = Run.>>=-eq-returns (refresh env wallet) _ ws1 p in
          let auth : ws'.auth_db ≡ ws.auth_db =
            ap (λ (q : Outcome Sha256Sum × WalletServer env). q.1.auth_db) (sym r2)
            ∙ refresh-auth ws1 ws2 e2
            ∙ ap (λ (w : WalletServer env). w.auth_db) same in
          let is_t : t ≡ token =
            returns-injective (ap (λ (q : Outcome Sha256Sum × WalletServer env). q.0) r2) in
          elim (token_of_password ws password t known) [
            | inl zero ↦ absurd (false_ne_true (sym z ∙ (bytes_eq_iff t zero_sum).1 zero))
            | inr c ↦
                subst (Credentials ws' password) is_t (Credentials-same ws ws' password t auth c)
          ]
        where
          false_ne_true : false ≡ true → ⊥
          false_ne_true q = cc

      caught-ok :
          (m : Outcome Sha256Sum) (t : Sha256Sum) → Read.caught m ≡ returns (ok t) → m ≡ returns t
      caught-ok (returns a) t q = cc
      caught-ok (fails x) t q = cc
      caught-ok panics t q = cc
      caught-ok diverges t q = cc

      go :
          (found : Result Sha256Sum) (ws1 : WalletServer env)
          → Read.caught (authenticate_password env wallet ws password) ≡ returns found
          → ws1 ≡ ws
          → (elim found as (λ _. Action (WalletServer env) Sha256Sum) [
            | err _ ↦ create env wallet drawn password
            | ok t ↦
                if bytes_eq t zero_sum
                then create env wallet drawn password
                else (Run.◌>>=◌ (refresh env wallet) λ _. Run.pure t)
          ])
              ws1
            ≡ (returns token, ws')
          → Credentials ws' password token
      go (err x) ws1 known same p = create-Credentials sha drawn password ws1 ws' token p
      go (ok t) ws1 known same p =
          kept (bytes_eq t zero_sum) t ws1
            (caught-ok (authenticate_password env wallet ws password) t known) same refl p

  pub length-opened :
      (sha : ShaLaws env) (drawn : Secrets) (password : Bytes) (ws ws' : WalletServer env)
      (token : Sha256Sum)
      → open_wallet env wallet drawn password ws ≡ (returns token, ws')
      → length token ≡ 32
  length-opened sha drawn password ws ws' token e =
      let c = opened-Credentials sha drawn password ws ws' token e in
      (compare_token-first_bytes 32 (slice c.stored) token c.is_token).1

  -- With a database that gives back what was written, SHA-256 sums of 32 bytes, and base64 that
  -- decodes the cookie: whatever the password that `Open` is called with, if it returns a token then
  -- in the state that it leaves the server knows that password, gives that token for it, and accepts
  -- that token.
  pub opened_authenticates :
      (sha : ShaLaws env) (drawn : Secrets) (password value : Bytes) (ws ws' : WalletServer env)
      (token : Sha256Sum)
      → open_wallet env wallet drawn password ws ≡ (returns token, ws')
      → wallet.from_base64 value ≡ ok token
      → (authenticate_password env wallet ws' password ≡ returns token)
        × (authenticate_token env wallet (ok value) ws' ≡ returns none)
  opened_authenticates sha drawn password value ws ws' token e decoded =
      let c = opened-Credentials sha drawn password ws ws' token e in
      (c.has_password, accepted_of_Credentials ws' password value token c decoded)
