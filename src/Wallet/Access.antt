-- ===== src/Wallet/Access.antt =====
-- Who may use the wallet.
use ozcoin.Base.{
  ℕ, zero, suc, ◌≡◌, ◌⊎◌, inl, inr, refl, sym, ap, ◌∙◌, subst, arith, Bool, true, false, Option,
  none, some, [], ◌∷◌, length, take, ◌==◌, ==_iff, Bool-cases, String,
}
use ozcoin.Go.{Result, ok, err, Outcome, returns, fails, panics, diverges, returns-injective}
use ozcoin.Go.Read
use ozcoin.Go.Run
use ozcoin.Go.Run.{Action, reads, modify, of_error, of_error-eq-returns, caught}
use ozcoin.Types.{Bytes, Sha256Sum}
use ozcoin.Env.{Env}
use ozcoin.Store.{slice}
use ozcoin.Wallet.{
  WalletEnv, WalletServer, Reply, http_error, token_key, compare_hash, compare_token, first_bytes,
  authenticate_token,
}
use ozcoin.Wallet.Handlers.{
  authenticated, after_check, handle_balance, handle_tracking, handle_sign, handle_new_block,
  handle_delete_block, Request, balance, tracking, sign, new_block, delete_block, handle,
}

compare_token-eq-true :
    (token stored : Bytes)
    → compare_token token stored ≡ returns true
    → take (length token) stored ≡ token
unfolding compare_token
compare_token-eq-true [] stored e = refl
compare_token-eq-true (b ∷ token) [] e = cc
compare_token-eq-true (b ∷ token) (c ∷ stored) e =
    ground (arith, compare_token-eq-true token stored, ==_iff b c)

compare_token-cases :
    (token stored : Bytes)
    → ((b : Bool) × (compare_token token stored ≡ returns b))
      ⊎ (compare_token token stored ≡ panics)
unfolding compare_token
compare_token-cases [] stored = inl (true, refl)
compare_token-cases (b ∷ token) [] = inr refl
compare_token-cases (b ∷ token) (c ∷ stored) = elim (Bool-cases (b == c)) [
  | inl same ↦ rw same (compare_token-cases token stored)
  | inr differs ↦ inl (false, rw differs refl)
]

pub compare_token-first_bytes :
    (n : ℕ) (stored token : Bytes)
    → first_bytes n stored ≡ returns token
    → (compare_token token stored ≡ returns true) × (length token ≡ n)
unfolding compare_token first_bytes
compare_token-first_bytes zero stored token e =
    subst (λ t. (compare_token t stored ≡ returns true) × (length t ≡ 0)) (returns-injective e)
      (refl, refl)
compare_token-first_bytes (suc n) [] token e = cc
compare_token-first_bytes (suc n) (c ∷ stored) token e =
    let (rest, e1, e2) = Read.>>=-eq-returns (first_bytes n stored) _ e in
    let (same, len) = compare_token-first_bytes n stored rest e1 in
    subst (λ t. (compare_token t (c ∷ stored) ≡ returns true) × (length t ≡ suc n))
      (returns-injective e2) (rw ((==_iff c c).1 refl) same, ap suc len)

pub first_bytes_all : (b : Bytes) → first_bytes (length b) b ≡ returns b
unfolding first_bytes
first_bytes_all [] = refl
first_bytes_all (c ∷ b) = rw (first_bytes_all b) refl

pub compare_hash_refl : (h : Sha256Sum) → compare_hash h h ≡ returns true
unfolding compare_hash
compare_hash_refl [] = refl
compare_hash_refl (c ∷ h) = rw ((==_iff c c).1 refl) (compare_hash_refl h)

module _ (env : Env) (wallet : WalletEnv) where
  -- A cookie that the server accepts: 32 bytes, the first ones of the token that it keeps.
  abbrev pub IsToken : Result Bytes → WalletServer env → Type 0
  IsToken cookie ws =
      (value : Bytes) × (token : Bytes) × (stored : Option Bytes) × (cookie ≡ ok value)
      × (wallet.from_base64 value ≡ ok token)
      × (length token ≡ 32)
      × (env.ldb.get ws.auth_db token_key ≡ ok stored)
      × (take 32 (slice stored) ≡ token)

  -- A request that is refused.
  abbrev pub IsRefused : Outcome Reply → Type 0
  IsRefused r = (r ≡ panics) ⊎ ((code : ℕ) × (x : String) × (r ≡ returns (http_error code x)))

  pub authenticate_token-cases :
      (cookie : Result Bytes) (ws : WalletServer env)
      → (IsToken cookie ws × (authenticate_token env wallet cookie ws ≡ returns none))
        ⊎ (authenticate_token env wallet cookie ws ≡ panics)
        ⊎ ((code : ℕ) × (x : String) × (authenticate_token env wallet cookie ws
              ≡ returns (some (http_error code x))))
  unfolding authenticate_token
  authenticate_token-cases (err x) ws = inr (inr (401, x, refl))
  authenticate_token-cases (ok value) ws = decoded (wallet.from_base64 value) refl
    where
      Answer : Type 0
      Answer =
          (IsToken (ok value) ws × (authenticate_token env wallet (ok value) ws ≡ returns none))
          ⊎ (authenticate_token env wallet (ok value) ws ≡ panics)
          ⊎ ((code : ℕ) × (x : String) × (authenticate_token env wallet (ok value) ws
                ≡ returns (some (http_error code x))))

      compared :
          (token : Bytes) (stored : Option Bytes) (m : Outcome Bool)
          → wallet.from_base64 value ≡ ok token
          → (length token == 32) ≡ true
          → env.ldb.get ws.auth_db token_key ≡ ok stored
          → compare_token token (slice stored) ≡ m
          → Answer
      compared token stored (returns true) d l g e =
          let len : length token ≡ 32 = (==_iff (length token) 32).0 l in
          inl (
            (
              value,
              token,
              stored,
              refl,
              d,
              len,
              g,
              subst (λ n. take n (slice stored) ≡ token) len
                  (compare_token-eq-true token (slice stored) e),
            ),
            rw (authenticate_token, d, l, g, e) refl,
          )
      compared token stored (returns false) d l g e =
          inr (inr (401, "Invalid token", rw (authenticate_token, d, l, g, e) refl))
      compared token stored (fails x) d l g e =
          absurd (settled (compare_token-cases token (slice stored)))
        where
          settled :
              ((b : Bool) × (compare_token token (slice stored) ≡ returns b))
                ⊎ (compare_token token (slice stored) ≡ panics)
              → ⊥
          settled (inl (b, q)) = cc
          settled (inr q) = cc
      compared token stored panics d l g e = inr (inl (rw (authenticate_token, d, l, g, e) refl))
      compared token stored diverges d l g e =
          absurd (settled (compare_token-cases token (slice stored)))
        where
          settled :
              ((b : Bool) × (compare_token token (slice stored) ≡ returns b))
                ⊎ (compare_token token (slice stored) ≡ panics)
              → ⊥
          settled (inl (b, q)) = cc
          settled (inr q) = cc

      looked_up :
          (token : Bytes) (m : Result (Option Bytes))
          → wallet.from_base64 value ≡ ok token
          → (length token == 32) ≡ true
          → env.ldb.get ws.auth_db token_key ≡ m
          → Answer
      looked_up token (err x) d l g = inr (inr (500, x, rw (authenticate_token, d, l, g) refl))
      looked_up token (ok stored) d l g =
          compared token stored (compare_token token (slice stored)) d l g refl

      measured :
          (token : Bytes) (b : Bool)
          → wallet.from_base64 value ≡ ok token
          → (length token == 32) ≡ b
          → Answer
      measured token true d l = looked_up token (env.ldb.get ws.auth_db token_key) d l refl
      measured token false d l =
          inr (inr (401, "Invalid token length", rw (authenticate_token, d, l) refl))

      decoded : (m : Result Bytes) → wallet.from_base64 value ≡ m → Answer
      decoded (err x) d = inr (inr (401, x, rw (authenticate_token, d) refl))
      decoded (ok token) d = measured token (length token == 32) d refl

  authenticated_guards :
      (cookie : Result Bytes) (rest : Action (WalletServer env) Reply) (ws ws' : WalletServer env)
      (r : Outcome Reply)
      → authenticated env wallet cookie rest ws ≡ (r, ws')
      → IsToken cookie ws ⊎ ((ws' ≡ ws) × IsRefused r)
  unfolding authenticated after_check
  authenticated_guards cookie rest ws ws' r e = elim (authenticate_token-cases cookie ws) [
    | inl (good, _) ↦ inl good
    | inr (inl p) ↦ inr (
        outcome
          (sym (
              Run.>>=-of_panics (reads λ ws. authenticate_token env wallet cookie ws)
                (after_check env wallet rest) ws (asks p))
            ∙ e)
          (inl refl))
    | inr (inr (code, x, p)) ↦ inr (
        outcome
          (sym (
              Run.>>=-of_returns (reads λ ws. authenticate_token env wallet cookie ws)
                (after_check env wallet rest) ws (asks p))
            ∙ e)
          (inr (code, x, refl)))
  ]
    where
      asks :
          {m : Outcome (Option Reply)}
          → authenticate_token env wallet cookie ws ≡ m
          → (reads λ ws. authenticate_token env wallet cookie ws) ws ≡ (m, ws)
      asks p i = (p i, ws)

      outcome :
          {q : Outcome Reply}
          → ◌≡◌ {A = Outcome Reply × WalletServer env} (q, ws) (r, ws')
          → IsRefused q
          → (ws' ≡ ws) × IsRefused r
      outcome p refused = (
        ap (λ (u : Outcome Reply × WalletServer env). u.1) (sym p),
        subst IsRefused (ap (λ (u : Outcome Reply × WalletServer env). u.0) p) refused,
      )

  -- Of the requests for the balance, the tracking keys, a signature, a new and a deleted block: one
  -- whose cookie is not the token that the server keeps, in base64, changes nothing on the server,
  -- and is answered with an error, or the handler panics.
  pub IsToken-guards :
      (req : Request env wallet) (cookie : Result Bytes) (ws ws' : WalletServer env)
      (r : Outcome Reply)
      → handle env wallet req cookie ws ≡ (r, ws')
      → IsToken cookie ws ⊎ ((ws' ≡ ws) × IsRefused r)
  unfolding handle handle_balance handle_tracking handle_sign handle_new_block handle_delete_block
  IsToken-guards balance cookie ws ws' r e = authenticated_guards cookie _ ws ws' r e
  IsToken-guards tracking cookie ws ws' r e = authenticated_guards cookie _ ws ws' r e
  IsToken-guards (sign d body) cookie ws ws' r e = authenticated_guards cookie _ ws ws' r e
  IsToken-guards (new_block body) cookie ws ws' r e = authenticated_guards cookie _ ws ws' r e
  IsToken-guards (delete_block body) cookie ws ws' r e = authenticated_guards cookie _ ws ws' r e
