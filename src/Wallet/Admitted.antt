-- ===== src/Wallet/Admitted.antt =====
-- A request that was answered with something else than an error.
use ozcoin.Base.{
  ℕ, ◌≡◌, ◌⊎◌, inl, inr, refl, sym, ap, ◌∙◌, String, Option, none, List, [], ◌∷◌, map,
}
use ozcoin.Go.{Result, ok, err, Outcome, returns, fails, panics, diverges, returns-injective}
use ozcoin.Go.Run
use ozcoin.Go.Run.{Action, reads, caught}
use ozcoin.Types.{Bytes, WalletPrivateKey}
use ozcoin.Env.{Env}
use ozcoin.Wallet.{
  WalletEnv, WalletServer, Reply, http_error, keys_reply, refresh, authenticate_token,
}
use ozcoin.Wallet.Handlers.{authenticated, after_check, handle_tracking}
use ozcoin.Wallet.Access.{authenticate_token-cases}

module _ (env : Env) (wallet : WalletEnv) where
  abbrev pub IsError : Reply → Type 0
  IsError reply = (code : ℕ) × (x : String) × (reply ≡ http_error code x)

  -- What a handler that checks the token comes to: an error, or its own part on the refreshed server.
  pub authenticated-returns :
      (cookie : Result Bytes) (rest : Action (WalletServer env) Reply) (ws ws' : WalletServer env)
      (reply : Reply)
      → authenticated env wallet cookie rest ws ≡ (returns reply, ws')
      → IsError reply ⊎ ((ws1 : WalletServer env) × (rest ws1 ≡ (returns reply, ws')))
  unfolding authenticated after_check
  authenticated-returns cookie rest ws ws' reply e =
      elim (authenticate_token-cases env wallet cookie ws) [
        | inl (_, token) ↦ let_in (asks token)
        | inr (inl p) ↦
            absurd
              (never (sym (Run.>>=-of_panics ask (after_check env wallet rest) ws (asks p)) ∙ e))
        | inr (inr (code, x, p)) ↦ inl (
          code,
          x,
          returns-injective (
              ap (λ (q : Outcome Reply × WalletServer env). q.0)
                (sym e ∙ Run.>>=-of_returns ask (after_check env wallet rest) ws (asks p))),
        )
      ]
    where
      ask : Action (WalletServer env) (Option Reply)
      ask = reads λ ws. authenticate_token env wallet cookie ws

      asks :
          {m : Outcome (Option Reply)}
          → authenticate_token env wallet cookie ws ≡ m
          → ask ws ≡ (m, ws)
      asks p i = (p i, ws)

      never : ◌≡◌ {A = Outcome Reply × WalletServer env} (panics, ws) (returns reply, ws') → ⊥
      never p = let q = ap (λ (u : Outcome Reply × WalletServer env). u.0) p in cc

      go :
          (q : Outcome (Unit {0}) × WalletServer env)
          → (Run.◌>>=◌
                (caught (λ _. q))
                λ refreshed. elim refreshed [ err x ↦ Run.pure (http_error 500 x) | ok _ ↦ rest ])
              ws
            ≡ (returns reply, ws')
          → IsError reply ⊎ ((ws1 : WalletServer env) × (rest ws1 ≡ (returns reply, ws')))
      go (returns _, w) r = inr (w, r)
      go (fails x, w) r =
          inl
            (500, x, returns-injective (ap (λ (u : Outcome Reply × WalletServer env). u.0) (sym r)))
      go (panics, w) r = cc
      go (diverges, w) r = cc

      let_in :
          ask ws ≡ (returns none, ws)
          → IsError reply ⊎ ((ws1 : WalletServer env) × (rest ws1 ≡ (returns reply, ws')))
      let_in p =
          go (refresh env wallet ws)
            (sym (Run.>>=-of_returns ask (after_check env wallet rest) ws p) ∙ e)

  pub handle_tracking-returns :
      (cookie : Result Bytes) (ws ws' : WalletServer env) (reply : Reply)
      → handle_tracking env wallet cookie ws ≡ (returns reply, ws')
      → IsError reply
        ⊎ ((priv : WalletPrivateKey) × (privs : List WalletPrivateKey) × (ws'.privs ≡ priv ∷ privs)
            × (reply ≡ keys_reply (map (λ (k : WalletPrivateKey). k.tracking_key) (priv ∷ privs))))
  unfolding handle_tracking
  handle_tracking-returns cookie ws ws' reply e =
      elim (authenticated-returns cookie _ ws ws' reply e) [
        | inl bad ↦ inl bad
        | inr (ws1, r) ↦ go ws1 ws1.privs refl r
      ]
    where
      keys : List WalletPrivateKey → Reply
      keys privs = keys_reply (map (λ (k : WalletPrivateKey). k.tracking_key) privs)

      go :
          (ws1 : WalletServer env) (held : List WalletPrivateKey)
          → ws1.privs ≡ held
          → ◌≡◌ {A = Outcome Reply × WalletServer env}
              (
                elim held [
                  | [] ↦ returns (http_error 500 "No private keys")
                  | priv ∷ privs ↦ returns (keys (priv ∷ privs))
                ],
                ws1,
              )
              (returns reply, ws')
          → IsError reply
            ⊎ ((priv : WalletPrivateKey) × (privs : List WalletPrivateKey) × (ws'.privs
                  ≡ priv ∷ privs)
                × (reply ≡ keys (priv ∷ privs)))
      go ws1 [] h r = inl (
        500,
        "No private keys",
        returns-injective (ap (λ (u : Outcome Reply × WalletServer env). u.0) (sym r)),
      )
      go ws1 (priv ∷ privs) h r = inr (
        priv,
        privs,
        ap (λ (u : Outcome Reply × WalletServer env). u.1.privs) (sym r) ∙ h,
        returns-injective (ap (λ (u : Outcome Reply × WalletServer env). u.0) (sym r)),
      )
