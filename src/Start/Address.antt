-- ===== src/Start/Address.antt =====
-- The key that the miner asks its wallet server for.
use ozcoin.Base.{◌≡◌, inl, inr, refl, sym, ap, ◌∙◌, subst, none, List, [], ◌∷◌, map, bytes_eq}
use ozcoin.Go.{ok, Outcome, returns, returns-injective}
use ozcoin.Go.Run
use ozcoin.Go.Run.{Action}
use ozcoin.Types.{Output, WalletPublicKey, WalletTrackingKey, WalletPrivateKey}
use ozcoin.Env.{Env}
use ozcoin.Output.Received
use ozcoin.Miner.{or_panic}
use ozcoin.Wallet.{WalletEnv, WalletServer, Secrets}
use ozcoin.Wallet.Handlers.{SignDraws, handle}
use ozcoin.Wallet.Admitted.{handle_tracking-returns}
use ozcoin.WalletClient.{Http, Messages, Session, post_request, post, tracking_keys, tracking_url}
use ozcoin.WalletClient.Server.{cookie_of, route, Carries, KeysJson}
use ozcoin.WalletClient.Served.{post_served, of_result-eq-returns, ok-injective}
use ozcoin.Start.{mining_address}
use ozcoin.Start.Begun.{or_panic-returns}

module _ (env : Env) (wallet : WalletEnv) (msgs : Messages) (drawn : Secrets) (d : SignDraws)
    (http : Http (WalletServer env)) (carries : Carries env wallet msgs drawn d http)
    (json : KeysJson env wallet msgs) where
  -- The keys that `TrackingKeys` returns are those that the server has.
  pub tracking_keys_served :
      (s s' : Session (WalletServer env)) (ks : List WalletTrackingKey)
      → tracking_keys env wallet http msgs s ≡ (returns ks, s')
      → (priv : WalletPrivateKey) × (privs : List WalletPrivateKey) × (s'.server.privs
          ≡ priv ∷ privs)
        × (ks ≡ map (λ (k : WalletPrivateKey). k.tracking_key) (priv ∷ privs))
  unfolding tracking_keys route handle post_request bytes_eq
  tracking_keys_served s s' ks e =
      let (bytes, s1, e1, r1) =
        Run.>>=-eq-returns (post env wallet http msgs tracking_url none) _ s e in
      let decoded : msgs.read_keys bytes ≡ ok ks =
        of_result-eq-returns (msgs.read_keys bytes) ks
          (ap (λ (q : Outcome (List WalletTrackingKey) × Session (WalletServer env)). q.0) r1) in
      let same : s1 ≡ s' =
        ap (λ (q : Outcome (List WalletTrackingKey) × Session (WalletServer env)). q.1) r1 in
      let (reply, served, body, _) =
        post_served env wallet msgs drawn d http carries tracking_url none s s1 bytes
          (inr (inl refl)) e1 in
      let read_as : msgs.read_keys (msgs.reply_body reply) ≡ ok ks =
        ap msgs.read_keys body ∙ decoded in
      let cookie = cookie_of (post_request wallet s.client tracking_url none) in
      elim (handle_tracking-returns env wallet cookie s.server s1.server reply served) [
        | inl (code, x, p) ↦ absurd (
            json.no_keys cookie s.server s1.server code x ks
              (served ∙ λ i. (returns (p i), s1.server))
              (ap (λ r. msgs.read_keys (msgs.reply_body r)) (sym p) ∙ read_as))
        | inr (priv, privs, held, p) ↦ (
          priv,
          privs,
          ap (λ (t : Session (WalletServer env)). t.server.privs) (sym same) ∙ held,
          ok-injective (
              sym read_as
              ∙ ap (λ r. msgs.read_keys (msgs.reply_body r)) p
              ∙ json.read_back (map (λ (k : WalletPrivateKey). k.tracking_key) (priv ∷ privs))),
        )
      ]

  -- On a connection that carries the answers, with JSON of the keys that is read back: where the
  -- miner gets an address from its wallet server, it is the public key of the first private key that
  -- the server then has.
  pub mining_address_owned :
      (s s' : Session (WalletServer env)) (address : WalletPublicKey)
      → mining_address env wallet http msgs s ≡ (returns address, s')
      → (priv : WalletPrivateKey) × (privs : List WalletPrivateKey) × (s'.server.privs
          ≡ priv ∷ privs)
        × (address ≡ priv.tracking_key.public_key)
  unfolding mining_address
  mining_address_owned s s' address e =
      let (ks, s1, e1, r1) =
        Run.>>=-eq-returns (or_panic (tracking_keys env wallet http msgs)) _ s e in
      let (priv, privs, held, listed) =
        tracking_keys_served s s1 ks
          (or_panic-returns (tracking_keys env wallet http msgs) s s1 ks e1) in
      let first =
        subst
          (λ (l : List WalletTrackingKey).
            (elim l as (λ _. Action (Session (WalletServer env)) WalletPublicKey) [
              | [] ↦ Run.panic
              | k ∷ _ ↦ Run.pure k.public_key
            ])
              s1
            ≡ (returns address, s'))
          listed r1 in
      (
        priv,
        privs,
        ap (λ (q : Outcome WalletPublicKey × Session (WalletServer env)). q.1.server.privs)
              (sym first)
            ∙ held,
        returns-injective
            (ap (λ (q : Outcome WalletPublicKey × Session (WalletServer env)). q.0) (sym first)),
      )
