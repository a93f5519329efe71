-- ===== src/WalletClient/Refused.antt =====
-- A wallet client whose token is not that of the server.
use ozcoin.Base.{◌≡◌, refl, ap, sym, ◌∙◌, ◌++◌, Option, none, some, inl, inr, bytes_eq}
use ozcoin.Go.{ok, Outcome, returns}
use ozcoin.Go.Run
use ozcoin.Go.Run.{of_error}
use ozcoin.Types.{Bytes, Block}
use ozcoin.Env.{Env}
use ozcoin.Wallet.{WalletEnv, WalletServer, Secrets, Reply}
use ozcoin.Wallet.Handlers
use ozcoin.Wallet.Handlers.{SignDraws}
use ozcoin.Wallet.Access.{IsToken, IsToken-guards}
use ozcoin.WalletClient.Served.{body_of}
use ozcoin.WalletClient.Server.{route, serve, Carries}
use ozcoin.WalletClient.{
  HttpResponse, Http, Messages, Session, marshal_token, post_request, do_request, post, new_block,
  scheme, new_block_url,
}

module _ (env : Env) (wallet : WalletEnv) (msgs : Messages) (drawn : Secrets) (d : SignDraws)
    (http : Http (WalletServer env)) (carries : Carries env wallet msgs drawn d http) where
  -- A response: what the server came to, and that its body can be read.
  serve-route :
      (b : Block) (s : Session (WalletServer env)) (ws : WalletServer env) (resp : HttpResponse)
      → serve env wallet msgs drawn d
          (post_request wallet s.client new_block_url (some (env.block_json.encode b)))
          s.server
        ≡ (returns resp, ws)
      → (reply : Reply) × (resp.body ≡ ok (msgs.reply_body reply))
        × (Handlers.handle env wallet
              (Handlers.new_block (msgs.read_block (env.block_json.encode b)))
              (ok (marshal_token wallet s.client))
              s.server
            ≡ (returns reply, ws))
  unfolding serve route post_request bytes_eq
  serve-route b s ws resp e =
      let req = post_request wallet s.client new_block_url (some (env.block_json.encode b)) in
      let (reply, ws1, e1, r1) =
        Run.>>=-eq-returns (route env wallet msgs drawn d req) _ s.server e in
      let left : ws1 ≡ ws = ap (λ (q : Outcome HttpResponse × WalletServer env). q.1) r1 in
      (reply, sym (body_of r1), e1 ∙ λ i. (returns reply, left i))

  post_sent :
      (relative_url : Bytes) (payload : Option Bytes) (s : Session (WalletServer env))
      (ws : WalletServer env) (resp : HttpResponse) (bytes : Bytes)
      → http.new_request (scheme ++ s.client.address ++ relative_url) ≡ none
      → http.send (post_request wallet s.client relative_url payload) s.server ≡ (ok resp, ws)
      → resp.body ≡ ok bytes
      → post env wallet http msgs relative_url payload s ≡ (returns bytes, record s { server = ws })
  unfolding post do_request
  post_sent relative_url payload s ws resp bytes n sent body = rw (n, sent, body) refl

  -- On a connection that carries the answers: where the client's token is not the one that the server
  -- keeps, and a response to `WalletClient.NewBlock` arrives, it returns no error, though the server
  -- has not changed.
  pub new_block_refused :
      (b : Block) (s : Session (WalletServer env)) (resp : HttpResponse)
      → ¬ (IsToken env wallet (ok (marshal_token wallet s.client)) s.server)
      → http.new_request (scheme ++ s.client.address ++ new_block_url) ≡ none
      → (http.send
          (post_request wallet s.client new_block_url (some (env.block_json.encode b)))
          s.server).0
        ≡ ok resp
      → new_block env wallet http msgs b s ≡ (returns tt, s)
  unfolding new_block
  new_block_refused b s resp stranger n came =
      let payload = some (env.block_json.encode b) in
      let req = post_request wallet s.client new_block_url payload in
      let ws = (http.send req s.server).1 in
      let answered =
        carries.answers s.client new_block_url payload s.server resp
          (inr (inr (inr (inr (inl refl))))) came in
      let (reply, body, handled) = serve-route b s ws resp answered in
      let same : ws ≡ s.server =
        elim (IsToken-guards env wallet
          (Handlers.new_block (msgs.read_block (env.block_json.encode b)))
          (ok (marshal_token wallet s.client)) s.server ws (returns reply) handled) [
            | inl good ↦ absurd (stranger good)
            | inr (kept, _) ↦ kept
          ] in
      let sent : http.send req s.server ≡ (ok resp, s.server) = λ i. (came i, same i) in
      Run.>>=-of_returns (post env wallet http msgs new_block_url payload) _ s
        (post_sent new_block_url payload s s.server resp (msgs.reply_body reply) n sent body)
