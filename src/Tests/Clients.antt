-- ===== src/Tests/Clients.antt =====
-- A wallet client at a wallet server.
use ozcoin.Base.{
  sym, ◌≡◌, refl, none, [], ◌∷◌, length, ◌==◌, if◌then◌else◌, bytes_eq, int_bytes, arith, ap, ◌∙◌,
}
use ozcoin.Go.{Result, ok, err, Outcome, returns, fails, panics, diverges}
use ozcoin.Types.{Bytes, Sha256Sum}
use ozcoin.Env.Laws.{after}
use ozcoin.Wallet
use ozcoin.Wallet.{
  WalletServer, Reply, http_error, token_reply, balance_reply, keys_reply, txn_reply, accepted,
}
use ozcoin.Wallet.Handlers.{SignDraws}
use ozcoin.Wallet.Access.{IsToken}
use ozcoin.WalletClient.{
  HttpResponse, Http, Messages, Session, marshal_token, post_request, post, do_request, open_wallet,
  new_block, balance_url,
}
use ozcoin.WalletClient.Server.{cookie_of, serve, route, Carries, TokenJson}
use ozcoin.WalletClient.Served.{ok-injective, open_wallet-accepted}
use ozcoin.WalletClient.Refused.{new_block_refused}
use ozcoin.Tests.Toy.{toy_net, toy_env-ShaLaws, toy_ldb-DbLaws}
use ozcoin.Tests.Data.{toy, spend, coin, first_block, first_header}
use ozcoin.Tests.Wallets.{coder, fresh, drawn}

abbrev pub body_for : Reply → Bytes
body_for (http_error code x) = 1 ∷ []
body_for (token_reply t) = 0 ∷ t
body_for (balance_reply b os) = 2 ∷ []
body_for (keys_reply ks) = 3 ∷ []
body_for (txn_reply t) = 4 ∷ []
body_for accepted = []

abbrev pub token_in : Bytes → Result Sha256Sum
token_in [] = err "unexpected end of JSON input"
token_in (b ∷ t) = if b == 0 then ok t else err "invalid character"

abbrev pub signing : SignDraws
signing = record {
  fuel = 1;
  draws = λ i. record { r = 3 ∷ []; q = []; k = λ j. j; s = λ j. j };
  k1 = 1;
  k2 = 1;
  r = λ i. 1;
  s = λ i. 1;
}

abbrev pub texts : Messages
texts = record {
  password_json = λ p. ok p;
  read_password = λ b. ok b;
  sign_json = λ m. ok [];
  read_sign = λ b. err "unexpected end of JSON input";
  read_block = λ b. ok first_block;
  reply_body = body_for;
  read_token = token_in;
  read_keys = λ b. ok [];
  read_txn = λ b. ok spend;
  read_balance = λ b. ok (0, []);
}

abbrev pub response : Outcome HttpResponse → Result HttpResponse
response (returns resp) = ok resp
response (fails x) = err x
response panics = err "EOF"
response diverges = err "EOF"

response-eq-ok :
    (m : Outcome HttpResponse) (resp : HttpResponse) → response m ≡ ok resp → m ≡ returns resp
response-eq-ok (returns r) resp e = cc
response-eq-ok (fails x) resp e = cc
response-eq-ok panics resp e = cc
response-eq-ok diverges resp e = cc

abbrev pub wire_for : Messages → Http (WalletServer toy)
wire_for msgs = record {
  new_request = λ url. none;
  send = λ req ws. let (r, ws') = serve toy coder msgs drawn signing req ws in (response r, ws');
}

pub wire_for-Carries : (msgs : Messages) → Carries toy coder msgs drawn signing (wire_for msgs)
wire_for-Carries msgs = record {
  answers = λ wc relative_url payload ws resp known came.
      let served =
        serve toy coder msgs drawn signing (post_request coder wc relative_url payload) ws in
      λ i. (response-eq-ok served.0 resp came i, served.1);
}

texts-TokenJson : TokenJson toy coder texts drawn
texts-TokenJson = record { read_back = λ t len. refl; no_token = λ password ws ws' x t e p. cc }

abbrev pub visitor : Session (WalletServer toy)
visitor = record {
  client = record { address = []; wallet_token = []; keys = []; outputs = [] };
  server = fresh;
}

enters :
    (s : Session (WalletServer toy)) × (open_wallet toy coder
        (wire_for texts)
        texts
        (65 ∷ [])
        visitor
      ≡ (returns tt, s))
unfolding open_wallet post do_request serve route bytes_eq after int_bytes
enters = (_, refl)

open_wallet-accepted_example :
    (Wallet.authenticate_password toy coder enters.0.server (65 ∷ [])
      ≡ returns enters.0.client.wallet_token)
    × (Wallet.authenticate_token toy coder
          (cookie_of (post_request coder enters.0.client balance_url none))
          enters.0.server
        ≡ returns none)
unfolding bytes_eq
open_wallet-accepted_example =
    open_wallet-accepted toy coder texts drawn signing (wire_for texts) (wire_for-Carries texts)
      toy_ldb-DbLaws (toy_env-ShaLaws (toy_net first_header first_block spend coin)) texts-TokenJson
      (65 ∷ []) (65 ∷ []) visitor enters.0 balance_url none (λ token len. refl) refl refl refl
      enters.1

stranger : ¬ (IsToken toy coder (ok (marshal_token coder visitor.client)) fresh)
unfolding marshal_token
stranger (value, token, stored, cookie, decoded, len, got, same) =
    let empty_token : length token ≡ 0 = ap length (ok-injective (sym (cookie ∙ decoded))) in
    omega arith

new_block_refused_example :
    new_block toy coder (wire_for texts) texts first_block visitor ≡ (returns tt, visitor)
unfolding serve route bytes_eq post_request
new_block_refused_example =
    new_block_refused toy coder texts drawn signing (wire_for texts) (wire_for-Carries texts)
      first_block visitor (record { status = 401; body = ok (1 ∷ []) }) stranger refl refl
