-- ===== src/Tests/Starting.antt =====
-- Programs that start.
use ozcoin.Base.{
  ℕ, zero, suc, ◌≡◌, refl, ap, ℤ, pos, negsuc, Option, none, some, List, [], ◌∷◌, length, bytes_eq,
  int_bytes,
}
use ozcoin.Go.{Result, ok, err, returns}
use ozcoin.Types.{Bytes, Output, WalletTrackingKey, WalletPublicKey}
use ozcoin.Env.Laws.{after}
use ozcoin.Wallet
use ozcoin.Wallet.{
  WalletServer, Reply, http_error, token_reply, balance_reply, keys_reply, txn_reply, accepted,
}
use ozcoin.WalletClient.{Messages, Session}
use ozcoin.WalletClient.Server.{serve, TokenJson}
use ozcoin.Start.{Machine, new_wallet_server, mining_address}
use ozcoin.Start.Ready.{new_wallet_server-restarts}
use ozcoin.Start.Begun.{FilesLaws, Started}
use ozcoin.Env.{Change}
use ozcoin.WalletClient.Served.{ok-injective}
use Prim.Native.Nat.{Ordering}
use Prim.Native.String.{compare}
use ozcoin.Base.{String, sym}
use ozcoin.Tests.Toy.{toy_net, toy_env-ShaLaws, toy_ldb-DbLaws}
use ozcoin.Tests.Data.{toy, spend, coin, first_block, first_header}
use ozcoin.Tests.Wallets.{coder, drawn}
use ozcoin.Tests.Clients.{signing, texts, wire_for, wire_for-Carries}

-- A coordinate, before the rest.
abbrev with_number : Option ℤ → Bytes → Bytes
with_number none rest = 0 ∷ rest
with_number (some (pos n)) rest = 1 ∷ n ∷ rest
with_number (some (negsuc n)) rest = 2 ∷ n ∷ rest

abbrev number_in : Bytes → Option (Option ℤ × Bytes)
number_in [] = none
number_in (zero ∷ rest) = some (none, rest)
number_in (suc zero ∷ []) = none
number_in (suc zero ∷ n ∷ rest) = some (some (pos n), rest)
number_in (suc (suc k) ∷ []) = none
number_in (suc (suc k) ∷ n ∷ rest) = some (some (negsuc n), rest)

abbrev then_number :
    {A : Type 0} → Option (Option ℤ × Bytes) → (Option ℤ → Bytes → Option A) → Option A
then_number none f = none
then_number (some (x, rest)) f = f x rest

abbrev with_key : WalletTrackingKey → Bytes → Bytes
with_key k rest = with_number k.public_key.tpk.x (
    with_number k.public_key.tpk.y (
      with_number k.public_key.ppk.x
        (with_number k.public_key.ppk.y (with_number (some k.tsk) rest))))

abbrev key_of :
    Option ℤ
    → Option ℤ
    → Option ℤ
    → Option ℤ
    → Option ℤ
    → Bytes
    → Option (WalletTrackingKey × Bytes)
key_of a b c d none rest = none
key_of a b c d (some tsk) rest = some (
  record {
    public_key = record { tpk = record { x = a; y = b }; ppk = record { x = c; y = d } };
    tsk = tsk;
  },
  rest,
)

abbrev key_in : Bytes → Option (WalletTrackingKey × Bytes)
key_in bytes = then_number (number_in bytes) λ a b1. then_number (number_in b1) λ b b2.
    then_number (number_in b2)
      λ c b3. then_number (number_in b3) λ d b4. then_number (number_in b4) (key_of a b c d)

abbrev with_keys : List WalletTrackingKey → Bytes
with_keys [] = []
with_keys (k ∷ ks) = with_key k (with_keys ks)

abbrev then_key :
    {A : Type 0}
    → Option (WalletTrackingKey × Bytes)
    → (WalletTrackingKey → Bytes → Option A)
    → Option A
then_key none f = none
then_key (some (k, rest)) f = f k rest

abbrev after_key :
    WalletTrackingKey → Option (List WalletTrackingKey) → Option (List WalletTrackingKey)
after_key k none = none
after_key k (some ks) = some (k ∷ ks)

abbrev keys_in : ℕ → Bytes → Option (List WalletTrackingKey)
keys_in zero bytes = some []
keys_in (suc n) bytes = then_key (key_in bytes) λ k rest. after_key k (keys_in n rest)

abbrev listed : Option (List WalletTrackingKey) → Result (List WalletTrackingKey)
listed none = err "unexpected end of JSON input"
listed (some ks) = ok ks

abbrev keys_from : Bytes → Result (List WalletTrackingKey)
keys_from [] = err "unexpected end of JSON input"
keys_from (t ∷ []) = err "unexpected end of JSON input"
keys_from (t ∷ n ∷ rest) = listed (keys_in n rest)

abbrev body_with_keys : Reply → Bytes
body_with_keys (http_error code x) = 1 ∷ []
body_with_keys (token_reply t) = 0 ∷ t
body_with_keys (balance_reply b os) = 2 ∷ []
body_with_keys (keys_reply ks) = 3 ∷ length ks ∷ with_keys ks
body_with_keys (txn_reply t) = 4 ∷ []
body_with_keys accepted = []

abbrev key_texts : Messages
key_texts = record texts { reply_body = body_with_keys; read_keys = keys_from }

key_texts-TokenJson : TokenJson toy coder key_texts drawn
key_texts-TokenJson = record { read_back = λ t len. refl; no_token = λ password ws ws' x t e p. cc }

-- A machine whose files are empty databases.
abbrev laptop : Machine toy
laptop = record {
  Files = Unit {0};
  open_file = λ path f. (ok [], f);
  listen = λ address f. (none, f);
}

starts :
    (s : Session (WalletServer toy)) × (new_wallet_server toy laptop coder key_texts
        (wire_for key_texts)
        (1 ∷ [])
        (2 ∷ [])
        (3 ∷ [])
        (65 ∷ [])
        tt
      ≡ (returns s, tt))
unfolding new_wallet_server serve bytes_eq after int_bytes
starts = (_, refl)

-- The server that has started, its databases in their files, and no other file.
abbrev kept : String → List Change
kept path = elim (compare path "db/wallet-auth.db") [
  | Ordering.eq ↦ starts.0.server.auth_db
  | _ ↦ elim (compare path "db/wallet-priv.db") [ Ordering.eq ↦ starts.0.server.priv_db | _ ↦ [] ]
]

-- A machine that gives what its files hold.
abbrev desktop : Machine toy
desktop = record {
  Files = String → List Change;
  open_file = λ path f. (ok (f path), f);
  listen = λ address f. (none, f);
}

desktop-FilesLaws : FilesLaws toy desktop
desktop-FilesLaws = record {
  content = λ f path. f path;
  opened = λ path f f' db e. (
    ok-injective (ap (λ (q : Result (List Change) × (String → List Change)). q.0) (sym e)),
    λ q. ap (λ (r : Result (List Change) × (String → List Change)). r.1 q) (sym e),
  );
  listened = λ address f q. refl;
}

knows :
    Wallet.authenticate_password toy coder starts.0.server (65 ∷ [])
    ≡ returns starts.0.client.wallet_token
unfolding starts Wallet.authenticate_password serve bytes_eq after int_bytes
knows = refl

restarts :
    (s : Session (WalletServer toy)) × (new_wallet_server toy desktop coder key_texts
        (wire_for key_texts)
        (1 ∷ [])
        (2 ∷ [])
        (3 ∷ [])
        (65 ∷ [])
        kept
      ≡ (returns s, kept))
unfolding starts new_wallet_server serve bytes_eq after int_bytes
restarts = (_, refl)

new_wallet_server-restarts_example :
    (restarts.0.client.wallet_token ≡ starts.0.client.wallet_token)
    × (restarts.0.server.auth_db ≡ starts.0.server.auth_db)
    × (restarts.0.server.priv_db ≡ starts.0.server.priv_db)
    × (restarts.0.server.txn_db ≡ starts.0.server.txn_db)
    × (Wallet.authenticate_token toy coder (ok starts.0.client.wallet_token) restarts.0.server
        ≡ Wallet.authenticate_token toy coder (ok starts.0.client.wallet_token) starts.0.server)
    × Started toy desktop desktop-FilesLaws kept (1 ∷ []) (2 ∷ []) restarts.0.server.client
unfolding starts serve bytes_eq after int_bytes desktop-FilesLaws
new_wallet_server-restarts_example =
    new_wallet_server-restarts toy desktop desktop-FilesLaws coder key_texts drawn signing
      (wire_for key_texts) (wire_for-Carries key_texts) toy_ldb-DbLaws
      (toy_env-ShaLaws (toy_net first_header first_block spend coin)) key_texts-TokenJson (1 ∷ [])
      (2 ∷ []) (3 ∷ []) (65 ∷ []) (65 ∷ []) kept kept starts.0.server starts.0.client.wallet_token
      restarts.0 (ok starts.0.client.wallet_token) refl refl refl refl refl knows refl restarts.1

asks_address :
    (address : WalletPublicKey) × (s : Session (WalletServer toy)) × (mining_address toy coder
        (wire_for key_texts)
        key_texts
        starts.0
      ≡ (returns address, s))
unfolding starts mining_address serve bytes_eq after int_bytes
asks_address = (_, _, refl)
