-- ===== src/Tests/Wallets.antt =====
-- A wallet server that is opened and asked.
use ozcoin.Base.{ℕ, ◌≤◌, ◌≡◌, ◌⊎◌, refl, pos, true, some, none, List, [], ◌∷◌, All, Among}
use ozcoin.Go.{ok, returns}
use ozcoin.Types.{Sha256Sum, WalletPrivateKey}
use ozcoin.Env.Laws.{after}
use ozcoin.Hash.{deref}
use ozcoin.Output.{belongs_to_me, hash_shared_secret}
use ozcoin.Payment.{OutputPlaintext}
use ozcoin.Wallet.{
  WalletEnv, WalletServer, Secrets, authenticate_password, authenticate_token, open_wallet, create,
  put_auth, put_priv, refresh, read_all,
}
use ozcoin.Wallet.Handlers.{balance, handle}
use ozcoin.Wallet.Access.{IsToken, IsRefused, IsToken-guards}
use ozcoin.Wallet.Opened.{opened_authenticates}
use ozcoin.Wallet.Funding.{any_owns, funding_key, is_better, fund_from, find_funding_txn, last_key}
use ozcoin.Wallet.Chosen.{NoBetter, find_funding_txn_chooses}
use ozcoin.Tests.Toy.{toy_net, toy_env-ShaLaws, toy_ldb-DbLaws}
use ozcoin.Tests.Data.{toy, lonely, coin, there, spend, first_block, first_header}

abbrev pub key : WalletPrivateKey
key = record {
  tracking_key = record { public_key = record { tpk = there; ppk = there }; tsk = pos 3 };
  psk = pos 5;
}

abbrev pub plain : ℕ → OutputPlaintext
plain amount = record { output = some coin; hash_pub = []; time = []; amount = amount; height = 0 }

abbrev pub coder : WalletEnv
coder = record {
  public_json = λ k. [];
  private_json = λ k. [];
  read_private = λ b. ok key;
  plaintext_json = λ o. [];
  read_plaintext = λ b. ok (plain 4);
  base64 = λ b. b;
  from_base64 = λ b. ok b;
  time_string = λ t. [];
}

abbrev pub fresh : WalletServer toy
fresh = record {
  client = lonely;
  auth_db = [];
  priv_db = [];
  txn_db = [];
  privs = [];
  outputs = [];
}

IsToken-guards_example :
    IsToken toy coder (ok (1 ∷ [])) fresh
    ⊎ (((handle toy coder balance (ok (1 ∷ [])) fresh).1 ≡ fresh)
        × IsRefused toy coder (handle toy coder balance (ok (1 ∷ [])) fresh).0)
IsToken-guards_example =
    IsToken-guards toy coder balance (ok (1 ∷ [])) fresh
      (handle toy coder balance (ok (1 ∷ [])) fresh).1
      (handle toy coder balance (ok (1 ∷ [])) fresh).0 refl

abbrev pub drawn : Secrets
drawn = record { salt = 7; seed = 8; tsk = 3; psk = 5 }

opens :
    (token : Sha256Sum) × (ws : WalletServer toy) × (open_wallet toy coder drawn (65 ∷ []) fresh
      ≡ (returns token, ws))
unfolding open_wallet create put_auth put_priv refresh read_all authenticate_password after
opens = (_, _, refl)

opened_authenticates_example :
    (authenticate_password toy coder opens.1 (65 ∷ []) ≡ returns opens.0)
    × (authenticate_token toy coder (ok opens.0) opens.1 ≡ returns none)
opened_authenticates_example =
    opened_authenticates toy coder toy_ldb-DbLaws
      (toy_env-ShaLaws (toy_net first_header first_block spend coin)) drawn (65 ∷ []) opens.0 fresh
      opens.1 opens.0 opens.2 refl

abbrev rich : WalletServer toy
rich = record fresh { privs = key ∷ []; outputs = plain 9 ∷ plain 4 ∷ plain 6 ∷ [] }

funds : find_funding_txn toy coder 5 rich ≡ returns (some (plain 6, key))
unfolding find_funding_txn fund_from is_better funding_key any_owns belongs_to_me hash_shared_secret
    deref last_key
funds = refl

find_funding_txn_chooses_example :
    Among (plain 6) rich.outputs
    × (5 ≤ 6)
    × All (NoBetter 5 (plain 6)) rich.outputs
    × (any_owns toy coder (some coin) rich.privs ≡ returns true)
    × ((first : WalletPrivateKey) × (rest : List WalletPrivateKey) × (rich.privs ≡ first ∷ rest)
        × (key ≡ last_key first rest))
find_funding_txn_chooses_example = find_funding_txn_chooses toy coder 5 rich (plain 6) key funds
