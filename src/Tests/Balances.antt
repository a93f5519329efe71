-- ===== src/Tests/Balances.antt =====
-- A wallet server that is told of a mined block.
use ozcoin.Base.{◌≡◌, refl, [], ◌∷◌, bytes_eq, replicate, true}
use ozcoin.Go.{Result, ok, err, returns}
use ozcoin.Types.{Bytes, Block, Txn}
use ozcoin.Env.{put}
use ozcoin.Payment.{OutputPlaintext}
use ozcoin.Env.Laws.{after}
use ozcoin.Hash.{output_hash}
use ozcoin.Chain.{coinbase_value}
use ozcoin.Mining.{fees_of}
use ozcoin.Output.{belongs_to_me, hash_shared_secret}
use ozcoin.Wallet.{
  WalletEnv, WalletServer, accepted, token_key, authenticate_token, compare_token, read_all,
}
use ozcoin.Wallet.Handlers.{handle_new_block, handle_delete_block}
use ozcoin.Wallet.Balance.{Answers, Reports}
use ozcoin.Wallet.Credited.{KeepsAmount, mined_block_credited}
use ozcoin.Tests.Toy.{toy_ldb-EntriesLaws}
use ozcoin.Tests.Data.{toy, coin, spend, first_header, reward_txn}
use ozcoin.Tests.Wallets.{coder, fresh, key, plain}

abbrev amount_from : Bytes → Result OutputPlaintext
amount_from [] = err "unexpected end of JSON input"
amount_from (n ∷ _) = ok (plain n)

abbrev books : WalletEnv
books = record coder { plaintext_json = λ o. o.amount ∷ []; read_plaintext = amount_from }

books-KeepsAmount : KeepsAmount books
books-KeepsAmount op = (plain op.amount, refl, refl)

-- It holds one output of 7 units.
abbrev keeper : WalletServer toy
keeper = record fresh {
  auth_db = put token_key (replicate 32 9) ∷ [];
  priv_db = put (1 ∷ []) [] ∷ [];
  txn_db = put (5 ∷ []) (7 ∷ []) ∷ [];
}

abbrev paid_fee : Txn
paid_fee = record spend { body = record spend.body { outputs = [] } }

abbrev mined : Block
mined = record { header = first_header; txns = reward_txn ∷ paid_fee ∷ [] }

abbrev told : WalletServer toy
told = (handle_new_block toy books (ok (replicate 32 9)) (ok mined) keeper).1

tells : (handle_new_block toy books (ok (replicate 32 9)) (ok mined) keeper).0 ≡ returns accepted
unfolding handle_new_block after bytes_eq belongs_to_me
tells = refl

abbrev untold : WalletServer toy
untold = (handle_delete_block toy books (ok (replicate 32 9)) (ok mined) told).1

takes_back :
    (handle_delete_block toy books (ok (replicate 32 9)) (ok mined) told).0 ≡ returns accepted
unfolding handle_new_block handle_delete_block after bytes_eq belongs_to_me
takes_back = refl

keeper-Answers : Answers toy books (ok (replicate 32 9)) (key ∷ []) keeper
unfolding after authenticate_token compare_token read_all bytes_eq
keeper-Answers = record { has_token = refl; has_keys = refl; readable = ((plain 7, refl), tt) }

owned : belongs_to_me toy coin key.tracking_key ≡ returns true
unfolding belongs_to_me hash_shared_secret
owned = refl

-- The coinbase value is 5000000000, and the fee 3.
mined_block_credited_example :
    Reports toy books (ok (replicate 32 9)) 7 keeper
    × Reports toy books (ok (replicate 32 9)) 5000000010 told
    × Reports toy books (ok (replicate 32 9)) 7 untold
unfolding fees_of coinbase_value output_hash bytes_eq
mined_block_credited_example =
    mined_block_credited toy books toy_ldb-EntriesLaws books-KeepsAmount (ok (replicate 32 9)) key
      first_header reward_txn (paid_fee ∷ []) coin keeper told untold keeper-Answers refl owned
      (tt, tt) (refl, tt) (tt, tt) (λ i. (tells i, told)) (λ i. (takes_back i, untold))
