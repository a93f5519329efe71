-- ===== src/Payment.antt =====
-- Payments: `NewPrivateKey` of address.go, `RangeCommit` of commitment.go, `BuildOutputs` and `NewTxn`
-- of txn.go, and the amounts that output.go decrypts. What is drawn at random is an argument.
pub mod Linked
pub mod Amounts
pub mod Commits
pub mod Signed
pub mod Received
use ozcoin.Base.{
  ℕ, zero, suc, ◌+◌, ◌*◌, ◌^◌, ◌%◌, ◌||◌, ◌&&◌, ◌∷◌, ℤ, pos, ◌+ℤ◌, mod_ℤ, eq_ℤ, ltb, Bool, true,
  false, not, Option, none, some, List, [], ◌++◌, map, length, get_or, int_bytes, if◌then◌else◌,
}
use ozcoin.Go.{Result, ok, err, Outcome, returns, fails, panics}
use ozcoin.Go.Read.{◌>>=◌, caught}
use ozcoin.Types.{
  Bytes, Sha256Sum, EccPoint, Point, stored, Commitment, Output, Txn, TxnBody, WalletPublicKey,
  WalletPrivateKey, txn_num_inputs, u64_mod,
}
use ozcoin.Env.{Env, Codec}
use ozcoin.Hash.{deref, point_bytes, neg_y, sum_int, hash, output_hash}
use ozcoin.RangeProof.{Row, stored_rows, compute_blinds, range_sign}
use ozcoin.Ring.{infinity, sum_points, commits_of, deref_all, commit_differences, ring_sign}
use ozcoin.Txn.{dest_keys}

-- `OutputPlaintext`. A Go string is a sequence of bytes, and `Output` is a pointer.
pub record OutputPlaintext : Type 0 where
  pub output : Option Output
  pub hash_pub : Bytes
  pub time : Bytes
  pub amount : ℕ
  pub height : ℕ

-- What `BuildOutputs` draws for an output: `r`, `q`, and the draws of `RangeSign`.
pub record Draws : Type 0 where
  pub r : Bytes
  pub q : Bytes
  pub k : ℕ → ℕ
  pub s : ℕ → ℕ

unfoldable pub row_commits : List Row → List Point
row_commits [] = []
row_commits (w ∷ rows) = w.pk0 ∷ row_commits rows

module _ (env : Env) where
  open env use {curve}

  -- `NewPrivateKey`, from the two secrets that it draws.
  unfoldable pub new_private_key : ℕ → ℕ → WalletPrivateKey
  new_private_key tsk psk = record {
    tracking_key = record {
      public_key = record {
        tpk = stored (curve.scalar_base_mult (int_bytes (pos tsk)));
        ppk = stored (curve.scalar_base_mult (int_bytes (pos psk)));
      };
      tsk = pos tsk;
    };
    psk = pos psk;
  }

  -- `RangeCommit`
  unfoldable pub range_commit : ℕ → ℤ → (k s : ℕ → ℕ) → Commitment
  unfolding range_sign stored_rows sum_points row_commits
  range_commit amt target k s =
      let signed = range_sign env amt k s target in
      record {
        point = stored (sum_points env infinity (row_commits signed.1));
        range_proof = stored_rows signed.0 signed.1;
      }

  -- One round of the loop of `BuildOutputs`: the output and its blinding factor.
  unfoldable pub build_output : ℕ → WalletPublicKey → Draws → Outcome (Output × ℤ)
  unfolding deref hash sum_int range_commit
  build_output amt rcpt d = do
    tpk ← deref rcpt.tpk
    ppk ← deref rcpt.ppk
    let h = hash env (point_bytes (curve.scalar_mult tpk d.r))
    let blind = sum_int (hash env (point_bytes (curve.scalar_mult ppk d.q)))
    returns (
      record {
        public_key = stored (curve.scalar_base_mult d.r);
        dest_key = stored (curve.add (curve.scalar_base_mult h) ppk);
        blind_seed = stored (curve.scalar_base_mult d.q);
        commit = range_commit amt blind d.k d.s;
      },
      blind,
    )

  -- The loop, at index `i` and with the sum so far. A recipient that is missing panics.
  unfoldable pub build_from :
      (ℕ → Draws) → ℕ → ℤ → List ℕ → List WalletPublicKey → Outcome (List Output × ℤ)
  unfolding build_output
  build_from draws i sum [] rcpts = returns ([], sum)
  build_from draws i sum (amt ∷ amts) [] = panics
  build_from draws i sum (amt ∷ amts) (rcpt ∷ rcpts) = do
    built ← build_output amt rcpt (draws i)
    rest ← build_from draws (i + 1) (mod_ℤ (sum +ℤ built.1) curve.order) amts rcpts
    returns (built.0 ∷ rest.0, rest.1)

  -- `BuildOutputs`
  unfoldable pub build_outputs :
      (ℕ → Draws) → List ℕ → List WalletPublicKey → Outcome (List Output × ℤ)
  unfolding build_from
  build_outputs draws amts rcpts = build_from draws 0 (pos 0) amts rcpts

  -- `NewTxn` on slices that are not nil, with what `BuildOutputs` and `OZRSSign` draw. Fewer than 8
  -- inputs, or a nil coordinate in one, panic in `OZRSSign`.
  unfoldable pub new_txn_of :
      (ℕ → Draws)
      → (k1 k2 : ℕ) → (r s : ℕ → ℕ) → List Output
      → (sk yi : ℤ) → ℕ
      → List ℕ
      → List WalletPublicKey
      → ℕ
      → Outcome Txn
  unfolding output_hash build_outputs deref_all commits_of dest_keys commit_differences ring_sign
      hash
  new_txn_of draws k1 k2 r s inputs sk yi idx amts rcpts fee = do
    built ← build_outputs draws amts rcpts
    let body : TxnBody = record {
      inputs = map (output_hash env) inputs;
      outputs = built.0;
      fee = fee;
    }
    pks ← deref_all (dest_keys inputs)
    ics ← deref_all (commits_of inputs)
    outs ← deref_all (commits_of built.0)
    let diffs = commit_differences env outs fee ics
    if ltb (length inputs) txn_num_inputs
        then panics
        else returns (record {
          body = body;
          sig =
              ring_sign env sk yi built.1 k1 k2 r s (hash env (env.body_json.encode body))
                (λ i. get_or diffs i infinity) (λ i. get_or pks i infinity) idx;
        })

  -- `NewTxn`, with `none` for a nil slice and for the nil that it returns.
  unfoldable pub new_txn :
      (ℕ → Draws)
      → (k1 k2 : ℕ) → (r s : ℕ → ℕ) → Option (List Output)
      → (sk yi idx : ℤ) → Option (List ℕ)
      → Option (List WalletPublicKey)
      → ℕ
      → Outcome (Option Txn)
  unfolding new_txn_of
  new_txn draws k1 k2 r s (some inputs) sk yi (pos idx) (some amts) (some rcpts) fee =
      if ltb idx txn_num_inputs
      then (do t ← new_txn_of draws k1 k2 r s inputs sk yi idx amts rcpts fee; returns (some t))
      else returns none
  new_txn draws k1 k2 r s _ sk yi _ _ _ fee = returns none

  -- The inner loop of `DecryptAmount`: whether the key is the blinding factor's multiple of the
  -- generator. `r` is that multiple, with its `Y` negated.
  unfoldable pub opens : Point → EccPoint → Outcome Bool
  unfolding deref
  opens r pk = do
    p ← deref pk
    let sum = curve.add p r
    returns (eq_ℤ (pos 0) sum.x && eq_ℤ (pos 0) sum.y)

  -- The outer loop, at bit `i`. `PKs` is an array of 34.
  unfoldable pub decrypt_from : ℕ → ℕ → List ℤ → List (EccPoint × EccPoint) → Outcome ℕ
  decrypt_from i total [] pks = returns total
  decrypt_from i total (blind ∷ blinds) [] = panics
  decrypt_from i total (blind ∷ blinds) ((pk0, pk1) ∷ pks) = do
    let r = neg_y (curve.scalar_base_mult (int_bytes blind))
    first ← opens r pk0
    elim first [
      | true ↦ decrypt_from (i + 1) ((total + 2 ^ i * 1) % u64_mod) blinds pks
      | false ↦ do
        second ← opens r pk1
        elim second [
          | true ↦ decrypt_from (i + 1) ((total + 2 ^ i * 0) % u64_mod) blinds pks
          | false ↦ fails "Couldnt not decrypt amount"
        ]
    ]

  -- `Output.DecryptAmount`
  unfoldable pub decrypt_amount : Output → ℤ → Outcome ℕ
  unfolding compute_blinds decrypt_from
  decrypt_amount o y_out = decrypt_from 0 0 (compute_blinds env y_out) o.commit.range_proof.pks

  -- `Output.ComputeBlindingFactor`
  unfoldable pub compute_blinding_factor : Output → WalletPrivateKey → Outcome ℤ
  unfolding deref hash sum_int
  compute_blinding_factor o addr = do
    q ← deref o.blind_seed
    if eq_ℤ (pos 0) q.x && eq_ℤ (pos 0) q.y
        then returns (pos 0)
        else returns (sum_int (hash env (point_bytes (curve.scalar_mult q (int_bytes addr.psk)))))

  -- `Output.DecryptCoinbase` and `Output.Decrypt`, with `base64.StdEncoding.EncodeToString`.
  module _ (base64 : Bytes → Bytes) where
    unfoldable pub decrypt_coinbase : Output → Outcome OutputPlaintext
    unfolding deref hash
    decrypt_coinbase o = do
      p ← deref o.public_key
      returns (record {
        output = some o;
        hash_pub = base64 (hash env (point_bytes p));
        time = [];
        amount = 0;
        height = 0;
      })

    -- The amount is set where it can be decrypted, and nil is returned where it cannot.
    unfoldable pub decrypt : Output → WalletPrivateKey → Outcome (Option OutputPlaintext)
    unfolding decrypt_coinbase compute_blinding_factor decrypt_amount
    decrypt o addr = do
      op ← decrypt_coinbase o
      y_out ← compute_blinding_factor o addr
      amount ← caught (decrypt_amount o y_out)
      elim amount [ ok a ↦ returns (some (record op { amount = a })) | err e ↦ returns none ]
