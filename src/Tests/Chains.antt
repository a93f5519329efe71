-- ===== src/Tests/Chains.antt =====
-- Walks along stored headers.
use ozcoin.Base.{
  ℕ, zero, suc, ◌+◌, ◌≡◌, ◌≢◌, refl, ◌∷◌, [], replicate, length-replicate, ◌≤◌, ◌<◌, pos, some,
  bytes_eq, arith, subst, sym,
}
use ozcoin.Go.{returns, fails}
use ozcoin.Types.{Sha256Sum, BlockHeader, Block, zero_sum, u64_mod}
use ozcoin.Env.{put}
use ozcoin.Env.Laws.{after}
use ozcoin.Hash.{header_hash}
use ozcoin.Client.{Client}
use ozcoin.Store.{get_header}
use ozcoin.Chain.{main_chain_total_difficulty, side_chain_total_difficulty, compute_difficulty}
use ozcoin.Chain.Difficulty.{LinkedTo, last_of, compute_difficulty_step}
use ozcoin.Chain.Totals.{total_difficulty_fails}
use ozcoin.Tests.Toy.{fit, encode_header, toy_ldb-DbLaws, header_codec-KeepsTarget}
use ozcoin.Tests.Data.{toy, light, started, first_header, databases}

started_linked : LinkedTo toy started (header_hash toy first_header) (first_header ∷ []) zero_sum
unfolding header_hash get_header after bytes_eq
started_linked = (refl, refl)

missing : get_header toy started zero_sum ≡ fails "leveldb: not found"
unfolding get_header after bytes_eq
missing = refl

total_difficulty_fails_example :
    (main_chain_total_difficulty toy 2 started ≡ fails "leveldb: not found")
    × ((fuel d : ℕ) → main_chain_total_difficulty toy fuel started ≢ returns d)
    × ((fuel d : ℕ) (key : Sha256Sum)
        → side_chain_total_difficulty toy fuel started key ≢ returns d)
total_difficulty_fails_example =
    total_difficulty_fails toy toy_ldb-DbLaws header_codec-KeepsTarget started (first_header ∷ [])
      zero_sum "leveldb: not found" started_linked missing

-- A header whose hash is its own parent: from it a walk never ends.
abbrev ring_sum : Sha256Sum
ring_sum =
    0 ∷ 0 ∷ 9 ∷ 16 ∷ 0 ∷ 0 ∷ 32 ∷ 0 ∷ 0 ∷ 9 ∷ 16 ∷ 0 ∷ 0 ∷ 32 ∷ 0 ∷ 0 ∷ 9 ∷ 16 ∷ 0 ∷ 0 ∷ 32 ∷ 0 ∷ 0
    ∷ 9 ∷ 16 ∷ 0 ∷ 0 ∷ 32 ∷ 0 ∷ 0 ∷ 9 ∷ 16 ∷ []

abbrev ring_header : BlockHeader
ring_header = record {
  seq_num = 9;
  prev_hash = ring_sum;
  merkle_root = zero_sum;
  time = pos 0;
  difficulty = 16;
  nonce = 0;
}

abbrev ringed : Client toy
ringed = record light {
  dbm = databases (put (fit 32 (encode_header ring_header)) (encode_header ring_header) ∷ []) [] [];
}

abbrev late_block : Block
late_block = record { header = record ring_header { seq_num = 3000 }; txns = [] }

one_linked : get_header toy ringed ring_sum ≡ returns (some ring_header)
unfolding get_header after bytes_eq
one_linked = refl

ring_linked : (n : ℕ) → LinkedTo toy ringed ring_sum (replicate n ring_header) ring_sum
ring_linked zero = refl
ring_linked (suc n) = (one_linked, ring_linked n)

last_of-replicate : (n : ℕ) (h : BlockHeader) → last_of h (replicate n h) ≡ h
last_of-replicate zero h = refl
last_of-replicate (suc n) h = last_of-replicate n h

small : (last_of ring_header (replicate 2015 ring_header)).difficulty + 1 < u64_mod
small =
    subst (λ (h : BlockHeader). h.difficulty + 1 < u64_mod)
      (sym (last_of-replicate 2015 ring_header)) (omega arith)

compute_difficulty_step_example :
    let last = last_of ring_header (replicate 2015 ring_header) in
    let new = last.difficulty + 5 in
    (d : ℕ) × (compute_difficulty toy ringed late_block ≡ returns d)
    × (d ≤ last.difficulty + 1)
    × (last.difficulty ≤ d + 1)
    × (last.difficulty ≤ new + 1 → new ≤ last.difficulty + 1 → d ≡ new)
compute_difficulty_step_example =
    compute_difficulty_step toy ringed late_block ring_header (replicate 2015 ring_header) ring_sum
      (omega arith) (ring_linked 2016) (length-replicate 2016 ring_header) small
