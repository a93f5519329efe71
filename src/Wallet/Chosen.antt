-- ===== src/Wallet/Chosen.antt =====
-- What `findFundingTxn` and `RandomOutputs` choose.
use ozcoin.Base.{
  ℕ, zero, suc, ◌≤◌, ◌<◌, ◌≡◌, ◌⊎◌, inl, inr, refl, sym, ap, ◌∙◌, subst, arith, Bool, true, false,
  Option, none, some, List, [], ◌∷◌, length, All, Among, bytes_eq, if◌then◌else◌, leb, Bool-cases,
  ◌==◌, ==_iff,
}
use ozcoin.Go.{Outcome, returns, diverges, returns-injective}
use ozcoin.Go.Read
use ozcoin.Types.{Bytes, Block, Txn, Output, WalletPrivateKey}
use ozcoin.Env.{Env}
use ozcoin.Hash.{output_hash}
use ozcoin.Client.{Client}
use ozcoin.Load.{find_block}
use ozcoin.Payment.{OutputPlaintext}
use ozcoin.Wallet.{WalletEnv, WalletServer}
use ozcoin.Wallet.Funding.{
  last_key, any_owns, funding_key, is_better, fund_from, find_funding_txn, scan_outputs, scan_txns,
  gather_outputs, random_outputs,
}

-- The other output is too small, or is no smaller.
abbrev pub NoBetter : ℕ → OutputPlaintext → OutputPlaintext → Type 0
NoBetter amount o p = (p.amount < amount) ⊎ (o.amount ≤ p.amount)

abbrev Fits : OutputPlaintext → Option (OutputPlaintext × Option WalletPrivateKey) → Type 0
Fits o none = Unit
Fits o (some (b, k)) = o.amount ≤ b.amount

some-injective : {A : Type 0} {a b : A} → some a ≡ some b → a ≡ b
some-injective e = cc

none_ne_some : {A : Type 0} {a : A} → none ≡ some a → ⊥
none_ne_some e = cc

module _ (env : Env) (wallet : WalletEnv) where
  -- Where the output that was chosen comes from.
  abbrev Origin :
      ℕ
      → List WalletPrivateKey
      → Option (OutputPlaintext × Option WalletPrivateKey)
      → List OutputPlaintext
      → OutputPlaintext
      → Option WalletPrivateKey
      → Type 0
  Origin amount privs best os o key =
      (best ≡ some (o, key))
      ⊎ (Among o os × (amount ≤ o.amount) × (funding_key env wallet o.output privs ≡ returns key))

  passed_over :
      (amount : ℕ) (p o : OutputPlaintext)
      (best : Option (OutputPlaintext × Option WalletPrivateKey))
      → is_better env wallet amount p best ≡ false
      → Fits o best
      → NoBetter amount o p
  unfolding is_better
  passed_over amount p o none e f = inl (ground arith)
  passed_over amount p o (some (b, k)) e f = elim (Bool-cases (leb amount p.amount)) [
    | inl enough ↦ inr (ground arith)
    | inr short ↦ inl (ground arith)
  ]

  taken_up :
      (amount : ℕ) (p o : OutputPlaintext)
      (best : Option (OutputPlaintext × Option WalletPrivateKey))
      → is_better env wallet amount p best ≡ true
      → o.amount ≤ p.amount
      → Fits o best × (amount ≤ p.amount)
  unfolding is_better
  taken_up amount p o none e f = (tt, ground arith)
  taken_up amount p o (some (b, k)) e f = (ground arith, ground arith)

  fund_from-chooses :
      (amount : ℕ) (privs : List WalletPrivateKey)
      (best : Option (OutputPlaintext × Option WalletPrivateKey)) (os : List OutputPlaintext)
      (o : OutputPlaintext) (key : Option WalletPrivateKey)
      → fund_from env wallet amount privs best os ≡ returns (some (o, key))
      → Fits o best × All (NoBetter amount o) os × Origin amount privs best os o key
  unfolding fund_from
  fund_from-chooses amount privs best [] o key e =
      let same : best ≡ some (o, key) = returns-injective e in
      (subst (Fits o) (sym same) (omega arith), tt, inl same)
  fund_from-chooses amount privs best (p ∷ os) o key e =
      let fund = fund_from env wallet amount privs in
      elim (Bool-cases (is_better env wallet amount p best)) [
        | inl better ↦
            let (k, found, rest) =
              Read.>>=-eq-returns (funding_key env wallet p.output privs) _
                (subst (λ b. step b ≡ returns (some (o, key))) better e) in
            let (fits, all, origin) = fund_from-chooses amount privs (some (p, k)) os o key rest in
            let (fits_best, enough) = taken_up amount p o best better fits in
            (fits_best, (inr fits, all), inr (placed k found enough origin))
        | inr worse ↦
            let (fits, all, origin) =
              fund_from-chooses amount privs best os o key
                (subst (λ b. step b ≡ returns (some (o, key))) worse e) in
            (fits, (passed_over amount p o best worse fits, all), later origin)
      ]
    where
      step : Bool → Outcome (Option (OutputPlaintext × Option WalletPrivateKey))
      step b = elim b [
        | false ↦ fund_from env wallet amount privs best os
        | true ↦
            Read.◌>>=◌ (funding_key env wallet p.output privs)
              λ key. fund_from env wallet amount privs (some (p, key)) os
      ]

      placed :
          (k : Option WalletPrivateKey)
          → funding_key env wallet p.output privs ≡ returns k
          → amount ≤ p.amount
          → Origin amount privs (some (p, k)) os o key
          → Among o (p ∷ os)
            × (amount ≤ o.amount)
            × (funding_key env wallet o.output privs ≡ returns key)
      placed k found enough (inl same) =
          let here : ◌≡◌ {A = OutputPlaintext × Option WalletPrivateKey} (p, k) (o, key) =
            some-injective same in
          let is_o : p ≡ o = ap (λ (q : OutputPlaintext × Option WalletPrivateKey). q.0) here in
          let is_key : k ≡ key = ap (λ (q : OutputPlaintext × Option WalletPrivateKey). q.1) here in
          (
            inl (sym is_o),
            subst (λ (q : OutputPlaintext). amount ≤ q.amount) is_o enough,
            subst (λ (q : OutputPlaintext). funding_key env wallet q.output privs ≡ returns key)
                is_o (found ∙ ap returns is_key),
          )
      placed k found enough (inr (among, fits, funded)) = (inr among, fits, funded)

      later : Origin amount privs best os o key → Origin amount privs best (p ∷ os) o key
      later (inl same) = inl same
      later (inr (among, fits, funded)) = inr (inr among, fits, funded)

  funding_key-last :
      (o : Option Output) (privs : List WalletPrivateKey) (sk : WalletPrivateKey)
      → funding_key env wallet o privs ≡ returns (some sk)
      → (any_owns env wallet o privs ≡ returns true)
        × ((first : WalletPrivateKey) × (rest : List WalletPrivateKey) × (privs ≡ first ∷ rest)
            × (sk ≡ last_key first rest))
  unfolding funding_key
  funding_key-last o [] sk e = absurd (none_ne_some (returns-injective e))
  funding_key-last o (first ∷ rest) sk e =
      let (b, owned, f) = Read.>>=-eq-returns (any_owns env wallet o (first ∷ rest)) _ e in
      go b owned (returns-injective f)
    where
      go :
          (b : Bool)
          → any_owns env wallet o (first ∷ rest) ≡ returns b
          → (if b then some (last_key first rest) else none) ≡ some sk
          → (any_owns env wallet o (first ∷ rest) ≡ returns true)
            × ((first' : WalletPrivateKey) × (rest' : List WalletPrivateKey) × (◌≡◌
                  {A = List WalletPrivateKey}
                  (first ∷ rest)
                  (first' ∷ rest'))
                × (sk ≡ last_key first' rest'))
      go true owned p = (owned, (first, rest, refl, sym (some-injective p)))
      go false owned p = cc

  -- An output that `findFundingTxn` returns is one of the wallet's, has the amount that was asked
  -- for, and no output that has it is smaller. One of the wallet's keys owns it; the key that is
  -- returned is the wallet's last one, whichever owns it.
  pub find_funding_txn_chooses :
      (amount : ℕ) (ws : WalletServer env) (o : OutputPlaintext) (sk : WalletPrivateKey)
      → find_funding_txn env wallet amount ws ≡ returns (some (o, sk))
      → Among o ws.outputs
        × (amount ≤ o.amount)
        × All (NoBetter amount o) ws.outputs
        × (any_owns env wallet o.output ws.privs ≡ returns true)
        × ((first : WalletPrivateKey) × (rest : List WalletPrivateKey) × (ws.privs ≡ first ∷ rest)
            × (sk ≡ last_key first rest))
  unfolding find_funding_txn
  find_funding_txn_chooses amount ws o sk e =
      let (found, funded, f) =
        Read.>>=-eq-returns (fund_from env wallet amount ws.privs none ws.outputs) _ e in
      go found funded (returns-injective f)
    where
      settled :
          (q : OutputPlaintext) (k : WalletPrivateKey)
          → Origin amount ws.privs none ws.outputs q (some k)
          → Among q ws.outputs
            × (amount ≤ q.amount)
            × (funding_key env wallet q.output ws.privs ≡ returns (some k))
      settled q k (inl none_found) = absurd (none_ne_some none_found)
      settled q k (inr chosen) = chosen

      go :
          (found : Option (OutputPlaintext × Option WalletPrivateKey))
          → fund_from env wallet amount ws.privs none ws.outputs ≡ returns found
          → elim found as (λ _. Option (OutputPlaintext × WalletPrivateKey)) [
            | none ↦ none
            | some (p, key) ↦ elim key [ none ↦ none | some k ↦ some (p, k) ]
          ]
            ≡ some (o, sk)
          → Among o ws.outputs
            × (amount ≤ o.amount)
            × All (NoBetter amount o) ws.outputs
            × (any_owns env wallet o.output ws.privs ≡ returns true)
            × ((first : WalletPrivateKey) × (rest : List WalletPrivateKey) × (ws.privs
                  ≡ first ∷ rest)
                × (sk ≡ last_key first rest))
      go none funded p = cc
      go (some (q, none)) funded p = cc
      go (some (q, some k)) funded p =
          let same : ◌≡◌ {A = OutputPlaintext × WalletPrivateKey} (q, k) (o, sk) =
            some-injective p in
          let (_, all, origin) =
            fund_from-chooses amount ws.privs none ws.outputs q (some k) funded in
          let (among, enough, keyed) = settled q k origin in
          let (owned, last) = funding_key-last q.output ws.privs k keyed in
          subst
            (λ (u : OutputPlaintext × WalletPrivateKey).
              Among u.0 ws.outputs
              × (amount ≤ u.0.amount)
              × All (NoBetter amount u.0) ws.outputs
              × (any_owns env wallet u.0.output ws.privs ≡ returns true)
              × ((first : WalletPrivateKey) × (rest : List WalletPrivateKey) × (ws.privs
                    ≡ first ∷ rest)
                  × (u.1 ≡ last_key first rest)))
            same (among, enough, all, owned, last)

  scan_restarts :
      (fuel : ℕ) (key : Bytes) (o : Output) (os acc : List Output)
      → bytes_eq key (output_hash env o) ≡ false
      → scan_outputs env wallet fuel key (o ∷ os) (o ∷ os) acc ≡ diverges
  unfolding scan_outputs
  scan_restarts zero key o os acc e = refl
  scan_restarts (suc fuel) key o os acc e = rw (scan_outputs, e) (scan_restarts fuel key o os acc e)

  -- `RandomOutputs` never ends where the first entry of the map leads to a block whose first txn has
  -- a first output with another hash: `goto NextOutput` begins the loop over the outputs again.
  random_outputs_never :
      (fuel : ℕ) (c : Client env) (key value : Bytes) (entries : List (Bytes × Bytes)) (b : Block)
      (t : Txn) (ts : List Txn) (o : Output) (os : List Output)
      → env.ldb.entries c.dbm.map_db ≡ (key, value) ∷ entries
      → length key ≡ 32
      → length value ≡ 32
      → find_block env c value ≡ returns (some b)
      → b.txns ≡ t ∷ ts
      → t.body.outputs ≡ o ∷ os
      → bytes_eq key (output_hash env o) ≡ false
      → random_outputs env wallet fuel c ≡ diverges
  unfolding random_outputs gather_outputs scan_txns
  random_outputs_never fuel c key value entries b t ts o os listed k v found txns outputs other =
      let k' : (length key == 32) ≡ true = (==_iff (length key) 32).1 k in
      let v' : (length value == 32) ≡ true = (==_iff (length value) 32).1 v in
      rw
        (
          listed,
          gather_outputs,
          k',
          v',
          found,
          txns,
          scan_txns,
          outputs,
          scan_restarts fuel key o os [] other,
        )
        refl
