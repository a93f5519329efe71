-- ===== src/Frontier/Turns.antt =====
-- Of the goroutines that `Client.run` starts, one at a time changes the client, and each hash of the
-- frontier has a goroutine that will take it out.
use ozcoin.Base.{
  ℕ, suc, ◌+◌, ◌≡◌, refl, sym, ap, ◌∙◌, subst, arith, Bool, true, false, ◌||◌, List, [], ◌∷◌, ◌++◌,
  length, bytes_eq, bytes_eq_iff, if◌then◌else◌, Bool-cases, inl, inr, ◌⊎◌,
}
use ozcoin.Go.{Outcome, returns, fails, panics, diverges, returns-injective}
use ozcoin.Go.{ok, err}
use ozcoin.Go.Read
use ozcoin.Types.{Sha256Sum}
use ozcoin.Env.{Env}
use ozcoin.Txn.{has_sum}
use ozcoin.Frontier.{
  Task, resolve_block, resolve_txn, mined_block, new_txn, delete_sum, insert_sum, Loop, task_hash,
  launch, resolve_unknown, on_block_hash, on_txn_hash, Turn, Step, Reachable, started, later, start,
  work, finish, block_hash, txn_hash_in, block, txn, turn, run_start,
}

length_middle {ℓ} :
    {A : Type ℓ} (xs : List A) (a : A) (ys : List A)
    → length (xs ++ a ∷ ys) ≡ suc (length (xs ++ ys))
length_middle [] a ys = refl
length_middle (x ∷ xs) a ys = ap suc (length_middle xs a ys)

not_same : (k key j : Sha256Sum) → k ≡ j → bytes_eq key j ≡ false → bytes_eq k key ≡ false
not_same k key j e differs = elim (Bool-cases (bytes_eq k key)) [
  | inl same ↦
      absurd (
        false_ne_true
          (sym differs ∙ (bytes_eq_iff key j).1 (sym ((bytes_eq_iff k key).0 same) ∙ e)))
  | inr other ↦ other
]
  where
    false_ne_true : false ≡ true → ⊥
    false_ne_true p = cc

has_sum-delete_sum :
    (k key : Sha256Sum) (ks : List Sha256Sum)
    → has_sum k (delete_sum key ks) ≡ true
    → (bytes_eq k key ≡ false) × (has_sum k ks ≡ true)
unfolding has_sum delete_sum
has_sum-delete_sum k key [] e = cc
has_sum-delete_sum k key (j ∷ ks) e = elim (Bool-cases (bytes_eq key j)) [
  | inl same ↦
      let (other, kept) = has_sum-delete_sum k key ks (
        subst (λ b. has_sum k (if b then delete_sum key ks else j ∷ delete_sum key ks) ≡ true) same
          e) in
      (other, ground arith)
  | inr differs ↦
      let d : (bytes_eq k j || has_sum k (delete_sum key ks)) ≡ true =
        subst (λ b. has_sum k (if b then delete_sum key ks else j ∷ delete_sum key ks) ≡ true)
          differs e in
      elim (Bool-cases (bytes_eq k j)) [
        | inl here ↦
            let k_is_j : k ≡ j = (bytes_eq_iff k j).0 here in
            (not_same k key j k_is_j differs, ground arith)
        | inr elsewhere ↦
            let (other, kept) = has_sum-delete_sum k key ks (ground arith) in (other, ground arith)
      ]
]

has_sum-insert_sum :
    (k key : Sha256Sum) (ks : List Sha256Sum)
    → has_sum k (insert_sum key ks) ≡ true
    → (bytes_eq k key || has_sum k ks) ≡ true
unfolding has_sum insert_sum
has_sum-insert_sum k key ks e = ground arith

has_sum_middle :
    (k : Sha256Sum) (xs : List Sha256Sum) (a : Sha256Sum) (ys : List Sha256Sum)
    → has_sum k (xs ++ a ∷ ys) ≡ (bytes_eq k a || has_sum k (xs ++ ys))
unfolding has_sum
has_sum_middle k [] a ys = refl
has_sum_middle k (x ∷ xs) a ys = ground (arith, has_sum_middle k xs a ys)

module _ (env : Env) where
  -- Whether one of the goroutines will report the hash.
  unfoldable pub awaits : Sha256Sum → List Task → Bool
  awaits k [] = false
  awaits k (t ∷ ts) = bytes_eq k (task_hash env t) || awaits k ts

  unfoldable pub is_pending : Sha256Sum → Loop env → Bool
  unfolding awaits
  is_pending k l = awaits k l.waiting || (awaits k l.running || has_sum k l.finished)

  awaits_middle :
      (k : Sha256Sum) (xs : List Task) (a : Task) (ys : List Task)
      → awaits k (xs ++ a ∷ ys) ≡ (bytes_eq k (task_hash env a) || awaits k (xs ++ ys))
  unfolding awaits
  awaits_middle k [] a ys = refl
  awaits_middle k (x ∷ xs) a ys = ground (arith, awaits_middle k xs a ys)

  -- One signal or one goroutine past it; and who is in the frontier is pending.
  abbrev pub HasTurn : Loop env → Type 0
  HasTurn l = l.signals + length l.running + length l.finished ≡ 1

  abbrev pub IsTracked : Loop env → Type 0
  IsTracked l = (k : Sha256Sum) → has_sum k l.frontier ≡ true → is_pending k l ≡ true

  launch-IsTracked : (l : Loop env) (t : Task) → IsTracked l → IsTracked (launch env t l)
  unfolding launch awaits is_pending
  launch-IsTracked l t h k e =
      let d : (bytes_eq k (task_hash env t) || has_sum k l.frontier) ≡ true =
        has_sum-insert_sum k (task_hash env t) l.frontier e in
      let g : has_sum k l.frontier ≡ true → is_pending k l ≡ true = h k in ground arith

  pub Turn-HasTurn : {fuel : ℕ} {l l' : Loop env} → Turn env fuel l l' → HasTurn l → HasTurn l'
  Turn-HasTurn (start l n before t rest s w) h = omega arith
  Turn-HasTurn (work l before t rest c r p) h =
      let m : length l.running ≡ suc (length (before ++ rest)) =
        ap length r ∙ length_middle before t rest in
      omega arith
  Turn-HasTurn (finish l before key rest f) h =
      let m : length l.finished ≡ suc (length (before ++ rest)) =
        ap length f ∙ length_middle before key rest in
      omega arith

  pub Turn-IsTracked :
      {fuel : ℕ} {l l' : Loop env} → Turn env fuel l l' → IsTracked l → IsTracked l'
  unfolding is_pending awaits has_sum
  Turn-IsTracked (start l n before t rest s w) h k e =
      let m : awaits k l.waiting ≡ (bytes_eq k (task_hash env t) || awaits k (before ++ rest)) =
        ap (awaits k) w ∙ awaits_middle k before t rest in
      let g : (awaits k l.waiting || (awaits k l.running || has_sum k l.finished)) ≡ true = h k e in
      ground arith
  Turn-IsTracked (work l before t rest c r p) h k e =
      let m : awaits k l.running ≡ (bytes_eq k (task_hash env t) || awaits k (before ++ rest)) =
        ap (awaits k) r ∙ awaits_middle k before t rest in
      let g : (awaits k l.waiting || (awaits k l.running || has_sum k l.finished)) ≡ true = h k e in
      ground arith
  Turn-IsTracked (finish l before key rest f) h k e =
      let m : has_sum k l.finished ≡ (bytes_eq k key || has_sum k (before ++ rest)) =
        ap (has_sum k) f ∙ has_sum_middle k before key rest in
      let (other, kept) = has_sum-delete_sum k key l.frontier e in
      let g : (awaits k l.waiting || (awaits k l.running || has_sum k l.finished)) ≡ true =
        h k kept in
      ground arith

  resolve_unknown-keeps :
      (t : Task) (filtered : Outcome (Unit {0})) (l l' : Loop env)
      → resolve_unknown env t filtered l ≡ returns l'
      → (l' ≡ l) ⊎ (l' ≡ launch env t l)
  unfolding resolve_unknown
  resolve_unknown-keeps t filtered l l' e = go (has_sum (task_hash env t) l.frontier) filtered e
    where
      go :
          (b : Bool) (m : Outcome (Unit {0}))
          → (if b
              then returns l
              else Read.◌>>=◌
                  (Read.caught m)
                  λ known. elim known [ ok u ↦ returns l | err x ↦ returns (launch env t l) ])
            ≡ returns l'
          → (l' ≡ l) ⊎ (l' ≡ launch env t l)
      go true m p = inl (sym (returns-injective p))
      go false (returns u) p = inl (sym (returns-injective p))
      go false (fails x) p = inr (sym (returns-injective p))
      go false panics p = cc
      go false diverges p = cc

  Step-HasTurn : {fuel : ℕ} {l l' : Loop env} → Step env fuel l l' → HasTurn l → HasTurn l'
  unfolding on_block_hash on_txn_hash launch
  Step-HasTurn (block_hash l l' req e) h =
      elim (resolve_unknown-keeps (resolve_block req) _ l l' e) [
        | inl same ↦ subst HasTurn (sym same) h
        | inr new ↦ subst HasTurn (sym new) h
      ]
  Step-HasTurn (txn_hash_in l l' req e) h =
      elim (resolve_unknown-keeps (resolve_txn req) _ l l' e) [
        | inl same ↦ subst HasTurn (sym same) h
        | inr new ↦ subst HasTurn (sym new) h
      ]
  Step-HasTurn (block l b) h = h
  Step-HasTurn (txn l t) h = h
  Step-HasTurn (turn s) h = Turn-HasTurn s h

  Step-IsTracked : {fuel : ℕ} {l l' : Loop env} → Step env fuel l l' → IsTracked l → IsTracked l'
  unfolding on_block_hash on_txn_hash
  Step-IsTracked (block_hash l l' req e) h =
      elim (resolve_unknown-keeps (resolve_block req) _ l l' e) [
        | inl same ↦ subst IsTracked (sym same) h
        | inr new ↦ subst IsTracked (sym new) (launch-IsTracked l (resolve_block req) h)
      ]
  Step-IsTracked (txn_hash_in l l' req e) h =
      elim (resolve_unknown-keeps (resolve_txn req) _ l l' e) [
        | inl same ↦ subst IsTracked (sym same) h
        | inr new ↦ subst IsTracked (sym new) (launch-IsTracked l (resolve_txn req) h)
      ]
  Step-IsTracked (block l b) h = launch-IsTracked l (mined_block b) h
  Step-IsTracked (txn l t) h = launch-IsTracked l (new_txn t) h
  Step-IsTracked (turn s) h = Turn-IsTracked s h

  -- In whatever the loop comes to: of the goroutines that send to `startChan`, those past
  -- `<-startChan` and those that send to `doneChan`, there is one in all, so that no two change the
  -- client at a time; and each hash of the frontier is that of a goroutine that will report it.
  pub one_at_a_time : {fuel : ℕ} {l : Loop env} → Reachable env fuel l → HasTurn l × IsTracked l
  unfolding run_start has_sum
  one_at_a_time (started c) = (refl, λ k e. cc)
  one_at_a_time (later r s) = let (h, g) = one_at_a_time r in (Step-HasTurn s h, Step-IsTracked s g)
