-- ===== src/Frontier/Drain.antt =====
-- What `Client.run` has taken in is carried out.
use Prim.Axiom.{lem}
use mathlib.Core.Logic.{∥∥₁_map, ∥∥₁_elim}
use ozcoin.Base.{
  ℕ, suc, ◌+◌, ◌≡◌, ◌≢◌, refl, sym, ap, ◌∙◌, arith, true, false, ◌||◌, List, [], ◌∷◌, length,
  bytes_eq_refl, inl, inr, ◌⊎◌,
}
use ozcoin.Go.{returns}
use ozcoin.Types.{Sha256Sum}
use ozcoin.Env.{Env}
use ozcoin.Client.{Client}
use ozcoin.Txn.{has_sum}
use ozcoin.Consensus.Resolve.{add_or_orphan, add_to_txn_pool, adopt_mined_block, adopt_txn}
use ozcoin.Frontier.{
  resolve_block, resolve_txn, mined_block, new_txn, Task, delete_sum, Loop, task_hash, perform,
  Turn, Reachable, start, work, finish,
}
use ozcoin.Frontier.Turns.{HasTurn, IsTracked, awaits, is_pending, Turn-IsTracked, one_at_a_time}

module _ (env : Env) where
  -- Turns of the goroutines, with nothing arriving on the channels, each with fuel of its own.
  pub data Turns : Loop env → Loop env → Type 0 where
    here : (l : Loop env) → Turns l l
    next : {l m n : Loop env} (fuel : ℕ) → Turn env fuel l m → Turns m n → Turns l n

  -- No goroutine is left, the frontier is empty, and the next one may start.
  abbrev pub IsIdle : Loop env → Type 0
  IsIdle l =
      (l.waiting ≡ []) × (l.running ≡ []) × (l.finished ≡ []) × (l.frontier ≡ []) × (l.signals ≡ 1)

  -- What a goroutine calls does not return, `AddOrOrphan` whatever the fuel: it panics, or runs for
  -- ever.
  abbrev pub Hangs : Task → Client env → Type 0
  Hangs (resolve_block req) c =
      (n : ℕ) (c' : Client env) → add_or_orphan env n req c ≢ (returns tt, c')
  Hangs (resolve_txn req) c = (c' : Client env) → add_to_txn_pool env req c ≢ (returns tt, c')
  Hangs (mined_block b) c = (c' : Client env) → adopt_mined_block env b c ≢ (returns tt, c')
  Hangs (new_txn t) c = (c' : Client env) → adopt_txn env t c ≢ (returns tt, c')

  -- A goroutine does not come to its end.
  abbrev pub IsStuck : Loop env → Type 0
  IsStuck l = (t : Task) × (l.running ≡ t ∷ []) × Hangs t l.client

  abbrev Ends : Loop env → Type 0
  Ends l = ∥ ((m : Loop env) × Turns l m × (IsIdle m ⊎ IsStuck m)) ∥₁

  Turn-Ends : {l m : Loop env} (fuel : ℕ) → Turn env fuel l m → Ends m → Ends l
  Turn-Ends fuel s later = ∥∥₁_map later λ e. let (n, ts, ended) = e in (n, next fuel s ts, ended)

  -- With some fuel the goroutine's call returns.
  abbrev Returns : Task → Client env → Type 0
  Returns t c = (n : ℕ) × (c' : Client env) × (perform env n t c ≡ (returns tt, c'))

  stays_inside : (t : Task) (c : Client env) → ¬ ∥ Returns t c ∥₁ → Hangs t c
  unfolding perform
  stays_inside (resolve_block req) c never = λ n c' e. never ∣ (n, c', e) ∣₁
  stays_inside (resolve_txn req) c never = λ c' e. never ∣ (0, c', e) ∣₁
  stays_inside (mined_block b) c never = λ c' e. never ∣ (0, c', e) ∣₁
  stays_inside (new_txn t) c never = λ c' e. never ∣ (0, c', e) ∣₁

  no_frontier :
      (l : Loop env)
      → IsTracked env l
      → ((k : Sha256Sum) → is_pending env k l ≡ false)
      → l.frontier ≡ []
  unfolding has_sum
  no_frontier l h none_left = go l.frontier h
    where
      go :
          (ks : List Sha256Sum)
          → ((k : Sha256Sum) → has_sum k ks ≡ true → is_pending env k l ≡ true)
          → ks ≡ []
      go [] g = refl
      go (k ∷ ks) g =
          let p : is_pending env k l ≡ true = g k (ap (λ b. b || has_sum k ks) (bytes_eq_refl k)) in
          absurd (clash (sym (none_left k) ∙ p))
        where
          clash : false ≡ true → ⊥
          clash e = cc

  none_pending :
      (l : Loop env)
      → l.waiting ≡ []
      → l.running ≡ []
      → l.finished ≡ []
      → (k : Sha256Sum) → is_pending env k l ≡ false
  unfolding is_pending awaits has_sum
  none_pending l w r f k = rw (w, r, f) refl

  -- A loop in which the goroutines `ts` wait, and the next one may start.
  abbrev Serves : List Task → Type 0
  Serves ts =
      (l : Loop env)
      → l.waiting ≡ ts
      → l.running ≡ []
      → l.finished ≡ []
      → l.signals ≡ 1
      → IsTracked env l
      → Ends l

  reported :
      {ts : List Task} (key : Sha256Sum) (l : Loop env)
      → Serves ts
      → l.waiting ≡ ts
      → l.running ≡ []
      → l.finished ≡ key ∷ []
      → l.signals ≡ 0
      → IsTracked env l
      → Ends l
  reported key l serve w r f s h =
      let report : Turn env 0 l (record l {
        frontier = delete_sum key l.frontier;
        finished = [];
        signals = suc l.signals;
      }) =
        finish l [] key [] f in
      Turn-Ends 0 report (serve _ w r refl (ap suc s) (Turn-IsTracked env report h))

  -- A goroutine past `<-startChan`: its call returns with some fuel, or, by excluded middle, never.
  worked :
      {ts : List Task} (t : Task) (l : Loop env)
      → Serves ts
      → l.waiting ≡ ts
      → l.running ≡ t ∷ []
      → l.finished ≡ []
      → l.signals ≡ 0
      → IsTracked env l
      → Ends l
  worked {ts} t l serve w r f s h = elim (lem ∥ Returns t l.client ∥₁ squash₁) [
    | no never ↦ ∣ (l, here l, inr (t, r, stays_inside t l.client never)) ∣₁
    | yes returned ↦ ∥∥₁_elim returned squash₁ λ run.
        let (n, c, e) = run in
        let done : Turn env n l
            (record l { client = c; running = []; finished = task_hash env t ∷ l.finished }) =
          work l [] t [] c r e in
        Turn-Ends n done (
          reported (task_hash env t) _ serve w refl (ap (λ ks. task_hash env t ∷ ks) f) s
            (Turn-IsTracked env done h))
  ]

  -- The goroutines that wait start one after the other.
  ready : (ts : List Task) → Serves ts
  ready [] l w r f s h = ∣ (l, here l, inl (w, r, f, no_frontier l h (none_pending l w r f), s)) ∣₁
  ready (t ∷ ts) l w r f s h =
      let begin : Turn env 0 l (record l { signals = 0; waiting = ts; running = t ∷ l.running }) =
        start l 0 [] t ts s w in
      Turn-Ends 0 begin
        (worked t _ (ready ts) refl (ap (λ q. t ∷ q) r) f refl (Turn-IsTracked env begin h))

  -- From whatever the loop has come to, with nothing more arriving on the channels, there are turns
  -- of the goroutines after which all of them have ended, the frontier is empty and the next one may
  -- start; or one of them is then inside a call that never returns, with any fuel, because it panics
  -- or runs for ever. The signals are never lost, and no hash stays in the frontier.
  pub run_drains :
      {fuel : ℕ} {l : Loop env}
      → Reachable env fuel l
      → ∥ ((m : Loop env) × Turns l m × (IsIdle m ⊎ IsStuck m)) ∥₁
  run_drains {fuel} {l} r =
      let (turns, tracked) = one_at_a_time env r in go l.running l.finished refl refl turns tracked
    where
      count :
          (ts : List Task) (ks : List Sha256Sum)
          → l.running ≡ ts
          → l.finished ≡ ks
          → HasTurn env l
          → l.signals + length ts + length ks ≡ 1
      count ts ks p q h =
          ap (λ n. l.signals + length n + length ks) (sym p)
          ∙ ap (λ n. l.signals + length l.running + length n) (sym q)
          ∙ h

      go :
          (ts : List Task) (ks : List Sha256Sum)
          → l.running ≡ ts
          → l.finished ≡ ks
          → HasTurn env l
          → IsTracked env l
          → Ends l
      go [] [] p q h g = ready l.waiting l refl p q (omega (arith, count [] [] p q h)) g
      go (t ∷ []) [] p q h g =
          worked t l (ready l.waiting) refl p q (omega (arith, count (t ∷ []) [] p q h)) g
      go [] (k ∷ []) p q h g =
          reported k l (ready l.waiting) refl p q (omega (arith, count [] (k ∷ []) p q h)) g
      go (t ∷ u ∷ ts) ks p q h g = absurd (omega (arith, count (t ∷ u ∷ ts) ks p q h))
      go (t ∷ []) (k ∷ ks) p q h g = absurd (omega (arith, count (t ∷ []) (k ∷ ks) p q h))
      go [] (k ∷ j ∷ ks) p q h g = absurd (omega (arith, count [] (k ∷ j ∷ ks) p q h))
