-- ===== src/Wallet/Ledger.antt =====
-- What the entries of the wallet's txn database are worth, in whatever order they come.
use ozcoin.Base.{
  ℕ, ◌+◌, ◌%◌, ◌<◌, ◌≡◌, refl, ap, ◌∙◌, subst, arith, List, [], ◌∷◌, All, Bool-cases, inl, inr,
  false, bytes_eq,
}
use native.Mathlib.Nat.{mod-add-mod, mod-lt}
use mathlib.Core.List.{Permᴰ}
use mathlib.Core.List.Permᴰ
use ozcoin.Go.{Result, ok, err, returns, of_result}
use ozcoin.Go.Read
use ozcoin.Types.{Bytes, u64_mod}
use ozcoin.Env.Laws.{without}
use ozcoin.Payment.{OutputPlaintext}
use ozcoin.Wallet.{read_all}
use ozcoin.Wallet.Handlers.{total_of}

-- No entry has the key.
abbrev pub IsFresh : Bytes → List (Bytes × Bytes) → Type 0
IsFresh k entries = All (λ (e : Bytes × Bytes). bytes_eq e.0 k ≡ false) entries

pub without_fresh :
    (k : Bytes) (entries : List (Bytes × Bytes)) → IsFresh k entries → without k entries ≡ entries
without_fresh k [] fresh = refl
without_fresh k ((j, v) ∷ entries) (other, fresh) =
    rw other (ap (λ es. (j, v) ∷ es) (without_fresh k entries fresh))

pub IsFresh-Perm :
    {xs ys : List (Bytes × Bytes)} (k : Bytes) → Permᴰ xs ys → IsFresh k xs → IsFresh k ys
IsFresh-Perm k Permᴰ.nil fresh = fresh
IsFresh-Perm k (Permᴰ.cons e d) (other, fresh) =
    (subst (λ (p : Bytes × Bytes). bytes_eq p.0 k ≡ false) e other, IsFresh-Perm k d fresh)
IsFresh-Perm k (Permᴰ.swap e f) (other, (another, fresh)) = (
  subst (λ (p : Bytes × Bytes). bytes_eq p.0 k ≡ false) f another,
  (subst (λ (p : Bytes × Bytes). bytes_eq p.0 k ≡ false) e other, fresh),
)
IsFresh-Perm k (Permᴰ.trans d f) fresh = IsFresh-Perm k f (IsFresh-Perm k d fresh)

without_one :
    (k : Bytes) (a : Bytes × Bytes) (xs ys : List (Bytes × Bytes))
    → Permᴰ (without k xs) (without k ys)
    → Permᴰ (without k (a ∷ xs)) (without k (a ∷ ys))
without_one k a xs ys d = elim (Bool-cases (bytes_eq a.0 k)) [
  | inl same ↦ rw same d
  | inr other ↦ rw other (Permᴰ.cons refl d)
]

without_two :
    (k : Bytes) (a b : Bytes × Bytes) (l : List (Bytes × Bytes))
    → Permᴰ (without k (a ∷ b ∷ l)) (without k (b ∷ a ∷ l))
without_two k a b l = elim (Bool-cases (bytes_eq a.0 k)) [
  | inl gone ↦ rw gone (Permᴰ.refl (without k (b ∷ l)))
  | inr kept ↦ elim (Bool-cases (bytes_eq b.0 k)) [
    | inl also ↦ rw (kept, also) (Permᴰ.refl (a ∷ without k l))
    | inr both ↦ rw (kept, both) (Permᴰ.swap refl refl)
  ]
]

pub without-Perm :
    {xs ys : List (Bytes × Bytes)} (k : Bytes) → Permᴰ xs ys → Permᴰ (without k xs) (without k ys)
without-Perm k Permᴰ.nil = Permᴰ.nil
without-Perm k (Permᴰ.cons {a = a} {l₁ = xs} {l₂ = ys} e d) =
    subst (λ (p : Bytes × Bytes). Permᴰ (without k (a ∷ xs)) (without k (p ∷ ys))) e
      (without_one k a xs ys (without-Perm k d))
without-Perm k (Permᴰ.swap {a = a} {b = b} {b' = c} {l = l} e f) =
    subst (λ (p : Bytes × Bytes). Permᴰ (without k (a ∷ b ∷ l)) (without k (p ∷ c ∷ l))) f
      (subst (λ (p : Bytes × Bytes). Permᴰ (without k (a ∷ b ∷ l)) (without k (b ∷ p ∷ l))) e
        (without_two k a b l))
without-Perm k (Permᴰ.trans d f) = Permᴰ.trans (without-Perm k d) (without-Perm k f)

abbrev pub amount_of : Result OutputPlaintext → ℕ
amount_of (ok op) = op.amount
amount_of (err x) = 0

module _ (read : Bytes → Result OutputPlaintext) where
  abbrev amount_in : Bytes → ℕ
  amount_in b = amount_of (read b)

  abbrev pub worth : List (Bytes × Bytes) → ℕ
  worth [] = 0
  worth ((_, b) ∷ entries) = amount_in b + worth entries

  abbrev pub IsReadable : List (Bytes × Bytes) → Type 0
  IsReadable entries =
      All (λ (e : Bytes × Bytes). (op : OutputPlaintext) × (read e.1 ≡ ok op)) entries

  pub worth-Perm : {xs ys : List (Bytes × Bytes)} → Permᴰ xs ys → worth xs ≡ worth ys
  worth-Perm Permᴰ.nil = refl
  worth-Perm (Permᴰ.cons e d) =
      omega (arith, ap (λ (p : Bytes × Bytes). amount_in p.1) e, worth-Perm d)
  worth-Perm (Permᴰ.swap e f) = omega (
    arith,
    ap (λ (p : Bytes × Bytes). amount_in p.1) e,
    ap (λ (p : Bytes × Bytes). amount_in p.1) f,
  )
  worth-Perm (Permᴰ.trans d f) = worth-Perm d ∙ worth-Perm f

  pub IsReadable-Perm : {xs ys : List (Bytes × Bytes)} → Permᴰ xs ys → IsReadable xs → IsReadable ys
  IsReadable-Perm Permᴰ.nil r = r
  IsReadable-Perm (Permᴰ.cons e d) (r, rs) = (
    subst (λ (p : Bytes × Bytes). (op : OutputPlaintext) × (read p.1 ≡ ok op)) e r,
    IsReadable-Perm d rs,
  )
  IsReadable-Perm (Permᴰ.swap e f) (r, (s, rs)) = (
    subst (λ (p : Bytes × Bytes). (op : OutputPlaintext) × (read p.1 ≡ ok op)) f s,
    (subst (λ (p : Bytes × Bytes). (op : OutputPlaintext) × (read p.1 ≡ ok op)) e r, rs),
  )
  IsReadable-Perm (Permᴰ.trans d f) r = IsReadable-Perm f (IsReadable-Perm d r)

  pub read_all-IsReadable :
      (entries : List (Bytes × Bytes)) (os : List OutputPlaintext)
      → read_all read entries ≡ returns os
      → IsReadable entries
  unfolding read_all
  read_all-IsReadable [] os e = tt
  read_all-IsReadable ((k, b) ∷ entries) os e =
      let (op, e1, r1) = Read.>>=-eq-returns (of_result (read b)) _ e in
      let (rest, e2, r2) = Read.>>=-eq-returns (read_all read entries) _ r1 in
      ((op, of_result-ok (read b) op e1), read_all-IsReadable entries rest e2)
    where
      of_result-ok :
          (r : Result OutputPlaintext) (op : OutputPlaintext) → of_result r ≡ returns op → r ≡ ok op
      of_result-ok (ok p) op e = cc
      of_result-ok (err x) op e = cc

  -- The sum that the balance is.
  pub total_of-worth :
      (entries : List (Bytes × Bytes)) (start : ℕ)
      → start < u64_mod
      → IsReadable entries
      → (os : List OutputPlaintext) × (read_all read entries ≡ returns os)
        × (total_of start os ≡ (start + worth entries) % u64_mod)
  unfolding read_all total_of
  total_of-worth [] start low r = ([], refl, ground arith)
  total_of-worth ((k, b) ∷ entries) start low ((op, e), rs) =
      let low' : (start + op.amount) % u64_mod < u64_mod =
        mod-lt (start + op.amount) (omega arith) in
      let (os, listed, sum) = total_of-worth entries ((start + op.amount) % u64_mod) low' rs in
      let known : amount_in b ≡ op.amount = ap amount_of e in
      let same : start + op.amount + worth entries ≡ start + (amount_in b + worth entries) =
        omega (arith, known) in
      (
        op ∷ os,
        rw (e, listed) refl,
        sum ∙ mod-add-mod (start + op.amount) u64_mod (worth entries) ∙ ap (λ n. n % u64_mod) same,
      )
