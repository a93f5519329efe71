-- ===== src/Consensus/Swap/Refused.antt =====
-- What keeps `SwapMainFork` from starting.
use ozcoin.Base.{
  ◌≡◌, refl, ◌∙◌, ap, sym, ◌⊎◌, inl, inr, Bool, true, false, String, List, [], ◌∷◌, bytes_eq,
  bytes_eq_iff, Bool-cases, ◌||◌, arith,
}
use ozcoin.Go.{returns, fails, Fails}
use ozcoin.Types.{Sha256Sum, BlockHeader}
use ozcoin.Env.{Env}
use ozcoin.Env.Laws.{DbLaws, KeepsTarget}
use ozcoin.Client.{Client}
use ozcoin.Txn.{has_sum}
use ozcoin.Store.{get_header}
use ozcoin.Store.Reads.{get_header-cases}
use ozcoin.Consensus.Swap.{path_headers, swap_main_fork}

or_right : (a b : Bool) → (a || b) ≡ true → a ≡ false → b ≡ true
or_right a b e f = ground arith

module _ (env : Env) (laws : DbLaws env.ldb) (keeps : KeepsTarget env.header_json) where
  -- The headers of a path are all there, or the first that is missing is an error.
  path_headers-cases :
      (c : Client env) (path : List Sha256Sum)
      → Fails (path_headers env c path)
        ⊎ ((l : List (Sha256Sum × BlockHeader)) × (path_headers env c path ≡ returns l))
  unfolding path_headers
  path_headers-cases c [] = inr ([], refl)
  path_headers-cases c (k ∷ path) = elim (get_header-cases env laws keeps c k) [
    | inl (x, e) ↦ inl (x, rw e refl)
    | inr (h, e) ↦ elim (path_headers-cases c path) [
      | inl (x, d) ↦ inl (x, rw (e, d) refl)
      | inr (l, d) ↦ inr ((k, h) ∷ l, rw (e, d) refl)
    ]
  ]

  path_headers-missing :
      (c : Client env) (key : Sha256Sum) (path : List Sha256Sum)
      → has_sum key path ≡ true
      → Fails (get_header env c key)
      → Fails (path_headers env c path)
  unfolding path_headers has_sum
  path_headers-missing c key [] among missing = cc
  path_headers-missing c key (k ∷ path) among (x, e) = elim (Bool-cases (bytes_eq key k)) [
    | inl same ↦ (x, rw (ap (get_header env c) (sym ((bytes_eq_iff key k).0 same)) ∙ e) refl)
    | inr other ↦
        let (y, d) =
          path_headers-missing c key path (or_right (bytes_eq key k) (has_sum key path) among other)
            (x, e) in
        elim (get_header-cases env laws keeps c k) [
          | inl (z, f) ↦ (z, rw f refl)
          | inr (h, f) ↦ (y, rw (f, d) refl)
        ]
  ]

  -- With databases and JSON that behave as documented: `SwapMainFork` looks the headers of the side
  -- path up in the main database, and where one of them cannot be read there, as for a block that
  -- joined a side chain, it returns an error and changes nothing.
  pub swap_main_fork_refused :
      (main_path side_path : List Sha256Sum) (c : Client env) (key : Sha256Sum)
      → has_sum key side_path ≡ true
      → Fails (get_header env c key)
      → (x : String) × (swap_main_fork env main_path side_path c ≡ (fails x, c))
  unfolding swap_main_fork
  swap_main_fork_refused main_path side_path c key among missing =
      let (y, d) = path_headers-missing c key side_path among missing in
      elim (path_headers-cases c main_path) [
        | inl (x, e) ↦ (x, rw e refl)
        | inr (l, e) ↦ (y, rw (e, d) refl)
      ]
