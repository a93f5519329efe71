-- ===== src/Consensus/Paths.antt =====
-- `FindForkPaths`: the hashes from a side block, and from the last block, down to where they meet.
use ozcoin.Base.{ℕ, zero, suc, true, false, Option, none, some, List, [], ◌∷◌, ◌++◌, bytes_eq}
use ozcoin.Go.{Outcome, returns, panics, diverges}
use ozcoin.Go.Read
use ozcoin.Types.{Sha256Sum}
use ozcoin.Env.{Env}
use ozcoin.Hash.{header_hash}
use ozcoin.Client.{Client}
use ozcoin.Store.{get_header, get_side_header}

-- The last hash of a list, or that before it.
abbrev last_sum : Sha256Sum → List Sha256Sum → Sha256Sum
last_sum key [] = key
last_sum key (k ∷ keys) = last_sum k keys

module _ (env : Env) where
  -- The first loop of `FindForkPaths`, on fuel. The code never moves `prevHash` on.
  side_path_from : ℕ → Client env → Sha256Sum → List Sha256Sum → Outcome (Option (List Sha256Sum))
  unfolding get_header get_side_header
  side_path_from zero c prev_hash side_hashes = diverges
  side_path_from (suc fuel) c prev_hash side_hashes =
      Read.◌>>=◌ (get_header env c prev_hash) λ header. elim header [
        | some h ↦ returns (some (side_hashes ++ prev_hash ∷ []))
        | none ↦ Read.◌>>=◌ (get_side_header env c prev_hash) λ side. elim side [
          | none ↦ returns none
          | some h ↦ side_path_from fuel c prev_hash (side_hashes ++ prev_hash ∷ [])
        ]
      ]

  -- The second loop, on fuel. Here too `prevHash` stays what it is.
  main_path_from :
      ℕ → Client env → Sha256Sum → Sha256Sum → List Sha256Sum → Outcome (Option (List Sha256Sum))
  unfolding get_header
  main_path_from zero c fork_hash prev_hash main_hashes = diverges
  main_path_from (suc fuel) c fork_hash prev_hash main_hashes =
      Read.◌>>=◌ (get_header env c prev_hash) λ header. elim header [
        | none ↦ returns none
        | some h ↦ elim (bytes_eq prev_hash fork_hash) [
          | true ↦ returns (some main_hashes)
          | false ↦ main_path_from fuel c fork_hash prev_hash (main_hashes ++ prev_hash ∷ [])
        ]
      ]

  -- `FindForkPaths`: the main path and the side path, or nil for both.
  unfoldable pub find_fork_paths :
      ℕ → Client env → Sha256Sum → Outcome (Option (List Sha256Sum × List Sha256Sum))
  unfolding get_side_header side_path_from main_path_from
  find_fork_paths fuel c sidehash = Read.◌>>=◌ (get_side_header env c sidehash) λ header.
      elim header [
        | none ↦ panics
        | some h ↦ Read.◌>>=◌ (side_path_from fuel c h.prev_hash (h.prev_hash ∷ [])) λ side.
            elim side [
              | none ↦ returns none
              | some side_hashes ↦
                  let fork_hash = last_sum h.prev_hash side_hashes in
                  Read.◌>>=◌ (main_path_from fuel c fork_hash (header_hash env c.last_header) [])
                    λ main. elim main [
                      | none ↦ returns none
                      | some main_hashes ↦ returns (some (main_hashes, side_hashes))
                    ]
            ]
      ]
