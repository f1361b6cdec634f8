-- ===== src/Ethcoder/Tests.antt =====
-- A small tree of bytes, and the theorems at it.
mod AbiSigTests
mod PackTests
use mathlib.Core.List.{Memᴰ}
use ethkit.Prelude.{ℕ, ◌+◌, ◌*◌, ◌%◌, ◌≡◌, refl, true, Option, some, List, [], ◌∷◌, length, arith}
use ethkit.Ethcoder.Bytes.{Bytes}
use ethkit.Ethcoder.Merkle.{
  Proof, default_merkle_tree_options, new_merkle_tree, get_proof, get_root, verify, ok, value,
  panics,
}
use ethkit.Ethcoder.Merkle.Proofs.{get_proof-verify}

-- a checksum in 32 bytes
checksum : Bytes → ℕ
checksum [] = 7
checksum (b ∷ bs) = (31 * checksum bs + b) % 251

digest : Bytes → Bytes
unfolding checksum
digest bs =
    checksum bs
    ∷ 0
    ∷ 0
    ∷ 0
    ∷ 0
    ∷ 0
    ∷ 0
    ∷ 0
    ∷ 0
    ∷ 0
    ∷ 0
    ∷ 0
    ∷ 0
    ∷ 0
    ∷ 0
    ∷ 0
    ∷ 0
    ∷ 0
    ∷ 0
    ∷ 0
    ∷ 0
    ∷ 0
    ∷ 0
    ∷ 0
    ∷ 0
    ∷ 0
    ∷ 0
    ∷ 0
    ∷ 0
    ∷ 0
    ∷ 0
    ∷ 0
    ∷ []

length-digest : (bs : Bytes) → length (digest bs) ≡ 32
unfolding digest
length-digest bs = refl

abbrev word : ℕ → Option Bytes
word n = some (n ∷ [])

get_proof-verify_example :
    (proof : List Proof) × (root : Bytes) × (get_proof word 5
        (new_merkle_tree word digest default_merkle_tree_options (9 ∷ 5 ∷ 7 ∷ []))
      ≡ ok proof)
    × (get_root (new_merkle_tree word digest default_merkle_tree_options (9 ∷ 5 ∷ 7 ∷ []))
        ≡ value root)
    × (verify word digest
          (new_merkle_tree word digest default_merkle_tree_options (9 ∷ 5 ∷ 7 ∷ []))
          (some proof)
          5
          root
        ≡ ok true)
get_proof-verify_example =
    get_proof-verify word digest length-digest default_merkle_tree_options (9 ∷ 5 ∷ 7 ∷ []) 5
      (5 ∷ []) ((9 ∷ [], refl), ((5 ∷ [], refl), ((7 ∷ [], refl), tt))) (Memᴰ.tail (Memᴰ.head refl))
      refl (λ e. absurd (omega (arith, e)))

-- The tree of no leaves has one empty layer, and reading its root panics.
empty_tree : get_root (new_merkle_tree word digest default_merkle_tree_options []) ≡ panics
unfolding get_root new_merkle_tree default_merkle_tree_options
empty_tree = refl
