-- ===== src/Ethcoder/Merkle/Proofs.antt =====
-- Every leaf of a tree has a proof, and the proof is accepted.
use ethkit.Prelude.{
  ℕ, ◌≡◌, ◌≢◌, refl, subst, Bool, true, false, Option, some, List, [], ◌∷◌, ◌++◌, All, Memᴰ, length,
  get_elem?, ◌==◌, arith, Bool-cases, inl, inr, if◌then◌else◌,
}
use ethkit.Ethcoder.Bytes.{Bytes, equal_bytes_refl}
use ethkit.Ethcoder.Merkle.{
  Options, Proof, MerkleTree, ok, value, first_of_layer, root_of, create_hashes, climb_one, climb,
  collect_proof, sort_by_hash, hash_all, index_of, found, proof_of, get_proof, layers_of,
  new_merkle_tree, verify_hash, verify, get_root,
}
use ethkit.Ethcoder.Merkle.Layers.{climb-collect_proof}
use ethkit.Ethcoder.Merkle.Leaves.{
  Hashes, hash_all-some, All-sort_by_hash, Mem-sort_by_hash, index_of-Mem, index_of-found,
}

module _ {A : Type 0} (hash_fn : A → Option Bytes) where
  -- the leaves in the order in which the tree keeps them
  module _ (keccak : Bytes → Bytes) (options : Options) (leaves : List A) where
    abbrev tree : MerkleTree A
    tree = new_merkle_tree hash_fn keccak options leaves

    abbrev arranged : List A
    arranged = if options.sort_leaves then sort_by_hash hash_fn leaves else leaves

    arranged-some :
        All (Hashes hash_fn) leaves
        → (nodes : List Bytes) × (hash_all hash_fn arranged ≡ some nodes)
    arranged-some ps = elim (Bool-cases options.sort_leaves) [
      | inl t ↦
          rw t (
            hash_all-some hash_fn (sort_by_hash hash_fn leaves)
              (All-sort_by_hash hash_fn leaves ps))
      | inr t ↦ rw t (hash_all-some hash_fn leaves ps)
    ]

    arranged-Mem : (leaf : A) → Memᴰ leaf leaves → Memᴰ leaf arranged
    arranged-Mem leaf m = elim (Bool-cases options.sort_leaves) [
      | inl t ↦ rw t (Mem-sort_by_hash hash_fn leaf leaves m)
      | inr t ↦ rw t m
    ]

  module _ (keccak : Bytes → Bytes) (keccak_length : (bs : Bytes) → length (keccak bs) ≡ 32) where
    climb_one-nonempty :
        (sort_pairs : Bool) (hash : Bytes) (p : Proof)
        → length (climb_one keccak sort_pairs hash p) ≢ 0
    unfolding climb_one
    climb_one-nonempty sort_pairs hash p =
        let right : length (keccak (hash ++ p.node)) ≡ 32 = keccak_length (hash ++ p.node) in
        let left : length (keccak (p.node ++ hash)) ≡ 32 = keccak_length (p.node ++ hash) in
        ground arith

    climb-nonempty :
        (sort_pairs : Bool) (hash : Bytes) (proof : List Proof)
        → length hash ≢ 0
        → length (climb keccak sort_pairs hash proof) ≢ 0
    unfolding climb
    climb-nonempty sort_pairs hash [] ne = ne
    climb-nonempty sort_pairs hash (p ∷ ps) ne =
        climb-nonempty sort_pairs (climb_one keccak sort_pairs hash p) ps
          (climb_one-nonempty sort_pairs hash p)

    verify_hash-accepts :
        (sort_pairs : Bool) (h : Bytes) (proof : List Proof) (o : Option Bytes)
        → o ≡ some h
        → length h ≢ 0
        → verify_hash hash_fn keccak o (some proof) (climb keccak sort_pairs h proof) sort_pairs
          ≡ ok true
    unfolding verify_hash
    verify_hash-accepts sort_pairs h proof o e ne =
        let root_nonempty = climb-nonempty sort_pairs h proof ne in
        let here : (length h == 0) ≡ false = ground arith in
        let there : (length (climb keccak sort_pairs h proof) == 0) ≡ false = ground arith in
        rw (e, here, there, equal_bytes_refl (climb keccak sort_pairs h proof)) refl

    accepted :
        (options : Options) (leaves : List A) (leaf : A) (h : Bytes) (nodes : List Bytes) (j : ℕ)
        → hash_all hash_fn (arranged keccak options leaves) ≡ some nodes
        → index_of hash_fn h (arranged keccak options leaves) 0 ≡ some j
        → get_elem? nodes j ≡ some h
        → hash_fn leaf ≡ some h
        → length h ≢ 0
        → (proof : List Proof) × (root : Bytes) × (get_proof hash_fn leaf
              (new_merkle_tree hash_fn keccak options leaves)
            ≡ ok proof)
          × (get_root (new_merkle_tree hash_fn keccak options leaves) ≡ value root)
          × (verify hash_fn keccak
                (new_merkle_tree hash_fn keccak options leaves)
                (some proof)
                leaf
                root
              ≡ ok true)
    unfolding get_proof proof_of found new_merkle_tree layers_of get_root root_of first_of_layer
        verify
    accepted options leaves leaf h nodes j hashed at_j node e ne =
        let proof =
          collect_proof j (create_hashes keccak options.sort_pairs (length nodes) nodes) in
        let top =
          climb-collect_proof keccak options.sort_pairs (length nodes) nodes j h (omega arith)
            node in
        (
          proof,
          climb keccak options.sort_pairs h proof,
          rw (e, at_j, hashed) refl,
          rw (hashed, top) refl,
          verify_hash-accepts options.sort_pairs h proof (hash_fn leaf) e ne,
        )

    -- Let every leaf of a list have a hash, and let the hash function give digests of 32 bytes. In
    -- the tree of the list, each leaf whose hash is not empty has a proof, the tree has a root, and
    -- the proof of the leaf is accepted for that root.
    pub get_proof-verify :
        (options : Options) (leaves : List A) (leaf : A) (h : Bytes)
        → All (Hashes hash_fn) leaves
        → Memᴰ leaf leaves
        → hash_fn leaf ≡ some h
        → length h ≢ 0
        → (proof : List Proof) × (root : Bytes) × (get_proof hash_fn leaf
              (new_merkle_tree hash_fn keccak options leaves)
            ≡ ok proof)
          × (get_root (new_merkle_tree hash_fn keccak options leaves) ≡ value root)
          × (verify hash_fn keccak
                (new_merkle_tree hash_fn keccak options leaves)
                (some proof)
                leaf
                root
              ≡ ok true)
    get_proof-verify options leaves leaf h ps m e ne =
        let (nodes, hashed) = arranged-some keccak options leaves ps in
        let (j, at_j) =
          index_of-Mem hash_fn h leaf (arranged keccak options leaves) 0 e
            (arranged-Mem keccak options leaves leaf m) in
        let (k, same, node) =
          index_of-found hash_fn h (arranged keccak options leaves) nodes 0 j hashed at_j in
        let same_place : k ≡ j = omega (arith, same) in
        accepted options leaves leaf h nodes j hashed at_j
          (subst (λ x. get_elem? nodes x ≡ some h) same_place node) e ne
