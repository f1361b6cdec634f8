-- ===== src/Ethcoder/Merkle/Layers.antt =====
-- The layers of the tree, and the path from a node to the root.
use ethkit.Prelude.{
  ℕ, zero, suc, ◌+◌, ◌/◌, ◌%◌, ◌≤◌, ◌≡◌, refl, sym, ap, ◌∙◌, Bool, true, false, not, Option, none,
  some, List, [], ◌∷◌, ◌++◌, length, get_elem?, get_last?, ltb, ◌==◌, arith, Bool-cases, inl, inr,
}
use ethkit.Ethcoder.Bytes.{Bytes, compare_bytes-flip, compare_bytes-eq}
use ethkit.Ethcoder.Merkle.{
  Proof, pair_hash, next_layer, create_hashes, climb_one, climb, pair_index, pair_proof,
  sibling_proof, collect_proof,
}

-- Two nodes in front move every pair by two.
sibling_shift :
    (a b : Bytes) (rest : List Bytes) (i : ℕ)
    → sibling_proof (suc (suc i)) (a ∷ b ∷ rest) ≡ sibling_proof i rest
unfolding sibling_proof pair_proof
sibling_shift a b rest i =
    let parity : suc (suc i) % 2 ≡ i % 2 = omega arith in
    let index : pair_index (suc (suc i)) ≡ suc (suc (pair_index i)) = ground arith in
    rw index (shift_proof parity (get_elem? rest (pair_index i)))
  where
    shift_proof :
        suc (suc i) % 2 ≡ i % 2 → (o : Option Bytes) → pair_proof (suc (suc i)) o ≡ pair_proof i o
    shift_proof p none = refl
    shift_proof p (some d) = λ j. record { is_left = not (p j == 0); node = d } ∷ []

module _ (keccak : Bytes → Bytes) (sort_pairs : Bool) where
  length-next_layer :
      (nodes : List Bytes) → length (next_layer keccak sort_pairs nodes) ≡ (length nodes + 1) / 2
  unfolding next_layer
  length-next_layer [] = refl
  length-next_layer (a ∷ []) = refl
  length-next_layer (a ∷ b ∷ rest) = omega (arith, length-next_layer rest)

  -- Hashing with the right neighbour, or with the left one, is the pair's hash.
  climb_right :
      (a b : Bytes)
      → climb_one keccak sort_pairs a (record { is_left = false; node = b })
        ≡ pair_hash keccak sort_pairs a b
  unfolding climb_one pair_hash
  climb_right a b = ground (arith, compare_bytes-eq a b)

  climb_left :
      (a b : Bytes)
      → climb_one keccak sort_pairs b (record { is_left = true; node = a })
        ≡ pair_hash keccak sort_pairs a b
  unfolding climb_one pair_hash
  climb_left a b = ground (arith, compare_bytes-flip a b)

  -- One round up: the node and its sibling make the node above.
  next_layer-sibling :
      (nodes : List Bytes) (i : ℕ) (h : Bytes)
      → get_elem? nodes i ≡ some h
      → get_elem? (next_layer keccak sort_pairs nodes) (i / 2)
        ≡ some (climb keccak sort_pairs h (sibling_proof i nodes))
  unfolding next_layer climb sibling_proof pair_proof
  next_layer-sibling [] i h e = cc
  next_layer-sibling (a ∷ []) zero h e = e
  next_layer-sibling (a ∷ []) (suc i) h e = cc
  next_layer-sibling (a ∷ b ∷ rest) zero h e =
      let same : a ≡ h = cc in
      ap some (
        sym (climb_right a b)
        ∙ ap (λ x. climb_one keccak sort_pairs x (record { is_left = false; node = b })) same)
  next_layer-sibling (a ∷ b ∷ rest) (suc zero) h e =
      let same : b ≡ h = cc in
      ap some (
        sym (climb_left a b)
        ∙ ap (λ x. climb_one keccak sort_pairs x (record { is_left = true; node = a })) same)
  next_layer-sibling (a ∷ b ∷ rest) (suc (suc i)) h e =
      let up : suc (suc i) / 2 ≡ suc (i / 2) = omega arith in
      rw (up, sibling_shift a b rest i) (next_layer-sibling rest i h e)

  climb-append :
      (h : Bytes) (ps qs : List Proof)
      → climb keccak sort_pairs h (ps ++ qs)
        ≡ climb keccak sort_pairs (climb keccak sort_pairs h ps) qs
  unfolding climb
  climb-append h [] qs = refl
  climb-append h (p ∷ ps) qs = climb-append (climb_one keccak sort_pairs h p) ps qs

  create_hashes-cons :
      (n : ℕ) (nodes : List Bytes)
      → (rest : List (List Bytes)) × (create_hashes keccak sort_pairs n nodes ≡ nodes ∷ rest)
  unfolding create_hashes
  create_hashes-cons zero nodes = ([], refl)
  create_hashes-cons (suc n) nodes = elim (Bool-cases (ltb 1 (length nodes))) [
    | inl t ↦ rw t (create_hashes keccak sort_pairs n (next_layer keccak sort_pairs nodes), refl)
    | inr t ↦ rw t ([], refl)
  ]

  climb_round :
      (nodes next : List Bytes) (rest : List (List Bytes)) (i : ℕ) (h : Bytes)
      → get_last? (next ∷ rest)
        ≡ some (
            climb keccak sort_pairs
              (climb keccak sort_pairs h (sibling_proof i nodes))
              (collect_proof (i / 2) (next ∷ rest))
            ∷ [])
      → get_last? (nodes ∷ next ∷ rest)
        ≡ some (climb keccak sort_pairs h (collect_proof i (nodes ∷ next ∷ rest)) ∷ [])
  unfolding collect_proof
  climb_round nodes next rest i h e =
      e
      ∙ ap (λ (x : Bytes). some (x ∷ []))
          (sym (climb-append h (sibling_proof i nodes) (collect_proof (i / 2) (next ∷ rest))))

  single_node :
      (nodes : List Bytes) (i : ℕ) (h : Bytes)
      → length nodes ≤ 1
      → get_elem? nodes i ≡ some h
      → some nodes ≡ some (climb keccak sort_pairs h (collect_proof i (nodes ∷ [])) ∷ [])
  unfolding collect_proof climb
  single_node [] i h l e = cc
  single_node (x ∷ []) zero h l e = let same : x ≡ h = cc in ap (λ (y : Bytes). some (y ∷ [])) same
  single_node (x ∷ []) (suc i) h l e = cc
  single_node (x ∷ y ∷ rest) i h l e = absurd (omega arith)

  -- From any node, hashing with the siblings of its proof arrives at the one node of the last layer.
  pub climb-collect_proof :
      (n : ℕ) (nodes : List Bytes) (i : ℕ) (h : Bytes)
      → length nodes ≤ n
      → get_elem? nodes i ≡ some h
      → get_last? (create_hashes keccak sort_pairs n nodes)
        ≡ some (
            climb keccak sort_pairs h (collect_proof i (create_hashes keccak sort_pairs n nodes))
            ∷ [])
  unfolding create_hashes
  climb-collect_proof zero [] i h l e = cc
  climb-collect_proof zero (x ∷ nodes) i h l e = absurd (omega arith)
  climb-collect_proof (suc n) nodes i h l e = elim (Bool-cases (ltb 1 (length nodes))) [
    | inl t ↦
        let next = next_layer keccak sort_pairs nodes in
        let above =
          climb-collect_proof n next (i / 2) (climb keccak sort_pairs h (sibling_proof i nodes))
            (ground (arith, length-next_layer nodes)) (next_layer-sibling nodes i h e) in
        let (rest, shape) = create_hashes-cons n next in
        rw (t, shape) (climb_round nodes next rest i h (rw shape at above))
    | inr t ↦ rw t (single_node nodes i h (ground arith) e)
  ]
