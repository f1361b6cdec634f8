-- ===== src/Ethcoder/Merkle/Leaves.antt =====
-- The leaves of a tree: their hashes, their order and where they are found.
use ethkit.Prelude.{
  ℕ, suc, ◌+◌, ◌≡◌, refl, sym, ap, ◌∙◌, Option, some, List, [], ◌∷◌, All, Memᴰ, get_elem?, arith,
  Bool-cases, Option-cases, inl, inr,
}
use ethkit.Ethcoder.Bytes.{
  Bytes, compare_bytes, is_gt, equal_bytes, equal_bytes_refl, equal_bytes-eq,
}
use ethkit.Ethcoder.Merkle.{
  or_nil, hash_or_nil, sort_by_hash, insert_leaf, cons_hash, hash_all, index_of,
}

module _ {A : Type 0} (hash_fn : A → Option Bytes) where
  hash_or_nil-some : (a : A) (h : Bytes) → hash_fn a ≡ some h → hash_or_nil hash_fn a ≡ h
  unfolding hash_or_nil or_nil
  hash_or_nil-some a h e = ap or_nil e

  -- The hashes of a list that starts with a leaf.
  hash_all-cons :
      (a : A) (leaves : List A) (nodes : List Bytes)
      → hash_all hash_fn (a ∷ leaves) ≡ some nodes
      → (h : Bytes) × (hs : List Bytes) × (hash_fn a ≡ some h)
        × (hash_all hash_fn leaves ≡ some hs)
        × (nodes ≡ h ∷ hs)
  unfolding hash_all cons_hash
  hash_all-cons a leaves nodes e = elim (Option-cases (hash_fn a)) [
    | inl n ↦ absurd (cc (rw n at e))
    | inr (h, s) ↦ elim (Option-cases (hash_all hash_fn leaves)) [
      | inl n ↦ absurd (cc (rw (s, n) at e))
      | inr (hs, t) ↦ let f : some (h ∷ hs) ≡ some nodes = rw (s, t) at e in (h, hs, s, t, cc)
    ]
  ]

  -- The leaf found has the hash that was looked for, and stands where the hashes have it.
  pub index_of-found :
      (target : Bytes) (leaves : List A) (nodes : List Bytes) (i j : ℕ)
      → hash_all hash_fn leaves ≡ some nodes
      → index_of hash_fn target leaves i ≡ some j
      → (k : ℕ) × (j ≡ i + k) × (get_elem? nodes k ≡ some target)
  unfolding index_of
  index_of-found target [] nodes i j e f = cc
  index_of-found target (a ∷ leaves) nodes i j e f =
      let (h, hs, s, t, shape) = hash_all-cons a leaves nodes e in
      let nil_free : hash_or_nil hash_fn a ≡ h = hash_or_nil-some a h s in
      elim (Bool-cases (equal_bytes h target)) [
        | inl same ↦
            let here : some i ≡ some j = rw (nil_free, same) at f in
            (
              0,
              (let same_index : i ≡ j = cc in omega arith),
              rw shape (ap some (equal_bytes-eq h target same)),
            )
        | inr differ ↦
            let (k, at_k, found_k) =
              index_of-found target leaves hs (suc i) j t (rw (nil_free, differ) at f) in
            (suc k, omega (arith, at_k), rw shape found_k)
      ]

  -- A leaf that hashes.
  abbrev pub Hashes : A → Type 0
  Hashes a = (h : Bytes) × (hash_fn a ≡ some h)

  All-insert_leaf :
      (a : A) (leaves : List A)
      → Hashes a
      → All Hashes leaves
      → All Hashes (insert_leaf hash_fn a leaves)
  unfolding insert_leaf
  All-insert_leaf a [] p ps = (p, ps)
  All-insert_leaf a (b ∷ leaves) p (q, ps) =
      elim (Bool-cases (is_gt (compare_bytes (hash_or_nil hash_fn a) (hash_or_nil hash_fn b)))) [
        | inl t ↦ rw t (q, All-insert_leaf a leaves p ps)
        | inr t ↦ rw t (p, (q, ps))
      ]

  pub All-sort_by_hash :
      (leaves : List A) → All Hashes leaves → All Hashes (sort_by_hash hash_fn leaves)
  unfolding sort_by_hash
  All-sort_by_hash [] ps = ps
  All-sort_by_hash (a ∷ leaves) (p, ps) =
      All-insert_leaf a (sort_by_hash hash_fn leaves) p (All-sort_by_hash leaves ps)

  Mem-insert_leaf :
      (x a : A) (leaves : List A) → Memᴰ x (a ∷ leaves) → Memᴰ x (insert_leaf hash_fn a leaves)
  unfolding insert_leaf
  Mem-insert_leaf x a [] m = m
  Mem-insert_leaf x a (b ∷ leaves) m =
      elim (Bool-cases (is_gt (compare_bytes (hash_or_nil hash_fn a) (hash_or_nil hash_fn b)))) [
        | inl t ↦ rw t (move m (Mem-insert_leaf x a leaves))
        | inr t ↦ rw t m
      ]
    where
      move :
          Memᴰ x (a ∷ b ∷ leaves)
          → (Memᴰ x (a ∷ leaves) → Memᴰ x (insert_leaf hash_fn a leaves))
          → Memᴰ x (b ∷ insert_leaf hash_fn a leaves)
      move (Memᴰ.head e) inner = Memᴰ.tail (inner (Memᴰ.head e))
      move (Memᴰ.tail (Memᴰ.head e)) inner = Memᴰ.head e
      move (Memᴰ.tail (Memᴰ.tail n)) inner = Memᴰ.tail (inner (Memᴰ.tail n))

  pub Mem-sort_by_hash :
      (x : A) (leaves : List A) → Memᴰ x leaves → Memᴰ x (sort_by_hash hash_fn leaves)
  unfolding sort_by_hash
  Mem-sort_by_hash x [] m = elim m [ ]
  Mem-sort_by_hash x (a ∷ leaves) (Memᴰ.head e) =
      Mem-insert_leaf x a (sort_by_hash hash_fn leaves) (Memᴰ.head e)
  Mem-sort_by_hash x (a ∷ leaves) (Memᴰ.tail m) =
      Mem-insert_leaf x a (sort_by_hash hash_fn leaves) (Memᴰ.tail (Mem-sort_by_hash x leaves m))

  pub hash_all-some :
      (leaves : List A)
      → All Hashes leaves
      → (nodes : List Bytes) × (hash_all hash_fn leaves ≡ some nodes)
  unfolding hash_all cons_hash
  hash_all-some [] ps = ([], refl)
  hash_all-some (a ∷ leaves) ((h, e), ps) =
      let (nodes, f) = hash_all-some leaves ps in rw (e, f) (h ∷ nodes, refl)

  -- A leaf of the tree is found.
  pub index_of-Mem :
      (target : Bytes) (leaf : A) (leaves : List A) (i : ℕ)
      → hash_fn leaf ≡ some target
      → Memᴰ leaf leaves
      → (j : ℕ) × (index_of hash_fn target leaves i ≡ some j)
  unfolding index_of
  index_of-Mem target leaf [] i e m = elim m [ ]
  index_of-Mem target leaf (a ∷ leaves) i e (Memᴰ.head p) =
      let hash : hash_or_nil hash_fn a ≡ target =
        hash_or_nil-some a target (sym (ap hash_fn p) ∙ e) in
      rw (hash, equal_bytes_refl target) (i, refl)
  index_of-Mem target leaf (a ∷ leaves) i e (Memᴰ.tail m) =
      elim (Bool-cases (equal_bytes (hash_or_nil hash_fn a) target)) [
        | inl t ↦ rw t (i, refl)
        | inr t ↦ rw t (index_of-Mem target leaf leaves (suc i) e m)
      ]
