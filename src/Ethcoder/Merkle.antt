-- ===== src/Ethcoder/Merkle.antt =====
-- ethcoder/merkle_proof.go. The leaf type, the leaves' hash function and Keccak-256, which is the
-- vendored go-ethereum's, are parameters. `hash_fn` gives `none` for an error.
pub mod Layers
pub mod Leaves
pub mod Proofs
use ethkit.Prelude.{
  ℕ, zero, suc, ◌+◌, ◌-◌, ◌/◌, ◌%◌, Bool, true, false, ◌&&◌, ◌||◌, not, Option, none, some, List,
  [], ◌∷◌, ◌++◌, map, length, get_elem?, get_last?, ltb, ◌==◌, if◌then◌else◌,
}
use ethkit.Ethcoder.Bytes.{Bytes, compare_bytes, equal_bytes, is_lt, is_gt}

pub record Options : Type 0 where
  pub sort_leaves : Bool
  pub sort_pairs : Bool

unfoldable pub default_merkle_tree_options : Options
default_merkle_tree_options = record { sort_leaves = true; sort_pairs = true }

pub record Proof : Type 0 where
  pub is_left : Bool
  pub node : Bytes

-- `hashFn` is a parameter of the functions below.
pub record MerkleTree (A : Type 0) : Type 0 where
  pub sort_leaves : Bool
  pub sort_pairs : Bool
  pub leaves : List A
  pub layers : List (List Bytes)

pub data Err : Type 0 where
  hash_failed leaf_not_found invalid_input : Err

pub data Result (A : Type 0) : Type 0 where
  ok : A → Result A
  err : Err → Result A

-- `GetRoot` returns nil or a root, or reads past the end of an empty layer.
pub data Root : Type 0 where
  nil panics : Root
  value : Bytes → Root

module _ (keccak : Bytes → Bytes) (sort_pairs : Bool) where
  -- the hash of two neighbours, in order if pairs are sorted
  unfoldable pub pair_hash : Bytes → Bytes → Bytes
  pair_hash left right =
      if sort_pairs && is_gt (compare_bytes left right)
      then keccak (right ++ left)
      else keccak (left ++ right)

  -- one round of the loop of `createHashes`; the last node of an odd layer moves up as it is
  unfoldable pub next_layer : List Bytes → List Bytes
  unfolding pair_hash
  next_layer [] = []
  next_layer (a ∷ []) = a ∷ []
  next_layer (a ∷ b ∷ rest) = pair_hash a b ∷ next_layer rest

  -- The layers of `createHashes`, from the nodes up, on fuel: as many rounds as there are nodes are
  -- enough.
  unfoldable pub create_hashes : ℕ → List Bytes → List (List Bytes)
  unfolding next_layer
  create_hashes zero nodes = nodes ∷ []
  create_hashes (suc n) nodes =
      let rest = create_hashes n (next_layer nodes) in
      if ltb 1 (length nodes) then nodes ∷ rest else nodes ∷ []

  -- one round of the loop of `Verify`
  unfoldable pub climb_one : Bytes → Proof → Bytes
  climb_one hash p =
      if sort_pairs
      then (if is_lt (compare_bytes hash p.node)
          then keccak (hash ++ p.node)
          else keccak (p.node ++ hash))
      else if p.is_left
      then keccak (p.node ++ hash)
      else keccak (hash ++ p.node)

  unfoldable pub climb : Bytes → List Proof → Bytes
  unfolding climb_one
  climb hash [] = hash
  climb hash (p ∷ ps) = climb (climb_one hash p) ps

first_of_layer : List Bytes → Root
first_of_layer [] = panics
first_of_layer (r ∷ rest) = value r

root_of : Option (List Bytes) → Root
unfolding first_of_layer
root_of none = nil
root_of (some layer) = first_of_layer layer

-- `leafIndex ^ 1`
abbrev pub pair_index : ℕ → ℕ
pair_index i = if i % 2 == 0 then i + 1 else i - 1

pair_proof : ℕ → Option Bytes → List Proof
pair_proof i none = []
pair_proof i (some sibling) = record { is_left = not (i % 2 == 0); node = sibling } ∷ []

-- one round of the loop of `GetProof`
unfoldable pub sibling_proof : ℕ → List Bytes → List Proof
unfolding pair_proof
sibling_proof i layer = pair_proof i (get_elem? layer (pair_index i))

-- the loop, over all layers but the last
unfoldable pub collect_proof : ℕ → List (List Bytes) → List Proof
unfolding sibling_proof
collect_proof i [] = []
collect_proof i (layer ∷ []) = []
collect_proof i (layer ∷ next ∷ rest) = sibling_proof i layer ++ collect_proof (i / 2) (next ∷ rest)

-- an error leaves nil
or_nil : Option Bytes → Bytes
or_nil none = []
or_nil (some h) = h

module _ {A : Type 0} (hash_fn : A → Option Bytes) where
  -- `node, _ := mt.hashFn(l)`
  hash_or_nil : A → Bytes
  unfolding or_nil
  hash_or_nil a = or_nil (hash_fn a)

  -- `sort.Slice` by the leaves' hashes; equal hashes keep their order here
  insert_leaf : A → List A → List A
  unfolding hash_or_nil compare_bytes
  insert_leaf a [] = a ∷ []
  insert_leaf a (b ∷ bs) =
      if is_gt (compare_bytes (hash_or_nil a) (hash_or_nil b))
      then b ∷ insert_leaf a bs
      else a ∷ b ∷ bs

  pub sort_by_hash : List A → List A
  unfolding insert_leaf
  sort_by_hash [] = []
  sort_by_hash (a ∷ as') = insert_leaf a (sort_by_hash as')

  cons_hash : Option Bytes → Option (List Bytes) → Option (List Bytes)
  cons_hash none rest = none
  cons_hash (some h) none = none
  cons_hash (some h) (some hs) = some (h ∷ hs)

  -- the hashes of the leaves; the first error ends the loop
  pub hash_all : List A → Option (List Bytes)
  unfolding cons_hash
  hash_all [] = some []
  hash_all (a ∷ as') = cons_hash (hash_fn a) (hash_all as')

  -- the first leaf whose hash is the target; `none` is -1
  pub index_of : Bytes → List A → ℕ → Option ℕ
  unfolding hash_or_nil equal_bytes
  index_of target [] i = none
  index_of target (a ∷ as') i =
      if equal_bytes (hash_or_nil a) target then some i else index_of target as' (suc i)

  found : Option ℕ → List (List Bytes) → Result (List Proof)
  found none layers = err leaf_not_found
  found (some i) layers = ok (collect_proof i layers)

  proof_of : Option Bytes → MerkleTree A → Result (List Proof)
  unfolding index_of found collect_proof
  proof_of none mt = err hash_failed
  proof_of (some target) mt = found (index_of target mt.leaves 0) mt.layers

  unfoldable pub get_proof : A → MerkleTree A → Result (List Proof)
  unfolding proof_of
  get_proof leaf mt = proof_of (hash_fn leaf) mt

  module _ (keccak : Bytes → Bytes) where
    -- `processLeaves`: a leaf that cannot be hashed leaves the tree without layers
    layers_of : Bool → Option (List Bytes) → List (List Bytes)
    unfolding create_hashes
    layers_of sort_pairs none = []
    layers_of sort_pairs (some nodes) = create_hashes keccak sort_pairs (length nodes) nodes

    -- `NewMerkleTree`; the error of `processLeaves` is dropped there
    unfoldable pub new_merkle_tree : Options → List A → MerkleTree A
    unfolding layers_of hash_all sort_by_hash
    new_merkle_tree options leaves =
        let sorted = if options.sort_leaves then sort_by_hash leaves else leaves in
        record {
          sort_leaves = options.sort_leaves;
          sort_pairs = options.sort_pairs;
          leaves = sorted;
          layers = layers_of options.sort_pairs (hash_all sorted);
        }

    verify_hash : Option Bytes → Option (List Proof) → Bytes → Bool → Result Bool
    unfolding climb equal_bytes
    verify_hash none proof root sort_pairs = err hash_failed
    verify_hash (some hash) none root sort_pairs = err invalid_input
    verify_hash (some hash) (some proof) root sort_pairs =
        if length hash == 0 || length root == 0
        then err invalid_input
        else ok (equal_bytes (climb keccak sort_pairs hash proof) root)

    -- a nil proof is `none`
    unfoldable pub verify : MerkleTree A → Option (List Proof) → A → Bytes → Result Bool
    unfolding verify_hash
    verify mt proof leaf root = verify_hash (hash_fn leaf) proof root mt.sort_pairs

-- `GetRoot`
unfoldable pub get_root : {A : Type 0} → MerkleTree A → Root
unfolding root_of
get_root mt = root_of (get_last? mt.layers)

nodes_of : Result (List Proof) → List Bytes
nodes_of (ok proof) = map (λ p. p.node) proof
nodes_of (err e) = []

-- `GetHexProof`
unfoldable pub get_hex_proof : {A : Type 0} → (A → Option Bytes) → A → MerkleTree A → List Bytes
unfolding nodes_of get_proof
get_hex_proof hash_fn leaf mt = nodes_of (get_proof hash_fn leaf mt)
