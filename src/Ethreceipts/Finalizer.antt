-- ===== src/Ethreceipts/Finalizer.antt =====
-- ethreceipts/finalizer.go: the receipts that wait until their block is final. Big integers are
-- natural numbers, and the set of ids is a list.
pub mod Order
pub mod Runs
use ethkit.Prelude.{
  ℕ, zero, suc, ◌+◌, ◌-◌, ◌*◌, ◌/◌, ◌%◌, ◌^◌, Bool, true, false, ◌&&◌, ◌||◌, Option, none, some,
  List, [], ◌∷◌, ◌++◌, length, drop, ltb, ◌==◌, if◌then◌else◌,
}
use ethkit.Ethreceipts.Receipt.{Receipt, transaction_hash}

pub record FinalTxn : Type 0 where
  pub receipt : Receipt
  pub block_num : ℕ

pub record Finalizer : Type 0 where
  pub queue : List FinalTxn
  pub txns : List ℕ
  pub num_blocks_to_finality : ℕ

abbrev pub len : Finalizer → ℕ
len f = length f.queue

-- `txnID[i] = txnID[i] + byte(filterID>>i)`: byte 0 is the first of the 32 bytes of a hash
unfoldable pub add_byte : ℕ → ℕ → ℕ → ℕ
add_byte filter_id hash i =
    let place = 256 ^ (31 - i) in
    let byte = hash / place % 256 in
    hash - byte * place + (byte + filter_id / 2 ^ i % 256) % 256 * place

-- the loop over the first eight bytes, with the rounds that are left
unfoldable pub add_bytes : ℕ → ℕ → ℕ → ℕ
unfolding add_byte
add_bytes filter_id zero hash = hash
add_bytes filter_id (suc k) hash = add_bytes filter_id k (add_byte filter_id hash (7 - k))

unfoldable pub txn_id : ℕ → ℕ → ℕ
unfolding add_bytes
txn_id filter_id hash = if ltb 0 filter_id then add_bytes filter_id 8 hash else hash

unfoldable pub is_known : ℕ → List ℕ → Bool
is_known id [] = false
is_known id (x ∷ xs) = x == id || is_known id xs

-- the entries of a transaction are overwritten
unfoldable pub update : FinalTxn → List FinalTxn → List FinalTxn
update t [] = []
update t (x ∷ xs) =
    let rest = update t xs in
    if transaction_hash x.receipt == transaction_hash t.receipt then t ∷ rest else x ∷ rest

-- `sort.SliceStable` by block number
unfoldable pub insert_sorted : FinalTxn → List FinalTxn → List FinalTxn
insert_sorted t [] = t ∷ []
insert_sorted t (x ∷ xs) =
    if ltb x.block_num t.block_num then x ∷ insert_sorted t xs else t ∷ x ∷ xs

unfoldable pub sort_stable : List FinalTxn → List FinalTxn
unfolding insert_sorted
sort_stable [] = []
sort_stable (x ∷ xs) = insert_sorted x (sort_stable xs)

-- the sort at the end of `enqueue`, which looks at the first two entries only
unfoldable pub resort : List FinalTxn → List FinalTxn
unfolding sort_stable
resort [] = []
resort (x ∷ []) = x ∷ []
resort (x ∷ y ∷ rest) =
    if ltb x.block_num y.block_num then sort_stable (x ∷ y ∷ rest) else x ∷ y ∷ rest

add_new : Bool → ℕ → FinalTxn → Finalizer → Finalizer
unfolding update resort
add_new true id t f = record f { queue = update t f.queue }
add_new false id t f = record f { queue = resort (f.queue ++ t ∷ []); txns = id ∷ f.txns }

-- a receipt that is final does not enter
enqueue_when : Bool → ℕ → FinalTxn → Finalizer → Finalizer
unfolding add_new is_known
enqueue_when true id t f = f
enqueue_when false id t f = add_new (is_known id f.txns) id t f

unfoldable pub enqueue : ℕ → Receipt → ℕ → Finalizer → Finalizer
unfolding enqueue_when txn_id transaction_hash
enqueue filter_id receipt block_num f =
    enqueue_when receipt.final (txn_id filter_id (transaction_hash receipt))
      (record { receipt = receipt; block_num = block_num }) f

-- the loop of `dequeue`
unfoldable pub finals : ℕ → ℕ → List FinalTxn → List FinalTxn
finals current finality [] = []
finals current finality (x ∷ xs) =
    let rest = finals current finality xs in
    if ltb (x.block_num + finality) current then x ∷ rest else rest

-- as many entries as are final are taken off the front
unfoldable pub dequeue : ℕ → Finalizer → Finalizer × List FinalTxn
unfolding finals
dequeue current f =
    let out = finals current f.num_blocks_to_finality f.queue in
    (record f { queue = drop (length out) f.queue }, out)
