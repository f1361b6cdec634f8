-- ===== src/Ethreceipts/Finalizer/Order.antt =====
-- The queue in the order of the block numbers.
use ethkit.Prelude.{
  ℕ, ◌+◌, ◌≤◌, ◌<◌, ◌≡◌, refl, ap, ◌∙◌, Bool, true, false, List, [], ◌∷◌, ◌++◌, length, drop, All,
  All-append, All-map, drop-length-append, arith, ltb, Bool-cases, inl, inr,
}
use ethkit.Ethreceipts.Receipt.{Receipt, transaction_hash}
use ethkit.Ethreceipts.Finalizer.{
  FinalTxn, Finalizer, txn_id, is_known, insert_sorted, sort_stable, resort, add_new, enqueue_when,
  enqueue, finals, dequeue,
}

-- Entries from the lowest block number to the highest.
abbrev pub IsSorted : List FinalTxn → Type 0
IsSorted [] = Unit
IsSorted (x ∷ xs) = All (λ y. x.block_num ≤ y.block_num) xs × IsSorted xs

-- An entry whose block is final at the current block.
abbrev pub IsFinal : ℕ → ℕ → FinalTxn → Type 0
IsFinal current finality x = x.block_num + finality < current

abbrev pub IsPending : ℕ → ℕ → FinalTxn → Type 0
IsPending current finality x = current ≤ x.block_num + finality

insert_sorted_first :
    (t : FinalTxn) (xs : List FinalTxn)
    → All (λ y. t.block_num ≤ y.block_num) xs
    → insert_sorted t xs ≡ t ∷ xs
unfolding insert_sorted
insert_sorted_first t [] h = refl
insert_sorted_first t (x ∷ xs) (p, h) =
    let stays : ltb x.block_num t.block_num ≡ false = ground arith in rw stays refl

sort_stable_sorted : (xs : List FinalTxn) → IsSorted xs → sort_stable xs ≡ xs
unfolding sort_stable
sort_stable_sorted [] h = refl
sort_stable_sorted (x ∷ xs) (p, h) = rw (sort_stable_sorted xs h) (insert_sorted_first x xs p)

resort_sorted : (xs : List FinalTxn) → IsSorted xs → resort xs ≡ xs
unfolding resort
resort_sorted [] h = refl
resort_sorted (x ∷ []) h = refl
resort_sorted (x ∷ y ∷ xs) h = elim (Bool-cases (ltb x.block_num y.block_num)) [
  | inl t ↦ rw t (sort_stable_sorted (x ∷ y ∷ xs) h)
  | inr t ↦ rw t refl
]

pub IsSorted-append :
    (xs : List FinalTxn) (t : FinalTxn)
    → IsSorted xs
    → All (λ y. y.block_num ≤ t.block_num) xs
    → IsSorted (xs ++ t ∷ [])
IsSorted-append [] t h le = (tt, tt)
IsSorted-append (x ∷ xs) t (p, h) (q, le) =
    (All-append (λ y. x.block_num ≤ y.block_num) xs (t ∷ []) p (q, tt), IsSorted-append xs t h le)

pub IsSorted-suffix : (xs ys : List FinalTxn) → IsSorted (xs ++ ys) → IsSorted ys
IsSorted-suffix [] ys h = h
IsSorted-suffix (x ∷ xs) ys (p, h) = IsSorted-suffix xs ys h

enqueue_when_fresh :
    (b : Bool) (id : ℕ) (t : FinalTxn) (f : Finalizer)
    → b ≡ false
    → is_known id f.txns ≡ false
    → IsSorted f.queue
    → All (λ y. y.block_num ≤ t.block_num) f.queue
    → (enqueue_when b id t f).queue ≡ f.queue ++ t ∷ []
unfolding enqueue_when add_new
enqueue_when_fresh true id t f e fresh h le = cc
enqueue_when_fresh false id t f e fresh h le =
    rw fresh (resort_sorted _ (IsSorted-append f.queue t h le))

pub enqueue_in_order :
    (filter_id : ℕ) (receipt : Receipt) (block_num : ℕ) (f : Finalizer)
    → receipt.final ≡ false
    → is_known (txn_id filter_id (transaction_hash receipt)) f.txns ≡ false
    → IsSorted f.queue
    → All (λ y. y.block_num ≤ block_num) f.queue
    → (enqueue filter_id receipt block_num f).queue
      ≡ f.queue ++ record { receipt = receipt; block_num = block_num } ∷ []
unfolding enqueue
enqueue_in_order filter_id receipt block_num f = enqueue_when_fresh receipt.final _ _ f

finals_none :
    (current finality : ℕ) (xs : List FinalTxn)
    → All (IsPending current finality) xs
    → finals current finality xs ≡ []
unfolding finals
finals_none current finality [] h = refl
finals_none current finality (x ∷ xs) (p, h) = ground (arith, finals_none current finality xs h)

-- The split of a sorted queue at the first entry that is not final.
finals_split :
    (current finality : ℕ) (xs : List FinalTxn)
    → IsSorted xs
    → (rest : List FinalTxn) × (xs ≡ finals current finality xs ++ rest)
      × All (IsFinal current finality) (finals current finality xs)
      × All (IsPending current finality) rest
unfolding finals
finals_split current finality [] h = ([], refl, tt, tt)
finals_split current finality (x ∷ xs) (p, h) =
    elim (Bool-cases (ltb (x.block_num + finality) current)) [
      | inl t ↦
          let (rest, e, are_final, are_pending) = finals_split current finality xs h in
          rw t (rest, ap (λ l. x ∷ l) e, (ground arith, are_final), are_pending)
      | inr t ↦
          let pending : All (IsPending current finality) xs = All-map xs (λ y q. ground arith) p in
          let none_final = finals_none current finality xs pending in
          rw (t, none_final) (x ∷ xs, refl, tt, (ground arith, pending))
    ]

-- Of a queue in the order of block numbers, `dequeue` hands out exactly the entries whose blocks are
-- final, in order, and exactly the others stay.
pub dequeue_sorted :
    (current : ℕ) (f : Finalizer)
    → IsSorted f.queue
    → (f.queue ≡ (dequeue current f).1 ++ (dequeue current f).0.queue)
      × All (IsFinal current f.num_blocks_to_finality) (dequeue current f).1
      × All (IsPending current f.num_blocks_to_finality) (dequeue current f).0.queue
unfolding dequeue
dequeue_sorted current f h =
    let (rest, e, are_final, are_pending) =
      finals_split current f.num_blocks_to_finality f.queue h in
    let out = finals current f.num_blocks_to_finality f.queue in
    let kept : drop (length out) f.queue ≡ rest =
      ap (drop (length out)) e ∙ drop-length-append out rest in
    rw kept (e, are_final, are_pending)
