-- ===== src/Ethreceipts/Finalizer/Runs.antt =====
-- Runs of the finalizer: receipts enter in the order of their blocks, and batches leave.
use ethkit.Prelude.{
  ℕ, ◌≤◌, ◌≡◌, refl, sym, ap, ◌∙◌, subst, false, List, [], ◌∷◌, ◌++◌, append_assoc, All, All-suffix,
}
use ethkit.Ethreceipts.Receipt.{Receipt, transaction_hash}
use ethkit.Ethreceipts.Finalizer.{FinalTxn, Finalizer, txn_id, is_known, enqueue, dequeue}
use ethkit.Ethreceipts.Finalizer.Order.{
  IsSorted, IsSorted-append, IsSorted-suffix, enqueue_in_order, dequeue_sorted,
}

-- What has entered, what was handed out, and the finalizer.
pub data Run : List FinalTxn → List FinalTxn → Finalizer → Type 0 where
  start :
      (finality : ℕ)
      → Run [] [] (record { queue = []; txns = []; num_blocks_to_finality = finality })
  enter :
      {entered sent : List FinalTxn} {f : Finalizer} (filter_id : ℕ) (receipt : Receipt)
      (block_num : ℕ)
      → Run entered sent f
      → receipt.final ≡ false
      → is_known (txn_id filter_id (transaction_hash receipt)) f.txns ≡ false
      → All (λ y. y.block_num ≤ block_num) entered
      → Run
          (entered ++ record { receipt = receipt; block_num = block_num } ∷ [])
          sent
          (enqueue filter_id receipt block_num f)
  leave :
      {entered sent : List FinalTxn} {f : Finalizer} (current : ℕ)
      → Run entered sent f
      → Run entered (sent ++ (dequeue current f).1) (dequeue current f).0

-- In a run in which the receipts are new and enter in the order of their blocks, each that entered
-- was handed out once or still waits, in the order in which they entered; the queue stays sorted.
pub Run-delivers :
    {entered sent : List FinalTxn} {f : Finalizer}
    → Run entered sent f
    → (entered ≡ sent ++ f.queue) × IsSorted f.queue
Run-delivers (start finality) = (refl, tt)
Run-delivers (enter {sent = sent} {f = f} filter_id receipt block_num r unsettled fresh le) =
    let (e, s) = Run-delivers r in
    let t : FinalTxn = record { receipt = receipt; block_num = block_num } in
    let below =
      All-suffix (λ y. y.block_num ≤ block_num) sent f.queue
        (subst (All (λ y. y.block_num ≤ block_num)) e le) in
    rw (enqueue_in_order filter_id receipt block_num f unsettled fresh s below) (
      ap (λ l. l ++ t ∷ []) e ∙ append_assoc sent f.queue (t ∷ []),
      IsSorted-append f.queue t s below,
    )
Run-delivers (leave {sent = sent} {f = f} current r) =
    let (e, s) = Run-delivers r in
    let (split, are_final, are_pending) = dequeue_sorted current f s in
    (
      e
          ∙ ap (λ l. sent ++ l) split
          ∙ sym (append_assoc sent (dequeue current f).1 (dequeue current f).0.queue),
      IsSorted-suffix (dequeue current f).1 (dequeue current f).0.queue (subst IsSorted split s),
    )
