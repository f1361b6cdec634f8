-- ===== src/Ethreceipts/Tests/FinalizerTests.antt =====
-- The finalizer's theorems at two receipts.
use ethkit.Prelude.{◌≡◌, refl, false, [], ◌∷◌, ◌++◌, All, arith}
use ethkit.Ethreceipts.Finalizer.{FinalTxn, Finalizer, txn_id, is_known, enqueue, dequeue}
use ethkit.Ethreceipts.Finalizer.Order.{IsSorted, IsFinal, IsPending, dequeue_sorted}
use ethkit.Ethreceipts.Finalizer.Runs.{Run, start, enter, leave, Run-delivers}
use ethkit.Ethreceipts.Tests.{receipt_of}

abbrev early : FinalTxn
early = record { receipt = receipt_of 1 false; block_num = 10 }

abbrev late : FinalTxn
late = record { receipt = receipt_of 2 false; block_num = 12 }

abbrev both : Finalizer
both = record { queue = early ∷ late ∷ []; txns = 2 ∷ 1 ∷ []; num_blocks_to_finality = 3 }

dequeue_sorted_example :
    (both.queue ≡ (dequeue 14 both).1 ++ (dequeue 14 both).0.queue)
    × All (IsFinal 14 3) (dequeue 14 both).1
    × All (IsPending 14 3) (dequeue 14 both).0.queue
dequeue_sorted_example = dequeue_sorted 14 both ((omega arith, tt), (tt, tt))

abbrev fresh : Finalizer
fresh = record { queue = []; txns = []; num_blocks_to_finality = 3 }

entered_one : Run (early ∷ []) [] (enqueue 0 (receipt_of 1 false) 10 fresh)
unfolding is_known
entered_one = enter 0 (receipt_of 1 false) 10 (start 3) refl refl tt

Run-delivers_example :
    (early ∷ []
      ≡ (dequeue 14 (enqueue 0 (receipt_of 1 false) 10 fresh)).1
        ++ (dequeue 14 (enqueue 0 (receipt_of 1 false) 10 fresh)).0.queue)
    × IsSorted (dequeue 14 (enqueue 0 (receipt_of 1 false) 10 fresh)).0.queue
Run-delivers_example = Run-delivers (leave 14 entered_one)

-- An older receipt that enters behind a newer one is not sorted in. It is sent when it is final, and
-- it is the newer one that leaves the queue.
abbrev same_block : Finalizer
same_block = record { queue = late ∷ []; txns = []; num_blocks_to_finality = 3 }

out_of_order : (dequeue 14 (enqueue 0 (receipt_of 1 false) 10 same_block)).0.queue ≡ early ∷ []
unfolding enqueue dequeue
out_of_order = refl

out_of_order_sent : (dequeue 14 (enqueue 0 (receipt_of 1 false) 10 same_block)).1 ≡ early ∷ []
unfolding enqueue dequeue
out_of_order_sent = refl

-- Filters whose ids differ above the 15 lowest bits share an id.
shared_id : txn_id 1 0 ≡ txn_id 32769 0
unfolding txn_id
shared_id = refl
