-- ===== src/Ethreceipts/Tests/FilterTests.antt =====
-- The filters' and subscribers' theorems at two receipts.
use ethkit.Prelude.{
  ℕ, ◌+◌, ◌≤◌, ◌≡◌, ◌≢◌, refl, Bool, true, false, if◌then◌else◌, ltb, none, some, [], ◌∷◌, ◌++◌,
  map, arith, ◌⊎◌, ◌↔◌, inl, inr, Bool-cases,
}
use ethkit.Ethmonitor.Block.{Block, added}
use ethkit.Ethreceipts.Filter.{Filter, blocks, filter_txn_hash, filter_from, set_max_wait}
use ethkit.Ethreceipts.Finalizer.{dequeue}
use ethkit.Ethreceipts.Subscriber.{Listener, Subscriber, match_filters, finalize_receipts}
use ethkit.Ethreceipts.Subscriber.Matching.{match_filters_reorged}
use ethkit.Ethreceipts.Subscriber.Reports.{any_match, match_filters_reports}
use ethkit.Ethreceipts.Subscriber.Finality.{finalized, finalize_receipts_sends}
use ethkit.Ethreceipts.Listener.{
  logs_of_txn, group_logs_by_transaction, check_exhausted, get_max_wait_blocks,
}
use ethkit.Ethreceipts.Listener.Logs.{logs_of_txn-group_logs_by_transaction}
use ethkit.Ethreceipts.Listener.Waiting.{check_exhausted_removes}
use ethkit.Ethreceipts.Tests.{log_of, receipt_of}

abbrev maximum : ℕ → ℕ → ℕ
maximum a b = if ltb a b then b else a

maximum_lem :
    (a b : ℕ) → (a ≤ maximum a b) × (b ≤ maximum a b) × ((maximum a b ≡ a) ⊎ (maximum a b ≡ b))
maximum_lem a b = elim (Bool-cases (ltb a b)) [
  | inl t ↦ rw t (ground arith, omega arith, inr refl)
  | inr t ↦ rw t (omega arith, ground arith, inl refl)
]

-- No receipt can be fetched here.
abbrev offline : Listener
offline = record {
  fetch = λ h. none;
  latest_block_num = 20;
  num_blocks_to_finality = 3;
  filter_max_wait_num_blocks = blocks 0;
  max = maximum;
}

abbrev subscriber : Subscriber
subscriber = record {
  filters = filter_txn_hash 7 1 ∷ filter_from 8 3 ∷ [];
  finalizer = record {
    queue = record { receipt = receipt_of 1 false; block_num = 10 } ∷ [];
    txns = [];
    num_blocks_to_finality = 3;
  };
  sent = [];
}

match_filters_reorged_example :
    ((match_filters offline subscriber.filters (receipt_of 1 true ∷ []) subscriber).0.filters
      ≡ subscriber.filters)
    × ((match_filters offline subscriber.filters (receipt_of 1 true ∷ []) subscriber).0.finalizer
        ≡ subscriber.finalizer)
match_filters_reorged_example =
    match_filters_reorged offline subscriber.filters (receipt_of 1 true ∷ []) subscriber (refl, tt)

no_error : (match_filters offline subscriber.filters (receipt_of 1 true ∷ []) subscriber).2 ≡ none
unfolding match_filters filter_txn_hash filter_from
no_error = refl

match_filters_reports_example :
    (match_filters offline subscriber.filters (receipt_of 1 true ∷ []) subscriber).1
    ≡ map (λ f. any_match f (receipt_of 1 true ∷ [])) subscriber.filters
match_filters_reports_example =
    match_filters_reports offline subscriber.filters (receipt_of 1 true ∷ []) subscriber no_error

finalize_receipts_sends_example :
    ((finalize_receipts 14 subscriber).sent ≡ [] ++ finalized (dequeue 14 subscriber.finalizer).1)
    × ((finalize_receipts 14 subscriber).finalizer ≡ (dequeue 14 subscriber.finalizer).0)
finalize_receipts_sends_example = finalize_receipts_sends 14 subscriber

logs_of_txn-group_logs_by_transaction_example :
    logs_of_txn 1 (group_logs_by_transaction (log_of 1 4 ∷ log_of 2 4 ∷ log_of 1 5 ∷ []))
    ≡ log_of 1 4 ∷ log_of 1 5 ∷ []
logs_of_txn-group_logs_by_transaction_example =
    logs_of_txn-group_logs_by_transaction 1 (log_of 1 4 ∷ log_of 2 4 ∷ log_of 1 5 ∷ [])

abbrev block_at : ℕ → Block
block_at n = record {
  block = record {
    hash = n;
    parent_hash = n;
    number = n;
    time = n;
    bloom = 0;
    transactions = record { hash = n } ∷ [];
  };
  event = added;
  logs = none;
  ok = true;
  block_payload = none;
  logs_payload = none;
}

abbrev waiting : Filter
waiting = record (set_max_wait (blocks 6) (filter_from 8 3)) { start_block_num = 3 }

overdue : (check_exhausted offline 20 false waiting).1 ≡ true
unfolding check_exhausted filter_from
overdue = refl

check_exhausted_removes_example :
    ((check_exhausted offline 20 false waiting).1 ≡ true ↔ (
      (◌≡◌ {A = Bool} false false)
      × (waiting.start_block_num ≢ 0)
      × (get_max_wait_blocks offline (some (blocks 6)) ≢ 0)
      × (3 + get_max_wait_blocks offline (some (blocks 6)) ≤ 20)
      × (0 + get_max_wait_blocks offline (some (blocks 6)) ≤ 20)
      × (waiting.options.limit_one ≡ true → ◌≡◌ {A = ℕ} 0 0)))
    × ((check_exhausted offline 20 false waiting).1 ≡ true
        → (check_exhausted offline 20 false waiting).0 ≡ record waiting { exhausted = true })
unfolding filter_from
check_exhausted_removes_example =
    check_exhausted_removes offline 20 waiting false maximum_lem (omega arith) (omega arith)
