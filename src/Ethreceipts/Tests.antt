-- ===== src/Ethreceipts/Tests.antt =====
-- Receipts of a small block, and the theorems at them.
mod FinalizerTests
mod FilterTests
use ethkit.Prelude.{ℕ, Bool, true, false, none, some, List, [], ◌∷◌}
use ethkit.Ethmonitor.Types.{Log}
use ethkit.Ethreceipts.Receipt.{Receipt}

abbrev log_of : ℕ → ℕ → Log
log_of hash address = record {
  address = address;
  topics = 9 ∷ [];
  payload = [];
  tx_hash = hash;
  tx_index = 0;
}

abbrev receipt_of : ℕ → Bool → Receipt
receipt_of hash reorged = record {
  filter = none;
  final = false;
  reorged = reorged;
  transaction = some (record { hash = hash });
  message = none;
  receipt = none;
  logs = log_of hash 4 ∷ log_of hash 5 ∷ [];
}
