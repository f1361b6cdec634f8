-- ===== src/Ethmonitor/Tests.antt =====
-- A small chain with a reorg, and the theorems about the monitor at it.
mod ChainTests
mod QueueTests
mod BuildTests
mod CycleTests
mod PublishTests
use ethkit.Prelude.{ℕ, ◌+◌, ◌*◌, ◌/◌, Bool, true, false, Option, none, some, List, [], ◌∷◌, ◌==◌}
use ethkit.Ethmonitor.Types.{EthBlock}
use ethkit.Ethmonitor.Block.{Event, added, removed, Block}
use ethkit.Ethmonitor.Chain.{Chain, Float64}

-- Seconds in whole numbers serve as floats here.
instance abbrev whole : Float64 ℕ
whole = record {
  zero = 0;
  is_zero = λ n. n == 0;
  of_u64 = λ n. n;
  add = λ m n. m + n;
  half = λ n. n / 2;
}

abbrev eth : ℕ → ℕ → ℕ → EthBlock
eth hash parent number = record {
  hash = hash;
  parent_hash = parent;
  number = number;
  time = 12 * number;
  bloom = 0;
  transactions = [];
}

abbrev entry : Event → Bool → EthBlock → Block
entry e ok b = record {
  block = b;
  event = e;
  logs = none;
  ok = ok;
  block_payload = none;
  logs_payload = none;
}

abbrev first : Block
first = entry added true (eth 1 0 100)

abbrev second : Block
second = entry added true (eth 2 1 101)

abbrev third : Block
third = entry added false (eth 3 2 102)

-- The block that replaces `third`, and the one that follows it.
abbrev rival : Block
rival = entry added true (eth 4 2 102)

abbrev follower : EthBlock
follower = eth 5 4 103

abbrev third_removed : Block
third_removed = entry removed true (eth 3 2 102)

abbrev chain_of : List Block → Chain ℕ
chain_of bs = record {
  blocks = some bs;
  retention_limit = 10;
  bootstrap_mode = false;
  average_block_time = 12;
}

abbrev three : Chain ℕ
three = chain_of (first ∷ second ∷ third ∷ [])
