-- ===== src/Ethmonitor/Types.antt =====
-- What the monitor reads of the values of the vendored go-ethereum library (`types.Block`,
-- `types.Transaction`, `types.Log`): each record holds what the accessors of a value return.
-- Hashes, addresses and blooms are the numbers that their bytes spell; the code only compares them.
use ethkit.Prelude.{ℕ, List}

pub record Transaction : Type 0 where
  pub hash : ℕ

pub record Log : Type 0 where
  pub address : ℕ
  pub topics : List ℕ
  pub payload : List ℕ
  pub tx_hash : ℕ
  pub tx_index : ℕ

pub record EthBlock : Type 0 where
  pub hash : ℕ
  pub parent_hash : ℕ
  -- `Number()`, a big integer
  pub number : ℕ
  pub time : ℕ
  pub bloom : ℕ
  pub transactions : List Transaction
