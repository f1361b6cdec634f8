-- ===== src/Ethreceipts/Types.antt =====
-- What the package reads of the values of the vendored go-ethereum library (`types.Receipt`,
-- `core.Message`). Hashes, addresses and blooms are numbers, as for the monitor; the zero hash and the
-- zero address are 0. The block number is that of a mined transaction, which is set.
use ethkit.Prelude.{ℕ, Option, List}
use ethkit.Ethmonitor.Types.{Log}

pub record TxReceipt : Type 0 where
  pub tx_hash : ℕ
  pub status : ℕ
  pub block_number : ℕ
  pub block_hash : ℕ
  pub kind : ℕ
  pub post_state : List ℕ
  pub bloom : ℕ
  pub transaction_index : ℕ
  pub contract_address : ℕ
  pub cumulative_gas_used : ℕ
  pub effective_gas_price : Option ℕ
  pub gas_used : ℕ
  pub logs : List Log
  pub from : ℕ
  pub to : ℕ

pub record Message : Type 0 where
  pub from : ℕ
  pub to : Option ℕ
