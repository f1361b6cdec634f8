-- ===== src/Ethreceipts/Receipt.antt =====
-- ethreceipts/receipt.go, and `Match` of ethreceipts/filterer.go.
pub mod Match
use ethkit.Prelude.{
  ℕ, Bool, true, false, ◌||◌, Option, none, some, List, [], ◌∷◌, ltb, ◌==◌, if◌then◌else◌,
}
use ethkit.Ethmonitor.Types.{Transaction, Log}
use ethkit.Ethreceipts.Types.{TxReceipt, Message}
use ethkit.Ethreceipts.Filter.{Filter, FilterCond}

pub record Receipt : Type 0 where
  pub filter : Option Filter
  pub final : Bool
  pub reorged : Bool
  pub transaction : Option Transaction
  pub message : Option Message
  pub receipt : Option TxReceipt
  pub logs : List Log

abbrev pub filter_id : Receipt → ℕ
filter_id r = elim r.filter [ none ↦ 0 | some f ↦ f.options.id ]

hash_of : Option Transaction → Option TxReceipt → ℕ
hash_of (some t) r = t.hash
hash_of none (some r) = r.tx_hash
hash_of none none = 0

unfoldable pub transaction_hash : Receipt → ℕ
unfolding hash_of
transaction_hash r = hash_of r.transaction r.receipt

-- the accessors that read the receipt, or return a zero value without one
read {ℓ} : {A : Type ℓ} → A → (TxReceipt → A) → Option TxReceipt → A
read zero_value field none = zero_value
read zero_value field (some r) = field r

unfoldable pub status : Receipt → ℕ
unfolding read
status r = read 0 (λ x. x.status) r.receipt

unfoldable pub block_number : Receipt → Option ℕ
unfolding read
block_number r = read none (λ x. some x.block_number) r.receipt

unfoldable pub block_hash : Receipt → ℕ
unfolding read
block_hash r = read 0 (λ x. x.block_hash) r.receipt

unfoldable pub kind : Receipt → ℕ
unfolding read
kind r = read 0 (λ x. x.kind) r.receipt

unfoldable pub post_state : Receipt → List ℕ
unfolding read
post_state r = read [] (λ x. x.post_state) r.receipt

unfoldable pub bloom : Receipt → ℕ
unfolding read
bloom r = read 0 (λ x. x.bloom) r.receipt

unfoldable pub transaction_index : Receipt → ℕ
unfolding read
transaction_index r = read 0 (λ x. x.transaction_index) r.receipt

unfoldable pub deployed_contract_address : Receipt → ℕ
unfolding read
deployed_contract_address r = read 0 (λ x. x.contract_address) r.receipt

unfoldable pub cumulative_gas_used : Receipt → ℕ
unfolding read
cumulative_gas_used r = read 0 (λ x. x.cumulative_gas_used) r.receipt

unfoldable pub effective_gas_price : Receipt → Option ℕ
unfolding read
effective_gas_price r = read none (λ x. x.effective_gas_price) r.receipt

unfoldable pub gas_used : Receipt → ℕ
unfolding read
gas_used r = read 0 (λ x. x.gas_used) r.receipt

or_own : List Log → List Log → List Log
or_own own [] = own
or_own own (l ∷ ls) = l ∷ ls

-- `Logs`
unfoldable pub logs_of : Receipt → List Log
unfolding read or_own
logs_of r = or_own r.logs (read [] (λ x. x.logs) r.receipt)

sender_of : Option TxReceipt → Option Message → ℕ
sender_of (some r) m = r.from
sender_of none (some m) = m.from
sender_of none none = 0

unfoldable pub from : Receipt → ℕ
unfolding sender_of
from r = sender_of r.receipt r.message

or_zero : Option ℕ → ℕ
or_zero none = 0
or_zero (some a) = a

target_of : Option TxReceipt → Option Message → ℕ
unfolding or_zero
target_of (some r) m = r.to
target_of none (some m) = or_zero m.to
target_of none none = 0

unfoldable pub to : Receipt → ℕ
unfolding target_of
to r = target_of r.receipt r.message

-- a log with topics, the first of which is the one searched for
pub first_topic : ℕ → List ℕ → Bool
first_topic topic [] = false
first_topic topic (t ∷ ts) = topic == t

unfoldable pub has_topic : ℕ → List Log → Bool
unfolding first_topic
has_topic topic [] = false
has_topic topic (l ∷ logs) = first_topic topic l.topics || has_topic topic logs

-- `Match`: the first condition that is set decides; `none` is ErrFilterCond
match_logs : Option (List Log → Bool) → Receipt → Option Bool
unfolding logs_of
match_logs (some test) r = some (test (logs_of r))
match_logs none r = none

match_topic : Option ℕ → Option (List Log → Bool) → Receipt → Option Bool
unfolding match_logs has_topic
match_topic (some topic) test r = some (has_topic topic (logs_of r))
match_topic none test r = match_logs test r

match_to : Option ℕ → FilterCond → Receipt → Option Bool
unfolding match_topic to
match_to (some a) c r = some (to r == a)
match_to none c r = match_topic c.log_topic c.logs r

match_from : Option ℕ → FilterCond → Receipt → Option Bool
unfolding match_to from
match_from (some a) c r = some (from r == a)
match_from none c r = match_to c.to c r

match_hash : Option ℕ → FilterCond → Receipt → Option Bool
unfolding match_from transaction_hash
match_hash (some h) c r = some (transaction_hash r == h)
match_hash none c r = match_from c.from c r

unfoldable pub match_receipt : Filter → Receipt → Option Bool
unfolding match_hash
match_receipt f r = match_hash f.cond.txn_hash f.cond r
