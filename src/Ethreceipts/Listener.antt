-- ===== src/Ethreceipts/Listener.antt =====
-- ethreceipts/ethreceipts.go: the receipts of the monitor's blocks are matched against the filters of
-- every subscriber, and filters that wait too long are taken off. The goroutines of a block work on
-- one subscriber each, and are run one after the other here. The message of a transaction is the
-- vendored library's, a parameter; `none` is an error.
pub mod Logs
pub mod Blocks
pub mod Waiting
use ethkit.Prelude.{
  ℕ, suc, ◌+◌, ◌-◌, ◌*◌, ◌^◌, Bool, true, false, ◌&&◌, ◌||◌, not, Option, none, some, List, [], ◌∷◌,
  ◌++◌, map, ltb, leb, u64, ◌==◌, if◌then◌else◌,
}
use ethkit.Ethmonitor.Types.{Transaction, Log}
use ethkit.Ethmonitor.Block.{Block, removed, event_eq}
use ethkit.Ethreceipts.Types.{Message}
use ethkit.Ethreceipts.Filter.{Filter, Wait, negative, blocks}
use ethkit.Ethreceipts.Receipt.{Receipt}
use ethkit.Ethreceipts.Subscriber.{
  Listener, Subscriber, is_block_final, match_filters, finalize_receipts, all_false, remove_filter,
}

-- the map of `groupLogsByTransaction`, by transaction hash
abbrev pub Groups : Type 0
Groups = List (ℕ × List Log)

unfoldable pub add_log : Log → Groups → Groups
add_log l [] = (l.tx_hash, l ∷ []) ∷ []
add_log l ((h, ls) ∷ gs) = if h == l.tx_hash then (h, ls ++ l ∷ []) ∷ gs else (h, ls) ∷ add_log l gs

group_from : List Log → Groups → Groups
unfolding add_log
group_from [] gs = gs
group_from (l ∷ ls) gs = group_from ls (add_log l gs)

unfoldable pub group_logs_by_transaction : List Log → Groups
unfolding group_from
group_logs_by_transaction ls = group_from ls []

-- no logs where the hash is missing
unfoldable pub logs_of_txn : ℕ → Groups → List Log
logs_of_txn hash [] = []
logs_of_txn hash ((h, ls) ∷ gs) = if h == hash then ls else logs_of_txn hash gs

-- a `uint` of 64 bits
unfoldable pub block_logs_count : ℕ → List Log → ℕ
block_logs_count count [] = count
block_logs_count count (l ∷ ls) =
    block_logs_count (if ltb count (u64 (l.tx_index + 1)) then u64 (l.tx_index + 1) else count) ls

-- a subscriber with the filters it had when the blocks came, and the matches of those
pub record Work : Type 0 where
  pub subscriber : Subscriber
  pub filters : List Filter
  pub oks : List Bool

abbrev pub start_work : Subscriber → Work
start_work s = record { subscriber = s; filters = s.filters; oks = all_false s.filters }

or_empty : Option (List Log) → List Log
or_empty none = []
or_empty (some ls) = ls

module _ (as_message : Transaction → Option Message) where
  make_receipt : Listener → Block → Groups → Transaction → Receipt
  unfolding logs_of_txn is_block_final
  make_receipt l b gs t = record {
    filter = none;
    final = is_block_final l (some b.number);
    reorged = event_eq b.event removed;
    transaction = some t;
    message = as_message t;
    receipt = none;
    logs = logs_of_txn t.hash gs;
  }

  unfoldable pub block_receipts : Listener → Block → List Receipt
  unfolding make_receipt group_logs_by_transaction or_empty
  block_receipts l b =
      map (make_receipt l b (group_logs_by_transaction (or_empty b.logs))) b.transactions

  process_one : Listener → Block → Work → Work
  unfolding block_receipts match_filters finalize_receipts
  process_one l b w =
      let (s, oks, e) = match_filters l w.filters (block_receipts l b) w.subscriber in
      record w { subscriber = finalize_receipts b.number s; oks = oks }

  unfoldable pub process_blocks : Listener → List Block → List Work → List Work
  unfolding process_one
  process_blocks l [] ws = ws
  process_blocks l (b ∷ bs) ws = process_blocks l bs (map (process_one l b) ws)

-- `uint64` of an `int`
to_u64 : Wait → ℕ
to_u64 (negative k) = u64 (2 ^ 64 - 1 - k)
to_u64 (blocks n) = u64 n

-- the option of the listener is converted as it is, also where it is negative
unfoldable pub get_max_wait_blocks : Listener → Option Wait → ℕ
unfolding to_u64
get_max_wait_blocks l none = to_u64 l.filter_max_wait_num_blocks
get_max_wait_blocks l (some (negative k)) = u64 (l.num_blocks_to_finality * 2)
get_max_wait_blocks l (some (blocks n)) = u64 n

-- the filter was seen in a block
abbrev pub note_match : Bool → ℕ → Filter → Filter
note_match matched latest f = record f {
  start_block_num = if f.start_block_num == 0 then latest else f.start_block_num;
  last_match_block_num = if matched then latest else f.last_match_block_num;
}

-- whether a filter without a match has waited for too long; the difference of two uint64 wraps around
unfoldable pub is_overdue : Listener → ℕ → Filter → Bool
unfolding get_max_wait_blocks
is_overdue l latest f =
    let max_wait = get_max_wait_blocks l f.options.max_wait in
    let since = l.max f.start_block_num f.last_match_block_num in
    not (max_wait == 0)
    && leb max_wait (u64 (latest + 2 ^ 64 - since))
    && (f.options.limit_one && f.last_match_block_num == 0 || not f.options.limit_one)

-- one round of the exhaust check: the filter afterwards, and whether it is taken off
unfoldable pub check_exhausted : Listener → ℕ → Bool → Filter → Filter × Bool
unfolding is_overdue
check_exhausted l latest matched f =
    if matched || f.start_block_num == 0
    then (note_match matched latest f, false)
    else if is_overdue l latest f
    then (record f { exhausted = true }, true)
    else (f, false)

-- in case of a reorg
abbrev pub restart : ℕ → Filter → Filter
restart latest f = record f { start_block_num = latest; last_match_block_num = 0 }
