-- ===== src/Ethmonitor/Chain.antt =====
-- ethmonitor/chain.go, the type `Chain`, and `LatestFinalBlock` and `PurgeHistory` of
-- ethmonitor/ethmonitor.go, which read and write its blocks. The list holds the slice, oldest first.
-- A method that changes the chain returns it with the error, if any; a lock is held from the first
-- to the last statement of each method, so each is one step.
pub mod Invariant
pub mod Lookup
pub mod Bootstrap
use ethkit.Prelude.{
  ℕ, suc, ◌+◌, ◌-◌, ◌^◌, Bool, true, false, ◌&&◌, Option, none, some, List, [], ◌∷◌, ◌++◌, reverse,
  get_last?, drop_last, length, get_elem?, take, drop, u64, ltb, ◌==◌, if◌then◌else◌,
}
use ethkit.Ethmonitor.Types.{Transaction}
use ethkit.Ethmonitor.Block.{Event, Block, event_eq, number_u64, find_back, find_block, added}

pub data Err : Type 0 where
  unexpected_parent_hash unexpected_block_number : Err
  not_bootstrap_mode already_bootstrapped : Err

-- The float64 operations that the average block time takes.
pub record Float64 (F : Type 0) : Type 0 where
  pub zero : F
  pub is_zero : F → Bool
  pub of_u64 : ℕ → F
  pub add : F → F → F
  pub half : F → F

-- `blocks` is `none` where the slice is nil.
pub record Chain (F : Type 0) : Type 0 where
  pub blocks : Option (List Block)
  pub retention_limit : ℕ
  pub bootstrap_mode : Bool
  pub average_block_time : F

abbrev pub slice : Option (List Block) → List Block
slice none = []
slice (some bs) = bs

abbrev pub items : {F : Type 0} → Chain F → List Block
items c = slice c.blocks

module _ {F : Type 0} ⦃fl : Float64 F⦄ where
  unfoldable pub new_chain : ℕ → Bool → Chain F
  new_chain limit bootstrap = record {
    blocks = if bootstrap then none else some [];
    retention_limit = if ltb limit 10 then 10 else limit;
    bootstrap_mode = bootstrap;
    average_block_time = fl.zero;
  }

  -- `append`, then the oldest block is dropped where the limit is passed
  append_block : Block → Chain F → Chain F
  append_block b c =
      let bs = items c ++ b ∷ [] in
      record c { blocks = some (if ltb c.retention_limit (length bs) then drop 1 bs else bs) }

  -- the difference of two uint64 wraps around
  update_time : Block → Block → Chain F → Chain F
  update_time next top c =
      let dt = fl.of_u64 (u64 (next.time + 2 ^ 64 - top.time)) in
      record c {
        average_block_time =
            if fl.is_zero c.average_block_time
            then dt
            else fl.half (fl.add c.average_block_time dt);
      }

  push_onto : Option Block → Block → Chain F → Chain F × Option Err
  unfolding append_block update_time
  push_onto none next c = (append_block next c, none)
  push_onto (some top) next c =
      if next.parent_hash == top.hash
      then if number_u64 next == u64 (number_u64 top + 1)
        then (append_block next (update_time next top c), none)
        else (c, some unexpected_block_number)
      else (c, some unexpected_parent_hash)

  unfoldable pub push : Block → Chain F → Chain F × Option Err
  unfolding push_onto
  push next c = push_onto (get_last? (items c)) next c

-- The loop of `Blocks()`. The list is the part of the chain not seen yet, newest first, so the
-- index `i` of its first element is the length of the rest; `stop` is the source's `last + 1`.
ready_stop : List Block → ℕ → ℕ
ready_stop [] stop = stop
ready_stop (b ∷ older) stop = if b.ok then stop else ready_stop older (length older + 1)

ready_part : List Block → List Block
unfolding ready_stop
ready_part bs = take (ready_stop (reverse bs) (length bs)) bs

module _ {F : Type 0} where
  pop_from : Option Block → Chain F → Chain F × Option Block
  pop_from none c = (c, none)
  pop_from (some b) c = (record c { blocks = some (drop_last (items c)) }, some b)

  unfoldable pub pop : Chain F → Chain F × Option Block
  unfolding pop_from
  pop c = pop_from (get_last? (items c)) c

  unfoldable pub blocks : Chain F → List Block
  unfolding ready_part
  blocks c = ready_part (items c)

  unfoldable pub ready_head : Chain F → Option Block
  unfolding find_back
  ready_head c = find_back (λ b. b.ok) (items c)

  unfoldable pub get_block : ℕ → Chain F → Option Block
  unfolding find_block
  get_block hash c = find_block (items c) hash none

  unfoldable pub get_block_by_number : ℕ → Event → Chain F → Option Block
  unfolding find_back
  get_block_by_number num event c =
      find_back (λ b. number_u64 b == num && event_eq b.event event) (items c)

  -- LatestFinalBlock: `numBlocksToFinality` is not negative
  unfoldable pub latest_final_block : ℕ → Chain F → Option Block
  latest_final_block n c =
      let len = length (items c) in
      if ltb len (n + 1) then none else get_elem? (items c) (len - n - 1)

  -- PurgeHistory: `blocks[1:1]` is empty
  unfoldable pub purge_history : Chain F → Chain F
  purge_history c = if ltb 1 (length (items c)) then record c { blocks = some [] } else c

find_txn : ℕ → List Transaction → Option Transaction
find_txn hash [] = none
find_txn hash (t ∷ ts) = if t.hash == hash then some t else find_txn hash ts

mined_in : Block → Option Transaction → Option (Transaction × Event) → Option (Transaction × Event)
mined_in b none rest = rest
mined_in b (some t) rest = some (t, b.event)

-- the blocks newest first
find_mined : ℕ → List Block → Option (Transaction × Event)
unfolding find_txn mined_in
find_mined hash [] = none
find_mined hash (b ∷ older) = mined_in b (find_txn hash b.transactions) (find_mined hash older)

-- GetTransaction; the source's `nil, 0` is `none`
unfoldable pub get_transaction : {F : Type 0} → ℕ → Chain F → Option (Transaction × Event)
unfolding find_mined
get_transaction hash c = find_mined hash (reverse (items c))
