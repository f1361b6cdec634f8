-- ===== src/Ethmonitor/Logs.antt =====
-- ethmonitor/ethmonitor.go, `addLogs` and `backfillChainLogs`: the logs of the blocks are fetched, and
-- a block is ready once they are there. The source changes the blocks in place, and whoever else holds
-- them sees the change; here the changed blocks come back. What the context and `filterLogs`, which
-- asks the cache or the provider, answer is a `LogsWorld`.
pub mod Fills
pub mod Keeps
use ethkit.Prelude.{
  ℕ, ◌+◌, Bool, true, false, ◌&&◌, ◌||◌, not, Option, none, some, List, [], ◌∷◌, reverse, length,
  ltb, ◌==◌, if◌then◌else◌,
}
use ethkit.Ethmonitor.Types.{Log}
use ethkit.Ethmonitor.Block.{Event, added, removed, unknown, Block, event_eq, find_block}
use ethkit.Ethmonitor.Build.{Payload}

pub record LogsWorld : Type 0 where
  -- whether the context is done at a block, by the number of blocks that are left
  pub is_done : ℕ → Bool
  -- the same check in the `addLogs` that `backfillChainLogs` calls
  pub is_done_inside : ℕ → Bool
  -- filterLogs by block hash; the logs may be nil, and `none` is an error
  pub filter_logs : ℕ → Option (Option (List Log) × Payload)
  pub retain_payloads : Bool

pub some_logs : Option (List Log) → List Log
some_logs none = []
some_logs (some ls) = ls

-- mark for backfilling
mark : Block → Block
mark b = record b { logs = none; ok = false }

-- an empty bloom expects no logs
take_logs : LogsWorld → Option (Option (List Log) × Payload) → Block → Block
unfolding some_logs mark
take_logs w none b = mark b
take_logs w (some (logs, payload)) b =
    if ltb 0 (length (some_logs logs)) || b.bloom == 0
    then record b {
      logs = some (some_logs logs);
      logs_payload = if w.retain_payloads then payload else none;
      ok = true;
    }
    else mark b

-- the first argument is whether the block is ready, and the second whether it was removed
fill_block : Bool → Bool → LogsWorld → Block → Block
unfolding take_logs
fill_block true gone w b = b
fill_block false true w b = record b { ok = true }
fill_block false false w b = take_logs w (w.filter_logs b.hash) b

-- one round of the loop of `addLogs`
unfoldable pub add_logs_one : LogsWorld → Block → Block
unfolding fill_block
add_logs_one w b = fill_block b.ok (event_eq b.event removed) w b

unfoldable pub add_logs : LogsWorld → List Block → List Block
unfolding add_logs_one
add_logs w [] = []
add_logs w (b ∷ bs) =
    let rest = add_logs w bs in
    if w.is_done (length (b ∷ bs)) then b ∷ bs else add_logs_one w b ∷ rest

is_new : List Block → Block → Bool
is_new new_blocks b =
    ltb 0 (length new_blocks)
    && elim (find_block new_blocks b.hash none) [ none ↦ false | some x ↦ true ]

-- `m.addLogs(ctx, Blocks{blocks[i]})`
add_logs_to : Bool → LogsWorld → Block → Block
unfolding add_logs_one
add_logs_to true w b = b
add_logs_to false w b = add_logs_one w b

-- one round of the loop of `backfillChainLogs`, with whether the context is done inside `addLogs`; the
-- other two are whether the block is among the new ones, and whether it is ready
backfill_one : Bool → Bool → Bool → LogsWorld → Block → Block
unfolding add_logs_to
backfill_one done true ready w b = b
backfill_one done false true w b = b
backfill_one done false false w b = add_logs_to done w b

-- from the newest block back; the list is newest first
backfill_back : LogsWorld → List Block → List Block → List Block
unfolding backfill_one is_new
backfill_back w new_blocks [] = []
backfill_back w new_blocks (b ∷ bs) =
    let rest = backfill_back w new_blocks bs in
    if w.is_done (length (b ∷ bs))
    then b ∷ bs
    else backfill_one (w.is_done_inside (length (b ∷ bs))) (is_new new_blocks b) b.ok w b ∷ rest

unfoldable pub backfill_chain_logs : LogsWorld → List Block → List Block → List Block
unfolding backfill_back
backfill_chain_logs w new_blocks blocks = reverse (backfill_back w new_blocks (reverse blocks))
