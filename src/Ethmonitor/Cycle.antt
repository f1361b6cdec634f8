-- ===== src/Ethmonitor/Cycle.antt =====
-- ethmonitor/ethmonitor.go, the loop of `monitor`: one round for each new head. The chain, the events
-- and the queue hold pointers to the same blocks, so a change of a block in one of them shows in the
-- others: `is_same` is whether two of these blocks are one object. What the context, the provider and
-- the cache answer in a round is a `Round`. Pauses and logging have no part in the result.
pub mod Rounds
pub mod Shares
pub mod Tracking
use ethkit.Prelude.{
  ℕ, ◌+◌, ◌/◌, Bool, true, false, ◌&&◌, Option, none, some, List, [], ◌∷◌, map, get_last?, ltb, u64,
  if◌then◌else◌,
}
use ethkit.Ethmonitor.Types.{EthBlock}
use ethkit.Ethmonitor.Block.{Block}
use ethkit.Ethmonitor.Chain.{Chain, Float64, items}
use ethkit.Ethmonitor.Build as Builds
use ethkit.Ethmonitor.Build.{Payload, World, Built, build_canonical_chain}
use ethkit.Ethmonitor.Logs.{LogsWorld, add_logs, backfill_chain_logs}
use ethkit.Ethmonitor.Publish as Publishing
use ethkit.Ethmonitor.Publish.{Publisher, publish}

pub record Options : Type 0 where
  pub with_logs : Bool
  pub trail_num_blocks_behind_head : ℕ
  pub polling_interval : ℕ

pub record Monitor (F : Type 0) : Type 0 where
  pub chain : Chain F
  -- the events sink of the loop
  pub events : List Block
  pub publisher : Publisher
  pub next_block_number : Option ℕ
  pub poll_interval : ℕ

pub record Round : Type 0 where
  pub new_head_num : ℕ
  -- fetchNextBlock: the block, its payload and whether there was a miss; `none` is an error
  pub fetched : Option (EthBlock × Payload × Bool)
  pub world : World
  pub logs_world : LogsWorld
  -- the fuel of buildCanonicalChain
  pub fuel : ℕ

pub data Flow : Type 0 where
  goes_on : Flow
  stops : Publishing.Err → Flow

-- a new head that is below the next block
must_skip : Option ℕ → ℕ → Bool
must_skip none new_head_num = false
must_skip (some n) new_head_num = ltb 0 new_head_num && ltb new_head_num (u64 n)

next_number : Option Block → Option ℕ → Option ℕ
next_number none old = old
next_number (some head) old = some (head.number + 1)

-- 5 milliseconds
abbrev min_loop_interval : ℕ
min_loop_interval = 5000000

unfoldable pub clamp_duration : ℕ → ℕ → ℕ
clamp_duration x y = if ltb y x then x else y

poll_after : Bool → Options → ℕ → ℕ
unfolding clamp_duration
poll_after true options interval = options.polling_interval
poll_after false options interval = clamp_duration min_loop_interval (interval / 4)

-- without logs
pub clear_logs : Block → Block
clear_logs b = record b { logs = none; ok = true }

abbrev pub set_blocks : {F : Type 0} → List Block → Chain F → Chain F
set_blocks bs c = record c { blocks = some bs }

module _ (is_same : Block → Block → Bool) where
  -- a block as it is after a change of `updated`
  pub shared : List Block → Block → Block
  shared [] b = b
  shared (u ∷ us) b = if is_same u b then u else shared us b

  abbrev pub share_queue : List Block → Publisher → Publisher
  share_queue updated p = record p {
    queue = record (p.queue) { events = map (shared updated) p.queue.events };
  }

  module _ {F : Type 0} where
    -- every holder of the events' blocks sees their change
    pub share_events : List Block → Monitor F → Monitor F
    unfolding shared
    share_events events m = record m {
      chain = set_blocks (map (shared events) (items m.chain)) m.chain;
      events = events;
      publisher = share_queue events m.publisher;
    }

    pub share_blocks : List Block → Monitor F → Monitor F
    unfolding shared
    share_blocks blocks m = record m {
      chain = set_blocks blocks m.chain;
      events = map (shared blocks) m.events;
      publisher = share_queue blocks m.publisher;
    }

    -- the logs, under the chain's lock
    pub fill_in : Bool → LogsWorld → Monitor F → Monitor F
    unfolding share_events share_blocks clear_logs
    fill_in true w m =
        let m' = share_events (add_logs w m.events) m in
        share_blocks (backfill_chain_logs w m'.events (items m'.chain)) m'
    fill_in false w m = share_events (map clear_logs m.events) m

    -- the first argument is the error of `publish`
    end_round : Option Publishing.Err → Publisher → Monitor F → Monitor F × Flow
    end_round none p m = (record m { publisher = p; events = [] }, goes_on)
    end_round (some e) p m = (record m { publisher = p }, stops e)

    publish_round : Options → Monitor F → Monitor F × Flow
    unfolding end_round
    publish_round options m =
        let (p, err) =
          publish options.trail_num_blocks_behind_head (get_last? (items m.chain)) m.events
            m.publisher in
        end_round err p m

    -- the first argument is the error of `buildCanonicalChain`
    after_build : Option Builds.Err → Options → LogsWorld → Monitor F → Monitor F × Flow
    unfolding fill_in publish_round
    after_build (some e) options w m = (m, goes_on)
    after_build none options w m = publish_round options (fill_in options.with_logs w m)

    module _ ⦃fl : Float64 F⦄ where
      build_round : Options → Round → EthBlock → Payload → Monitor F → Monitor F × Flow
      unfolding after_build
      build_round options r next payload m =
          let b = build_canonical_chain r.fuel r.world next payload m.events m.chain in
          after_build b.err options r.logs_world (record m { chain = b.chain; events = b.events })

      fetch_round :
          Option (EthBlock × Payload × Bool) → Options → Round → Monitor F → Monitor F × Flow
      unfolding build_round poll_after
      fetch_round none options r m = (m, goes_on)
      fetch_round (some (next, payload, miss)) options r m =
          build_round options r next payload
            (record m { poll_interval = poll_after miss options m.poll_interval })

      -- one round of the loop, from the new head on
      unfoldable pub monitor_round : Options → Round → Monitor F → Monitor F × Flow
      unfolding fetch_round must_skip next_number
      monitor_round options r m =
          if must_skip m.next_block_number r.new_head_num
          then (m, goes_on)
          else fetch_round r.fetched options r (record m {
            next_block_number = next_number (get_last? (items m.chain)) m.next_block_number;
          })
