-- ===== src/Ethmonitor/Tests/CycleTests.antt =====
-- The loop meets the reorg: one round takes `third` off and adds `rival` and its follower.
use ethkit.Prelude.{ℕ, ◌≡◌, refl, subst, Bool, true, false, none, some, List, [], ◌∷◌, ◌++◌, arith}
use ethkit.Ethmonitor.Block.{Block}
use ethkit.Ethmonitor.Queue.Runs.{start}
use ethkit.Ethmonitor.Replay.{play, effect}
use ethkit.Ethmonitor.Queue.{new_queue, enqueue, dequeue}
use ethkit.Ethmonitor.Publish.{publish}
use ethkit.Ethmonitor.Publish.Runs.{joined}
use ethkit.Ethmonitor.Chain.{items, push, pop}
use ethkit.Ethmonitor.Build.{make_added, make_removed, build_canonical_chain}
use ethkit.Ethmonitor.Build.Events.{hashes, IsSettled}
use ethkit.Ethmonitor.Logs.{add_logs, add_logs_one, backfill_chain_logs}
use ethkit.Ethmonitor.Cycle.{Options, Monitor, Round, goes_on, monitor_round}
use ethkit.Ethmonitor.Cycle.Tracking.{Tracks, Settles, AfterRound}
use ethkit.Ethmonitor.Cycle.Rounds.{monitor_round-Tracks, Rounds, here, then_round, Rounds-play}
use ethkit.Ethmonitor.Tests.{whole, follower, three}
use ethkit.Ethmonitor.Tests.BuildTests.{world, three-IsCanonical}
use ethkit.Ethmonitor.Tests.PublishTests.{node, publisher}

-- No two of these are one object.
abbrev apart : Block → Block → Bool
apart a b = false

abbrev options : Options
options = record { with_logs = true; trail_num_blocks_behind_head = 0; polling_interval = 1000 }

abbrev monitor : Monitor ℕ
monitor = record {
  chain = three;
  events = [];
  publisher = publisher;
  next_block_number = none;
  poll_interval = 1000;
}

abbrev reorg_round : Round
reorg_round = record {
  new_head_num = 103;
  fetched = some (follower, none, false);
  world = world;
  logs_world = node;
  fuel = 4;
}

round-Settles : Settles reorg_round monitor
unfolding build_canonical_chain push pop make_added
round-Settles next payload miss e =
    subst
      (λ o. elim o [
        | none ↦ Unit
        | some x ↦ IsSettled (build_canonical_chain 4 world x.0 x.1 [] three).err
      ])
      e tt

goes : (monitor_round apart options reorg_round monitor).1 ≡ goes_on
unfolding monitor_round build_canonical_chain push pop make_added make_removed publish enqueue
    dequeue new_queue add_logs add_logs_one backfill_chain_logs
goes = refl

abbrev after : Monitor ℕ
after = (monitor_round apart options reorg_round monitor).0

one_round : Rounds apart options monitor after
one_round =
    then_round reorg_round (here refl) round-Settles
      (λ i. ((monitor_round apart options reorg_round monitor).0, goes i))

Rounds-play_example :
    (middle old : List ℕ) × (play (joined after.publisher.published) (hashes (items three))
      ≡ some middle)
    × (play (after.publisher.queue.events ++ after.events) middle
        ≡ some (hashes (items after.chain) ++ old))
Rounds-play_example =
    Rounds-play apart (λ a b e. cc) 4 three-IsCanonical refl refl refl
      (λ e. absurd (omega (arith, e))) one_round

-- What was sent: the removal, and the two blocks of the other branch.
all_sent :
    play (joined after.publisher.published) (hashes (items three)) ≡ some (5 ∷ 4 ∷ 2 ∷ 1 ∷ [])
unfolding play effect monitor_round build_canonical_chain push pop make_added make_removed publish
    enqueue dequeue new_queue add_logs add_logs_one backfill_chain_logs
all_sent = refl

Tracks-at_start : Tracks 4 (hashes (items three)) monitor
unfolding play
Tracks-at_start = record {
  canonical = three-IsCanonical;
  listened = λ e. absurd (omega (arith, e));
  raw = [];
  run = start refl;
  old = [];
  plays = refl;
}

monitor_round-Tracks_example :
    AfterRound 4 (hashes (items three)) after (monitor_round apart options reorg_round monitor).1
monitor_round-Tracks_example =
    monitor_round-Tracks apart (λ a b e. cc) 4 (hashes (items three)) options reorg_round monitor
      round-Settles Tracks-at_start
