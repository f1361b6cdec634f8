-- ===== src/Ethmonitor/Tests/QueueTests.antt =====
-- The queue's theorems at a queue that a reorg passes through.
use ethkit.Prelude.{ℕ, ◌≤◌, ◌≡◌, ◌↔◌, refl, none, some, List, [], ◌∷◌, length, All}
use ethkit.Ethmonitor.Replay.{play, effect}
use ethkit.Ethmonitor.Queue.{Queue, Err, queue_full, new_queue, enqueue, dequeue}
use ethkit.Ethmonitor.Queue.Delivery.{enqueue-play}
use ethkit.Ethmonitor.Queue.Batches.{IsDue, EndsAdded, Stops, dequeue_batch}
use ethkit.Ethmonitor.Queue.Order.{RemovalsFirst, enqueue-RemovalsFirst}
use ethkit.Ethmonitor.Queue.Runs.{Feed, Run, start, enter, leave, Run-play}
use ethkit.Ethmonitor.Tests.{first, second, third, rival, third_removed}

abbrev waiting : Queue
waiting = record { events = first ∷ third ∷ []; cap = 4 }

-- The removal of `third` meets its addition in the queue.
enqueue-play_example :
    (play (enqueue (third_removed ∷ rival ∷ []) waiting).0.events [] ≡ some (4 ∷ 1 ∷ []))
    × (((enqueue (third_removed ∷ rival ∷ []) waiting).1 ≡ none)
        ↔ (length (enqueue (third_removed ∷ rival ∷ []) waiting).0.events ≤ 4))
    × ((x : Err) → (enqueue (third_removed ∷ rival ∷ []) waiting).1 ≡ some x → x ≡ queue_full)
unfolding play effect
enqueue-play_example = enqueue-play (third_removed ∷ rival ∷ []) waiting [] (4 ∷ 1 ∷ []) refl

cancelled : (enqueue (third_removed ∷ rival ∷ []) waiting).0.events ≡ first ∷ rival ∷ []
unfolding enqueue
cancelled = refl

first_out : (dequeue 0 waiting).1 ≡ some (first ∷ [])
unfolding dequeue
first_out = refl

dequeue_batch_example :
    (waiting.events ≡ first ∷ (dequeue 0 waiting).0.events)
    × All (IsDue 0) (first ∷ [])
    × EndsAdded (first ∷ [])
    × Stops 0 (dequeue 0 waiting).0.events
dequeue_batch_example = dequeue_batch 0 waiting (first ∷ []) first_out

abbrev due : Queue
due = record { events = first ∷ second ∷ []; cap = 4 }

waiting-RemovalsFirst : RemovalsFirst waiting.events
waiting-RemovalsFirst = record {
  removals = [];
  additions = first ∷ third ∷ [];
  split = refl;
  are_removed = tt;
  are_added = (refl, (refl, tt));
}

enqueue-RemovalsFirst_example :
    RemovalsFirst (enqueue (third_removed ∷ rival ∷ []) waiting).0.events
enqueue-RemovalsFirst_example =
    enqueue-RemovalsFirst (third_removed ∷ rival ∷ []) waiting waiting-RemovalsFirst

abbrev entered : Feed
entered = record { queue = (enqueue (first ∷ third ∷ []) (new_queue 4)).0; sent = [] }

abbrev left : Feed
left = record { queue = (dequeue 0 entered.queue).0; sent = first ∷ [] }

run : Run 4 (first ∷ third ∷ []) left
unfolding enqueue dequeue new_queue
run =
    leave {f = entered} 0 (first ∷ [])
      (enter {f = record { queue = new_queue 4; sent = [] }} (first ∷ third ∷ []) (start refl) refl
        refl)
      refl refl

Run-play_example :
    (middle : List ℕ) × (play left.sent [] ≡ some middle)
    × (play left.queue.events middle ≡ some (3 ∷ 1 ∷ []))
unfolding play effect
Run-play_example = Run-play [] (3 ∷ 1 ∷ []) run refl
