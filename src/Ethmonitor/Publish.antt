-- ===== src/Ethmonitor/Publish.antt =====
-- ethmonitor/ethmonitor.go, `publish`, `broadcast`, `Subscribe`, `Unsubscribe` and `UnsubscribeAll`. A
-- channel is the list of what was sent on it, and a subscriber is known by its pointer.
pub mod Outcome
pub mod Runs
use ethkit.Prelude.{
  ℕ, ◌+◌, ◌-◌, ◌^◌, Bool, true, false, Option, none, some, List, [], ◌∷◌, ◌++◌, map, length, ltb,
  u64, ◌==◌, if◌then◌else◌,
}
use ethkit.Ethmonitor.Block.{Block, number_u64}
use ethkit.Ethmonitor.Queue as Queues
use ethkit.Ethmonitor.Queue.{Queue, enqueue, dequeue}

pub record Subscriber : Type 0 where
  pub address : ℕ
  pub sent : List (List Block)

pub record Publisher : Type 0 where
  pub queue : Queue
  pub subscribers : List Subscriber
  -- what was sent on `publishCh`
  pub published : List (List Block)

pub data Err : Type 0 where
  nil_dereference : Err
  queue_error : Queues.Err → Err

-- `subscriber := &subscriber{...}` at a fresh pointer
unfoldable pub subscribe : ℕ → Publisher → Publisher
subscribe address p = record p {
  subscribers = p.subscribers ++ record { address = address; sent = [] } ∷ [];
}

-- the first subscriber at that pointer is taken out
unfoldable pub remove_subscriber : ℕ → List Subscriber → List Subscriber
remove_subscriber address [] = []
remove_subscriber address (s ∷ ss) =
    if s.address == address then ss else s ∷ remove_subscriber address ss

unfoldable pub unsubscribe : ℕ → Publisher → Publisher
unfolding remove_subscriber
unsubscribe address p = record p { subscribers = remove_subscriber address p.subscribers }

-- the subscribers at the time of the call
unsubscribe_each : List Subscriber → Publisher → Publisher
unfolding unsubscribe
unsubscribe_each [] p = p
unsubscribe_each (s ∷ ss) p = unsubscribe_each ss (unsubscribe s.address p)

unfoldable pub unsubscribe_all : Publisher → Publisher
unfolding unsubscribe_each
unsubscribe_all p = unsubscribe_each p.subscribers p

abbrev pub num_subscribers : Publisher → ℕ
num_subscribers p = length p.subscribers

send_events : List Block → Subscriber → Subscriber
send_events events s = record s { sent = s.sent ++ events ∷ [] }

unfoldable pub broadcast : List Block → Publisher → Publisher
unfolding send_events
broadcast events p = record p { subscribers = map (send_events events) p.subscribers }

-- the trail-behind limit; `none` is a nil head, whose number is read
max_block_num : ℕ → Option Block → Option ℕ
max_block_num trail head =
    if ltb 0 trail
    then elim head [ none ↦ none | some b ↦ some (u64 (number_u64 b + 2 ^ 64 - trail)) ]
    else some 0

-- a batch goes out where `dequeue` gives one
publish_batch : Option (List Block) → Publisher → Publisher
publish_batch none p = p
publish_batch (some out) p = record p { published = p.published ++ out ∷ [] }

publish_next : Option Queues.Err → ℕ → Publisher → Publisher × Option Err
unfolding publish_batch
publish_next (some x) max_num p = (p, some (queue_error x))
publish_next none max_num p =
    let (q, out) = dequeue max_num p.queue in (publish_batch out (record p { queue = q }), none)

publish_up_to : Option ℕ → List Block → Publisher → Publisher × Option Err
unfolding publish_next
publish_up_to none events p = (p, some nil_dereference)
publish_up_to (some max_num) events p =
    let (q, err) = enqueue events p.queue in publish_next err max_num (record p { queue = q })

unfoldable pub publish : ℕ → Option Block → List Block → Publisher → Publisher × Option Err
unfolding publish_up_to max_block_num
publish trail head events p =
    if length p.subscribers == 0
    then (p, none)
    else publish_up_to (max_block_num trail head) events p
