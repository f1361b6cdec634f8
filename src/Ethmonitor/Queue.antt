-- ===== src/Ethmonitor/Queue.antt =====
-- ethmonitor/pubsub.go, the type `queue` of events to be published, oldest first. Each method holds
-- the lock from its first to its last statement.
pub mod Delivery
pub mod Batches
pub mod Order
pub mod Runs
use ethkit.Prelude.{
  ℕ, ◌+◌, Bool, true, false, ◌&&◌, not, Option, none, some, List, [], ◌∷◌, ◌++◌, get_last?,
  drop_last, length, drop, ltb, ◌==◌, if◌then◌else◌,
}
use ethkit.Ethmonitor.Block.{Event, added, removed, unknown, Block, event_eq, number_u64}

pub data Err : Type 0 where
  not_most_recent unknown_event queue_full : Err

pub record Queue : Type 0 where
  pub events : List Block
  pub cap : ℕ

unfoldable pub new_queue : ℕ → Queue
new_queue cap = record { events = []; cap = cap }

unfoldable pub clear : Queue → Queue
clear q = record q { events = [] }

unfoldable pub len : Queue → ℕ
len q = length q.events

unfoldable pub head : Queue → Option Block
head q = elim q.events [ [] ↦ none | b ∷ bs ↦ some b ]

unfoldable pub tail : Queue → Option Block
tail q = get_last? q.events

-- A removal meets the event at the end of the queue. The inner `switch` has no default.
put_removal : Event → Block → Block → List Block → List Block × Option Err
put_removal added last e q =
    if e.hash == last.hash then (drop_last q, none) else (q, some not_most_recent)
put_removal removed last e q = (q ++ e ∷ [], none)
put_removal (unknown n) last e q = (q, none)

put_removed : Option Block → Block → List Block → List Block × Option Err
unfolding put_removal
put_removed none e q = (q ++ e ∷ [], none)
put_removed (some last) e q = put_removal last.event last e q

put_event : Event → Block → List Block → List Block × Option Err
unfolding put_removed
put_event added e q = (q ++ e ∷ [], none)
put_event removed e q = put_removed (get_last? q) e q
put_event (unknown n) e q = (q, some unknown_event)

-- one round of the loop of `enqueue`
put : Block → List Block → List Block × Option Err
unfolding put_event
put e q = put_event e.event e q

-- an error ends the loop, and what was appended stays
put_next : Option Err → List Block × Option Err → List Block → List Block × Option Err
put_next none rest q = rest
put_next (some x) rest q = (q, some x)

put_all : List Block → List Block → List Block × Option Err
unfolding put put_next
put_all [] q = (q, none)
put_all (e ∷ es) q = let (q', err) = put e q in let rest = put_all es q' in put_next err rest q'

check_cap : Option Err → ℕ → List Block → Option Err
check_cap (some x) cap events = some x
check_cap none cap events = if ltb cap (length events) then some queue_full else none

unfoldable pub enqueue : List Block → Queue → Queue × Option Err
unfolding put_all check_cap
enqueue es q =
    let (events, err) = put_all es q.events in
    (record q { events = events }, check_cap err q.cap events)

-- one round of the loop of `dequeue`: `rest` is what the later rounds collect, and the tests are
-- whether the event is ready and whether it is past the limit
collect : Bool → Bool → Block → List Block → List Block
collect false past e rest = []
collect true true e rest = []
collect true false e rest = e ∷ rest

ready : ℕ → List Block → List Block
unfolding collect
ready max_num [] = []
ready max_num (e ∷ es) =
    collect e.ok (ltb 0 max_num && ltb max_num (number_u64 e)) e (ready max_num es)

hand_out : Option Block → List Block → Queue → Queue × Option (List Block)
hand_out none events q = (q, none)
hand_out (some last) events q =
    if not (event_eq last.event added)
    then (q, none)
    else (record q { events = drop (length events) q.events }, some events)

-- `none` is the source's `Blocks{}, false`
unfoldable pub dequeue : ℕ → Queue → Queue × Option (List Block)
unfolding ready hand_out
dequeue max_num q = let events = ready max_num q.events in hand_out (get_last? events) events q
