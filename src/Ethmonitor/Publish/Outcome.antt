-- ===== src/Ethmonitor/Publish/Outcome.antt =====
-- How `publish` ends where there is a head and the events make sense one after the other.
use ethkit.Prelude.{
  ℕ, ◌≡◌, ◌≢◌, refl, ap, ◌∙◌, Option, none, some, List, ◌++◌, length, ◌==◌, ltb, Bool-cases,
  Option-cases, inl, inr,
}
use ethkit.Ethmonitor.Block.{Block}
use ethkit.Ethmonitor.Replay.{play}
use ethkit.Ethmonitor.Queue as Queues
use ethkit.Ethmonitor.Queue.{enqueue, dequeue}
use ethkit.Ethmonitor.Queue.Delivery.{enqueue-play}
use ethkit.Ethmonitor.Publish.{
  Publisher, Err, nil_dereference, queue_error, publish_batch, publish_next, publish_up_to,
  max_block_num, publish,
}

publish_up_to-some :
    (limit : ℕ) (events : List Block) (p : Publisher)
    → (publish_up_to (some limit) events p).1 ≢ some nil_dereference
unfolding publish_up_to publish_next
publish_up_to-some limit events p h = elim (Option-cases (enqueue events p.queue).1) [
  | inl u ↦ cc (rw (u, publish_next) at h)
  | inr (x, u) ↦ cc (rw (u, publish_next) at h)
]

-- A head that is there can be read.
pub publish-some :
    (trail : ℕ) (top : Block) (events : List Block) (p : Publisher)
    → (publish trail (some top) events p).1 ≢ some nil_dereference
unfolding publish max_block_num
publish-some trail top events p h = elim (Bool-cases (length p.subscribers == 0)) [
  | inl u ↦ cc (rw u at h)
  | inr u ↦ elim (Bool-cases (ltb 0 trail)) [
    | inl v ↦ publish_up_to-some _ events p (rw (u, v) at h)
    | inr v ↦ publish_up_to-some 0 events p (rw (u, v) at h)
  ]
]

publish_next-subscribers :
    (o : Option Queues.Err) (max_num : ℕ) (p : Publisher)
    → (publish_next o max_num p).0.subscribers ≡ p.subscribers
unfolding publish_next publish_batch
publish_next-subscribers (some x) max_num p = refl
publish_next-subscribers none max_num p = batch (dequeue max_num p.queue).1
  where
    batch :
        (out : Option (List Block))
        → (publish_batch out (record p { queue = (dequeue max_num p.queue).0 })).subscribers
          ≡ p.subscribers
    batch none = refl
    batch (some out) = refl

publish_up_to-subscribers :
    (limit : Option ℕ) (events : List Block) (p : Publisher)
    → (publish_up_to limit events p).0.subscribers ≡ p.subscribers
unfolding publish_up_to
publish_up_to-subscribers none events p = refl
publish_up_to-subscribers (some limit) events p =
    publish_next-subscribers (enqueue events p.queue).1 limit
      (record p { queue = (enqueue events p.queue).0 })

pub publish-subscribers :
    (trail : ℕ) (top : Option Block) (events : List Block) (p : Publisher)
    → (publish trail top events p).0.subscribers ≡ p.subscribers
unfolding publish
publish-subscribers trail top events p = elim (Bool-cases (length p.subscribers == 0)) [
  | inl u ↦ rw u refl
  | inr u ↦ rw u (publish_up_to-subscribers _ events p)
]

-- `publish` reads a head, and the queue refuses nothing but what it has no room for.
publish_next_err :
    (o : Option Queues.Err) (max_num : ℕ) (p : Publisher) (e : Err)
    → (publish_next o max_num p).1 ≡ some e
    → (x : Queues.Err) × (o ≡ some x) × (e ≡ queue_error x)
unfolding publish_next publish_batch
publish_next_err none max_num p e h = cc
publish_next_err (some x) max_num p e h = (x, refl, cc)

publish_up_to_err :
    (limit : ℕ) (events : List Block) (p : Publisher) (s t : List ℕ) (e : Err)
    → play (p.queue.events ++ events) s ≡ some t
    → (publish_up_to (some limit) events p).1 ≡ some e
    → e ≡ queue_error Queues.queue_full
unfolding publish_up_to
publish_up_to_err limit events p s t e h f =
    let (x, refused, is) =
      publish_next_err (enqueue events p.queue).1 limit
        (record p { queue = (enqueue events p.queue).0 }) e f in
    is ∙ ap queue_error ((enqueue-play events p.queue s t h).2 x refused)

pub publish_err :
    (trail : ℕ) (top : Block) (events : List Block) (p : Publisher) (s t : List ℕ) (e : Err)
    → play (p.queue.events ++ events) s ≡ some t
    → (publish trail (some top) events p).1 ≡ some e
    → e ≡ queue_error Queues.queue_full
unfolding publish max_block_num
publish_err trail top events p s t e h f = elim (Bool-cases (length p.subscribers == 0)) [
  | inl u ↦ cc (rw u at f)
  | inr u ↦ elim (Bool-cases (ltb 0 trail)) [
    | inl v ↦ publish_up_to_err _ events p s t e h (rw (u, v) at f)
    | inr v ↦ publish_up_to_err 0 events p s t e h (rw (u, v) at f)
  ]
]
