-- ===== src/Ethmonitor/Publish/Runs.antt =====
-- `publish` is a run of the queue.
use ethkit.Prelude.{
  ℕ, ◌≡◌, ◌≢◌, refl, sym, ap, ◌∙◌, Option, none, some, List, [], ◌∷◌, ◌++◌, append_assoc,
  append-nil, length, ◌==◌, ==_iff, Option-cases, Bool-cases, inl, inr,
}
use ethkit.Ethmonitor.Block.{Block}
use ethkit.Ethmonitor.Queue as Queues
use ethkit.Ethmonitor.Queue.{Queue, enqueue, dequeue}
use ethkit.Ethmonitor.Queue.Batches.{dequeue_nothing}
use ethkit.Ethmonitor.Queue.Runs.{Feed, Run, enter, leave}
use ethkit.Ethmonitor.Publish.{
  Publisher, nil_dereference, publish_batch, publish_next, publish_up_to, max_block_num, publish,
}

-- the batches, one after the other
abbrev pub joined : List (List Block) → List Block
joined [] = []
joined (b ∷ bs) = b ++ joined bs

joined-snoc :
    (bs : List (List Block)) (out : List Block) → joined (bs ++ out ∷ []) ≡ joined bs ++ out
joined-snoc [] out = append-nil out
joined-snoc (b ∷ bs) out =
    ap (λ l. b ++ l) (joined-snoc bs out) ∙ sym (append_assoc b (joined bs) out)

abbrev pub feed_of : Publisher → Feed
feed_of p = record { queue = p.queue; sent = joined p.published }

publish_next-Run :
    {cap : ℕ} {raw : List Block} (err : Option Queues.Err) (max_num : ℕ) (p : Publisher)
    → Run cap raw (feed_of p)
    → Run cap raw (feed_of (publish_next err max_num p).0)
unfolding publish_next publish_batch
publish_next-Run (some x) max_num p r = r
publish_next-Run {cap} {raw} none max_num p r = elim (Option-cases (dequeue max_num p.queue).1) [
  | inl e ↦ rw (e, publish_batch, dequeue_nothing max_num p.queue e) r
  | inr (out, e) ↦
      rw (e, publish_batch)
        (leave max_num out r e (λ i. record {
          queue = (dequeue max_num p.queue).0;
          sent = joined-snoc p.published out i;
        }))
]

publish_up_to-Run :
    {cap : ℕ} {raw : List Block} (limit : Option ℕ) (events : List Block) (p : Publisher)
    → (publish_up_to limit events p).1 ≢ some nil_dereference
    → Run cap raw (feed_of p)
    → Run cap (raw ++ events) (feed_of (publish_up_to limit events p).0)
unfolding publish_up_to
publish_up_to-Run none events p ne r = absurd (ne refl)
publish_up_to-Run (some max_num) events p ne r =
    publish_next-Run (enqueue events p.queue).1 max_num
      (record p { queue = (enqueue events p.queue).0 }) (enter events r refl refl)

-- While there are subscribers, `publish` goes on with a run of the queue, also where it ends with an
-- error of the queue: the given events go in, and what is sent on the channel is what the run has
-- sent. The one exception is the nil head that is read for the trail-behind limit.
pub publish-Run :
    {cap : ℕ} {raw : List Block} (trail : ℕ) (head : Option Block) (events : List Block)
    (p : Publisher)
    → length p.subscribers ≢ 0
    → (publish trail head events p).1 ≢ some nil_dereference
    → Run cap raw (feed_of p)
    → Run cap (raw ++ events) (feed_of (publish trail head events p).0)
unfolding publish
publish-Run trail head events p some_sub ne r = elim (Bool-cases (length p.subscribers == 0)) [
  | inl t ↦ absurd (some_sub ((==_iff _ _).0 t))
  | inr t ↦ rw t (publish_up_to-Run (max_block_num trail head) events p (rw t at ne) r)
]
