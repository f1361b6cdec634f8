-- ===== src/Ethmonitor/Queue/Runs.antt =====
-- Runs of the queue: events go in, batches go out, and queued blocks get their logs, in any order.
use ethkit.Prelude.{ℕ, ◌≡◌, refl, sym, ◌∙◌, some, List, [], ◌∷◌, ◌++◌, ◌>>=◌}
use ethkit.Ethmonitor.Block.{Block}
use ethkit.Ethmonitor.Replay.{effect, play, play_split, play_join}
use ethkit.Ethmonitor.Queue.{Queue, new_queue, enqueue, dequeue}
use ethkit.Ethmonitor.Queue.Batches.{dequeue_batch}
use ethkit.Ethmonitor.Queue.Delivery.{enqueue-play}

-- The queue, and all that was sent to subscribers.
pub record Feed : Type 0 where
  pub queue : Queue
  pub sent : List Block

-- The same blocks with the same events; logs, payloads and readiness may differ. The queue shares
-- its blocks with the chain, where their logs are filled in later.
abbrev pub SameEvents : List Block → List Block → Type 0
SameEvents [] [] = Unit
SameEvents (a ∷ as') (b ∷ bs) = (a.hash ≡ b.hash) × (a.event ≡ b.event) × SameEvents as' bs
SameEvents _ _ = ⊥

pub data Run (cap : ℕ) : List Block → Feed → Type 0 where
  start : {f : Feed} → f ≡ record { queue = new_queue cap; sent = [] } → Run cap [] f
  enter :
      {raw all : List Block} {f g : Feed} (es : List Block)
      → Run cap raw f
      → all ≡ raw ++ es
      → g ≡ record f { queue = (enqueue es f.queue).0 }
      → Run cap all g
  leave :
      {raw : List Block} {f g : Feed} (max_num : ℕ) (out : List Block)
      → Run cap raw f
      → (dequeue max_num f.queue).1 ≡ some out
      → g ≡ record { queue = (dequeue max_num f.queue).0; sent = f.sent ++ out }
      → Run cap raw g
  refresh :
      {raw : List Block} {f g : Feed} (es : List Block)
      → Run cap raw f
      → SameEvents f.queue.events es
      → g ≡ record f { queue = record f.queue { events = es } }
      → Run cap raw g

pub SameEvents-play : (xs ys : List Block) (s : List ℕ) → SameEvents xs ys → play xs s ≡ play ys s
unfolding play
SameEvents-play [] [] s h = refl
SameEvents-play [] (y ∷ ys) s h = absurd h
SameEvents-play (x ∷ xs) [] s h = absurd h
SameEvents-play (x ∷ xs) (y ∷ ys) s (p, q, h) =
    λ i. effect (q i) (p i) s >>= (λ m. SameEvents-play xs ys m h i)

-- After any run on a new queue, in which events enter, batches leave and queued blocks get their
-- logs: if the events that went in make sense to a subscriber, then so do those that were sent, and
-- those sent with those that still wait come to the same blocks.
pub Run-play :
    {cap : ℕ} {raw : List Block} {f : Feed} (s t : List ℕ)
    → Run cap raw f
    → play raw s ≡ some t
    → (middle : List ℕ) × (play f.sent s ≡ some middle) × (play f.queue.events middle ≡ some t)
unfolding new_queue play
Run-play s t (start e) h = rw e (s, refl, h)
Run-play {f} s t (enter {raw = raw} {f = f0} es r e g) h =
    let (m, first, then') = play_split raw es s t (rw e at h) in
    let (m', out, wait) = Run-play s m r first in
    (
      m',
      rw g out,
      rw g (enqueue-play es f0.queue m' t (play_join f0.queue.events es m' m t wait then')).0,
    )
Run-play s t (leave {f = f0} max_num out r d g) h =
    let (m', sent, wait) = Run-play s t r h in
    let split = (dequeue_batch max_num f0.queue out d).0 in
    let (m, batch, rest) =
      play_split out (dequeue max_num f0.queue).0.events m' t (rw (← split) wait) in
    (m, rw g (play_join f0.sent out s m' m sent batch), rw g rest)
Run-play s t (refresh {f = f0} es r same g) h =
    let (m', sent, wait) = Run-play s t r h in
    (m', rw g sent, rw g (sym (SameEvents-play f0.queue.events es m' same) ∙ wait))
