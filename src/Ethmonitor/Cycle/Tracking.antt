-- ===== src/Ethmonitor/Cycle/Tracking.antt =====
-- The events of the loop keep up with the chain.
use ethkit.Prelude.{
  ℕ, ◌≡◌, ◌≢◌, refl, sym, ap, ◌∙◌, Bool, true, false, some, List, [], ◌∷◌, ◌++◌, map, get_last?,
  length, >>=-eq-some, arith,
}
use ethkit.Ethmonitor.Types.{EthBlock}
use ethkit.Ethmonitor.Block.{Event, added, removed, unknown, Block}
use ethkit.Ethmonitor.Replay.{undo, effect, play}
use ethkit.Ethmonitor.Queue as Queues
use ethkit.Ethmonitor.Queue.{enqueue}
use ethkit.Ethmonitor.Queue.Runs.{Run, refresh}
use ethkit.Ethmonitor.Chain.{Float64, items}
use ethkit.Ethmonitor.Chain.Invariant.{IsCanonical}
use ethkit.Ethmonitor.Build.{Payload, build_canonical_chain}
use ethkit.Ethmonitor.Build.Events.{hashes, IsSettled}
use ethkit.Ethmonitor.Logs.{LogsWorld, add_logs, backfill_chain_logs}
use ethkit.Ethmonitor.Logs.Keeps.{identity, backfill_chain_logs_keeps}
use ethkit.Ethmonitor.Publish.{queue_error}
use ethkit.Ethmonitor.Publish.Runs.{feed_of}
use ethkit.Ethmonitor.Cycle.{
  Monitor, Round, Flow, goes_on, stops, set_blocks, share_events, share_blocks, fill_in, clear_logs,
}
use ethkit.Ethmonitor.Cycle.Shares.{
  SameBlocks, SameBlocks-get_last?, SameBlocks-trans, SameBlocks-of_map, SameBlocks-play,
  SameBlocks-hashes, SameBlocks-length, SameBlocks-append, SameBlocks-SameEvents, Linked-SameBlocks,
  SameBlocks-add_logs, SameBlocks-clear_logs, SameBlocks-shared,
}

effect_under :
    (e : Event) (h : ℕ) (s t old : List ℕ)
    → effect e h s ≡ some t
    → effect e h (s ++ old) ≡ some (t ++ old)
unfolding effect undo
effect_under added h s t old p = ground arith
effect_under removed h [] t old p = cc
effect_under removed h (x ∷ s) t old p = ground arith
effect_under (unknown n) h s t old p = cc

-- Blocks below those that a stream needs stay below.
pub play_under :
    (es : List Block) (s t old : List ℕ) → play es s ≡ some t → play es (s ++ old) ≡ some (t ++ old)
unfolding play
play_under [] s t old h = ground arith
play_under (e ∷ es) s t old h =
    let (m, first, rest) = >>=-eq-some (effect e.event e.hash s) (play es) t h in
    rw (effect_under e.event e.hash s m old first) (play_under es m t old rest)

-- What a subscriber makes of all that went into the queue, and of the events that the loop still
-- holds, are the chain's blocks, on top of blocks older than the retention limit keeps.
pub record Tracks {F : Type 0} (cap : ℕ) (s : List ℕ) (m : Monitor F) : Type 0 where
  pub canonical : IsCanonical m.chain
  pub listened : length m.publisher.subscribers ≢ 0
  pub raw : List Block
  pub run : Run cap raw (feed_of m.publisher)
  pub old : List ℕ
  pub plays : play (raw ++ m.events) s ≡ some (hashes (items m.chain) ++ old)

-- The block could be chained, or it or a parent could not be fetched.
abbrev pub Settles : {F : Type 0} → ⦃fl : Float64 F⦄ → Round → Monitor F → Type 0
Settles r m =
    (next : EthBlock) (payload : Payload) (miss : Bool)
    → r.fetched ≡ some (next, payload, miss)
    → IsSettled (build_canonical_chain r.fuel r.world next payload m.events m.chain).err

-- The loop goes on and keeps track, or it stops at the full queue.
abbrev pub AfterRound : {F : Type 0} → ℕ → List ℕ → Monitor F → Flow → Type 0
AfterRound cap s m goes_on = Tracks cap s m
AfterRound cap s m (stops e) = e ≡ queue_error Queues.queue_full

Tracks-refresh :
    {F : Type 0} {cap : ℕ} {s : List ℕ} (m : Monitor F) (bs es qs : List Block)
    → SameBlocks (items m.chain) bs
    → SameBlocks m.events es
    → SameBlocks m.publisher.queue.events qs
    → Tracks cap s m
    → Tracks cap s (record m {
      chain = set_blocks bs m.chain;
      events = es;
      publisher = record m.publisher { queue = record (m.publisher.queue) { events = qs } };
    })
Tracks-refresh {s = s} m bs es qs sb se sq t = record {
  canonical = record {
    linked = Linked-SameBlocks (items m.chain) bs sb t.canonical.linked;
    within = omega (arith, SameBlocks-length (items m.chain) bs sb, t.canonical.within);
    room = t.canonical.room;
  };
  listened = t.listened;
  raw = t.raw;
  run = refresh qs t.run (SameBlocks-SameEvents m.publisher.queue.events qs sq) refl;
  old = t.old;
  plays =
      sym (
        SameBlocks-play (t.raw ++ m.events) (t.raw ++ es) s
          (SameBlocks-append t.raw m.events es se))
      ∙ t.plays
      ∙ ap (λ l. some (l ++ t.old)) (SameBlocks-hashes (items m.chain) bs sb);
}

module _ (is_same : Block → Block → Bool)
    (agree : (a b : Block) → is_same a b ≡ true → identity a ≡ identity b) where
  module _ {F : Type 0} (cap : ℕ) (s : List ℕ) where
    pub fill_in-Tracks :
        (with_logs : Bool) (w : LogsWorld) (m : Monitor F)
        → Tracks cap s m
        → Tracks cap s (fill_in is_same with_logs w m)
    unfolding fill_in share_events share_blocks
    fill_in-Tracks true w m t =
        let es = add_logs w m.events in
        let m' = share_events is_same es m in
        let blocks = backfill_chain_logs w m'.events (items m'.chain) in
        let filled =
          Tracks-refresh m _ es _ (SameBlocks-shared is_same agree es (items m.chain))
            (SameBlocks-add_logs w m.events)
            (SameBlocks-shared is_same agree es m.publisher.queue.events) t in
        Tracks-refresh m' blocks _ _
          (SameBlocks-of_map (items m'.chain) blocks
            (sym (backfill_chain_logs_keeps w m'.events (items m'.chain))))
          (SameBlocks-shared is_same agree blocks m'.events)
          (SameBlocks-shared is_same agree blocks m'.publisher.queue.events) filled
    fill_in-Tracks false w m t =
        let es = map clear_logs m.events in
        Tracks-refresh m _ es _ (SameBlocks-shared is_same agree es (items m.chain))
          (SameBlocks-clear_logs m.events)
          (SameBlocks-shared is_same agree es m.publisher.queue.events) t

  module _ {F : Type 0} where
    fill_in-SameBlocks :
        (with_logs : Bool) (w : LogsWorld) (m : Monitor F)
        → SameBlocks (items m.chain) (items (fill_in is_same with_logs w m).chain)
    unfolding fill_in share_events share_blocks
    fill_in-SameBlocks true w m =
        let m' = share_events is_same (add_logs w m.events) m in
        let blocks = backfill_chain_logs w m'.events (items m'.chain) in
        SameBlocks-trans (items m.chain) (items m'.chain) blocks
          (SameBlocks-shared is_same agree (add_logs w m.events) (items m.chain))
          (SameBlocks-of_map (items m'.chain) blocks
            (sym (backfill_chain_logs_keeps w m'.events (items m'.chain))))
    fill_in-SameBlocks false w m =
        SameBlocks-shared is_same agree (map clear_logs m.events) (items m.chain)

    -- The chain still has a head.
    pub fill_in_head :
        (with_logs : Bool) (w : LogsWorld) (m : Monitor F) (top : Block)
        → get_last? (items m.chain) ≡ some top
        → (top' : Block) × (get_last? (items (fill_in is_same with_logs w m).chain) ≡ some top')
    fill_in_head with_logs w m top e =
        SameBlocks-get_last? (items m.chain) _ top (fill_in-SameBlocks with_logs w m) e
