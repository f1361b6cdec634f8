-- ===== src/Ethmonitor/Cycle/Rounds.antt =====
-- One round of the loop, and any number of them.
use ethkit.Prelude.{
  ℕ, ◌≡◌, ◌≢◌, refl, sym, ap, ◌∙◌, subst, Bool, true, Option, none, some, List, [], ◌++◌,
  append_assoc, append-nil, get_last?, length, Bool-cases, inl, inr,
}
use ethkit.Ethmonitor.Types.{EthBlock}
use ethkit.Ethmonitor.Block.{Block}
use ethkit.Ethmonitor.Replay.{play, play_split, play_join}
use ethkit.Ethmonitor.Queue.{new_queue}
use ethkit.Ethmonitor.Queue.Runs.{start, Run-play}
use ethkit.Ethmonitor.Chain.{Float64, items}
use ethkit.Ethmonitor.Chain.Invariant.{IsCanonical}
use ethkit.Ethmonitor.Build as Builds
use ethkit.Ethmonitor.Build.{Payload, build_canonical_chain, fetch_failed, make_added}
use ethkit.Ethmonitor.Build.Canonical.{build_canonical_chain-IsCanonical}
use ethkit.Ethmonitor.Build.Events.{hashes, IsSettled, build_canonical_chain-Grows}
use ethkit.Ethmonitor.Build.Success.{build_canonical_chain_head}
use ethkit.Ethmonitor.Logs.{LogsWorld}
use ethkit.Ethmonitor.Logs.Keeps.{identity}
use ethkit.Ethmonitor.Publish as Publishing
use ethkit.Ethmonitor.Publish.{Publisher, publish}
use ethkit.Ethmonitor.Publish.Outcome.{publish_err, publish-some, publish-subscribers}
use ethkit.Ethmonitor.Publish.Runs.{joined, publish-Run}
use ethkit.Ethmonitor.Cycle.{
  Options, Monitor, Round, goes_on, must_skip, next_number, poll_after, fill_in, end_round,
  publish_round, after_build, build_round, fetch_round, monitor_round,
}
use ethkit.Ethmonitor.Cycle.Tracking.{
  play_under, Tracks, Settles, AfterRound, fill_in-Tracks, fill_in_head,
}

Tracks-numbers :
    {F : Type 0} {cap : ℕ} {s : List ℕ} (n : Option ℕ) (poll : ℕ) (m : Monitor F)
    → Tracks cap s m
    → Tracks cap s (record m { next_block_number = n; poll_interval = poll })
Tracks-numbers n poll m t = record {
  canonical = t.canonical;
  listened = t.listened;
  raw = t.raw;
  run = t.run;
  old = t.old;
  plays = t.plays;
}

module _ (is_same : Block → Block → Bool) where
  -- Rounds after which the loop goes on.
  pub data Rounds {F : Type 0} ⦃fl : Float64 F⦄ (options : Options)
      : Monitor F → Monitor F → Type 0 where
    here : {m m' : Monitor F} → m ≡ m' → Rounds options m m'
    then_round :
        {m m' m'' : Monitor F} (r : Round)
        → Rounds options m m'
        → Settles r m'
        → monitor_round is_same options r m' ≡ (m'', goes_on)
        → Rounds options m m''

module _ (is_same : Block → Block → Bool)
    (agree : (a b : Block) → is_same a b ≡ true → identity a ≡ identity b) where
  module _ {F : Type 0} (cap : ℕ) (s : List ℕ) where
    end_round-Tracks :
        (err : Option Publishing.Err) (options : Options) (top : Block) (m : Monitor F)
        → get_last? (items m.chain) ≡ some top
        → (publish options.trail_num_blocks_behind_head (some top) m.events m.publisher).1 ≡ err
        → Tracks cap s m
        → let r =
            end_round is_same err
              (publish options.trail_num_blocks_behind_head (some top) m.events m.publisher).0
              m in
          AfterRound cap s r.0 r.1
    unfolding end_round
    end_round-Tracks none options top m e fine t = record {
      canonical = t.canonical;
      listened = λ z. t.listened (
          ap length (
            sym (
              publish-subscribers options.trail_num_blocks_behind_head (some top) m.events
                m.publisher))
          ∙ z);
      raw = t.raw ++ m.events;
      run =
          publish-Run options.trail_num_blocks_behind_head (some top) m.events m.publisher
            t.listened (publish-some options.trail_num_blocks_behind_head top m.events m.publisher)
            t.run;
      old = t.old;
      plays = rw append-nil t.plays;
    }
    end_round-Tracks (some x) options top m e bad t =
        let (u, before, after) =
          play_split t.raw m.events s (hashes (items m.chain) ++ t.old) t.plays in
        let (v, sent, wait) = Run-play s u t.run before in
        publish_err options.trail_num_blocks_behind_head top m.events m.publisher v
          (hashes (items m.chain) ++ t.old) x
          (play_join m.publisher.queue.events m.events v u (hashes (items m.chain) ++ t.old) wait
            after)
          bad

    publish_round-Tracks :
        (options : Options) (top : Block) (m : Monitor F)
        → get_last? (items m.chain) ≡ some top
        → Tracks cap s m
        → AfterRound cap s (publish_round is_same options m).0 (publish_round is_same options m).1
    unfolding publish_round
    publish_round-Tracks options top m e t = rw e (end_round-Tracks _ options top m e refl t)

    after_build-Tracks :
        (err : Option Builds.Err) (options : Options) (w : LogsWorld) (top : Block) (m : Monitor F)
        → (err ≡ none → get_last? (items m.chain) ≡ some top)
        → Tracks cap s m
        → let r = after_build is_same err options w m in AfterRound cap s r.0 r.1
    unfolding after_build
    after_build-Tracks (some e) options w top m h t = t
    after_build-Tracks none options w top m h t =
        let (top', e) = fill_in_head is_same agree options.with_logs w m top (h refl) in
        publish_round-Tracks options top' (fill_in is_same options.with_logs w m) e
          (fill_in-Tracks is_same agree cap s options.with_logs w m t)

    module _ ⦃fl : Float64 F⦄ where
      build_round-Tracks :
          (options : Options) (r : Round) (next : EthBlock) (payload : Payload) (m : Monitor F)
          → IsSettled (build_canonical_chain r.fuel r.world next payload m.events m.chain).err
          → Tracks cap s m
          → let o = build_round is_same options r next payload m in AfterRound cap s o.0 o.1
      unfolding build_round
      build_round-Tracks options r next payload m settled t =
          let b = build_canonical_chain r.fuel r.world next payload m.events m.chain in
          let (made, grown, tells) =
            build_canonical_chain-Grows r.fuel r.world next payload m.events m.chain settled in
          let (dropped, plays) = tells in
          after_build-Tracks b.err options r.logs_world (make_added r.world next payload)
            (record m { chain = b.chain; events = b.events })
            (build_canonical_chain_head r.fuel r.world next payload m.events m.chain t.canonical)
            (record {
              canonical =
                  build_canonical_chain-IsCanonical r.fuel r.world next payload m.events m.chain
                    t.canonical;
              listened = t.listened;
              raw = t.raw;
              run = t.run;
              old = dropped ++ t.old;
              plays =
                  ap (λ l. play l s)
                    (ap (λ l. t.raw ++ l) grown ∙ sym (append_assoc t.raw m.events made))
                  ∙ play_join (t.raw ++ m.events) made s (hashes (items m.chain) ++ t.old) _ t.plays
                      (play_under made (hashes (items m.chain)) (hashes (items b.chain) ++ dropped)
                        t.old plays)
                  ∙ ap some (append_assoc (hashes (items b.chain)) dropped t.old);
            })

      fetch_round-Tracks :
          (o : Option (EthBlock × Payload × Bool)) (options : Options) (r : Round) (m : Monitor F)
          → ((next : EthBlock) (payload : Payload) (miss : Bool)
              → o ≡ some (next, payload, miss)
              → IsSettled (build_canonical_chain r.fuel r.world next payload m.events m.chain).err)
          → Tracks cap s m
          → let x = fetch_round is_same o options r m in AfterRound cap s x.0 x.1
      unfolding fetch_round
      fetch_round-Tracks none options r m h t = t
      fetch_round-Tracks (some (next, payload, miss)) options r m h t =
          build_round-Tracks options r next payload
            (record m { poll_interval = poll_after miss options m.poll_interval })
            (h next payload miss refl)
            (Tracks-numbers m.next_block_number (poll_after miss options m.poll_interval) m t)

      -- One round of the loop, in which the block could be chained, or it or a parent could
      -- not be fetched: where the loop's events keep up with its chain, they do afterwards,
      -- or the loop has stopped, and then the queue was full.
      pub monitor_round-Tracks :
          (options : Options) (r : Round) (m : Monitor F)
          → Settles r m
          → Tracks cap s m
          → let x = monitor_round is_same options r m in AfterRound cap s x.0 x.1
      unfolding monitor_round
      monitor_round-Tracks options r m h t =
          elim (Bool-cases (must_skip m.next_block_number r.new_head_num)) [
            | inl u ↦ rw u t
            | inr u ↦ rw u (
                fetch_round-Tracks r.fetched options r
                  (record m {
                    next_block_number = next_number (get_last? (items m.chain)) m.next_block_number;
                  })
                  h (Tracks-numbers _ m.poll_interval m t))
          ]

  module _ {F : Type 0} ⦃fl : Float64 F⦄ where
    Rounds-Tracks :
        {options : Options} {m m' : Monitor F} (cap : ℕ) (s : List ℕ)
        → Rounds is_same options m m'
        → Tracks cap s m
        → Tracks cap s m'
    Rounds-Tracks cap s (here e) t = subst (Tracks cap s) e t
    Rounds-Tracks {options = options} cap s (then_round {m' = m'} r before settles e) t =
        subst (λ x. AfterRound cap s x.0 x.1) e
          (monitor_round-Tracks cap s options r m' settles (Rounds-Tracks cap s before t))

    -- The loop starts with a canonical chain, no events, a subscriber and a queue that is new,
    -- and blocks that are one object are one block with one event. After any number of rounds,
    -- in each of which the block could be chained, or it or a parent could not be fetched, and
    -- after which the loop goes on: a subscriber who had the blocks of the first chain can play
    -- all that was sent, and then what waits in the queue and the events that the loop holds,
    -- and has the blocks of the last chain, on top of blocks older than the retention limit
    -- keeps.
    pub Rounds-play :
        {options : Options} {m m' : Monitor F} (cap : ℕ)
        → IsCanonical m.chain
        → m.events ≡ []
        → m.publisher.queue ≡ new_queue cap
        → m.publisher.published ≡ []
        → length m.publisher.subscribers ≢ 0
        → Rounds is_same options m m'
        → (middle old : List ℕ) × (play (joined m'.publisher.published) (hashes (items m.chain))
            ≡ some middle)
          × (play (m'.publisher.queue.events ++ m'.events) middle
              ≡ some (hashes (items m'.chain) ++ old))
    unfolding play
    Rounds-play {m = m} {m' = m'} cap canonical quiet fresh unsent listened rounds =
        let s = hashes (items m.chain) in
        let t = Rounds-Tracks cap s rounds (record {
          canonical = canonical;
          listened = listened;
          raw = [];
          run = start (λ i. record { queue = fresh i; sent = joined (unsent i) });
          old = [];
          plays = rw (quiet, append-nil) refl;
        }) in
        let (u, before, after) =
          play_split t.raw m'.events s (hashes (items m'.chain) ++ t.old) t.plays in
        let (v, sent, wait) = Run-play s u t.run before in
        (
          v,
          t.old,
          sent,
          play_join m'.publisher.queue.events m'.events v u (hashes (items m'.chain) ++ t.old) wait
              after,
        )
