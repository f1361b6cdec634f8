-- ===== src/Ethmonitor/Logs/Fills.antt =====
-- What `backfillChainLogs` makes of each block.
use ethkit.Prelude.{◌≡◌, ◌≢◌, ◌⊎◌, true, false, Option, none, some, List, [], ◌∷◌, length, ℕ}
use ethkit.Ethmonitor.Types.{Log}
use ethkit.Ethmonitor.Block.{removed, Block, find_block}
use ethkit.Ethmonitor.Build.{Payload}
use ethkit.Ethmonitor.Logs.{LogsWorld, some_logs}
use ethkit.Ethmonitor.Logs.Keeps.{identity, Fetched}

-- No logs came, though the bloom lets expect some.
abbrev pub Unfetched : LogsWorld → Block → Type 0
Unfetched w b =
    (w.filter_logs b.hash ≡ none)
    ⊎ ((logs : Option (List Log)) × (payload : Payload) × (w.filter_logs b.hash
          ≡ some (logs, payload))
        × (length (some_logs logs) ≡ 0)
        × (b.bloom ≢ 0))

-- The logs of the block were asked for: it is ready where it was removed, or has its logs; otherwise it
-- is not ready and has none.
pub record Tried (w : LogsWorld) (b b' : Block) : Type 0 where
  pub same : identity b' ≡ identity b
  pub outcome :
      (b'.ok ≡ true) × ((b.event ≡ removed) ⊎ Fetched w b b')
      ⊎ (b'.ok ≡ false) × (b'.logs ≡ none) × Unfetched w b

-- The context is done somewhere.
abbrev pub Stops : LogsWorld → Type 0
Stops w = (k : ℕ) × ((w.is_done k ≡ true) ⊎ (w.is_done_inside k ≡ true))

-- A block stays where it is ready, is among the new ones, or the context is done; the logs of any other
-- are asked for.
abbrev pub Filled : LogsWorld → List Block → Block → Block → Type 0
Filled w new_blocks b b' =
    (b' ≡ b) × ((b.ok ≡ true) ⊎ (find_block new_blocks b.hash none ≢ none) ⊎ Stops w)
    ⊎ (b.ok ≡ false) × (find_block new_blocks b.hash none ≡ none) × Tried w b b'

-- Two lists are as long, and their elements are related one by one.
abbrev pub Each : (Block → Block → Type 0) → List Block → List Block → Type 0
Each R [] [] = Unit
Each R (x ∷ xs) (y ∷ ys) = R x y × Each R xs ys
Each R _ _ = ⊥
