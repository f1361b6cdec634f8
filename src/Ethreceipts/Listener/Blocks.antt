-- ===== src/Ethreceipts/Listener/Blocks.antt =====
-- What is reported after several blocks.
use ethkit.Prelude.{◌≡◌, refl, ap, Option, List, [], ◌∷◌, ◌++◌, map}
use ethkit.Ethmonitor.Types.{Transaction}
use ethkit.Ethmonitor.Block.{Block}
use ethkit.Ethreceipts.Types.{Message}
use ethkit.Ethreceipts.Subscriber.{Listener, match_filters}
use ethkit.Ethreceipts.Listener.{Work, block_receipts, process_one, process_blocks}

module _ (as_message : Transaction → Option Message) where
  map-oks :
      (l : Listener) (b : Block) (ws : List Work)
      → map (λ (w : Work). w.oks) (map (process_one as_message l b) ws)
        ≡ map (λ w. (match_filters l w.filters (block_receipts as_message l b) w.subscriber).1) ws
  unfolding process_one
  map-oks l b [] = refl
  map-oks l b (w ∷ ws) =
      ap (λ rest. (match_filters l w.filters (block_receipts as_message l b) w.subscriber).1 ∷ rest)
        (map-oks l b ws)

  -- After several blocks, what is reported for the filters are the matches in the last block alone:
  -- those in the blocks before it are forgotten.
  pub process_blocks_last :
      (l : Listener) (bs : List Block) (b : Block) (ws : List Work)
      → map (λ (w : Work). w.oks) (process_blocks as_message l (bs ++ b ∷ []) ws)
        ≡ map
            (λ w. (match_filters l w.filters (block_receipts as_message l b) w.subscriber).1)
            (process_blocks as_message l bs ws)
  unfolding process_blocks
  process_blocks_last l [] b ws = map-oks l b ws
  process_blocks_last l (a ∷ bs) b ws =
      process_blocks_last l bs b (map (process_one as_message l a) ws)
