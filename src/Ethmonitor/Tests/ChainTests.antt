-- ===== src/Ethmonitor/Tests/ChainTests.antt =====
-- The chain's theorems at the small chain.
use ethkit.Prelude.{
  ℕ, ◌+◌, ◌≤◌, ◌≡◌, ◌↔◌, refl, true, none, some, List, [], ◌∷◌, ◌++◌, get_last?, length, u64, arith,
  All,
}
use ethkit.Ethmonitor.Block.{Block, number_u64}
use ethkit.Ethmonitor.Chain.{Chain, Err, items, push, pop, latest_final_block}
use ethkit.Ethmonitor.Chain.Invariant.{Linked, IsCanonical, Fits, push-accepts, pop-push}
use ethkit.Ethmonitor.Chain.Lookup.{latest_final_block_lem}
use ethkit.Ethmonitor.Chain.Bootstrap.{IsAdded, bootstrap_blocks, last_n, bootstrap_blocks-Linked}
use ethkit.Ethmonitor.Chain.Bootstrap.Replayed.{bootstrap_blocks-play}
use ethkit.Ethmonitor.Build.Events.{hashes}
use ethkit.Ethmonitor.Replay.{undo, effect, play}
use ethkit.Ethmonitor.Tests.{whole, first, second, third, third_removed, rival, chain_of, three}

abbrev two : Chain ℕ
two = chain_of (first ∷ second ∷ [])

three-IsCanonical : IsCanonical three
three-IsCanonical = record { linked = omega arith; within = omega arith; room = omega arith }

two-IsCanonical : IsCanonical two
two-IsCanonical = record { linked = omega arith; within = omega arith; room = omega arith }

push-accepts_example :
    (((push first two).1 ≡ none) ↔ Fits (get_last? (items two)) first)
    × ((x : Err) → (push first two).1 ≡ some x → (push first two).0 ≡ two)
push-accepts_example = push-accepts first two

third_accepted : (push third two).1 ≡ none
third_accepted = (push-accepts third two).0.1 (omega arith)

pop-push_example :
    (items (pop (push third two).0).0 ≡ items two) × ((pop (push third two).0).1 ≡ some third)
pop-push_example = pop-push third two third_accepted (omega arith)

latest_final_block_example :
    ((latest_final_block 1 three ≡ none) ↔ (length (items three) ≤ 1))
    × ((b : Block)
        → latest_final_block 1 three ≡ some b
        → (older newer : List Block) × (items three ≡ older ++ b ∷ newer)
          × (length newer ≡ 1)
          × (number_u64 third ≡ u64 (number_u64 b + 1)))
latest_final_block_example = latest_final_block_lem 1 three third three-IsCanonical refl

abbrev fresh : Chain ℕ
fresh = record {
  blocks = none;
  retention_limit = 10;
  bootstrap_mode = true;
  average_block_time = 0;
}

-- A reorg in the events.
abbrev reorg : List Block
reorg = first ∷ second ∷ third ∷ third_removed ∷ rival ∷ []

reorg-played : play reorg [] ≡ some (4 ∷ 2 ∷ 1 ∷ [])
unfolding play effect undo
reorg-played = refl

reorg-accepted : (bootstrap_blocks reorg fresh).1 ≡ none
unfolding bootstrap_blocks push pop
reorg-accepted = refl

bootstrap_blocks-play_example :
    (hashes (items (bootstrap_blocks reorg fresh).0) ≡ 4 ∷ 2 ∷ 1 ∷ [])
    × All IsAdded (items (bootstrap_blocks reorg fresh).0)
    × Linked (items (bootstrap_blocks reorg fresh).0)
bootstrap_blocks-play_example =
    bootstrap_blocks-play first second (third ∷ third_removed ∷ rival ∷ []) fresh (4 ∷ 2 ∷ 1 ∷ [])
      refl refl (omega arith) reorg-played reorg-accepted

bootstrap_blocks-Linked_example :
    ((bootstrap_blocks (first ∷ second ∷ third ∷ []) fresh).1 ≡ none)
    × (items (bootstrap_blocks (first ∷ second ∷ third ∷ []) fresh).0
        ≡ last_n 10 (first ∷ second ∷ third ∷ []))
bootstrap_blocks-Linked_example =
    bootstrap_blocks-Linked first second (third ∷ []) fresh (omega arith) refl refl
      (refl, (refl, (refl, tt))) (omega arith)
