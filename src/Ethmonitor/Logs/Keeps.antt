-- ===== src/Ethmonitor/Logs/Keeps.antt =====
-- Filling in logs changes neither which blocks there are nor their events.
use ethkit.Prelude.{
  ◌<◌, ◌≡◌, ◌⊎◌, refl, sym, ap, ap₂, ◌∙◌, Bool, true, false, ◌||◌, Option, none, some, List, [],
  ◌∷◌, ◌++◌, map, map-append, reverse, reverse-cons, reverse-reverse, length, ltb, ◌==◌, Bool-cases,
  inl, inr,
}
use ethkit.Ethmonitor.Types.{Log, EthBlock}
use ethkit.Ethmonitor.Block.{Event, removed, Block, event_eq}
use ethkit.Ethmonitor.Build.{Payload}
use ethkit.Ethmonitor.Logs.{
  LogsWorld, some_logs, mark, take_logs, fill_block, add_logs_one, is_new, add_logs_to,
  backfill_one, backfill_back, backfill_chain_logs,
}

-- The block and its event.
abbrev pub identity : Block → EthBlock × Event
identity b = (b.block, b.event)

identity-take_logs :
    (w : LogsWorld) (o : Option (Option (List Log) × Payload)) (b : Block)
    → identity (take_logs w o b) ≡ identity b
unfolding take_logs mark
identity-take_logs w none b = refl
identity-take_logs w (some (logs, payload)) b =
    elim (Bool-cases (ltb 0 (length (some_logs logs)) || b.bloom == 0)) [
      | inl t ↦ rw t refl
      | inr t ↦ rw t refl
    ]

identity-fill_block :
    (ready gone : Bool) (w : LogsWorld) (b : Block)
    → identity (fill_block ready gone w b) ≡ identity b
unfolding fill_block
identity-fill_block true gone w b = refl
identity-fill_block false true w b = refl
identity-fill_block false false w b = identity-take_logs w (w.filter_logs b.hash) b

pub identity-add_logs_one : (w : LogsWorld) (b : Block) → identity (add_logs_one w b) ≡ identity b
unfolding add_logs_one
identity-add_logs_one w b = identity-fill_block b.ok (event_eq b.event removed) w b

identity-backfill_one :
    (done new ready : Bool) (w : LogsWorld) (b : Block)
    → identity (backfill_one done new ready w b) ≡ identity b
unfolding backfill_one add_logs_to
identity-backfill_one done true ready w b = refl
identity-backfill_one done false true w b = refl
identity-backfill_one true false false w b = refl
identity-backfill_one false false false w b = identity-add_logs_one w b

identity-backfill_back :
    (w : LogsWorld) (new_blocks bs : List Block)
    → map identity (backfill_back w new_blocks bs) ≡ map identity bs
unfolding backfill_back
identity-backfill_back w new_blocks [] = refl
identity-backfill_back w new_blocks (b ∷ bs) = elim (Bool-cases (w.is_done (length (b ∷ bs)))) [
  | inl t ↦ rw t refl
  | inr t ↦ rw t (
      ap₂ (λ x xs. x ∷ xs)
        (identity-backfill_one (w.is_done_inside (length (b ∷ bs))) (is_new new_blocks b) b.ok w b)
        (identity-backfill_back w new_blocks bs))
]

map-reverse {ℓ κ} :
    {A : Type ℓ} {B : Type κ} (f : A → B) (xs : List A) → map f (reverse xs) ≡ reverse (map f xs)
map-reverse f [] = refl
map-reverse f (x ∷ xs) =
    ap (map f) (reverse-cons x xs)
    ∙ map-append f (reverse xs) (x ∷ [])
    ∙ ap (λ l. l ++ f x ∷ []) (map-reverse f xs)
    ∙ sym (reverse-cons (f x) (map f xs))

-- `backfillChainLogs` leaves the blocks of the chain as they are, with their events and in their
-- order, whichever logs come and wherever the context ends it.
pub backfill_chain_logs_keeps :
    (w : LogsWorld) (new_blocks blocks : List Block)
    → map identity (backfill_chain_logs w new_blocks blocks) ≡ map identity blocks
unfolding backfill_chain_logs
backfill_chain_logs_keeps w new_blocks blocks =
    map-reverse identity (backfill_back w new_blocks (reverse blocks))
    ∙ ap reverse (identity-backfill_back w new_blocks (reverse blocks))
    ∙ ap reverse (map-reverse identity blocks)
    ∙ reverse-reverse (map identity blocks)

-- The logs that were fetched for the block, of which there are some unless the bloom is empty.
abbrev pub Fetched : LogsWorld → Block → Block → Type 0
Fetched w b b' =
    (logs : Option (List Log)) × (payload : Payload) × (w.filter_logs b.hash ≡ some (logs, payload))
    × (b'.logs ≡ some (some_logs logs))
    × ((0 < length (some_logs logs)) ⊎ (b.bloom ≡ 0))
