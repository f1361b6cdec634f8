-- ===== src/Ethmonitor/Build.antt =====
-- ethmonitor/ethmonitor.go, `buildCanonicalChain`: the next block is chained to the head, or blocks
-- are taken off and the parent chain is fetched and built first. What the context, the provider and
-- the cache answer is a `World`; deleting a popped block's number from the cache and the pauses have
-- no part in the result. The recursion is on fuel: each level pops a block, so one more level than
-- the chain has blocks is enough.
pub mod Canonical
pub mod Events
pub mod Outcome
pub mod Success
use ethkit.Prelude.{
  ℕ, zero, suc, Bool, true, false, Option, none, some, List, [], ◌∷◌, ◌++◌, get_last?, ◌==◌,
  if◌then◌else◌,
}
use ethkit.Ethmonitor.Types.{EthBlock}
use ethkit.Ethmonitor.Block.{Event, added, removed, Block}
use ethkit.Ethmonitor.Chain as Chains
use ethkit.Ethmonitor.Chain.{Chain, Float64, items, push, pop}

abbrev pub Payload : Type 0
Payload = Option (List ℕ)

pub record World : Type 0 where
  -- whether the context is done at a level (the fuel left tells the levels apart)
  pub is_done : ℕ → Bool
  -- fetchBlockByHash at a level; `none` is an error
  pub fetch : ℕ → ℕ → Option (EthBlock × Payload)
  pub retain_payloads : Bool

pub data Err : Type 0 where
  context_done fetch_failed nil_dereference out_of_fuel : Err
  push_failed : Chains.Err → Err

pub record Built (F : Type 0) : Type 0 where
  pub chain : Chain F
  pub events : List Block
  pub err : Option Err

-- setPayload
unfoldable pub set_payload : World → Payload → Payload
set_payload w p = if w.retain_payloads then p else none

-- `&Block{Event: Added, Block: nextBlock, BlockPayload: ...}`
unfoldable pub make_added : World → EthBlock → Payload → Block
unfolding set_payload
make_added w b p = record {
  block = b;
  event = added;
  logs = none;
  ok = false;
  block_payload = set_payload w p;
  logs_payload = none;
}

-- the copy of a popped block
unfoldable pub make_removed : Block → Block
make_removed b = record b { event = removed; ok = true }

wrap_err : Option Chains.Err → Option Err
wrap_err none = none
wrap_err (some x) = some (push_failed x)

-- The body takes the recursive call as its first argument.
abbrev pub Self : Type 0 → Type 0
Self F = EthBlock → Payload → List Block → Chain F → Built F

module _ {F : Type 0} ⦃fl : Float64 F⦄ where
  -- `events = append(events, block); return events, m.chain.push(block)`
  chain_up : Block → List Block → Chain F → Built F
  unfolding wrap_err
  chain_up b events c =
      let (c', err) = push b c in
      record { chain = c'; events = events ++ b ∷ []; err = wrap_err err }

  push_back : Option Chains.Err → Block → Chain F → List Block → Built F
  push_back none b c events = record { chain = c; events = events ++ b ∷ []; err = none }
  push_back (some x) b c events = record { chain = c; events = events; err = some (push_failed x) }

  -- what follows the recursive call
  finish : Option Err → Block → Built F → Built F
  unfolding push_back
  finish (some x) b r = r
  finish none b r = let (c', err) = push b r.chain in push_back err b c' r.events

  connect :
      Self F
      → World
      → EthBlock
      → Payload
      → List Block
      → Chain F
      → Option (EthBlock × Payload)
      → Built F
  unfolding finish
  connect self w next payload events c none = record {
    chain = c;
    events = events;
    err = some fetch_failed;
  }
  connect self w next payload events c (some (parent, parent_payload)) =
      let r = self parent parent_payload events c in finish r.err (make_added w next payload) r

  step_back :
      Self F → ℕ → World → EthBlock → Payload → List Block → Chain F → Option Block → Built F
  unfolding connect
  step_back self n w next payload events c none = record {
    chain = c;
    events = events;
    err = some nil_dereference;
  }
  step_back self n w next payload events c (some popped) =
      connect self w next payload (events ++ make_removed popped ∷ []) c
        (w.fetch n next.parent_hash)

  extend : Self F → ℕ → World → EthBlock → Payload → List Block → Chain F → Option Block → Built F
  unfolding chain_up step_back
  extend self n w next payload events c none = chain_up (make_added w next payload) events c
  extend self n w next payload events c (some top) =
      if next.parent_hash == top.hash
      then chain_up (make_added w next payload) events c
      else step_back self n w next payload events (pop c).0 (pop c).1

  unfoldable pub build_canonical_chain :
      ℕ → World → EthBlock → Payload → List Block → Chain F → Built F
  unfolding extend
  build_canonical_chain zero w next payload events c = record {
    chain = c;
    events = events;
    err = some out_of_fuel;
  }
  build_canonical_chain (suc n) w next payload events c =
      if w.is_done n
      then record { chain = c; events = []; err = some context_done }
      else extend (build_canonical_chain n w) n w next payload events c (get_last? (items c))
