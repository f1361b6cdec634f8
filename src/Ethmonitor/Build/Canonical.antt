-- ===== src/Ethmonitor/Build/Canonical.antt =====
-- The chain is canonical after `buildCanonicalChain`, however it ends.
use ethkit.Prelude.{ℕ, zero, suc, ◌≡◌, refl, Option, none, some, List, ◌==◌, Bool-cases, inl, inr}
use ethkit.Ethmonitor.Types.{EthBlock}
use ethkit.Ethmonitor.Block.{Block}
use ethkit.Ethmonitor.Chain as Chains
use ethkit.Ethmonitor.Chain.{Chain, Float64, items, push, pop}
use ethkit.Ethmonitor.Chain.Invariant.{IsCanonical, push-IsCanonical, pop-IsCanonical}
use ethkit.Ethmonitor.Build.{
  Payload, World, Err, Built, chain_up, push_back, finish, connect, step_back, extend,
  build_canonical_chain,
}

module _ {F : Type 0} ⦃fl : Float64 F⦄ where
  push_back-chain :
      (o : Option Chains.Err) (b : Block) (c : Chain F) (events : List Block)
      → (push_back o b c events).chain ≡ c
  unfolding push_back
  push_back-chain none b c events = refl
  push_back-chain (some x) b c events = refl

  finish-IsCanonical :
      (o : Option Err) (b : Block) (r : Built F)
      → IsCanonical r.chain
      → IsCanonical (finish o b r).chain
  unfolding finish
  finish-IsCanonical (some x) b r h = h
  finish-IsCanonical none b r h =
      rw (push_back-chain (push b r.chain).1 b (push b r.chain).0 r.events)
        (push-IsCanonical b r.chain h)

  module _ (self : EthBlock → Payload → List Block → Chain F → Built F)
      (keeps : (b : EthBlock) (p : Payload) (es : List Block) (c : Chain F)
        → IsCanonical c
        → IsCanonical (self b p es c).chain)
      (w : World) (next : EthBlock) (payload : Payload) where
    connect-IsCanonical :
        (events : List Block) (c : Chain F) (o : Option (EthBlock × Payload))
        → IsCanonical c
        → IsCanonical (connect self w next payload events c o).chain
    unfolding connect
    connect-IsCanonical events c none h = h
    connect-IsCanonical events c (some (parent, pp)) h =
        finish-IsCanonical _ _ (self parent pp events c) (keeps parent pp events c h)

    step_back-IsCanonical :
        (n : ℕ) (events : List Block) (c : Chain F) (o : Option Block)
        → IsCanonical c
        → IsCanonical (step_back self n w next payload events c o).chain
    unfolding step_back
    step_back-IsCanonical n events c none h = h
    step_back-IsCanonical n events c (some popped) h = connect-IsCanonical _ c _ h

    extend-IsCanonical :
        (n : ℕ) (events : List Block) (c : Chain F) (o : Option Block)
        → IsCanonical c
        → IsCanonical (extend self n w next payload events c o).chain
    unfolding extend chain_up
    extend-IsCanonical n events c none h = push-IsCanonical _ c h
    extend-IsCanonical n events c (some top) h = elim (Bool-cases (next.parent_hash == top.hash)) [
      | inl t ↦ rw t (push-IsCanonical _ c h)
      | inr t ↦ rw t (step_back-IsCanonical n events (pop c).0 (pop c).1 (pop-IsCanonical c h))
    ]

  -- Whatever block comes and whatever is fetched, and however the call ends: where the blocks of
  -- the chain are linked and within the retention limit, they are so afterwards.
  pub build_canonical_chain-IsCanonical :
      (n : ℕ) (w : World) (next : EthBlock) (payload : Payload) (events : List Block) (c : Chain F)
      → IsCanonical c
      → IsCanonical (build_canonical_chain n w next payload events c).chain
  unfolding build_canonical_chain
  build_canonical_chain-IsCanonical zero w next payload events c h = h
  build_canonical_chain-IsCanonical (suc n) w next payload events c h =
      elim (Bool-cases (w.is_done n)) [
        | inl t ↦ rw t h
        | inr t ↦ rw t (
            extend-IsCanonical (build_canonical_chain n w)
              (λ b p es d. build_canonical_chain-IsCanonical n w b p es d) w next payload n events c
              _ h)
      ]
