-- ===== src/Ethmonitor/Build/Success.antt =====
-- What `buildCanonicalChain` reaches where it succeeds.
use ethkit.Prelude.{
  ℕ, zero, suc, ◌≡◌, refl, Option, none, some, List, get_last?, arith, ◌==◌, Bool-cases, inl, inr,
}
use ethkit.Ethmonitor.Types.{EthBlock}
use ethkit.Ethmonitor.Block.{Block}
use ethkit.Ethmonitor.Chain as Chains
use ethkit.Ethmonitor.Chain.{Chain, Float64, items, push, pop}
use ethkit.Ethmonitor.Chain.Invariant.{IsCanonical, pop-IsCanonical, push_head}
use ethkit.Ethmonitor.Build.{
  Payload, World, Err, Built, Self, make_added, wrap_err, chain_up, push_back, finish, connect,
  step_back, extend, build_canonical_chain,
}
use ethkit.Ethmonitor.Build.Canonical.{build_canonical_chain-IsCanonical}

module _ {F : Type 0} ⦃fl : Float64 F⦄ where
  chain_up_head :
      (b : Block) (events : List Block) (c : Chain F)
      → IsCanonical c
      → (chain_up b events c).err ≡ none
      → get_last? (items (chain_up b events c).chain) ≡ some b
  unfolding chain_up wrap_err
  chain_up_head b events c h e = push_head b c h (ground arith)

  finish_head :
      (o : Option Err) (b : Block) (r : Built F)
      → r.err ≡ o
      → IsCanonical r.chain
      → (finish o b r).err ≡ none
      → get_last? (items (finish o b r).chain) ≡ some b
  unfolding finish push_back
  finish_head none b r e h f = push_back_head (push b r.chain).1 refl f
    where
      push_back_head :
          (o : Option Chains.Err)
          → (push b r.chain).1 ≡ o
          → (push_back o b (push b r.chain).0 r.events).err ≡ none
          → get_last? (items (push_back o b (push b r.chain).0 r.events).chain) ≡ some b
      push_back_head none p q = push_head b r.chain h p
      push_back_head (some x) p q = cc
  finish_head (some x) b r e h f = cc

  extend_head :
      (self : Self F) (n : ℕ) (w : World) (next : EthBlock) (payload : Payload)
      (events : List Block) (c : Chain F) (o : Option Block)
      → ((b : EthBlock) (p : Payload) (es : List Block) (d : Chain F)
          → IsCanonical d
          → IsCanonical (self b p es d).chain)
      → IsCanonical c
      → (extend self n w next payload events c o).err ≡ none
      → get_last? (items (extend self n w next payload events c o).chain)
        ≡ some (make_added w next payload)
  unfolding extend
  extend_head self n w next payload events c none keeps h e = chain_up_head _ events c h e
  extend_head self n w next payload events c (some top) keeps h e =
      elim (Bool-cases (next.parent_hash == top.hash)) [
        | inl t ↦ rw t (chain_up_head _ events c h (rw t at e))
        | inr t ↦ rw t (step_back_head (pop c).1 (rw t at e))
      ]
    where
      connect_head :
          (es : List Block) (o : Option (EthBlock × Payload))
          → (connect self w next payload es (pop c).0 o).err ≡ none
          → get_last? (items (connect self w next payload es (pop c).0 o).chain)
            ≡ some (make_added w next payload)
      connect_head es none f = cc
      connect_head es (some (parent, pp)) f =
          finish_head _ _ (self parent pp es (pop c).0) refl
            (keeps parent pp es (pop c).0 (pop-IsCanonical c h)) f

      step_back_head :
          (o : Option Block)
          → (step_back self n w next payload events (pop c).0 o).err ≡ none
          → get_last? (items (step_back self n w next payload events (pop c).0 o).chain)
            ≡ some (make_added w next payload)
      step_back_head none f = cc
      step_back_head (some popped) f = connect_head _ _ f

  -- Where the call succeeds on a canonical chain, the given block is the head of the chain, as an
  -- added block.
  pub build_canonical_chain_head :
      (n : ℕ) (w : World) (next : EthBlock) (payload : Payload) (events : List Block) (c : Chain F)
      → IsCanonical c
      → (build_canonical_chain n w next payload events c).err ≡ none
      → get_last? (items (build_canonical_chain n w next payload events c).chain)
        ≡ some (make_added w next payload)
  unfolding build_canonical_chain
  build_canonical_chain_head zero w next payload events c h e = cc
  build_canonical_chain_head (suc n) w next payload events c h e = elim (Bool-cases (w.is_done n)) [
    | inl t ↦ cc (rw t at e)
    | inr t ↦ rw t (
        extend_head (build_canonical_chain n w) n w next payload events c _
          (λ b p es d k. build_canonical_chain-IsCanonical n w b p es d k) h (rw t at e))
  ]
