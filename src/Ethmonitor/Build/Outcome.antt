-- ===== src/Ethmonitor/Build/Outcome.antt =====
-- How `buildCanonicalChain` ends.
use ethkit.Prelude.{
  ℕ, zero, suc, ◌+◌, ◌<◌, ◌≡◌, refl, ap, Option, none, some, List, [], ◌∷◌, get_last?,
  get_last?-eq-some, arith, length, length-append, ◌==◌, Bool-cases, inl, inr,
}
use ethkit.Ethmonitor.Types.{EthBlock}
use ethkit.Ethmonitor.Block.{Block}
use ethkit.Ethmonitor.Chain as Chains
use ethkit.Ethmonitor.Chain.{Chain, Float64, items, push, pop}
use ethkit.Ethmonitor.Chain.Invariant.{pop_snoc}
use ethkit.Ethmonitor.Build.{
  Payload, World, Err, context_done, fetch_failed, nil_dereference, out_of_fuel, push_failed, Built,
  Self, wrap_err, chain_up, push_back, finish, connect, step_back, extend, build_canonical_chain,
}

-- The endings that the source has: no panic, and no fuel that ran out.
abbrev pub IsOrderly : Option Err → Type 0
IsOrderly none = Unit
IsOrderly (some context_done) = Unit
IsOrderly (some fetch_failed) = Unit
IsOrderly (some (push_failed x)) = Unit
IsOrderly (some nil_dereference) = ⊥
IsOrderly (some out_of_fuel) = ⊥

wrap_err-IsOrderly : (o : Option Chains.Err) → IsOrderly (wrap_err o)
unfolding wrap_err
wrap_err-IsOrderly none = tt
wrap_err-IsOrderly (some x) = tt

module _ {F : Type 0} ⦃fl : Float64 F⦄ where
  chain_up-IsOrderly :
      (b : Block) (events : List Block) (c : Chain F) → IsOrderly (chain_up b events c).err
  unfolding chain_up
  chain_up-IsOrderly b events c = wrap_err-IsOrderly (push b c).1

  push_back-IsOrderly :
      (o : Option Chains.Err) (b : Block) (c : Chain F) (events : List Block)
      → IsOrderly (push_back o b c events).err
  unfolding push_back
  push_back-IsOrderly none b c events = tt
  push_back-IsOrderly (some x) b c events = tt

  finish-IsOrderly :
      (o : Option Err) (b : Block) (r : Built F)
      → r.err ≡ o
      → IsOrderly r.err
      → IsOrderly (finish o b r).err
  unfolding finish
  finish-IsOrderly none b r e h = push_back-IsOrderly _ b _ _
  finish-IsOrderly (some x) b r e h = h

  connect-IsOrderly :
      (self : Self F) (w : World) (next : EthBlock) (payload : Payload) (events : List Block)
      (c : Chain F) (o : Option (EthBlock × Payload))
      → ((b : EthBlock) (p : Payload) (es : List Block) → IsOrderly (self b p es c).err)
      → IsOrderly (connect self w next payload events c o).err
  unfolding connect
  connect-IsOrderly self w next payload events c none h = tt
  connect-IsOrderly self w next payload events c (some (parent, pp)) h =
      finish-IsOrderly _ _ (self parent pp events c) refl (h parent pp events)

  extend-IsOrderly :
      (self : Self F) (n : ℕ) (w : World) (next : EthBlock) (payload : Payload)
      (events : List Block) (c : Chain F) (o : Option Block)
      → get_last? (items c) ≡ o
      → ((b : EthBlock) (p : Payload) (es : List Block) (d : Chain F)
          → length (items d) + 1 ≡ length (items c)
          → IsOrderly (self b p es d).err)
      → IsOrderly (extend self n w next payload events c o).err
  unfolding extend step_back
  extend-IsOrderly self n w next payload events c none e h = chain_up-IsOrderly _ events c
  extend-IsOrderly self n w next payload events c (some top) e h =
      elim (Bool-cases (next.parent_hash == top.hash)) [
        | inl t ↦ rw t (chain_up-IsOrderly _ events c)
        | inr t ↦
            let (bs, split) = get_last?-eq-some (items c) top e in
            rw (t, pop_snoc c bs top split)
              (connect-IsOrderly self w next payload _ (record c { blocks = some bs }) _
                (λ b p es.
                  h b p es (record c { blocks = some bs })
                    (omega (arith, ap length split, length-append bs (top ∷ [])))))
      ]

  -- Fuel above the number of retained blocks is enough: the call then ends as the source does, with
  -- success or one of its errors, and no nil pointer is read.
  pub build_canonical_chain-IsOrderly :
      (n : ℕ) (w : World) (next : EthBlock) (payload : Payload) (events : List Block) (c : Chain F)
      → length (items c) < n
      → IsOrderly (build_canonical_chain n w next payload events c).err
  unfolding build_canonical_chain
  build_canonical_chain-IsOrderly zero w next payload events c h = absurd (omega arith)
  build_canonical_chain-IsOrderly (suc n) w next payload events c h =
      elim (Bool-cases (w.is_done n)) [
        | inl t ↦ rw t tt
        | inr t ↦ rw t (
            extend-IsOrderly (build_canonical_chain n w) n w next payload events c _ refl
              (λ b p es d s. build_canonical_chain-IsOrderly n w b p es d (omega arith)))
      ]
