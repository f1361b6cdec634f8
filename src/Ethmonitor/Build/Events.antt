-- ===== src/Ethmonitor/Build/Events.antt =====
-- The events of `buildCanonicalChain` take the old chain to the new one.
use ethkit.Prelude.{
  ℕ, zero, suc, ◌≡◌, refl, sym, ap, ◌∙◌, Option, none, some, List, [], ◌∷◌, ◌++◌, map, map-append,
  reverse, reverse-append, append_assoc, append-nil, get_last?, get_last?-eq-some, arith, length,
  ltb, ◌==◌, ==_refl, ◌>>=◌, Bool-cases, inl, inr,
}
use mathlib.Core.List.{reverse-cons}
use ethkit.Ethmonitor.Types.{EthBlock}
use ethkit.Ethmonitor.Block.{Block, added}
use ethkit.Ethmonitor.Replay.{undo, effect, play, play_join}
use ethkit.Ethmonitor.Chain as Chains
use ethkit.Ethmonitor.Chain.{Chain, Float64, items, push, pop}
use ethkit.Ethmonitor.Chain.Invariant.{trimmed, items-push, pop_snoc}
use ethkit.Ethmonitor.Build.{
  Payload, World, Err, fetch_failed, Built, Self, make_added, make_removed, wrap_err, chain_up,
  push_back, finish, connect, step_back, extend, build_canonical_chain,
}

-- The hashes of a list of blocks, newest first.
abbrev pub hashes : List Block → List ℕ
hashes bs = reverse (map (λ b. b.hash) bs)

pub hashes-snoc : (bs : List Block) (b : Block) → hashes (bs ++ b ∷ []) ≡ b.hash ∷ hashes bs
hashes-snoc bs b = rw (map-append (λ (x : Block). x.hash) bs (b ∷ []), reverse-append)

-- `made` tells a subscriber how to get from the blocks `before` to the blocks `after`; the stack ends
-- with blocks that the retention limit has taken from the chain.
abbrev pub Tells : List Block → List Block → List Block → Type 0
Tells made before after = (old : List ℕ) × (play made (hashes before) ≡ some (hashes after ++ old))

-- Success, or a block that could not be fetched.
abbrev pub IsSettled : Option Err → Type 0
IsSettled none = Unit
IsSettled (some fetch_failed) = Unit
IsSettled _ = ⊥

hashes-trimmed :
    (limit : ℕ) (bs : List Block) → (old : List ℕ) × (hashes bs ≡ hashes (trimmed limit bs) ++ old)
hashes-trimmed limit [] = ([], ground arith)
hashes-trimmed limit (b ∷ bs) = elim (Bool-cases (ltb limit (length (b ∷ bs)))) [
  | inl t ↦ rw t (b.hash ∷ [], reverse-cons b.hash (map (λ x. x.hash) bs))
  | inr t ↦ rw t ([], sym (append-nil (hashes (b ∷ bs))))
]

Tells-nothing : (bs : List Block) → Tells [] bs bs
unfolding play
Tells-nothing bs = ([], rw append-nil)

Tells-add :
    (limit : ℕ) (made before after : List Block) (b : Block)
    → b.event ≡ added
    → Tells made before after
    → Tells (made ++ b ∷ []) before (trimmed limit (after ++ b ∷ []))
unfolding play effect
Tells-add limit made before after b e (old, h) =
    let (dropped, split) = hashes-trimmed limit (after ++ b ∷ []) in
    let now : b.hash ∷ (hashes after ++ old)
        ≡ hashes (trimmed limit (after ++ b ∷ [])) ++ (dropped ++ old) =
      ap (λ l. l ++ old) (sym (hashes-snoc after b) ∙ split)
      ∙ append_assoc (hashes (trimmed limit (after ++ b ∷ []))) dropped old in
    (
      dropped ++ old,
      play_join made (b ∷ []) (hashes before) (hashes after ++ old) _ h
          ((λ i. effect (e i) b.hash (hashes after ++ old) >>= play []) ∙ ap some now),
    )

Tells-remove :
    (made bs after : List Block) (top : Block)
    → Tells made bs after
    → Tells (make_removed top ∷ made) (bs ++ top ∷ []) after
unfolding play effect undo make_removed
Tells-remove made bs after top (old, h) = (old, rw (hashes-snoc bs top, ==_refl top.hash) h)

-- `events` grew by events that tell how the chain changed.
abbrev pub Grows : {F : Type 0} → List Block → Chain F → Built F → Type 0
Grows events c r =
    (made : List Block) × (r.events ≡ events ++ made) × Tells made (items c) (items r.chain)

module _ {F : Type 0} ⦃fl : Float64 F⦄ where
  chain_up-Grows :
      (b : Block) (events : List Block) (c : Chain F)
      → b.event ≡ added
      → IsSettled (chain_up b events c).err
      → Grows events c (chain_up b events c)
  unfolding chain_up
  chain_up-Grows b events c e h = by_push (push b c).1 refl h
    where
      by_push :
          (o : Option Chains.Err)
          → (push b c).1 ≡ o
          → IsSettled (wrap_err o)
          → Grows events c (chain_up b events c)
      by_push none p s = (
        b ∷ [],
        refl,
        rw (items-push b c p)
            (Tells-add c.retention_limit [] (items c) (items c) b e (Tells-nothing (items c))),
      )
      by_push (some x) p s = absurd (unfold wrap_err in s)

  finish-Grows :
      (o : Option Err) (b : Block) (events : List Block) (c : Chain F) (r : Built F)
      → b.event ≡ added
      → r.err ≡ o
      → (IsSettled r.err → Grows events c r)
      → IsSettled (finish o b r).err
      → Grows events c (finish o b r)
  unfolding finish push_back
  finish-Grows (some x) b events c r e p h s = h s
  finish-Grows none b events c r e p h s = by_push (push b r.chain).1 refl s
    where
      by_push :
          (o : Option Chains.Err)
          → (push b r.chain).1 ≡ o
          → IsSettled (push_back o b (push b r.chain).0 r.events).err
          → Grows events c (push_back o b (push b r.chain).0 r.events)
      by_push none q s =
          let (made, grown, tells) = h (rw p tt) in
          (
            made ++ b ∷ [],
            ap (λ l. l ++ b ∷ []) grown ∙ append_assoc events made (b ∷ []),
            rw (items-push b r.chain q)
                (Tells-add r.chain.retention_limit made (items c) (items r.chain) b e tells),
          )
      by_push (some x) q s = absurd s

  connect-Grows :
      (self : Self F) (w : World) (next : EthBlock) (payload : Payload) (events : List Block)
      (c : Chain F) (o : Option (EthBlock × Payload))
      → ((b : EthBlock) (p : Payload)
          → IsSettled (self b p events c).err
          → Grows events c (self b p events c))
      → IsSettled (connect self w next payload events c o).err
      → Grows events c (connect self w next payload events c o)
  unfolding connect make_added
  connect-Grows self w next payload events c none h s =
      ([], sym (append-nil events), Tells-nothing (items c))
  connect-Grows self w next payload events c (some (parent, pp)) h s =
      finish-Grows _ (make_added w next payload) events c (self parent pp events c) refl refl
        (h parent pp) s

  extend-Grows :
      (self : Self F) (n : ℕ) (w : World) (next : EthBlock) (payload : Payload)
      (events : List Block) (c : Chain F) (o : Option Block)
      → get_last? (items c) ≡ o
      → ((b : EthBlock) (p : Payload) (es : List Block) (d : Chain F)
          → IsSettled (self b p es d).err
          → Grows es d (self b p es d))
      → IsSettled (extend self n w next payload events c o).err
      → Grows events c (extend self n w next payload events c o)
  unfolding extend step_back make_added
  extend-Grows self n w next payload events c none e h s =
      chain_up-Grows (make_added w next payload) events c refl s
  extend-Grows self n w next payload events c (some top) e h s =
      elim (Bool-cases (next.parent_hash == top.hash)) [
        | inl t ↦ rw t (chain_up-Grows (make_added w next payload) events c refl (rw t at s))
        | inr t ↦
            let (bs, split) = get_last?-eq-some (items c) top e in
            let popped = pop_snoc c bs top split in
            let c' = record c { blocks = some bs } in
            let es = events ++ make_removed top ∷ [] in
            let r = connect self w next payload es c' (w.fetch n next.parent_hash) in
            let (made, grown, tells) =
              connect-Grows self w next payload es c' (w.fetch n next.parent_hash)
                (λ b p. h b p es c') (rw (t, popped) at s) in
            rw (t, popped)
              (
                make_removed top ∷ made,
                grown ∙ append_assoc events (make_removed top ∷ []) made,
                rw split (Tells-remove made bs (items r.chain) top tells),
              )
      ]

  -- Where the call succeeds, or gives up at a block that it could not fetch, it has only appended
  -- events, and a subscriber who plays them on the old chain's blocks has the new chain's, on top of
  -- blocks older than the retention limit keeps.
  pub build_canonical_chain-Grows :
      (n : ℕ) (w : World) (next : EthBlock) (payload : Payload) (events : List Block) (c : Chain F)
      → IsSettled (build_canonical_chain n w next payload events c).err
      → Grows events c (build_canonical_chain n w next payload events c)
  unfolding build_canonical_chain
  build_canonical_chain-Grows zero w next payload events c s = absurd s
  build_canonical_chain-Grows (suc n) w next payload events c s = elim (Bool-cases (w.is_done n)) [
    | inl t ↦ absurd (rw t at s)
    | inr t ↦ rw t (
        extend-Grows (build_canonical_chain n w) n w next payload events c _ refl
          (λ b p es d k. build_canonical_chain-Grows n w b p es d k) (rw t at s))
  ]
