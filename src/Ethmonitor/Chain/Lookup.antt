-- ===== src/Ethmonitor/Chain/Lookup.antt =====
-- What the lookups of `Chain` and `Monitor` find.
use ethkit.Prelude.{
  ℕ, ◌+◌, ◌-◌, ◌≤◌, ◌<◌, ◌≡◌, ◌≢◌, refl, sym, ap, ◌∙◌, ◌↔◌, ◌⊎◌, inl, inr, Bool, true, false,
  Option, none, some, List, [], ◌∷◌, ◌++◌, reverse, reverse-append, append_assoc, append-nil, arith,
  length, length-append, length-reverse, u64, take, take-length-append, get_last?, All, All-reverse,
  All-map, Bool-cases, get_elem?, get_elem?-split, get_elem?-ne-none, ltb, subst,
}
use mathlib.Core.List.{reverse-cons}
use ethkit.Ethmonitor.Block.{Block, number_u64, find_back, first_found, find_block}
use ethkit.Ethmonitor.Chain.{
  Chain, items, ready_stop, ready_part, blocks, ready_head, get_block, latest_final_block,
}
use ethkit.Ethmonitor.Chain.Invariant.{Linked, IsCanonical}

-- `b` stands in the list, passes the test, and nothing newer does.
pub record Newest {A : Type 0} (test : A → Bool) (bs : List A) (b : A) : Type 0 where
  pub older : List A
  pub newer : List A
  pub place : bs ≡ older ++ b ∷ newer
  pub passes : test b ≡ true
  pub rest_fails : All (λ x. test x ≡ false) newer

first_none :
    {A : Type 0} (o : Option A) (t : Bool) (x : A)
    → first_found o t x ≡ none
    → (o ≡ none) × (t ≡ false)
unfolding first_found
first_none none t x e = (refl, ground arith)
first_none (some y) t x e = cc

first_some :
    {A : Type 0} (o : Option A) (t : Bool) (x b : A)
    → first_found o t x ≡ some b
    → (o ≡ some b) ⊎ ((o ≡ none) × (t ≡ true) × (x ≡ b))
unfolding first_found
first_some none true x b e = inr (refl, refl, cc)
first_some none false x b e = cc
first_some (some y) t x b e = inl e

module _ {A : Type 0} (test : A → Bool) where
  find_back-none : (bs : List A) → find_back test bs ≡ none → All (λ x. test x ≡ false) bs
  unfolding find_back
  find_back-none [] e = tt
  find_back-none (x ∷ bs) e =
      let (p, q) = first_none (find_back test bs) (test x) x e in (q, find_back-none bs p)

  find_back-some : (bs : List A) (b : A) → find_back test bs ≡ some b → Newest test bs b
  unfolding find_back
  find_back-some [] b e = cc
  find_back-some (x ∷ bs) b e = elim (first_some (find_back test bs) (test x) x b e) [
    | inl h ↦
        let n = find_back-some bs b h in
        record {
          older = x ∷ n.older;
          newer = n.newer;
          place = ap (λ l. x ∷ l) n.place;
          passes = n.passes;
          rest_fails = n.rest_fails;
        }
    | inr (h, t, same) ↦ record {
      older = [];
      newer = bs;
      place = ap (λ y. y ∷ bs) same;
      passes = rw (← same) t;
      rest_fails = find_back-none bs h;
    }
  ]

module _ {F : Type 0} where
  -- `GetBlock` returns the newest retained block with that hash, and nil only where no retained
  -- block has it.
  pub get_block_lem :
      (hash : ℕ) (c : Chain F)
      → ((b : Block)
          → get_block hash c ≡ some b
          → (older newer : List Block) × (items c ≡ older ++ b ∷ newer)
            × (b.hash ≡ hash)
            × All (λ x. x.hash ≢ hash) newer)
        × (get_block hash c ≡ none → All (λ x. x.hash ≢ hash) (items c))
  unfolding get_block find_block
  get_block_lem hash c = (
    λ b e.
        let n = find_back-some _ (items c) b e in
        (
          n.older,
          n.newer,
          n.place,
          ground arith,
          All-map n.newer (λ x p. ground arith) n.rest_fails,
        ),
    λ e. All-map (items c) (λ x p. ground arith) (find_back-none _ (items c) e),
  )

  -- `ReadyHead` returns the newest block that is ready, and nil only where none is.
  pub ready_head_lem :
      (c : Chain F)
      → ((b : Block)
          → ready_head c ≡ some b
          → (older newer : List Block) × (items c ≡ older ++ b ∷ newer)
            × (b.ok ≡ true)
            × All (λ x. x.ok ≡ false) newer)
        × (ready_head c ≡ none → All (λ x. x.ok ≡ false) (items c))
  unfolding ready_head
  ready_head_lem c = (
    λ b e.
        let n = find_back-some (λ x. x.ok) (items c) b e in
        (n.older, n.newer, n.place, n.passes, n.rest_fails),
    λ e. find_back-none (λ x. x.ok) (items c) e,
  )

ready_stop_pending :
    (newer : List Block) (b : Block) (older : List Block) (stop : ℕ)
    → All (λ x. x.ok ≡ false) newer
    → b.ok ≡ false
    → ready_stop (newer ++ b ∷ older) stop ≡ ready_stop older (length older + 1)
unfolding ready_stop
ready_stop_pending [] b older stop h p = rw p
ready_stop_pending (x ∷ newer) b older stop (q, h) p = rw q (ready_stop_pending newer b older _ h p)

-- The list is empty, or its newest block is ready.
abbrev pub EndsReady : List Block → Type 0
EndsReady bs = (bs ≡ []) ⊎ ((ys : List Block) × (y : Block) × (bs ≡ ys ++ y ∷ []) × (y.ok ≡ true))

ready_stop_ready : (bs : List Block) (stop : ℕ) → EndsReady bs → ready_stop (reverse bs) stop ≡ stop
unfolding ready_stop
ready_stop_ready bs stop (inl e) = rw e
ready_stop_ready bs stop (inr (ys, y, e, h)) = rw (e, reverse-append ys (y ∷ [])) (rw h)

ready_part_pending :
    (ready : List Block) (b : Block) (pending : List Block)
    → EndsReady ready
    → All (λ x. x.ok ≡ false) (b ∷ pending)
    → ready_part (ready ++ b ∷ pending) ≡ ready ++ b ∷ []
unfolding ready_part
ready_part_pending ready b pending h w =
    let stop = length (ready ++ b ∷ pending) in
    let turned : reverse (ready ++ b ∷ pending) ≡ reverse pending ++ b ∷ reverse ready =
      simp (reverse-append, reverse-cons, append_assoc) in
    let stops : ready_stop (reverse (ready ++ b ∷ pending)) stop ≡ length (ready ++ b ∷ []) =
      rw turned (
        ready_stop_pending (reverse pending) b (reverse ready) stop (All-reverse _ pending w.1) w.0
        ∙ (ready_stop_ready ready _ h
            ∙ omega (arith, length-append ready (b ∷ []), length-reverse ready))) in
    let regroup : ready ++ b ∷ pending ≡ (ready ++ b ∷ []) ++ pending = simp append_assoc in
    rw stops (rw regroup (take-length-append (ready ++ b ∷ []) pending))

ready_part_ready : (bs : List Block) → EndsReady bs → ready_part bs ≡ bs
unfolding ready_part
ready_part_ready bs h =
    rw (ready_stop_ready bs (length bs) h)
      (subst (λ l. take (length bs) l ≡ bs) (append-nil bs) (take-length-append bs []))

module _ {F : Type 0} where
  -- `Blocks()` on a chain whose newest blocks wait for their logs, below which the newest block
  -- is ready or there is none: the ready part comes with the oldest of the waiting blocks.
  pub blocks_pending :
      (c : Chain F) (ready : List Block) (b : Block) (pending : List Block)
      → items c ≡ ready ++ b ∷ pending
      → EndsReady ready
      → All (λ x. x.ok ≡ false) (b ∷ pending)
      → blocks c ≡ ready ++ b ∷ []
  unfolding blocks
  blocks_pending c ready b pending e h w = ap ready_part e ∙ ready_part_pending ready b pending h w

  -- `Blocks()` on a chain whose newest block is ready returns every block.
  pub blocks_ready : (c : Chain F) → EndsReady (items c) → blocks c ≡ items c
  unfolding blocks
  blocks_ready c h = ready_part_ready (items c) h

Linked-distance :
    (b : Block) (newer : List Block) (top : Block)
    → Linked (b ∷ newer)
    → get_last? (b ∷ newer) ≡ some top
    → number_u64 top ≡ u64 (number_u64 b + length newer)
Linked-distance b [] top l e = ground arith
Linked-distance b (x ∷ newer) top l e = omega (arith, l.0.1, Linked-distance x newer top l.1 e)

Linked-suffix : (older newer : List Block) → Linked (older ++ newer) → Linked newer
Linked-suffix [] newer l = l
Linked-suffix (x ∷ []) [] l = tt
Linked-suffix (x ∷ []) (y ∷ newer) l = l.1
Linked-suffix (x ∷ y ∷ older) newer l = Linked-suffix (y ∷ older) newer l.1

get_last?-append :
    (older : List Block) (b : Block) (newer : List Block)
    → get_last? (older ++ b ∷ newer) ≡ get_last? (b ∷ newer)
get_last?-append [] b newer = refl
get_last?-append (x ∷ []) b newer = refl
get_last?-append (x ∷ y ∷ older) b newer = get_last?-append (y ∷ older) b newer

at_depth :
    (n : ℕ) (bs : List Block) (top b : Block)
    → Linked bs
    → get_last? bs ≡ some top
    → n < length bs
    → get_elem? bs (length bs - n - 1) ≡ some b
    → (older newer : List Block) × (bs ≡ older ++ b ∷ newer)
      × (length newer ≡ n)
      × (number_u64 top ≡ u64 (number_u64 b + n))
at_depth n bs top b l e h g =
    let (older, x, newer, place, count, found) =
      get_elem?-split bs (length bs - n - 1) (omega arith) in
    let same : x ≡ b = ground arith in
    let place' : bs ≡ older ++ b ∷ newer = subst (λ y. bs ≡ older ++ y ∷ newer) same place in
    let size : length newer ≡ n =
      omega (arith, ap length place', length-append older (b ∷ newer)) in
    (
      older,
      newer,
      place',
      size,
      rw (← size) (
          Linked-distance b newer top (Linked-suffix older (b ∷ newer) (subst Linked place' l))
            (sym (get_last?-append older b newer) ∙ (ap get_last? (sym place') ∙ e))),
    )

module _ {F : Type 0} where
  -- Of a canonical chain with a head, `LatestFinalBlock` returns the block with exactly `n`
  -- retained blocks above it, whose number is `n` below the head's; it is nil exactly where not
  -- more than `n` blocks are retained.
  pub latest_final_block_lem :
      (n : ℕ) (c : Chain F) (top : Block)
      → IsCanonical c
      → get_last? (items c) ≡ some top
      → ((latest_final_block n c ≡ none) ↔ (length (items c) ≤ n))
        × ((b : Block)
            → latest_final_block n c ≡ some b
            → (older newer : List Block) × (items c ≡ older ++ b ∷ newer)
              × (length newer ≡ n)
              × (number_u64 top ≡ u64 (number_u64 b + n)))
  unfolding latest_final_block
  latest_final_block_lem n c top h e = elim (Bool-cases (ltb (length (items c)) (n + 1))) [
    | inl few ↦ rw few ((λ p. ground arith, λ p. refl), λ b p. cc)
    | inr many ↦ rw many (
      (λ p. absurd (get_elem?-ne-none (items c) _ (ground arith) p), λ p. absurd (ground arith)),
      λ b p. at_depth n (items c) top b h.linked e (ground arith) p,
    )
  ]
