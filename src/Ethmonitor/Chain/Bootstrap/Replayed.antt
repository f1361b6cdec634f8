-- ===== src/Ethmonitor/Chain/Bootstrap/Replayed.antt =====
-- The bootstrap takes in a list of events as a subscriber would.
use ethkit.Prelude.{
  ℕ, ◌+◌, ◌≤◌, ◌≡◌, refl, sym, ap, ◌∙◌, true, false, none, some, List, [], ◌∷◌, ◌++◌, arith, length,
  length-append, All, All-append, snoc-cases, >>=-eq-some, ◌==◌, ltb, Bool-cases, Option-cases, inl,
  inr, if◌then◌else◌,
}
use ethkit.Ethmonitor.Block.{Event, added, removed, unknown, Block, event_eq}
use ethkit.Ethmonitor.Replay.{undo, effect, play}
use ethkit.Ethmonitor.Build.Events.{hashes, hashes-snoc}
use ethkit.Ethmonitor.Chain.{Chain, Float64, items, push, pop}
use ethkit.Ethmonitor.Chain.Invariant.{Linked, trimmed_within, items-push, push_limit, pop_snoc}
use ethkit.Ethmonitor.Chain.Bootstrap.{
  IsAdded, recent, push_or_pop, push_or_pop_added, or_stop, build_up, build_up-IsCanonical,
  empty-IsCanonical, fill, bootstrap_when, bootstrap_blocks,
}

All-front : (bs : List Block) (b : Block) → All IsAdded (bs ++ b ∷ []) → All IsAdded bs
All-front [] b h = tt
All-front (x ∷ bs) b (p, h) = (p, All-front bs b h)

undo-snoc :
    (hash : ℕ) (bs : List Block) (b : Block) (s : List ℕ)
    → undo hash (hashes (bs ++ b ∷ [])) ≡ some s
    → s ≡ hashes bs
unfolding undo
undo-snoc hash bs b s h = elim (Bool-cases (b.hash == hash)) [
  | inl t ↦ cc (rw (hashes-snoc bs b, t) at h)
  | inr t ↦ absurd (cc (rw (hashes-snoc bs b, t) at h))
]

no_effect : (n hash : ℕ) (stack s : List ℕ) → effect (unknown n) hash stack ≡ some s → ⊥
unfolding effect
no_effect n hash stack s h = cc

module _ {F : Type 0} ⦃fl : Float64 F⦄ where
  -- What one event makes of the chain, where there is room.
  record Stepped (b : Block) (c c' : Chain F) (s : List ℕ) : Type 0 where
    stack : hashes (items c') ≡ s
    kept : All IsAdded (items c) → All IsAdded (items c')
    limit : c'.retention_limit ≡ c.retention_limit
    size : length (items c') ≤ length (items c) + 1

  push-Stepped :
      (b : Block) (c : Chain F) (s : List ℕ)
      → b.event ≡ added
      → effect added b.hash (hashes (items c)) ≡ some s
      → length (items c) + 1 ≤ c.retention_limit
      → (push b c).1 ≡ none
      → Stepped b c (push b c).0 s
  unfolding effect
  push-Stepped b c s e h room ok =
      let now : items (push b c).0 ≡ items c ++ b ∷ [] =
        items-push b c ok ∙ trimmed_within c.retention_limit (items c) b (omega (arith, room)) in
      record {
        stack = ap hashes now ∙ hashes-snoc (items c) b ∙ (let there = h in cc);
        kept = λ a. rw now (All-append IsAdded (items c) (b ∷ []) a (e, tt));
        limit = push_limit b c;
        size = rw now (omega (arith, length-append (items c) (b ∷ [])));
      }

  pop-Stepped :
      (b : Block) (c : Chain F) (s : List ℕ)
      → effect removed b.hash (hashes (items c)) ≡ some s
      → Stepped b c (pop c).0 s
  unfolding effect undo
  pop-Stepped b c s h = elim (snoc-cases (items c)) [
    | inl e ↦ absurd (cc (rw e at h))
    | inr (ys, y, e) ↦ rw (pop_snoc c ys y e) (record {
      stack = sym (undo-snoc b.hash ys y s (rw e at h));
      kept = λ a. All-front ys y (rw e at a);
      limit = refl;
      size = omega (arith, ap length e, length-append ys (y ∷ []));
    })
  ]

  -- The loop's step for an event that a subscriber can play.
  push_or_pop-Stepped :
      (e : Event) (b : Block) (c : Chain F) (s : List ℕ)
      → b.event ≡ e
      → effect e b.hash (hashes (items c)) ≡ some s
      → length (items c) + 1 ≤ c.retention_limit
      → (push_or_pop b c).1 ≡ none
      → Stepped b c (push_or_pop b c).0 s
  unfolding push_or_pop
  push_or_pop-Stepped added b c s e h room ok =
      let is_push : push_or_pop b c ≡ push b c = push_or_pop_added b c e in
      rw is_push (push-Stepped b c s e h room (ap (λ x. x.1) (sym is_push) ∙ ok))
  push_or_pop-Stepped removed b c s e h room ok =
      let is_pop : push_or_pop b c ≡ ((pop c).0, none) =
        λ i. if event_eq (e i) added then push b c else ((pop c).0, none) in
      rw is_pop (pop-Stepped b c s h)
  push_or_pop-Stepped (unknown n) b c s e h room ok =
      absurd (no_effect n b.hash (hashes (items c)) s h)

  build_up-play :
      (bs : List Block) (c : Chain F) (t : List ℕ)
      → play bs (hashes (items c)) ≡ some t
      → length (items c) + length bs ≤ c.retention_limit
      → (build_up bs c).1 ≡ none
      → All IsAdded (items c)
      → (hashes (items (build_up bs c).0) ≡ t) × All IsAdded (items (build_up bs c).0)
  unfolding build_up play
  build_up-play [] c t h room ok all = (cc, all)
  build_up-play (b ∷ bs) c t h room ok all = elim (Option-cases (push_or_pop b c).1) [
    | inr (x, e) ↦ cc (rw (build_up, e, or_stop) at ok)
    | inl e ↦
        let (s, one, later) =
          >>=-eq-some (effect b.event b.hash (hashes (items c))) (play bs) t h in
        let step = push_or_pop-Stepped b.event b c s refl one (omega arith) e in
        rw (build_up, e, or_stop)
          (build_up-play bs (push_or_pop b c).0 t (rw step.stack later)
            (omega (arith, step.size, step.limit)) (rw (build_up, e, or_stop) at ok)
            (step.kept all))
  ]

  all_events :
      (a b : Block) (bs : List Block) (c : Chain F)
      → length (a ∷ b ∷ bs) ≤ c.retention_limit
      → fill (a ∷ b ∷ bs) c ≡ build_up (a ∷ b ∷ bs) (record c { blocks = some [] })
  unfolding fill recent
  all_events a b bs c few =
      let short : ltb c.retention_limit (length (a ∷ b ∷ bs)) ≡ false = ground arith in
      rw short refl

  -- In bootstrap mode, on a chain that is not filled yet, two or more events, added or removed, of which
  -- there are no more than the retention limit, and which make sense to a subscriber who starts
  -- with nothing: where the bootstrap ends without an error, the chain has the blocks that the
  -- subscriber has, all of them are added blocks, and they are linked.
  pub bootstrap_blocks-play :
      (a b : Block) (bs : List Block) (c : Chain F) (t : List ℕ)
      → c.bootstrap_mode ≡ true
      → c.blocks ≡ none
      → length (a ∷ b ∷ bs) ≤ c.retention_limit
      → play (a ∷ b ∷ bs) [] ≡ some t
      → (bootstrap_blocks (a ∷ b ∷ bs) c).1 ≡ none
      → (hashes (items (bootstrap_blocks (a ∷ b ∷ bs) c).0) ≡ t)
        × All IsAdded (items (bootstrap_blocks (a ∷ b ∷ bs) c).0)
        × Linked (items (bootstrap_blocks (a ∷ b ∷ bs) c).0)
  unfolding bootstrap_blocks
  bootstrap_blocks-play a b bs c t on fresh few played ok =
      let empty : Chain F = record c { blocks = some [] } in
      let run : bootstrap_blocks (a ∷ b ∷ bs) c ≡ build_up (a ∷ b ∷ bs) empty =
        (λ i. bootstrap_when (on i) (fresh i) (a ∷ b ∷ bs) c) ∙ all_events a b bs c few in
      let (same, all) =
        build_up-play (a ∷ b ∷ bs) empty t played (omega arith) (ap (λ x. x.1) (sym run) ∙ ok) tt in
      let canonical = build_up-IsCanonical (a ∷ b ∷ bs) empty (empty-IsCanonical c (omega arith)) in
      rw run (same, all, canonical.linked)
