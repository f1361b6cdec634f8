-- ===== src/Ethmonitor/Chain/Invariant.antt =====
-- The invariant of `Chain`: each block names its predecessor, and the retention limit holds.
use ethkit.Prelude.{
  ℕ, ◌+◌, ◌≤◌, ◌≡◌, refl, ap, Bool, true, false, Option, none, some, List, [], ◌∷◌, ◌++◌, arith,
  length, length-append, length-drop, drop, Bool-cases, ==_iff, if◌then◌else◌, u64, get_last?,
  drop_last, get_last?-eq-none, get_last?-eq-some, get_last?-snoc, snoc-cases, ltb, ◌<◌, ◌↔◌, ◌∙◌,
  drop_last-snoc, ◌==◌, inl, inr,
}
use ethkit.Ethmonitor.Block.{Block, number_u64}
use ethkit.Ethmonitor.Chain.{
  Chain, Float64, Err, items, new_chain, append_block, update_time, push_onto, push, pop_from, pop,
}

-- `b` may stand on top of `a`.
abbrev pub Follows : Block → Block → Type 0
Follows a b = (b.parent_hash ≡ a.hash) × (number_u64 b ≡ u64 (number_u64 a + 1))

abbrev pub Linked : List Block → Type 0
Linked [] = Unit
Linked (a ∷ []) = Unit
Linked (a ∷ b ∷ bs) = Follows a b × Linked (b ∷ bs)

pub record IsCanonical {F : Type 0} (c : Chain F) : Type 0 where
  pub linked : Linked (items c)
  pub within : length (items c) ≤ c.retention_limit
  pub room : 1 ≤ c.retention_limit

pub Linked-snoc :
    (xs : List Block) (a b : Block)
    → Linked (xs ++ a ∷ [])
    → Follows a b
    → Linked ((xs ++ a ∷ []) ++ b ∷ [])
Linked-snoc [] a b l f = (f, tt)
Linked-snoc (x ∷ []) a b l f = (l.0, (f, tt))
Linked-snoc (x ∷ y ∷ xs) a b l f = (l.0, Linked-snoc (y ∷ xs) a b l.1 f)

pub Linked-drop_one : (xs : List Block) → Linked xs → Linked (drop 1 xs)
Linked-drop_one [] l = tt
Linked-drop_one (x ∷ []) l = tt
Linked-drop_one (x ∷ y ∷ xs) l = l.1

pub Linked-init : (xs : List Block) (a : Block) → Linked (xs ++ a ∷ []) → Linked xs
Linked-init [] a l = tt
Linked-init (x ∷ []) a l = tt
Linked-init (x ∷ y ∷ xs) a l = (l.0, Linked-init (y ∷ xs) a l.1)

-- What `push` requires of a block on the head.
abbrev pub Fits : Option Block → Block → Type 0
Fits none next = Unit
Fits (some top) next = Follows top next

-- The oldest block leaves a list that passes the limit.
abbrev pub trimmed : ℕ → List Block → List Block
trimmed limit bs = if ltb limit (length bs) then drop 1 bs else bs

pub trimmed_within :
    (limit : ℕ) (bs : List Block) (b : Block)
    → length bs < limit
    → trimmed limit (bs ++ b ∷ []) ≡ bs ++ b ∷ []
trimmed_within limit bs b h = ground (arith, length-append bs (b ∷ []))

trimmed_last :
    (limit : ℕ) (bs : List Block) (b : Block)
    → 1 ≤ limit
    → get_last? (trimmed limit (bs ++ b ∷ [])) ≡ some b
trimmed_last limit [] b h = ground arith
trimmed_last limit (x ∷ bs) b h = elim (Bool-cases (ltb limit (length (x ∷ bs ++ b ∷ [])))) [
  | inl t ↦ rw t (get_last?-snoc bs b)
  | inr t ↦ rw t (get_last?-snoc (x ∷ bs) b)
]

Linked-trim : (t : Bool) (xs : List Block) → Linked xs → Linked (if t then drop 1 xs else xs)
Linked-trim true xs l = Linked-drop_one xs l
Linked-trim false xs l = l

module _ {F : Type 0} where
  -- Popping a chain that ends in `b`.
  pub pop_snoc :
      (c : Chain F) (bs : List Block) (b : Block)
      → items c ≡ bs ++ b ∷ []
      → pop c ≡ (record c { blocks = some bs }, some b)
  unfolding pop pop_from
  pop_snoc c bs b e =
      rw (ap get_last? e ∙ get_last?-snoc bs b, pop_from, ap drop_last e ∙ drop_last-snoc bs b)

  pub pop_empty : (c : Chain F) → items c ≡ [] → pop c ≡ (c, none)
  unfolding pop pop_from
  pop_empty c e = rw (ap get_last? e, pop_from)

module _ {F : Type 0} ⦃fl : Float64 F⦄ where
  pub new_chain-IsCanonical :
      (limit : ℕ) (bootstrap : Bool) → IsCanonical {F = F} (new_chain limit bootstrap)
  unfolding new_chain
  new_chain-IsCanonical limit true = record {
    linked = tt;
    within = omega arith;
    room = ground arith;
  }
  new_chain-IsCanonical limit false = record {
    linked = tt;
    within = omega arith;
    room = ground arith;
  }

  append_block-IsCanonical :
      (b : Block) (c : Chain F)
      → Linked (items c ++ b ∷ [])
      → length (items c) ≤ c.retention_limit
      → 1 ≤ c.retention_limit
      → IsCanonical (append_block b c)
  unfolding append_block
  append_block-IsCanonical b c l w n = record {
    room = n;
    linked = Linked-trim _ _ l;
    within = ground (arith, length-append (items c) (b ∷ []), length-drop 1 (items c ++ b ∷ []));
  }

  push_onto-IsCanonical :
      (top : Option Block) (next : Block) (c : Chain F)
      → get_last? (items c) ≡ top
      → IsCanonical c
      → IsCanonical (push_onto top next c).0
  unfolding push_onto
  push_onto-IsCanonical none next c e h =
      append_block-IsCanonical next c (rw (get_last?-eq-none (items c) e) tt) h.within h.room
  push_onto-IsCanonical (some top) next c e h = elim (Bool-cases (next.parent_hash == top.hash)) [
    | inr bad ↦ rw bad h
    | inl p ↦ elim (Bool-cases (number_u64 next == u64 (number_u64 top + 1))) [
      | inr bad ↦ rw (p, bad) h
      | inl q ↦
          let (older, split) = get_last?-eq-some (items c) top e in
          rw (p, q)
            (append_block-IsCanonical next (update_time next top c)
              (rw split (
                Linked-snoc older top next (rw split at h.linked)
                  ((==_iff _ _).0 p, (==_iff _ _).0 q)))
              h.within h.room)
    ]
  ]

  -- After `push`, also of a block that it refuses, a canonical chain is canonical.
  pub push-IsCanonical : (next : Block) (c : Chain F) → IsCanonical c → IsCanonical (push next c).0
  unfolding push
  push-IsCanonical next c h = push_onto-IsCanonical _ next c refl h

  push_onto-accepts :
      (top : Option Block) (next : Block) (c : Chain F)
      → ((push_onto top next c).1 ≡ none) ↔ Fits top next
  unfolding push_onto
  push_onto-accepts none next c = (λ e. tt, λ f. refl)
  push_onto-accepts (some top) next c = (λ e. ground arith, λ f. ground arith)

  push_onto_refused :
      (top : Option Block) (next : Block) (c : Chain F) (x : Err)
      → (push_onto top next c).1 ≡ some x
      → (push_onto top next c).0 ≡ c
  unfolding push_onto
  push_onto_refused none next c x h = cc
  push_onto_refused (some top) next c x h = ground arith

  -- `push` accepts a block exactly where the chain is empty, or the block names the head's hash and
  -- has the next number; a refused block leaves the chain as it was.
  pub push-accepts :
      (next : Block) (c : Chain F)
      → (((push next c).1 ≡ none) ↔ Fits (get_last? (items c)) next)
        × ((x : Err) → (push next c).1 ≡ some x → (push next c).0 ≡ c)
  unfolding push
  push-accepts next c = (
    push_onto-accepts (get_last? (items c)) next c,
    push_onto_refused (get_last? (items c)) next c,
  )

  items-push_onto :
      (top : Option Block) (next : Block) (c : Chain F)
      → (push_onto top next c).1 ≡ none
      → items (push_onto top next c).0 ≡ trimmed c.retention_limit (items c ++ next ∷ [])
  unfolding push_onto append_block update_time
  items-push_onto none next c h = refl
  items-push_onto (some top) next c h = ground arith

  -- An accepted block becomes the head, and at most the oldest block leaves.
  pub items-push :
      (next : Block) (c : Chain F)
      → (push next c).1 ≡ none
      → items (push next c).0 ≡ trimmed c.retention_limit (items c ++ next ∷ [])
  unfolding push
  items-push next c h = items-push_onto (get_last? (items c)) next c h

  push_onto_limit :
      (top : Option Block) (next : Block) (c : Chain F)
      → (push_onto top next c).0.retention_limit ≡ c.retention_limit
  unfolding push_onto append_block update_time
  push_onto_limit none next c = refl
  push_onto_limit (some top) next c = ground arith

  pub push_limit :
      (next : Block) (c : Chain F) → (push next c).0.retention_limit ≡ c.retention_limit
  unfolding push
  push_limit next c = push_onto_limit (get_last? (items c)) next c

  pub pop-IsCanonical : (c : Chain F) → IsCanonical c → IsCanonical (pop c).0
  pop-IsCanonical c h = elim (snoc-cases (items c)) [
    | inl e ↦ rw (pop_empty c e) h
    | inr (bs, b, e) ↦ rw (pop_snoc c bs b e) (record {
      linked = Linked-init bs b (rw e at h.linked);
      within = omega (arith, length-append bs (b ∷ []), ap length e, h.within);
      room = h.room;
    })
  ]

  -- The accepted block is the newest.
  pub push_head :
      (next : Block) (c : Chain F)
      → IsCanonical c
      → (push next c).1 ≡ none
      → get_last? (items (push next c).0) ≡ some next
  push_head next c h e =
      ap get_last? (items-push next c e) ∙ trimmed_last c.retention_limit (items c) next h.room

  -- Below the limit, `pop` after an accepted `push` gives the block back and restores the chain's
  -- blocks.
  pub pop-push :
      (next : Block) (c : Chain F)
      → (push next c).1 ≡ none
      → length (items c) < c.retention_limit
      → (items (pop (push next c).0).0 ≡ items c) × ((pop (push next c).0).1 ≡ some next)
  pop-push next c h room =
      let e : items (push next c).0 ≡ items c ++ next ∷ [] =
        items-push next c h ∙ trimmed_within c.retention_limit (items c) next room in
      rw (pop_snoc (push next c).0 (items c) next e) (refl, refl)
