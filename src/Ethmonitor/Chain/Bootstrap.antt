-- ===== src/Ethmonitor/Chain/Bootstrap.antt =====
-- ethmonitor/bootstrap.go: the chain is filled from a list of block events, oldest first. Reading and
-- writing JSON is the standard library's.
pub mod Replayed
use ethkit.Prelude.{
  ℕ, zero, suc, ◌+◌, ◌-◌, ◌≤◌, ◌≡◌, refl, sym, ◌∙◌, Bool, true, false, Option, none, some, List, [],
  ◌∷◌, ◌++◌, append_assoc, append-nil, arith, length, length-append, drop, get_last?, All, ltb,
  Option-cases, Bool-cases, inl, inr, if◌then◌else◌,
}
use ethkit.Ethmonitor.Block.{added, Block, event_eq, copy}
use ethkit.Ethmonitor.Chain.{
  Chain, Float64, Err, not_bootstrap_mode, already_bootstrapped, items, push, pop,
}
use ethkit.Ethmonitor.Chain.Invariant.{
  Linked, IsCanonical, Fits, trimmed, push-IsCanonical, pop-IsCanonical, push-accepts, items-push,
  push_limit,
}

-- `blocks[len(blocks)-limit-1:]` of a list that is longer than the limit
recent : ℕ → List Block → List Block
recent limit bs = if ltb limit (length bs) then drop (length bs - limit - 1) bs else bs

module _ {F : Type 0} ⦃fl : Float64 F⦄ where
  -- one round of the loop
  push_or_pop : Block → Chain F → Chain F × Option Err
  push_or_pop b c = if event_eq b.event added then push b c else ((pop c).0, none)

  or_stop : Option Err → Chain F × Option Err → Chain F → Chain F × Option Err
  or_stop none rest c = rest
  or_stop (some x) rest c = (c, some x)

  -- the first error ends the loop, and what was built stays
  build_up : List Block → Chain F → Chain F × Option Err
  unfolding push_or_pop or_stop
  build_up [] c = (c, none)
  build_up (b ∷ bs) c =
      let (c', err) = push_or_pop b c in let rest = build_up bs c' in or_stop err rest c'

  fill : List Block → Chain F → Chain F × Option Err
  unfolding build_up recent copy
  fill [] c = (record c { blocks = some [] }, none)
  fill (b ∷ []) c = (record c { blocks = some (copy (b ∷ [])) }, none)
  fill (a ∷ b ∷ bs) c =
      build_up (recent c.retention_limit (a ∷ b ∷ bs)) (record c { blocks = some [] })

  -- the arguments are `c.bootstrapMode` and `c.blocks`
  bootstrap_when : Bool → Option (List Block) → List Block → Chain F → Chain F × Option Err
  unfolding fill
  bootstrap_when false old bs c = (c, some not_bootstrap_mode)
  bootstrap_when true (some old) bs c = (c, some already_bootstrapped)
  bootstrap_when true none bs c = fill bs c

  unfoldable pub bootstrap_blocks : List Block → Chain F → Chain F × Option Err
  unfolding bootstrap_when
  bootstrap_blocks bs c = bootstrap_when c.bootstrap_mode c.blocks bs c

  push_or_pop-IsCanonical :
      (b : Block) (c : Chain F) → IsCanonical c → IsCanonical (push_or_pop b c).0
  unfolding push_or_pop
  push_or_pop-IsCanonical b c h = elim (Bool-cases (event_eq b.event added)) [
    | inl e ↦ rw e (push-IsCanonical b c h)
    | inr e ↦ rw e (pop-IsCanonical c h)
  ]

  build_up-IsCanonical :
      (bs : List Block) (c : Chain F) → IsCanonical c → IsCanonical (build_up bs c).0
  unfolding build_up
  build_up-IsCanonical [] c h = h
  build_up-IsCanonical (b ∷ bs) c h = elim (Option-cases (push_or_pop b c).1) [
    | inl e ↦
        rw (build_up, e, or_stop)
          (build_up-IsCanonical bs (push_or_pop b c).0 (push_or_pop-IsCanonical b c h))
    | inr (x, e) ↦ rw (build_up, e, or_stop) (push_or_pop-IsCanonical b c h)
  ]

  empty-IsCanonical :
      (c : Chain F) → 1 ≤ c.retention_limit → IsCanonical (record c { blocks = some [] })
  empty-IsCanonical c h = record { linked = tt; within = omega arith; room = h }

-- The last `n` elements.
abbrev pub last_n : ℕ → List Block → List Block
last_n n bs = drop (length bs - n) bs

last_n_short : (n : ℕ) (bs : List Block) → length bs ≤ n → last_n n bs ≡ bs
last_n_short n bs h = let e : length bs - n ≡ 0 = omega arith in rw e

last_n_step :
    (n : ℕ) (b : Block) (bs : List Block) → n ≤ length bs → last_n n (b ∷ bs) ≡ last_n n bs
last_n_step n b bs h = let e : suc (length bs) - n ≡ suc (length bs - n) = omega arith in rw e

last_n-drop : (n k : ℕ) (bs : List Block) → k + n ≤ length bs → last_n n (drop k bs) ≡ last_n n bs
last_n-drop n zero bs h = refl
last_n-drop n (suc k) [] h = refl
last_n-drop n (suc k) (b ∷ bs) h =
    last_n-drop n k bs (omega arith) ∙ sym (last_n_step n b bs (omega arith))

last_n-recent : (n : ℕ) (bs : List Block) → last_n n (recent n bs) ≡ last_n n bs
unfolding recent
last_n-recent n bs = elim (Bool-cases (ltb n (length bs))) [
  | inl long ↦ rw long (last_n-drop n (length bs - n - 1) bs (ground arith))
  | inr short ↦ rw short
]

abbrev pub IsAdded : Block → Type 0
IsAdded b = b.event ≡ added

All-drop : (k : ℕ) (bs : List Block) → All IsAdded bs → All IsAdded (drop k bs)
All-drop zero bs h = h
All-drop (suc k) [] h = tt
All-drop (suc k) (b ∷ bs) h = All-drop k bs h.1

Linked-tail : (b : Block) (bs : List Block) → Linked (b ∷ bs) → Linked bs
Linked-tail b [] l = tt
Linked-tail b (x ∷ bs) l = l.1

Linked-drop : (k : ℕ) (bs : List Block) → Linked bs → Linked (drop k bs)
Linked-drop zero bs l = l
Linked-drop (suc k) [] l = tt
Linked-drop (suc k) (b ∷ bs) l = Linked-drop k bs (Linked-tail b bs l)

recent_keeps :
    (n : ℕ) (bs : List Block)
    → All IsAdded bs
    → Linked bs
    → All IsAdded (recent n bs) × Linked (recent n bs)
unfolding recent
recent_keeps n bs a l = elim (Bool-cases (ltb n (length bs))) [
  | inl long ↦ rw long (All-drop _ bs a, Linked-drop _ bs l)
  | inr short ↦ rw short (a, l)
]

last_n-trimmed :
    (n : ℕ) (xs bs : List Block)
    → length xs ≤ n + 1
    → last_n n (trimmed n xs ++ bs) ≡ last_n n (xs ++ bs)
last_n-trimmed n [] bs h = ground arith
last_n-trimmed n (x ∷ xs) bs h = elim (Bool-cases (ltb n (length (x ∷ xs)))) [
  | inl long ↦ rw long (sym (last_n_step n x (xs ++ bs) (ground (arith, length-append xs bs))))
  | inr short ↦ rw short
]

Linked-trimmed : (n : ℕ) (xs bs : List Block) → Linked (xs ++ bs) → Linked (trimmed n xs ++ bs)
Linked-trimmed n [] bs l = elim (Bool-cases (ltb n 0)) [ inl t ↦ rw t l | inr t ↦ rw t l ]
Linked-trimmed n (x ∷ xs) bs l = elim (Bool-cases (ltb n (length (x ∷ xs)))) [
  | inl t ↦ rw t (Linked-tail x (xs ++ bs) l)
  | inr t ↦ rw t l
]

Linked-Fits :
    (xs : List Block) (b : Block) (bs : List Block) → Linked (xs ++ b ∷ bs) → Fits (get_last? xs) b
Linked-Fits [] b bs l = tt
Linked-Fits (x ∷ []) b bs l = l.0
Linked-Fits (x ∷ y ∷ xs) b bs l = Linked-Fits (y ∷ xs) b bs l.1

module _ {F : Type 0} ⦃fl : Float64 F⦄ where
  push_or_pop_added : (b : Block) (c : Chain F) → b.event ≡ added → push_or_pop b c ≡ push b c
  unfolding push_or_pop
  push_or_pop_added b c p = λ i. if event_eq (p i) added then push b c else ((pop c).0, none)

  build_up-Linked :
      (bs : List Block) (c : Chain F)
      → All IsAdded bs
      → Linked (items c ++ bs)
      → IsCanonical c
      → ((build_up bs c).1 ≡ none)
        × (items (build_up bs c).0 ≡ last_n c.retention_limit (items c ++ bs))
  unfolding build_up or_stop
  build_up-Linked [] c a l h =
      (refl, rw (append-nil (items c)) (sym (last_n_short c.retention_limit (items c) h.within)))
  build_up-Linked (b ∷ bs) c (p, a) l h =
      let c' = (push b c).0 in
      let n = c.retention_limit in
      let ok : (push b c).1 ≡ none = (push-accepts b c).0.1 (Linked-Fits (items c) b bs l) in
      let now : items c' ≡ trimmed n (items c ++ b ∷ []) = items-push b c ok in
      let regroup : items c ++ b ∷ bs ≡ (items c ++ b ∷ []) ++ bs =
        sym (append_assoc (items c) (b ∷ []) bs) in
      let next =
        build_up-Linked bs c' a
          (rw now (Linked-trimmed n (items c ++ b ∷ []) bs (rw (← regroup) l)))
          (push-IsCanonical b c h) in
      let step : push_or_pop b c ≡ (c', none) =
        push_or_pop_added b c p ∙ λ i. ((push b c).0, ok i) in
      rw (build_up, step, or_stop)
        (
          next.0,
          next.1
              ∙ (rw (push_limit b c, now, regroup)
                  (last_n-trimmed n (items c ++ b ∷ []) bs
                    (omega (arith, length-append (items c) (b ∷ []), h.within)))),
        )

  -- In bootstrap mode, on a chain that is not filled yet and whose retention limit is not zero, a
  -- linked list of two or more added blocks becomes the chain: all of it, or as many of the
  -- newest as the retention limit allows.
  pub bootstrap_blocks-Linked :
      (a b : Block) (bs : List Block) (c : Chain F)
      → 1 ≤ c.retention_limit
      → c.bootstrap_mode ≡ true
      → c.blocks ≡ none
      → All IsAdded (a ∷ b ∷ bs)
      → Linked (a ∷ b ∷ bs)
      → ((bootstrap_blocks (a ∷ b ∷ bs) c).1 ≡ none)
        × (items (bootstrap_blocks (a ∷ b ∷ bs) c).0 ≡ last_n c.retention_limit (a ∷ b ∷ bs))
  unfolding bootstrap_blocks
  bootstrap_blocks-Linked a b bs c h on fresh all l =
      let n = c.retention_limit in
      let kept = recent_keeps n (a ∷ b ∷ bs) all l in
      let built =
        build_up-Linked (recent n (a ∷ b ∷ bs)) (record c { blocks = some [] }) kept.0 kept.1
          (empty-IsCanonical c h) in
      let run : bootstrap_blocks (a ∷ b ∷ bs) c ≡ fill (a ∷ b ∷ bs) c =
        λ i. bootstrap_when (on i) (fresh i) (a ∷ b ∷ bs) c in
      rw run (built.0, built.1 ∙ last_n-recent n (a ∷ b ∷ bs))
