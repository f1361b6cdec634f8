-- ===== src/Ethreceipts/Listener/Waiting.antt =====
-- When a filter that waits is taken off.
use ethkit.Prelude.{
  ℕ, ◌+◌, ◌-◌, ◌^◌, ◌≤◌, ◌<◌, ◌≡◌, ◌≢◌, ◌⊎◌, ◌↔◌, refl, Bool, true, false, ◌&&◌, ◌||◌, not, leb,
  u64, ◌==◌, arith, Bool-cases, inl, inr,
}
use ethkit.Ethreceipts.Filter.{Filter}
use ethkit.Ethreceipts.Subscriber.{Listener}
use ethkit.Ethreceipts.Listener.{get_max_wait_blocks, is_overdue, check_exhausted}

and-true : (a b : Bool) → (a && b) ≡ true → (a ≡ true) × (b ≡ true)
and-true true b e = (cc, e)
and-true false b e = cc

difference : (a b : ℕ) → b ≤ a → a < 2 ^ 64 → u64 (a + 2 ^ 64 - b) ≡ a - b
difference a b h k = ground arith

far_enough :
    (max_wait latest since : ℕ)
    → u64 (latest + 2 ^ 64 - since) ≡ latest - since
    → since ≤ latest
    → leb max_wait (u64 (latest + 2 ^ 64 - since)) ≡ true
    → since + max_wait ≤ latest
far_enough max_wait latest since e below waited =
    let waited' : leb max_wait (latest - since) ≡ true = rw e at waited in ground arith

one_receipt : (a b : Bool) → (a && b || not a) ≡ true → a ≡ true → b ≡ true
one_receipt true true e o = refl
one_receipt true false e o = cc
one_receipt false b e o = cc

module _ (l : Listener) (latest : ℕ) (f : Filter) where
  abbrev pub limit : ℕ
  limit = get_max_wait_blocks l f.options.max_wait

  is_overdue_lem :
      l.max f.start_block_num f.last_match_block_num ≤ latest
      → latest < 2 ^ 64
      → is_overdue l latest f ≡ true
      → (limit ≢ 0)
        × (l.max f.start_block_num f.last_match_block_num + limit ≤ latest)
        × (f.options.limit_one ≡ true → f.last_match_block_num ≡ 0)
  unfolding is_overdue
  is_overdue_lem below small e =
      let since = difference latest (l.max f.start_block_num f.last_match_block_num) below small in
      let (tests, limited) =
        and-true
          (not (limit == 0)
            && leb limit (u64 (latest + 2 ^ 64 - l.max f.start_block_num f.last_match_block_num)))
          (f.options.limit_one && f.last_match_block_num == 0 || not f.options.limit_one) e in
      let (is_set, waited) =
        and-true (not (limit == 0))
          (leb limit (u64 (latest + 2 ^ 64 - l.max f.start_block_num f.last_match_block_num)))
          tests in
      (
        ground arith,
        far_enough limit _ _ since below waited,
        λ one.
            ground
              (arith, one_receipt f.options.limit_one (f.last_match_block_num == 0) limited one),
      )

  is_overdue-true :
      l.max f.start_block_num f.last_match_block_num ≤ latest
      → latest < 2 ^ 64
      → limit ≢ 0
      → l.max f.start_block_num f.last_match_block_num + limit ≤ latest
      → (f.options.limit_one ≡ true → f.last_match_block_num ≡ 0)
      → is_overdue l latest f ≡ true
  unfolding is_overdue
  is_overdue-true below small limited waited never =
      let is_set : (limit == 0) ≡ false = ground arith in
      let since = difference latest (l.max f.start_block_num f.last_match_block_num) below small in
      let far : leb limit (latest - l.max f.start_block_num f.last_match_block_num) ≡ true =
        ground arith in
      elim (Bool-cases f.options.limit_one) [
        | inl one ↦
            let first : (f.last_match_block_num == 0) ≡ true = ground (arith, never one) in
            rw (is_set, since, far, one, first) refl
        | inr one ↦ rw (is_set, since, far, one) refl
      ]

  check_exhausted_cases :
      (matched : Bool)
      → (check_exhausted l latest matched f).1 ≡ true
      → (matched ≡ false)
        × (f.start_block_num ≢ 0)
        × (is_overdue l latest f ≡ true)
        × ((check_exhausted l latest matched f).0 ≡ record f { exhausted = true })
  unfolding check_exhausted
  check_exhausted_cases true e = cc
  check_exhausted_cases false e = elim (Bool-cases (f.start_block_num == 0)) [
    | inl t ↦ absurd (cc (rw t at e))
    | inr t ↦ elim (Bool-cases (is_overdue l latest f)) [
      | inl u ↦ rw (t, u) (refl, ground arith, refl, refl)
      | inr u ↦ absurd (cc (rw (t, u) at e))
    ]
  ]

  -- A filter is taken off by the exhaust check only where it has started, has not matched now, and has
  -- a wait limit that has passed both since its start and since its last match, and where it takes
  -- one receipt only, has never matched; it is marked as exhausted then. The limit is what
  -- `getMaxWaitBlocks` gives, and 0 is none. This is for a maximum function, and for numbers that
  -- are not above the latest block's, which is a number of 64 bits. Under these conditions each such
  -- filter is taken off.
  pub check_exhausted_removes :
      (matched : Bool)
      → ((a b : ℕ) → (a ≤ l.max a b) × (b ≤ l.max a b) × ((l.max a b ≡ a) ⊎ (l.max a b ≡ b)))
      → l.max f.start_block_num f.last_match_block_num ≤ latest
      → latest < 2 ^ 64
      → ((check_exhausted l latest matched f).1 ≡ true ↔ (
          (matched ≡ false)
          × (f.start_block_num ≢ 0)
          × (limit ≢ 0)
          × (f.start_block_num + limit ≤ latest)
          × (f.last_match_block_num + limit ≤ latest)
          × (f.options.limit_one ≡ true → f.last_match_block_num ≡ 0)))
        × ((check_exhausted l latest matched f).1 ≡ true
            → (check_exhausted l latest matched f).0 ≡ record f { exhausted = true })
  unfolding check_exhausted
  check_exhausted_removes matched is_max below small =
      let (left, right, one_of) = is_max f.start_block_num f.last_match_block_num in
      (
        (
          λ e.
              let (missed, started, overdue, marked) = check_exhausted_cases matched e in
              let (limited, waited, never) = is_overdue_lem below small overdue in
              (
                missed,
                started,
                limited,
                omega (arith, left, waited),
                omega (arith, right, waited),
                never,
              ),
          λ (missed, started, limited, a, b, never).
              let there : (f.start_block_num == 0) ≡ false = ground arith in
              let waited : l.max f.start_block_num f.last_match_block_num + limit ≤ latest =
                elim one_of [ inl e ↦ omega arith | inr e ↦ omega arith ] in
              rw (missed, there, is_overdue-true below small limited waited never) refl,
        ),
        λ e. (check_exhausted_cases matched e).3,
      )
