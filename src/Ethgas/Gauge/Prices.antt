-- ===== src/Ethgas/Gauge/Prices.antt =====
-- What the gauge makes of the prices of a block, and of the least price.
use ethkit.Prelude.{
  ℕ, ◌+◌, ◌≤◌, ◌≡◌, refl, ◌∙◌, Option, none, some, List, [], ◌∷◌, arith, All, ltb, leb, ◌==◌,
  Bool-cases, inl, inr, if◌then◌else◌,
}
use ethkit.Ethgas.Gauge.{
  Gauge, keep_price, keep_next, keep_prices, insert_price, sort_prices, sorted, block_prices,
}

abbrev pub IsAscending : List ℕ → Type 0
IsAscending [] = Unit
IsAscending (x ∷ xs) = All (λ y. x ≤ y) xs × IsAscending xs

-- how often a price stands in a list
abbrev pub occurrences : ℕ → List ℕ → ℕ
occurrences v [] = 0
occurrences v (x ∷ xs) = (if x == v then 1 else 0) + occurrences v xs

-- how often it stands in a list of prices that may be nil
abbrev pub offers : ℕ → List (Option ℕ) → ℕ
offers v [] = 0
offers v (none ∷ ps) = offers v ps
offers v (some x ∷ ps) = (if x == v then 1 else 0) + offers v ps

-- Some price is nil.
abbrev pub HasNil : List (Option ℕ) → Type 0
HasNil [] = ⊥
HasNil (none ∷ ps) = Unit
HasNil (some x ∷ ps) = HasNil ps

-- The prices from the least one up, each as often as it was offered, in ascending order.
pub record Gathers (least : ℕ) (prices : List (Option ℕ)) (kept : List ℕ) : Type 0 where
  pub priced : ¬ HasNil prices
  pub ascending : IsAscending kept
  pub counts : (v : ℕ) → occurrences v kept ≡ (if leb least v then offers v prices else 0)

-- The end of the call: `none` is a panic.
abbrev pub Gathered : ℕ → List (Option ℕ) → Option (List ℕ) → Type 0
Gathered least prices none = HasNil prices
Gathered least prices (some kept) = Gathers least prices kept

All-insert_price :
    (m p : ℕ) (xs : List ℕ) → m ≤ p → All (λ y. m ≤ y) xs → All (λ y. m ≤ y) (insert_price p xs)
unfolding insert_price
All-insert_price m p [] le h = (le, tt)
All-insert_price m p (x ∷ xs) le (q, h) = elim (Bool-cases (ltb x p)) [
  | inl t ↦ rw t (q, All-insert_price m p xs le h)
  | inr t ↦ rw t (le, (q, h))
]

All-le : (m n : ℕ) (xs : List ℕ) → m ≤ n → All (λ y. n ≤ y) xs → All (λ y. m ≤ y) xs
All-le m n [] le h = tt
All-le m n (x ∷ xs) le (q, h) = (omega arith, All-le m n xs le h)

insert_price-IsAscending : (p : ℕ) (xs : List ℕ) → IsAscending xs → IsAscending (insert_price p xs)
unfolding insert_price
insert_price-IsAscending p [] h = (tt, tt)
insert_price-IsAscending p (x ∷ xs) (q, h) = elim (Bool-cases (ltb x p)) [
  | inl t ↦ rw t (All-insert_price x p xs (ground arith) q, insert_price-IsAscending p xs h)
  | inr t ↦ let le : p ≤ x = ground arith in rw t ((le, All-le p x xs le q), (q, h))
]

sort_prices-IsAscending : (ps : List ℕ) → IsAscending (sort_prices ps)
unfolding sort_prices
sort_prices-IsAscending [] = tt
sort_prices-IsAscending (p ∷ ps) =
    insert_price-IsAscending p (sort_prices ps) (sort_prices-IsAscending ps)

occurrences-insert_price :
    (v p : ℕ) (xs : List ℕ) → occurrences v (insert_price p xs) ≡ occurrences v (p ∷ xs)
unfolding insert_price
occurrences-insert_price v p [] = refl
occurrences-insert_price v p (x ∷ xs) = elim (Bool-cases (ltb x p)) [
  | inl t ↦ rw t (omega (arith, occurrences-insert_price v p xs))
  | inr t ↦ rw t refl
]

occurrences-sort_prices : (v : ℕ) (ps : List ℕ) → occurrences v (sort_prices ps) ≡ occurrences v ps
unfolding sort_prices
occurrences-sort_prices v [] = refl
occurrences-sort_prices v (p ∷ ps) =
    omega (arith, occurrences-insert_price v p (sort_prices ps), occurrences-sort_prices v ps)

-- What `keep_prices` gives, without the order.
abbrev Keeps : ℕ → List (Option ℕ) → Option (List ℕ) → Type 0
Keeps least prices none = HasNil prices
Keeps least prices (some kept) =
    (¬ HasNil prices)
    × ((v : ℕ) → occurrences v kept ≡ (if leb least v then offers v prices else 0))

occurrences-keep_price :
    (least x v n : ℕ) (rest : List ℕ)
    → occurrences v rest ≡ (if leb least v then n else 0)
    → occurrences v (keep_price least x rest)
      ≡ (if leb least v then (if x == v then 1 else 0) + n else 0)
unfolding keep_price
occurrences-keep_price least x v n rest h = elim (Bool-cases (leb least x)) [
  | inl t ↦ rw (t, h) (ground arith)
  | inr t ↦ rw (t, h) (ground arith)
]

keep_next-Keeps :
    (least : ℕ) (p : Option ℕ) (ps : List (Option ℕ)) (o : Option (List ℕ))
    → Keeps least ps o
    → Keeps least (p ∷ ps) (keep_next least p o)
unfolding keep_next
keep_next-Keeps least (some x) ps (some rest) (priced, h) =
    (priced, λ v. occurrences-keep_price least x v (offers v ps) rest (h v))
keep_next-Keeps least (some x) ps none h = h
keep_next-Keeps least none ps o h = tt

keep_prices-Keeps : (least : ℕ) (ps : List (Option ℕ)) → Keeps least ps (keep_prices least ps)
unfolding keep_prices
keep_prices-Keeps least [] = (λ e. e, λ v. ground arith)
keep_prices-Keeps least (p ∷ ps) =
    keep_next-Keeps least p ps (keep_prices least ps) (keep_prices-Keeps least ps)

sorted-Gathered :
    (least : ℕ) (ps : List (Option ℕ)) (o : Option (List ℕ))
    → Keeps least ps o
    → Gathered least ps (sorted o)
unfolding sorted
sorted-Gathered least ps none h = h
sorted-Gathered least ps (some kept) (priced, h) = record {
  priced = priced;
  ascending = sort_prices-IsAscending kept;
  counts = λ v. occurrences-sort_prices v kept ∙ h v;
}

-- A block's prices are gathered where none of them is nil: those from the least one up remain, each as
-- often as it was offered, in ascending order. With a nil price there is a panic, and only then.
pub block_prices-Gathered :
    (least : ℕ) (prices : List (Option ℕ)) → Gathered least prices (block_prices least prices)
unfolding block_prices
block_prices-Gathered least prices =
    sorted-Gathered least prices (keep_prices least prices) (keep_prices-Keeps least prices)
