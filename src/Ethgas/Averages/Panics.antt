-- ===== src/Ethgas/Averages/Panics.antt =====
-- Where a block makes the loop of the gauge panic.
use ethkit.Prelude.{
  ℕ, ◌<◌, ◌≡◌, ◌⊎◌, ◌↔◌, refl, subst, ◌||◌, Option, none, some, List, [], ◌∷◌, map, arith, ◌==◌,
  Bool-cases, Option-cases, inl, inr, ◌>>=◌,
}
use ethkit.Ethgas.Gauge.{
  GasTransaction, GasBlock, with_base_fee, paid_price, paid_prices, default_gas_price_bid_reader,
  default_gas_price_paid_reader, block_prices,
}
use ethkit.Ethgas.Gauge.Prices.{HasNil, Gathered, block_prices-Gathered}
use ethkit.Ethgas.Averages.{BigFloat, Places, Loop, gauge_block, run_round}

-- The transaction has a dynamic fee and its block has no base fee.
abbrev pub LacksFee : Option ℕ → GasTransaction → Type 0
LacksFee base_fee t = (t.typ ≡ 2) × (base_fee ≡ none)

-- Some transaction lacks the base fee, or is of a type above that of a dynamic fee.
abbrev pub HasUnpriced : Option ℕ → List GasTransaction → Type 0
HasUnpriced base_fee [] = ⊥
HasUnpriced base_fee (t ∷ ts) = (2 < t.typ) ⊎ LacksFee base_fee t ⊎ HasUnpriced base_fee ts

bids_priced : (ts : List GasTransaction) → HasNil (map (λ t. some t.gas_fee_cap) ts) → ⊥
bids_priced [] h = h
bids_priced (t ∷ ts) h = bids_priced ts h

-- What the price of a transaction says of it.
abbrev PaidOne : Option ℕ → GasTransaction → Option (Option ℕ) → Type 0
PaidOne base_fee t none = LacksFee base_fee t
PaidOne base_fee t (some none) = 2 < t.typ
PaidOne base_fee t (some (some p)) = ((2 < t.typ) ⊎ LacksFee base_fee t) → ⊥

with_base_fee-PaidOne :
    (base_fee : Option ℕ) (t : GasTransaction)
    → t.typ ≡ 2
    → PaidOne base_fee t (with_base_fee base_fee t.gas_tip_cap)
unfolding with_base_fee
with_base_fee-PaidOne none t e = (e, refl)
with_base_fee-PaidOne (some fee) t e = λ h. elim h [ inl k ↦ omega arith | inr (k, n) ↦ cc ]

paid_price-PaidOne :
    (base_fee : Option ℕ) (t : GasTransaction) → PaidOne base_fee t (paid_price base_fee t)
unfolding paid_price
paid_price-PaidOne base_fee t = elim (Bool-cases (t.typ == 0 || t.typ == 1)) [
  | inl u ↦ rw u (λ h. elim h [ inl k ↦ ground arith | inr (k, n) ↦ ground arith ])
  | inr u ↦ elim (Bool-cases (t.typ == 2)) [
    | inl v ↦ rw (u, v) (with_base_fee-PaidOne base_fee t (ground arith))
    | inr v ↦ rw (u, v) (ground arith)
  ]
]

-- What the prices of a block say of its transactions.
abbrev PaidAll : Option ℕ → List GasTransaction → Option (List (Option ℕ)) → Type 0
PaidAll base_fee ts none = HasUnpriced base_fee ts
PaidAll base_fee ts (some ps) = HasNil ps ↔ HasUnpriced base_fee ts

paid_prices-PaidAll :
    (base_fee : Option ℕ) (ts : List GasTransaction) → PaidAll base_fee ts (paid_prices base_fee ts)
unfolding paid_prices
paid_prices-PaidAll base_fee [] = (λ h. h, λ h. h)
paid_prices-PaidAll base_fee (t ∷ ts) =
    both (paid_price base_fee t) (paid_prices base_fee ts) (paid_price-PaidOne base_fee t)
      (paid_prices-PaidAll base_fee ts)
  where
    both :
        (o : Option (Option ℕ)) (rest : Option (List (Option ℕ)))
        → PaidOne base_fee t o
        → PaidAll base_fee ts rest
        → PaidAll base_fee (t ∷ ts) (o >>= (λ price. rest >>= (λ prices. some (price ∷ prices))))
    both none rest p q = inr (inl p)
    both (some price) none p q = inr (inr q)
    both (some none) (some ps) p q = (λ h. inl p, λ h. tt)
    both (some (some x)) (some ps) p q = (
      λ h. inr (inr (q.0 h)),
      λ h. elim h [
        | inl k ↦ absurd (p (inl k))
        | inr (inl k) ↦ absurd (p (inr k))
        | inr (inr k) ↦ q.1 k
      ],
    )

none_when :
    (least : ℕ) (prices : List (Option ℕ)) → HasNil prices → block_prices least prices ≡ none
none_when least prices h = elim (Option-cases (block_prices least prices)) [
  | inl e ↦ e
  | inr (kept, e) ↦
      absurd ((subst (Gathered least prices) e (block_prices-Gathered least prices)).priced h)
]

nil_when : (least : ℕ) (prices : List (Option ℕ)) → block_prices least prices ≡ none → HasNil prices
nil_when least prices e = subst (Gathered least prices) e (block_prices-Gathered least prices)

-- The reading of the paid prices panics, or their comparison does.
paid_panics :
    (least : ℕ) (base_fee : Option ℕ) (ts : List GasTransaction) (o : Option (List (Option ℕ)))
    → PaidAll base_fee ts o
    → ((o >>= block_prices least) ≡ none) ↔ HasUnpriced base_fee ts
paid_panics least base_fee ts none p = (λ h. p, λ h. refl)
paid_panics least base_fee ts (some ps) p =
    (λ h. p.0 (nil_when least ps h), λ h. none_when least ps (p.1 h))

module _ {F : Type 0} ⦃fl : BigFloat F⦄ where
  -- With the default readers, a block makes the loop panic exactly where it holds a transaction with a
  -- dynamic fee but has no base fee, or holds a transaction of a type above that of a dynamic fee.
  pub run_round_panics :
      (places : Places) (b : GasBlock) (l : Loop F)
      → l.gauge.bid_reader b ≡ default_gas_price_bid_reader b
      → l.gauge.paid_reader b ≡ default_gas_price_paid_reader b
      → (run_round places (some b) l ≡ none) ↔ HasUnpriced b.base_fee b.transactions
  unfolding run_round gauge_block default_gas_price_bid_reader default_gas_price_paid_reader
  run_round_panics places b l bid paid =
      let least = l.gauge.min_gas_price in
      let panics =
        paid_panics least b.base_fee b.transactions (paid_prices b.base_fee b.transactions)
          (paid_prices-PaidAll b.base_fee b.transactions) in
      rw (bid, paid)
        (elim (Option-cases (block_prices least (map (λ t. some t.gas_fee_cap) b.transactions))) [
          | inl e ↦ absurd (bids_priced b.transactions (nil_when least _ e))
          | inr (bids, e) ↦
              elim (Option-cases (paid_prices b.base_fee b.transactions >>= block_prices least)) [
                | inl f ↦ rw (e, f) (λ h. panics.0 f, λ h. refl)
                | inr (paids, f) ↦ rw (e, f) (λ h. cc, λ h. absurd (cc (panics.1 h)))
              ]
        ])
