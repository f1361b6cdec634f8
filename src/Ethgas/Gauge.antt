-- ===== src/Ethgas/Gauge.antt =====
-- The gauge of ethgas/ethgas.go, the readers of ethgas/readers.go and the averages of ethgas/ema.go. The
-- operations on big floats are a `BigFloat`; the chain's number and what a block's transactions hold are
-- values. A nil price is `none`: to compare it is a panic.
pub mod Prices
use ethkit.Prelude.{
  ℕ, suc, ◌+◌, ◌*◌, ◌/◌, ◌%◌, ◌^◌, Bool, true, false, ◌||◌, Option, none, some, List, [], ◌∷◌, map,
  ltb, leb, u64, ◌==◌, ◌>>=◌, if◌then◌else◌,
}
use ethkit.Ethgas.{SuggestedGasPrice, one_gwei, big_int_max, gas_price_histogram}
use ethkit.Ethgas.Percentile.{Sampled, sample_prices}

pub record GasTransaction : Type 0 where
  pub typ : ℕ
  pub gas_price : ℕ
  pub gas_tip_cap : ℕ
  pub gas_fee_cap : ℕ

pub record GasBlock : Type 0 where
  pub number : ℕ
  pub time : ℕ
  -- nil before the London fork
  pub base_fee : Option ℕ
  pub transactions : List GasTransaction

-- `none` is a panic
abbrev pub GasPriceReader : Type 0
GasPriceReader = GasBlock → Option (List (Option ℕ))

unfoldable pub default_gas_price_bid_reader : GasPriceReader
default_gas_price_bid_reader b = some (map (λ t. some t.gas_fee_cap) b.transactions)

-- the sum of `Add`, which reads a nil pointer
unfoldable pub with_base_fee : Option ℕ → ℕ → Option (Option ℕ)
with_base_fee none tip = none
with_base_fee (some fee) tip = some (some (fee + tip))

-- legacy, access list and dynamic fee are 0, 1 and 2; the price of another type stays nil
unfoldable pub paid_price : Option ℕ → GasTransaction → Option (Option ℕ)
unfolding with_base_fee
paid_price base_fee t =
    if t.typ == 0 || t.typ == 1
    then some (some t.gas_price)
    else if t.typ == 2
    then with_base_fee base_fee t.gas_tip_cap
    else some none

unfoldable pub paid_prices : Option ℕ → List GasTransaction → Option (List (Option ℕ))
unfolding paid_price
paid_prices base_fee [] = some []
paid_prices base_fee (t ∷ ts) = do
  price ← paid_price base_fee t
  prices ← paid_prices base_fee ts
  some (price ∷ prices)

unfoldable pub default_gas_price_paid_reader : GasPriceReader
unfolding paid_prices
default_gas_price_paid_reader b = paid_prices b.base_fee b.transactions

unfoldable pub arbitrum_gas_price_paid_reader : GasPriceReader
arbitrum_gas_price_paid_reader b = some (map (λ t. b.base_fee) b.transactions)

-- the chains in `CustomGasPricePaidReaders`
is_arbitrum : ℕ → Bool
is_arbitrum id =
    id == 42161 || id == 42170 || id == 421611 || id == 421613 || id == 421614 || id == 200

unfoldable pub paid_reader : ℕ → GasPriceReader
unfolding is_arbitrum
paid_reader id =
    if is_arbitrum id then arbitrum_gas_price_paid_reader else default_gas_price_paid_reader

pub data Err : Type 0 where
  looks_like_wei zero_price no_chain_id : Err

pub data Result {ℓ} (A : Type ℓ) : Type ℓ where
  ok : A → Result A
  fails : Err → Result A

pub record Gauge : Type 0 where
  pub chain_id : ℕ
  pub bid_reader : GasPriceReader
  pub paid_reader : GasPriceReader
  pub suggested_bid : SuggestedGasPrice
  pub suggested_paid : SuggestedGasPrice
  pub min_gas_price : ℕ

abbrev no_suggestion : SuggestedGasPrice
no_suggestion = record {
  instant = 0;
  fast = 0;
  standard = 0;
  slow = 0;
  instant_wei = none;
  fast_wei = none;
  standard_wei = none;
  slow_wei = none;
  block_num = none;
  block_time = 0;
}

with_chain_id : Option ℕ → ℕ → Result Gauge
with_chain_id none min_wei = fails no_chain_id
with_chain_id (some id) min_wei = ok (record {
  chain_id = u64 id;
  bid_reader = default_gas_price_bid_reader;
  paid_reader = paid_reader (u64 id);
  suggested_bid = no_suggestion;
  suggested_paid = no_suggestion;
  min_gas_price = min_wei;
})

-- the first argument is what the provider answers; a price of 2^63 and more is negative in the source
-- and not modelled
unfoldable pub new_gas_gauge_wei : Option ℕ → ℕ → Result Gauge
unfolding with_chain_id
new_gas_gauge_wei chain_id min_wei =
    if min_wei == 0 then fails zero_price else with_chain_id chain_id min_wei

in_gwei : ℕ → Result Gauge → Result Gauge
in_gwei gwei (ok g) = ok (record g { min_gas_price = gwei * one_gwei })
in_gwei gwei (fails e) = fails e

unfoldable pub new_gas_gauge : Option ℕ → ℕ → Result Gauge
unfolding in_gwei
new_gas_gauge chain_id min_gwei =
    if leb one_gwei min_gwei
    then fails looks_like_wei
    else if min_gwei == 0
    then fails zero_price
    else in_gwei min_gwei (new_gas_gauge_wei chain_id (u64 (min_gwei * one_gwei)))

-- the prices that are not below the least one
keep_price : ℕ → ℕ → List ℕ → List ℕ
keep_price least p rest = if leb least p then p ∷ rest else rest

keep_next : ℕ → Option ℕ → Option (List ℕ) → Option (List ℕ)
unfolding keep_price
keep_next least (some p) (some rest) = some (keep_price least p rest)
keep_next least (some p) none = none
keep_next least none rest = none

keep_prices : ℕ → List (Option ℕ) → Option (List ℕ)
unfolding keep_next
keep_prices least [] = some []
keep_prices least (p ∷ ps) = keep_next least p (keep_prices least ps)

-- `sort.Slice`; equal prices are alike
insert_price : ℕ → List ℕ → List ℕ
insert_price p [] = p ∷ []
insert_price p (x ∷ xs) = let rest = insert_price p xs in if ltb x p then x ∷ rest else p ∷ x ∷ xs

sort_prices : List ℕ → List ℕ
unfolding insert_price
sort_prices [] = []
sort_prices (p ∷ ps) = insert_price p (sort_prices ps)

sorted : Option (List ℕ) → Option (List ℕ)
unfolding sort_prices
sorted none = none
sorted (some ps) = some (sort_prices ps)

-- what `run` makes of the prices of a block; `none` is a panic
unfoldable pub block_prices : ℕ → List (Option ℕ) → Option (List ℕ)
unfolding keep_prices sorted
block_prices least prices = sorted (keep_prices least prices)
