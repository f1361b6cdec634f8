-- ===== src/Ethgas/Tests.antt =====
-- The theorems at a few prices.
use ethkit.Prelude.{
  ℕ, ◌+◌, ◌-◌, ◌*◌, ◌/◌, ◌≡◌, ◌↔◌, refl, get_elem?, Option, none, some, List, [], ◌∷◌, arith,
}
use ethkit.Ethgas.{SuggestedGasPrice, Bucket, with_min}
use ethkit.Ethgas.Percentile.{percentile_value}
use ethkit.Ethgas.Percentile.Samples.{samples, percentile_value-samples}
use ethkit.Ethgas.Gauge.{
  Gauge, GasBlock, block_prices, default_gas_price_bid_reader, default_gas_price_paid_reader,
}
use ethkit.Ethgas.Gauge.Prices.{Gathered, block_prices-Gathered}
use ethkit.Ethgas.Averages.{BigFloat, Places, Loop, new_emas, run_round}
use ethkit.Ethgas.Averages.Panics.{HasUnpriced, run_round_panics}
use ethkit.Ethgas.Bounds.{IsAbove, with_min_lem}

abbrev suggested : SuggestedGasPrice
suggested = record {
  instant = 3;
  fast = 2;
  standard = 1;
  slow = 0;
  instant_wei = some 3000000000;
  fast_wei = some 2000000000;
  standard_wei = some 1000000000;
  slow_wei = none;
  block_num = some 1;
  block_time = 12;
}

with_min_example :
    IsAbove 1500000000
      (with_min (some 1500000000) suggested).instant
      (with_min (some 1500000000) suggested).instant_wei
    × IsAbove 1500000000
        (with_min (some 1500000000) suggested).fast
        (with_min (some 1500000000) suggested).fast_wei
    × IsAbove 1500000000
        (with_min (some 1500000000) suggested).standard
        (with_min (some 1500000000) suggested).standard_wei
    × IsAbove 1500000000
        (with_min (some 1500000000) suggested).slow
        (with_min (some 1500000000) suggested).slow_wei
with_min_example = with_min_lem (some 1500000000) suggested (omega arith)

abbrev four : List Bucket
four =
    record { value = 2; count = 3 }
    ∷ record { value = 3; count = 1 }
    ∷ record { value = 4; count = 2 }
    ∷ record { value = 9; count = 4 }
    ∷ []

-- Of ten samples, the seventh from the least one is 9.
percentile_value-samples_example :
    percentile_value (λ n. n * 7 / 10) four ≡ get_elem? (samples four) 7
percentile_value-samples_example = percentile_value-samples (λ n. n * 7 / 10) four (omega arith)

abbrev offered : List (Option ℕ)
offered = some 7 ∷ some 2 ∷ some 7 ∷ some 5 ∷ []

gathered : block_prices 3 offered ≡ some (5 ∷ 7 ∷ 7 ∷ [])
unfolding block_prices
gathered = refl

block_prices-Gathered_example : Gathered 3 offered (block_prices 3 offered)
block_prices-Gathered_example = block_prices-Gathered 3 offered

-- Whole numbers serve as floats here, and a decay of 1 forgets the past.
instance abbrev whole_floats : BigFloat ℕ
whole_floats = record {
  one = 1;
  of_int = λ n. n;
  to_int = λ n. n;
  add = λ m n. m + n;
  sub = λ m n. m - n;
  mul = λ m n. m * n;
}

abbrev places : Places
places = record { at70 = λ n. n * 7 / 10; at60 = λ n. n * 6 / 10; at50 = λ n. n / 2 }

abbrev gauge : Gauge
gauge = record {
  chain_id = 1;
  bid_reader = default_gas_price_bid_reader;
  paid_reader = default_gas_price_paid_reader;
  suggested_bid = suggested;
  suggested_paid = suggested;
  min_gas_price = 1000000000;
}

abbrev at_start : Loop ℕ
at_start = record { gauge = gauge; bid = new_emas 1; paid = new_emas 1 }

-- The second transaction has a dynamic fee.
abbrev without_base_fee : GasBlock
without_base_fee = record {
  number = 7;
  time = 84;
  base_fee = none;
  transactions =
      record { typ = 0; gas_price = 3000000000; gas_tip_cap = 0; gas_fee_cap = 3000000000 }
      ∷ record { typ = 2; gas_price = 0; gas_tip_cap = 1; gas_fee_cap = 4000000000 }
      ∷ [];
}

run_round_panics_example :
    (run_round places (some without_base_fee) at_start ≡ none)
    ↔ HasUnpriced none without_base_fee.transactions
run_round_panics_example = run_round_panics places without_base_fee at_start refl refl
