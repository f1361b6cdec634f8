-- ===== src/Ethgas/Averages.antt =====
-- ethgas/ema.go, and `emas.update` and the loop of `run` of ethgas/ethgas.go. The operations on big floats
-- are a `BigFloat`, and the places of the percentiles are parameters. A block that comes is the latest
-- of its batch, and none where the batch adds no block.
pub mod Panics
use ethkit.Prelude.{
  ℕ, ◌*◌, ◌/◌, Bool, true, false, ◌||◌, Option, none, some, List, [], ◌∷◌, u64, ◌==◌, ◌>>=◌,
  if◌then◌else◌,
}
use ethkit.Ethgas.{SuggestedGasPrice, one_gwei, big_int_max, gas_price_histogram}
use ethkit.Ethgas.Percentile.{Sampled, sample_prices}
use ethkit.Ethgas.Gauge.{GasBlock, Gauge, block_prices}

pub record BigFloat (F : Type 0) : Type 0 where
  pub one : F
  pub of_int : ℕ → F
  pub to_int : F → ℕ
  pub add : F → F → F
  pub sub : F → F → F
  pub mul : F → F → F

pub record Ema (F : Type 0) : Type 0 where
  pub decay : F
  pub value : Option ℕ

pub record Emas (F : Type 0) : Type 0 where
  pub instant : Ema F
  pub fast : Ema F
  pub standard : Ema F
  pub slow : Ema F

-- the gauge with the averages of the loop
pub record Loop (F : Type 0) : Type 0 where
  pub gauge : Gauge
  pub bid : Emas F
  pub paid : Emas F

-- the places of 70, 60 and 50 percent
pub record Places : Type 0 where
  pub at70 : ℕ → ℕ
  pub at60 : ℕ → ℕ
  pub at50 : ℕ → ℕ

unfoldable pub new_ema : {F : Type 0} → F → Ema F
new_ema decay = record { decay = decay; value = none }

unfoldable pub new_emas : {F : Type 0} → F → Emas F
unfolding new_ema
new_emas decay = record {
  instant = new_ema decay;
  fast = new_ema decay;
  standard = new_ema decay;
  slow = new_ema decay;
}

value_or : Option ℕ → ℕ → ℕ
value_or none price = price
value_or (some v) price = v

is_zero : Option ℕ → Bool
is_zero none = false
is_zero (some v) = v == 0

-- in gwei
gwei_of : Option ℕ → ℕ
gwei_of none = 0
gwei_of (some v) = u64 (v / one_gwei)

suggestion : {F : Type 0} → Emas F → SuggestedGasPrice
unfolding gwei_of
suggestion e = record {
  instant = gwei_of e.instant.value;
  fast = gwei_of e.fast.value;
  standard = gwei_of e.standard.value;
  slow = gwei_of e.slow.value;
  instant_wei = e.instant.value;
  fast_wei = e.fast.value;
  standard_wei = e.standard.value;
  slow_wei = e.slow.value;
  block_num = none;
  block_time = 0;
}

-- the suggestion with the number and the time of the block, where there is one
put_suggestion : Option SuggestedGasPrice → GasBlock → SuggestedGasPrice → SuggestedGasPrice
put_suggestion none b old = old
put_suggestion (some p) b old = record p { block_num = some b.number; block_time = b.time }

-- A percentile of a histogram that has buckets is there, so `none` does not come up.
module _ {F : Type 0} ⦃fl : BigFloat F⦄ where
  unfoldable pub tick : ℕ → Ema F → Ema F
  unfolding value_or
  tick price e =
      let current = fl.mul (fl.of_int price) e.decay in
      let past = fl.mul (fl.sub fl.one e.decay) (fl.of_int (value_or e.value price)) in
      record e { value = some (fl.to_int (fl.add current past)) }

  tick_all : Sampled → ℕ → Emas F → Emas F
  unfolding tick
  tick_all s least e =
      let standard = big_int_max s.low (some least) in
      record {
        instant = tick (big_int_max s.high (some least)) e.instant;
        fast = tick (big_int_max s.mid (some least)) e.fast;
        standard = tick standard e.standard;
        slow = tick (big_int_max (some (standard * 85 / 100)) (some least)) e.slow;
      }

  update_with : Sampled → ℕ → Emas F → Emas F × Option SuggestedGasPrice
  unfolding tick_all suggestion is_zero
  update_with s least e =
      if is_zero s.high || is_zero s.mid || is_zero s.low
      then (e, none)
      else let e' = tick_all s least e in (e', some (suggestion e'))

  unfoldable pub update : Places → List ℕ → ℕ → Emas F → Emas F × Option SuggestedGasPrice
  unfolding update_with
  update places [] least e = (e, none)
  update places (p ∷ ps) least e =
      update_with (sample_prices places.at70 places.at60 places.at50 (gas_price_histogram (p ∷ ps)))
        least e

  -- the prices of a block; a panic of either reading ends the loop
  gauge_block : Places → GasBlock → Option (List ℕ) → Option (List ℕ) → Loop F → Option (Loop F)
  unfolding put_suggestion
  gauge_block places b none paids l = none
  gauge_block places b (some bids) none l = none
  gauge_block places b (some bids) (some paids) l =
      let (bid, new_bid) = update places bids l.gauge.min_gas_price l.bid in
      let (paid, new_paid) = update places paids l.gauge.min_gas_price l.paid in
      some (record {
        gauge = record (l.gauge) {
          suggested_bid = put_suggestion new_bid b l.gauge.suggested_bid;
          suggested_paid = put_suggestion new_paid b l.gauge.suggested_paid;
        };
        bid = bid;
        paid = paid;
      })

  -- one round of the loop of `run`; `none` is a panic
  unfoldable pub run_round : Places → Option GasBlock → Loop F → Option (Loop F)
  unfolding gauge_block
  run_round places none l = some l
  run_round places (some b) l =
      gauge_block places b (l.gauge.bid_reader b >>= block_prices l.gauge.min_gas_price)
        (l.gauge.paid_reader b >>= block_prices l.gauge.min_gas_price) l
