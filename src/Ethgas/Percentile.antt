-- ===== src/Ethgas/Percentile.antt =====
-- ethgas/ethgas.go, `percentileValue` and `samplePrices`. The index of a percentile is computed with
-- floats: `place` is that computation, from the number of samples.
pub mod Samples
use ethkit.Prelude.{
  ℕ, zero, suc, ◌+◌, Option, none, some, List, [], ◌∷◌, get_last?, ltb, u64, if◌then◌else◌,
}
use ethkit.Ethgas.{Bucket, sort_by_value}

-- the sum of the counts, which are of prices in memory, and do not reach 2^64
num_samples : List Bucket → ℕ
num_samples [] = 0
num_samples (b ∷ bs) = b.count + num_samples bs

value_of : Option Bucket → Option ℕ
value_of none = none
value_of (some b) = some b.value

-- the loop over the buckets, with the samples considered so far; the first argument is the last bucket
find_sample : Option Bucket → ℕ → ℕ → List Bucket → Option ℕ
unfolding value_of
find_sample last considered index [] = value_of last
find_sample last considered index (b ∷ bs) =
    let rest = find_sample last (considered + b.count) index bs in
    if ltb index (considered + b.count) then some b.value else rest

-- `none` is an index out of range, of no buckets
unfoldable pub percentile_value : (ℕ → ℕ) → List Bucket → Option ℕ
unfolding num_samples find_sample
percentile_value place h = find_sample (get_last? h) 0 (place (num_samples h)) h

pub record Sampled : Type 0 where
  pub high : Option ℕ
  pub mid : Option ℕ
  pub low : Option ℕ

-- the places of 70, 60 and 50 percent
unfoldable pub sample_prices : (ℕ → ℕ) → (ℕ → ℕ) → (ℕ → ℕ) → List Bucket → Sampled
sample_prices at70 at60 at50 [] = record { high = some 0; mid = some 0; low = some 0 }
sample_prices at70 at60 at50 (b ∷ bs) =
    let h = sort_by_value (b ∷ bs) in
    record {
      high = percentile_value at70 h;
      mid = percentile_value at60 h;
      low = percentile_value at50 h;
    }
