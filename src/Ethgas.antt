-- ===== src/Ethgas.antt =====
-- ethgas/ethgas.go: the floor under the suggested prices, and the histogram of the prices of a block.
-- Wei are natural numbers; a nil pointer is `none`. The percentiles, the rounds of the gauge and the
-- moving averages are in the child modules.
pub mod Averages
pub mod Bounds
pub mod Gauge
pub mod Percentile
pub mod Trim
mod Tests
use ethkit.Prelude.{
  ℕ, suc, ◌+◌, ◌-◌, ◌*◌, ◌/◌, ◌^◌, Bool, true, false, ◌||◌, Option, none, some, List, [], ◌∷◌, ◌++◌,
  length, take, drop, get_last?, ltb, leb, u64, ◌==◌, if◌then◌else◌,
}

abbrev pub one_gwei : ℕ
one_gwei = 1000000000

abbrev pub bucket_range : ℕ
bucket_range = 5000000000

pub record SuggestedGasPrice : Type 0 where
  pub instant : ℕ
  pub fast : ℕ
  pub standard : ℕ
  pub slow : ℕ
  pub instant_wei : Option ℕ
  pub fast_wei : Option ℕ
  pub standard_wei : Option ℕ
  pub slow_wei : Option ℕ
  pub block_num : Option ℕ
  pub block_time : ℕ

abbrev pub or_zero : Option ℕ → ℕ
or_zero none = 0
or_zero (some n) = n

unfoldable pub big_int_max : Option ℕ → Option ℕ → ℕ
big_int_max a b = if leb (or_zero b) (or_zero a) then or_zero a else or_zero b

-- the builtin `max`
abbrev pub max_of : ℕ → ℕ → ℕ
max_of a b = if ltb a b then b else a

-- the floor in gwei, rounded up, of which `Uint64` keeps the low 64 bits
unfoldable pub min_gwei : ℕ → ℕ
min_gwei min_wei = u64 ((min_wei + (one_gwei - 1)) / one_gwei)

-- `WithMin`
unfoldable pub with_min : Option ℕ → SuggestedGasPrice → SuggestedGasPrice
unfolding big_int_max min_gwei
with_min min_wei p =
    let low = min_gwei (or_zero min_wei) in
    record p {
      instant = max_of low p.instant;
      fast = max_of low p.fast;
      standard = max_of low p.standard;
      slow = max_of low p.slow;
      instant_wei = some (big_int_max min_wei p.instant_wei);
      fast_wei = some (big_int_max min_wei p.fast_wei);
      standard_wei = some (big_int_max min_wei p.standard_wei);
      slow_wei = some (big_int_max min_wei p.slow_wei);
    }

pub record Bucket : Type 0 where
  pub value : ℕ
  pub count : ℕ

unfoldable pub smallest : ℕ → List ℕ → ℕ
smallest low [] = low
smallest low (v ∷ vs) = smallest (if ltb v low then v else low) vs

unfoldable pub largest : ℕ → List ℕ → ℕ
largest high [] = high
largest high (v ∷ vs) = largest (if ltb high v then v else high) vs

-- at most 1000 buckets
abbrev pub bucket_count : ℕ → ℕ → ℕ
bucket_count low high = let n = (high - low) / bucket_range + 1 in if ltb 1000 n then 1000 else n

abbrev pub bucket_value : ℕ → ℕ → ℕ → ℕ
bucket_value low buckets v =
    let index = (v - low) / bucket_range in
    (if leb buckets index then buckets - 1 else index) * bucket_range + low

-- the map of buckets, by value
unfoldable pub count_in : ℕ → List Bucket → List Bucket
count_in value [] = record { value = value; count = 1 } ∷ []
count_in value (b ∷ bs) =
    let rest = count_in value bs in
    if b.value == value then record b { count = b.count + 1 } ∷ bs else b ∷ rest

unfoldable pub distribute : ℕ → ℕ → List ℕ → List Bucket → List Bucket
unfolding count_in
distribute low buckets [] h = h
distribute low buckets (v ∷ vs) h =
    distribute low buckets vs (count_in (bucket_value low buckets v) h)

-- `sort.Slice` by value; the values of a histogram differ from each other
unfoldable pub insert_bucket : Bucket → List Bucket → List Bucket
insert_bucket b [] = b ∷ []
insert_bucket b (x ∷ xs) = if ltb x.value b.value then x ∷ insert_bucket b xs else b ∷ x ∷ xs

unfoldable pub sort_by_value : List Bucket → List Bucket
unfolding insert_bucket
sort_by_value [] = []
sort_by_value (x ∷ xs) = insert_bucket x (sort_by_value xs)

-- the loop of `trimOutliers`: it stops at a value of at least twice the last one
unfoldable pub up_to_jump : ℕ → List Bucket → List Bucket
up_to_jump last [] = []
up_to_jump last (b ∷ bs) =
    let rest = up_to_jump b.value bs in if leb (2 * last) b.value then [] else b ∷ rest

last_value : Option Bucket → ℕ
last_value none = 0
last_value (some b) = b.value

-- three quarters of the buckets are kept in any case; the float product is exact for such lengths
keep_at : ℕ → List Bucket → List Bucket
unfolding up_to_jump last_value
keep_at x h =
    if x == length h || x == 0
    then h
    else take x h ++ up_to_jump (last_value (get_last? (take x h))) (drop x h)

unfoldable pub trim_outliers : List Bucket → List Bucket
unfolding keep_at sort_by_value
trim_outliers h = keep_at (length h * 3 / 4) (sort_by_value h)

unfoldable pub gas_price_histogram : List ℕ → List Bucket
unfolding distribute trim_outliers smallest largest
gas_price_histogram [] = []
gas_price_histogram (v ∷ vs) =
    let low = smallest v (v ∷ vs) in
    let high = largest v (v ∷ vs) in
    sort_by_value (trim_outliers (distribute low (bucket_count low high) (v ∷ vs) []))
