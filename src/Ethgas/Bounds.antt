-- ===== src/Ethgas/Bounds.antt =====
-- No suggested price is below the floor.
use ethkit.Prelude.{ℕ, ◌*◌, ◌^◌, ◌≤◌, ◌<◌, ◌≡◌, refl, Option, some, arith}
use ethkit.Ethgas.{SuggestedGasPrice, one_gwei, or_zero, big_int_max, max_of, min_gwei, with_min}

-- A price in wei, and the one in gwei, that are not below the floor.
abbrev pub IsAbove : ℕ → ℕ → Option ℕ → Type 0
IsAbove floor gwei wei =
    (floor ≤ gwei * one_gwei) × (wei ≡ some (or_zero wei)) × (floor ≤ or_zero wei)

min_gwei_lem : (floor : ℕ) → floor < 2 ^ 64 → floor ≤ min_gwei floor * one_gwei
unfolding min_gwei
min_gwei_lem floor small = ground arith

price-IsAbove :
    (min_wei wei : Option ℕ) (gwei : ℕ)
    → or_zero min_wei < 2 ^ 64
    → IsAbove
        (or_zero min_wei)
        (max_of (min_gwei (or_zero min_wei)) gwei)
        (some (big_int_max min_wei wei))
unfolding big_int_max
price-IsAbove min_wei wei gwei small =
    let enough = min_gwei_lem (or_zero min_wei) small in
    (ground (arith, enough), refl, ground arith)

-- With a floor below 2^64 wei, all four suggested prices are at least the floor, in gwei and in wei.
pub with_min_lem :
    (min_wei : Option ℕ) (p : SuggestedGasPrice)
    → or_zero min_wei < 2 ^ 64
    → IsAbove (or_zero min_wei) (with_min min_wei p).instant (with_min min_wei p).instant_wei
      × IsAbove (or_zero min_wei) (with_min min_wei p).fast (with_min min_wei p).fast_wei
      × IsAbove (or_zero min_wei) (with_min min_wei p).standard (with_min min_wei p).standard_wei
      × IsAbove (or_zero min_wei) (with_min min_wei p).slow (with_min min_wei p).slow_wei
unfolding with_min
with_min_lem min_wei p small = (
  price-IsAbove min_wei p.instant_wei p.instant small,
  price-IsAbove min_wei p.fast_wei p.fast small,
  price-IsAbove min_wei p.standard_wei p.standard small,
  price-IsAbove min_wei p.slow_wei p.slow small,
)
