-- ===== src/Benchmark/Latency.antt =====
-- `latencySummary` of internal/democlient/benchmark.go. Seconds are whole nanoseconds, so that the
-- ceiling of p percent of n is (p * n + 99) / 100; for up to 100000 samples the product in float64 has the same ceiling. `sort.Float64s` is an insertion sort.
pub mod Order
pub mod Ranks
use portkeeper.Common.{
  ℕ, ◌+◌, ◌-◌, ◌*◌, ◌/◌, List, [], ◌∷◌, Option, none, some, if◌then◌else◌, length, get_elem?,
}
use portkeeper.Common.Int.{ℤ, pos, leb_ℤ}

pub record LatencySummary : Type 0 where
  pub samples : ℕ
  pub p50 : ℤ
  pub p95 : ℤ
  pub p99 : ℤ

abbrev pub no_latency : LatencySummary
no_latency = record { samples = 0; p50 = pos 0; p95 = pos 0; p99 = pos 0 }

unfoldable pub insert_sorted : ℤ → List ℤ → List ℤ
insert_sorted x [] = x ∷ []
insert_sorted x (y ∷ ys) = if leb_ℤ x y then x ∷ y ∷ ys else y ∷ insert_sorted x ys

unfoldable pub sort : List ℤ → List ℤ
sort [] = []
sort (x ∷ xs) = insert_sorted x (sort xs)

-- `int(math.Ceil(p*float64(n))) - 1`, for p in percent.
abbrev pub rank_index : (percent n : ℕ) → ℕ
rank_index percent n = (percent * n + 99) / 100 - 1

value_or_zero : Option ℤ → ℤ
value_or_zero none = pos 0
value_or_zero (some v) = v

-- An index out of range would panic.
unfoldable pub percentile : ℕ → List ℤ → ℤ
unfolding value_or_zero
percentile percent sorted = value_or_zero (get_elem? sorted (rank_index percent (length sorted)))

unfoldable pub latency_summary : List ℤ → LatencySummary
latency_summary [] = no_latency
latency_summary (x ∷ xs) =
    let sorted = sort (x ∷ xs) in
    record {
      samples = length sorted;
      p50 = percentile 50 sorted;
      p95 = percentile 95 sorted;
      p99 = percentile 99 sorted;
    }
