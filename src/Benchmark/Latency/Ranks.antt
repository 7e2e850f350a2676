-- ===== src/Benchmark/Latency/Ranks.antt =====
-- The percentiles of a summary are those of the nearest rank.
use portkeeper.Common.{
  ℕ, ◌+◌, ◌*◌, ◌≤◌, ◌<◌, false, ◌≡◌, refl, List, [], ◌∷◌, length, count, arith, inl, inr,
  Bool-cases,
}
use portkeeper.Common.Int.{ℤ, leb_ℤ, ltb_ℤ, ◌≤ℤ◌}
use portkeeper.Benchmark.Latency.{
  LatencySummary, sort, rank_index, percentile, value_or_zero, latency_summary,
}
use portkeeper.Benchmark.Latency.Order.{
  count-sort, length-sort, sort-IsSorted, IsSorted-rank, get_elem?-lt,
}

-- Fewer than `percent` percent of the values are below v, and at least as many are not above it. No
-- other value is like that.
pub record IsNearestRank (percent : ℕ) (values : List ℤ) (v : ℤ) : Type 0 where
  pub below : 100 * count (λ y. ltb_ℤ y v) values < percent * length values
  pub up_to : percent * length values ≤ 100 * count (λ y. leb_ℤ y v) values

rank_index_bounds :
    (percent n i : ℕ)
    → 0 < percent * n
    → percent * n ≤ 100 * n
    → rank_index percent n ≡ i
    → (i < n) × (100 * i < percent * n) × (percent * n ≤ 100 * (i + 1))
rank_index_bounds percent n i h k e = (omega arith, omega arith, omega arith)

percentile-IsNearestRank :
    (percent : ℕ) (values : List ℤ)
    → 0 < percent * length values
    → percent * length values ≤ 100 * length values
    → IsNearestRank percent values (percentile percent (sort values))
unfolding percentile
percentile-IsNearestRank percent values h k =
    let i : ℕ = rank_index percent (length values) in
    let (inside, low, high) = rank_index_bounds percent (length values) i h k refl in
    let (v, e) = get_elem?-lt (sort values) i (omega (arith, inside, length-sort values)) in
    let (few, many) = IsSorted-rank (sort values) i v (sort-IsSorted values) e in
    rw (length-sort values, e)
      (unfold value_or_zero in
        record {
          below = omega (arith, few, low, count-sort (λ y. ltb_ℤ y v) values);
          up_to = omega (arith, many, high, count-sort (λ y. leb_ℤ y v) values);
        })

-- What a summary says of the values.
pub record Summarises (values : List ℤ) (s : LatencySummary) : Type 0 where
  pub counted : s.samples ≡ length values
  pub p50 : IsNearestRank 50 values s.p50
  pub p95 : IsNearestRank 95 values s.p95
  pub p99 : IsNearestRank 99 values s.p99

-- Two nearest ranks of the same values are in the order of their percentages.
IsNearestRank-le :
    (low high : ℕ) (values : List ℤ) (v w : ℤ)
    → low ≤ high
    → IsNearestRank low values v
    → IsNearestRank high values w
    → v ≤ℤ w
IsNearestRank-le low high values v w h a b = elim (Bool-cases (leb_ℤ v w)) [
  | inl below ↦ ground arith
  | inr above ↦
      let fewer : count (λ y. leb_ℤ y w) values ≤ count (λ y. ltb_ℤ y v) values =
        count_mono v w values above in
      let scaled : low * length values ≤ high * length values = grind arith in
      absurd (omega (arith, fewer, scaled, a.below, b.up_to))
]
  where
    count_mono :
        (v w : ℤ) (values : List ℤ)
        → leb_ℤ v w ≡ false
        → count (λ y. leb_ℤ y w) values ≤ count (λ y. ltb_ℤ y v) values
    count_mono v w [] e = omega arith
    count_mono v w (x ∷ xs) e = ground (arith, count_mono v w xs e)

-- Of one value or more, the summary counts each, and its percentiles are the values of the nearest
-- rank: fewer than p percent of the values are below, at least p percent are not above. They rise.
pub latency_summary-Summarises :
    (x : ℤ) (xs : List ℤ)
    → Summarises (x ∷ xs) (latency_summary (x ∷ xs))
      × ((latency_summary (x ∷ xs)).p50 ≤ℤ (latency_summary (x ∷ xs)).p95)
      × ((latency_summary (x ∷ xs)).p95 ≤ℤ (latency_summary (x ∷ xs)).p99)
unfolding latency_summary
latency_summary-Summarises x xs =
    let at = λ (p : ℕ) (h : 0 < p) (k : p ≤ 100).
      percentile-IsNearestRank p (x ∷ xs) (grind arith) (grind arith) in
    let p50 = at 50 (omega arith) (omega arith) in
    let p95 = at 95 (omega arith) (omega arith) in
    let p99 = at 99 (omega arith) (omega arith) in
    (
      record { counted = length-sort (x ∷ xs); p50 = p50; p95 = p95; p99 = p99 },
      IsNearestRank-le 50 95 (x ∷ xs) _ _ (omega arith) p50 p95,
      IsNearestRank-le 95 99 (x ∷ xs) _ _ (omega arith) p95 p99,
    )
