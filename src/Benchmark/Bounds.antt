-- ===== src/Benchmark/Bounds.antt =====
-- What a benchmark that is accepted can ask for.
use text.Mathlib.TextEquality.{eq_iff}
use portkeeper.Common.{
  ℕ, ◌+◌, ◌*◌, ◌≤◌, String, Bool, true, false, ◌||◌, ◌&&◌, not, ◌≡◌, ◌≢◌, ◌⊎◌, inl, inr, refl, List,
  [], ◌∷◌, Option, none, some, ◌==◌, if◌then◌else◌, any, string_equal, arith, Bool-cases,
}
use portkeeper.Common.Int.{ℤ, pos, pos_part, int_equal, ltb_ℤ}
use portkeeper.Benchmark.{
  BenchmarkConfig, accepted, exceeds, total_of, by_total, bounded, with_defaults,
  normalize_benchmark,
}

-- The calls that are measured: one run of each worker for each of two tools and two targets.
abbrev pub measured : BenchmarkConfig → List ℤ → ℕ
measured c [] = 0
measured c (n ∷ ns) =
    pos_part n * pos_part c.calls_per_worker * pos_part c.repetitions * 4 + measured c ns

-- Every value is from 1 to 64.
abbrev pub AreWorkers : List ℤ → Type 0
AreWorkers [] = Unit
AreWorkers (n ∷ ns) = (ltb_ℤ n (pos 1) ≡ false) × (ltb_ℤ (pos 64) n ≡ false) × AreWorkers ns

total_of_lem :
    (c : BenchmarkConfig) (ns seen : List ℤ) (total result : ℕ)
    → total_of c ns seen total ≡ some result
    → AreWorkers ns × (result ≡ total + measured c ns)
unfolding total_of
total_of_lem c [] seen total result h = (tt, ground arith)
total_of_lem c (n ∷ ns) seen total result h =
    elim (Bool-cases (ltb_ℤ n (pos 1) || ltb_ℤ (pos 64) n || any (λ s. s == n) seen)) [
      | inl bad ↦ absurd (missing (rw (bad, if◌then◌else◌) at h))
      | inr fine ↦
          let (workers, sum) =
            total_of_lem c ns (n ∷ seen) _ result (rw (fine, if◌then◌else◌) at h) in
          ((ground arith, ground arith, workers), omega (arith, sum))
    ]
  where
    missing : none ≡ some result → ⊥
    missing e = cc

-- The bounds of an accepted benchmark.
pub record IsWithin (c : BenchmarkConfig) : Type 0 where
  pub topic : (c.topic ≡ "gateway-routing") ⊎ (c.topic ≡ "rate-limiting")
  pub workload : exceeds c ≡ false
  pub workers : AreWorkers c.concurrency
  pub calls : measured c c.concurrency ≤ 100_000

by_total-IsWithin :
    (c d : BenchmarkConfig) (o : Option ℕ)
    → total_of c c.concurrency [] 0 ≡ o
    → by_total c o ≡ accepted d
    → (d ≡ c) × AreWorkers c.concurrency × (measured c c.concurrency ≤ 100_000)
unfolding by_total
by_total-IsWithin c d none e h = cc
by_total-IsWithin c d (some total) e h =
    let (workers, sum) = total_of_lem c c.concurrency [] 0 total e in
    (ground arith, workers, ground (arith, sum))

bounded-IsWithin : (c d : BenchmarkConfig) → bounded c ≡ accepted d → (d ≡ c) × IsWithin c
unfolding bounded
bounded-IsWithin c d h =
    let named : (not (c.topic == "gateway-routing") && not (c.topic == "rate-limiting")) ≡ false =
      ground arith in
    let workload : exceeds c ≡ false = ground (arith, named) in
    let (same, workers, calls) =
      by_total-IsWithin c d (total_of c c.concurrency [] 0) refl
        (rw (named, if◌then◌else◌, workload, if◌then◌else◌) at h) in
    (
      same,
      record {
        topic = ground (arith, eq_iff c.topic "gateway-routing", eq_iff c.topic "rate-limiting");
        workload = workload;
        workers = workers;
        calls = calls;
      },
    )

-- A benchmark that is accepted has valid endpoints that differ, a token file, a known topic and values
-- within the bounds, 64 workers at most at a time, and measures 100000 calls at most; it is the one that
-- was asked for with the defaults filled in.
pub normalize_benchmark-IsWithin :
    (valid_target : String → Bool) (c d : BenchmarkConfig)
    → normalize_benchmark valid_target c ≡ accepted d
    → (d ≡ with_defaults c)
      × IsWithin d
      × (valid_target c.direct_endpoint ≡ true)
      × (valid_target c.gateway_endpoint ≡ true)
      × (c.direct_endpoint ≢ c.gateway_endpoint)
      × (c.credentials.token_file ≢ "")
unfolding normalize_benchmark
normalize_benchmark-IsWithin valid_target c d h =
    let direct : valid_target c.direct_endpoint ≡ true = ground arith in
    let gateway : valid_target c.gateway_endpoint ≡ true = ground (arith, direct) in
    let distinct : (c.direct_endpoint == c.gateway_endpoint || c.credentials.token_file == "")
        ≡ false =
      ground (arith, direct, gateway) in
    let (same, within) =
      bounded-IsWithin (with_defaults c) d (rw (direct, gateway, distinct) at h) in
    (
      same,
      rw (same) within,
      direct,
      gateway,
      ground (arith, eq_iff c.direct_endpoint c.gateway_endpoint),
      ground (arith, eq_iff c.credentials.token_file ""),
    )
